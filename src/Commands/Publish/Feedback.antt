-- ===== src/Commands/Publish/Feedback.antt =====
-- What one publish's failure does to the next publish.
use offset_explorer_oxide.Common.Equality.{pair_eq}
use offset_explorer_oxide.Core.Connection.{Connection}
