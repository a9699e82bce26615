-- ===== src/Db/Connections/Listed.antt =====
-- The list of all connections, in the order of their creation.
use offset_explorer_oxide.Core.Connection.{Connection}
use offset_explorer_oxide.Db.Connections.{row_id}
