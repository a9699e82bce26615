-- ===== src/Core.antt =====
-- The crate backend/core: registry, cancellation, streaming and publishing rules.
pub mod Auth
pub mod Connection
pub mod ConnectionExport
pub mod DataMigration
pub mod Errors
pub mod Registry
pub mod Publish
pub mod Cancellation
pub mod Stream
