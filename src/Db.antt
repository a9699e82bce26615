-- ===== src/Db.antt =====
-- The crate backend/db: the local database.
pub mod Table
pub mod Connections
