-- ===== src/Commands.antt =====
-- The crate src-tauri: the commands that the frontend calls.
pub mod Publish
pub mod Transfer
