-- ===== src/Protobuf.antt =====
-- The crate backend/protobuf: payloads read without a schema.
pub mod Json
pub mod Wire
