-- ===== src/Kafka.antt =====
-- The crate backend/kafka: what a fetch reads, and how its answers are decoded.
pub mod Assignment
pub mod Auth
pub mod Budget
pub mod Config
pub mod Fetch
pub mod Plan
pub mod Pool
pub mod Producer
pub mod Shards
