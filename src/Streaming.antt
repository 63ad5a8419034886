-- ===== src/Streaming.antt =====
-- The consumer of marketplace events: src/streaming/kafka_consumer.py.
pub mod Messages
pub mod Consuming
pub mod Accounting
pub mod Identity
pub mod Examples
