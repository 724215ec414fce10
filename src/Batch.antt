-- ===== src/Batch.antt =====
-- internal/batch: messages are put together into batches before they are written.
pub mod Aggregator
pub mod Partitions
pub mod Strategy
mod Tests
