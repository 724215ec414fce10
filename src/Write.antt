-- ===== src/Write.antt =====
-- internal/domain/write: the buffer of the writes that wait for a tablet, and their retries.
pub mod Types
pub mod Entries
pub mod Sort
pub mod Evict
pub mod Buffer
pub mod Retry
mod Tests
