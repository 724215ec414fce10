-- ===== src/Health.antt =====
-- Health checks: internal/domain/health.
pub mod Analysis
pub mod Tables
pub mod Coherence
pub mod Decisions
pub mod Executability
pub mod Backends
pub mod Checks
pub mod Report
pub mod Unchecked
pub mod Caching
mod Tests
