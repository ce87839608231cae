-- ===== src/Sync.antt =====
-- The parts of the QBO sync engine, apps/api/src/qbo.
pub mod Retry
pub mod Ordering
pub mod Conflict
pub mod Links
pub mod EventDedup
pub mod NaturalKey
