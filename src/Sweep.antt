-- ===== src/Sweep.antt =====
-- apps/api/src/qbo/retry-sweep.ts: the failed links whose wait is over are tried again.
pub mod Query
pub mod Literal
pub mod Reconcile
pub mod Retry
pub mod Groups
pub mod Total
