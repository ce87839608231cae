-- ===== src/Inbound.antt =====
-- apps/api/src/qbo/inbound-sync.ts: a change that was read from QBO is taken to the local records.
pub mod Body
pub mod Mappers
pub mod Guards
pub mod Invoice
pub mod Payment
pub mod Candidates
pub mod Imports
pub mod PaymentImport
pub mod Apply
pub mod Linked
pub mod Books
pub mod Inert
pub mod Current
pub mod Removing
pub mod Settled
pub mod Outdated
pub mod Conflicts
