-- ===== src/Outbound.antt =====
-- apps/api/src/qbo/outbound-sync.ts: what is pushed from the local records to QBO.
pub mod Builders
pub mod Effects
pub mod Push
pub mod Removal
pub mod Documents
pub mod PaymentPush
pub mod Guarding
pub mod Once
pub mod RoundTrip
