-- ===== src/Outbox.antt =====
-- The transactional outbox (crates/fp-storage/src/outbox.rs): events, and the cursors of consumers.
pub mod Store
pub mod Order
pub mod Delivery
pub mod History
pub mod Contiguous
mod Tests
