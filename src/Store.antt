-- ===== src/Store.antt =====
-- Package internal/store.
pub mod Memory
pub mod Directory
pub mod Events
pub mod Audit
pub mod Deliveries
pub mod Listing
