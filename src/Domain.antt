-- ===== src/Domain.antt =====
-- Package internal/domain: the canonical schema and its vocabulary.
pub mod Delivery
pub mod Event
pub mod Status
pub mod Tenancy
pub mod Config
pub mod Amount
pub mod Audit
pub mod Validation
