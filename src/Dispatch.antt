-- ===== src/Dispatch.antt =====
-- Package internal/dispatch.
pub mod Message
pub mod Breaker
pub mod Dispatcher
pub mod Enqueue
pub mod Ssrf
pub mod Sign
pub mod Replay
