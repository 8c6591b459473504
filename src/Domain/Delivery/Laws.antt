-- ===== src/Domain/Delivery/Laws.antt =====
-- Where a transaction's deliveries go, and which answers are tried again.
use status_hub.Prelude.{ℕ, ◌≡◌, true, false, arith}
use status_hub.Domain.Delivery.{should_retry, is_success}

-- An answer that counts as a success is never tried again.
pub success_not_retried : (code : ℕ) → is_success code ≡ true → should_retry code ≡ false
unfolding is_success should_retry
success_not_retried code h = ground arith
