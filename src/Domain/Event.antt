-- ===== src/Domain/Event.antt =====
-- internal/domain/event.go: the canonical event. Its `ProviderExtra`, a map of arbitrary JSON that
-- nothing here reads, is left out.
use status_hub.Prelude.{ℕ, Bool, Text, ℤ}

pub record CanonicalEvent : Type 0 where
  pub id : Text
  pub tenant_id : Text
  pub raw_event_id : Text
  pub provider : Text
  pub provider_event_id : Text
  pub event_type : Text
  pub transaction_ref : Text
  pub status : Text
  pub amount_minor : ℤ
  pub currency : Text
  pub customer_ref_hash : Text
  pub occurred_at : ℕ
  pub received_at : ℕ
  pub normalised_at : ℕ
  pub mapping_complete : Bool
  pub unmapped_status : Text
  pub redacted : Bool
