-- ===== src/Tests/StatusTests.antt =====
-- Event types of a payment and of a chargeback.
use status_hub.Prelude.{◌≡◌, refl, none, codes, text_eq}
use status_hub.Domain.Status.{
  member, valid_status, parse_status, valid_event_type, event_type_for, status_success,
}

payment_completed : event_type_for (codes "payment") status_success ≡ codes "payment.completed"
unfolding event_type_for valid_event_type member text_eq
payment_completed = refl

parsed : parse_status (codes "SUCCESS") ≡ none
unfolding parse_status valid_status member text_eq
parsed = refl
