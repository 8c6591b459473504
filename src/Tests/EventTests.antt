-- ===== src/Tests/EventTests.antt =====
-- Raw events that wait, and canonical events that come twice.
use status_hub.Prelude.{
  ◌≡◌, refl, true, false, Bool, ◌∷◌, [], List, length, some, inl, Text, text_Eq, text_eq, codes,
  lookup, insert, pos,
}
use status_hub.Domain.Tenancy.{RawEvent}
use status_hub.Domain.Event.{CanonicalEvent}
use status_hub.Store.Memory.{Memory, new_memory, duplicate}
use status_hub.Store.Events.{
  put_raw_event, is_pending, pending_loop, list_unnormalised, put_event, put_canonical_event,
  event_key, list_signature_failures, failures_loop, is_signature_failure,
}
use status_hub.Store.Events.Pending.{
  EventCall, raw_put, event_put, apply_event_calls, apply_event_calls-held,
}
use status_hub.Store.Events.Dedupe.{apply_event_calls-redelivery}

abbrev pub raw : Text → Bool → RawEvent
raw id valid = record {
  id = id;
  tenant_id = codes "t1";
  endpoint_id = codes "ep1";
  provider = codes "paystack";
  headers = [];
  body = codes "x";
  body_sha256 = codes "h";
  redacted = false;
  redaction_note = [];
  source_ip = [];
  signature_valid = valid;
  signature_error = [];
  received_at = 5;
}

abbrev pub event : Text → Text → CanonicalEvent
event id raw_id = record {
  id = id;
  tenant_id = codes "t1";
  raw_event_id = raw_id;
  provider = codes "paystack";
  provider_event_id = codes "p7";
  event_type = codes "payment.completed";
  transaction_ref = codes "r";
  status = codes "success";
  amount_minor = pos 100;
  currency = codes "NGN";
  customer_ref_hash = [];
  occurred_at = 4;
  received_at = 5;
  normalised_at = 6;
  mapping_complete = true;
  unmapped_status = [];
  redacted = false;
}

abbrev three_raw : List EventCall
three_raw =
    raw_put (raw (codes "a") true)
    ∷ raw_put (raw (codes "b") false)
    ∷ raw_put (raw (codes "c") true)
    ∷ []

abbrev arrived : Memory
arrived = apply_event_calls three_raw new_memory

abbrev and_normalised : List EventCall
and_normalised =
    raw_put (raw (codes "a") true)
    ∷ event_put (event (codes "e1") (codes "a"))
    ∷ event_put (event (codes "e2") (codes "a"))
    ∷ []

two_wait : list_unnormalised (pos 5) arrived ≡ codes "a" ∷ codes "c" ∷ []
unfolding list_unnormalised pending_loop is_pending put_raw_event lookup insert text_eq
two_wait = refl

-- The second event has the provider's id of the first, and is refused.
redelivery_refused :
    put_canonical_event
      (event (codes "e2") (codes "a"))
      (apply_event_calls and_normalised new_memory)
    ≡ inl (duplicate (codes "e1"))
unfolding put_raw_event put_canonical_event put_event event_key lookup insert text_eq
redelivery_refused = refl

failure_listed : length (list_signature_failures (codes "t1") [] 0 (pos 0) arrived) ≡ 1
unfolding list_signature_failures failures_loop is_signature_failure put_raw_event lookup insert
    text_eq
failure_listed = refl

apply_event_calls-held_example :
    (lookup (codes "b") (apply_event_calls and_normalised arrived).raw_events
      ≡ some (raw (codes "b") false))
    × (is_pending arrived (codes "b") ≡ false
        → is_pending (apply_event_calls and_normalised arrived) (codes "b") ≡ false)
unfolding put_raw_event lookup insert text_eq
apply_event_calls-held_example =
    apply_event_calls-held and_normalised (codes "b") (raw (codes "b") false) arrived refl

apply_event_calls-redelivery_example :
    put_canonical_event
      (event (codes "e3") (codes "b"))
      (apply_event_calls and_normalised new_memory)
    ≡ inl (duplicate (codes "e1"))
unfolding put_raw_event put_canonical_event put_event event_key lookup insert text_eq
apply_event_calls-redelivery_example =
    apply_event_calls-redelivery and_normalised (codes "e1") (event (codes "e1") (codes "a"))
      (event (codes "e3") (codes "b")) refl (λ h. absurd (no_id h)) refl refl refl
  where
    no_id : codes "p7" ≡ [] → ⊥
    no_id h = cc
