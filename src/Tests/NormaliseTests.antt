-- ===== src/Tests/NormaliseTests.antt =====
-- Raw events that become canonical ones, and deliveries of these.
use status_hub.Prelude.{
  ◌⊎◌, ℕ, ◌≡◌, refl, true, false, Bool, ◌∷◌, [], length, filter, some, none, inr, Text, text_Eq,
  text_eq, text_ltb, codes, lookup, insert, nat_Eq, pos, sort_by, insert_by,
}
use status_hub.Domain.Event.{CanonicalEvent}
use status_hub.Domain.Config.{Destination, default_retry_policy, matches}
use status_hub.Domain.Amount.{
  normalise_currency, valid_currency, trim_space, trim_left, trim_right, is_space, upper,
}
use status_hub.Domain.Status.{valid_status, valid_event_type, member}
use status_hub.Domain.Validation.{
  validate_policy, validate_filter, first_invalid, validate_url, ParsedUrl, validate, normalise,
  dedupe_key,
}
use status_hub.Store.Memory.{Memory}
use status_hub.Store.Audit.{new_audit_log}
use status_hub.Store.Directory.{list_destinations, get_endpoint}
use status_hub.Store.Deliveries.{enqueue_delivery, next_sequence}
use status_hub.Store.Events.{put_event, put_canonical_event, get_raw_event}
use status_hub.Dispatch.Enqueue.{enqueue, enqueue_loop}
use status_hub.Normalise.{
  World, State, filled, announce, stored_event, validated, parsed, with_adapter, with_endpoint,
  process_raw, process, sweep,
}
use status_hub.Normalise.Settled.{Settles, process-Settles}
use status_hub.Normalise.Valid.{AllValid, sweep-AllValid}
use status_hub.Tests.DirectoryTests.{with_hook}
use status_hub.Tests.EventTests.{raw, event}
use status_hub.Tests.ReceiveTests.{toy}

abbrev pub dest : Text → Bool → Destination
dest id enabled = record {
  id = id;
  tenant_id = codes "t1";
  url = codes "https://a.example";
  signing_secret_ref = [];
  filter = record { providers = []; event_types = []; statuses = []; min_amount_minor = pos 0 };
  retry_policy = default_retry_policy;
  include_raw = false;
  schema_version = [];
  enabled = enabled;
  created_at = 1;
}

abbrev subscribed : Memory
subscribed = record with_hook {
  raw_events = (codes "a", raw (codes "a") true) ∷ [];
  raw_order = codes "a" ∷ [];
  destinations =
      (codes "d2", dest (codes "d2") true)
      ∷ (codes "d0", dest (codes "d0") false)
      ∷ (codes "d1", dest (codes "d1") true)
      ∷ [];
}

-- An adapter that always finds the same event, without the provider's id.
abbrev pub anonymous : CanonicalEvent
anonymous = record (event [] []) { provider_event_id = [] }

abbrev pub world : Text → World ℕ
world id = record {
  now = 60;
  new_id = id;
  get_adapter = λ _ _. some (λ _. inr anonymous);
  resolve_salt = λ _. none;
  hmac_hex = λ _ v. v;
  shards = pos 8;
  text_json = λ _. 1;
  bool_json = λ _. 1;
  codec = toy;
}

abbrev start : State ℕ
start = record { store = subscribed; log = new_audit_log; effects = [] }

abbrev stored_one : Memory
stored_one = record subscribed { events = (codes "e1", event (codes "e1") (codes "a")) ∷ [] }

body_hash_stands_in : dedupe_key anonymous (codes "h") ≡ codes "paystack:body:h"
unfolding dedupe_key text_eq
body_hash_stands_in = refl

-- Processed twice, the raw event is stored as two events.
twice_stored :
    length
      (process
        (world (codes "e2"))
        (codes "a")
        (codes "t1")
        (process (world (codes "e1")) (codes "a") (codes "t1") start).0).0.store.event_list
    ≡ 2
unfolding process get_raw_event lookup text_eq process_raw with_endpoint get_endpoint with_adapter
    parsed filled normalise normalise_currency trim_space trim_left trim_right is_space upper
    validate valid_status valid_event_type member valid_currency validated stored_event
    put_canonical_event put_event announce enqueue enqueue_loop next_sequence enqueue_delivery
    insert list_destinations sort_by filter insert_by text_ltb matches
twice_stored = refl

process-Settles_example :
    Settles
      (world (codes "e1"))
      (codes "a")
      start
      (process (world (codes "e1")) (codes "a") (codes "t1") start)
unfolding lookup text_eq
process-Settles_example =
    process-Settles (world (codes "e1")) (codes "a") (raw (codes "a") true) start refl refl
      (λ h. absurd (no_id h))
  where
    no_id : codes "a" ≡ [] → ⊥
    no_id h = cc

none_stored : AllValid subscribed
unfolding AllValid lookup
none_stored id e h = absurd (nothing h)
  where
    nothing : none ≡ some e → ⊥
    nothing k = cc

sweep-AllValid_example : AllValid (sweep (λ _. world (codes "e1")) (pos 10) start).store
sweep-AllValid_example = sweep-AllValid (λ _. world (codes "e1")) (pos 10) start none_stored

default_accepted : validate_policy default_retry_policy ≡ none
unfolding validate_policy default_retry_policy
default_accepted = refl

odd_status_refused :
    validate_filter (record {
      providers = [];
      event_types = [];
      statuses = codes "success" ∷ codes "odd" ∷ [];
      min_amount_minor = pos 0;
    })
    ≡ some (codes "event status is not in the canonical set: \"odd\"")
unfolding validate_filter first_invalid valid_status member text_eq
odd_status_refused = refl

abbrev parsed_http : Text → Text ⊎ ParsedUrl
parsed_http _ = inr (record { scheme = codes "http"; host = codes "a"; has_user = false })

http_refused :
    validate_url parsed_http (codes "http://a") ≡ some (codes "destination URL must be https")
unfolding validate_url text_eq
http_refused = refl
