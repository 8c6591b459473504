-- ===== src/Tests/DispatcherTests.antt =====
-- Attempts at one delivery.
use mathlib.Core.Path.{subst}
use mathlib.Core.Option.{some-injective}
use status_hub.Prelude.{
  ◌≡◌, refl, true, false, none, some, [], ◌∷◌, arith, Text, text_eq, text_Eq, nat_Eq, codes, pos,
  lookup,
}
use status_hub.Domain.Delivery.{Delivery, pending, is_success}
use status_hub.Domain.Event.{CanonicalEvent}
use status_hub.Domain.Config.{Destination, attempts, default_retry_policy}
use status_hub.Store.Memory.{new_memory, get_destination, get_canonical_event}
use status_hub.Store.Deliveries.{lease_out}
use status_hub.Dispatch.Message.{probe_busy}
use status_hub.Dispatch.Breaker.{open_state, BreakerEntry, allow, allow_entry, state_of}
use status_hub.Dispatch.Breaker.Run.{allow_call, run}
use status_hub.Dispatch.Dispatcher.{State, World, responded, policy_of, deliver_once}
use status_hub.Dispatch.Dispatcher.Outcome.{IsStored, Outcome, audits, deliver_once-Outcome}
use status_hub.Dispatch.Dispatcher.Outage.{IsKnown, probe_answer_lost}

abbrev tenant : Text
tenant = codes "t"

abbrev queued : Delivery
queued = record {
  id = 1;
  tenant_id = tenant;
  event_id = codes "e";
  destination_id = codes "d";
  transaction_ref = codes "r";
  shard = 3;
  sequence = 1;
  attempt = 0;
  status = pending;
  response_code = 0;
  response_body = [];
  error = [];
  duration_ms = 0;
  is_replay = false;
  next_retry_at = 0;
  created_at = 5;
  updated_at = 5;
}

abbrev event : CanonicalEvent
event = record {
  id = codes "e";
  tenant_id = tenant;
  raw_event_id = codes "raw";
  provider = codes "paystack";
  provider_event_id = codes "p1";
  event_type = codes "payment.completed";
  transaction_ref = codes "r";
  status = codes "success";
  amount_minor = pos 500;
  currency = codes "NGN";
  customer_ref_hash = [];
  occurred_at = 4;
  received_at = 5;
  normalised_at = 5;
  mapping_complete = true;
  unmapped_status = [];
  redacted = false;
}

abbrev dest : Destination
dest = record {
  id = codes "d";
  tenant_id = tenant;
  url = codes "https://x";
  signing_secret_ref = codes "s";
  filter = record { providers = []; event_types = []; statuses = []; min_amount_minor = pos 0 };
  retry_policy = default_retry_policy;
  include_raw = false;
  schema_version = [];
  enabled = true;
  created_at = 1;
}

abbrev entry : BreakerEntry
entry = record {
  state = open_state;
  consecutive = 5;
  opened_at = 2;
  next_probe_at = 60;
  cooldown = 58;
  probe_in_flight = false;
  last_error = [];
  trips = 1;
}

abbrev before_claim : State
before_claim = record {
  store = record new_memory {
    destinations = (codes "d", dest) ∷ [];
    events = (codes "e", event) ∷ [];
    deliveries = (1, lease_out 10 queued) ∷ [];
    delivery_ids = 1;
    leases = (1, 99) ∷ [];
  };
  breaker = record {
    entries = (codes "d", entry) ∷ [];
    threshold = 5;
    cooldown = 30;
    max_cooldown = 300;
  };
  effects = [];
}

-- The destination answers 400 at time 71.
abbrev bad_request : World
bad_request = record {
  start = 70;
  ended = 71;
  encode_error = none;
  secret_error = none;
  request_error = none;
  response = responded 400 [];
  draw = none;
}

known : IsKnown (lease_out 10 queued) event dest before_claim.store
unfolding get_canonical_event get_destination lookup text_eq lease_out
known = record { event_found = refl; dest_found = refl }

queued-IsStored : IsStored (lease_out 10 queued) before_claim
unfolding lookup lease_out
queued-IsStored = record { existing = lease_out 10 queued; found = refl; tenant = refl }

seven_attempts :
    (d : Destination)
    → get_destination tenant (codes "d") before_claim.store ≡ some d
    → attempts (policy_of d) ≡ 7
unfolding get_destination lookup text_eq policy_of attempts default_retry_policy
seven_attempts d p =
    let q : some dest ≡ some d = p in
    subst (λ x. attempts (policy_of x) ≡ 7) (some-injective _ _ q) refl

deliver_once-Outcome_example :
    Outcome 7 1 [] (deliver_once bad_request (lease_out 10 queued) before_claim)
unfolding lease_out audits
deliver_once-Outcome_example =
    deliver_once-Outcome bad_request (lease_out 10 queued) before_claim 7 queued-IsStored
      (omega arith) (omega arith) seven_attempts

probe_answer_lost_example :
    (allow 1_000_000 (codes "d") (
      run
        (deliver_once bad_request (lease_out 10 queued) before_claim).0.breaker
        (allow_call 500 (codes "d") ∷ []))).1
    ≡ some probe_busy
unfolding allow allow_entry lookup text_eq state_of is_success
probe_answer_lost_example =
    probe_answer_lost bad_request (lease_out 10 queued) event dest before_claim 400 [] 1_000_000
      (allow_call 500 (codes "d") ∷ []) known (λ e. cc e) refl refl refl refl refl refl refl
      (tt, tt)
