-- ===== src/Tests/ForwardedTests.antt =====
-- A webhook on its way from the receiver to a delivery.
use status_hub.Prelude.{
  ℕ, ◌+◌, ◌≡◌, refl, true, none, some, inr, [], ◌∷◌, text_Eq, nat_Eq, text_eq, text_ltb, codes,
  lookup, insert, filter, sort_by, insert_by,
}
use status_hub.Domain.Event.{CanonicalEvent}
use status_hub.Domain.Tenancy.{RawEvent}
use status_hub.Domain.Config.{matches}
use status_hub.Domain.Delivery.{shard_for}
use status_hub.Domain.Amount.{
  normalise_currency, valid_currency, trim_space, trim_left, trim_right, is_space, upper,
}
use status_hub.Domain.Status.{valid_status, valid_event_type, member}
use status_hub.Domain.Validation.{validate, normalise}
use status_hub.Ratelimit.{try_acquire}
use status_hub.Store.Memory.{Memory}
use status_hub.Store.Audit.{new_audit_log}
use status_hub.Store.Directory.{list_destinations, get_endpoint, resolve_receiver, find_receiver}
use status_hub.Store.Deliveries.{next_sequence}
use status_hub.Store.Events.{put_event, put_canonical_event, put_raw_event}
use status_hub.Dispatch.Enqueue.Complete.{queued_as}
use status_hub.Normalise.{State, done, filled, process}
use status_hub.Normalise.Forwarded.{acknowledged-forwarded}
use status_hub.Receive
use status_hub.Receive.{
  handle_webhook, handle, handle_endpoint, read_body, respond, take_in, raw_event_of, verify_error,
  answer, source_addr, check_source, in_some_prefix, try_secrets,
}
use status_hub.Tests.DirectoryTests.{with_hook, hook, acme}
use status_hub.Tests.ReceiveTests
use status_hub.Tests.ReceiveTests.{good}
use status_hub.Tests.NormaliseTests
use status_hub.Tests.NormaliseTests.{anonymous, dest}

abbrev ready : Receive.State ℕ
ready = record ReceiveTests.start {
  store = record with_hook { destinations = (codes "d1", dest (codes "d1") true) ∷ [] };
}

abbrev received : Memory
received = (handle_webhook ReceiveTests.world good ready).0.store

abbrev taken_in : RawEvent
taken_in = raw_event_of ReceiveTests.world hook acme good (codes "{}") none

abbrev start : State ℕ
start = record { store = received; log = new_audit_log; effects = [] }

abbrev event : CanonicalEvent
event = filled (NormaliseTests.world (codes "e1")) taken_in hook (codes "t1") anonymous

abbrev kept : Memory
kept = put_event event received

acknowledged-forwarded_example :
    let (st, outcome) =
      process (NormaliseTests.world (codes "e1")) (codes "r1") (codes "t1") start in
    (outcome ≡ done)
    × (lookup (0 + 1) st.store.deliveries
        ≡ some (
            queued_as event
              (shard_for (codes "r") (NormaliseTests.world (codes "e1")).shards)
              1
              60
              (dest (codes "d1") true)
              (0 + 1)))
unfolding handle_webhook try_acquire handle handle_endpoint resolve_receiver find_receiver lookup
    text_eq read_body respond take_in raw_event_of verify_error source_addr check_source
    in_some_prefix try_secrets put_raw_event answer trim_space trim_left trim_right is_space
    get_endpoint filled normalise normalise_currency upper validate valid_status valid_event_type
    member valid_currency put_canonical_event put_event list_destinations sort_by filter insert_by
    text_ltb matches next_sequence insert
acknowledged-forwarded_example =
    acknowledged-forwarded ReceiveTests.world good ready (NormaliseTests.world (codes "e1"))
      taken_in hook (λ _. inr anonymous) anonymous start kept 0 (dest (codes "d1") true) refl refl
      refl refl refl refl refl refl refl
