-- ===== src/Tests/ReplayTests.antt =====
-- A replay of one of two stored events.
use status_hub.Prelude.{
  ◌≡◌, refl, true, false, none, some, [], ◌∷◌, Text, text_eq, text_ltb, text_Eq, codes, pos, lookup,
  filter, nat_Eq,
}
use status_hub.Domain.Event.{CanonicalEvent}
use status_hub.Domain.Config.{Destination, default_retry_policy}
use status_hub.Store.Memory.{Memory, new_memory}
use status_hub.Store.Events.{EventQuery, is_listed}
use status_hub.Dispatch.Replay.{ReplayRequest, max_bulk_replay, filtered_events, replay}
use status_hub.Dispatch.Replay.Paging.{capped}
use status_hub.Dispatch.Replay.Complete.{
  IsDescending, events_of, newest_first, filtered_events-capped,
}
use status_hub.Dispatch.Replay.Queued.{IsReplayed, replay-IsReplayed}

abbrev tenant : Text
tenant = codes "t"

abbrev event : Text → Text → CanonicalEvent
event id status = record {
  id = id;
  tenant_id = tenant;
  raw_event_id = id;
  provider = codes "paystack";
  provider_event_id = id;
  event_type = codes "payment.completed";
  transaction_ref = codes "r";
  status = status;
  amount_minor = pos 500;
  currency = codes "NGN";
  customer_ref_hash = [];
  occurred_at = 4;
  received_at = 5;
  normalised_at = 5;
  mapping_complete = true;
  unmapped_status = [];
  redacted = false;
}

abbrev dest : Destination
dest = record {
  id = codes "d";
  tenant_id = tenant;
  url = codes "https://x";
  signing_secret_ref = codes "s";
  filter = record { providers = []; event_types = []; statuses = []; min_amount_minor = pos 0 };
  retry_policy = default_retry_policy;
  include_raw = false;
  schema_version = [];
  enabled = true;
  created_at = 1;
}

abbrev store : Memory
store = record new_memory {
  destinations = (codes "d", dest) ∷ [];
  events =
      (codes "e1", event (codes "e1") (codes "success"))
      ∷ (codes "e2", event (codes "e2") (codes "failed"))
      ∷ [];
  event_list = codes "e1" ∷ codes "e2" ∷ [];
}

abbrev succeeded_only : EventQuery
succeeded_only = record {
  provider = [];
  status = codes "success";
  event_type = [];
  transaction_ref = [];
  mapping_complete = none;
  from = 0;
  to = 0;
  cursor = [];
  limit = pos 1;
}

abbrev request : ReplayRequest
request = record {
  event_ids = [];
  filter = some succeeded_only;
  destination_ids = [];
  dry_run = false;
}

store-IsDescending : IsDescending (newest_first store)
unfolding IsDescending newest_first events_of lookup text_eq text_ltb
store-IsDescending = (refl, ((refl, refl), tt), (refl, tt, tt))

filtered_events-capped_example :
    filtered_events tenant succeeded_only store
    ≡ some (capped max_bulk_replay (filter (is_listed tenant succeeded_only) (newest_first store)))
filtered_events-capped_example =
    filtered_events-capped tenant succeeded_only store store-IsDescending

replay-IsReplayed_example : IsReplayed false store (replay (pos 8) 9 tenant request store)
replay-IsReplayed_example = replay-IsReplayed (pos 8) 9 tenant request store
