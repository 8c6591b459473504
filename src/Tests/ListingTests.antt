-- ===== src/Tests/ListingTests.antt =====
-- The listings of three deliveries and of two events.
use status_hub.Prelude.{
  ℕ, ◌≡◌, refl, false, ◌∷◌, [], List, map, none, filter, sort_by, insert_by, Text, text_Eq, text_eq,
  text_ltb, codes, lookup, insert, nat_Eq, pos,
}
use status_hub.Domain.Delivery.{Delivery, DeliveryStatus, pending, succeeded, is_terminal}
use status_hub.Domain.Event.{CanonicalEvent}
use status_hub.Store.Memory.{Memory, new_memory}
use status_hub.Store.Listing.{
  DeliveryQuery, query_deliveries, query_deliveries_loop, is_queried, list_deliveries_for_event,
  oldest_pending, oldest_pending_loop, unknown_statuses, unknown_loop, unknown_key,
}
use status_hub.Tests.EventTests.{event}

abbrev delivery : ℕ → DeliveryStatus → ℕ → Delivery
delivery id status created_at = record {
  id = id;
  tenant_id = codes "t1";
  event_id = codes "e1";
  destination_id = codes "d1";
  transaction_ref = codes "r";
  shard = 3;
  sequence = id;
  attempt = 0;
  status = status;
  response_code = 0;
  response_body = [];
  error = [];
  duration_ms = 0;
  is_replay = false;
  next_retry_at = 0;
  created_at = created_at;
  updated_at = 0;
}

abbrev three : Memory
three = record new_memory {
  deliveries =
      (1, delivery 1 succeeded 10) ∷ (3, delivery 3 pending 30) ∷ (2, delivery 2 pending 20) ∷ [];
}

abbrev page : ℕ → DeliveryQuery
page cursor = record {
  destination_id = [];
  status = none;
  event_id = [];
  from = 0;
  to = 0;
  cursor = cursor;
  limit = pos 2;
}

abbrev ids : List Delivery → List ℕ
ids = map (λ (d : Delivery). d.id)

first_page : ids (query_deliveries (codes "t1") (page 0) three) ≡ 3 ∷ 2 ∷ []
unfolding query_deliveries query_deliveries_loop is_queried sort_by insert_by text_eq
first_page = refl

second_page : ids (query_deliveries (codes "t1") (page 2) three) ≡ 1 ∷ []
unfolding query_deliveries query_deliveries_loop is_queried sort_by insert_by text_eq
second_page = refl

in_order : ids (list_deliveries_for_event (codes "t1") (codes "e1") three) ≡ 1 ∷ 2 ∷ 3 ∷ []
unfolding list_deliveries_for_event filter sort_by insert_by text_eq
in_order = refl

oldest_found : oldest_pending three ≡ (3, 20) ∷ []
unfolding oldest_pending oldest_pending_loop is_terminal lookup insert
oldest_found = refl

abbrev unmapped : Text → Text → ℕ → CanonicalEvent
unmapped id value at = record (event id []) { unmapped_status = value; normalised_at = at }

abbrev three_unmapped : Memory
three_unmapped = record new_memory {
  events =
      (codes "e1", unmapped (codes "e1") (codes "HELD") 5)
      ∷ (codes "e2", unmapped (codes "e2") (codes "HELD") 9)
      ∷ (codes "e3", unmapped (codes "e3") (codes "ODD") 7)
      ∷ [];
  event_list = codes "e3" ∷ codes "e1" ∷ codes "e2" ∷ [];
}

most_frequent_first :
    unknown_statuses (codes "t1") 0 three_unmapped
    ≡ record {
      provider = codes "paystack";
      raw_value = codes "HELD";
      count = 2;
      first_seen = 5;
      last_seen = 9;
      sample_event = codes "e1";
    }
      ∷ record {
        provider = codes "paystack";
        raw_value = codes "ODD";
        count = 1;
        first_seen = 7;
        last_seen = 7;
        sample_event = codes "e3";
      }
      ∷ []
unfolding unknown_statuses unknown_loop unknown_key lookup insert text_eq sort_by insert_by text_ltb
most_frequent_first = refl
