-- ===== src/Store/Listing.antt =====
-- internal/store/memory.go and memory_delivery.go: the listings of deliveries for an operator, and the
-- summary of provider statuses that have no mapping.
use status_hub.Prelude.{
  ℕ, zero, suc, ◌+◌, Bool, false, not, ◌&&◌, ◌++◌, ◌∷◌, [], List, filter, Option, none, some, ◌==◌,
  if◌then◌else◌, nat_eq, nat_Eq, ltb, min, max, Text, text_Eq, text_ltb, Dict, lookup, insert,
  values, sort_by, ℤ,
}
use status_hub.Domain.Delivery.{
  Delivery, DeliveryStatus, pending, in_flight, succeeded, failed, dead_letter, is_terminal,
}
use status_hub.Domain.Event.{CanonicalEvent}
use status_hub.Store.Memory.{Memory}
use status_hub.Store.Events.{differs, page_limit}

unfoldable pub list_deliveries_for_event : Text → Text → Memory → List Delivery
list_deliveries_for_event tenant_id event_id m =
    sort_by (λ a b. ltb a.id b.id)
      (filter (λ d. (d.tenant_id == tenant_id) && (d.event_id == event_id)) (values m.deliveries))

-- No status is `none`, and no cursor is 0; a cursor is an id.
pub record DeliveryQuery : Type 0 where
  pub destination_id : Text
  pub status : Option DeliveryStatus
  pub event_id : Text
  pub from : ℕ
  pub to : ℕ
  pub cursor : ℕ
  pub limit : ℤ

-- Equality of statuses.
abbrev status_code : DeliveryStatus → ℕ
status_code pending = 0
status_code in_flight = 1
status_code succeeded = 2
status_code failed = 3
status_code dead_letter = 4

abbrev other_status : Option DeliveryStatus → DeliveryStatus → Bool
other_status none s = false
other_status (some wanted) s = not (nat_eq (status_code s) (status_code wanted))

-- What keeps the loop of QueryDeliveries from skipping a delivery.
unfoldable pub is_queried : Text → DeliveryQuery → Delivery → Bool
is_queried tenant_id q d =
    (d.tenant_id == tenant_id)
    && not (differs q.destination_id d.destination_id)
    && not (other_status q.status d.status)
    && not (differs q.event_id d.event_id)
    && not (not (nat_eq q.from 0) && ltb d.created_at q.from)
    && not (not (nat_eq q.to 0) && ltb q.to d.created_at)
    && not (not (nat_eq q.cursor 0) && not (ltb d.id q.cursor))

unfoldable pub query_deliveries_loop :
    Text → DeliveryQuery → ℕ → List (ℕ × Delivery) → List Delivery
query_deliveries_loop tenant_id q zero ds = []
query_deliveries_loop tenant_id q (suc left) [] = []
query_deliveries_loop tenant_id q (suc left) ((_, d) ∷ ds) =
    let skipped = query_deliveries_loop tenant_id q (suc left) ds in
    let rest = query_deliveries_loop tenant_id q left ds in
    if is_queried tenant_id q d then d ∷ rest else skipped

unfoldable pub query_deliveries : Text → DeliveryQuery → Memory → List Delivery
query_deliveries tenant_id q m =
    query_deliveries_loop tenant_id q (page_limit q.limit)
      (sort_by (λ a b. ltb b.0 a.0) m.deliveries)

abbrev earliest : ℕ → Option ℕ → ℕ
earliest t none = t
earliest t (some current) = if ltb t current then t else current

unfoldable pub oldest_pending_loop : List Delivery → Dict ℕ ℕ → Dict ℕ ℕ
oldest_pending_loop [] out = out
oldest_pending_loop (d ∷ ds) out =
    let skipped = oldest_pending_loop ds out in
    let counted =
      oldest_pending_loop ds (insert d.shard (earliest d.created_at (lookup d.shard out)) out) in
    if is_terminal d.status then skipped else counted

unfoldable pub oldest_pending : Memory → Dict ℕ ℕ
oldest_pending m = oldest_pending_loop (values m.deliveries) []

pub record UnknownStatus : Type 0 where
  pub provider : Text
  pub raw_value : Text
  pub count : ℕ
  pub first_seen : ℕ
  pub last_seen : ℕ
  pub sample_event : Text

abbrev counted_in : CanonicalEvent → Option UnknownStatus → UnknownStatus
counted_in e none = record {
  provider = e.provider;
  raw_value = e.unmapped_status;
  count = 1;
  first_seen = e.normalised_at;
  last_seen = e.normalised_at;
  sample_event = e.id;
}
counted_in e (some u) = record u {
  count = u.count + 1;
  first_seen = min e.normalised_at u.first_seen;
  last_seen = max e.normalised_at u.last_seen;
}

unfoldable pub unknown_key : CanonicalEvent → Text
unknown_key e = e.provider ++ (b'|' ∷ e.unmapped_status)

abbrev is_unknown : Text → ℕ → CanonicalEvent → Bool
is_unknown tenant_id since e =
    (e.tenant_id == tenant_id)
    && not (e.unmapped_status == [])
    && not (not (nat_eq since 0) && ltb e.normalised_at since)

-- The loop over the events, in the order in which they were stored.
unfoldable pub unknown_loop :
    Text → ℕ → Memory → List Text → Dict Text UnknownStatus → Dict Text UnknownStatus
unknown_loop tenant_id since m [] agg = agg
unknown_loop tenant_id since m (id ∷ ids) agg =
    let skipped = unknown_loop tenant_id since m ids agg in
    elim (lookup id m.events) [
      | none ↦ skipped
      | some e ↦
          (let counted =
              unknown_loop tenant_id since m ids
                (insert (unknown_key e) (counted_in e (lookup (unknown_key e) agg)) agg) in
            if is_unknown tenant_id since e then counted else skipped)
    ]

-- Ties of the order stand as in the map.
unfoldable pub unknown_statuses : Text → ℕ → Memory → List UnknownStatus
unknown_statuses tenant_id since m =
    sort_by
      (λ a b.
        if nat_eq a.count b.count then text_ltb a.raw_value b.raw_value else ltb b.count a.count)
      (values (unknown_loop tenant_id since m m.event_list []))
