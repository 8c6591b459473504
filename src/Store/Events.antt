-- ===== src/Store/Events.antt =====
-- internal/store/memory.go: raw events, and the canonical events that they become.
pub mod Pending
pub mod Dedupe
use status_hub.Prelude.{
  ℕ, zero, suc, ◌+◌, ◌-◌, Bool, true, false, not, ◌&&◌, ◌||◌, ◌++◌, ◌∷◌, [], List, length, Option,
  none, some, ◌⊎◌, inl, inr, ◌==◌, if◌then◌else◌, nat_eq, ltb, leb, Text, text_Eq, text_ltb, codes,
  Dict, lookup, insert, values, sort_by, ℤ, pos, negsuc, positive_or,
}
use status_hub.Domain.Tenancy.{RawEvent}
use status_hub.Domain.Event.{CanonicalEvent}
use status_hub.Domain.Config.{equal_fold}
use status_hub.Store.Memory.{Memory, StoreError, not_found, duplicate}

unfoldable pub put_raw_event : RawEvent → Memory → StoreError ⊎ Memory
put_raw_event e m = elim (lookup e.id m.raw_events) [
  | some _ ↦ inl (duplicate [])
  | none ↦
      inr
        (record m { raw_events = insert e.id e m.raw_events; raw_order = m.raw_order ++ e.id ∷ [] })
]

unfoldable pub get_raw_event : Text → Text → Memory → Option RawEvent
get_raw_event tenant_id id m = elim (lookup id m.raw_events) [
  | none ↦ none
  | some e ↦ if e.tenant_id == tenant_id then some e else none
]

abbrev pub is_missing {ℓ} : {V : Type ℓ} → Option V → Bool
is_missing none = true
is_missing (some _) = false

-- What keeps the loop of ListUnnormalised from skipping an event. An id that the map lacks is Go's
-- zero value, with no valid signature.
unfoldable pub is_pending : Memory → Text → Bool
is_pending m id = elim (lookup id m.raw_events) [
  | none ↦ false
  | some e ↦
      e.signature_valid && is_missing (lookup id m.normalised) && is_missing (lookup id m.failures)
]

-- The loop of ListUnnormalised with `left` events to go, at least one.
unfoldable pub pending_loop : Memory → ℕ → List Text → List Text
pending_loop m left [] = []
pending_loop m left (id ∷ ids) =
    let skipped = pending_loop m left ids in
    let rest = pending_loop m (left - 1) ids in
    if not (is_pending m id) then skipped else (if leb left 1 then id ∷ [] else id ∷ rest)

-- The ids of the events that ListUnnormalised returns.
unfoldable pub list_unnormalised : ℤ → Memory → List Text
list_unnormalised limit m = pending_loop m (positive_or limit 100) m.raw_order

abbrev pub reverse_onto {ℓ} : {A : Type ℓ} → List A → List A → List A
reverse_onto acc [] = acc
reverse_onto acc (x ∷ xs) = reverse_onto (x ∷ acc) xs

unfoldable pub is_signature_failure : Text → Text → ℕ → RawEvent → Bool
is_signature_failure tenant_id endpoint_id since e =
    if not (e.tenant_id == tenant_id) || e.signature_valid
    then false
    else if not (endpoint_id == []) && not (e.endpoint_id == endpoint_id)
    then false
    else not (not (nat_eq since 0) && ltb e.received_at since)

-- The loop of ListSignatureFailures, over the ids from the newest on.
unfoldable pub failures_loop : Text → Text → ℕ → Memory → ℕ → List Text → List RawEvent
failures_loop tenant_id endpoint_id since m zero ids = []
failures_loop tenant_id endpoint_id since m (suc left) [] = []
failures_loop tenant_id endpoint_id since m (suc left) (id ∷ ids) =
    let skipped = failures_loop tenant_id endpoint_id since m (suc left) ids in
    let rest = failures_loop tenant_id endpoint_id since m left ids in
    elim (lookup id m.raw_events) [
      | none ↦ skipped
      | some e ↦ if is_signature_failure tenant_id endpoint_id since e then e ∷ rest else skipped
    ]

unfoldable pub list_signature_failures : Text → Text → ℕ → ℤ → Memory → List RawEvent
list_signature_failures tenant_id endpoint_id since limit m =
    failures_loop tenant_id endpoint_id since m (positive_or limit 100)
      (reverse_onto [] m.raw_order)

unfoldable pub event_key : Text → Text → Text → Text
event_key tenant_id provider provider_event_id =
    tenant_id ++ (b'|' ∷ provider ++ (b'|' ∷ provider_event_id))

abbrev pub key_of_event : CanonicalEvent → Text
key_of_event e = event_key e.tenant_id e.provider e.provider_event_id

-- What PutCanonicalEvent does once the key is not a duplicate.
unfoldable pub put_event : CanonicalEvent → Memory → Memory
put_event e m = record m {
  event_keys =
      if e.provider_event_id == [] then m.event_keys else insert (key_of_event e) e.id m.event_keys;
  events = insert e.id e m.events;
  event_list = m.event_list ++ e.id ∷ [];
  normalised =
      if e.raw_event_id == [] then m.normalised else insert e.raw_event_id e.id m.normalised;
}

unfoldable pub put_canonical_event : CanonicalEvent → Memory → StoreError ⊎ Memory
put_canonical_event e m =
    if e.provider_event_id == []
    then inr (put_event e m)
    else elim (lookup (key_of_event e) m.event_keys) [
      | some existing ↦ inl (duplicate existing)
      | none ↦ inr (put_event e m)
    ]

-- `none` is ErrNotFound. A key leads to an id that the map of events has.
unfoldable pub get_event_by_key : Text → Text → Text → Memory → Option CanonicalEvent
get_event_by_key tenant_id provider provider_event_id m =
    elim (lookup (event_key tenant_id provider provider_event_id) m.event_keys) [
      | none ↦ none
      | some id ↦ lookup id m.events
    ]

unfoldable pub mark_normalisation_failure : Text → Text → Text → Memory → StoreError ⊎ Memory
mark_normalisation_failure tenant_id raw_event_id reason m =
    elim (lookup raw_event_id m.raw_events) [
      | none ↦ inl not_found
      | some e ↦
          if e.tenant_id == tenant_id
          then inr (record m { failures = insert raw_event_id reason m.failures })
          else inl not_found
    ]

pub record EventQuery : Type 0 where
  pub provider : Text
  pub status : Text
  pub event_type : Text
  pub transaction_ref : Text
  pub mapping_complete : Option Bool
  pub from : ℕ
  pub to : ℕ
  pub cursor : Text
  pub limit : ℤ

abbrev pub differs : Text → Text → Bool
differs wanted v = not (wanted == []) && not (v == wanted)

abbrev pub differs_bool : Option Bool → Bool → Bool
differs_bool none v = false
differs_bool (some true) v = not v
differs_bool (some false) v = v

unfoldable pub matches_query : CanonicalEvent → EventQuery → Bool
matches_query e q =
    if not (q.provider == []) && not (equal_fold e.provider q.provider)
    then false
    else if differs q.status e.status
        || differs q.event_type e.event_type
        || differs q.transaction_ref e.transaction_ref
    then false
    else if differs_bool q.mapping_complete e.mapping_complete
    then false
    else not (
        (not (nat_eq q.from 0) && ltb e.occurred_at q.from)
        || (not (nat_eq q.to 0) && ltb q.to e.occurred_at))

unfoldable pub is_listed : Text → EventQuery → CanonicalEvent → Bool
is_listed tenant_id q e =
    (e.tenant_id == tenant_id)
    && matches_query e q
    && not (not (q.cursor == []) && not (text_ltb e.id q.cursor))

-- The loop of QueryEvents, over the ids from the newest on.
unfoldable pub query_loop : Text → EventQuery → Memory → ℕ → List Text → List CanonicalEvent
query_loop tenant_id q m zero ids = []
query_loop tenant_id q m (suc left) [] = []
query_loop tenant_id q m (suc left) (id ∷ ids) =
    let skipped = query_loop tenant_id q m (suc left) ids in
    let rest = query_loop tenant_id q m left ids in
    elim (lookup id m.events) [
      | none ↦ skipped
      | some e ↦ if is_listed tenant_id q e then e ∷ rest else skipped
    ]

abbrev pub page_limit : ℤ → ℕ
page_limit (pos zero) = 100
page_limit (pos (suc n)) = if ltb 500 (suc n) then 100 else suc n
page_limit (negsuc _) = 100

unfoldable pub query_events : Text → EventQuery → Memory → List CanonicalEvent
query_events tenant_id q m =
    query_loop tenant_id q m (page_limit q.limit) (reverse_onto [] m.event_list)
