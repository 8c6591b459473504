-- ===== src/Dispatch/Replay.antt =====
-- internal/dispatch/replay.go: sending stored events again, and the two other ways to queue an event
-- that is stored. The in-memory store reports no error but ErrNotFound, and one reading of the clock
-- serves a call.
pub mod Paging
pub mod Complete
pub mod Queued
use status_hub.Prelude.{
  ℕ, zero, suc, ◌+◌, Bool, true, false, not, ◌&&◌, ◌||◌, List, [], ◌∷◌, ◌++◌, map, length, filter,
  Option, none, some, ◌⊎◌, inl, inr, nat_eq, ltb, leb, if◌then◌else◌, Text, text_Eq, ℤ, pos, negsuc,
}
use status_hub.Domain.Delivery.{Delivery, DeliveryStatus, dead_letter}
use status_hub.Domain.Event.{CanonicalEvent}
use status_hub.Domain.Config.{Destination, matches}
use status_hub.Store.Memory.{Memory, get_destination, get_canonical_event}
use status_hub.Store.Directory.{list_destinations}
use status_hub.Store.Deliveries.{get_delivery}
use status_hub.Store.Events.{EventQuery, query_events}
use status_hub.Store.Listing.{list_deliveries_for_event}
use status_hub.Dispatch.Enqueue.{enqueue, enqueue_replay}

abbrev pub max_bulk_replay : ℕ
max_bulk_replay = 10000

pub record ReplayRequest : Type 0 where
  pub event_ids : List Text
  pub filter : Option EventQuery
  pub destination_ids : List Text
  pub dry_run : Bool

-- Without its note, which says whether it is truncated.
pub record ReplayResult : Type 0 where
  pub matched : ℕ
  pub queued : ℕ
  pub destinations : List Text
  pub dry_run : Bool
  pub truncated : Bool

-- `endless` is not an error of the code: it stands for a loop over pages that has not ended.
pub data ReplayError : Type 0 where
  no_destination exclusive too_large nothing_named delivery_not_found : ReplayError
  endless : ReplayError
  destination_not_found destination_disabled event_not_found : Text → ReplayError
  not_queued : Text → Text → ReplayError
  not_dead_lettered : DeliveryStatus → ReplayError

-- One round of the loop over the ids of destinations.
abbrev add_destination :
    Text → Option Destination → ReplayError ⊎ List Destination → ReplayError ⊎ List Destination
add_destination id none rest = inl (destination_not_found id)
add_destination id (some dest) (inl err) =
    if dest.enabled then inl err else inl (destination_disabled id)
add_destination id (some dest) (inr dests) =
    if dest.enabled then inr (dest ∷ dests) else inl (destination_disabled id)

unfoldable pub named_destinations : Text → List Text → Memory → ReplayError ⊎ List Destination
named_destinations tenant_id [] m = inr []
named_destinations tenant_id (id ∷ ids) m =
    add_destination id (get_destination tenant_id id m) (named_destinations tenant_id ids m)

unfoldable pub resolve_destinations : Text → List Text → Memory → ReplayError ⊎ List Destination
resolve_destinations tenant_id [] m =
    inr (filter (λ dest. dest.enabled) (list_destinations tenant_id m))
resolve_destinations tenant_id (id ∷ ids) m = named_destinations tenant_id (id ∷ ids) m

abbrev add_event :
    Text
    → Option CanonicalEvent
    → ReplayError ⊎ List CanonicalEvent
    → ReplayError ⊎ List CanonicalEvent
add_event id none rest = inl (event_not_found id)
add_event id (some e) (inl err) = inl err
add_event id (some e) (inr es) = inr (e ∷ es)

unfoldable pub named_events : Text → List Text → Memory → ReplayError ⊎ List CanonicalEvent
named_events tenant_id [] m = inr []
named_events tenant_id (id ∷ ids) m =
    add_event id (get_canonical_event tenant_id id m) (named_events tenant_id ids m)

-- The inner loop over a page: what is collected, and whether the page was cut.
unfoldable pub collect : ℕ → List CanonicalEvent → List CanonicalEvent → List CanonicalEvent × Bool
collect cap out [] = (out, false)
collect cap out (e ∷ page) =
    let rest = collect cap (out ++ e ∷ []) page in
    if leb cap (length out) then (out, true) else rest

abbrev pub last_id : List CanonicalEvent → Text
last_id [] = []
last_id (e ∷ []) = e.id
last_id (_ ∷ e ∷ es) = last_id (e ∷ es)

-- What follows the inner loop; `next` is the loop with a new cursor.
abbrev pub after_page :
    ℕ
    → List CanonicalEvent
    → (Text → List CanonicalEvent → Option (List CanonicalEvent × Bool))
    → List CanonicalEvent × Bool
    → Option (List CanonicalEvent × Bool)
after_page limit page next (out, truncated) =
    if truncated || ltb (length page) limit then some (out, truncated) else next (last_id page) out

abbrev pub read_page :
    ℕ
    → ℕ
    → List CanonicalEvent
    → (Text → List CanonicalEvent → Option (List CanonicalEvent × Bool))
    → List CanonicalEvent
    → Option (List CanonicalEvent × Bool)
read_page cap limit [] next out = some (out, false)
read_page cap limit (e ∷ page) next out =
    after_page limit (e ∷ page) next (collect cap out (e ∷ page))

-- The loop over the pages, `none` where it does not end within `fuel` rounds; `fetch` reads the page
-- after a cursor.
unfoldable pub page_loop :
    ℕ
    → ℕ
    → (Text → List CanonicalEvent)
    → ℕ
    → Text
    → List CanonicalEvent
    → Option (List CanonicalEvent × Bool)
page_loop cap limit fetch zero cursor out = none
page_loop cap limit fetch (suc fuel) cursor out =
    read_page cap limit (fetch cursor) (page_loop cap limit fetch fuel) out

abbrev pub page_size : ℤ → ℕ
page_size (pos zero) = 500
page_size (pos (suc n)) = if ltb 500 (suc n) then 500 else suc n
page_size (negsuc _) = 500

-- The pages of a filter, in as many rounds as there are events and one.
unfoldable pub filtered_events : Text → EventQuery → Memory → Option (List CanonicalEvent × Bool)
filtered_events tenant_id q m =
    page_loop max_bulk_replay (page_size q.limit)
      (λ cursor.
        query_events tenant_id (record q { cursor = cursor; limit = pos (page_size q.limit) }) m)
      (suc (length m.event_list)) q.cursor []

abbrev ended : Option (List CanonicalEvent × Bool) → ReplayError ⊎ (List CanonicalEvent × Bool)
ended none = inl endless
ended (some found) = inr found

abbrev with_no_cut : ReplayError ⊎ List CanonicalEvent → ReplayError ⊎ (List CanonicalEvent × Bool)
with_no_cut (inl err) = inl err
with_no_cut (inr es) = inr (es, false)

unfoldable pub resolve_events :
    Text → List Text → Option EventQuery → Memory → ReplayError ⊎ (List CanonicalEvent × Bool)
resolve_events tenant_id [] none m = inl nothing_named
resolve_events tenant_id [] (some q) m = ended (filtered_events tenant_id q m)
resolve_events tenant_id (id ∷ ids) (some q) m = inl exclusive
resolve_events tenant_id (id ∷ ids) none m =
    if ltb max_bulk_replay (length (id ∷ ids))
    then inl too_large
    else with_no_cut (named_events tenant_id (id ∷ ids) m)

-- The store, the number that was queued, and the error that ended the loop.
abbrev pub Queueing : Type 0
Queueing = Memory × ℕ × Option ReplayError

abbrev pub after_replay : Text → Text → ℕ → Memory × Option ℕ → (Memory → ℕ → Queueing) → Queueing
after_replay event dest queued (m, none) next = (m, queued, some (not_queued event dest))
after_replay event dest queued (m, some _) next = next m (queued + 1)

-- The loops over the pairs of an event and a destination, events first.
unfoldable pub queue_pairs : ℤ → ℕ → List (CanonicalEvent × Destination) → Memory → ℕ → Queueing
queue_pairs shards now [] m queued = (m, queued, none)
queue_pairs shards now ((e, dest) ∷ pairs) m queued = elim (matches dest.filter e) [
  | true ↦
      after_replay e.id dest.id queued (enqueue_replay shards now e dest.id m)
        (queue_pairs shards now pairs)
  | false ↦ queue_pairs shards now pairs m queued
]

unfoldable pub pairs_of :
    List CanonicalEvent → List Destination → List (CanonicalEvent × Destination)
pairs_of [] dests = []
pairs_of (e ∷ es) dests = map (λ dest. (e, dest)) dests ++ pairs_of es dests

abbrev pub nothing_replayed : Bool → List Destination → ReplayResult
nothing_replayed dry_run dests = record {
  matched = 0;
  queued = 0;
  destinations = map (λ dest. dest.id) dests;
  dry_run = dry_run;
  truncated = false;
}

abbrev pub queued_result : ReplayResult → Queueing → Memory × ReplayResult × Option ReplayError
queued_result res (m, n, err) = (m, record res { queued = n }, err)

abbrev pub replay_events :
    ℤ
    → ℕ
    → Bool
    → List Destination
    → Memory
    → ReplayError ⊎ (List CanonicalEvent × Bool)
    → Memory × ReplayResult × Option ReplayError
replay_events shards now dry_run dests m (inl err) = (m, nothing_replayed dry_run dests, some err)
replay_events shards now dry_run dests m (inr (es, truncated)) =
    let res = record (nothing_replayed dry_run dests) {
      matched = length es;
      truncated = truncated;
    } in
    if dry_run
    then (m, res, none)
    else queued_result res (queue_pairs shards now (pairs_of es dests) m 0)

abbrev pub replay_to :
    ℤ
    → ℕ
    → Text
    → ReplayRequest
    → Memory
    → ReplayError ⊎ List Destination
    → Memory × ReplayResult × Option ReplayError
replay_to shards now tenant_id req m (inl err) = (m, nothing_replayed req.dry_run [], some err)
replay_to shards now tenant_id req m (inr []) =
    (m, nothing_replayed req.dry_run [], some no_destination)
replay_to shards now tenant_id req m (inr (dest ∷ dests)) =
    replay_events shards now req.dry_run (dest ∷ dests) m
      (resolve_events tenant_id req.event_ids req.filter m)

-- The store afterwards, the result, and the error.
unfoldable pub replay :
    ℤ → ℕ → Text → ReplayRequest → Memory → Memory × ReplayResult × Option ReplayError
replay shards now tenant_id req m =
    replay_to shards now tenant_id req m (resolve_destinations tenant_id req.destination_ids m)

abbrev is_dead_letter : DeliveryStatus → Bool
is_dead_letter dead_letter = true
is_dead_letter _ = false

abbrev retried : Text → Text → Memory × Option ℕ → Memory × (ReplayError ⊎ ℕ)
retried event dest (m, none) = (m, inl (not_queued event dest))
retried event dest (m, some id) = (m, inr id)

abbrev retry_event : ℤ → ℕ → Delivery → Memory → Option CanonicalEvent → Memory × (ReplayError ⊎ ℕ)
retry_event shards now del m none = (m, inl (event_not_found del.event_id))
retry_event shards now del m (some e) =
    retried e.id del.destination_id (enqueue_replay shards now e del.destination_id m)

-- The id of the new delivery, or the error.
unfoldable pub retry_dead_letter : ℤ → ℕ → Text → ℕ → Memory → Memory × (ReplayError ⊎ ℕ)
retry_dead_letter shards now tenant_id delivery_id m = elim (get_delivery tenant_id delivery_id m) [
  | none ↦ (m, inl delivery_not_found)
  | some del ↦
      if is_dead_letter del.status
      then retry_event shards now del m (get_canonical_event tenant_id del.event_id m)
      else (m, inl (not_dead_lettered del.status))
]

abbrev pub is_empty {ℓ} : {A : Type ℓ} → List A → Bool
is_empty [] = true
is_empty (_ ∷ _) = false

abbrev sweep_limit : ℤ → ℕ
sweep_limit (pos zero) = 200
sweep_limit (pos (suc n)) = if ltb 1000 (suc n) then 200 else suc n
sweep_limit (negsuc _) = 200

unfoldable pub sweep_events : ℤ → ℕ → Text → List CanonicalEvent → Memory → ℕ → Memory × ℕ
sweep_events shards now tenant_id [] m queued = (m, queued)
sweep_events shards now tenant_id (e ∷ es) m queued =
    elim (is_empty (list_deliveries_for_event tenant_id e.id m)) [
      | true ↦ sweep_events shards now tenant_id es (enqueue shards now e m) (queued + 1)
      | false ↦ sweep_events shards now tenant_id es m queued
    ]

abbrev since_query : ℕ → ℕ → EventQuery
since_query since limit = record {
  provider = [];
  status = [];
  event_type = [];
  transaction_ref = [];
  mapping_complete = none;
  from = since;
  to = 0;
  cursor = [];
  limit = pos limit;
}

unfoldable pub sweep_undelivered : ℤ → ℕ → Text → ℕ → ℤ → Memory → Memory × ℕ
sweep_undelivered shards now tenant_id since limit m =
    sweep_events shards now tenant_id
      (query_events tenant_id (since_query since (sweep_limit limit)) m) m 0
