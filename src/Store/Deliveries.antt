-- ===== src/Store/Deliveries.antt =====
-- internal/store/memory_delivery.go: queueing, claiming and completing deliveries.
mod Loop
pub mod Exclusive
mod Sorting
pub mod Due
pub mod Order
pub mod Overtaking
pub mod Workers
use status_hub.Prelude.{
  ℕ, zero, suc, ◌+◌, Bool, true, false, ◌&&◌, ◌||◌, not, Option, none, some, List, [], ◌∷◌, ◌++◌,
  length, ltb, leb, nat_eq, nat_Eq, if◌then◌else◌, ◌==◌, Text, text_Eq, codes, ℤ, positive_or, Dict,
  lookup, insert, delete,
}
use status_hub.Domain.Delivery.{
  Delivery, DeliveryStatus, pending, in_flight, is_terminal, is_in_flight,
}
use status_hub.Domain.Event.{CanonicalEvent}
use status_hub.Store.Memory.{Memory}

-- `if d.TransactionRef == ""`, then the event's.
unfoldable pub enqueued_ref : Memory → Delivery → Text
enqueued_ref m d =
    if d.transaction_ref == []
    then elim (lookup d.event_id m.events) [ none ↦ [] | some e ↦ e.transaction_ref ]
    else d.transaction_ref

-- `now` is the reading of the clock that is taken where the delivery has no time of creation.
unfoldable pub enqueue_delivery : ℕ → Delivery → Memory → Memory × ℕ
unfolding enqueued_ref
enqueue_delivery now d m =
    let id = m.delivery_ids + 1 in
    let created = if nat_eq d.created_at 0 then now else d.created_at in
    let d' = record d {
      id = id;
      transaction_ref = enqueued_ref m d;
      created_at = created;
      updated_at = created;
    } in
    (record m { delivery_ids = id; deliveries = insert id d' m.deliveries }, id)

abbrev pub count_or_zero : Option ℕ → ℕ
count_or_zero none = 0
count_or_zero (some n) = n

unfoldable pub next_sequence : Text → Text → Memory → Memory × ℕ
next_sequence tenant_id transaction_ref m =
    let key = tenant_id ++ (codes "|" ++ transaction_ref) in
    let n = count_or_zero (lookup key m.sequences) + 1 in
    (record m { sequences = insert key n m.sequences }, n)

unfoldable pub ref_for : Memory → Delivery → Text
ref_for m d =
    if d.transaction_ref == []
    then elim (lookup d.event_id m.events) [ none ↦ d.event_id | some e ↦ e.transaction_ref ]
    else d.transaction_ref

-- The (destination, transaction reference) pair that a delivery occupies while it is in flight.
unfoldable pub key_of : Memory → Delivery → Text
unfolding ref_for
key_of m d = d.destination_id ++ (codes "|" ++ ref_for m d)

-- `exp.Before(now)` and `exp.After(now)` of the lease, false where there is none.
unfoldable pub lease_before : Memory → ℕ → ℕ → Bool
lease_before m now id = elim (lookup id m.leases) [ none ↦ false | some exp ↦ ltb exp now ]

unfoldable pub lease_after : Memory → ℕ → ℕ → Bool
lease_after m now id = elim (lookup id m.leases) [ none ↦ false | some exp ↦ ltb now exp ]

-- In flight, under a lease that has not expired.
unfoldable pub is_blocking : Memory → ℕ → ℕ → Delivery → Bool
is_blocking m now id d = is_in_flight d.status && not (lease_before m now id)

unfoldable pub contains_key : Text → List Text → Bool
contains_key k [] = false
contains_key k (j ∷ js) = j == k || contains_key k js

unfoldable pub blocked_keys : Memory → ℕ → Dict ℕ Delivery → List Text
blocked_keys m now [] = []
blocked_keys m now ((id, d) ∷ ds) =
    let others = blocked_keys m now ds in
    if is_blocking m now id d then key_of m d ∷ others else others

unfoldable pub is_candidate : Memory → ℕ → ℕ → Delivery → Bool
is_candidate m shard now d =
    if not (nat_eq d.shard shard) || is_terminal d.status
    then false
    else if is_in_flight d.status && lease_after m now d.id
    then false
    else if not (nat_eq d.next_retry_at 0) && ltb now d.next_retry_at
    then false
    else true

unfoldable pub candidates : Memory → ℕ → ℕ → Dict ℕ Delivery → List Delivery
candidates m shard now [] = []
candidates m shard now ((id, d) ∷ ds) =
    let others = candidates m shard now ds in
    if is_candidate m shard now d then d ∷ others else others

-- By sequence, and by id within a sequence.
unfoldable pub before : Delivery → Delivery → Bool
before a b = if nat_eq a.sequence b.sequence then ltb a.id b.id else ltb a.sequence b.sequence

-- sort.Slice: ids differ, so every sorting algorithm gives this list.
unfoldable pub insert_sorted : Delivery → List Delivery → List Delivery
insert_sorted d [] = d ∷ []
insert_sorted d (e ∷ es) =
    let later = insert_sorted d es in if before e d then e ∷ later else d ∷ e ∷ es

unfoldable pub sort_deliveries : List Delivery → List Delivery
sort_deliveries [] = []
sort_deliveries (d ∷ ds) = insert_sorted d (sort_deliveries ds)

-- The variables of the loop that claims.
pub record Claim : Type 0 where
  pub store : Memory
  pub blocked : List Text
  pub claimed : List Delivery

unfoldable pub lease_out : ℕ → Delivery → Delivery
lease_out now d = record d { status = in_flight; attempt = d.attempt + 1; updated_at = now }

-- One round for a delivery whose key is free.
unfoldable pub take_one : ℕ → ℕ → Delivery → Claim → Claim
take_one now lease d c =
    let d' = lease_out now d in
    record {
      store = record c.store {
        deliveries = insert d.id d' c.store.deliveries;
        leases = insert d.id (now + lease) c.store.leases;
      };
      blocked = key_of c.store d ∷ c.blocked;
      claimed = c.claimed ++ d' ∷ [];
    }

unfoldable pub claim_loop : ℕ → ℕ → ℕ → List Delivery → Claim → Claim
claim_loop limit now lease [] c = c
claim_loop limit now lease (d ∷ ds) c = elim (leb limit (length c.claimed)) [
  | true ↦ c
  | false ↦
      (let skipped = claim_loop limit now lease ds c in
        let taken = claim_loop limit now lease ds (take_one now lease d c) in
        if contains_key (key_of c.store d) c.blocked then skipped else taken)
]

abbrev pub minute : ℕ
minute = 60_000_000_000

unfoldable pub claim_due : ℕ → ℕ → ℤ → ℤ → Memory → Memory × List Delivery
claim_due shard now limit lease m =
    let start : Claim = record {
      store = m;
      blocked = blocked_keys m now m.deliveries;
      claimed = [];
    } in
    let c =
      claim_loop (positive_or limit 32) now (positive_or lease minute)
        (sort_deliveries (candidates m shard now m.deliveries)) start in
    (c.store, c.claimed)

-- `false` is ErrNotFound. `now` is the clock's reading.
unfoldable pub complete_delivery : ℕ → Delivery → Memory → Memory × Bool
complete_delivery now d m = elim (lookup d.id m.deliveries) [
  | none ↦ (m, false)
  | some existing ↦
      (if existing.tenant_id == d.tenant_id
        then (
          record m {
            deliveries =
                insert d.id (record d { created_at = existing.created_at; updated_at = now })
                  m.deliveries;
            leases = delete d.id m.leases;
          },
          true,
        )
        else (m, false))
]

unfoldable pub get_delivery : Text → ℕ → Memory → Option Delivery
get_delivery tenant_id id m = elim (lookup id m.deliveries) [
  | none ↦ none
  | some d ↦ if d.tenant_id == tenant_id then some d else none
]

unfoldable pub queue_depth_of : ℕ → Dict ℕ Delivery → ℕ
queue_depth_of shard [] = 0
queue_depth_of shard ((_, d) ∷ ds) =
    let n = queue_depth_of shard ds in
    if is_terminal d.status then n else if nat_eq d.shard shard then n + 1 else n
