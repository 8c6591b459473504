-- ===== src/Store/Deliveries/Workers.antt =====
-- Any number of workers, with the calls that queue, claim and complete deliveries.
use status_hub.Prelude.{
  ℕ, ◌+◌, ◌≤◌, ◌≡◌, refl, sym, ◌∙◌, true, false, some, nat_Eq, if◌then◌else◌, ◌==◌, text_Eq, ℤ,
  Option-cases, nat_eq, lookup, delete, insert, Dict, ap, lookup-insert, lookup-delete, Bool-cases,
  inl, inr, arith,
}
use status_hub.Domain.Delivery.{Delivery, is_in_flight}
use status_hub.Store.Memory.{Memory, new_memory}
use status_hub.Store.Deliveries.{
  key_of, ref_for, enqueued_ref, lease_before, is_blocking, enqueue_delivery, claim_due,
  complete_delivery,
}
use status_hub.Store.Deliveries.Exclusive.{OneInFlight, claim_due-OneInFlight}

-- The stores that the calls of any workers lead to from a new one, in any order, the clock never
-- going back. What is queued is not in flight, nor is what a worker completes with an outcome.
pub data Reached : ℕ → Memory → Type 0 where
  starts : (now : ℕ) → Reached now new_memory
  waits : {now : ℕ} {m : Memory} (later : ℕ) → now ≤ later → Reached now m → Reached later m
  enqueues :
      {now : ℕ} {m : Memory} (d : Delivery)
      → is_in_flight d.status ≡ false
      → Reached now m
      → Reached now (enqueue_delivery now d m).0
  claims :
      {now : ℕ} {m : Memory} (shard : ℕ) (limit lease : ℤ)
      → Reached now m
      → Reached now (claim_due shard now limit lease m).0
  completes :
      {now : ℕ} {m : Memory} (d : Delivery)
      → is_in_flight d.status ≡ false
      → Reached now m
      → Reached now (complete_delivery now d m).0

-- A store whose deliveries in flight are among those of another, under the same keys.
record FewerInFlight (now : ℕ) (m m' : Memory) : Type 0 where
  in_both :
      (i : ℕ) (d : Delivery)
      → lookup i m'.deliveries ≡ some d
      → is_blocking m' now i d ≡ true
      → (lookup i m.deliveries ≡ some d) × (is_blocking m now i d ≡ true)
  same_key : (d : Delivery) → key_of m' d ≡ key_of m d

OneInFlight-fewer :
    {now : ℕ} (m m' : Memory) → FewerInFlight now m m' → OneInFlight now m → OneInFlight now m'
OneInFlight-fewer m m' h one = record {
  same = λ i j d e p q b b' k.
      let (p', c) = h.in_both i d p b in
      let (q', c') = h.in_both j e q b' in
      one.same i j d e p' q' c c' (sym (h.same_key d) ∙ k ∙ h.same_key e);
}

-- Under a clock that has moved on, fewer leases are unexpired.
is_blocking-later :
    (m : Memory) (now later i : ℕ) (d : Delivery)
    → now ≤ later
    → is_blocking m later i d ≡ true
    → is_blocking m now i d ≡ true
unfolding is_blocking lease_before
is_blocking-later m now later i d h b = ground arith

OneInFlight-later :
    {now later : ℕ} (m : Memory) → now ≤ later → OneInFlight now m → OneInFlight later m
OneInFlight-later {now} {later} m h one = record {
  same = λ i j d e p q b b'.
      one.same i j d e p q (is_blocking-later m now later i d h b)
        (is_blocking-later m now later j e h b');
}

-- The store with a delivery put under an id.
abbrev put : ℕ → Delivery → Dict ℕ ℕ → ℕ → Memory → Memory
put id d leases next m = record m {
  deliveries = insert id d m.deliveries;
  leases = leases;
  delivery_ids = next;
}

-- Where the delivery is not in flight and no lease of another id is touched, nothing comes in flight.
module _ (now id next : ℕ) (d : Delivery) (leases : Dict ℕ ℕ) (m : Memory)
    (idle : is_in_flight d.status ≡ false)
    (others : (i : ℕ) → (id == i) ≡ false → lookup i leases ≡ lookup i m.leases) where
  put-other :
      (i : ℕ) (e : Delivery)
      → (id == i) ≡ false
      → lookup i (put id d leases next m).deliveries ≡ some e
      → is_blocking (put id d leases next m) now i e ≡ true
      → (lookup i m.deliveries ≡ some e) × (is_blocking m now i e ≡ true)
  unfolding is_blocking lease_before
  put-other i e n p b =
      (ground (arith, lookup-insert id i d m.deliveries), ground (arith, others i n))

  put-own :
      (i : ℕ) (e : Delivery)
      → (id == i) ≡ true
      → lookup i (put id d leases next m).deliveries ≡ some e
      → is_blocking (put id d leases next m) now i e ≡ false
  unfolding is_blocking
  put-own i e y p =
      let q : e ≡ d = ground (arith, lookup-insert id i d m.deliveries) in
      ground (arith, ap (λ f. is_in_flight f.status) q)

  fewer-put : FewerInFlight now m (put id d leases next m)
  unfolding key_of ref_for
  fewer-put = record {
    in_both = λ i e p b. elim (Bool-cases (id == i)) [
      | inl y ↦ absurd (ground (arith, put-own i e y p))
      | inr n ↦ put-other i e n p b
    ];
    same_key = λ e. refl;
  }

OneInFlight-put :
    (now id next : ℕ) (d : Delivery) (leases : Dict ℕ ℕ) (m : Memory)
    → is_in_flight d.status ≡ false
    → ((i : ℕ) → (id == i) ≡ false → lookup i leases ≡ lookup i m.leases)
    → OneInFlight now m
    → OneInFlight now (put id d leases next m)
OneInFlight-put now id next d leases m idle others =
    OneInFlight-fewer m (put id d leases next m) (fewer-put now id next d leases m idle others)

enqueue_delivery-OneInFlight :
    (now : ℕ) (d : Delivery) (m : Memory)
    → is_in_flight d.status ≡ false
    → OneInFlight now m
    → OneInFlight now (enqueue_delivery now d m).0
unfolding enqueue_delivery
enqueue_delivery-OneInFlight now d m idle =
    let created = if nat_eq d.created_at 0 then now else d.created_at in
    let d' : Delivery = record d {
      id = m.delivery_ids + 1;
      transaction_ref = enqueued_ref m d;
      created_at = created;
      updated_at = created;
    } in
    OneInFlight-put now (m.delivery_ids + 1) (m.delivery_ids + 1) d' m.leases m idle (λ i n. refl)

complete_delivery-OneInFlight :
    (now : ℕ) (d : Delivery) (m : Memory)
    → is_in_flight d.status ≡ false
    → OneInFlight now m
    → OneInFlight now (complete_delivery now d m).0
unfolding complete_delivery
complete_delivery-OneInFlight now d m idle one = elim (Option-cases (lookup d.id m.deliveries)) [
  | inl p ↦ rw (p, complete_delivery) one
  | inr (existing, p) ↦ elim (Bool-cases (existing.tenant_id == d.tenant_id)) [
    | inl y ↦
        rw (p, y, complete_delivery)
          (OneInFlight-put now d.id m.delivery_ids
            (record d { created_at = existing.created_at; updated_at = now }) (delete d.id m.leases)
            m idle (λ i n. ground (arith, lookup-delete d.id i m.leases)) one)
    | inr n ↦ rw (p, n, complete_delivery) one
  ]
]

-- From a new store, however many workers queue, claim and complete deliveries, in whatever order
-- these calls come, no two deliveries in flight under an unexpired lease have the same destination
-- and transaction reference, as long as the clock does not go back and nothing is queued or
-- completed as in flight.
pub Reached-OneInFlight : {now : ℕ} {m : Memory} → Reached now m → OneInFlight now m
unfolding is_blocking is_in_flight lookup
Reached-OneInFlight (starts now) = record { same = λ i j d e p. absurd (ground arith) }
Reached-OneInFlight (waits {m = m} later h r) = OneInFlight-later m h (Reached-OneInFlight r)
Reached-OneInFlight {now = now} (enqueues {m = m} d idle r) =
    enqueue_delivery-OneInFlight now d m idle (Reached-OneInFlight r)
Reached-OneInFlight {now = now} (claims {m = m} shard limit lease r) =
    claim_due-OneInFlight shard now limit lease m (Reached-OneInFlight r)
Reached-OneInFlight {now = now} (completes {m = m} d idle r) =
    complete_delivery-OneInFlight now d m idle (Reached-OneInFlight r)
