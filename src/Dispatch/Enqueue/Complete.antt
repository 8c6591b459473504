-- ===== src/Dispatch/Enqueue/Complete.antt =====
-- Every destination that wants an event gets a delivery of it, in order.
use mathlib.Core.Path.{subst}
use status_hub.Prelude.{
  ℕ, Option, ◌++◌, codes, zero, suc, ◌+◌, ◌≤◌, ◌≡◌, refl, ap, ◌∙◌, Bool, ◌&&◌, true, false, none,
  some, inl, inr, List, [], ◌∷◌, length, filter, get_elem?, if◌then◌else◌, Bool-cases, arith,
  nat_eq, nat_Eq, text_Eq, text_eq, ℤ, lookup, insert, lookup-insert, lookup-insert_self,
}
use status_hub.Domain.Delivery.{Delivery, pending, shard_for}
use status_hub.Domain.Event.{CanonicalEvent}
use status_hub.Domain.Config.{Destination, matches}
use status_hub.Store.Memory.{Memory}
use status_hub.Store.Directory.{list_destinations}
use status_hub.Store.Deliveries.{enqueue_delivery, enqueued_ref, next_sequence, count_or_zero}
use status_hub.Dispatch.Enqueue.{wants, delivery_for, enqueue_loop, enqueue}

either : (b : Bool) (n : ℕ) → (if b then n else n) ≡ n
either true n = refl
either false n = refl

-- The delivery that is stored for a destination, with every field written out.
abbrev pub queued_as : CanonicalEvent → ℕ → ℕ → ℕ → Destination → ℕ → Delivery
queued_as e shard seq now dest id = record {
  id = id;
  tenant_id = e.tenant_id;
  event_id = e.id;
  destination_id = dest.id;
  transaction_ref = e.transaction_ref;
  shard = shard;
  sequence = seq;
  attempt = 0;
  status = pending;
  response_code = 0;
  response_body = [];
  error = [];
  duration_ms = 0;
  is_replay = false;
  next_retry_at = 0;
  created_at = now;
  updated_at = now;
}

-- Enabled, and with a filter that matches the event.
abbrev pub is_wanted : CanonicalEvent → Destination → Bool
is_wanted e dest = dest.enabled && matches dest.filter e

module _ (e : CanonicalEvent) (shard seq now : ℕ) where
  step : Destination → Memory → Memory
  step dest m = (enqueue_delivery now (delivery_for e shard seq false now dest) m).0

  step-stores :
      (dest : Destination) (m : Memory)
      → lookup e.id m.events ≡ some e
      → ((step dest m).delivery_ids ≡ m.delivery_ids + 1)
        × ((step dest m).events ≡ m.events)
        × ((step dest m).deliveries
            ≡ insert
                (m.delivery_ids + 1)
                (queued_as e shard seq now dest (m.delivery_ids + 1))
                m.deliveries)
  unfolding step enqueue_delivery enqueued_ref text_eq
  step-stores dest m h = (refl, refl, rw (h, either (nat_eq now 0) now) refl)

  -- The event stays, and so does each delivery that there is.
  enqueue_loop-kept :
      (dests : List Destination) (m : Memory) (j : ℕ)
      → lookup e.id m.events ≡ some e
      → j ≤ m.delivery_ids
      → lookup j (enqueue_loop e shard seq now dests m).deliveries ≡ lookup j m.deliveries
  unfolding enqueue_loop step
  enqueue_loop-kept [] m j h le = refl
  enqueue_loop-kept (dest ∷ dests) m j h le = elim (Bool-cases (wants e dest)) [
    | inr p ↦ rw (enqueue_loop, p) (enqueue_loop-kept dests m j h le)
    | inl p ↦
        (let (ids, events, deliveries) = step-stores dest m h in
          rw (enqueue_loop, p)
            (enqueue_loop-kept dests (step dest m) j (ap (lookup e.id) events ∙ h)
                (omega (arith, ids, le))
              ∙ ap (lookup j) deliveries
              ∙ rw
                  (
                    lookup-insert (m.delivery_ids + 1) j
                        (queued_as e shard seq now dest (m.delivery_ids + 1)) m.deliveries,
                    other m.delivery_ids le,
                  )
                  refl))
  ]
    where
      other : (n : ℕ) → j ≤ n → nat_eq (n + 1) j ≡ false
      other n le = ground arith

  first_queued :
      (d : Destination) (dests : List Destination) (m : Memory) (dest : Destination)
      → lookup e.id m.events ≡ some e
      → some d ≡ some dest
      → lookup (m.delivery_ids + 1) (enqueue_loop e shard seq now dests (step d m)).deliveries
        ≡ some (queued_as e shard seq now dest (m.delivery_ids + 1))
  first_queued d dests m dest h q =
      let (ids, events, deliveries) = step-stores d m h in
      enqueue_loop-kept dests (step d m) (m.delivery_ids + 1) (ap (lookup e.id) events ∙ h)
        (omega (arith, ids))
      ∙ ap (lookup (m.delivery_ids + 1)) deliveries
      ∙ lookup-insert_self (m.delivery_ids + 1) (queued_as e shard seq now d (m.delivery_ids + 1))
          m.deliveries
      ∙ ap (λ (o : Destination). some (queued_as e shard seq now o (m.delivery_ids + 1))) (same q)
    where
      same : some d ≡ some dest → d ≡ dest
      same k = cc

  enqueue_loop-queued :
      (dests : List Destination) (m : Memory) (i : ℕ) (dest : Destination)
      → lookup e.id m.events ≡ some e
      → get_elem? (filter (wants e) dests) i ≡ some dest
      → lookup (m.delivery_ids + suc i) (enqueue_loop e shard seq now dests m).deliveries
        ≡ some (queued_as e shard seq now dest (m.delivery_ids + suc i))
  unfolding enqueue_loop step filter
  enqueue_loop-queued [] m i dest h q = absurd (nothing q)
    where
      nothing : none ≡ some dest → ⊥
      nothing k = cc
  enqueue_loop-queued (d ∷ dests) m zero dest h q = elim (Bool-cases (wants e d)) [
    | inr p ↦ rw (enqueue_loop, p) (enqueue_loop-queued dests m zero dest h (rw (filter, p) at q))
    | inl p ↦ rw (enqueue_loop, p) (first_queued d dests m dest h (rw (filter, p) at q))
  ]
  enqueue_loop-queued (d ∷ dests) m (suc i) dest h q = elim (Bool-cases (wants e d)) [
    | inr p ↦
        rw (enqueue_loop, p) (enqueue_loop-queued dests m (suc i) dest h (rw (filter, p) at q))
    | inl p ↦
        (let (ids, events, _) = step-stores d m h in
          rw (enqueue_loop, p)
            (subst
              (λ n.
                lookup n (enqueue_loop e shard seq now dests (step d m)).deliveries
                ≡ some (queued_as e shard seq now dest n))
              (omega (arith, ids))
              (enqueue_loop-queued dests (step d m) i dest (ap (lookup e.id) events ∙ h)
                (rw (filter, p) at q))))
  ]

  length-enqueue_loop :
      (dests : List Destination) (m : Memory)
      → lookup e.id m.events ≡ some e
      → (enqueue_loop e shard seq now dests m).delivery_ids
        ≡ m.delivery_ids + length (filter (wants e) dests)
  unfolding enqueue_loop step filter
  length-enqueue_loop [] m h = omega arith
  length-enqueue_loop (d ∷ dests) m h = elim (Bool-cases (wants e d)) [
    | inr p ↦ rw (enqueue_loop, filter, p) (length-enqueue_loop dests m h)
    | inl p ↦
        (let (ids, events, _) = step-stores d m h in
          rw (enqueue_loop, filter, p)
            (omega
              (arith, length-enqueue_loop dests (step d m) (ap (lookup e.id) events ∙ h), ids)))
  ]

-- The number that follows the last one given to a reference of a tenant, the first being 1.
abbrev following : Option ℕ → ℕ
following none = 1
following (some n) = n + 1

abbrev pub sequence_of : CanonicalEvent → Memory → ℕ
sequence_of e m = following (lookup (e.tenant_id ++ (codes "|" ++ e.transaction_ref)) m.sequences)

next_sequence-of :
    (e : CanonicalEvent) (m : Memory)
    → (next_sequence e.tenant_id e.transaction_ref m).1 ≡ sequence_of e m
unfolding next_sequence
next_sequence-of e m =
    counted (lookup (e.tenant_id ++ (codes "|" ++ e.transaction_ref)) m.sequences)
  where
    counted : (o : Option ℕ) → count_or_zero o + 1 ≡ following o
    counted none = omega arith
    counted (some n) = refl

pub enqueue-queued :
    (shards : ℤ) (now : ℕ) (e : CanonicalEvent) (m : Memory) (i : ℕ) (dest : Destination)
    → lookup e.id m.events ≡ some e
    → get_elem? (filter (is_wanted e) (list_destinations e.tenant_id m)) i ≡ some dest
    → (lookup (m.delivery_ids + suc i) (enqueue shards now e m).deliveries
        ≡ some (
            queued_as e
              (shard_for e.transaction_ref shards)
              (sequence_of e m)
              now
              dest
              (m.delivery_ids + suc i)))
      × ((enqueue shards now e m).delivery_ids
          ≡ m.delivery_ids + length (filter (is_wanted e) (list_destinations e.tenant_id m)))
unfolding enqueue next_sequence
enqueue-queued shards now e m i dest h q =
    let shard = shard_for e.transaction_ref shards in
    let (m', seq) = next_sequence e.tenant_id e.transaction_ref m in
    let dests = list_destinations e.tenant_id m in
    (
      enqueue_loop-queued e shard seq now dests m' i dest h q
          ∙ ap (λ n. some (queued_as e shard n now dest (m.delivery_ids + suc i)))
              (next_sequence-of e m),
      length-enqueue_loop e shard seq now dests m' h,
    )
