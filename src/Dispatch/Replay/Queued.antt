-- ===== src/Dispatch/Replay/Queued.antt =====
-- internal/dispatch/replay.go: what a replay and a retry do to the store.
use mathlib.Core.Path.{subst}
use status_hub.Prelude.{
  ℕ, ◌+◌, ◌≤◌, ◌<◌, ◌≡◌, refl, sym, ap, leb, lookup-insert_self, insert, ◌∙◌, Bool, true, false,
  List, [], ◌∷◌, Option, none, some, length, ◌⊎◌, inl, inr, Bool-cases, nat_eq, nat_Eq,
  if◌then◌else◌, arith, Text, ℤ, lookup, lookup-insert,
}
use status_hub.Domain.Delivery.{Delivery, pending, shard_for}
use status_hub.Domain.Event.{CanonicalEvent}
use status_hub.Domain.Config.{Destination, matches}
use status_hub.Store.Memory.{Memory, get_destination}
use status_hub.Store.Deliveries.{enqueue_delivery, enqueued_ref, next_sequence}
use status_hub.Dispatch.Enqueue.{enqueue_replay, queue_replay, delivery_for}
use status_hub.Dispatch.Replay.{
  ReplayRequest, ReplayResult, ReplayError, no_destination, Queueing, after_replay, queue_pairs,
  pairs_of, nothing_replayed, queued_result, replay_events, replay_to, replay, resolve_destinations,
  resolve_events,
}

-- A stored delivery of a replay that is still to be attempted.
pub record IsReplay (id : ℕ) (d : Delivery) : Type 0 where
  own_id : d.id ≡ id
  replays : d.is_replay ≡ true
  waits : d.status ≡ pending
  not_attempted : d.attempt ≡ 0

-- `n` deliveries are new: each of the ids that follow the last has one, which waits as a replay; all
-- that were there are as they were.
unfoldable pub IsAdded : ℕ → Memory → Memory → Type 0
IsAdded n m m' =
    (m'.delivery_ids ≡ m.delivery_ids + n)
    × ((j : ℕ) → j ≤ m.delivery_ids → lookup j m'.deliveries ≡ lookup j m.deliveries)
    × ((j : ℕ)
        → m.delivery_ids < j
        → j ≤ m'.delivery_ids
        → (d : Delivery) × (lookup j m'.deliveries ≡ some d) × IsReplay j d)

IsAdded-none : (m : Memory) → IsAdded 0 m m
unfolding IsAdded
IsAdded-none m = (omega arith, (λ j h. refl), λ j h l. absurd (omega (arith, h, l)))

IsAdded-then :
    (a b : ℕ) (m m' m'' : Memory) → IsAdded a m m' → IsAdded b m' m'' → IsAdded (a + b) m m''
unfolding IsAdded
IsAdded-then a b m m' m'' h k = (
  omega (arith, h.0, k.0),
  (λ j l. k.1 j (omega (arith, l, h.0)) ∙ h.1 j l),
  λ j l r. elim (Bool-cases (leb j m'.delivery_ids)) [
    | inr new ↦ k.2 j (ground arith) r
    | inl old ↦
        (let le : j ≤ m'.delivery_ids = ground arith in
          let (d, found, replay) = h.2 j l le in (d, k.1 j le ∙ found, replay))
  ],
)

IsAdded-enqueue :
    (now : ℕ) (d : Delivery) (m : Memory)
    → d.is_replay ≡ true
    → d.status ≡ pending
    → d.attempt ≡ 0
    → IsAdded 1 m (enqueue_delivery now d m).0
unfolding IsAdded enqueue_delivery
IsAdded-enqueue now d m r s t = (
  refl,
  (λ j l.
      kept (nat_eq (m.delivery_ids + 1) j) _ (lookup-insert (m.delivery_ids + 1) j _ m.deliveries)
        (ground arith)),
  λ j l k.
      let same : m.delivery_ids + 1 ≡ j = omega (arith, l, k) in
      let created = if nat_eq d.created_at 0 then now else d.created_at in
      let d' : Delivery = record d {
        id = m.delivery_ids + 1;
        transaction_ref = enqueued_ref m d;
        created_at = created;
        updated_at = created;
      } in
      (
        d',
        ap (λ i. lookup i (insert (m.delivery_ids + 1) d' m.deliveries)) (sym same)
            ∙ lookup-insert_self (m.delivery_ids + 1) d' m.deliveries,
        record { own_id = same; replays = r; waits = s; not_attempted = t },
      ),
)
  where
    kept :
        (b : Bool) {o q : Option Delivery} (p : Option Delivery)
        → o ≡ (if b then p else q)
        → b ≡ false
        → o ≡ q
    kept true p h k = absurd (ground arith)
    kept false p h k = h

IsAdded-queued :
    (shards : ℤ) (now : ℕ) (e : CanonicalEvent) (m : Memory) (dest : Destination)
    → IsAdded 1 m (queue_replay shards now e m (some dest)).0
unfolding IsAdded next_sequence
IsAdded-queued shards now e m dest =
    let (m', seq) = next_sequence e.tenant_id e.transaction_ref m in
    let d = delivery_for e (shard_for e.transaction_ref shards) seq true now dest in
    let (ids, kept, new) = IsAdded-enqueue now d m' refl refl refl in (ids, kept, new)

-- One call: one new delivery, or none where there is no such destination.
abbrev one_if : Option ℕ → ℕ
one_if none = 0
one_if (some _) = 1

IsAdded-enqueue_replay :
    (shards : ℤ) (now : ℕ) (e : CanonicalEvent) (id : Text) (m : Memory)
    → IsAdded (one_if (enqueue_replay shards now e id m).1) m (enqueue_replay shards now e id m).0
unfolding enqueue_replay
IsAdded-enqueue_replay shards now e id m = found (get_destination e.tenant_id id m)
  where
    found :
        (o : Option Destination)
        → IsAdded (one_if (queue_replay shards now e m o).1) m (queue_replay shards now e m o).0
    found none = IsAdded-none m
    found (some dest) = IsAdded-queued shards now e m dest

IsAdded-pair :
    (event dest : Text) (n : ℕ) (m : Memory) (r : Memory × Option ℕ) (next : Memory → ℕ → Queueing)
    → IsAdded (one_if r.1) m r.0
    → ((m' : Memory) (k : ℕ) → (a : ℕ) × ((next m' k).1 ≡ k + a) × IsAdded a m' (next m' k).0)
    → (a : ℕ) × ((after_replay event dest n r next).1 ≡ n + a)
      × IsAdded a m (after_replay event dest n r next).0
IsAdded-pair event dest n m (m', none) next h ih = (0, omega arith, h)
IsAdded-pair event dest n m (m', some id) next h ih =
    let (a, counted, added) = ih m' (n + 1) in
    (1 + a, omega (arith, counted), IsAdded-then 1 a m m' (next m' (n + 1)).0 h added)

IsAdded-queue_pairs :
    (shards : ℤ) (now : ℕ) (pairs : List (CanonicalEvent × Destination)) (m : Memory) (n : ℕ)
    → (a : ℕ) × ((queue_pairs shards now pairs m n).1 ≡ n + a)
      × IsAdded a m (queue_pairs shards now pairs m n).0
unfolding queue_pairs
IsAdded-queue_pairs shards now [] m n = (0, omega arith, IsAdded-none m)
IsAdded-queue_pairs shards now ((e, dest) ∷ pairs) m n = elim (Bool-cases (matches dest.filter e)) [
  | inr p ↦ rw (queue_pairs, p) (IsAdded-queue_pairs shards now pairs m n)
  | inl p ↦
      rw (queue_pairs, p)
        (IsAdded-pair e.id dest.id n m (enqueue_replay shards now e dest.id m)
          (queue_pairs shards now pairs) (IsAdded-enqueue_replay shards now e dest.id m)
          (IsAdded-queue_pairs shards now pairs))
]

-- How a replay ends.
unfoldable pub IsReplayed : Bool → Memory → Memory × ReplayResult × Option ReplayError → Type 0
IsReplayed dry_run m (m', res, err) =
    IsAdded res.queued m m' × (dry_run ≡ true → m' ≡ m) × (res.dry_run ≡ dry_run)

IsReplayed-none :
    (dry_run : Bool) (dests : List Destination) (m : Memory) (err : Option ReplayError)
    → IsReplayed dry_run m (m, nothing_replayed dry_run dests, err)
unfolding IsReplayed
IsReplayed-none dry_run dests m err = (IsAdded-none m, λ h. refl, refl)

IsReplayed-queued :
    (res : ReplayResult) (m : Memory) (q : Queueing)
    → res.dry_run ≡ false
    → ((a : ℕ) × (q.1 ≡ 0 + a) × IsAdded a m q.0)
    → IsReplayed false m (queued_result res q)
unfolding IsReplayed
IsReplayed-queued res m (m', n, err) d (a, counted, added) =
    (subst (λ k. IsAdded k m m') (omega (arith, counted)) added, λ h. absurd (ground arith), d)

IsReplayed-events :
    (shards : ℤ) (now : ℕ) (dry_run : Bool) (dests : List Destination) (m : Memory)
    (found : ReplayError ⊎ (List CanonicalEvent × Bool))
    → IsReplayed dry_run m (replay_events shards now dry_run dests m found)
unfolding IsReplayed
IsReplayed-events shards now dry_run dests m (inl err) = IsReplayed-none dry_run dests m (some err)
IsReplayed-events shards now true dests m (inr (es, truncated)) = (IsAdded-none m, λ h. refl, refl)
IsReplayed-events shards now false dests m (inr (es, truncated)) =
    IsReplayed-queued
      (record (nothing_replayed false dests) { matched = length es; truncated = truncated }) m
      (queue_pairs shards now (pairs_of es dests) m 0) refl
      (IsAdded-queue_pairs shards now (pairs_of es dests) m 0)

-- However a replay ends, with an error or without: it has added as many deliveries as its result says
-- are queued, each stored under its id as a replay that is pending and not attempted; all that were
-- there, dead letters too, are as they were, and a dry run has changed nothing at all.
pub replay-IsReplayed :
    (shards : ℤ) (now : ℕ) (tenant_id : Text) (req : ReplayRequest) (m : Memory)
    → IsReplayed req.dry_run m (replay shards now tenant_id req m)
unfolding replay
replay-IsReplayed shards now tenant_id req m =
    to (resolve_destinations tenant_id req.destination_ids m)
  where
    to :
        (found : ReplayError ⊎ List Destination)
        → IsReplayed req.dry_run m (replay_to shards now tenant_id req m found)
    to (inl err) = IsReplayed-none req.dry_run [] m (some err)
    to (inr []) = IsReplayed-none req.dry_run [] m (some no_destination)
    to (inr (dest ∷ dests)) =
        IsReplayed-events shards now req.dry_run (dest ∷ dests) m
          (resolve_events tenant_id req.event_ids req.filter m)
