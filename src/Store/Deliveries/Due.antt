-- ===== src/Store/Deliveries/Due.antt =====
-- When a delivery is due, in words that do not mention the code's test.
use status_hub.Prelude.{
  ℕ, ◌≤◌, ◌≡◌, refl, [], ◌∷◌, All, All-map, Dict, Bool-cases, true, false, ◌⊎◌, inl, inr, some,
  none, Option, ltb, arith, lookup, nat_Eq,
}
use status_hub.Domain.Delivery.{
  Delivery, DeliveryStatus, pending, in_flight, succeeded, failed, dead_letter, is_terminal,
  is_in_flight,
}
use status_hub.Store.Memory.{Memory}
use status_hub.Store.Deliveries.{lease_after, lease_before, is_blocking, is_candidate, candidates}

-- In the shard, neither succeeded nor given up, with no lease that runs on after `now`, and not
-- waiting for a retry.
pub record IsDue (m : Memory) (shard now : ℕ) (d : Delivery) : Type 0 where
  pub in_shard : d.shard ≡ shard
  pub is_open : (d.status ≡ pending) ⊎ (d.status ≡ failed) ⊎ (d.status ≡ in_flight)
  pub unleased :
      (expiry : ℕ) → d.status ≡ in_flight → lookup d.id m.leases ≡ some expiry → expiry ≤ now
  pub retry_due : d.next_retry_at ≤ now

open_status :
    (s : DeliveryStatus) → is_terminal s ≡ false → (s ≡ pending) ⊎ (s ≡ failed) ⊎ (s ≡ in_flight)
unfolding is_terminal
open_status pending h = inl refl
open_status in_flight h = inr (inr refl)
open_status succeeded h = absurd (ground arith)
open_status failed h = inr (inl refl)
open_status dead_letter h = absurd (ground arith)

module _ (m : Memory) (shard now : ℕ) (d : Delivery) where
  pub candidate-IsDue : is_candidate m shard now d ≡ true → IsDue m shard now d
  unfolding is_candidate lease_after is_in_flight
  candidate-IsDue h = record {
    in_shard = ground arith;
    is_open = open_status d.status (ground arith);
    unleased = λ expiry s l. ground (arith, s, l);
    retry_due = ground arith;
  }

  not_leased :
      ((expiry : ℕ) → d.status ≡ in_flight → lookup d.id m.leases ≡ some expiry → expiry ≤ now)
      → d.status ≡ in_flight
      → lease_after m now d.id ≡ false
  unfolding lease_after
  not_leased h s = held (lookup d.id m.leases) (λ expiry. h expiry s)
    where
      held :
          (o : Option ℕ)
          → ((expiry : ℕ) → o ≡ some expiry → expiry ≤ now)
          → (elim o [ none ↦ false | some exp ↦ ltb now exp ]) ≡ false
      held none k = refl
      held (some exp) k = ground (arith, k exp refl)

  pub IsDue-candidate : IsDue m shard now d → is_candidate m shard now d ≡ true
  unfolding is_candidate is_in_flight is_terminal
  IsDue-candidate h = elim h.is_open [
    | inl p ↦ ground (arith, p, h.in_shard, h.retry_due)
    | inr (inl p) ↦ ground (arith, p, h.in_shard, h.retry_due)
    | inr (inr p) ↦ ground (arith, p, h.in_shard, h.retry_due, not_leased h.unleased p)
  ]

-- The delivery is one of the store's.
unfoldable pub IsStored : Delivery → Dict ℕ Delivery → Type 0
IsStored d [] = ⊥
IsStored d ((_, e) ∷ ds) = (d ≡ e) ⊎ IsStored d ds

module _ (m : Memory) (shard now : ℕ) where
  pub candidates-Due :
      (ds : Dict ℕ Delivery)
      → All (λ d. (is_candidate m shard now d ≡ true) × IsStored d ds) (candidates m shard now ds)
  unfolding candidates IsStored
  candidates-Due [] = tt
  candidates-Due ((i, e) ∷ ds) =
      let others : All (λ d. (is_candidate m shard now d ≡ true) × IsStored d ((i, e) ∷ ds))
          (candidates m shard now ds) =
        All-map (λ d (c, s). (c, inr s)) (candidates m shard now ds) (candidates-Due ds) in
      elim (Bool-cases (is_candidate m shard now e)) [
        | inl y ↦ rw y ((y, inl refl), others)
        | inr n ↦ rw n others
      ]

-- In flight, under a lease that has not run out before `now`, if there is one.
pub record IsHeld (m : Memory) (now id : ℕ) (d : Delivery) : Type 0 where
  pub sent : d.status ≡ in_flight
  pub unexpired : (expiry : ℕ) → lookup id m.leases ≡ some expiry → now ≤ expiry

pub IsHeld-blocking :
    (m : Memory) (now id : ℕ) (d : Delivery) → IsHeld m now id d → is_blocking m now id d ≡ true
unfolding is_blocking lease_before is_in_flight
IsHeld-blocking m now id d h =
    let running = held (lookup id m.leases) h.unexpired in ground (arith, h.sent, running)
  where
    held :
        (o : Option ℕ)
        → ((expiry : ℕ) → o ≡ some expiry → now ≤ expiry)
        → (elim o [ none ↦ false | some exp ↦ ltb exp now ]) ≡ false
    held none k = refl
    held (some exp) k = ground (arith, k exp refl)
