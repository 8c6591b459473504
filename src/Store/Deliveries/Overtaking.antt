-- ===== src/Store/Deliveries/Overtaking.antt =====
-- What happens to a transaction's next delivery while an earlier one waits for its retry.
use status_hub.Prelude.{ℕ, zero, suc, ◌<◌, ◌≡◌, refl, false, [], ◌∷◌, leb, arith, ℤ, positive_or}
use status_hub.Domain.Delivery.{Delivery, pending, failed, is_in_flight, is_terminal}
use status_hub.Store.Memory.{Memory}
use status_hub.Store.Deliveries.{
  key_of, contains_key, is_blocking, blocked_keys, is_candidate, candidates, sort_deliveries,
  insert_sorted, Claim, lease_out, take_one, claim_loop, claim_due, minute,
}
use status_hub.Store.Deliveries.Loop.{claim_loop-take}

-- A queue of two: the earlier delivery failed and waits for its retry, and the later one is due.
pub record IsWaitingPair (m : Memory) (shard now : ℕ) (earlier later : Delivery) : Type 0 where
  pub queue : m.deliveries ≡ (earlier.id, earlier) ∷ (later.id, later) ∷ []
  pub one_key : key_of m earlier ≡ key_of m later
  pub in_order : earlier.sequence < later.sequence
  pub earlier_failed : earlier.status ≡ failed
  pub earlier_waits : now < earlier.next_retry_at
  pub later_pending : later.status ≡ pending
  pub later_due : later.next_retry_at ≡ 0
  pub later_shard : later.shard ≡ shard

module _ (m : Memory) (shard now : ℕ) (earlier later : Delivery)
    (h : IsWaitingPair m shard now earlier later) where
  no_blocked : blocked_keys m now m.deliveries ≡ []
  unfolding blocked_keys is_blocking is_in_flight
  no_blocked = rw h.queue (ground (arith, h))

  one_candidate : candidates m shard now m.deliveries ≡ later ∷ []
  unfolding candidates is_candidate is_in_flight is_terminal
  one_candidate = rw h.queue (ground (arith, h))

  claim_later :
      (limit lease : ℕ)
      → 0 < limit
      → (claim_loop limit now lease
          (later ∷ [])
          (record { store = m; blocked = []; claimed = [] })).claimed
        ≡ lease_out now later ∷ []
  unfolding claim_loop take_one contains_key
  claim_later limit lease p =
      let start : Claim = record { store = m; blocked = []; claimed = [] } in
      let room : leb limit 0 ≡ false = ground arith in
      rw (claim_loop-take limit now lease later [] start room refl) refl

positive_or-pos : (x : ℤ) (d : ℕ) → 0 < d → 0 < positive_or x d
positive_or-pos (ℤ.pos zero) d h = h
positive_or-pos (ℤ.pos (suc n)) d h = omega arith
positive_or-pos (ℤ.negsuc n) d h = h

-- If the queue holds nothing but a failed delivery that waits for its retry and a due one of the same
-- destination and transaction reference with a larger sequence, then the later one is claimed and
-- leased out: it overtakes the earlier one.
pub claim_due_overtakes :
    (m : Memory) (shard now : ℕ) (limit lease : ℤ) (earlier later : Delivery)
    → IsWaitingPair m shard now earlier later
    → (claim_due shard now limit lease m).1 ≡ lease_out now later ∷ []
unfolding claim_due sort_deliveries insert_sorted
claim_due_overtakes m shard now limit lease earlier later h =
    rw (no_blocked m shard now earlier later h) (
      rw (one_candidate m shard now earlier later h) (
        claim_later m shard now earlier later h (positive_or limit 32) (positive_or lease minute)
          (positive_or-pos limit 32 (omega arith))))
