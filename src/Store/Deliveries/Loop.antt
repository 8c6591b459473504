-- ===== src/Store/Deliveries/Loop.antt =====
-- The rule for the loop of `claim_due`.
use status_hub.Prelude.{
  ℕ, ◌<◌, ◌≡◌, true, false, List, [], ◌∷◌, length, leb, Bool-cases, inl, inr, arith, All,
}
use status_hub.Domain.Delivery.{Delivery}
use status_hub.Store.Deliveries.{key_of, contains_key, Claim, take_one, claim_loop}

module _ (limit now lease : ℕ) (d : Delivery) (ds : List Delivery) (c : Claim) where
  pub claim_loop-full :
      leb limit (length c.claimed) ≡ true → claim_loop limit now lease (d ∷ ds) c ≡ c
  unfolding claim_loop
  claim_loop-full full = rw (full, claim_loop)

  pub claim_loop-skip :
      leb limit (length c.claimed) ≡ false
      → contains_key (key_of c.store d) c.blocked ≡ true
      → claim_loop limit now lease (d ∷ ds) c ≡ claim_loop limit now lease ds c
  unfolding claim_loop
  claim_loop-skip room taken = rw (room, claim_loop) (rw taken)

  pub claim_loop-take :
      leb limit (length c.claimed) ≡ false
      → contains_key (key_of c.store d) c.blocked ≡ false
      → claim_loop limit now lease (d ∷ ds) c
        ≡ claim_loop limit now lease ds (take_one now lease d c)
  unfolding claim_loop
  claim_loop-take room free = rw (room, claim_loop) (rw free)

-- What each round that claims keeps, the loop keeps.
module _ {Q : Delivery → Type 0} (P : Claim → Type 0) (limit now lease : ℕ)
    (keep : (d : Delivery) (c : Claim)
      → Q d
      → P c
      → length c.claimed < limit
      → contains_key (key_of c.store d) c.blocked ≡ false
      → P (take_one now lease d c)) where
  pub claim_loop_inv :
      (ds : List Delivery) (c : Claim) → All Q ds → P c → P (claim_loop limit now lease ds c)
  unfolding claim_loop
  claim_loop_inv [] c q h = h
  claim_loop_inv (d ∷ ds) c q h = elim (Bool-cases (leb limit (length c.claimed))) [
    | inl full ↦ rw (claim_loop-full limit now lease d ds c full) h
    | inr room ↦ elim (Bool-cases (contains_key (key_of c.store d) c.blocked)) [
      | inl taken ↦
          rw (claim_loop-skip limit now lease d ds c room taken) (claim_loop_inv ds c q.1 h)
      | inr free ↦
          rw (claim_loop-take limit now lease d ds c room free)
            (claim_loop_inv ds (take_one now lease d c) q.1 (keep d c q.0 h (ground arith) free))
    ]
  ]
