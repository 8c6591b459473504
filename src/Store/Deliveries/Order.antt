-- ===== src/Store/Deliveries/Order.antt =====
-- Which deliveries `claim_due` hands out.
use status_hub.Prelude.{
  ℕ, ◌+◌, ◌≢◌, ◌≤◌, ◌≡◌, refl, sym, ◌∙◌, ap, Bool, true, false, some, List, [], ◌∷◌, ◌++◌,
  Bool-cases, inl, inr, arith, All, All-append, All-map, All-of, lookup, nat_Eq, Text, ℤ,
  positive_or, length, length-append, leb, text_Eq,
}
use status_hub.Domain.Delivery.{Delivery, in_flight}
use status_hub.Store.Memory.{Memory}
use status_hub.Store.Deliveries.{
  key_of, contains_key, blocked_keys, is_candidate, candidates, sort_deliveries, Claim, lease_out,
  take_one, claim_loop, claim_due, minute,
}
use status_hub.Store.Deliveries.Loop.{
  claim_loop_inv, claim_loop-full, claim_loop-skip, claim_loop-take,
}
use status_hub.Store.Deliveries.Sorting.{
  IsSorted, All-sort, All-sort_inv, sort-IsSorted, All-candidates,
}
use status_hub.Store.Deliveries.Due.{
  IsDue, IsStored, IsHeld, IsHeld-blocking, candidate-IsDue, IsDue-candidate, candidates-Due,
}
use status_hub.Store.Deliveries.Exclusive.{
  blocked_keys-covers, key_of-take_one, blocked-take_one, contains_key-cons_self, contains_key-cons,
}

-- `d` is no later than the deliveries of `all` that share its key.
abbrev Earliest : Memory → List Delivery → Delivery → Type 0
Earliest m all d = All (λ (e : Delivery). key_of m e ≡ key_of m d → d.sequence ≤ e.sequence) all

abbrev Due : Memory → ℕ → ℕ → Delivery → Type 0
Due m shard now d = (is_candidate m shard now d ≡ true) × IsStored d m.deliveries

record Good (m : Memory) (shard now : ℕ) (all : List Delivery) (c : Delivery) : Type 0 where
  source : Delivery
  leased : c ≡ lease_out now source
  due : Due m shard now source
  free : contains_key (key_of m source) (blocked_keys m now m.deliveries) ≡ false
  earliest : Earliest m all source

-- The loop has gone through `done`, and `ds` is left.
record OrderInv (m : Memory) (shard now : ℕ) (all : List Delivery) (c : Claim) : Type 0 where
  keys : (e : Delivery) → key_of c.store e ≡ key_of m e
  grown :
      (k : Text)
      → contains_key k (blocked_keys m now m.deliveries) ≡ true
      → contains_key k c.blocked ≡ true
  good : All (Good m shard now all) c.claimed

claimed-take_one :
    (now lease : ℕ) (d : Delivery) (c : Claim)
    → (take_one now lease d c).claimed ≡ c.claimed ++ lease_out now d ∷ []
unfolding take_one
claimed-take_one now lease d c = refl

true≢false : {b : Bool} → b ≡ true → b ≡ false → ⊥
true≢false p q = cc

module _ (m : Memory) (shard now lease : ℕ) (all : List Delivery) (d : Delivery) (c : Claim) where
  take_one-OrderInv :
      Due m shard now d
      → Earliest m all d
      → contains_key (key_of c.store d) c.blocked ≡ false
      → OrderInv m shard now all c
      → OrderInv m shard now all (take_one now lease d c)
  take_one-OrderInv cand first free h = record {
    keys = λ e. key_of-take_one now lease d c e ∙ h.keys e;
    grown = λ k p.
        rw (blocked-take_one now lease d c)
          (contains_key-cons k (key_of c.store d) c.blocked (h.grown k p));
    good = rw (claimed-take_one now lease d c) (
        All-append (Good m shard now all) c.claimed (lease_out now d ∷ []) h.good (
          record {
            source = d;
            leased = refl;
            due = cand;
            free = not_blocked_before;
            earliest = first;
          },
          tt,
        ));
  }
    where
      not_blocked_before : contains_key (key_of m d) (blocked_keys m now m.deliveries) ≡ false
      not_blocked_before =
          elim (Bool-cases (contains_key (key_of m d) (blocked_keys m now m.deliveries))) [
            | inl p ↦ absurd (true≢false (rw (h.keys d) (h.grown (key_of m d) p)) free)
            | inr p ↦ p
          ]

module _ (m : Memory) (shard now lease : ℕ) (all : List Delivery) (d : Delivery) (c : Claim)
    (h : OrderInv m shard now all c) where
  -- After a round that claims, the keys that were seen are blocked, and so is the claimed one.
  seen-take_one :
      (done : List Delivery)
      → All (λ (e : Delivery). contains_key (key_of m e) c.blocked ≡ true) done
      → All
          (λ (e : Delivery). contains_key (key_of m e) (take_one now lease d c).blocked ≡ true)
          (d ∷ done)
  seen-take_one done seen = (
    rw (blocked-take_one now lease d c)
        (rw (h.keys d) (contains_key-cons_self (key_of m d) c.blocked)),
    All-map
        (λ (e : Delivery) (p : contains_key (key_of m e) c.blocked ≡ true).
          rw (blocked-take_one now lease d c)
            (contains_key-cons (key_of m e) (key_of c.store d) c.blocked p))
        done seen,
  )

  -- A delivery whose key is free comes before all that have its key.
  free-Earliest :
      (done ds : List Delivery)
      → ((P : Delivery → Type 0) → All P done → All P (d ∷ ds) → All P all)
      → All (λ (e : Delivery). contains_key (key_of m e) c.blocked ≡ true) done
      → All (λ (e : Delivery). d.sequence ≤ e.sequence) ds
      → contains_key (key_of c.store d) c.blocked ≡ false
      → Earliest m all d
  free-Earliest done ds join seen later free =
      join (λ e. key_of m e ≡ key_of m d → d.sequence ≤ e.sequence)
        (All-map {Q = no_earlier}
          (λ (e : Delivery) (p : contains_key (key_of m e) c.blocked ≡ true)
              (k : key_of m e ≡ key_of m d).
            later_than e p k)
          done seen)
        (
          (λ _. omega arith),
          All-map {Q = no_earlier}
              (λ (e : Delivery) (p : d.sequence ≤ e.sequence) (k : key_of m e ≡ key_of m d). p) ds
              later,
        )
    where
      no_earlier : Delivery → Type 0
      no_earlier e = key_of m e ≡ key_of m d → d.sequence ≤ e.sequence

      later_than :
          (e : Delivery)
          → contains_key (key_of m e) c.blocked ≡ true
          → key_of m e ≡ key_of m d
          → d.sequence ≤ e.sequence
      later_than e p k =
          absurd (true≢false (ap (λ x. contains_key x c.blocked) (h.keys d ∙ sym k) ∙ p) free)

module _ (m : Memory) (shard now limit lease : ℕ) (all : List Delivery) where
  -- `join` says that `all` is what is done and what is left.
  claim_loop-OrderInv :
      (done ds : List Delivery) (c : Claim)
      → ((P : Delivery → Type 0) → All P done → All P ds → All P all)
      → All (λ (e : Delivery). contains_key (key_of m e) c.blocked ≡ true) done
      → IsSorted ds
      → All (Due m shard now) ds
      → OrderInv m shard now all c
      → OrderInv m shard now all (claim_loop limit now lease ds c)
  unfolding claim_loop
  claim_loop-OrderInv done [] c join seen sorted cand h = h
  claim_loop-OrderInv done (d ∷ ds) c join seen sorted cand h =
      elim (Bool-cases (leb limit (length c.claimed))) [
        | inl full ↦ rw (claim_loop-full limit now lease d ds c full) h
        | inr room ↦ elim (Bool-cases (contains_key (key_of c.store d) c.blocked)) [
          | inl taken ↦ rw (claim_loop-skip limit now lease d ds c room taken) (
              claim_loop-OrderInv (d ∷ done) ds c (λ P p q. join P p.1 (p.0, q))
                (ap (λ k. contains_key k c.blocked) (sym (h.keys d)) ∙ taken, seen) sorted.1 cand.1
                h)
          | inr free ↦ rw (claim_loop-take limit now lease d ds c room free) (
              claim_loop-OrderInv (d ∷ done) ds (take_one now lease d c)
                (λ P p q. join P p.1 (p.0, q)) (seen-take_one m shard now lease all d c h done seen)
                sorted.1 cand.1
                (take_one-OrderInv m shard now lease all d c cand.0
                  (free-Earliest m shard now lease all d c h done ds join seen sorted.0 free) free
                  h))
        ]
      ]

-- What `claim_due` promises of each delivery that it hands out.
pub record IsClaimed (m : Memory) (shard now : ℕ) (c : Delivery) : Type 0 where
  pub source : Delivery
  pub leased :
      c ≡ record source { status = in_flight; attempt = source.attempt + 1; updated_at = now }
  pub is_stored : IsStored source m.deliveries
  pub due : IsDue m shard now source
  pub free :
      (i : ℕ) (e : Delivery)
      → lookup i m.deliveries ≡ some e
      → IsHeld m now i e
      → key_of m e ≢ key_of m source
  pub earliest :
      (i : ℕ) (e : Delivery)
      → lookup i m.deliveries ≡ some e
      → IsDue m shard now e
      → key_of m e ≡ key_of m source
      → source.sequence ≤ e.sequence

Good-IsClaimed :
    (m : Memory) (shard now : ℕ) (c : Delivery)
    → Good m shard now (sort_deliveries (candidates m shard now m.deliveries)) c
    → IsClaimed m shard now c
unfolding lease_out
Good-IsClaimed m shard now c g = record {
  source = g.source;
  leased = g.leased;
  is_stored = g.due.1;
  due = candidate-IsDue m shard now g.source g.due.0;
  free = λ i e p held q.
      true≢false
        (ap (λ k. contains_key k (blocked_keys m now m.deliveries)) (sym q)
          ∙ blocked_keys-covers m now m.deliveries i e p (IsHeld-blocking m now i e held))
        g.free;
  earliest = λ i e p q.
      let P : Delivery → Type 0 =
        λ x. key_of m x ≡ key_of m g.source → g.source.sequence ≤ x.sequence in
      All-candidates m shard now P m.deliveries i e
        (All-sort_inv P (candidates m shard now m.deliveries) g.earliest) p
        (IsDue-candidate m shard now e q);
}

-- Each claimed delivery is one of the store's, now in flight with one attempt more and updated now,
-- that was due: in the shard, pending, failed or in flight under a lease that does not run on, its
-- retry not in the future. Its destination and transaction reference had nothing in flight under an
-- unexpired lease; and no stored delivery that was due for the same two has a smaller sequence.
pub claim_due-IsClaimed :
    (shard now : ℕ) (limit lease : ℤ) (m : Memory)
    → All (IsClaimed m shard now) (claim_due shard now limit lease m).1
unfolding claim_due
claim_due-IsClaimed shard now limit lease m =
    let ds = candidates m shard now m.deliveries in
    let result =
      claim_loop-OrderInv m shard now (positive_or limit 32) (positive_or lease minute)
        (sort_deliveries ds) [] (sort_deliveries ds)
        (record { store = m; blocked = blocked_keys m now m.deliveries; claimed = [] }) (λ P _ p. p)
        tt (sort-IsSorted ds)
        (All-sort (Due m shard now) ds (candidates-Due m shard now m.deliveries))
        (record { keys = λ e. refl; grown = λ k p. p; good = tt }) in
    All-map (Good-IsClaimed m shard now) _ result.good

-- No more deliveries are claimed than the limit, or 32 where the limit is not positive.
pub length-claim_due :
    (shard now : ℕ) (limit lease : ℤ) (m : Memory)
    → length (claim_due shard now limit lease m).1 ≤ positive_or limit 32
unfolding claim_due
length-claim_due shard now limit lease m =
    claim_loop_inv {Q = λ d. Unit {0}} (λ c. length c.claimed ≤ positive_or limit 32)
      (positive_or limit 32) now (positive_or lease minute)
      (λ d c _ _ p _.
        rw (claimed-take_one now (positive_or lease minute) d c)
          (omega (arith, length-append c.claimed (lease_out now d ∷ []))))
      (sort_deliveries (candidates m shard now m.deliveries))
      (record { store = m; blocked = blocked_keys m now m.deliveries; claimed = [] })
      (All-of (λ d. tt) (sort_deliveries (candidates m shard now m.deliveries))) (omega arith)
