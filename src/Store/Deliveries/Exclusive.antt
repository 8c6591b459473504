-- ===== src/Store/Deliveries/Exclusive.antt =====
-- At most one delivery is in flight for each destination and transaction reference.
use status_hub.Prelude.{
  ℕ, ◌+◌, ◌≡◌, refl, sym, ap, ◌∙◌, true, false, some, List, [], ◌∷◌, nat_Eq, nat_eq_iff,
  if◌then◌else◌, ◌==◌, Text, text_Eq, text_eq_iff, ℤ, Dict, lookup, lookup-insert, Bool-cases, ◌⊎◌,
  inl, inr, arith, positive_or, ◌≢◌, All-of,
}
use status_hub.Domain.Delivery.{Delivery}
use status_hub.Store.Memory.{Memory}
use status_hub.Store.Deliveries.{
  key_of, lease_before, is_blocking, contains_key, blocked_keys, candidates, sort_deliveries, Claim,
  lease_out, take_one, claim_due, minute,
}
use status_hub.Store.Deliveries.Loop.{claim_loop_inv}

-- Of the deliveries in flight under an unexpired lease, no two have one key.
pub record OneInFlight (now : ℕ) (m : Memory) : Type 0 where
  pub same :
      (i j : ℕ) (d e : Delivery)
      → lookup i m.deliveries ≡ some d
      → lookup j m.deliveries ≡ some e
      → is_blocking m now i d ≡ true
      → is_blocking m now j e ≡ true
      → key_of m d ≡ key_of m e
      → i ≡ j

-- The loop's invariant: the set of blocked keys has the key of each delivery in flight.
record LoopInv (now : ℕ) (c : Claim) : Type 0 where
  one : OneInFlight now c.store
  covers :
      (i : ℕ) (d : Delivery)
      → lookup i c.store.deliveries ≡ some d
      → is_blocking c.store now i d ≡ true
      → contains_key (key_of c.store d) c.blocked ≡ true

pub contains_key-cons_self : (k : Text) (ks : List Text) → contains_key k (k ∷ ks) ≡ true
unfolding contains_key
contains_key-cons_self k ks = ground (arith, text_eq_iff k k)

pub contains_key-cons :
    (k j : Text) (ks : List Text) → contains_key k ks ≡ true → contains_key k (j ∷ ks) ≡ true
unfolding contains_key
contains_key-cons k j ks h = ground arith

pub blocked_keys-covers :
    (m : Memory) (now : ℕ) (ds : Dict ℕ Delivery) (i : ℕ) (d : Delivery)
    → lookup i ds ≡ some d
    → is_blocking m now i d ≡ true
    → contains_key (key_of m d) (blocked_keys m now ds) ≡ true
unfolding blocked_keys lookup
blocked_keys-covers m now [] i d p b = cc
blocked_keys-covers m now ((j, e) ∷ ds) i d p b = ground (
  arith,
  nat_eq_iff j i,
  contains_key-cons_self (key_of m d) (blocked_keys m now ds),
  contains_key-cons (key_of m d) (key_of m e) (blocked_keys m now ds),
  blocked_keys-covers m now ds i d,
)

module _ (now lease : ℕ) (d : Delivery) (c : Claim) where
  lookup-take_one :
      (i : ℕ)
      → lookup i (take_one now lease d c).store.deliveries
        ≡ (if d.id == i then some (lease_out now d) else lookup i c.store.deliveries)
  unfolding take_one
  lookup-take_one i = lookup-insert d.id i (lease_out now d) c.store.deliveries

  lookup_lease-take_one :
      (i : ℕ)
      → lookup i (take_one now lease d c).store.leases
        ≡ (if d.id == i then some (now + lease) else lookup i c.store.leases)
  unfolding take_one
  lookup_lease-take_one i = lookup-insert d.id i (now + lease) c.store.leases

  key_of-lease_out : key_of c.store (lease_out now d) ≡ key_of c.store d
  unfolding lease_out key_of
  key_of-lease_out = refl

  pub key_of-take_one : (e : Delivery) → key_of (take_one now lease d c).store e ≡ key_of c.store e
  unfolding take_one key_of
  key_of-take_one e = refl

  pub blocked-take_one : (take_one now lease d c).blocked ≡ key_of c.store d ∷ c.blocked
  unfolding take_one
  blocked-take_one = refl

  is_blocking-take_one :
      (i : ℕ) (e : Delivery)
      → (d.id == i) ≡ false
      → is_blocking (take_one now lease d c).store now i e ≡ is_blocking c.store now i e
  unfolding is_blocking lease_before
  is_blocking-take_one i e n = ground (arith, lookup_lease-take_one i)

  -- What is in flight after a round is the delivery that it leased out, or was in flight before.
  take_one-cases :
      (i : ℕ) (e : Delivery)
      → lookup i (take_one now lease d c).store.deliveries ≡ some e
      → is_blocking (take_one now lease d c).store now i e ≡ true
      → ((i ≡ d.id) × (key_of c.store e ≡ key_of c.store d))
        ⊎ ((lookup i c.store.deliveries ≡ some e) × (is_blocking c.store now i e ≡ true))
  take_one-cases i e p b = elim (Bool-cases (d.id == i)) [
    | inl y ↦ inl (ground (arith, nat_eq_iff d.id i), cc (y, lookup-take_one i, key_of-lease_out))
    | inr n ↦ inr (ground (arith, lookup-take_one i), sym (is_blocking-take_one i e n) ∙ b)
  ]

module _ (now lease : ℕ) (d : Delivery) (c : Claim) (h : LoopInv now c)
    (free : contains_key (key_of c.store d) c.blocked ≡ false) where
  not_free :
      (i : ℕ) (e : Delivery)
      → lookup i c.store.deliveries ≡ some e
      → is_blocking c.store now i e ≡ true
      → key_of c.store e ≢ key_of c.store d
  not_free i e p b q = cc (h.covers i e p b, ap (λ k. contains_key k c.blocked) q, free)

  take_one-LoopInv : LoopInv now (take_one now lease d c)
  take_one-LoopInv =
      let kd = key_of-take_one now lease d c in
      record {
        one = record {
          same = λ i j e f p q b b' k.
              let k' : key_of c.store e ≡ key_of c.store f = sym (kd e) ∙ k ∙ kd f in
              elim (take_one-cases now lease d c i e p b) [
                | inl (x, y) ↦ elim (take_one-cases now lease d c j f q b') [
                  | inl (x', y') ↦ x ∙ sym x'
                  | inr (x', y') ↦ absurd (not_free j f x' y' (sym k' ∙ y))
                ]
                | inr (x, y) ↦ elim (take_one-cases now lease d c j f q b') [
                  | inl (x', y') ↦ absurd (not_free i e x y (k' ∙ y'))
                  | inr (x', y') ↦ h.one.same i j e f x x' y y' k'
                ]
              ];
        };
        covers = λ i e p b.
            rw (kd e, blocked-take_one now lease d c)
              (elim (take_one-cases now lease d c i e p b) [
                | inl (x, y) ↦ rw y (contains_key-cons_self (key_of c.store d) c.blocked)
                | inr (x, y) ↦
                    contains_key-cons (key_of c.store e) (key_of c.store d) c.blocked
                      (h.covers i e x y)
              ]);
      }

-- Claiming keeps it so that no two deliveries in flight under an unexpired lease have the same
-- destination and transaction reference, whatever the shard, the limit and the lease.
pub claim_due-OneInFlight :
    (shard now : ℕ) (limit lease : ℤ) (m : Memory)
    → OneInFlight now m
    → OneInFlight now (claim_due shard now limit lease m).0
unfolding claim_due
claim_due-OneInFlight shard now limit lease m h =
    (claim_loop_inv {Q = λ d. Unit {0}} (LoopInv now) (positive_or limit 32) now
      (positive_or lease minute)
      (λ d c _ k _ free. take_one-LoopInv now (positive_or lease minute) d c k free)
      (sort_deliveries (candidates m shard now m.deliveries))
      (record { store = m; blocked = blocked_keys m now m.deliveries; claimed = [] })
      (All-of (λ d. tt) (sort_deliveries (candidates m shard now m.deliveries)))
      (record { one = h; covers = λ i d. blocked_keys-covers m now m.deliveries i d })).one
