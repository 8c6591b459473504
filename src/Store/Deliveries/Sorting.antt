-- ===== src/Store/Deliveries/Sorting.antt =====
-- The sorted list of candidates: its order, and what it holds.
use status_hub.Prelude.{
  ℕ, ◌≤◌, ◌≡◌, true, false, some, List, [], ◌∷◌, Bool-cases, inl, inr, arith, All, All-map, Dict,
  lookup, nat_Eq, ◌==◌,
}
use mathlib.Core.Path.{subst}
use status_hub.Domain.Delivery.{Delivery}
use status_hub.Store.Memory.{Memory}
use status_hub.Store.Deliveries.{before, insert_sorted, sort_deliveries, is_candidate, candidates}

abbrev pub IsSorted : List Delivery → Type 0
IsSorted [] = Unit
IsSorted (d ∷ ds) = All (λ (e : Delivery). d.sequence ≤ e.sequence) ds × IsSorted ds

pub before-le : (a b : Delivery) → before a b ≡ true → a.sequence ≤ b.sequence
unfolding before
before-le a b h = ground arith

pub not_before-le : (a b : Delivery) → before a b ≡ false → b.sequence ≤ a.sequence
unfolding before
not_before-le a b h = ground arith

module _ (P : Delivery → Type 0) where
  All-insert_sorted :
      (d : Delivery) (ds : List Delivery) → P d → All P ds → All P (insert_sorted d ds)
  unfolding insert_sorted
  All-insert_sorted d [] p h = (p, tt)
  All-insert_sorted d (e ∷ es) p h = elim (Bool-cases (before e d)) [
    | inl b ↦ rw b (h.0, All-insert_sorted d es p h.1)
    | inr b ↦ rw b (p, h)
  ]

  All-insert_sorted_inv :
      (d : Delivery) (ds : List Delivery) → All P (insert_sorted d ds) → P d × All P ds
  unfolding insert_sorted
  All-insert_sorted_inv d [] h = (h.0, tt)
  All-insert_sorted_inv d (e ∷ es) h = elim (Bool-cases (before e d)) [
    | inl b ↦
        (let h' : All P (e ∷ insert_sorted d es) = rw b at h in
          let (p, q) = All-insert_sorted_inv d es h'.1 in (p, (h'.0, q)))
    | inr b ↦ (let h' : All P (d ∷ e ∷ es) = rw b at h in (h'.0, h'.1))
  ]

  pub All-sort : (ds : List Delivery) → All P ds → All P (sort_deliveries ds)
  unfolding sort_deliveries
  All-sort [] h = tt
  All-sort (d ∷ ds) h = All-insert_sorted d (sort_deliveries ds) h.0 (All-sort ds h.1)

  pub All-sort_inv : (ds : List Delivery) → All P (sort_deliveries ds) → All P ds
  unfolding sort_deliveries
  All-sort_inv [] h = tt
  All-sort_inv (d ∷ ds) h =
      let (p, q) = All-insert_sorted_inv d (sort_deliveries ds) h in (p, All-sort_inv ds q)

insert_sorted-IsSorted :
    (d : Delivery) (ds : List Delivery) → IsSorted ds → IsSorted (insert_sorted d ds)
unfolding insert_sorted
insert_sorted-IsSorted d [] s = (tt, tt)
insert_sorted-IsSorted d (e ∷ es) s = elim (Bool-cases (before e d)) [
  | inl b ↦ rw b (
    All-insert_sorted (λ x. e.sequence ≤ x.sequence) d es (before-le e d b) s.0,
    insert_sorted-IsSorted d es s.1,
  )
  | inr b ↦ rw b (
    (
      not_before-le e d b,
      All-map (λ (x : Delivery) (p : e.sequence ≤ x.sequence). ground (arith, not_before-le e d b))
          es s.0,
    ),
    s,
  )
]

pub sort-IsSorted : (ds : List Delivery) → IsSorted (sort_deliveries ds)
unfolding sort_deliveries
sort-IsSorted [] = tt
sort-IsSorted (d ∷ ds) = insert_sorted-IsSorted d (sort_deliveries ds) (sort-IsSorted ds)

module _ (m : Memory) (shard now : ℕ) where
  -- Every candidate is collected.
  pub All-candidates :
      (P : Delivery → Type 0) (ds : Dict ℕ Delivery) (i : ℕ) (d : Delivery)
      → All P (candidates m shard now ds)
      → lookup i ds ≡ some d
      → is_candidate m shard now d ≡ true
      → P d
  unfolding candidates lookup
  All-candidates P [] i d h p c = absurd (cc)
  All-candidates P ((j, e) ∷ ds) i d h p c = elim (Bool-cases (is_candidate m shard now e)) [
    | inl y ↦
        (let h' : All P (e ∷ candidates m shard now ds) = rw y at h in
          elim (Bool-cases (j == i)) [
            | inl q ↦ (let same : some e ≡ some d = rw q at p in subst P (cc same) h'.0)
            | inr q ↦ All-candidates P ds i d h'.1 (rw q at p) c
          ])
    | inr n ↦
        (let h' : All P (candidates m shard now ds) = rw n at h in
          elim (Bool-cases (j == i)) [
            | inl q ↦ (let same : some e ≡ some d = rw q at p in absurd (cc (same, n, c)))
            | inr q ↦ All-candidates P ds i d h' (rw q at p) c
          ])
  ]
