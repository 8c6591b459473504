-- ===== src/Prelude/Maps.antt =====
-- Go's maps, as association lists in the order of insertion. The program sorts what it collects
-- from a map wherever the order shows, so no order of iteration is relied on.
use mathlib.Core.Path.{◌≡◌, refl}
use mathlib.Core.Option.{Option, none, some}
use mathlib.Core.List.{List, [], ◌∷◌}
use native.Mathlib.Omega.{arith}
use status_hub.Prelude.Tests.{HasEq, ◌==◌, if◌then◌else◌}

abbrev pub Dict {ℓ κ} : Type ℓ → Type κ → Type (ℓ ⊔ κ)
Dict K V = List (K × V)

module _ {ℓ κ} {K : Type ℓ} {V : Type κ} ⦃eq : HasEq K⦄ where
  unfoldable pub lookup : K → Dict K V → Option V
  lookup key [] = none
  lookup key ((k, value) ∷ m) = if k == key then some value else lookup key m

  unfoldable pub insert : K → V → Dict K V → Dict K V
  insert key new [] = (key, new) ∷ []
  insert key new ((k, value) ∷ m) =
      let others = insert key new m in if k == key then (key, new) ∷ m else (k, value) ∷ others

  unfoldable pub delete : K → Dict K V → Dict K V
  delete key [] = []
  delete key ((k, value) ∷ m) =
      let others = delete key m in if k == key then others else (k, value) ∷ others

  pub lookup-insert :
      (key j : K) (new : V) (m : Dict K V)
      → lookup j (insert key new m) ≡ (if key == j then some new else lookup j m)
  unfolding lookup insert
  lookup-insert key j new [] = refl
  lookup-insert key j new ((k, value) ∷ m) =
      ground
        (arith, lookup-insert key j new m, eq.same_iff k j, eq.same_iff k key, eq.same_iff key j)

  pub lookup-delete :
      (key j : K) (m : Dict K V) → lookup j (delete key m) ≡ (if key == j then none else lookup j m)
  unfolding lookup delete
  lookup-delete key j [] = ground arith
  lookup-delete key j ((k, value) ∷ m) =
      ground (arith, lookup-delete key j m, eq.same_iff k j, eq.same_iff k key, eq.same_iff key j)

  pub lookup-insert_self :
      (key : K) (new : V) (m : Dict K V) → lookup key (insert key new m) ≡ some new
  lookup-insert_self key new m =
      rw (lookup-insert key key new m) (rw ((eq.same_iff key key).1 refl))

  pub lookup-delete_self : (key : K) (m : Dict K V) → lookup key (delete key m) ≡ none
  lookup-delete_self key m = rw (lookup-delete key key m) (rw ((eq.same_iff key key).1 refl))

-- The values that a `range` over the map meets.
abbrev pub values {ℓ κ} : {K : Type ℓ} {V : Type κ} → Dict K V → List V
values [] = []
values ((_, v) ∷ m) = v ∷ values m
