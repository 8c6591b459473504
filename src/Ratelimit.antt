-- ===== src/Ratelimit.antt =====
-- internal/ratelimit/ratelimit.go: the semaphore that bounds work in flight. Its channel is the
-- number of slots that are held; a method is one step, as an operation on a channel is. The token
-- buckets of the file, which count in float64, are not modelled.
use status_hub.Prelude.{
  ℕ, ◌+◌, ◌-◌, ◌≤◌, ◌≡◌, refl, Bool, true, false, ◌∷◌, [], List, if◌then◌else◌, Bool-cases, inl,
  inr, arith, Text, ltb, ℤ, positive_or,
}

pub record Bounded : Type 0 where
  pub name : Text
  pub capacity : ℕ
  pub in_use : ℕ

unfoldable pub new_bounded : Text → ℤ → Bounded
new_bounded name size = record { name = name; capacity = positive_or size 1; in_use = 0 }

unfoldable pub try_acquire : Bounded → Bounded × Bool
try_acquire b =
    if ltb b.in_use b.capacity then (record b { in_use = b.in_use + 1 }, true) else (b, false)

unfoldable pub release : Bounded → Bounded
release b = record b { in_use = b.in_use - 1 }

pub data Call : Type 0 where
  acquire_call : Call
  release_call : Call

abbrev pub granted_by : Bool → ℕ
granted_by true = 1
granted_by false = 0

-- The semaphore after the calls, and how many of them were granted a slot.
unfoldable pub run : List Call → Bounded → Bounded × ℕ
run [] b = (b, 0)
run (acquire_call ∷ calls) b =
    let (next, ok) = try_acquire b in
    let (last, granted) = run calls next in (last, granted + granted_by ok)
run (release_call ∷ calls) b = run calls (release b)

abbrev pub releases : List Call → ℕ
releases [] = 0
releases (acquire_call ∷ calls) = releases calls
releases (release_call ∷ calls) = releases calls + 1

-- What the calls leave held is within the capacity, and is what was granted and not given back.
unfoldable pub IsAccounted : ℕ → ℕ → ℕ → Bounded × ℕ → Type 0
IsAccounted capacity in_use returned (b, granted) =
    (b.capacity ≡ capacity) × (b.in_use ≤ capacity) × (in_use + granted ≤ returned + b.in_use)

run-IsAccounted :
    (calls : List Call) (b : Bounded)
    → b.in_use ≤ b.capacity
    → IsAccounted b.capacity b.in_use (releases calls) (run calls b)
unfolding run try_acquire release IsAccounted
run-IsAccounted [] b h = (refl, h, omega arith)
run-IsAccounted (acquire_call ∷ calls) b h = elim (Bool-cases (ltb b.in_use b.capacity)) [
  | inl p ↦
      (let ih = run-IsAccounted calls (record b { in_use = b.in_use + 1 }) (ground arith) in
        rw p (ih.0, ih.1, omega (arith, ih.2)))
  | inr p ↦ (let ih = run-IsAccounted calls b h in rw p (ih.0, ih.1, omega (arith, ih.2)))
]
run-IsAccounted (release_call ∷ calls) b h =
    let ih = run-IsAccounted calls (release b) (omega (arith, h)) in
    (ih.0, ih.1, omega (arith, ih.2))

-- Whatever the calls are, a semaphore has never more slots held than its size, or than 1 where the
-- size is not positive, and has granted at most that many more slots than it was given back.
pub run-new_bounded-IsAccounted :
    (calls : List Call) (name : Text) (size : ℤ)
    → IsAccounted (positive_or size 1) 0 (releases calls) (run calls (new_bounded name size))
unfolding new_bounded
run-new_bounded-IsAccounted calls name size =
    run-IsAccounted calls (record { name = name; capacity = positive_or size 1; in_use = 0 })
      (omega arith)
