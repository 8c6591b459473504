-- ===== src/Redact/CheckDigit.antt =====
-- The check digit finds each digit that is wrong.
use status_hub.Prelude.{
  ◌≢◌, Bool-cases, inl, inr, ℕ, ◌+◌, ◌%◌, ◌<◌, ◌≡◌, refl, sym, ap, Bool, true, false, not, ◌++◌,
  ◌∷◌, [], Text, arith, nat_eq,
}
use status_hub.Redact.{is_digit, digit_sum, luhn_loop, luhn}

-- Another digit changes the sum by what it adds, and nothing else.
luhn_loop-change :
    (a b : Text) (c d : ℕ)
    → ((luhn_loop (a ++ c ∷ b)).1 ≡ (luhn_loop (a ++ d ∷ b)).1)
      × ((luhn_loop (a ++ c ∷ b)).0 + digit_sum (luhn_loop b).1 d
          ≡ (luhn_loop (a ++ d ∷ b)).0 + digit_sum (luhn_loop b).1 c)
unfolding luhn_loop
luhn_loop-change [] b c d =
    (refl, exchanged (luhn_loop b).0 (digit_sum (luhn_loop b).1 c) (digit_sum (luhn_loop b).1 d))
  where
    exchanged : (s m n : ℕ) → s + m + n ≡ s + n + m
    exchanged s m n = omega arith
luhn_loop-change (x ∷ a) b c d =
    let (e, h) = luhn_loop-change a b c d in
    (
      ap not e,
      added _ _ _ _ (digit_sum (luhn_loop (a ++ c ∷ b)).1 x)
          (digit_sum (luhn_loop (a ++ d ∷ b)).1 x) (ap (λ t. digit_sum t x) e) h,
    )
  where
    added : (s t m n u v : ℕ) → u ≡ v → s + m ≡ t + n → s + u + m ≡ t + v + n
    added s t m n u v e h = omega (arith, e, h)

digit_sum-lt : (alt : Bool) (c : ℕ) → is_digit c ≡ true → digit_sum alt c < 10
digit_sum-lt true c h = ground arith
digit_sum-lt false c h = ground arith

digit_sum_injective :
    (alt : Bool) (c d : ℕ)
    → is_digit c ≡ true
    → is_digit d ≡ true
    → digit_sum alt c ≡ digit_sum alt d
    → c ≡ d
digit_sum_injective true c d h k e = ground arith
digit_sum_injective false c d h k e = ground arith

same_remainder :
    (s t m n : ℕ)
    → m < 10
    → n < 10
    → nat_eq (s % 10) 0 ≡ true
    → nat_eq (t % 10) 0 ≡ true
    → s + m ≡ t + n
    → m ≡ n
same_remainder s t m n a b h k e = ground arith

same_digit :
    (a b : Text) (c d : ℕ)
    → is_digit c ≡ true
    → is_digit d ≡ true
    → luhn (a ++ c ∷ b) ≡ true
    → luhn (a ++ d ∷ b) ≡ true
    → c ≡ d
unfolding luhn
same_digit a b c d h k p q =
    let alt = (luhn_loop b).1 in
    sym (
      digit_sum_injective alt d c k h (
        same_remainder (luhn_loop (a ++ c ∷ b)).0 (luhn_loop (a ++ d ∷ b)).0 (digit_sum alt d)
          (digit_sum alt c) (digit_sum-lt alt d k) (digit_sum-lt alt c h) p q
          (luhn_loop-change a b c d).1))

-- The check fails for a number that passes it once one of its digits, wherever it stands, is
-- replaced by another digit.
pub luhn_one_digit :
    (a b : Text) (c d : ℕ)
    → is_digit c ≡ true
    → is_digit d ≡ true
    → c ≢ d
    → luhn (a ++ c ∷ b) ≡ true
    → luhn (a ++ d ∷ b) ≡ false
luhn_one_digit a b c d h k differ p = elim (Bool-cases (luhn (a ++ d ∷ b))) [
  | inl q ↦ absurd (differ (same_digit a b c d h k p q))
  | inr q ↦ q
]
