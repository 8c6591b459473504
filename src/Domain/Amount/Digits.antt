-- ===== src/Domain/Amount/Digits.antt =====
-- Decimal digits: what they stand for, and how many there are.
use native.Mathlib.Nat.{zero-add, pow-succ'}
use native.Mathlib.Numerals.{add-one}
use status_hub.Prelude.{
  ℕ, zero, suc, ◌+◌, ◌-◌, ◌*◌, ◌/◌, ◌%◌, ◌^◌, ◌≤◌, ◌<◌, ◌≡◌, refl, sym, ap, ◌∙◌, true, [], ◌∷◌,
  ◌++◌, length, replicate, length-append, length-replicate, ltb, Bool-cases, inl, inr, arith, Text,
  digits, decimal,
}
use status_hub.Domain.Amount.{is_digit, all_digits, digits_value, padded}

pub digits_value-append :
    (acc : ℕ) (s t : Text) → digits_value acc (s ++ t) ≡ digits_value (digits_value acc s) t
unfolding digits_value
digits_value-append acc [] t = refl
digits_value-append acc (c ∷ s) t = digits_value-append (acc * 10 + (c - 48)) s t

pub all_digits-append :
    (s t : Text) → all_digits s ≡ true → all_digits t ≡ true → all_digits (s ++ t) ≡ true
unfolding all_digits
all_digits-append [] t p q = q
all_digits-append (c ∷ s) t p q = ground (arith, all_digits-append s t)

pub all_digits-digits : (fuel n : ℕ) → all_digits (digits fuel n) ≡ true
unfolding digits
all_digits-digits zero n = unfold all_digits in refl
all_digits-digits (suc fuel) n = elim (Bool-cases (ltb n 10)) [
  | inl p ↦ rw p (unfold all_digits is_digit in ground arith)
  | inr p ↦ rw p (
      all_digits-append (digits fuel (n / 10)) ((48 + n % 10) ∷ [])
        (all_digits-digits fuel (n / 10)) (unfold all_digits is_digit in ground arith))
]

ltb-below : (n : ℕ) → n < 10 ^ 1 → ltb n 10 ≡ true
ltb-below n b = ground arith

pub power_pos : (e : ℕ) → 0 < 10 ^ e
power_pos zero = omega arith
power_pos (suc e) = omega (arith, pow-succ' 10 e, power_pos e)

one_more_digit :
    (s : Text) (d : ℕ) → digits_value 0 (s ++ (48 + d) ∷ []) ≡ digits_value 0 s * 10 + d
one_more_digit s d = digits_value-append 0 s ((48 + d) ∷ []) ∙ (unfold digits_value in omega arith)

pub digits_value-digits : (fuel n : ℕ) → n < fuel → digits_value 0 (digits fuel n) ≡ n
unfolding digits
digits_value-digits zero n h = elim h [ ]
digits_value-digits (suc fuel) n h = elim (Bool-cases (ltb n 10)) [
  | inl p ↦ rw p (unfold digits_value in omega arith)
  | inr p ↦ rw p (
      omega (
        arith,
        one_more_digit (digits fuel (n / 10)) (n % 10),
        digits_value-digits fuel (n / 10) (ground arith),
      ))
]

tenth_lt : (n e : ℕ) → n < 10 ^ suc (suc e) → n / 10 < 10 ^ suc e
tenth_lt n e h = omega (arith, pow-succ' 10 (suc e))

longer : (s : Text) (d e : ℕ) → length s ≤ e → length (s ++ d ∷ []) ≤ suc e
longer s d e h = omega (arith, length-append s (d ∷ []))

pub length-digits : (fuel n e : ℕ) → n < fuel → n < 10 ^ suc e → length (digits fuel n) ≤ suc e
unfolding digits
length-digits zero n e h b = elim h [ ]
length-digits (suc fuel) n zero h b = rw (ltb-below n b) (omega arith)
length-digits (suc fuel) n (suc e) h b = elim (Bool-cases (ltb n 10)) [
  | inl p ↦ rw p (omega arith)
  | inr p ↦ rw p (
      longer (digits fuel (n / 10)) (48 + n % 10) (suc e)
        (length-digits fuel (n / 10) e (ground arith) (tenth_lt n e b)))
]

pub digits-ne_nil : (fuel n : ℕ) → 0 < length (digits (suc fuel) n)
unfolding digits
digits-ne_nil fuel n = elim (Bool-cases (ltb n 10)) [
  | inl p ↦ rw p (omega arith)
  | inr p ↦ rw p (omega (arith, length-append (digits fuel (n / 10)) ((48 + n % 10) ∷ [])))
]

pub all_digits-zeros : (k : ℕ) → all_digits (replicate k 48) ≡ true
unfolding all_digits is_digit
all_digits-zeros zero = refl
all_digits-zeros (suc k) = all_digits-zeros k

pub digits_value-zeros :
    (k : ℕ) (s : Text) → digits_value 0 (replicate k 48 ++ s) ≡ digits_value 0 s
unfolding digits_value
digits_value-zeros zero s = refl
digits_value-zeros (suc k) s = digits_value-zeros k s

shifted : (a d p v w : ℕ) → v ≡ d * p + w → (a * 10 + d) * p + w ≡ a * (10 * p) + v
shifted a d p v w e = omega (arith, e)

pub digits_value-shift :
    (acc : ℕ) (s : Text) → digits_value acc s ≡ acc * 10 ^ length s + digits_value 0 s
unfolding digits_value
digits_value-shift acc [] = omega arith
digits_value-shift acc (c ∷ s) =
    digits_value-shift (acc * 10 + (c - 48)) s
    ∙ (shifted acc (c - 48) (10 ^ length s) (digits_value (c - 48) s) (digits_value 0 s)
          (digits_value-shift (c - 48) s)
        ∙ ap (λ p. acc * p + digits_value (c - 48) s) (sym (pow-succ' 10 (length s)))
        ∙ ap (λ d. acc * 10 ^ suc (length s) + digits_value d s) (sym (zero-add (c - 48))))

-- Zeros before the digits `d` of `n` fill them up to `suc e`.
filled :
    (e n : ℕ) (d : Text)
    → length d ≤ suc e
    → all_digits d ≡ true
    → digits_value 0 d ≡ n
    → let s = replicate (suc e - length d) 48 ++ d in
      (length s ≡ suc e) × (all_digits s ≡ true) × (digits_value 0 s ≡ n)
filled e n d l a v = (
  omega (
    arith,
    l,
    length-append (replicate (suc e - length d) 48) d,
    length-replicate {A = ℕ} (suc e - length d) 48,
  ),
  all_digits-append (replicate (suc e - length d) 48) d (all_digits-zeros (suc e - length d)) a,
  digits_value-zeros (suc e - length d) d ∙ v,
)

-- What stands after the point: `suc e` digits that stand for `n`.
pub padded-Correct :
    (e n : ℕ)
    → n < 10 ^ suc e
    → (length (padded (suc e) n) ≡ suc e)
      × (all_digits (padded (suc e) n) ≡ true)
      × (digits_value 0 (padded (suc e) n) ≡ n)
unfolding padded decimal
padded-Correct e n h =
    filled e n (digits (n + 1) n) (length-digits (n + 1) n e (omega arith) h)
      (all_digits-digits (n + 1) n) (digits_value-digits (n + 1) n (omega arith))

pub decimal-Correct :
    (n : ℕ)
    → (0 < length (decimal n)) × (all_digits (decimal n) ≡ true) × (digits_value 0 (decimal n) ≡ n)
unfolding decimal
decimal-Correct n = (
  rw (add-one n) (digits-ne_nil n n),
  all_digits-digits (n + 1) n,
  digits_value-digits (n + 1) n (omega arith),
)
