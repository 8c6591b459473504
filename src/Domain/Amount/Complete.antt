-- ===== src/Domain/Amount/Complete.antt =====
-- Every decimal that is a whole number of minor units is accepted.
use native.Mathlib.Nat.{
  pow-succ', mul-div_cancel, mul-add-mod_self_right, mod-eq_of_lt, zero-mod, add-zero,
  mul-le-mul_right,
}
use status_hub.Prelude.{
  and_false, ℕ, zero, suc, ◌+◌, ◌-◌, ◌*◌, ◌/◌, ◌%◌, ◌^◌, ◌≤◌, ◌<◌, ◌≡◌, refl, sym, ap, ◌∙◌, Bool,
  true, false, [], ◌∷◌, ◌++◌, length, replicate, some, take, ltb, Bool-cases, inl, inr, arith, Text,
  text_Eq, text_eq,
}
use status_hub.Domain.Amount.{
  is_digit, is_zero, all_digits, digits_value, trim_right, scale_fraction, unsigned_decimal,
  max_int64, major_to_minor, decimal_to_minor, trim_space, normalise_currency,
}
use status_hub.Domain.Amount.Digits.{digits_value-append, digits_value-shift, power_pos}
use status_hub.Domain.Amount.Written.{
  Sign, is_minus, written, decimal_to_minor-written, decimal_places, minor_unit_exponent-places,
}
use status_hub.Domain.Amount.Parsing.{cut_point-found, signed, signed_amount-digits}
use status_hub.Domain.Amount.Exact.{pow_add, length-longer, scale_fraction-scale}

cancel : (a b p : ℕ) → 0 < p → a * p ≡ b * p → a ≡ b
cancel a b p h e = sym (mul-div_cancel a h) ∙ ap (λ m. m / p) e ∙ mul-div_cancel b h

value_lt : (f : Text) → all_digits f ≡ true → digits_value 0 f < 10 ^ length f
unfolding all_digits is_digit digits_value
value_lt [] h = omega arith
value_lt (c ∷ f) h =
    below (c - 48) (10 ^ length f) (digits_value 0 f) (10 ^ suc (length f))
      (digits_value (0 + (c - 48)) f) (ground arith) (value_lt f (ground arith))
      (pow-succ' 10 (length f)) (digits_value-shift (0 + (c - 48)) f)
  where
    below : (d p v q w : ℕ) → d ≤ 9 → v < p → q ≡ 10 * p → w ≡ (0 + d) * p + v → w < q
    below d p v q w h k e l = rw (e, l) (grind (arith, mul-le-mul_right))

empty-length : (s : Text) → length s ≤ 0 → text_eq s [] ≡ true
unfolding text_eq
empty-length [] h = refl
empty-length (c ∷ s) h = absurd (omega (arith, h))

trim_right-cons :
    (c : ℕ) (f : Text) (e : ℕ)
    → length (trim_right is_zero f) ≤ e
    → length (trim_right is_zero (c ∷ f)) ≤ suc e
unfolding trim_right
trim_right-cons c f e h = ground arith

value_zero :
    (f : Text) → all_digits f ≡ true → digits_value 0 f ≡ 0 → length (trim_right is_zero f) ≤ 0
unfolding all_digits is_digit digits_value trim_right
value_zero [] h v = omega arith
value_zero (c ∷ f) h v =
    let (z, t) =
      parts (c - 48) (10 ^ length f) (digits_value 0 f) (power_pos (length f))
        (sym (digits_value-shift (0 + (c - 48)) f) ∙ v) in
    ground (arith, z, value_zero f (ground arith) t, empty-length (trim_right is_zero f))
  where
    parts : (d p v : ℕ) → 0 < p → (0 + d) * p + v ≡ 0 → (d ≡ 0) × (v ≡ 0)
    parts d p v h e = grind arith

remainder : (a m p v : ℕ) → v < p → a * p + v ≡ m * p → v ≡ 0
remainder a m p v h e =
    sym (mod-eq_of_lt h)
    ∙ sym (mul-add-mod_self_right a p v)
    ∙ ap (λ n. n % p) (e ∙ sym (add-zero (m * p)))
    ∙ mul-add-mod_self_right m p 0
    ∙ zero-mod p

-- What a whole number of units has after its first `e` digits is zeros.
cut_complete :
    (acc e k m : ℕ) (f : Text)
    → all_digits f ≡ true
    → length f ≡ k + e
    → digits_value acc f ≡ m * 10 ^ k
    → length (trim_right is_zero f) ≤ e
unfolding all_digits digits_value
cut_complete acc zero k m f d l h = value_zero f d (
    remainder acc m (10 ^ length f) (digits_value 0 f) (value_lt f d)
      (sym (digits_value-shift acc f) ∙ h ∙ ap (λ n. m * 10 ^ n) (omega (arith, l))))
cut_complete acc (suc e) k m [] d l h = absurd (omega (arith, l))
cut_complete acc (suc e) k m (c ∷ f) d l h =
    trim_right-cons c f e
      (cut_complete (acc * 10 + (c - 48)) e k m f (ground arith) (omega (arith, l)) h)

scale_fraction-Total :
    (acc e n : ℕ) (f : Text)
    → all_digits f ≡ true
    → n * 10 ^ length f ≡ digits_value acc f * 10 ^ e
    → (g : Text) × (scale_fraction e f ≡ some g)
unfolding scale_fraction
scale_fraction-Total acc e n f d h = elim (Bool-cases (ltb e (length f))) [
  | inr p ↦ rw p (f ++ replicate (e - length f) 48, refl)
  | inl p ↦
      (let whole = cancel (digits_value acc f) (n * 10 ^ (length f - e)) (10 ^ e) (power_pos e) (
          spread (10 ^ length f) (10 ^ (length f - e)) (10 ^ e) (digits_value acc f)
            (ap (λ m. 10 ^ m) (length-longer e (length f) p) ∙ pow_add (length f - e) e) h) in
        rw
          (
            p,
            in_time (cut_complete acc e (length f - e) n f d (length-longer e (length f) p) whole),
          )
          (take e f, refl))
]
  where
    spread : (r p q v : ℕ) → r ≡ p * q → n * r ≡ v * q → v * q ≡ n * p * q
    spread r p q v k h = sym h ∙ rw k (omega arith)

    in_time : {m : ℕ} → m ≤ e → ltb e m ≡ false
    in_time h = ground arith

unsigned_decimal-Total :
    (neg : Bool) (s f : Text) (e n : ℕ)
    → all_digits s ≡ true
    → all_digits f ≡ true
    → n ≤ max_int64
    → n * 10 ^ length f ≡ digits_value 0 (s ++ f) * 10 ^ e
    → unsigned_decimal neg (s ++ (46 ∷ f)) e ≡ some (signed neg n)
unfolding unsigned_decimal
unsigned_decimal-Total neg s f e n ds df b h =
    rw
      (
        cut_point-found s f ds,
        ds,
        df,
        g.1,
        and_false (text_eq s []),
        ap (λ r. r.0) (cut_point-found s f ds),
      )
      (signed_amount-digits neg (s ++ g.0) n
        (cancel (digits_value 0 (s ++ g.0)) n (10 ^ length f) (power_pos (length f)) (
          ap (λ v. v * 10 ^ length f) (digits_value-append 0 s g.0)
          ∙ scale_fraction-scale (digits_value 0 s) e f g.0 g.1
          ∙ sym there))
        b)
  where
    there : n * 10 ^ length f ≡ digits_value (digits_value 0 s) f * 10 ^ e
    there = h ∙ ap (λ v. v * 10 ^ e) (digits_value-append 0 s f)

    g : (g : Text) × (scale_fraction e f ≡ some g)
    g = scale_fraction-Total (digits_value 0 s) e n f df there

-- The converse of `major_to_minor-IsWorth`: a decimal with a point, digits before and after it or none,
-- and with `-`, `+` or no sign, all in white space or not, that is a whole number `n` of minor units up
-- to 2^63 - 1 is converted to it.
pub major_to_minor_complete :
    (sign : Sign) (amount s f currency : Text) (n : ℕ)
    → trim_space amount ≡ written sign s f
    → all_digits s ≡ true
    → all_digits f ≡ true
    → n ≤ max_int64
    → n * 10 ^ length f
      ≡ digits_value 0 (s ++ f) * 10 ^ decimal_places (normalise_currency currency)
    → major_to_minor amount currency ≡ some (signed (is_minus sign) n)
unfolding major_to_minor
major_to_minor_complete sign amount s f currency n t ds df b h =
    ap (decimal_to_minor amount) (minor_unit_exponent-places currency)
    ∙ decimal_to_minor-written sign amount s f (decimal_places (normalise_currency currency)) t ds
    ∙ unsigned_decimal-Total (is_minus sign) s f (decimal_places (normalise_currency currency)) n ds
        df b h
