-- ===== src/Domain/Amount/Exact.antt =====
-- Conversion to minor units neither rounds nor loses money.
use native.Mathlib.Nat.{pow-succ', zero-add}
use status_hub.Prelude.{
  and_false, ℕ, zero, suc, ◌+◌, ◌-◌, ◌*◌, ◌^◌, ◌≤◌, ◌≡◌, refl, sym, ap, ◌∙◌, Bool, true, false, [],
  ◌∷◌, ◌++◌, length, replicate, none, some, take, ltb, if◌then◌else◌, Bool-cases, Option-cases, inl,
  inr, arith, Text, ◌==◌, text_Eq, text_eq, ℤ, pos,
}
use status_hub.Domain.Amount.{
  is_zero, all_digits, digits_value, trim_left, trim_right, scale_fraction, signed_amount,
  unsigned_decimal, max_int64, major_to_minor, decimal_to_minor, trim_space, normalise_currency,
}
use status_hub.Domain.Amount.Digits.{digits_value-append}
use status_hub.Domain.Amount.Written.{
  Sign, is_minus, written, decimal_to_minor-written, decimal_places, minor_unit_exponent-places,
}
use status_hub.Domain.Amount.Parsing.{cut_point-found, signed, signed-zero, trim_left-value}

tenfold : (a p : ℕ) → (a * 10 + 0) * p ≡ a * (10 * p)
tenfold a p = omega arith

pow_tenfold : (a k : ℕ) → (a * 10 + 0) * 10 ^ k ≡ a * 10 ^ suc k
pow_tenfold a k = tenfold a (10 ^ k) ∙ ap (λ q. a * q) (sym (pow-succ' 10 k))

zeros_scale : (acc k : ℕ) → digits_value acc (replicate k 48) ≡ acc * 10 ^ k
unfolding digits_value
zeros_scale acc zero = omega arith
zeros_scale acc (suc k) = zeros_scale (acc * 10 + 0) k ∙ pow_tenfold acc k

length-empty : (s : Text) → text_eq s [] ≡ true → length s ≡ 0
unfolding text_eq
length-empty [] h = refl
length-empty (c ∷ s) h = ground arith

trim_right-tail :
    (c : ℕ) (f : Text) (e : ℕ)
    → length (trim_right is_zero (c ∷ f)) ≤ suc e
    → length (trim_right is_zero f) ≤ e
unfolding trim_right
trim_right-tail c f e h = ground (arith, length-empty (trim_right is_zero f))

trim_right-blank :
    (c : ℕ) (f : Text)
    → length (trim_right is_zero (c ∷ f)) ≤ 0
    → (c ≡ 48) × (length (trim_right is_zero f) ≤ 0)
unfolding trim_right
trim_right-blank c f h = ground (arith, length-empty (trim_right is_zero f))

-- Zeros at the end, and no other digit, are what is cut off.
cut_scale :
    (acc e k : ℕ) (f : Text)
    → length f ≡ k + e
    → length (trim_right is_zero f) ≤ e
    → digits_value acc f ≡ digits_value acc (take e f) * 10 ^ k
unfolding digits_value
cut_scale acc zero zero [] l h = omega arith
cut_scale acc zero (suc k) [] l h = absurd (omega (arith, l))
cut_scale acc (suc e) k [] l h = absurd (omega (arith, l))
cut_scale acc zero zero (c ∷ f) l h = absurd (omega (arith, l))
cut_scale acc zero (suc k) (c ∷ f) l h =
    let (z, t) = trim_right-blank c f h in
    ap (λ d. digits_value (acc * 10 + (d - 48)) f) z
    ∙ cut_scale (acc * 10 + 0) zero k f (omega (arith, l)) t
    ∙ pow_tenfold acc k
cut_scale acc (suc e) k (c ∷ f) l h =
    cut_scale (acc * 10 + (c - 48)) e k f (omega (arith, l)) (trim_right-tail c f e h)

pub length-longer : (e n : ℕ) → ltb e n ≡ true → n ≡ (n - e) + e
length-longer e n h = ground arith

length-shorter : (e n : ℕ) → ltb e n ≡ false → (e - n) + n ≡ e
length-shorter e n h = ground arith

kept_digits :
    (b : Bool) (f g : Text) → (if b then none else some f) ≡ some g → (b ≡ false) × (f ≡ g)
kept_digits b f g h = ground arith

some_path : {x y : ℤ} → some x ≡ some y → y ≡ x
some_path h = ground arith

signed_amount-yields :
    (neg : Bool) (t : Text) (n : ℕ) (x : ℤ)
    → digits_value 0 t ≡ n
    → (if t == []
        then some (pos 0)
        else (if ltb max_int64 (digits_value 0 t)
            then none
            else some (signed neg (digits_value 0 t))))
      ≡ some x
    → x ≡ signed neg n
unfolding text_eq digits_value
signed_amount-yields neg [] n x v h = some_path h ∙ signed-zero neg ∙ ap (signed neg) v
signed_amount-yields neg (c ∷ t) n x v h =
    given (ltb max_int64 (digits_value 0 (c ∷ t))) h ∙ ap (signed neg) v
  where
    given : (b : Bool) {y : ℤ} → (if b then none else some y) ≡ some x → x ≡ y
    given true h = ground arith
    given false h = some_path h

signed_amount-Inverse :
    (neg : Bool) (s : Text) (x : ℤ)
    → signed_amount neg s ≡ some x
    → x ≡ signed neg (digits_value 0 s)
unfolding signed_amount
signed_amount-Inverse neg s x h =
    signed_amount-yields neg (trim_left is_zero s) (digits_value 0 s) x (trim_left-value s) h

exchange : (v w p q r : ℕ) → v ≡ w * p → r ≡ p * q → w * r ≡ v * q
exchange v w p q r h k = rw (h, k) (omega arith)

lifted : (v p r q w : ℕ) → w ≡ v * p → q ≡ p * r → w * r ≡ v * q
lifted v p r q w h k = rw (h, k) (omega arith)

given_digits : (f g : Text) → some f ≡ some g → f ≡ g
given_digits f g h = ground arith

pub pow_add : (k e : ℕ) → 10 ^ (k + e) ≡ 10 ^ k * 10 ^ e
pow_add zero e = ap (λ n. 10 ^ n) (zero-add e) ∙ plain (10 ^ e)
  where
    plain : (p : ℕ) → p ≡ 1 * p
    plain p = omega arith
pow_add (suc k) e =
    ap (λ n. 10 ^ n) carried
    ∙ pow-succ' 10 (k + e)
    ∙ moved (10 ^ k) (10 ^ e) (10 ^ (k + e)) (pow_add k e)
    ∙ ap (λ p. p * 10 ^ e) (sym (pow-succ' 10 k))
  where
    carried : suc k + e ≡ suc (k + e)
    carried = omega arith

    moved : (p q r : ℕ) → r ≡ p * q → 10 * r ≡ 10 * p * q
    moved p q r h = rw h (omega arith)

pub scale_fraction-scale :
    (acc e : ℕ) (f g : Text)
    → scale_fraction e f ≡ some g
    → digits_value acc g * 10 ^ length f ≡ digits_value acc f * 10 ^ e
unfolding scale_fraction
scale_fraction-scale acc e f g h = elim (Bool-cases (ltb e (length f))) [
  | inl p ↦
      (let (b, t) = kept_digits (ltb e (length (trim_right is_zero f))) (take e f) g (rw p at h) in
        rw (← t) (
          exchange (digits_value acc f) (digits_value acc (take e f)) (10 ^ (length f - e)) (10 ^ e)
            (10 ^ length f)
            (cut_scale acc e (length f - e) f (length-longer e (length f) p) (ground (arith, b)))
            (ap (λ n. 10 ^ n) (length-longer e (length f) p) ∙ pow_add (length f - e) e)))
  | inr p ↦
      (let t = given_digits (f ++ replicate (e - length f) 48) g (rw p at h) in
        rw (← t) (
          lifted (digits_value acc f) (10 ^ (e - length f)) (10 ^ length f) (10 ^ e)
            (digits_value acc (f ++ replicate (e - length f) 48))
            (digits_value-append acc f (replicate (e - length f) 48)
              ∙ zeros_scale (digits_value acc f) (e - length f))
            (ap (λ n. 10 ^ n) (sym (length-shorter e (length f) p))
              ∙ pow_add (e - length f) (length f))))
]

-- `x` is `v` over 10 ^ `places`, in units of 10 ^ -`exp`.
unfoldable pub IsWorth : Bool → ℤ → ℕ → ℕ → ℕ → Type 0
IsWorth neg x v places exp = (n : ℕ) × (x ≡ signed neg n) × (n * 10 ^ places ≡ v * 10 ^ exp)

unsigned_decimal-Exact :
    (neg : Bool) (s f : Text) (e : ℕ) (x : ℤ)
    → all_digits s ≡ true
    → all_digits f ≡ true
    → unsigned_decimal neg (s ++ (46 ∷ f)) e ≡ some x
    → IsWorth neg x (digits_value 0 (s ++ f)) (length f) e
unfolding unsigned_decimal IsWorth
unsigned_decimal-Exact neg s f e x ds df h = elim (Option-cases (scale_fraction e f)) [
  | inl p ↦
      absurd (no_amount (rw (cut_point-found s f ds, ds, df, p, and_false (text_eq s [])) at h))
  | inr (g, p) ↦ (
    digits_value 0 (s ++ g),
    signed_amount-Inverse neg (s ++ g) x (
        rw
          (
            cut_point-found s f ds,
            ds,
            df,
            p,
            and_false (text_eq s []),
            ap (λ r. r.0) (cut_point-found s f ds),
          )
          at h),
    rw (digits_value-append 0 s g, digits_value-append 0 s f)
        (scale_fraction-scale (digits_value 0 s) e f g p),
  )
]
  where
    no_amount : {y : ℤ} → none ≡ some y → ⊥
    no_amount h = ground arith

-- A decimal that is accepted, with a point, digits before and after it or none, and with `-`, `+` or no
-- sign, all in white space or not, stands for that many minor units exactly: nothing is rounded,
-- whatever the number of its decimal places. A minor unit is a hundredth, but for the ten currencies
-- that the code knows to have none and the seven that it knows to have thousandths.
pub major_to_minor-IsWorth :
    (sign : Sign) (amount s f currency : Text) (x : ℤ)
    → trim_space amount ≡ written sign s f
    → all_digits s ≡ true
    → all_digits f ≡ true
    → major_to_minor amount currency ≡ some x
    → IsWorth
        (is_minus sign)
        x
        (digits_value 0 (s ++ f))
        (length f)
        (decimal_places (normalise_currency currency))
unfolding major_to_minor
major_to_minor-IsWorth sign amount s f currency x t ds df h =
    unsigned_decimal-Exact (is_minus sign) s f (decimal_places (normalise_currency currency)) x ds
      df
      (sym (
          ap (decimal_to_minor amount) (minor_unit_exponent-places currency)
          ∙ decimal_to_minor-written sign amount s f (decimal_places (normalise_currency currency))
              t ds)
        ∙ h)
