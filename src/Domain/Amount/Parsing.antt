-- ===== src/Domain/Amount/Parsing.antt =====
-- How the parser of amounts reads digits, an optional sign before them, and a point between them.
use status_hub.Prelude.{
  and_false, ℕ, ◌+◌, ◌-◌, ◌≤◌, ◌<◌, ◌≡◌, refl, ap, ◌∙◌, Bool, true, false, ◌&&◌, [], ◌∷◌, ◌++◌,
  length, none, some, ltb, nat_eq, if◌then◌else◌, Bool-cases, inl, inr, arith, Text, ◌==◌, text_Eq,
  text_eq, in_range, ℤ, pos, length-append,
}
use status_hub.Domain.Amount.{
  is_digit, all_digits, digits_value, cut_point, take_sign, trim_left, trim_right, trim_space,
  is_space, scale_fraction, signed_amount, unsigned_decimal, decimal_to_minor, max_int64, negate,
  is_zero,
}

-- The characters of a rendered amount.
abbrev pub is_plain : ℕ → Bool
is_plain c = in_range 45 57 c

abbrev pub all_plain : Text → Bool
all_plain [] = true
all_plain (c ∷ s) = is_plain c && all_plain s

pub all_plain-append :
    (s t : Text) → all_plain s ≡ true → all_plain t ≡ true → all_plain (s ++ t) ≡ true
all_plain-append [] t p q = q
all_plain-append (c ∷ s) t p q = ground (arith, all_plain-append s t)

pub all_digits-plain : (s : Text) → all_digits s ≡ true → all_plain s ≡ true
unfolding all_digits is_digit
all_digits-plain [] h = refl
all_digits-plain (c ∷ s) h = ground (arith, all_digits-plain s)

plain-solid : (c : ℕ) → is_plain c ≡ true → is_space c ≡ false
unfolding is_space
plain-solid c h = ground arith

trim_left-plain : (s : Text) → all_plain s ≡ true → trim_left is_space s ≡ s
unfolding trim_left
trim_left-plain [] h = refl
trim_left-plain (c ∷ s) h = rw (plain-solid c (ground arith)) refl

trim_right-plain : (s : Text) → all_plain s ≡ true → trim_right is_space s ≡ s
unfolding trim_right
trim_right-plain [] h = refl
trim_right-plain (c ∷ s) h =
    rw (plain-solid c (ground arith)) (ap (λ t. c ∷ t) (trim_right-plain s (ground arith)))

pub trim_space-plain : (s : Text) → all_plain s ≡ true → trim_space s ≡ s
unfolding trim_space
trim_space-plain s h = ap (trim_right is_space) (trim_left-plain s h) ∙ trim_right-plain s h

digit-no_point : (c : ℕ) → is_digit c ≡ true → nat_eq c 46 ≡ false
unfolding is_digit
digit-no_point c h = ground arith

pub cut_point-found : (s t : Text) → all_digits s ≡ true → cut_point (s ++ (46 ∷ t)) ≡ (s, t, true)
unfolding cut_point all_digits
cut_point-found [] t h = refl
cut_point-found (c ∷ s) t h =
    rw (digit-no_point c (ground arith), cut_point-found s t (ground arith)) refl

pub cut_point-absent : (s : Text) → all_digits s ≡ true → cut_point s ≡ (s, [], false)
unfolding cut_point all_digits
cut_point-absent [] h = refl
cut_point-absent (c ∷ s) h =
    rw (digit-no_point c (ground arith), cut_point-absent s (ground arith)) refl

pub append-nil : (s : Text) → s ++ [] ≡ s
append-nil [] = refl
append-nil (c ∷ s) = ap (λ t. c ∷ t) (append-nil s)

-- The exact number of digits after the point is kept as it is.
pub scale_fraction-exact :
    (e : ℕ) (frac : Text) → length frac ≡ e → scale_fraction e frac ≡ some frac
unfolding scale_fraction
scale_fraction-exact e frac h =
    rw (exact (length frac) e h, spent (length frac) e h) (ap some (append-nil frac))
  where
    exact : (n e : ℕ) → n ≡ e → ltb e n ≡ false
    exact n e h = ground arith

    spent : (n e : ℕ) → n ≡ e → e - n ≡ 0
    spent n e h = omega arith

pub trim_left-value : (s : Text) → digits_value 0 (trim_left is_zero s) ≡ digits_value 0 s
unfolding trim_left digits_value
trim_left-value [] = refl
trim_left-value (c ∷ s) = elim (Bool-cases (is_zero c)) [
  | inl p ↦ rw p (trim_left-value s ∙ ap (λ d. digits_value d s) (worth_nothing c p))
  | inr p ↦ rw p refl
]
  where
    worth_nothing : (c : ℕ) → is_zero c ≡ true → 0 ≡ 0 + (c - 48)
    worth_nothing c p = ground arith

abbrev pub signed : Bool → ℕ → ℤ
signed neg n = if neg then negate n else pos n

pub signed-zero : (neg : Bool) → pos 0 ≡ signed neg 0
signed-zero true = refl
signed-zero false = refl

signed_amount-of :
    (neg : Bool) (t : Text) (n : ℕ)
    → digits_value 0 t ≡ n
    → n ≤ max_int64
    → (if t == []
        then some (pos 0)
        else (if ltb max_int64 (digits_value 0 t)
            then none
            else some (signed neg (digits_value 0 t))))
      ≡ some (signed neg n)
unfolding text_eq digits_value
signed_amount-of neg [] n v h = ap some (signed-zero neg ∙ ap (signed neg) v)
signed_amount-of neg (c ∷ t) n v h = rw (v, fits n h) refl
  where
    fits : (n : ℕ) → n ≤ max_int64 → ltb max_int64 n ≡ false
    fits n h = ground arith

pub signed_amount-digits :
    (neg : Bool) (s : Text) (n : ℕ)
    → digits_value 0 s ≡ n
    → n ≤ max_int64
    → signed_amount neg s ≡ some (signed neg n)
unfolding signed_amount
signed_amount-digits neg s n v h =
    signed_amount-of neg (trim_left is_zero s) n (trim_left-value s ∙ v) h

-- A point among digits, as many of them after it as the currency has.
pub unsigned_decimal-point :
    (neg : Bool) (e n : ℕ) (s f : Text)
    → all_digits s ≡ true
    → all_digits f ≡ true
    → length f ≡ e
    → digits_value 0 (s ++ f) ≡ n
    → n ≤ max_int64
    → unsigned_decimal neg (s ++ (46 ∷ f)) e ≡ some (signed neg n)
unfolding unsigned_decimal
unsigned_decimal-point neg e n s f ds df l v h =
    rw
      (
        cut_point-found s f ds,
        ds,
        df,
        scale_fraction-exact e f l,
        and_false (text_eq s []),
        ap (λ r. r.0) (cut_point-found s f ds),
      )
      (signed_amount-digits neg (s ++ f) n v h)

pub not_empty : (s : Text) → 0 < length s → text_eq s [] ≡ false
unfolding text_eq
not_empty [] h = elim h [ ]
not_empty (c ∷ s) h = refl

-- Digits alone, for a currency with no minor unit.
pub unsigned_decimal-whole :
    (neg : Bool) (n : ℕ) (s : Text)
    → all_digits s ≡ true
    → 0 < length s
    → digits_value 0 s ≡ n
    → n ≤ max_int64
    → unsigned_decimal neg s 0 ≡ some (signed neg n)
unfolding unsigned_decimal all_digits
unsigned_decimal-whole neg n s ds ne v h =
    rw
      (
        cut_point-absent s ds,
        ds,
        not_empty s ne,
        scale_fraction-exact 0 [] refl,
        ap (λ r. r.0) (cut_point-absent s ds),
      )
      (signed_amount-digits neg (s ++ []) n (ap (digits_value 0) (append-nil s) ∙ v) h)

-- A digit is no sign.
take_sign-digit :
    (s t : Text) → all_digits s ≡ true → 0 < length s → take_sign (s ++ t) ≡ (false, s ++ t)
unfolding take_sign all_digits is_digit
take_sign-digit [] t d h = elim h [ ]
take_sign-digit (c ∷ s) t d h = ground arith

-- Reading goes on to the digits where nothing is to be trimmed.
pub decimal_to_minor-positive :
    (s t : Text) (e : ℕ)
    → all_digits s ≡ true
    → 0 < length s
    → all_plain t ≡ true
    → decimal_to_minor (s ++ t) e ≡ unsigned_decimal false (s ++ t) e
unfolding decimal_to_minor
decimal_to_minor-positive s t e d h p =
    rw
      (
        trim_space-plain (s ++ t) (all_plain-append s t (all_digits-plain s d) p),
        not_empty (s ++ t) (omega (arith, length-append s t)),
        take_sign-digit s t d h,
      )
      refl

pub decimal_to_minor-negative :
    (s : Text) (e : ℕ)
    → all_plain s ≡ true
    → decimal_to_minor (45 ∷ s) e ≡ unsigned_decimal true s e
unfolding decimal_to_minor
decimal_to_minor-negative s e p =
    rw (trim_space-plain (45 ∷ s) p) (unfold take_sign text_eq in refl)
