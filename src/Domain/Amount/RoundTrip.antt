-- ===== src/Domain/Amount/RoundTrip.antt =====
-- An amount that is rendered for display is read back as it was.
use native.Mathlib.Nat.{mod-lt, div-add-mod'}
use native.Mathlib.Numerals.{add-one}
use status_hub.Prelude.{
  ℕ, zero, suc, ◌+◌, ◌*◌, ◌/◌, ◌%◌, ◌^◌, ◌≤◌, ◌<◌, ◌≡◌, refl, sym, ap, ◌∙◌, Bool, true, false, [],
  ◌∷◌, ◌++◌, length, some, nat_eq, arith, Text, text_Eq, ℤ, pos, negsuc, decimal,
}
use status_hub.Domain.Amount.{
  digits_value, unsigned_decimal, decimal_to_minor, max_int64, negate, padded, show_major,
  minor_unit_exponent, major_to_minor, minor_to_major,
}
use status_hub.Domain.Amount.Digits.{
  power_pos, padded-Correct, decimal-Correct, digits_value-append, digits_value-shift,
}
use status_hub.Domain.Amount.Parsing.{
  all_plain, all_plain-append, all_digits-plain, unsigned_decimal-point, unsigned_decimal-whole,
  signed, append-nil, decimal_to_minor-positive, decimal_to_minor-negative,
}

joined :
    (n e : ℕ) (s f : Text)
    → length f ≡ e
    → digits_value 0 s ≡ n / 10 ^ e
    → digits_value 0 f ≡ n % 10 ^ e
    → digits_value 0 (s ++ f) ≡ n
joined n e s f l v w =
    digits_value-append 0 s f
    ∙ digits_value-shift (digits_value 0 s) f
    ∙ placed (digits_value 0 s) (length f) (digits_value 0 f) l v w
  where
    placed : (a k b : ℕ) → k ≡ e → a ≡ n / 10 ^ e → b ≡ n % 10 ^ e → a * 10 ^ k + b ≡ n
    placed a k b l v w = rw (l, v, w) (div-add-mod' n (10 ^ e))

unsigned_decimal-show_major :
    (neg : Bool) (e n : ℕ)
    → n ≤ max_int64
    → unsigned_decimal neg (show_major (suc e) n) (suc e) ≡ some (signed neg n)
unfolding show_major
unsigned_decimal-show_major neg e n h =
    let whole = decimal-Correct (n / 10 ^ suc e) in
    let frac = padded-Correct e (n % 10 ^ suc e) (mod-lt n (power_pos (suc e))) in
    unsigned_decimal-point neg (suc e) n (decimal (n / 10 ^ suc e))
      (padded (suc e) (n % 10 ^ suc e)) whole.1 frac.1 frac.0
      (joined n (suc e) (decimal (n / 10 ^ suc e)) (padded (suc e) (n % 10 ^ suc e)) frac.0 whole.2
        frac.2)
      h

decimal_to_minor-show_major :
    (e n : ℕ) → n ≤ max_int64 → decimal_to_minor (show_major (suc e) n) (suc e) ≡ some (pos n)
unfolding show_major
decimal_to_minor-show_major e n h =
    let whole = decimal-Correct (n / 10 ^ suc e) in
    let frac = padded-Correct e (n % 10 ^ suc e) (mod-lt n (power_pos (suc e))) in
    decimal_to_minor-positive (decimal (n / 10 ^ suc e)) (46 ∷ padded (suc e) (n % 10 ^ suc e))
      (suc e) whole.1 whole.0 (all_digits-plain (padded (suc e) (n % 10 ^ suc e)) frac.1)
    ∙ unsigned_decimal-show_major false e n h

all_plain-show_major : (e n : ℕ) → all_plain (show_major (suc e) n) ≡ true
unfolding show_major
all_plain-show_major e n =
    let whole = decimal-Correct (n / 10 ^ suc e) in
    let frac = padded-Correct e (n % 10 ^ suc e) (mod-lt n (power_pos (suc e))) in
    all_plain-append (decimal (n / 10 ^ suc e)) (46 ∷ padded (suc e) (n % 10 ^ suc e))
      (all_digits-plain (decimal (n / 10 ^ suc e)) whole.1)
      (all_digits-plain (padded (suc e) (n % 10 ^ suc e)) frac.1)

decimal_to_minor-decimal : (n : ℕ) → n ≤ max_int64 → decimal_to_minor (decimal n) 0 ≡ some (pos n)
decimal_to_minor-decimal n h =
    let d = decimal-Correct n in
    ap (λ t. decimal_to_minor t 0) (sym (append-nil (decimal n)))
    ∙ decimal_to_minor-positive (decimal n) [] 0 d.1 d.0 refl
    ∙ ap (λ t. unsigned_decimal false t 0) (append-nil (decimal n))
    ∙ unsigned_decimal-whole false n (decimal n) d.1 d.0 d.2 h

negate-add_one : (n : ℕ) → some (negate (n + 1)) ≡ some (negsuc n)
negate-add_one n = rw (add-one n) refl

-- The amounts that the code renders without an overflow: all of int64 but its least value.
unfoldable pub IsNegatable : ℤ → Type 0
IsNegatable (pos n) = n ≤ max_int64
IsNegatable (negsuc n) = n < max_int64

has_places : (e : ℕ) → nat_eq (suc e) 0 ≡ false
has_places e = ground arith

not_least : (n : ℕ) → n < max_int64 → nat_eq n max_int64 ≡ false
not_least n h = ground arith

rendered :
    (x : ℤ) (currency : Text) (e : ℕ)
    → (minor_unit_exponent currency).0 ≡ e
    → IsNegatable x
    → decimal_to_minor (minor_to_major x currency) e ≡ some x
unfolding minor_to_major IsNegatable
rendered (pos n) currency zero p h = rw p (decimal_to_minor-decimal n h)
rendered (pos n) currency (suc e) p h = rw (p, has_places e) (decimal_to_minor-show_major e n h)
rendered (negsuc n) currency zero p h =
    let d = decimal-Correct (n + 1) in
    rw p (
      decimal_to_minor-negative (decimal (n + 1)) 0 (all_digits-plain (decimal (n + 1)) d.1)
      ∙ unsigned_decimal-whole true (n + 1) (decimal (n + 1)) d.1 d.0 d.2 (omega (arith, h))
      ∙ negate-add_one n)
rendered (negsuc n) currency (suc e) p h =
    rw (p, has_places e, not_least n h)
      (decimal_to_minor-negative (show_major (suc e) (n + 1)) (suc e)
          (all_plain-show_major e (n + 1))
        ∙ unsigned_decimal-show_major true e (n + 1) (omega (arith, h))
        ∙ negate-add_one n)

-- What MinorToMajor renders, MajorToMinor reads back as the same number of minor units, for every
-- currency code, known or not, and every amount of an int64 but -2^63.
pub major_to_minor-minor_to_major :
    (x : ℤ) (currency : Text)
    → IsNegatable x
    → major_to_minor (minor_to_major x currency) currency ≡ some x
unfolding major_to_minor
major_to_minor-minor_to_major x currency h =
    rendered x currency (minor_unit_exponent currency).0 refl h
