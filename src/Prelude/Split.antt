-- ===== src/Prelude/Split.antt =====
-- strings.Split and strings.Cut at a separator of one byte, and package encoding/hex.
use Prim.Native.Nat.{ℕ, ◌+◌, ◌-◌, ◌*◌, ◌/◌, ◌%◌, ◌<◌}
use mathlib.Core.Path.{◌≡◌, refl, ap}
use mathlib.Core.Bool.{Bool, true, false, ◌&&◌, not}
use mathlib.Core.Option.{Option, none, some}
use mathlib.Core.List.{List, [], ◌∷◌, ◌++◌}
use native.Mathlib.Omega.{arith}
use status_hub.Prelude.Tests.{nat_eq, ltb, if◌then◌else◌}
use status_hub.Prelude.Lists.{All}
use status_hub.Prelude.Bytes.{Text, in_range}

abbrev add_to_first : ℕ → List Text → List Text
add_to_first c [] = (c ∷ []) ∷ []
add_to_first c (s ∷ parts) = (c ∷ s) ∷ parts

unfoldable pub split_on : ℕ → Text → List Text
split_on sep [] = [] ∷ []
split_on sep (c ∷ s) =
    let parts = split_on sep s in if nat_eq c sep then [] ∷ parts else add_to_first c parts

-- Before and after the first separator, and whether there is one.
unfoldable pub cut_at : ℕ → Text → Text × Text × Bool
cut_at sep [] = ([], [], false)
cut_at sep (c ∷ s) =
    let (before, after, found) = cut_at sep s in
    if nat_eq c sep then ([], s, true) else (c ∷ before, after, found)

abbrev pub every : (ℕ → Bool) → Text → Bool
every p [] = true
every p (c ∷ s) = p c && every p s

pub every-append :
    (p : ℕ → Bool) (s t : Text) → every p s ≡ true → every p t ≡ true → every p (s ++ t) ≡ true
every-append p [] t h k = k
every-append p (c ∷ s) t h k = ground (arith, every-append p s t)

pub every-weaken :
    (p q : ℕ → Bool) (f : (c : ℕ) → p c ≡ true → q c ≡ true) (s : Text)
    → every p s ≡ true
    → every q s ≡ true
every-weaken p q f [] h = refl
every-weaken p q f (c ∷ s) h = ground (arith, every-weaken p q f s, f c)

-- A text without the separator.
abbrev pub lacks : ℕ → Text → Bool
lacks sep = every (λ c. not (nat_eq c sep))

pub split_on-append :
    (sep : ℕ) (s t : Text) → lacks sep s ≡ true → split_on sep (s ++ (sep ∷ t)) ≡ s ∷ split_on sep t
unfolding split_on
split_on-append sep [] t h = rw (same) refl
  where
    same : nat_eq sep sep ≡ true
    same = ground arith
split_on-append sep (c ∷ s) t h = rw (other, split_on-append sep s t (ground arith)) refl
  where
    other : nat_eq c sep ≡ false
    other = ground arith

pub split_on-lacks : (sep : ℕ) (s : Text) → lacks sep s ≡ true → split_on sep s ≡ s ∷ []
unfolding split_on
split_on-lacks sep [] h = refl
split_on-lacks sep (c ∷ s) h = rw (other, split_on-lacks sep s (ground arith)) refl
  where
    other : nat_eq c sep ≡ false
    other = ground arith

pub cut_at-append :
    (sep : ℕ) (s t : Text) → lacks sep s ≡ true → cut_at sep (s ++ (sep ∷ t)) ≡ (s, t, true)
unfolding cut_at
cut_at-append sep [] t h = rw (same) refl
  where
    same : nat_eq sep sep ≡ true
    same = ground arith
cut_at-append sep (c ∷ s) t h = rw (other, cut_at-append sep s t (ground arith)) refl
  where
    other : nat_eq c sep ≡ false
    other = ground arith

abbrev pub hex_digit : ℕ → ℕ
hex_digit n = if ltb n 10 then 48 + n else 87 + n

unfoldable pub hex_encode : Text → Text
hex_encode [] = []
hex_encode (b ∷ bs) = hex_digit (b / 16) ∷ hex_digit (b % 16) ∷ hex_encode bs

unfoldable pub hex_value : ℕ → Option ℕ
hex_value c =
    if in_range 48 57 c
    then some (c - 48)
    else if in_range 97 102 c
    then some (c - 87)
    else if in_range 65 70 c
    then some (c - 55)
    else none

abbrev hex_byte : Option ℕ → Option ℕ → Option Text → Option Text
hex_byte (some h) (some l) (some bs) = some ((h * 16 + l) ∷ bs)
hex_byte _ _ _ = none

-- DecodeString; `none` is any of its errors.
unfoldable pub hex_decode : Text → Option Text
hex_decode [] = some []
hex_decode (c ∷ []) = none
hex_decode (c ∷ d ∷ s) = hex_byte (hex_value c) (hex_value d) (hex_decode s)

abbrev pub IsByte : ℕ → Type 0
IsByte b = b < 256

abbrev pub is_hex : ℕ → Bool
is_hex c = if in_range 48 57 c then true else in_range 97 102 c

hex_digit-is_hex : (n : ℕ) → n < 16 → is_hex (hex_digit n) ≡ true
hex_digit-is_hex n h = ground arith

hex_value-hex_digit : (n : ℕ) → n < 16 → hex_value (hex_digit n) ≡ some n
unfolding hex_value
hex_value-hex_digit n h = ground arith

pub every-hex_encode : (bs : Text) → All IsByte bs → every is_hex (hex_encode bs) ≡ true
unfolding hex_encode
every-hex_encode [] h = refl
every-hex_encode (b ∷ bs) h =
    rw
      (
        hex_digit-is_hex (b / 16) (omega (arith, h.0)),
        hex_digit-is_hex (b % 16) (omega (arith, h.0)),
      )
      (every-hex_encode bs h.1)

pub hex_decode-hex_encode : (bs : Text) → All IsByte bs → hex_decode (hex_encode bs) ≡ some bs
unfolding hex_encode hex_decode
hex_decode-hex_encode [] h = refl
hex_decode-hex_encode (b ∷ bs) h =
    rw
      (
        hex_value-hex_digit (b / 16) (omega (arith, h.0)),
        hex_value-hex_digit (b % 16) (omega (arith, h.0)),
        hex_decode-hex_encode bs h.1,
      )
      (ap (λ n. some (n ∷ bs)) (omega arith))
