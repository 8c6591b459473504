-- ===== src/Prelude/Bytes.antt =====
-- Go's strings where the program looks inside them: lists of bytes, or of runes.
use Prim.Native.Nat.{ℕ, zero, suc, ◌-◌, ◌≤◌}
use Prim.Native.Char.{code}
use Prim.Native.String.{String}
use mathlib.Core.Path.{◌≡◌}
use mathlib.Core.Logic.{◌↔◌}
use mathlib.Core.Bool.{Bool, true, false, ◌&&◌, ◌||◌}
use mathlib.Core.List.{List, [], ◌∷◌}
use native.Mathlib.Omega.{arith}
use status_hub.Prelude.Tests.{HasEq, nat_eq, nat_eq_iff, leb, ltb, if◌then◌else◌}
use status_hub.Prelude.Lists.{length}

abbrev pub Text : Type 0
Text = List ℕ

-- The code points of a literal: its bytes, if it is ASCII.
abbrev pub codes : String → Text
codes String.[] = []
codes (String.◌∷◌ c s) = code c ∷ codes s

unfoldable pub text_eq : Text → Text → Bool
text_eq [] [] = true
text_eq (x ∷ xs) (y ∷ ys) = nat_eq x y && text_eq xs ys
text_eq _ _ = false

pub text_eq_iff : (a b : Text) → (text_eq a b ≡ true) ↔ (a ≡ b)
unfolding text_eq
text_eq_iff [] [] = ground arith
text_eq_iff [] (y ∷ ys) = ground arith
text_eq_iff (x ∷ xs) [] = ground arith
text_eq_iff (x ∷ xs) (y ∷ ys) = ground (arith, nat_eq_iff x y, text_eq_iff xs ys)

instance abbrev pub text_Eq : HasEq Text
text_Eq = record { same_iff = text_eq_iff; same = text_eq }

abbrev pub in_range : ℕ → ℕ → ℕ → Bool
in_range lo hi c = leb lo c && leb c hi

continues : ℕ → ℕ → Text → Bool
continues lo hi [] = false
continues lo hi (b ∷ _) = in_range lo hi b

rest : Text → Text
rest [] = []
rest (_ ∷ r) = r

-- The number of bytes of the UTF-8 sequence that begins with `b` and goes on with `r`, by the table
-- of package unicode/utf8; 0 where there is none.
rune_width : ℕ → Text → ℕ
unfolding continues rest
rune_width b r =
    if ltb b 0x80
    then 1
    else if in_range 0xc2 0xdf b
    then (if continues 0x80 0xbf r then 2 else 0)
    else if in_range 0xe0 0xef b
    then (let lo = if nat_eq b 0xe0 then 0xa0 else 0x80 in
        let hi = if nat_eq b 0xed then 0x9f else 0xbf in
        if continues lo hi r && continues 0x80 0xbf (rest r) then 3 else 0)
    else if in_range 0xf0 0xf4 b
    then (let lo = if nat_eq b 0xf0 then 0x90 else 0x80 in
        let hi = if nat_eq b 0xf4 then 0x8f else 0xbf in
        if continues lo hi r && continues 0x80 0xbf (rest r) && continues 0x80 0xbf (rest (rest r))
        then 4
        else 0)
    else 0

-- `pending` bytes belong to a sequence that was found well formed.
valid_from : ℕ → Text → Text
valid_from pending [] = []
valid_from (suc pending) (b ∷ r) = b ∷ valid_from pending r
valid_from zero (b ∷ r) =
    let w = rune_width b r in
    let kept = valid_from (w - 1) r in if nat_eq w 0 then kept else b ∷ kept

-- strings.ToValidUTF8(s, ""): the bytes that belong to no sequence are left out.
unfoldable pub to_valid_utf8 : Text → Text
unfolding valid_from rune_width
to_valid_utf8 = valid_from 0

valid_from-le : (n : ℕ) (s : Text) → length (valid_from n s) ≤ length s
unfolding valid_from
valid_from-le zero [] = omega arith
valid_from-le (suc n) [] = omega arith
valid_from-le (suc n) (b ∷ r) = omega (arith, valid_from-le n r)
valid_from-le zero (b ∷ r) = ground (arith, valid_from-le (rune_width b r - 1) r)

-- Go's `<` on strings: by bytes, a prefix first.
unfoldable pub text_ltb : Text → Text → Bool
text_ltb [] [] = false
text_ltb [] (_ ∷ _) = true
text_ltb (_ ∷ _) [] = false
text_ltb (x ∷ s) (y ∷ t) = ltb x y || (nat_eq x y && text_ltb s t)
