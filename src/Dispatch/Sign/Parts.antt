-- ===== src/Dispatch/Sign/Parts.antt =====
-- internal/dispatch/sign.go: how Verify reads the header that Sign and SignWith write.
use native.Mathlib.Numerals.{add-one}
use status_hub.Prelude.{
  ℕ, suc, ◌+◌, ◌≤◌, ◌<◌, ◌≡◌, refl, sym, ap, ◌∙◌, Bool, true, false, ◌||◌, not, List, [], ◌∷◌, ◌++◌,
  map, length, none, some, inr, ◌⊎◌, nat_eq, ltb, arith, Text, text_eq, text_Eq, in_range, ℤ, pos,
  negsuc, decimal, split_on, cut_at, every, every-weaken, lacks, split_on-append, split_on-lacks,
  is_hex, All, if◌then◌else◌,
}
use status_hub.Domain.Amount.{
  is_space, trim_left, trim_right, trim_space, is_digit, all_digits, parse_int64, max_int64,
  take_sign, negate,
}
use status_hub.Domain.Amount.Digits.{decimal-Correct}
use status_hub.Dispatch.Sign.{
  show_int, v1_part, t_part, read_part, timestamp, signed, Mac, signature, v1_parts, scan_parts,
}

append-nil : {A : Type 0} (s : List A) → s ++ [] ≡ s
append-nil [] = refl
append-nil (c ∷ s) = ap (λ t. c ∷ t) (append-nil s)

append_assoc : {A : Type 0} (s t u : List A) → (s ++ t) ++ u ≡ s ++ (t ++ u)
append_assoc [] t u = refl
append_assoc (c ∷ s) t u = ap (λ v. c ∷ v) (append_assoc s t u)

-- The characters that a header is written with, but for its commas.
abbrev is_written : ℕ → Bool
is_written c = in_range 45 61 c || in_range 97 122 c

abbrev is_number : ℕ → Bool
is_number c = nat_eq c 45 || in_range 48 57 c

written-solid : (c : ℕ) → is_written c ≡ true → is_space c ≡ false
unfolding is_space
written-solid c h = ground arith

trim_left-written : (s : Text) → every is_written s ≡ true → trim_left is_space s ≡ s
unfolding trim_left
trim_left-written [] h = refl
trim_left-written (c ∷ s) h = rw (written-solid c (ground arith)) refl

trim_right-written : (s : Text) → every is_written s ≡ true → trim_right is_space s ≡ s
unfolding trim_right
trim_right-written [] h = refl
trim_right-written (c ∷ s) h =
    rw (written-solid c (ground arith)) (ap (λ t. c ∷ t) (trim_right-written s (ground arith)))

pub trim_space-written : (s : Text) → every is_written s ≡ true → trim_space s ≡ s
unfolding trim_space
trim_space-written s h = ap (trim_right is_space) (trim_left-written s h) ∙ trim_right-written s h

digits_number : (s : Text) → all_digits s ≡ true → every is_number s ≡ true
unfolding all_digits is_digit
digits_number [] h = refl
digits_number (c ∷ s) h = ground (arith, digits_number s)

pub every-show_int : (ts : ℤ) → every is_number (show_int ts) ≡ true
unfolding show_int
every-show_int (pos n) = digits_number (decimal n) (decimal-Correct n).1
every-show_int (negsuc n) = digits_number (decimal (n + 1)) (decimal-Correct (n + 1)).1

abbrev pub IsInt64 : ℤ → Type 0
IsInt64 (pos n) = n ≤ max_int64
IsInt64 (negsuc n) = n ≤ max_int64

take_sign-digits : (s : Text) → all_digits s ≡ true → take_sign s ≡ (false, s)
unfolding take_sign all_digits is_digit
take_sign-digits [] h = refl
take_sign-digits (c ∷ s) h = ground arith

not_nil : (s : Text) → 0 < length s → text_eq s [] ≡ false
unfolding text_eq
not_nil [] h = elim h [ ]
not_nil (c ∷ s) h = refl

least :
    (n : ℕ)
    → n ≤ max_int64
    → (if ltb (max_int64 + 1) (n + 1) then none else some (negate (n + 1))) ≡ some (negsuc n)
least n h = rw (add-one n, in_bound) refl
  where
    in_bound : ltb (max_int64 + 1) (suc n) ≡ false
    in_bound = ground arith

pub parse_int64-show_int : (ts : ℤ) → IsInt64 ts → parse_int64 (show_int ts) ≡ some ts
unfolding parse_int64 show_int take_sign
parse_int64-show_int (pos n) h =
    let (l, d, v) = decimal-Correct n in
    rw (take_sign-digits (decimal n) d, not_nil (decimal n) l, d, v) (in_bound (ground arith))
  where
    in_bound : {b : Bool} → b ≡ false → (if b then none else some (pos n)) ≡ some (pos n)
    in_bound {b} k = rw (k) refl
parse_int64-show_int (negsuc n) h =
    let (l, d, v) = decimal-Correct (n + 1) in rw (not_nil (decimal (n + 1)) l, d, v) (least n h)

number-written : (s : Text) → every is_number s ≡ true → every is_written s ≡ true
number-written = every-weaken is_number is_written (λ c k. ground arith)

pub number-lacks :
    (sep : ℕ)
    → 57 < sep ⊎ (sep ≡ 44) ⊎ (sep ≡ 46)
    → (s : Text) → every is_number s ≡ true
    → lacks sep s ≡ true
number-lacks sep h = every-weaken is_number (λ c. not (nat_eq c sep)) (λ c k. ground arith)

pub read_part-t : (ts : ℤ) → read_part (t_part ts) ≡ timestamp (show_int ts)
unfolding read_part cut_at text_eq
read_part-t ts =
    rw (trim_space-written (t_part ts) (number-written (show_int ts) (every-show_int ts))) refl

hex-written : (s : Text) → every is_hex s ≡ true → every is_written s ≡ true
hex-written = every-weaken is_hex is_written (λ c k. ground arith)

pub trim_space-hex : (s : Text) → every is_hex s ≡ true → trim_space s ≡ s
trim_space-hex s h = trim_space-written s (hex-written s h)

pub read_part-v1 : (sig : Text) → every is_hex sig ≡ true → read_part (v1_part sig) ≡ signed sig
unfolding read_part cut_at text_eq
read_part-v1 sig h = rw (trim_space-written (v1_part sig) (hex-written sig h)) refl

-- The parts that SignWith writes, read in any position of the loop.
pub scan_parts-v1 :
    (sigs : List Text) (ts : ℤ) (seen : List Text)
    → All (λ sig. (every is_hex sig ≡ true) × (0 < length sig)) sigs
    → scan_parts (map v1_part sigs) ts seen ≡ inr (ts, seen ++ sigs)
unfolding scan_parts
scan_parts-v1 [] ts seen h = ap (λ l. inr (ts, l)) (sym (append-nil seen))
scan_parts-v1 (sig ∷ sigs) ts seen h =
    rw (read_part-v1 sig h.0.0, not_nil sig h.0.1)
      (scan_parts-v1 sigs ts (seen ++ sig ∷ []) h.1
        ∙ ap (λ l. inr (ts, l)) (append_assoc seen (sig ∷ []) sigs))

pub split_on-v1_parts :
    (mac : Mac) (body : Text) (ts : ℤ) (secrets : List Text) (first : Text)
    → lacks 44 first ≡ true
    → All (λ s. every is_hex (signature mac body ts s) ≡ true) secrets
    → split_on 44 (first ++ v1_parts mac body ts secrets)
      ≡ first ∷ map (λ s. v1_part (signature mac body ts s)) secrets
unfolding v1_parts
split_on-v1_parts mac body ts [] first h k =
    ap (split_on 44) (append-nil first) ∙ split_on-lacks 44 first h
split_on-v1_parts mac body ts (s ∷ secrets) first h k =
    split_on-append 44 first (v1_part (signature mac body ts s) ++ v1_parts mac body ts secrets) h
    ∙ ap (λ l. first ∷ l)
        (split_on-v1_parts mac body ts secrets (v1_part (signature mac body ts s))
          (every-weaken is_hex (λ c. not (nat_eq c 44)) (λ c q. ground arith)
            (signature mac body ts s) k.0)
          k.1)
