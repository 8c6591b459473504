-- ===== src/Redact.antt =====
-- internal/redact/redact.go: card numbers are taken out of a payload before it is stored.
pub mod CheckDigit
pub mod Scanning
use status_hub.Prelude.{
  ℕ, zero, suc, ◌+◌, ◌-◌, ◌*◌, ◌%◌, Bool, true, false, not, ◌&&◌, ◌||◌, ◌++◌, ◌∷◌, [], length,
  if◌then◌else◌, Text, codes, decimal, ltb, leb, nat_eq, in_range,
}

pub record Result : Type 0 where
  pub body : Text
  pub pans_found : ℕ
  pub redacted : Bool

abbrev pub placeholder : Text
placeholder = codes "[redacted:pan]"

abbrev pub is_digit : ℕ → Bool
is_digit b = in_range b'0' b'9' b

abbrev pub is_separator : ℕ → Bool
is_separator b = nat_eq b b' ' || nat_eq b b'-'

abbrev pub digit_sum : Bool → ℕ → ℕ
digit_sum alt c =
    let d = c - b'0' in if alt then (if ltb 9 (d * 2) then d * 2 - 9 else d * 2) else d

-- The loop of `luhn`, which begins at the last digit: the sum, and whether the next digit is doubled.
unfoldable pub luhn_loop : Text → ℕ × Bool
luhn_loop [] = (0, false)
luhn_loop (c ∷ s) = let (sum, alt) = luhn_loop s in (sum + digit_sum alt c, not alt)

unfoldable pub luhn : Text → Bool
luhn s = nat_eq ((luhn_loop s).0 % 10) 0

abbrev begins_with_digit : Text → Bool
begins_with_digit [] = false
begins_with_digit (b ∷ _) = is_digit b

-- The loop of scanCandidate after `seen` digits: how far it goes and the digits of that part, or
-- nothing where there are more than 19.
unfoldable pub candidate_loop : ℕ → Text → ℕ × Text × Bool
candidate_loop seen [] = (0, [], true)
candidate_loop seen (b ∷ r) =
    let (n, digits, fits) = candidate_loop (seen + 1) r in
    let (n', digits', fits') = candidate_loop seen r in
    if is_digit b
    then (if ltb 19 (seen + 1) then (0, [], false) else (n + 1, b ∷ digits, fits))
    else if is_separator b && begins_with_digit r && ltb 0 seen
    then (n' + 1, digits', fits')
    else (0, [], true)

unfoldable pub scan_candidate : Text → ℕ × Text
scan_candidate s =
    let (n, digits, fits) = candidate_loop 0 s in if fits then (n, digits) else (0, [])

-- Whether a number that is to be replaced begins with the text, which stands after the byte `p`
-- and, before that, `q`; no byte is written 0.
unfoldable pub is_card : ℕ → ℕ → Text → Bool
is_card p q s =
    let digits = (scan_candidate s).1 in
    begins_with_digit s
    && not (is_digit p)
    && not (is_separator p && is_digit q)
    && leb 13 (length digits)
    && leb (length digits) 19
    && luhn digits

-- The loop of Scan: what it writes from here on, and how many numbers it replaces. `skipped` bytes
-- belong to a number that was replaced.
unfoldable pub scan_loop : ℕ → ℕ → ℕ → Text → Text × ℕ
scan_loop p q skipped [] = ([], 0)
scan_loop p q (suc skipped) (b ∷ r) = scan_loop b p skipped r
scan_loop p q zero (b ∷ r) =
    let (kept, found) = scan_loop b p 0 r in
    let (kept', found') = scan_loop b p ((scan_candidate (b ∷ r)).0 - 1) r in
    if is_card p q (b ∷ r) then (placeholder ++ kept', found' + 1) else (b ∷ kept, found)

unfoldable pub scan : Text → Result
scan body =
    let (out, found) = scan_loop 0 0 0 body in
    if ltb (length body) 13 || nat_eq found 0
    then record { body = body; pans_found = 0; redacted = false }
    else record { body = out; pans_found = found; redacted = true }

unfoldable pub describe : Result → Text
describe r =
    if not r.redacted
    then codes "no card data found"
    else decimal r.pans_found ++ codes " card-number-shaped value(s) replaced before storage"
