-- ===== src/Dispatch/Sign.antt =====
-- internal/dispatch/sign.go: the signature header of a delivery, `t=<unix>,v1=<hex>`, and its check.
-- A time is in nanoseconds since 1970, and a time of the header in seconds. HMAC-SHA256 is an
-- argument: the secret, the message, and the digest.
pub mod Accepted
pub mod Parts
pub mod RoundTrip
use status_hub.Prelude.{
  ℕ, zero, suc, ◌+◌, ◌-◌, ◌*◌, ◌^◌, Bool, true, false, not, ◌&&◌, List, [], ◌∷◌, ◌++◌, map, Option,
  none, some, ◌⊎◌, inl, inr, ◌==◌, nat_eq, ltb, leb, if◌then◌else◌, Text, text_Eq, codes, ℤ, pos,
  negsuc, positive_or, decimal, split_on, cut_at, hex_encode, hex_decode, min,
}
use status_hub.Domain.Amount.{trim_space, parse_int64, max_int64}
use status_hub.Domain.Config.{lower, second}

abbrev pub Mac : Type 0
Mac = Text → Text → Text

-- strconv.FormatInt(ts, 10), and %d.
unfoldable pub show_int : ℤ → Text
show_int (pos n) = decimal n
show_int (negsuc n) = b'-' ∷ decimal (n + 1)

unfoldable pub signed_payload : ℤ → Text → Text
signed_payload ts body = show_int ts ++ (b'.' ∷ body)

-- One `v1` of a header.
abbrev pub signature : Mac → Text → ℤ → Text → Text
signature mac body ts secret = hex_encode (mac secret (signed_payload ts body))

abbrev pub v1_part : Text → Text
v1_part sig = b'v' ∷ b'1' ∷ b'=' ∷ sig

abbrev pub t_part : ℤ → Text
t_part ts = b't' ∷ b'=' ∷ show_int ts

unfoldable pub sign : Mac → Text → Text → ℤ → Text
sign mac secret body ts = t_part ts ++ (b',' ∷ v1_part (signature mac body ts secret))

-- The loop over the secrets.
unfoldable pub v1_parts : Mac → Text → ℤ → List Text → Text
v1_parts mac body ts [] = []
v1_parts mac body ts (s ∷ secrets) =
    (b',' ∷ v1_part (signature mac body ts s)) ++ v1_parts mac body ts secrets

unfoldable pub sign_with : Mac → List Text → Text → ℤ → Text
sign_with mac [] body ts = []
sign_with mac (s ∷ secrets) body ts = t_part ts ++ v1_parts mac body ts (s ∷ secrets)

pub data VerifyError : Type 0 where
  bad_timestamp : Text → VerifyError
  no_timestamp no_signature outside_window no_match : VerifyError

-- What a part of the header says: the two cases of the switch, or nothing.
pub data Field : Type 0 where
  skipped : Field
  timestamp : Text → Field
  signed : Text → Field

abbrev field_of : Text × Text × Bool → Field
field_of (k, v, ok) =
    if not ok
    then skipped
    else if k == codes "t"
    then timestamp v
    else if k == codes "v1"
    then signed v
    else skipped

unfoldable pub read_part : Text → Field
read_part part = field_of (cut_at b'=' (trim_space part))

-- What the loop over the parts collects: the last timestamp, and the signatures.
abbrev pub Scan : Type 0
Scan = VerifyError ⊎ (ℤ × List Text)

abbrev scan_timestamp : Text → Option ℤ → (ℤ → Scan) → Scan
scan_timestamp v none next = inl (bad_timestamp v)
scan_timestamp v (some n) next = next n

abbrev scan_field : Field → (ℤ → List Text → Scan) → ℤ → List Text → Scan
scan_field skipped next ts sigs = next ts sigs
scan_field (timestamp v) next ts sigs = scan_timestamp v (parse_int64 v) (λ n. next n sigs)
scan_field (signed v) next ts sigs = next ts (if v == [] then sigs else sigs ++ v ∷ [])

unfoldable pub scan_parts : List Text → ℤ → List Text → Scan
scan_parts [] ts sigs = inr (ts, sigs)
scan_parts (part ∷ parts) ts sigs = scan_field (read_part part) (scan_parts parts) ts sigs

-- Seconds from the year 1, which package time counts from, to 1970.
abbrev pub unix_to_internal : ℕ
unix_to_internal = 62135596800

-- The least Duration.
abbrev pub least_duration : ℤ
least_duration = negsuc max_int64

-- `now.Sub(time.Unix(ts, 0))`, then `-age` where it is negative. Sub stops at the greatest and the
-- least Duration, and the least one is its own negation. A sum of seconds that leaves int64 wraps
-- to a time long past.
unfoldable pub age_of : ℕ → ℤ → ℤ
age_of now (pos s) =
    if ltb max_int64 (s + unix_to_internal)
    then pos max_int64
    else if leb (s * second) now
    then pos (min (now - s * second) max_int64)
    else if ltb max_int64 (s * second - now)
    then least_duration
    else pos (s * second - now)
age_of now (negsuc s) = pos (min (now + (s + 1) * second) max_int64)

abbrev pub exceeds : ℤ → ℕ → Bool
exceeds (pos age) tolerance = ltb tolerance age
exceeds (negsuc _) tolerance = false

-- One round of the last loop: equal digests, or equal texts where one of the two is not hexadecimal.
abbrev same_digest : Text → Text → Option Text → Option Text → Bool
same_digest sig expected (some presented) (some want) = presented == want
same_digest sig expected _ _ = sig == expected

unfoldable pub matches_signature : Text → Text → Bool
matches_signature sig expected =
    same_digest sig expected (hex_decode (map lower (trim_space sig))) (hex_decode expected)

unfoldable pub any_matches : List Text → Text → Bool
any_matches [] expected = false
any_matches (sig ∷ sigs) expected =
    if matches_signature sig expected then true else any_matches sigs expected

abbrev pub is_zero_time : ℤ → Bool
is_zero_time (pos n) = nat_eq n 0
is_zero_time (negsuc _) = false

abbrev pub five_minutes : ℕ
five_minutes = 300 * second

-- What follows the loop over the parts; `none` is no error.
unfoldable pub check_scan : Mac → Text → Text → ℕ → ℤ → Scan → Option VerifyError
check_scan mac secret body now tolerance (inl err) = some err
check_scan mac secret body now tolerance (inr (ts, [])) =
    if is_zero_time ts then some no_timestamp else some no_signature
check_scan mac secret body now tolerance (inr (ts, sig ∷ sigs)) =
    if is_zero_time ts
    then some no_timestamp
    else if exceeds (age_of now ts) (positive_or tolerance five_minutes)
    then some outside_window
    else if any_matches (sig ∷ sigs) (signature mac body ts secret)
    then none
    else some no_match

unfoldable pub verify_header : Mac → Text → Text → Text → ℕ → ℤ → Option VerifyError
verify_header mac secret body header now tolerance =
    check_scan mac secret body now tolerance (scan_parts (split_on b',' header) (pos 0) [])
