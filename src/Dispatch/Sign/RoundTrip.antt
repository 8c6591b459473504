-- ===== src/Dispatch/Sign/RoundTrip.antt =====
-- internal/dispatch/sign.go: what SignWith signs, Verify accepts.
use status_hub.Prelude.{
  ℕ, zero, suc, ◌+◌, ◌*◌, ◌^◌, ◌≤◌, ◌<◌, ◌≡◌, refl, ap, ◌∙◌, Bool, true, false, List, [], ◌∷◌, map,
  length, none, some, inl, inr, arith, Text, text_Eq, text_eq_iff, ℤ, pos, positive_or, split_on,
  every, hex_encode, is_hex, All, All-of, IsByte, every-hex_encode, hex_decode-hex_encode,
  if◌then◌else◌, get_elem?,
}
use status_hub.Domain.Amount.{max_int64}
use status_hub.Domain.Config.{lower, second}
use status_hub.Dispatch.Sign.{
  Mac, signature, t_part, v1_part, sign_with, scan_parts, signed_payload, show_int,
  unix_to_internal, age_of, exceeds, matches_signature, any_matches, five_minutes, check_scan,
  verify_header, outside_window, is_zero_time,
}
use status_hub.Dispatch.Sign.Parts.{
  IsInt64, parse_int64-show_int, read_part-t, scan_parts-v1, split_on-v1_parts, every-show_int,
  trim_space-hex, number-lacks,
}

-- What the code relies on of HMAC-SHA256: a digest is 32 bytes.
abbrev pub IsSha256 : Mac → Type 0
IsSha256 mac =
    (secret message : Text) → (length (mac secret message) ≡ 32) × All IsByte (mac secret message)

length-hex_encode : (b : ℕ) (bs : Text) → 0 < length (hex_encode (b ∷ bs))
unfolding hex_encode
length-hex_encode b bs = omega arith

hex_encode-filled : (bs : Text) → length bs ≡ 32 → 0 < length (hex_encode bs)
hex_encode-filled [] h = absurd (omega (arith, h))
hex_encode-filled (b ∷ bs) h = length-hex_encode b bs

hex_lower : (s : Text) → every is_hex s ≡ true → map lower s ≡ s
hex_lower [] h = refl
hex_lower (c ∷ s) h = rw (same, hex_lower s (ground arith)) refl
  where
    same : lower c ≡ c
    same = ground arith

-- Two signatures match only if the digests are equal.
pub matches-digests :
    (bs cs : Text)
    → All IsByte bs
    → All IsByte cs
    → matches_signature (hex_encode bs) (hex_encode cs) ≡ true
    → bs ≡ cs
unfolding matches_signature
matches-digests bs cs h k q = (text_eq_iff bs cs).0 (
    rw
      (
        trim_space-hex (hex_encode bs) (every-hex_encode bs h),
        hex_lower (hex_encode bs) (every-hex_encode bs h),
        hex_decode-hex_encode bs h,
        hex_decode-hex_encode cs k,
      )
      at q)

matches_self :
    (bs : Text) → All IsByte bs → matches_signature (hex_encode bs) (hex_encode bs) ≡ true
unfolding matches_signature
matches_self bs h =
    rw
      (
        trim_space-hex (hex_encode bs) (every-hex_encode bs h),
        hex_lower (hex_encode bs) (every-hex_encode bs h),
        hex_decode-hex_encode bs h,
      )
      ((text_eq_iff bs bs).1 refl)

module _ (mac : Mac) (law : IsSha256 mac) (body : Text) (ts : ℤ) where
  signature-hex : (s : Text) → every is_hex (signature mac body ts s) ≡ true
  signature-hex s =
      every-hex_encode (mac s (signed_payload ts body)) (law s (signed_payload ts body)).1

  signature-filled : (s : Text) → 0 < length (signature mac body ts s)
  signature-filled s =
      hex_encode-filled (mac s (signed_payload ts body)) (law s (signed_payload ts body)).0

  signatures :
      (secrets : List Text)
      → All
          (λ sig. (every is_hex sig ≡ true) × (0 < length sig))
          (map (signature mac body ts) secrets)
  signatures [] = tt
  signatures (s ∷ secrets) = ((signature-hex s, signature-filled s), signatures secrets)

  map-v1 :
      (secrets : List Text)
      → map (λ s. v1_part (signature mac body ts s)) secrets
        ≡ map v1_part (map (signature mac body ts) secrets)
  map-v1 [] = refl
  map-v1 (s ∷ secrets) = ap (λ l. v1_part (signature mac body ts s) ∷ l) (map-v1 secrets)

  scan_parts-t :
      (parts : List Text)
      → IsInt64 ts
      → scan_parts (t_part ts ∷ parts) (pos 0) [] ≡ scan_parts parts ts []
  unfolding scan_parts
  scan_parts-t parts h = rw (read_part-t ts, parse_int64-show_int ts h) refl

  pub scan_parts-sign_with :
      (secrets : List Text)
      → 0 < length secrets
      → IsInt64 ts
      → scan_parts (split_on 44 (sign_with mac secrets body ts)) (pos 0) []
        ≡ inr (ts, map (signature mac body ts) secrets)
  unfolding sign_with
  scan_parts-sign_with [] l h = elim l [ ]
  scan_parts-sign_with (s ∷ secrets) l h =
      ap (λ parts. scan_parts parts (pos 0) [])
        (split_on-v1_parts mac body ts (s ∷ secrets) (t_part ts)
            (number-lacks 44 (inr (inl refl)) (show_int ts) (every-show_int ts))
            (All-of signature-hex (s ∷ secrets))
          ∙ ap (λ l. t_part ts ∷ l) (map-v1 (s ∷ secrets)))
      ∙ scan_parts-t (map v1_part (map (signature mac body ts) (s ∷ secrets))) h
      ∙ scan_parts-v1 (map (signature mac body ts) (s ∷ secrets)) ts [] (signatures (s ∷ secrets))

  any_matches-listed :
      (secrets : List Text) (i : ℕ) (secret : Text)
      → get_elem? secrets i ≡ some secret
      → any_matches (map (signature mac body ts) secrets) (signature mac body ts secret) ≡ true
  unfolding any_matches
  any_matches-listed [] i secret q = absurd (nothing q)
    where
      nothing : none ≡ some secret → ⊥
      nothing k = cc
  any_matches-listed (s ∷ secrets) zero secret q =
      rw
        (ap (λ t. matches_signature (signature mac body ts t) (signature mac body ts secret)) same
          ∙ matches_self (mac secret (signed_payload ts body))
              (law secret (signed_payload ts body)).1)
        refl
    where
      same : s ≡ secret
      same = cc
  any_matches-listed (s ∷ secrets) (suc i) secret q =
      later (matches_signature (signature mac body ts s) (signature mac body ts secret))
        (any_matches-listed secrets i secret q)
    where
      later : (b : Bool) {c : Bool} → c ≡ true → (if b then true else c) ≡ true
      later true h = refl
      later false h = h

  -- The check of what was scanned, where some signature matches.
  check_scan-matched :
      (secret : Text) (now : ℕ) (tolerance : ℤ) (sigs : List Text)
      → any_matches sigs (signature mac body ts secret) ≡ true
      → is_zero_time ts ≡ false
      → check_scan mac secret body now tolerance (inr (ts, sigs)) ≡ (
          if exceeds (age_of now ts) (positive_or tolerance five_minutes)
          then some outside_window
          else none)
  unfolding check_scan any_matches
  check_scan-matched secret now tolerance [] m z = absurd (differ m)
    where
      differ : false ≡ true → ⊥
      differ k = cc
  check_scan-matched secret now tolerance (sig ∷ sigs) m z = rw (z, m) refl

  pub verify_header-listed :
      (secrets : List Text) (i : ℕ) (secret : Text) (now : ℕ) (tolerance : ℤ)
      → get_elem? secrets i ≡ some secret
      → 0 < length secrets
      → IsInt64 ts
      → is_zero_time ts ≡ false
      → verify_header mac secret body (sign_with mac secrets body ts) now tolerance ≡ (
          if exceeds (age_of now ts) (positive_or tolerance five_minutes)
          then some outside_window
          else none)
  unfolding verify_header
  verify_header-listed secrets i secret now tolerance q l h z =
      ap (check_scan mac secret body now tolerance) (scan_parts-sign_with secrets l h)
      ∙ check_scan-matched secret now tolerance (map (signature mac body ts) secrets)
          (any_matches-listed secrets i secret q) z

within :
    (now s w : ℕ)
    → s + unix_to_internal ≤ max_int64
    → now ≤ s * second + w
    → s * second ≤ now + w
    → w ≤ max_int64
    → exceeds (age_of now (pos s)) w ≡ false
unfolding age_of
within now s w b h k l = ground arith

has_some :
    (secrets : List Text) (i : ℕ) (secret : Text)
    → get_elem? secrets i ≡ some secret
    → 0 < length secrets
has_some [] i secret q = absurd (nothing q)
  where
    nothing : none ≡ some secret → ⊥
    nothing k = cc
has_some (s ∷ secrets) i secret q = omega arith

-- A header that SignWith writes for some secrets, at a second after 1970, is accepted for each of them, as long as
-- the clock of the check is no further from that second than the tolerance, which is five minutes
-- where none is given. HMAC-SHA256 is only relied on for digests of 32 bytes.
pub verify_header-sign_with :
    (mac : Mac) (law : IsSha256 mac) (body : Text) (secrets : List Text) (i : ℕ) (secret : Text)
    (s now : ℕ) (tolerance : ℤ)
    → get_elem? secrets i ≡ some secret
    → 0 < s
    → s + unix_to_internal ≤ max_int64
    → positive_or tolerance five_minutes ≤ max_int64
    → now ≤ s * second + positive_or tolerance five_minutes
    → s * second ≤ now + positive_or tolerance five_minutes
    → verify_header mac secret body (sign_with mac secrets body (pos s)) now tolerance ≡ none
verify_header-sign_with mac law body secrets i secret s now tolerance q z b w h k =
    verify_header-listed mac law body (pos s) secrets i secret now tolerance q
      (has_some secrets i secret q) (omega (arith, b)) (ground arith)
    ∙ rw (within now s (positive_or tolerance five_minutes) b h k w) refl

far :
    (now s w : ℕ)
    → s + unix_to_internal ≤ max_int64
    → now + 2 ^ 63 ≤ s * second
    → exceeds (age_of now (pos s)) w ≡ false
unfolding age_of
far now s w b h = ground arith

-- A header of a second that lies 2^63 nanoseconds, some 292 years, or more after the clock is accepted as
-- well, whatever the tolerance.
pub verify_header-far_future :
    (mac : Mac) (law : IsSha256 mac) (body : Text) (secrets : List Text) (i : ℕ) (secret : Text)
    (s now : ℕ) (tolerance : ℤ)
    → get_elem? secrets i ≡ some secret
    → s + unix_to_internal ≤ max_int64
    → now + 2 ^ 63 ≤ s * second
    → verify_header mac secret body (sign_with mac secrets body (pos s)) now tolerance ≡ none
verify_header-far_future mac law body secrets i secret s now tolerance q b h =
    verify_header-listed mac law body (pos s) secrets i secret now tolerance q
      (has_some secrets i secret q) (omega (arith, b)) (ground arith)
    ∙ rw (far now s (positive_or tolerance five_minutes) b h) refl
