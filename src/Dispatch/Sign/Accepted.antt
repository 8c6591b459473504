-- ===== src/Dispatch/Sign/Accepted.antt =====
-- internal/dispatch/sign.go: what a header that Verify accepts contains.
use status_hub.Prelude.{
  ℕ, ◌+◌, ◌-◌, ◌*◌, ◌≤◌, ◌<◌, ◌⊎◌, ltb, leb, suc, ◌≡◌, refl, sym, ap, ◌∙◌, Bool, true, false, List,
  [], ◌∷◌, ◌++◌, map, none, some, inl, inr, arith, Text, text_Eq, ℤ, positive_or, split_on,
  if◌then◌else◌, get_elem?, Bool-cases, cut_at, cut_at-append,
}
use status_hub.Dispatch.Sign.{
  second, unix_to_internal, Mac, signature, sign_with, scan_parts, read_part, signed_payload,
  show_int, age_of, exceeds, matches_signature, any_matches, five_minutes, check_scan,
  verify_header, no_timestamp, no_signature, outside_window, no_match, is_zero_time,
}
use status_hub.Dispatch.Sign.Parts.{IsInt64, parse_int64-show_int, every-show_int, number-lacks}
use status_hub.Dispatch.Sign.RoundTrip.{IsSha256, scan_parts-sign_with, matches-digests}
use status_hub.Domain.Amount.{max_int64, parse_int64, trim_space, trim_left, trim_right}

-- The signed bytes of two deliveries are the same only if their times and their bodies are.
pub signed_payload_injective :
    (ts ts' : ℤ) (body body' : Text)
    → IsInt64 ts
    → IsInt64 ts'
    → signed_payload ts body ≡ signed_payload ts' body'
    → (ts ≡ ts') × (body ≡ body')
unfolding signed_payload
signed_payload_injective ts ts' body body' h h' q =
    let cut = sym (cut ts body) ∙ ap (cut_at 46) q ∙ cut ts' body' in
    (
      given (
          sym (parse_int64-show_int ts h)
          ∙ ap (λ r. parse_int64 r.0) cut
          ∙ parse_int64-show_int ts' h'),
      ap (λ r. r.1) cut,
    )
  where
    given : some ts ≡ some ts' → ts ≡ ts'
    given k = cc

    cut :
        (ts : ℤ) (body : Text) → cut_at 46 (show_int ts ++ (46 ∷ body)) ≡ (show_int ts, body, true)
    cut ts body =
        cut_at-append 46 (show_int ts) body
          (number-lacks 46 (inr (inr refl)) (show_int ts) (every-show_int ts))

-- The time of a timestamp lies at most the tolerance before or after `now`. Two other times pass too:
-- one so far ahead that the difference leaves int64, and any at all under the largest tolerance.
unfoldable pub IsFresh : ℕ → ℤ → ℕ → Type 0
IsFresh now (ℤ.pos s) tolerance =
    ((now ≤ s * second + tolerance) × (s * second ≤ now + tolerance))
    ⊎ (now + max_int64 < s * second)
    ⊎ (max_int64 ≤ tolerance)
IsFresh now (ℤ.negsuc s) tolerance = (now + (s + 1) * second ≤ tolerance) ⊎ (max_int64 ≤ tolerance)

exceeds-IsFresh :
    (now : ℕ) (ts : ℤ) (tolerance : ℕ)
    → exceeds (age_of now ts) tolerance ≡ false
    → IsFresh now ts tolerance
unfolding age_of IsFresh
exceeds-IsFresh now (ℤ.pos s) tolerance h =
    elim (Bool-cases (ltb max_int64 (s + unix_to_internal))) [
      | inl p ↦ inr (inr (ground arith))
      | inr p ↦ elim (Bool-cases (leb (s * second) now)) [
        | inl q ↦ elim (Bool-cases (leb max_int64 tolerance)) [
          | inl large ↦ inr (inr (ground arith))
          | inr small ↦ inl (ground arith)
        ]
        | inr q ↦ elim (Bool-cases (ltb max_int64 (s * second - now))) [
          | inl r ↦ inr (inl (ground arith))
          | inr r ↦ inl (ground arith)
        ]
      ]
    ]
exceeds-IsFresh now (ℤ.negsuc s) tolerance h =
    elim (Bool-cases (leb (now + (s + 1) * second) tolerance)) [
      | inl p ↦ inl (ground arith)
      | inr p ↦ inr (ground arith)
    ]

-- What a check that returns no error has found.
check_scan-found :
    (mac : Mac) (secret body : Text) (now : ℕ) (tolerance ts : ℤ) (sigs : List Text)
    → check_scan mac secret body now tolerance (inr (ts, sigs)) ≡ none
    → (is_zero_time ts ≡ false)
      × (exceeds (age_of now ts) (positive_or tolerance five_minutes) ≡ false)
      × (any_matches sigs (signature mac body ts secret) ≡ true)
unfolding check_scan
check_scan-found mac secret body now tolerance ts [] h = absurd (failed (is_zero_time ts) h)
  where
    failed : (z : Bool) → (if z then some no_timestamp else some no_signature) ≡ none → ⊥
    failed true k = cc
    failed false k = cc
check_scan-found mac secret body now tolerance ts (sig ∷ sigs) h =
    found (is_zero_time ts) (exceeds (age_of now ts) (positive_or tolerance five_minutes))
      (any_matches (sig ∷ sigs) (signature mac body ts secret)) h
  where
    found :
        (z e m : Bool)
        → (if z
            then some no_timestamp
            else if e
            then some outside_window
            else if m
            then none
            else some no_match)
          ≡ none
        → (z ≡ false) × (e ≡ false) × (m ≡ true)
    found true e m k = absurd (wrong k)
      where
        wrong : some no_timestamp ≡ none → ⊥
        wrong k = cc
    found false true m k = absurd (wrong k)
      where
        wrong : some outside_window ≡ none → ⊥
        wrong k = cc
    found false false true k = (refl, refl, refl)
    found false false false k = absurd (wrong k)
      where
        wrong : some no_match ≡ none → ⊥
        wrong k = cc

module _ (mac : Mac) (law : IsSha256 mac) (body body' : Text) (ts : ℤ) (secret : Text) where
  matches-digest :
      (s : Text)
      → matches_signature (signature mac body ts s) (signature mac body' ts secret) ≡ true
      → mac s (signed_payload ts body) ≡ mac secret (signed_payload ts body')
  matches-digest s h =
      matches-digests (mac s (signed_payload ts body)) (mac secret (signed_payload ts body'))
        (law s (signed_payload ts body)).1 (law secret (signed_payload ts body')).1 h

  -- A secret of the list whose digest is the expected one.
  abbrev pub SameDigest : List Text → Type 0
  SameDigest secrets =
      (i : ℕ) × (s : Text) × (get_elem? secrets i ≡ some s)
      × (mac s (signed_payload ts body) ≡ mac secret (signed_payload ts body'))

  any_matches-SameDigest :
      (secrets : List Text)
      → any_matches (map (signature mac body ts) secrets) (signature mac body' ts secret) ≡ true
      → SameDigest secrets
  unfolding any_matches
  any_matches-SameDigest [] h = absurd (wrong h)
    where
      wrong : false ≡ true → ⊥
      wrong k = cc
  any_matches-SameDigest (s ∷ secrets) h =
      elim (Bool-cases
        (matches_signature (signature mac body ts s) (signature mac body' ts secret))) [
          | inl p ↦ (0, s, refl, matches-digest s p)
          | inr p ↦
              (let (i, t, q, d) = any_matches-SameDigest secrets (rw (p) at h) in (suc i, t, q, d))
        ]

  nothing_signed :
      (now : ℕ) (tolerance : ℤ) → verify_header mac secret body' [] now tolerance ≡ none → ⊥
  unfolding verify_header split_on scan_parts read_part trim_space trim_left trim_right cut_at
      check_scan
  nothing_signed now tolerance k = cc

  -- A header that SignWith wrote for one body at a time other than 0, presented with some body, is
  -- accepted only where the digest of the presented body under the secret of the check is the digest
  -- of the signed body under one of the secrets, at the same time, and where that time lies at most
  -- the tolerance before or after the clock, or more than 2^63 - 1 nanoseconds after it, or the
  -- tolerance is at least 2^63 - 1 nanoseconds.
  pub accepted_digest :
      (secrets : List Text) (now : ℕ) (tolerance : ℤ)
      → IsInt64 ts
      → verify_header mac secret body' (sign_with mac secrets body ts) now tolerance ≡ none
      → IsFresh now ts (positive_or tolerance five_minutes) × SameDigest secrets
  unfolding verify_header sign_with
  accepted_digest [] now tolerance h k = absurd (nothing_signed now tolerance k)
  accepted_digest (s ∷ secrets) now tolerance h k =
      let scanned = scan_parts-sign_with mac law body ts (s ∷ secrets) (omega arith) h in
      let (_, fresh, matched) =
        check_scan-found mac secret body' now tolerance ts
          (map (signature mac body ts) (s ∷ secrets))
          (ap (check_scan mac secret body' now tolerance) (sym scanned) ∙ k) in
      (
        exceeds-IsFresh now ts (positive_or tolerance five_minutes) fresh,
        any_matches-SameDigest (s ∷ secrets) matched,
      )
