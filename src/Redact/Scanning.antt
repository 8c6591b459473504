-- ===== src/Redact/Scanning.antt =====
-- A card number among other text is replaced, and the other text is kept.
use native.Mathlib.Numerals.{add-one}
use status_hub.Prelude.{
  and_false, ℕ, suc, ◌+◌, ◌-◌, ◌≤◌, ◌≡◌, refl, ap, ◌∙◌, Bool, true, false, not, ◌&&◌, ◌++◌, ◌∷◌, [],
  length, length-append, Text, arith, ltb, leb,
}
use status_hub.Redact.{
  placeholder, is_digit, is_separator, begins_with_digit, luhn, candidate_loop, scan_candidate,
  is_card, scan_loop, scan,
}

abbrev pub no_digits : Text → Bool
no_digits [] = true
no_digits (b ∷ s) = not (is_digit b) && no_digits s

abbrev pub only_digits : Text → Bool
only_digits [] = true
only_digits (b ∷ s) = is_digit b && only_digits s

is_card-no_digit : (p q b : ℕ) (s : Text) → is_digit b ≡ false → is_card p q (b ∷ s) ≡ false
unfolding is_card
is_card-no_digit p q b s h = rw h refl

head-no_digits :
    (b : ℕ) (s : Text) → no_digits (b ∷ s) ≡ true → (is_digit b ≡ false) × (no_digits s ≡ true)
head-no_digits b s h = ground arith

scan_loop-no_digits : (p q : ℕ) (t : Text) → no_digits t ≡ true → scan_loop p q 0 t ≡ (t, 0)
unfolding scan_loop
scan_loop-no_digits p q [] h = refl
scan_loop-no_digits p q (b ∷ t) h =
    let (d, n) = head-no_digits b t h in
    rw (scan_loop, is_card-no_digit p q b t d, scan_loop-no_digits b p t n) refl

begins_with_digit-none : (t : Text) → no_digits t ≡ true → begins_with_digit t ≡ false
begins_with_digit-none [] h = refl
begins_with_digit-none (b ∷ t) h = (head-no_digits b t h).0

candidate_loop-end :
    (seen : ℕ) (t : Text) → no_digits t ≡ true → candidate_loop seen t ≡ (0, [], true)
unfolding candidate_loop
candidate_loop-end seen [] h = refl
candidate_loop-end seen (b ∷ t) h =
    let (d, n) = head-no_digits b t h in
    rw (d, begins_with_digit-none t n, and_false (is_separator b)) refl

first : (c : ℕ) (s : Text) → only_digits (c ∷ s) ≡ true → is_digit c ≡ true
first c s h = ground arith

others : (c : ℕ) (s : Text) → only_digits (c ∷ s) ≡ true → only_digits s ≡ true
others c s h = ground arith

candidate_loop-card :
    (seen : ℕ) (card t : Text)
    → only_digits card ≡ true
    → no_digits t ≡ true
    → seen + length card ≤ 19
    → candidate_loop seen (card ++ t) ≡ (length card, card, true)
unfolding candidate_loop
candidate_loop-card seen [] t d n l = candidate_loop-end seen t n
candidate_loop-card seen (c ∷ card) t d n l =
    rw
      (
        first c card d,
        few seen (length card) l,
        candidate_loop-card (seen + 1) card t (others c card d) n (omega (arith, l)),
      )
      (ap (λ k. (k, c ∷ card, true)) (add-one (length card)))
  where
    few : (seen k : ℕ) → seen + suc k ≤ 19 → ltb 19 (seen + 1) ≡ false
    few seen k l = ground arith

scan_loop-skips :
    (p q : ℕ) (card t : Text)
    → no_digits t ≡ true
    → scan_loop p q (length card) (card ++ t) ≡ (t, 0)
unfolding scan_loop
scan_loop-skips p q [] t n = scan_loop-no_digits p q t n
scan_loop-skips p q (c ∷ card) t n = scan_loop-skips c p card t n

scan_candidate-card :
    (card t : Text)
    → only_digits card ≡ true
    → no_digits t ≡ true
    → length card ≤ 19
    → scan_candidate (card ++ t) ≡ (length card, card)
unfolding scan_candidate
scan_candidate-card card t d n l = rw (candidate_loop-card 0 card t d n (omega (arith, l))) refl

-- A card number: 13 to 19 digits that pass the check.
unfoldable pub IsCard : Text → Type 0
IsCard card =
    (only_digits card ≡ true) × (13 ≤ length card) × (length card ≤ 19) × (luhn card ≡ true)

is_card-card :
    (p q c : ℕ) (card t : Text)
    → is_digit p ≡ false
    → is_digit q ≡ false
    → IsCard (c ∷ card)
    → no_digits t ≡ true
    → is_card p q ((c ∷ card) ++ t) ≡ true
unfolding is_card IsCard
is_card-card p q c card t dp dq (d, l, u, k) n =
    rw
      (
        ap (λ r. r.1) (scan_candidate-card (c ∷ card) t d n u),
        first c card d,
        dp,
        dq,
        and_false (is_separator p),
        k,
      )
      (in_bounds (length card) l u)
  where
    in_bounds :
        (n : ℕ) → 13 ≤ suc n → suc n ≤ 19 → (leb 13 (suc n) && leb (suc n) 19 && true) ≡ true
    in_bounds n l u = ground arith

-- After the first digit, the others of the number are left out.
after :
    (c : ℕ) (card t : Text)
    → IsCard (c ∷ card)
    → no_digits t ≡ true
    → (scan_candidate ((c ∷ card) ++ t)).0 - 1 ≡ length card
unfolding IsCard
after c card t (d, l, u, k) n =
    ap (λ r. r.0 - 1) (scan_candidate-card (c ∷ card) t d n u) ∙ omega arith

scan_loop-card :
    (p q : ℕ) (card t : Text)
    → is_digit p ≡ false
    → is_digit q ≡ false
    → IsCard card
    → no_digits t ≡ true
    → scan_loop p q 0 (card ++ t) ≡ (placeholder ++ t, 1)
unfolding scan_loop IsCard
scan_loop-card p q [] t dp dq (d, l, u, k) n = absurd (omega (arith, l))
scan_loop-card p q (c ∷ card) t dp dq h n =
    rw
      (
        scan_loop,
        is_card-card p q c card t dp dq h n,
        after c card t h n,
        scan_loop-skips c p card t n,
      )
      refl

scan_loop-around :
    (p q : ℕ) (s card t : Text)
    → is_digit p ≡ false
    → is_digit q ≡ false
    → no_digits s ≡ true
    → IsCard card
    → no_digits t ≡ true
    → scan_loop p q 0 (s ++ card ++ t) ≡ (s ++ placeholder ++ t, 1)
unfolding scan_loop
scan_loop-around p q [] card t dp dq m h n = scan_loop-card p q card t dp dq h n
scan_loop-around p q (b ∷ s) card t dp dq m h n =
    let (db, ms) = head-no_digits b s m in
    rw
      (
        scan_loop,
        is_card-no_digit p q b (s ++ card ++ t) db,
        scan_loop-around b p s card t db dp ms h n,
      )
      refl

long_enough : (s card t : Text) → IsCard card → ltb (length (s ++ card ++ t)) 13 ≡ false
unfolding IsCard
long_enough s card t (d, l, u, k) =
    ground (arith, length-append (s ++ card) t, length-append s card)

-- A card number among text without digits, wherever it stands, is replaced by the placeholder, and
-- the text on both sides is stored as it was.
pub scan-card :
    (s card t : Text)
    → no_digits s ≡ true
    → IsCard card
    → no_digits t ≡ true
    → scan (s ++ card ++ t)
      ≡ record { body = s ++ placeholder ++ t; pans_found = 1; redacted = true }
unfolding scan
scan-card s card t m h n =
    rw (long_enough s card t h, scan_loop-around 0 0 s card t refl refl m h n) refl
