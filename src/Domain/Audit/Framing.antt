-- ===== src/Domain/Audit/Framing.antt =====
-- The framing of the hashed parts: no two lists of parts have the same frames.
use status_hub.Prelude.{
  ◌≢◌, ℕ, ◌≡◌, refl, sym, ap, ◌∙◌, ◌++◌, ◌∷◌, [], List, length, length-append, true, Text, decimal,
  arith,
}
use status_hub.Domain.Amount.{all_digits, is_digit, digits_value}
use status_hub.Domain.Amount.Digits.{decimal-Correct}
use status_hub.Domain.Audit.{frame, frames}

abbrev head_or : ℕ → Text → ℕ
head_or d [] = d
head_or d (c ∷ s) = c

abbrev tail : Text → Text
tail [] = []
tail (c ∷ s) = s

cons_path : {c d : ℕ} {s t : Text} → c ≡ d → s ≡ t → c ∷ s ≡ d ∷ t
cons_path h k = rw (h, k) refl

-- Digits up to a colon can be told from what follows it.
split_colon :
    (s t s' t' : Text)
    → all_digits s ≡ true
    → all_digits s' ≡ true
    → s ++ (58 ∷ t) ≡ s' ++ (58 ∷ t')
    → (s ≡ s') × (t ≡ t')
unfolding all_digits is_digit
split_colon [] t [] t' d d' h = (refl, ap tail h)
split_colon [] t (c ∷ s') t' d d' h = absurd (colon c (ap (head_or 0) h) d')
  where
    colon : (c : ℕ) → 58 ≡ c → all_digits (c ∷ s') ≡ true → ⊥
    colon c e d = ground arith
split_colon (c ∷ s) t [] t' d d' h = absurd (colon c (ap (head_or 0) h) d)
  where
    colon : (c : ℕ) → c ≡ 58 → all_digits (c ∷ s) ≡ true → ⊥
    colon c e d = ground arith
split_colon (c ∷ s) t (c' ∷ s') t' d d' h =
    let ih = split_colon s t s' t' (ground arith) (ground arith) (ap tail h) in
    (cons_path (ap (head_or 0) h) ih.0, ih.1)

split_length : (s t s' t' : Text) → length s ≡ length s' → s ++ t ≡ s' ++ t' → (s ≡ s') × (t ≡ t')
split_length [] t [] t' l h = (refl, h)
split_length [] t (c ∷ s') t' l h = absurd (omega (arith, l))
split_length (c ∷ s) t [] t' l h = absurd (omega (arith, l))
split_length (c ∷ s) t (c' ∷ s') t' l h =
    let ih = split_length s t s' t' (omega (arith, l)) (ap tail h) in
    (cons_path (ap (head_or 0) h) ih.0, ih.1)

decimal_injective : (m n : ℕ) → decimal m ≡ decimal n → m ≡ n
decimal_injective m n h = sym (decimal-Correct m).2 ∙ ap (digits_value 0) h ∙ (decimal-Correct n).2

append_assoc : (s t u : Text) → (s ++ t) ++ u ≡ s ++ (t ++ u)
append_assoc [] t u = refl
append_assoc (c ∷ s) t u = ap (λ v. c ∷ v) (append_assoc s t u)

-- What a frame begins with, and what follows it.
frame-append : (p rest : Text) → frame p ++ rest ≡ decimal (length p) ++ (58 ∷ (p ++ (124 ∷ rest)))
unfolding frame
frame-append p rest =
    append_assoc (decimal (length p)) (58 ∷ p ++ 124 ∷ []) rest
    ∙ ap (λ t. decimal (length p) ++ (58 ∷ t)) (append_assoc p (124 ∷ []) rest)

frame_injective : (p q s t : Text) → frame p ++ s ≡ frame q ++ t → (p ≡ q) × (s ≡ t)
frame_injective p q s t h =
    let (l, r) =
      split_colon (decimal (length p)) (p ++ (124 ∷ s)) (decimal (length q)) (q ++ (124 ∷ t))
        (decimal-Correct (length p)).1 (decimal-Correct (length q)).1
        (sym (frame-append p s) ∙ h ∙ frame-append q t) in
    let (e, u) =
      split_length p (124 ∷ s) q (124 ∷ t) (decimal_injective (length p) (length q) l) r in
    (e, ap tail u)

frame-ne_nil : (p rest : Text) → frame p ++ rest ≡ [] → ⊥
frame-ne_nil p rest h = absurd (
    omega (
      arith,
      (decimal-Correct (length p)).0,
      length-append (decimal (length p)) (58 ∷ (p ++ (124 ∷ rest))),
      ap length (sym (frame-append p rest) ∙ h),
    ))

pub frames_injective : (ps qs : List Text) → frames ps ≡ frames qs → ps ≡ qs
unfolding frames
frames_injective [] [] h = refl
frames_injective [] (q ∷ qs) h = absurd (frame-ne_nil q (frames qs) (sym h))
frames_injective (p ∷ ps) [] h = absurd (frame-ne_nil p (frames ps) h)
frames_injective (p ∷ ps) (q ∷ qs) h =
    let (e, r) = frame_injective p q (frames ps) (frames qs) h in
    cons_text e (frames_injective ps qs r)
  where
    cons_text : {qs' : List Text} → p ≡ q → ps ≡ qs' → p ∷ ps ≡ q ∷ qs'
    cons_text h k = rw (h, k) refl

-- Different lists of parts have different frames: nothing can be moved from one part into the next
-- without a trace, whatever bytes the parts hold.
pub frames_distinct : (ps qs : List Text) → ps ≢ qs → frames ps ≢ frames qs
frames_distinct ps qs differ e = differ (frames_injective ps qs e)
