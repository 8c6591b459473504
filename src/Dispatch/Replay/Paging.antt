-- ===== src/Dispatch/Replay/Paging.antt =====
-- internal/dispatch/replay.go: the loop over the pages collects what one unlimited listing would, up to
-- the limit of a replay.
use status_hub.Prelude.{
  ℕ, zero, suc, ◌+◌, ◌≤◌, ◌<◌, ◌≡◌, refl, sym, ap, ◌∙◌, Bool, true, false, Option, some, List, [],
  ◌∷◌, ◌++◌, length, length-append, take, drop, ltb, leb, arith, Text, inl, inr, Bool-cases,
}
use status_hub.Domain.Event.{CanonicalEvent}
use status_hub.Dispatch.Replay.{collect, last_id, after_page, read_page, page_loop}

append-nil : (xs : List CanonicalEvent) → xs ++ [] ≡ xs
append-nil [] = refl
append-nil (x ∷ xs) = ap (λ l. x ∷ l) (append-nil xs)

append_assoc : (xs ys zs : List CanonicalEvent) → (xs ++ ys) ++ zs ≡ xs ++ (ys ++ zs)
append_assoc [] ys zs = refl
append_assoc (x ∷ xs) ys zs = ap (λ l. x ∷ l) (append_assoc xs ys zs)

take-all : (n : ℕ) (xs : List CanonicalEvent) → length xs ≤ n → take n xs ≡ xs
take-all zero [] h = refl
take-all zero (x ∷ xs) h = absurd (omega (arith, h))
take-all (suc n) [] h = refl
take-all (suc n) (x ∷ xs) h = ap (λ l. x ∷ l) (take-all n xs (omega (arith, h)))

take-append : (n : ℕ) (xs ys : List CanonicalEvent) → n ≤ length xs → take n (xs ++ ys) ≡ take n xs
take-append zero xs ys h = refl
take-append (suc n) [] ys h = absurd (omega (arith, h))
take-append (suc n) (x ∷ xs) ys h = ap (λ l. x ∷ l) (take-append n xs ys (omega (arith, h)))

pub take-drop : (n : ℕ) (xs : List CanonicalEvent) → take n xs ++ drop n xs ≡ xs
take-drop zero xs = refl
take-drop (suc n) [] = refl
take-drop (suc n) (x ∷ xs) = ap (λ l. x ∷ l) (take-drop n xs)

length-drop :
    (n : ℕ) (xs : List CanonicalEvent) → length xs ≡ length (take n xs) + length (drop n xs)
length-drop zero xs = omega arith
length-drop (suc n) [] = omega arith
length-drop (suc n) (x ∷ xs) = omega (arith, length-drop n xs)

length-take_full : (n : ℕ) (xs : List CanonicalEvent) → length (take n xs) < n → drop n xs ≡ []
length-take_full zero xs h = elim h [ ]
length-take_full (suc n) [] h = refl
length-take_full (suc n) (x ∷ xs) h = length-take_full n xs (omega (arith, h))

-- The first `cap` of a list, and whether there are more.
abbrev pub capped : ℕ → List CanonicalEvent → List CanonicalEvent × Bool
capped cap xs = (take cap xs, ltb cap (length xs))

capped-all : (cap : ℕ) (xs : List CanonicalEvent) → length xs ≤ cap → capped cap xs ≡ (xs, false)
capped-all cap xs h = rw (take-all cap xs h, short) refl
  where
    short : ltb cap (length xs) ≡ false
    short = ground arith

capped-cut :
    (cap : ℕ) (xs ys : List CanonicalEvent)
    → cap ≤ length xs
    → cap < length xs + length ys
    → capped cap (xs ++ ys) ≡ (take cap xs, true)
capped-cut cap xs ys h l = rw (take-append cap xs ys h, long) refl
  where
    long : ltb cap (length (xs ++ ys)) ≡ true
    long = ground (arith, length-append xs ys)

collect-capped :
    (cap : ℕ) (page out : List CanonicalEvent)
    → length out ≤ cap
    → collect cap out page ≡ capped cap (out ++ page)
unfolding collect
collect-capped cap [] out h = sym (ap (capped cap) (append-nil out) ∙ capped-all cap out h)
collect-capped cap (e ∷ page) out h = elim (Bool-cases (leb cap (length out))) [
  | inl p ↦
      rw (collect, p)
        (ap (λ l. (l, true)) (sym (take-all cap out h))
          ∙ sym (capped-cut cap out (e ∷ page) (ground arith) (ground arith)))
  | inr p ↦
      rw (collect, p)
        (collect-capped cap page (out ++ e ∷ []) (ground (arith, length-append out (e ∷ [])))
          ∙ ap (capped cap) (append_assoc out (e ∷ []) page))
]

-- A page is the beginning of what is listed after its cursor, and the id of the last event of a full
-- page is the cursor of the rest.
unfoldable pub IsPaged : ℕ → (Text → List CanonicalEvent) → (Text → List CanonicalEvent) → Type 0
IsPaged limit fetch all =
    (c : Text)
    → (fetch c ≡ take limit (all c))
      × (limit ≤ length (all c) → all (last_id (take limit (all c))) ≡ drop limit (all c))

module _ (cap limit : ℕ) (positive : 0 < limit) (fetch all : Text → List CanonicalEvent)
    (paged : IsPaged limit fetch all) where
  -- What is to be shown of the loop with `fuel` rounds.
  abbrev IsRest : ℕ → (Text → List CanonicalEvent → Option (List CanonicalEvent × Bool)) → Type 0
  IsRest fuel next =
      (c : Text) (out : List CanonicalEvent)
      → length (all c) < fuel
      → length out ≤ cap
      → next c out ≡ some (capped cap (out ++ all c))

  -- The rest of the listing is what follows the page.
  page_rest :
      (c : Text) (out page : List CanonicalEvent)
      → take limit (all c) ≡ page
      → (out ++ page) ++ drop limit (all c) ≡ out ++ all c
  page_rest c out page q =
      append_assoc out page (drop limit (all c))
      ∙ ap (λ l. out ++ l) (ap (λ l. l ++ drop limit (all c)) (sym q) ∙ take-drop limit (all c))

  short_page :
      (c : Text) (page : List CanonicalEvent)
      → take limit (all c) ≡ page
      → length page < limit
      → drop limit (all c) ≡ []
  short_page c page q l = length-take_full limit (all c) (omega (arith, ap length q, l))

  at_least : {n : ℕ} → ltb n limit ≡ false → limit ≤ n
  at_least {n} r = ground arith

  full_page :
      (c : Text) (page : List CanonicalEvent)
      → take limit (all c) ≡ page
      → limit ≤ length page
      → all (last_id page) ≡ drop limit (all c)
  unfolding IsPaged
  full_page c page q l =
      ap (λ p. all (last_id p)) (sym q)
      ∙ (paged c).1 (omega (arith, length-drop limit (all c), ap length q, l))

  after_page-capped :
      (fuel : ℕ) (next : Text → List CanonicalEvent → Option (List CanonicalEvent × Bool))
      → IsRest fuel next
      → (c : Text) (page out : List CanonicalEvent) → take limit (all c) ≡ page
      → length (all c) < suc fuel
      → length out ≤ cap
      → after_page limit page next (capped cap (out ++ page)) ≡ some (capped cap (out ++ all c))
  after_page-capped fuel next ih c page out q l h =
      elim (Bool-cases (ltb cap (length (out ++ page)))) [
        | inl p ↦ rw (p) (
            ap some (
              sym (capped-cut cap (out ++ page) (drop limit (all c)) (ground arith) (ground arith))
              ∙ ap (capped cap) (page_rest c out page q)))
        | inr p ↦ elim (Bool-cases (ltb (length page) limit)) [
          | inl r ↦
              rw (p, r)
                (ap (λ b. some (take cap (out ++ page), b)) (sym p)
                  ∙ ap (λ l. some (capped cap l))
                      (sym (append-nil (out ++ page))
                        ∙ ap (λ l. (out ++ page) ++ l) (sym (short_page c page q (ground arith)))
                        ∙ page_rest c out page q))
          | inr r ↦
              rw (p, r)
                (ap (next (last_id page)) (take-all cap (out ++ page) (ground arith))
                  ∙ ih (last_id page) (out ++ page)
                      (omega (
                        arith,
                        ap length (full_page c page q (ground arith)),
                        length-drop limit (all c),
                        ap length q,
                        at_least r,
                        positive,
                        l,
                      ))
                      (ground arith)
                  ∙ ap (λ m. some (capped cap ((out ++ page) ++ m)))
                      (full_page c page q (ground arith))
                  ∙ ap (λ l. some (capped cap l)) (page_rest c out page q))
        ]
      ]

  read_page-capped :
      (fuel : ℕ) (next : Text → List CanonicalEvent → Option (List CanonicalEvent × Bool))
      → IsRest fuel next
      → (c : Text) (page out : List CanonicalEvent) → take limit (all c) ≡ page
      → length (all c) < suc fuel
      → length out ≤ cap
      → read_page cap limit page next out ≡ some (capped cap (out ++ all c))
  read_page-capped fuel next ih c [] out q l h = ap some (
      sym (
        ap (capped cap) (
          sym (page_rest c out [] q)
          ∙ ap (λ m. (out ++ []) ++ m) (short_page c [] q positive)
          ∙ append-nil (out ++ [])
          ∙ append-nil out)
        ∙ capped-all cap out h))
  read_page-capped fuel next ih c (e ∷ page) out q l h =
      ap (after_page limit (e ∷ page) next) (collect-capped cap (e ∷ page) out h)
      ∙ after_page-capped fuel next ih c (e ∷ page) out q l h

  pub page_loop-capped : (fuel : ℕ) → IsRest fuel (page_loop cap limit fetch fuel)
  unfolding page_loop IsPaged
  page_loop-capped zero c out l h = elim l [ ]
  page_loop-capped (suc fuel) c out l h =
      read_page-capped fuel (page_loop cap limit fetch fuel) (page_loop-capped fuel) c (fetch c) out
        (sym (paged c).0) l h
