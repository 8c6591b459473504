-- ===== src/Dispatch/Replay/Complete.antt =====
-- internal/dispatch/replay.go and internal/store/memory.go: what the pages of a filter amount to, when ids
-- descend along the listing, as ids that begin with their time do.
use mathlib.Core.Path.{subst}
use status_hub.Prelude.{
  ℕ, zero, suc, ◌+◌, ◌≤◌, ◌<◌, ◌≡◌, refl, sym, ap, ◌∙◌, Bool, true, false, not, ◌&&◌, List, [], ◌∷◌,
  All, All-map, All-of, length, take, drop, filter, Option, none, some, ltb, if◌then◌else◌, ◌==◌,
  arith, Text, text_eq, text_Eq, text_ltb, inl, inr, Bool-cases, lookup, pos, ℤ, zero, negsuc,
}
use status_hub.Domain.Event.{CanonicalEvent}
use status_hub.Store.Memory.{Memory}
use status_hub.Store.Events.{
  EventQuery, reverse_onto, matches_query, is_listed, query_loop, query_events, page_limit,
}
use status_hub.Dispatch.Replay.{last_id, page_size, filtered_events, max_bulk_replay}
use status_hub.Dispatch.Replay.Paging.{IsPaged, capped, page_loop-capped}

text_ltb-irreflexive : (s : Text) → text_ltb s s ≡ false
unfolding text_ltb
text_ltb-irreflexive [] = refl
text_ltb-irreflexive (x ∷ s) = ground (arith, text_ltb-irreflexive s)

text_ltb_trans : (s t u : Text) → text_ltb s t ≡ true → text_ltb t u ≡ true → text_ltb s u ≡ true
unfolding text_ltb
text_ltb_trans [] [] u h k = ground arith
text_ltb_trans [] (y ∷ t) [] h k = ground arith
text_ltb_trans [] (y ∷ t) (z ∷ u) h k = refl
text_ltb_trans (x ∷ s) [] u h k = ground arith
text_ltb_trans (x ∷ s) (y ∷ t) [] h k = ground arith
text_ltb_trans (x ∷ s) (y ∷ t) (z ∷ u) h k = ground (arith, text_ltb_trans s t u)

text_ltb-asymmetric : (s t : Text) → text_ltb s t ≡ true → text_ltb t s ≡ false
text_ltb-asymmetric s t h = elim (Bool-cases (text_ltb t s)) [
  | inr p ↦ p
  | inl p ↦ absurd (wrong (sym (text_ltb_trans s t s h p) ∙ text_ltb-irreflexive s))
]
  where
    wrong : true ≡ false → ⊥
    wrong k = cc

-- What comes later in the listing than an event with the id `a`.
abbrev IsBelow : Text → CanonicalEvent → Type 0
IsBelow a e = (text_ltb e.id a ≡ true) × (text_eq e.id [] ≡ false)

-- Every id is below those before it, and none is empty.
unfoldable pub IsDescending : List CanonicalEvent → Type 0
IsDescending [] = Unit
IsDescending (e ∷ es) = (text_eq e.id [] ≡ false) × All (IsBelow e.id) es × IsDescending es

-- The part of the test that reads the cursor.
abbrev after : Text → CanonicalEvent → Bool
after c e = not (not (text_eq c []) && not (text_ltb e.id c))

last_id-take :
    (P : Text → Type 0) (es : List CanonicalEvent) (k : ℕ)
    → All (λ e. P e.id) es
    → 0 < length es
    → P (last_id (take (suc k) es))
last_id-take P [] k h l = elim l [ ]
last_id-take P (e ∷ []) zero h l = h.0
last_id-take P (e ∷ []) (suc k) h l = h.0
last_id-take P (e ∷ f ∷ es) zero h l = h.0
last_id-take P (e ∷ f ∷ es) (suc k) h l = last_id-take P (f ∷ es) k h.1 (omega arith)

last_id-cons :
    (e : CanonicalEvent) (k : ℕ) (es : List CanonicalEvent)
    → 0 < length es
    → last_id (e ∷ take (suc k) es) ≡ last_id (take (suc k) es)
last_id-cons e k [] l = elim l [ ]
last_id-cons e k (f ∷ es) l = refl

All-filter :
    (P : CanonicalEvent → Type 0) (g : CanonicalEvent → Bool) (es : List CanonicalEvent)
    → All P es
    → All P (filter g es)
unfolding filter
All-filter P g [] h = tt
All-filter P g (e ∷ es) h = kept (g e) (All-filter P g es h.1)
  where
    kept : (b : Bool) → All P (filter g es) → All P (if b then e ∷ filter g es else filter g es)
    kept true ih = (h.0, ih)
    kept false ih = ih

filter-same :
    (g k : CanonicalEvent → Bool) (es : List CanonicalEvent)
    → All (λ e. g e ≡ k e) es
    → filter g es ≡ filter k es
unfolding filter
filter-same g k [] h = refl
filter-same g k (e ∷ es) h = rw (h.0, filter-same g k es h.1) refl

module _ (keep : CanonicalEvent → Bool) where
  abbrev listed : Text → List CanonicalEvent → List CanonicalEvent
  listed c = filter (λ e. keep e && after c e)

  not_after :
      (x : Text) (e : CanonicalEvent)
      → text_ltb x e.id ≡ true
      → text_eq x [] ≡ false
      → (keep e && after x e) ≡ false
  not_after x e h n = rw (n, text_ltb-asymmetric x e.id h) (off (keep e))
    where
      off : (b : Bool) → (b && false) ≡ false
      off true = refl
      off false = refl

  below-after :
      (c : Text) (e f : CanonicalEvent)
      → after c e ≡ true
      → text_ltb f.id e.id ≡ true
      → after c f ≡ true
  below-after c e f h k = ground (arith, text_ltb_trans f.id e.id c)

  not_itself : (e : CanonicalEvent) → text_eq e.id [] ≡ false → (keep e && after e.id e) ≡ false
  not_itself e n = rw (n, text_ltb-irreflexive e.id) (off (keep e))
    where
      off : (b : Bool) → (b && false) ≡ false
      off true = refl
      off false = refl

  same_test :
      (c : Text) (e f : CanonicalEvent)
      → (keep e && after c e) ≡ true
      → text_eq e.id [] ≡ false
      → IsBelow e.id f
      → (keep f && after e.id f) ≡ (keep f && after c f)
  same_test c e f p n below =
      ap (λ b. keep f && b)
        (own (text_eq e.id []) (text_ltb f.id e.id) below.0
          ∙ sym (below-after c e f (second_true (keep e) p) below.0))
    where
      own : (a b : Bool) → b ≡ true → not (not a && not b) ≡ true
      own a b h = ground arith

      second_true : (a : Bool) {b : Bool} → (a && b) ≡ true → b ≡ true
      second_true true h = h
      second_true false {b} h = ground arith

  listed-skip :
      (c : Text) (e : CanonicalEvent) (es : List CanonicalEvent)
      → (keep e && after c e) ≡ false
      → listed c (e ∷ es) ≡ listed c es
  unfolding filter
  listed-skip c e es h = rw (h) refl

  listed-keep :
      (c : Text) (e : CanonicalEvent) (es : List CanonicalEvent)
      → (keep e && after c e) ≡ true
      → listed c (e ∷ es) ≡ e ∷ listed c es
  unfolding filter
  listed-keep c e es h = rw (h) refl

  abbrev IsRest : List CanonicalEvent → ℕ → List CanonicalEvent → Type 0
  IsRest es k page_source =
      listed (last_id (take (suc k) page_source)) es ≡ drop (suc k) page_source

  -- The last event of a page lies below an event that comes before the page.
  skipped_before :
      (c : Text) (e : CanonicalEvent) (es : List CanonicalEvent) (k : ℕ)
      → All (IsBelow e.id) es
      → suc k ≤ length (listed c es)
      → let x = last_id (take (suc k) (listed c es)) in listed x (e ∷ es) ≡ listed x es
  skipped_before c e es k d l =
      let below =
        last_id-take (λ x. (text_ltb x e.id ≡ true) × (text_eq x [] ≡ false)) (listed c es) k
          (All-filter (IsBelow e.id) (λ f. keep f && after c f) es d) (omega (arith, l)) in
      listed-skip (last_id (take (suc k) (listed c es))) e es
        (not_after (last_id (take (suc k) (listed c es))) e below.0 below.1)

  kept-IsRest :
      (c : Text) (e : CanonicalEvent) (es : List CanonicalEvent) (k : ℕ)
      → (keep e && after c e) ≡ true
      → text_eq e.id [] ≡ false
      → All (IsBelow e.id) es
      → ((j : ℕ) → suc j ≤ length (listed c es) → IsRest es j (listed c es))
      → suc k ≤ suc (length (listed c es))
      → IsRest (e ∷ es) k (e ∷ listed c es)
  kept-IsRest c e es zero p n d ih l =
      listed-skip e.id e es (not_itself e n)
      ∙ filter-same (λ f. keep f && after e.id f) (λ f. keep f && after c f) es
          (All-map (λ f below. same_test c e f p n below) es d)
  kept-IsRest c e es (suc k) p n d ih l =
      let left : suc k ≤ length (listed c es) = omega (arith, l) in
      ap (λ x. listed x (e ∷ es)) (last_id-cons e k (listed c es) (omega (arith, left)))
      ∙ skipped_before c e es k d left
      ∙ ih k left

  -- After a full page, the listing goes on with what the page left.
  listed-IsRest :
      (es : List CanonicalEvent) (c : Text) (k : ℕ)
      → IsDescending es
      → suc k ≤ length (listed c es)
      → IsRest es k (listed c es)
  unfolding IsDescending
  listed-IsRest [] c k d l = absurd (unfold filter in (elim l [ ]))
  listed-IsRest (e ∷ es) c k d l = elim (Bool-cases (keep e && after c e)) [
    | inr p ↦
        (let same = listed-skip c e es p in
          let less : suc k ≤ length (listed c es) = omega (arith, l, ap length same) in
          subst (IsRest (e ∷ es) k) (sym same)
            (skipped_before c e es k d.1 less ∙ listed-IsRest es c k d.2 less))
    | inl p ↦
        (let same = listed-keep c e es p in
          subst (IsRest (e ∷ es) k) (sym same) (
            kept-IsRest c e es k p d.0 d.1 (λ j. listed-IsRest es c j d.2)
              (omega (arith, l, ap length same))))
  ]

abbrev add_found : Option CanonicalEvent → List CanonicalEvent → List CanonicalEvent
add_found none es = es
add_found (some e) es = e ∷ es

-- The events of the ids, as far as the store has them.
unfoldable pub events_of : Memory → List Text → List CanonicalEvent
events_of m [] = []
events_of m (id ∷ ids) = add_found (lookup id m.events) (events_of m ids)

-- The events from the newest on.
unfoldable pub newest_first : Memory → List CanonicalEvent
newest_first m = events_of m (reverse_onto [] m.event_list)

query_loop-filter :
    (tenant_id : Text) (q : EventQuery) (m : Memory) (n : ℕ) (ids : List Text)
    → query_loop tenant_id q m n ids ≡ take n (filter (is_listed tenant_id q) (events_of m ids))
unfolding query_loop events_of filter
query_loop-filter tenant_id q m zero ids = refl
query_loop-filter tenant_id q m (suc n) [] = refl
query_loop-filter tenant_id q m (suc n) (id ∷ ids) =
    found (query_loop-filter tenant_id q m n ids) (query_loop-filter tenant_id q m (suc n) ids)
      (lookup id m.events)
  where
    Rest : ℕ → Type 0
    Rest k =
        query_loop tenant_id q m k ids ≡ take k (filter (is_listed tenant_id q) (events_of m ids))

    tested :
        (less : Rest n) (same : Rest (suc n)) (e : CanonicalEvent) (b : Bool)
        → (if b then e ∷ query_loop tenant_id q m n ids else query_loop tenant_id q m (suc n) ids)
          ≡ take (suc n) (
              if b
              then e ∷ filter (is_listed tenant_id q) (events_of m ids)
              else filter (is_listed tenant_id q) (events_of m ids))
    tested less same e true = ap (λ l. e ∷ l) less
    tested less same e false = same

    found :
        (less : Rest n) (same : Rest (suc n)) (o : Option CanonicalEvent)
        → (elim o [
          | none ↦ query_loop tenant_id q m (suc n) ids
          | some e ↦
              if is_listed tenant_id q e
              then e ∷ query_loop tenant_id q m n ids
              else query_loop tenant_id q m (suc n) ids
        ])
          ≡ take (suc n) (filter (is_listed tenant_id q) (add_found o (events_of m ids)))
    found less same none = same
    found less same (some e) = tested less same e (is_listed tenant_id q e)

-- What of the test does not read the cursor.
abbrev selects : Text → EventQuery → CanonicalEvent → Bool
selects tenant_id q e = (e.tenant_id == tenant_id) && matches_query e q

is_listed-after :
    (tenant_id : Text) (q : EventQuery) (c : Text) (l : ℤ) (e : CanonicalEvent)
    → is_listed tenant_id (record q { cursor = c; limit = l }) e
      ≡ (selects tenant_id q e && after c e)
unfolding is_listed matches_query
is_listed-after tenant_id q c l e = refl

length-filter :
    (g : CanonicalEvent → Bool) (es : List CanonicalEvent) → length (filter g es) ≤ length es
unfolding filter
length-filter g [] = omega arith
length-filter g (e ∷ es) = kept (length-filter g es) (g e)
  where
    kept :
        length (filter g es) ≤ length es
        → (b : Bool) → length (if b then e ∷ filter g es else filter g es) ≤ suc (length es)
    kept ih true = omega (arith, ih)
    kept ih false = omega (arith, ih)

length-events_of : (m : Memory) (ids : List Text) → length (events_of m ids) ≤ length ids
unfolding events_of
length-events_of m [] = omega arith
length-events_of m (id ∷ ids) = found (length-events_of m ids) (lookup id m.events)
  where
    found :
        length (events_of m ids) ≤ length ids
        → (o : Option CanonicalEvent) → length (add_found o (events_of m ids)) ≤ suc (length ids)
    found ih none = omega (arith, ih)
    found ih (some e) = omega (arith, ih)

length-reverse_onto :
    (acc ids : List Text) → length (reverse_onto acc ids) ≡ length acc + length ids
length-reverse_onto acc [] = omega arith
length-reverse_onto acc (id ∷ ids) = omega (arith, length-reverse_onto (id ∷ acc) ids)

length-newest_first : (m : Memory) → length (newest_first m) ≤ length m.event_list
unfolding newest_first
length-newest_first m =
    omega (
      arith,
      length-events_of m (reverse_onto [] m.event_list),
      length-reverse_onto [] m.event_list,
    )

page_size-allowed : (l : ℤ) → (page_limit (pos (page_size l)) ≡ page_size l) × (0 < page_size l)
page_size-allowed (pos zero) = (refl, omega arith)
page_size-allowed (pos (suc n)) = elim (Bool-cases (ltb 500 (suc n))) [
  | inl p ↦ rw (p) (refl, omega arith)
  | inr p ↦ rw (p, p) (refl, omega arith)
]
page_size-allowed (negsuc n) = (refl, omega arith)

module _ (tenant_id : Text) (q : EventQuery) (m : Memory) where
  abbrev size : ℕ
  size = page_size q.limit

  -- What one listing without a limit would give after a cursor.
  abbrev listing : Text → List CanonicalEvent
  listing c = listed (selects tenant_id q) c (newest_first m)

  query_events-listing :
      (c : Text)
      → query_events tenant_id (record q { cursor = c; limit = pos size }) m ≡ take size (listing c)
  unfolding query_events newest_first
  query_events-listing c =
      query_loop-filter tenant_id (record q { cursor = c; limit = pos size }) m
        (page_limit (pos size)) (reverse_onto [] m.event_list)
      ∙ ap
          (λ n. take n (
            filter (is_listed tenant_id (record q { cursor = c; limit = pos size }))
              (newest_first m)))
          (page_size-allowed q.limit).0
      ∙ ap (take size) (
          filter-same (is_listed tenant_id (record q { cursor = c; limit = pos size }))
            (λ e. selects tenant_id q e && after c e) (newest_first m)
            (All-of (is_listed-after tenant_id q c (pos size)) (newest_first m)))

  listing-IsPaged :
      IsDescending (newest_first m)
      → IsPaged size
          (λ c. query_events tenant_id (record q { cursor = c; limit = pos size }) m)
          listing
  unfolding IsPaged
  listing-IsPaged d c = (query_events-listing c, rest size (page_size-allowed q.limit).1)
    where
      rest :
          (n : ℕ)
          → 0 < n
          → n ≤ length (listing c)
          → listing (last_id (take n (listing c))) ≡ drop n (listing c)
      rest zero z l = elim z [ ]
      rest (suc k) z l = listed-IsRest (selects tenant_id q) (newest_first m) c k d l

  -- Where the ids of the stored events descend from the newest on, the loop over the pages of a replay
  -- by filter ends within one round for each stored event and one more. The pages are then together
  -- the first ten thousand events that a single listing without a limit would give, and the result is
  -- marked as truncated exactly where that listing has more.
  pub filtered_events-capped :
      IsDescending (newest_first m)
      → filtered_events tenant_id q m
        ≡ some (capped max_bulk_replay (filter (is_listed tenant_id q) (newest_first m)))
  unfolding filtered_events
  filtered_events-capped d =
      page_loop-capped max_bulk_replay size (page_size-allowed q.limit).1
        (λ c. query_events tenant_id (record q { cursor = c; limit = pos size }) m) listing
        (listing-IsPaged d) (suc (length m.event_list)) q.cursor []
        (omega (
          arith,
          length-filter (λ e. selects tenant_id q e && after q.cursor e) (newest_first m),
          length-newest_first m,
        ))
        (omega arith)
      ∙ ap (λ l. some (capped max_bulk_replay l))
          (sym (
            filter-same (is_listed tenant_id q) (λ e. selects tenant_id q e && after q.cursor e)
              (newest_first m)
              (All-of (is_listed-after tenant_id q q.cursor q.limit) (newest_first m))))
