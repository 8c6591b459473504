-- ===== src/Idempotency/Calls.antt =====
-- What a claimed key survives.
use status_hub.Prelude.{
  ℕ, ◌+◌, ◌-◌, ◌≤◌, ◌<◌, ◌≡◌, ◌≢◌, refl, ap, ◌∙◌, true, false, ◌∷◌, [], List, none, some, inl, inr,
  Bool-cases, Option-cases, All, arith, ltb, Text, text_Eq, text_eq, text_eq_iff, lookup, delete,
  lookup-insert, lookup-delete, lookup-insert_self,
}
use status_hub.Idempotency.{
  IdempotencyRecord, Records, idempotency_window, idempotency_key, record_key, claim, begin,
  completed, complete, abandon, sweep_loop, sweep, kept_or,
}

-- A call on the store of keys.
pub data Call : Type 0 where
  begin_call : ℕ → IdempotencyRecord → Call
  complete_call : Text → Text → ℕ → Text → Call
  abandon_call : Text → Text → Call
  sweep_call : ℕ → Call

abbrev pub apply_call : Call → Records → Records
apply_call (begin_call now r) s = (begin now r s).0
apply_call (complete_call key tenant_id status body) s =
    kept_or s (complete key tenant_id status body s)
apply_call (abandon_call key tenant_id) s = abandon key tenant_id s
apply_call (sweep_call now) s = (sweep now s).0

abbrev pub apply_calls : List Call → Records → Records
apply_calls [] s = s
apply_calls (call ∷ calls) s = apply_calls calls (apply_call call s)

-- A call within the window after `t`, that neither completes nor abandons the key.
abbrev pub Spares : Text → ℕ → Call → Type 0
Spares k t (begin_call now r) = now < t + idempotency_window
Spares k t (complete_call key tenant_id _ _) = idempotency_key tenant_id key ≢ k
Spares k t (abandon_call key tenant_id) = idempotency_key tenant_id key ≢ k
Spares k t (sweep_call now) = now ≤ t + idempotency_window

differ : {a b : Text} → a ≢ b → text_eq a b ≡ false
differ {a} {b} h = elim (Bool-cases (text_eq a b)) [
  | inl p ↦ absurd (h ((text_eq_iff a b).0 p))
  | inr p ↦ p
]

pub remembered :
    (now t : ℕ) → now < t + idempotency_window → ltb (now - t) idempotency_window ≡ true
remembered now t h = ground (arith, h)

not_before : (now t : ℕ) → now ≤ t + idempotency_window → ltb t (now - idempotency_window) ≡ false
not_before now t h = ground (arith, h)

module _ (k : Text) (x : IdempotencyRecord) where
  -- The key has the record.
  abbrev Holds : Records → Type 0
  Holds s = lookup k s ≡ some x

  begin-held :
      (now : ℕ) (r : IdempotencyRecord) (s : Records)
      → now < x.created_at + idempotency_window
      → Holds s
      → Holds (begin now r s).0
  unfolding begin
  begin-held now r s h held = elim (Bool-cases (text_eq (record_key r) k)) [
    | inl same ↦
        (let e : lookup (record_key r) s ≡ some x =
            ap (λ j. lookup j s) ((text_eq_iff (record_key r) k).0 same) ∙ held in
          rw (begin, e, remembered now x.created_at h) held)
    | inr other ↦ elim (Option-cases (lookup (record_key r) s)) [
      | inl p ↦ rw (begin, p, lookup-insert (record_key r) k (claim now r) s, other) held
      | inr (existing, p) ↦ elim (Bool-cases (ltb (now - existing.created_at) idempotency_window)) [
        | inl q ↦ rw (begin, p, q) held
        | inr q ↦
            rw
              (
                begin,
                p,
                q,
                lookup-insert (record_key r) k (claim now r) (delete (record_key r) s),
                lookup-delete (record_key r) k s,
                other,
              )
              held
      ]
    ]
  ]

  complete-held :
      (key tenant_id : Text) (status : ℕ) (body : Text) (s : Records)
      → idempotency_key tenant_id key ≢ k
      → Holds s
      → Holds (kept_or s (complete key tenant_id status body s))
  unfolding complete
  complete-held key tenant_id status body s h held =
      elim (Option-cases (lookup (idempotency_key tenant_id key) s)) [
        | inl p ↦ rw (complete, p) held
        | inr (r, p) ↦
            rw
              (
                complete,
                p,
                lookup-insert (idempotency_key tenant_id key) k (completed status body r) s,
                differ h,
              )
              held
      ]

  abandon-held :
      (key tenant_id : Text) (s : Records)
      → idempotency_key tenant_id key ≢ k
      → Holds s
      → Holds (abandon key tenant_id s)
  unfolding abandon
  abandon-held key tenant_id s h held =
      rw (lookup-delete (idempotency_key tenant_id key) k s, differ h) held

  sweep_loop-held :
      (cutoff : ℕ) (s : Records)
      → ltb x.created_at cutoff ≡ false
      → Holds s
      → Holds (sweep_loop cutoff s).0
  unfolding sweep_loop lookup
  sweep_loop-held cutoff [] h held = held
  sweep_loop-held cutoff ((j, r) ∷ s) h held = ground (arith, sweep_loop-held cutoff s h)

  apply_call-held :
      (call : Call) (s : Records) → Spares k x.created_at call → Holds s → Holds (apply_call call s)
  unfolding sweep
  apply_call-held (begin_call now r) s h held = begin-held now r s h held
  apply_call-held (complete_call key tenant_id status body) s h held =
      complete-held key tenant_id status body s h held
  apply_call-held (abandon_call key tenant_id) s h held = abandon-held key tenant_id s h held
  apply_call-held (sweep_call now) s h held =
      sweep_loop-held (now - idempotency_window) s (not_before now x.created_at h) held

  pub apply_calls-held :
      (calls : List Call) (s : Records)
      → All (Spares k x.created_at) calls
      → Holds s
      → Holds (apply_calls calls s)
  apply_calls-held [] s h held = held
  apply_calls-held (call ∷ calls) s h held =
      apply_calls-held calls (apply_call call s) h.1 (apply_call-held call s h.0 held)

pub begin-claims :
    (now : ℕ) (r : IdempotencyRecord) (s : Records)
    → (begin now r s).1 ≡ none
    → lookup (record_key r) (begin now r s).0 ≡ some (claim now r)
unfolding begin
begin-claims now r s h = elim (Option-cases (lookup (record_key r) s)) [
  | inl p ↦ rw (begin, p) (lookup-insert_self (record_key r) (claim now r) s)
  | inr (existing, p) ↦ elim (Bool-cases (ltb (now - existing.created_at) idempotency_window)) [
    | inl q ↦ absurd (clash (rw (begin, p, q) at h))
    | inr q ↦
        rw (begin, p, q) (lookup-insert_self (record_key r) (claim now r) (delete (record_key r) s))
  ]
]
  where
    clash : {y : IdempotencyRecord} → some y ≡ none → ⊥
    clash e = cc

-- Once a key is claimed, no second claim of it succeeds within the window, whatever is called in
-- between, unless the claim is completed or abandoned: each attempt gets the first claim, which is in
-- flight, and leaves the store as it is.
pub begin-IsExclusive :
    (now later : ℕ) (r again : IdempotencyRecord) (calls : List Call) (s : Records)
    → (begin now r s).1 ≡ none
    → record_key again ≡ record_key r
    → All (Spares (record_key r) now) calls
    → later < now + idempotency_window
    → begin later again (apply_calls calls (begin now r s).0)
      ≡ (apply_calls calls (begin now r s).0, some (claim now r))
unfolding begin claim
begin-IsExclusive now later r again calls s first same spared soon =
    let held =
      apply_calls-held (record_key r) (claim now r) calls (begin now r s).0 spared
        (begin-claims now r s first) in
    rw
      (
        begin,
        ap (λ j. lookup j (apply_calls calls (begin now r s).0)) same ∙ held,
        remembered later now soon,
      )
      refl
