-- ===== src/Auth/Revoked.antt =====
-- internal/auth/store.go: what the store keeps of a key that was revoked.
use mathlib.Core.Path.{subst}
use status_hub.Prelude.{
  ℕ, ◌≡◌, ◌≢◌, refl, sym, ap, ◌∙◌, Bool, true, false, List, [], ◌∷◌, Option, none, some, ◌⊎◌, inl,
  inr, Option-cases, if◌then◌else◌, Text, text_Eq, text_eq, text_eq_iff, arith, lookup, insert,
  lookup-insert, lookup-insert_self, ◌==◌, split_on,
}
use status_hub.Store.Memory.{Memory}
use status_hub.Auth.{
  AuthError, Crypto, Identity, Key, KeyStore, key_not_found, new_key_store, put_key, revoke_key,
  touch_key, get_key_by_prefix, key_or_zero, key_at, verify_secret, authenticate,
}
use status_hub.Auth.Checked.{IsChecked, authenticate-IsChecked}

-- A call of the store that changes it, with what it is given.
pub data KeyCall : Type 0 where
  put : Key → KeyCall
  revoke : Text → Text → ℕ → KeyCall
  touch : Text → ℕ → KeyCall

abbrev kept : KeyStore → AuthError ⊎ KeyStore → KeyStore
kept s (inl _) = s
kept s (inr s') = s'

abbrev step : KeyCall → KeyStore → KeyStore
step (put k) s = kept s (put_key k s)
step (revoke tenant_id id at) s = kept s (revoke_key tenant_id id at s)
step (touch id at) s = kept s (touch_key id at s)

unfoldable pub run : List KeyCall → KeyStore → KeyStore
run [] s = s
run (call ∷ calls) s = run calls (step call s)

-- The calls put no other key under the id, and revoke at a time.
unfoldable pub Respects : Text → List KeyCall → Type 0
Respects id [] = Unit
Respects id (put k ∷ calls) = (k.id ≢ id) × Respects id calls
Respects id (revoke _ _ at ∷ calls) = (at ≢ 0) × Respects id calls
Respects id (touch _ _ ∷ calls) = Respects id calls

-- Every key stands under its own id.
unfoldable pub IsKeyed : KeyStore → Type 0
IsKeyed s = (id : Text) (k : Key) → lookup id s.by_id ≡ some k → k.id ≡ id

-- The store has the key, and it is revoked.
unfoldable pub HasRevoked : Text → KeyStore → Type 0
HasRevoked id s = (k : Key) × (lookup id s.by_id ≡ some k) × (k.revoked_at ≢ 0)

given : {k q : Key} → some k ≡ some q → k ≡ q
given {k} {q} h = cc

nothing : {k : Key} → none ≡ some k → ⊥
nothing {k} h = cc

inserted-IsKeyed :
    (id : Text) (new : Key) (s s' : KeyStore)
    → new.id ≡ id
    → s'.by_id ≡ insert id new s.by_id
    → IsKeyed s
    → IsKeyed s'
unfolding IsKeyed
inserted-IsKeyed id new s s' own q h j k found =
    chosen (text_eq id j) refl (sym (ap (lookup j) q ∙ lookup-insert id j new s.by_id) ∙ found)
  where
    chosen :
        (b : Bool)
        → text_eq id j ≡ b
        → (if b then some new else lookup j s.by_id) ≡ some k
        → k.id ≡ j
    chosen true p f = ap (λ u. u.id) (sym (given f)) ∙ own ∙ (text_eq_iff id j).0 p
    chosen false p f = h j k f

inserted-HasRevoked :
    (id key_id : Text) (new : Key) (s s' : KeyStore)
    → (key_id ≡ id → new.revoked_at ≢ 0)
    → s'.by_id ≡ insert key_id new s.by_id
    → HasRevoked id s
    → HasRevoked id s'
unfolding HasRevoked
inserted-HasRevoked id key_id new s s' still q (k, found, revoked) =
    chosen (text_eq key_id id) refl (ap (lookup id) q ∙ lookup-insert key_id id new s.by_id)
  where
    chosen :
        (b : Bool)
        → text_eq key_id id ≡ b
        → lookup id s'.by_id ≡ (if b then some new else lookup id s.by_id)
        → (k : Key) × (lookup id s'.by_id ≡ some k) × (k.revoked_at ≢ 0)
    chosen true p f = (new, f, still ((text_eq_iff key_id id).0 p))
    chosen false p f = (k, f ∙ found, revoked)

step-IsKeyed : (call : KeyCall) (s : KeyStore) → IsKeyed s → IsKeyed (step call s)
unfolding put_key revoke_key touch_key
step-IsKeyed (put k) s h = elim (Option-cases (lookup k.prefix s.by_prefix)) [
  | inr (_, p) ↦ rw (put_key, p) h
  | inl p ↦ rw (put_key, p) (inserted-IsKeyed k.id k s _ refl refl h)
]
step-IsKeyed (revoke tenant_id id at) s h = elim (Option-cases (lookup id s.by_id)) [
  | inl p ↦ rw (revoke_key, p) h
  | inr (k, p) ↦ rw (revoke_key, p) (own (k.tenant_id == tenant_id) k (unfold IsKeyed in h id k p))
]
  where
    own :
        (b : Bool) (k : Key)
        → k.id ≡ id
        → IsKeyed (
            kept s (
              if b
              then inr (record s { by_id = insert id (record k { revoked_at = at }) s.by_id })
              else inl key_not_found))
    own true k q = inserted-IsKeyed id (record k { revoked_at = at }) s _ q refl h
    own false k q = h
step-IsKeyed (touch id at) s h = elim (Option-cases (lookup id s.by_id)) [
  | inl p ↦ rw (touch_key, p) h
  | inr (k, p) ↦
      rw (touch_key, p)
        (inserted-IsKeyed id (record k { last_used = at }) s _ (unfold IsKeyed in h id k p) refl h)
]

still_revoked :
    (id key_id : Text) (k : Key) (s : KeyStore)
    → lookup key_id s.by_id ≡ some k
    → HasRevoked id s
    → key_id ≡ id
    → k.revoked_at ≢ 0
unfolding HasRevoked
still_revoked id key_id k s p (u, found, revoked) q z =
    revoked
      (ap (λ v. v.revoked_at) (given (sym found ∙ ap (λ t. lookup t s.by_id) (sym q) ∙ p)) ∙ z)

step-HasRevoked :
    (id : Text) (call : KeyCall) (s : KeyStore)
    → Respects id (call ∷ [])
    → HasRevoked id s
    → HasRevoked id (step call s)
unfolding put_key revoke_key touch_key Respects
step-HasRevoked id (put k) s r h = elim (Option-cases (lookup k.prefix s.by_prefix)) [
  | inr (_, p) ↦ rw (put_key, p) h
  | inl p ↦ rw (put_key, p) (inserted-HasRevoked id k.id k s _ (λ q. absurd (r.0 q)) refl h)
]
step-HasRevoked id (revoke tenant_id key_id at) s r h =
    elim (Option-cases (lookup key_id s.by_id)) [
      | inl p ↦ rw (revoke_key, p) h
      | inr (k, p) ↦ rw (revoke_key, p) (own (k.tenant_id == tenant_id) k)
    ]
  where
    own :
        (b : Bool) (k : Key)
        → HasRevoked id (
            kept s (
              if b
              then inr (record s { by_id = insert key_id (record k { revoked_at = at }) s.by_id })
              else inl key_not_found))
    own true k = inserted-HasRevoked id key_id (record k { revoked_at = at }) s _ (λ q. r.0) refl h
    own false k = h
step-HasRevoked id (touch key_id at) s r h = elim (Option-cases (lookup key_id s.by_id)) [
  | inl p ↦ rw (touch_key, p) h
  | inr (k, p) ↦
      rw (touch_key, p)
        (inserted-HasRevoked id key_id (record k { last_used = at }) s _
          (still_revoked id key_id k s p h) refl h)
]

run-kept : (calls : List KeyCall) (s : KeyStore) → IsKeyed s → IsKeyed (run calls s)
unfolding run
run-kept [] s h = h
run-kept (call ∷ calls) s h = run-kept calls (step call s) (step-IsKeyed call s h)

Respects-first :
    (id : Text) (call : KeyCall) (calls : List KeyCall)
    → Respects id (call ∷ calls)
    → Respects id (call ∷ []) × Respects id calls
unfolding Respects
Respects-first id (put k) calls r = ((r.0, tt), r.1)
Respects-first id (revoke _ _ at) calls r = ((r.0, tt), r.1)
Respects-first id (touch _ _) calls r = (tt, r)

run-HasRevoked :
    (id : Text) (calls : List KeyCall) (s : KeyStore)
    → Respects id calls
    → HasRevoked id s
    → HasRevoked id (run calls s)
unfolding run
run-HasRevoked id [] s r h = h
run-HasRevoked id (call ∷ calls) s r h =
    let (first, rest) = Respects-first id call calls r in
    run-HasRevoked id calls (step call s) rest (step-HasRevoked id call s first h)

-- A revocation that is not refused leaves the key revoked.
revoke_key-HasRevoked :
    (tenant_id id : Text) (at : ℕ) (s s' : KeyStore)
    → at ≢ 0
    → revoke_key tenant_id id at s ≡ inr s'
    → HasRevoked id s'
unfolding revoke_key HasRevoked
revoke_key-HasRevoked tenant_id id at s s' z q = found (lookup id s.by_id) q
  where
    refused : inl key_not_found ≡ inr s' → ⊥
    refused h = ground arith

    right_or : AuthError ⊎ KeyStore → KeyStore
    right_or (inl _) = s'
    right_or (inr t) = t

    own :
        (b : Bool) (k : Key)
        → (if b
            then inr (record s { by_id = insert id (record k { revoked_at = at }) s.by_id })
            else inl key_not_found)
          ≡ inr s'
        → (k : Key) × (lookup id s'.by_id ≡ some k) × (k.revoked_at ≢ 0)
    own false k h = absurd (refused h)
    own true k h = (
      record k { revoked_at = at },
      ap (λ r. lookup id (right_or r).by_id) (sym h)
          ∙ lookup-insert_self id (record k { revoked_at = at }) s.by_id,
      z,
    )

    found :
        (o : Option Key)
        → (elim o [
          | none ↦ inl key_not_found
          | some k ↦
              if k.tenant_id == tenant_id
              then inr (record s { by_id = insert id (record k { revoked_at = at }) s.by_id })
              else inl key_not_found
        ])
          ≡ inr s'
        → (k : Key) × (lookup id s'.by_id ≡ some k) × (k.revoked_at ≢ 0)
    found none h = absurd (refused h)
    found (some k) h = own (k.tenant_id == tenant_id) k h

revoked-IsKeyed :
    (tenant_id id : Text) (at : ℕ) (s s' : KeyStore)
    → revoke_key tenant_id id at s ≡ inr s'
    → IsKeyed s
    → IsKeyed s'
revoked-IsKeyed tenant_id id at s s' q h =
    subst IsKeyed (ap (kept s) q) (step-IsKeyed (revoke tenant_id id at) s h)

empty-IsKeyed : IsKeyed new_key_store
unfolding IsKeyed lookup
empty-IsKeyed id k h = absurd (nothing h)

-- The zero value has no hash that verifies.
zero_key-refused :
    (crypto : Crypto) (secret : Text) → verify_secret crypto secret [] ≡ some true → ⊥
unfolding verify_secret split_on
zero_key-refused crypto secret h = ground arith

-- The key that stands under a prefix is not the revoked one.
not_the_revoked :
    (crypto : Crypto) (secret prefix id : Text) (k : Key) (s : KeyStore)
    → IsKeyed s
    → HasRevoked id s
    → get_key_by_prefix prefix s ≡ some k
    → verify_secret crypto secret k.hash ≡ some true
    → k.revoked_at ≡ 0
    → k.id ≢ id
unfolding get_key_by_prefix IsKeyed HasRevoked
not_the_revoked crypto secret prefix id k s keyed (u, found, revoked) g v z e =
    at_prefix (lookup prefix s.by_prefix) g
  where
    at_id : (j : Text) (o : Option Key) → lookup j s.by_id ≡ o → key_or_zero o ≡ k → ⊥
    at_id j none p q =
        zero_key-refused crypto secret (ap (λ t. verify_secret crypto secret t.hash) q ∙ v)
    at_id j (some w) p q = revoked (
        ap (λ t. t.revoked_at)
          (given (
              sym found
              ∙ ap (λ t. lookup t s.by_id) (sym e ∙ ap (λ t. t.id) (sym q) ∙ keyed j w p)
              ∙ p)
            ∙ q)
        ∙ z)

    at_prefix : (o : Option Text) → key_at s o ≡ some k → ⊥
    at_prefix none h = nothing h
    at_prefix (some j) h = at_id j (lookup j s.by_id) refl (given h)

by_key :
    (crypto : Crypto) (id header : Text) (now : ℕ) (s : KeyStore) (m : Memory) (i : Identity)
    → IsChecked crypto header now s m i
    → i.key_id ≡ id
    → IsKeyed s
    → HasRevoked id s
    → ⊥
unfolding IsChecked
by_key crypto id header now s m i (prefix, secret, k, t, p, g, v, live, x, tn, it, ik, ir) e keyed
      revoked =
    not_the_revoked crypto secret prefix id k s keyed revoked g v live (sym ik ∙ e)

-- The request is refused, or let in with another key.
unfoldable pub IsNotBy : Text → AuthError ⊎ Identity → Type 0
IsNotBy id (inl _) = Unit
IsNotBy id (inr i) = i.key_id ≢ id

-- From an empty store, after any calls, once a revocation of a key is not refused, and after any calls
-- that put no other key under its id and revoke only at times, no request is let in with that key,
-- whatever it presents.
pub authenticate-revoked :
    (crypto : Crypto) (before after : List KeyCall) (tenant_id id : Text) (at : ℕ) (s : KeyStore)
    (header : Text) (now : ℕ) (ip : Text) (m : Memory)
    → at ≢ 0
    → revoke_key tenant_id id at (run before new_key_store) ≡ inr s
    → Respects id after
    → IsNotBy id (authenticate crypto header now ip (run after s) m)
unfolding IsNotBy
authenticate-revoked crypto before after tenant_id id at s header now ip m z q r =
    answer (authenticate crypto header now ip (run after s) m) refl
  where
    let_in : (i : Identity) → IsChecked crypto header now (run after s) m i → i.key_id ≢ id
    let_in i c e =
        by_key crypto id header now (run after s) m i c e
          (run-kept after s (
            revoked-IsKeyed tenant_id id at (run before new_key_store) s q
              (run-kept before new_key_store empty-IsKeyed)))
          (run-HasRevoked id after s r
            (revoke_key-HasRevoked tenant_id id at (run before new_key_store) s z q))

    answer :
        (o : AuthError ⊎ Identity)
        → authenticate crypto header now ip (run after s) m ≡ o
        → IsNotBy id o
    answer (inl err) a = tt
    answer (inr i) a = let_in i (authenticate-IsChecked crypto header now ip (run after s) m i a)
