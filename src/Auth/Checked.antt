-- ===== src/Auth/Checked.antt =====
-- internal/auth and internal/api/middleware.go: what holds of a request that is let in.
use mathlib.Core.Path.{subst}
use status_hub.Prelude.{
  ℕ, ◌≡◌, refl, sym, ap, ◌∙◌, Bool, true, false, not, ◌&&◌, Option, none, some, ◌⊎◌, inl, inr,
  if◌then◌else◌, Text, text_Eq, text_eq, text_eq_iff, arith, ◌==◌, [], ◌∷◌, codes, cut_at, ◌||◌,
}
use status_hub.Domain.Amount.{trim_space}
use status_hub.Domain.Tenancy.{Tenant, valid_environment}
use status_hub.Store.Memory.{Memory}
use status_hub.Store.Directory.{get_tenant}
use status_hub.Auth.{
  AuthError, Crypto, Identity, Key, KeyStore, Parsed, check, checked, get_key_by_prefix,
  verify_secret, is_revoked, is_expired, identified, admitted, authenticate_key,
  authenticate_parsed, authenticate, parse, parse_parts, parse_trimmed, malformed, no_key,
  tenant_missing, key_not_found, bad_hash, unknown_key, revoked, expired, wrong_environment,
  three_parts, api_key_prefix, prefix_of, without_prefix,
}

no_error : {E A : Type 0} {err : E} {a : A} → inl err ≡ inr a → ⊥
no_error {E} {A} {err} {a} h = ground arith

-- What a check that finds no error has seen of the key.
abbrev Sound : Crypto → Key → Text → ℕ → Text → Type 0
Sound crypto k secret now env =
    (verify_secret crypto secret k.hash ≡ some true)
    × (k.revoked_at ≡ 0)
    × (is_expired k now ≡ false)
    × ((not (env == []) && not (k.environment == env)) ≡ false)

not_revoked : (k : Key) → is_revoked k ≡ false → k.revoked_at ≡ 0
unfolding is_revoked
not_revoked k h = ground arith

check-Sound :
    (crypto : Crypto) (k : Key) (secret : Text) (now : ℕ) (env : Text)
    → check crypto k secret now env ≡ none
    → Sound crypto k secret now env
unfolding check
check-Sound crypto k secret now env h = found (verify_secret crypto secret k.hash) refl h
  where
    failed : (err : AuthError) → some err ≡ none → ⊥
    failed err q = cc

    rest :
        (r e w : Bool)
        → (if r
            then some revoked
            else if e
            then some expired
            else if w
            then some wrong_environment
            else none)
          ≡ none
        → (r ≡ false) × (e ≡ false) × (w ≡ false)
    rest true e w q = absurd (failed revoked q)
    rest false true w q = absurd (failed expired q)
    rest false false true q = absurd (failed wrong_environment q)
    rest false false false q = (refl, refl, refl)

    found :
        (o : Option Bool)
        → verify_secret crypto secret k.hash ≡ o
        → checked crypto k now env o ≡ none
        → Sound crypto k secret now env
    found none v q = absurd (failed bad_hash q)
    found (some false) v q = absurd (failed unknown_key q)
    found (some true) v q =
        let (r, e, w) =
          rest (is_revoked k) (is_expired k now) (not (env == []) && not (k.environment == env))
            q in
        (v, not_revoked k r, e, w)

-- What a request that is let in has shown: its key, as the store has it now, and the identity it gives.
unfoldable pub IsChecked : Crypto → Text → ℕ → KeyStore → Memory → Identity → Type 0
IsChecked crypto header now s m i =
    (prefix secret : Text) × (k : Key) × (t : Tenant) × (parse header
      ≡ inr (prefix, secret, k.environment))
    × (get_key_by_prefix prefix s ≡ some k)
    × (verify_secret crypto secret k.hash ≡ some true)
    × (k.revoked_at ≡ 0)
    × (is_expired k now ≡ false)
    × (get_tenant k.tenant_id m ≡ some t)
    × (i.tenant_id ≡ k.tenant_id)
    × (i.key_id ≡ k.id)
    × (i.role ≡ k.role)

-- The environment of a parsed key is not empty.
IsNamed : Parsed → Type 0
IsNamed (inl _) = Unit
IsNamed (inr (_, _, env)) = text_eq env [] ≡ false

valid-named : (env : Text) → valid_environment env ≡ true → text_eq env [] ≡ false
unfolding valid_environment text_eq
valid-named [] h = sym h
valid-named (c ∷ env) h = refl

parse_parts-IsNamed : (s : Text) (o : Option (Text × Text × Text)) → IsNamed (parse_parts s o)
unfolding IsNamed
parse_parts-IsNamed s none = tt
parse_parts-IsNamed s (some (first, env, secret)) =
    choose (not (first == api_key_prefix) || (secret == [])) (valid_environment env) refl
  where
    choose :
        (b v : Bool)
        → valid_environment env ≡ v
        → IsNamed (
            if b
            then inl malformed
            else if v
            then inr (prefix_of s, secret, env)
            else inl malformed)
    choose true v h = tt
    choose false true h = valid-named env h
    choose false false h = tt

parse-IsNamed : (header : Text) → IsNamed (parse header)
unfolding parse IsNamed
parse-IsNamed header = choose (trim_space (without_prefix (codes "Bearer ") (trim_space header)))
  where
    either : (b : Bool) (o : Parsed) → IsNamed o → IsNamed (if b then inl no_key else o)
    either true o h = tt
    either false o h = h

    choose : (s : Text) → IsNamed (parse_trimmed s)
    choose s = either (s == []) _ (parse_parts-IsNamed s (three_parts (cut_at 95 s)))

module _ (crypto : Crypto) (header : Text) (now : ℕ) (ip : Text) (s : KeyStore) (m : Memory)
    (i : Identity) where
  no_identity_of : (err : AuthError) → inl err ≡ inr i → ⊥
  no_identity_of err q = ground arith

  identified-IsChecked :
      (prefix secret : Text) (k : Key) (o : Option Tenant)
      → parse header ≡ inr (prefix, secret, k.environment)
      → get_key_by_prefix prefix s ≡ some k
      → Sound crypto k secret now k.environment
      → get_tenant k.tenant_id m ≡ o
      → identified crypto k ip o ≡ inr i
      → IsChecked crypto header now s m i
  unfolding IsChecked
  identified-IsChecked prefix secret k none p g c t q = absurd (no_identity_of tenant_missing q)
  identified-IsChecked prefix secret k (some tn) p g c t q = (
    prefix,
    secret,
    k,
    tn,
    p,
    g,
    c.0,
    c.1,
    c.2,
    t,
    own (λ j. j.tenant_id),
    own (λ j. j.key_id),
    own_role,
  )
    where
      right_or : AuthError ⊎ Identity → Identity
      right_or (inl _) = i
      right_or (inr j) = j

      own : (f : Identity → Text) → f i ≡ f (right_or (identified crypto k ip (some tn)))
      own f = sym (ap (λ r. f (right_or r)) q)

      own_role : i.role ≡ k.role
      own_role = sym (ap (λ r. (right_or r).role) q)

  same_environment :
      (k : Key) (env : Text)
      → text_eq env [] ≡ false
      → (not (env == []) && not (k.environment == env)) ≡ false
      → env ≡ k.environment
  same_environment k env n h =
      sym
        ((text_eq_iff k.environment env).0 (equal (text_eq env []) (text_eq k.environment env) n h))
    where
      equal : (a b : Bool) → a ≡ false → (not a && not b) ≡ false → b ≡ true
      equal a b p q = ground arith

  admitted-IsChecked :
      (prefix secret env : Text) (k : Key) (o : Option AuthError)
      → parse header ≡ inr (prefix, secret, env)
      → IsNamed (inr (prefix, secret, env))
      → get_key_by_prefix prefix s ≡ some k
      → check crypto k secret now env ≡ o
      → admitted crypto k ip m o ≡ inr i
      → IsChecked crypto header now s m i
  unfolding IsNamed
  admitted-IsChecked prefix secret env k (some err) p n g c q = absurd (no_identity_of err q)
  admitted-IsChecked prefix secret env k none p n g c q =
      let sound = check-Sound crypto k secret now env c in
      let same = same_environment k env n sound.3 in
      identified-IsChecked prefix secret k (get_tenant k.tenant_id m)
        (p ∙ ap (λ e. inr (prefix, secret, e)) same) g
        (
          sound.0,
          sound.1,
          sound.2,
          subst (λ e. (not (e == []) && not (k.environment == e)) ≡ false) same sound.3,
        )
        refl q

  key-IsChecked :
      (prefix secret env : Text) (o : Option Key)
      → parse header ≡ inr (prefix, secret, env)
      → IsNamed (inr (prefix, secret, env))
      → get_key_by_prefix prefix s ≡ o
      → authenticate_key crypto secret env now ip m o ≡ inr i
      → IsChecked crypto header now s m i
  key-IsChecked prefix secret env none p n g q = absurd (no_identity_of key_not_found q)
  key-IsChecked prefix secret env (some k) p n g q =
      admitted-IsChecked prefix secret env k (check crypto k secret now env) p n g refl q

  parsed-IsChecked :
      (o : Parsed)
      → parse header ≡ o
      → IsNamed o
      → authenticate_parsed crypto now ip s m o ≡ inr i
      → IsChecked crypto header now s m i
  parsed-IsChecked (inl err) p n q = absurd (no_identity_of err q)
  parsed-IsChecked (inr (prefix, secret, env)) p n q =
      key-IsChecked prefix secret env (get_key_by_prefix prefix s) p n refl q

  -- A request is let in only with a key that the store has under its prefix, whose secret verifies, which
  -- is neither revoked nor expired and whose environment the presented text names, of a tenant that
  -- exists; and it acts as that tenant, with the role of that key.
  pub authenticate-IsChecked :
      authenticate crypto header now ip s m ≡ inr i → IsChecked crypto header now s m i
  unfolding authenticate
  authenticate-IsChecked q = parsed-IsChecked (parse header) refl (parse-IsNamed header) q
