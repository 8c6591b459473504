-- ===== src/Auth/Issued.antt =====
-- internal/auth: a key that is issued and stored lets its holder in.
use mathlib.Core.Path.{subst}
use status_hub.Prelude.{
  ℕ, ◌+◌, ◌≤◌, ◌<◌, ◌≡◌, refl, sym, ap, ◌∙◌, Bool, true, false, not, ◌&&◌, ◌||◌, [], ◌∷◌, ◌++◌,
  length, none, some, ◌⊎◌, inl, inr, Option-cases, Bool-cases, if◌then◌else◌, Text, text_Eq,
  text_eq, text_eq_iff, in_range, arith, lookup, insert, lookup-insert_self, split_on,
  split_on-append, split_on-lacks, cut_at, lacks, every, codes,
}
use status_hub.Domain.Amount.{trim_space, trim_left, trim_right, is_space}
use status_hub.Domain.Tenancy.{Tenant, valid_environment, env_test, env_live}
use status_hub.Store.Memory.{Memory}
use status_hub.Store.Directory.{get_tenant}
use status_hub.Auth.{
  AuthError, Crypto, Draw, Key, KeyStore, Role, put_key, prefix_taken, wrong_environment,
  get_key_by_prefix, verify_secret, hash_secret, authenticate, check, parse, without_prefix,
  after_prefix, plaintext_of, issued_key, prefix_of, is_revoked, is_expired, shown_params,
  argon_memory, argon_time, argon_threads, argon_key_len, authenticate_parsed, authenticate_key,
  admitted, identified,
}

abbrev pub is_key_char : ℕ → Bool
is_key_char c = in_range 48 57 c || in_range 97 122 c

-- What the code relies on: the digest has the length that is asked for; base32 writes letters and digits,
-- at least one for what Issue draws; base64 decodes what it encoded, without a dollar sign; and
-- Sscanf reads the costs that Issue writes.
pub record IsSound (crypto : Crypto) : Type 0 where
  pub sized :
      (secret salt : Text) (time memory threads n : ℕ)
      → length (crypto.id_key secret salt time memory threads n) ≡ n
  pub plain : (bytes : Text) → every is_key_char (crypto.encode32 bytes) ≡ true
  pub nonempty : (bytes : Text) → 0 < length bytes → 0 < length (crypto.encode32 bytes)
  pub decodes : (bytes : Text) → crypto.decode64 (crypto.encode64 bytes) ≡ some bytes
  pub no_dollar : (bytes : Text) → lacks 36 (crypto.encode64 bytes) ≡ true
  pub scans : crypto.scan_params shown_params ≡ some (argon_memory, argon_time, argon_threads)

not_nil : (s : Text) → 0 < length s → text_eq s [] ≡ false
unfolding text_eq
not_nil [] h = elim h [ ]
not_nil (c ∷ s) h = refl

stored-key :
    (k : Key) (s : KeyStore)
    → get_key_by_prefix k.prefix
        (record { by_id = insert k.id k s.by_id; by_prefix = insert k.prefix k.id s.by_prefix })
      ≡ some k
unfolding get_key_by_prefix
stored-key k s =
    rw (lookup-insert_self k.prefix k.id s.by_prefix, lookup-insert_self k.id k s.by_id) refl

key_char-solid : (c : ℕ) → is_key_char c ≡ true → is_space c ≡ false
unfolding is_space
key_char-solid c h = ground arith

trim_left-solid : (c : ℕ) (s : Text) → is_space c ≡ false → trim_left is_space (c ∷ s) ≡ c ∷ s
unfolding trim_left
trim_left-solid c s h = rw (h) refl

trim_right-solid : (s : Text) → every is_key_char s ≡ true → trim_right is_space s ≡ s
unfolding trim_right
trim_right-solid [] h = refl
trim_right-solid (c ∷ s) h =
    rw (key_char-solid c (ground arith)) (ap (λ t. c ∷ t) (trim_right-solid s (ground arith)))

-- A presented key of an environment, with the word before it.
parse-live :
    (body : Text)
    → every is_key_char body ≡ true
    → 0 < length body
    → parse (codes "Bearer " ++ plaintext_of env_live body)
      ≡ inr (prefix_of (plaintext_of env_live body), body, env_live)
unfolding parse trim_space trim_left trim_right without_prefix after_prefix cut_at is_space text_eq
    valid_environment
parse-live body h l = rw (trim_right-solid body h, trim_right-solid body h, not_nil body l) refl

parse-test :
    (body : Text)
    → every is_key_char body ≡ true
    → 0 < length body
    → parse (codes "Bearer " ++ plaintext_of env_test body)
      ≡ inr (prefix_of (plaintext_of env_test body), body, env_test)
unfolding parse trim_space trim_left trim_right without_prefix after_prefix cut_at is_space text_eq
    valid_environment
parse-test body h l = rw (trim_right-solid body h, trim_right-solid body h, not_nil body l) refl

module _ (crypto : Crypto) (sound : IsSound crypto) where
  split-hash_secret :
      (salt secret : Text)
      → split_on 36 (hash_secret crypto salt secret)
        ≡ codes "argon2id"
          ∷ codes "v=19"
          ∷ shown_params
          ∷ crypto.encode64 salt
          ∷ crypto.encode64
              (crypto.id_key secret salt argon_time argon_memory argon_threads argon_key_len)
          ∷ []
  unfolding hash_secret split_on
  split-hash_secret salt secret =
      let sum =
        crypto.encode64
          (crypto.id_key secret salt argon_time argon_memory argon_threads argon_key_len) in
      ap (λ parts. codes "argon2id" ∷ codes "v=19" ∷ shown_params ∷ parts)
        (split_on-append 36 (crypto.encode64 salt) sum (sound.no_dollar salt)
          ∙ ap (λ parts. crypto.encode64 salt ∷ parts) (split_on-lacks 36 sum (sound.no_dollar _)))

  verify_secret-hash_secret :
      (salt secret : Text)
      → verify_secret crypto secret (hash_secret crypto salt secret) ≡ some true
  unfolding verify_secret text_eq
  verify_secret-hash_secret salt secret =
      rw
        (
          split-hash_secret salt secret,
          sound.scans,
          sound.decodes salt,
          sound.decodes
              (crypto.id_key secret salt argon_time argon_memory argon_threads argon_key_len),
          sound.sized secret salt argon_time argon_memory argon_threads argon_key_len,
        )
        (ap some (
          (text_eq_iff
              (crypto.id_key secret salt argon_time argon_memory argon_threads argon_key_len) _).1
            refl))

  parse-plaintext :
      (env body : Text)
      → valid_environment env ≡ true
      → every is_key_char body ≡ true
      → 0 < length body
      → parse (codes "Bearer " ++ plaintext_of env body)
        ≡ inr (prefix_of (plaintext_of env body), body, env)
  unfolding valid_environment
  parse-plaintext env body v h l = elim (Bool-cases (text_eq env env_test)) [
    | inl p ↦
        subst
          (λ e.
            parse (codes "Bearer " ++ plaintext_of e body)
            ≡ inr (prefix_of (plaintext_of e body), body, e))
          (sym ((text_eq_iff env env_test).0 p)) (parse-test body h l)
    | inr p ↦
        subst
          (λ e.
            parse (codes "Bearer " ++ plaintext_of e body)
            ≡ inr (prefix_of (plaintext_of e body), body, e))
          (sym ((text_eq_iff env env_live).0 (other (text_eq env env_test) p v)))
          (parse-live body h l)
  ]
    where
      other : (a : Bool) {b : Bool} → a ≡ false → (a || b) ≡ true → b ≡ true
      other true p q = absurd (ground arith)
      other false p q = q

  module _ (tenant_id env : Text) (role : Role) (name : Text) (ttl : ℕ) (draw : Draw) where
    abbrev issued : Key
    issued = issued_key crypto tenant_id env role name ttl draw

    fresh : (now : ℕ) → (ttl ≡ 0) ⊎ (now ≤ draw.now + ttl) → is_expired issued now ≡ false
    unfolding is_expired
    fresh now h = ground arith

    check-issued :
        (now : ℕ)
        → (ttl ≡ 0) ⊎ (now ≤ draw.now + ttl)
        → check crypto issued (crypto.encode32 draw.bytes) now env ≡ none
    unfolding check is_revoked
    check-issued now h =
        rw
          (
            verify_secret-hash_secret draw.salt (crypto.encode32 draw.bytes),
            fresh now h,
            (text_eq_iff env env).1 refl,
          )
          (either (not (text_eq env [])))
      where
        either : (b : Bool) → (if b && false then some wrong_environment else none) ≡ none
        either true = refl
        either false = refl

    get_key-put_key :
        (s s' : KeyStore)
        → put_key issued s ≡ inr s'
        → get_key_by_prefix issued.prefix s' ≡ some issued
    unfolding put_key get_key_by_prefix
    get_key-put_key s s' q = elim (Option-cases (lookup issued.prefix s.by_prefix)) [
      | inr (_, p) ↦ absurd (refused (rw (put_key, p) at q))
      | inl p ↦
          ap (λ r. get_key_by_prefix issued.prefix (right_or r)) (sym (rw (put_key, p) at q))
          ∙ stored-key issued s
    ]
      where
        refused : inl prefix_taken ≡ inr s' → ⊥
        refused h = ground arith

        right_or : AuthError ⊎ KeyStore → KeyStore
        right_or (inl _) = s'
        right_or (inr t) = t

    -- From a key that is issued for a known tenant and stored, the plaintext that was shown with it lets a
    -- request in until the key expires, and the request acts as the tenant, with the role and the
    -- environment that the key was issued for.
    pub authenticate-issued :
        (s s' : KeyStore) (m : Memory) (t : Tenant) (now : ℕ) (ip : Text)
        → valid_environment env ≡ true
        → 0 < length draw.bytes
        → put_key issued s ≡ inr s'
        → get_tenant tenant_id m ≡ some t
        → (ttl ≡ 0) ⊎ (now ≤ draw.now + ttl)
        → authenticate crypto
            (codes "Bearer " ++ plaintext_of env (crypto.encode32 draw.bytes))
            now
            ip
            s'
            m
          ≡ inr (record {
            tenant_id = tenant_id;
            tenant_slug = t.slug;
            key_id = draw.key_id;
            role = role;
            environment = env;
            ip = ip;
          })
    unfolding authenticate
    authenticate-issued s s' m t now ip v l q tn h =
        let body = crypto.encode32 draw.bytes in
        ap (authenticate_parsed crypto now ip s' m)
          (parse-plaintext env body v (sound.plain draw.bytes) (sound.nonempty draw.bytes l))
        ∙ ap (authenticate_key crypto body env now ip m) (get_key-put_key s s' q)
        ∙ ap (admitted crypto issued ip m) (check-issued now h)
        ∙ ap (identified crypto issued ip) tn
