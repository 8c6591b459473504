-- ===== src/Auth.antt =====
-- internal/auth: API keys, their in-memory store, and internal/api/middleware.go, which lets a request in
-- with one. Roles are the constants of key.go; no time is 0. The random bytes and the ids that Issue
-- draws come in its arguments, and packages argon2, base32 and base64 in `Crypto`. What only logs is left
-- out.
pub mod Issued
pub mod Revoked
pub mod Checked
use status_hub.Prelude.{
  ℕ, zero, suc, ◌+◌, Bool, true, false, not, ◌&&◌, ◌||◌, List, [], ◌∷◌, ◌++◌, length, take, drop,
  filter, Option, none, some, ◌⊎◌, inl, inr, ◌==◌, nat_eq, ltb, leb, if◌then◌else◌, Text, text_Eq,
  codes, Dict, lookup, insert, values, sort_by, split_on, decimal, cut_at,
}
use status_hub.Domain.Amount.{trim_space}
use status_hub.Domain.Tenancy.{Tenant, valid_environment}
use status_hub.Store.Memory.{Memory}
use status_hub.Store.Directory.{get_tenant}

pub data Role : Type 0 where
  read_only support engineer owner : Role

abbrev pub rank : Role → ℕ
rank read_only = 1
rank support = 2
rank engineer = 3
rank owner = 4

unfoldable pub at_least : Role → Role → Bool
at_least r need = leb (rank need) (rank r)

pub record Key : Type 0 where
  pub id : Text
  pub tenant_id : Text
  pub prefix : Text
  pub hash : Text
  pub environment : Text
  pub role : Role
  pub name : Text
  pub created_at : ℕ
  pub expires_at : ℕ
  pub last_used : ℕ
  pub revoked_at : ℕ

unfoldable pub is_revoked : Key → Bool
is_revoked k = not (nat_eq k.revoked_at 0)

unfoldable pub is_expired : Key → ℕ → Bool
is_expired k now = not (nat_eq k.expires_at 0) && ltb k.expires_at now

pub data AuthError : Type 0 where
  no_key malformed unknown_key revoked expired wrong_environment forbidden : AuthError
  bad_hash key_not_found prefix_taken tenant_missing no_identity : AuthError
  bad_environment : Text → AuthError

-- argon2.IDKey takes the secret, the salt, its costs of time, memory and threads, and the length of the
-- digest; `scan_params` is fmt.Sscanf with the format of the costs, memory first.
pub record Crypto : Type 0 where
  pub id_key : Text → Text → ℕ → ℕ → ℕ → ℕ → Text
  pub encode32 : Text → Text
  pub encode64 : Text → Text
  pub decode64 : Text → Option Text
  pub scan_params : Text → Option (ℕ × ℕ × ℕ)

abbrev pub argon_time : ℕ
argon_time = 1

abbrev pub argon_memory : ℕ
argon_memory = 65536

abbrev pub argon_threads : ℕ
argon_threads = 4

abbrev pub argon_key_len : ℕ
argon_key_len = 32

abbrev pub shown_params : Text
shown_params = codes "m=65536,t=1,p=4"

abbrev pub prefix_length : ℕ
prefix_length = 16

unfoldable pub prefix_of : Text → Text
prefix_of plaintext =
    if leb (length plaintext) prefix_length then plaintext else take prefix_length plaintext

abbrev pub api_key_prefix : Text
api_key_prefix = codes "sh"

abbrev pub two_parts : Text → Text × Text × Bool → Option (Text × Text × Text)
two_parts first (second, third, false) = none
two_parts first (second, third, true) = some (first, second, third)

-- strings.SplitN(s, "_", 3), where it gives three parts.
abbrev pub three_parts : Text × Text × Bool → Option (Text × Text × Text)
three_parts (first, rest, false) = none
three_parts (first, rest, true) = two_parts first (cut_at b'_' rest)

-- What follows a prefix.
unfoldable pub after_prefix : Text → Text → Option Text
after_prefix [] s = some s
after_prefix (p ∷ prefix) [] = none
after_prefix (p ∷ prefix) (c ∷ s) = if nat_eq p c then after_prefix prefix s else none

abbrev value_or : Text → Option Text → Text
value_or s none = s
value_or s (some t) = t

-- strings.TrimPrefix.
unfoldable pub without_prefix : Text → Text → Text
without_prefix prefix s = value_or s (after_prefix prefix s)

-- A presented key: the prefix to look it up, its secret half, and its environment.
abbrev pub Parsed : Type 0
Parsed = AuthError ⊎ (Text × Text × Text)

abbrev pub parse_parts : Text → Option (Text × Text × Text) → Parsed
parse_parts s none = inl malformed
parse_parts s (some (first, env, secret)) =
    if not (first == api_key_prefix) || (secret == [])
    then inl malformed
    else if valid_environment env
    then inr (prefix_of s, secret, env)
    else inl malformed

abbrev pub parse_trimmed : Text → Parsed
parse_trimmed s = if s == [] then inl no_key else parse_parts s (three_parts (cut_at b'_' s))

unfoldable pub parse : Text → Parsed
parse presented =
    parse_trimmed (trim_space (without_prefix (codes "Bearer ") (trim_space presented)))

-- What Issue draws, and its reading of the clock.
pub record Draw : Type 0 where
  pub bytes : Text
  pub salt : Text
  pub key_id : Text
  pub now : ℕ

abbrev pub plaintext_of : Text → Text → Text
plaintext_of env body = api_key_prefix ++ (b'_' ∷ env ++ (b'_' ∷ body))

module _ (crypto : Crypto) where
  -- The salt is drawn before.
  unfoldable pub hash_secret : Text → Text → Text
  hash_secret salt secret =
      codes "argon2id$v=19$"
      ++ (shown_params
          ++ (b'$' ∷ crypto.encode64 salt
              ++ (b'$'
                  ∷ crypto.encode64 (
                      crypto.id_key secret salt argon_time argon_memory argon_threads
                        argon_key_len))))

  -- From the length of the stored digest on; `none` is an error.
  abbrev compare_digest : Text → ℕ × ℕ × ℕ → Text → Text → Option Bool
  compare_digest secret (memory, time, threads) salt want =
      if nat_eq (length want) 0 || ltb 1024 (length want)
      then none
      else some (crypto.id_key secret salt time memory threads (length want) == want)

  abbrev decoded : Text → Option (ℕ × ℕ × ℕ) → Option Text → Option Text → Option Bool
  decoded secret (some params) (some salt) (some want) = compare_digest secret params salt want
  decoded secret _ _ _ = none

  abbrev verify_parts : Text → List Text → Option Bool
  verify_parts secret (scheme ∷ version ∷ params ∷ salt ∷ sum ∷ []) =
      if scheme == codes "argon2id"
      then decoded secret (crypto.scan_params params) (crypto.decode64 salt) (crypto.decode64 sum)
      else none
  verify_parts secret _ = none

  unfoldable pub verify_secret : Text → Text → Option Bool
  verify_secret secret encoded = verify_parts secret (split_on b'$' encoded)

  abbrev pub checked : Key → ℕ → Text → Option Bool → Option AuthError
  checked k now env none = some bad_hash
  checked k now env (some ok) =
      if not ok
      then some unknown_key
      else if is_revoked k
      then some revoked
      else if is_expired k now
      then some expired
      else if not (env == []) && not (k.environment == env)
      then some wrong_environment
      else none

  -- `none` is no error.
  unfoldable pub check : Key → Text → ℕ → Text → Option AuthError
  check k secret now env = checked k now env (verify_secret secret k.hash)

  abbrev pub issued_key : Text → Text → Role → Text → ℕ → Draw → Key
  issued_key tenant_id env role name ttl draw = record {
    id = draw.key_id;
    tenant_id = tenant_id;
    prefix = prefix_of (plaintext_of env (crypto.encode32 draw.bytes));
    hash = hash_secret draw.salt (crypto.encode32 draw.bytes);
    environment = env;
    role = role;
    name = name;
    created_at = draw.now;
    expires_at = if ltb 0 ttl then draw.now + ttl else 0;
    last_used = 0;
    revoked_at = 0;
  }

  -- The plaintext and the key; a negative ttl is 0.
  unfoldable pub issue : Text → Text → Role → Text → ℕ → Draw → AuthError ⊎ (Text × Key)
  issue tenant_id env role name ttl draw =
      if valid_environment env
      then inr (
        plaintext_of env (crypto.encode32 draw.bytes),
        issued_key tenant_id env role name ttl draw,
      )
      else inl (bad_environment env)

-- MemoryKeyStore.
pub record KeyStore : Type 0 where
  pub by_id : Dict Text Key
  pub by_prefix : Dict Text Text

abbrev pub new_key_store : KeyStore
new_key_store = record { by_id = []; by_prefix = [] }

unfoldable pub put_key : Key → KeyStore → AuthError ⊎ KeyStore
put_key k s = elim (lookup k.prefix s.by_prefix) [
  | some _ ↦ inl prefix_taken
  | none ↦
      inr (record { by_id = insert k.id k s.by_id; by_prefix = insert k.prefix k.id s.by_prefix })
]

-- The zero value, which a missing id would give.
abbrev pub zero_key : Key
zero_key = record {
  id = [];
  tenant_id = [];
  prefix = [];
  hash = [];
  environment = [];
  role = read_only;
  name = [];
  created_at = 0;
  expires_at = 0;
  last_used = 0;
  revoked_at = 0;
}

abbrev pub key_or_zero : Option Key → Key
key_or_zero none = zero_key
key_or_zero (some k) = k

abbrev pub key_at : KeyStore → Option Text → Option Key
key_at s none = none
key_at s (some id) = some (key_or_zero (lookup id s.by_id))

unfoldable pub get_key_by_prefix : Text → KeyStore → Option Key
get_key_by_prefix prefix s = key_at s (lookup prefix s.by_prefix)

unfoldable pub list_keys : Text → KeyStore → List Key
list_keys tenant_id s =
    sort_by (λ a b. ltb b.created_at a.created_at)
      (filter (λ k. k.tenant_id == tenant_id) (values s.by_id))

unfoldable pub revoke_key : Text → Text → ℕ → KeyStore → AuthError ⊎ KeyStore
revoke_key tenant_id key_id at s = elim (lookup key_id s.by_id) [
  | none ↦ inl key_not_found
  | some k ↦
      if k.tenant_id == tenant_id
      then inr (record s { by_id = insert key_id (record k { revoked_at = at }) s.by_id })
      else inl key_not_found
]

unfoldable pub touch_key : Text → ℕ → KeyStore → AuthError ⊎ KeyStore
touch_key key_id at s = elim (lookup key_id s.by_id) [
  | none ↦ inl key_not_found
  | some k ↦ inr (record s { by_id = insert key_id (record k { last_used = at }) s.by_id })
]

pub record Identity : Type 0 where
  pub tenant_id : Text
  pub tenant_slug : Text
  pub key_id : Text
  pub role : Role
  pub environment : Text
  pub ip : Text

unfoldable pub can : Identity → Role → Bool
can i need = at_least i.role need

module _ (crypto : Crypto) where
  unfoldable pub bootstrap : Text → Text → Draw → KeyStore → AuthError ⊎ (Text × KeyStore)
  bootstrap tenant_id env draw s =
      elim (issue crypto tenant_id env owner (codes "bootstrap") 0 draw) [
        | inl err ↦ inl err
        | inr (plaintext, key) ↦ elim (put_key key s) [
          | inl err ↦ inl err
          | inr s' ↦ inr (plaintext, s')
        ]
      ]

  abbrev pub identified : Key → Text → Option Tenant → AuthError ⊎ Identity
  identified k ip none = inl tenant_missing
  identified k ip (some t) = inr (record {
    tenant_id = k.tenant_id;
    tenant_slug = t.slug;
    key_id = k.id;
    role = k.role;
    environment = k.environment;
    ip = ip;
  })

  abbrev pub admitted : Key → Text → Memory → Option AuthError → AuthError ⊎ Identity
  admitted k ip m (some err) = inl err
  admitted k ip m none = identified k ip (get_tenant k.tenant_id m)

  abbrev pub authenticate_key : Text → Text → ℕ → Text → Memory → Option Key → AuthError ⊎ Identity
  authenticate_key secret env now ip m none = inl key_not_found
  authenticate_key secret env now ip m (some k) = admitted k ip m (check crypto k secret now env)

  abbrev pub authenticate_parsed : ℕ → Text → KeyStore → Memory → Parsed → AuthError ⊎ Identity
  authenticate_parsed now ip s m (inl err) = inl err
  authenticate_parsed now ip s m (inr (prefix, secret, env)) =
      authenticate_key secret env now ip m (get_key_by_prefix prefix s)

  -- The identity of the caller; every error is the one answer 401. The key is touched afterwards, apart
  -- from the request.
  unfoldable pub authenticate : Text → ℕ → Text → KeyStore → Memory → AuthError ⊎ Identity
  authenticate header now ip s m = authenticate_parsed now ip s m (parse header)

-- requireRole: whether the handler is called, else the status of the answer. No identity is `none`.
unfoldable pub require_role : Role → Option Identity → ℕ ⊎ Identity
require_role need none = inl 401
require_role need (some i) =
    if i.tenant_id == [] then inl 401 else if can i need then inr i else inl 403
