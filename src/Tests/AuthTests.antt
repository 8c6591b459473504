-- ===== src/Tests/AuthTests.antt =====
-- A key that is issued, used and revoked.
use status_hub.Prelude.{
  ◌≡◌, refl, ap, ℕ, zero, suc, ◌+◌, ◌-◌, ◌++◌, true, some, [], ◌∷◌, List, inr, inl, map, length,
  replicate, length-replicate, arith, Text, text_eq, codes, lookup, insert, text_Eq, lacks, every,
  cut_at, split_on,
}
use status_hub.Domain.Amount.{trim_space, trim_left, trim_right, is_space}
use status_hub.Domain.Tenancy.{Tenant, env_test, valid_environment}
use status_hub.Store.Memory.{Memory, new_memory}
use status_hub.Store.Directory.{get_tenant}
use status_hub.Auth.{
  Crypto, Draw, Identity, Key, KeyStore, new_key_store, support, issued_key, plaintext_of, put_key,
  revoke_key, touch_key, authenticate, prefix_of, argon_memory, argon_time, argon_threads, revoked,
  parse, without_prefix, after_prefix, get_key_by_prefix, check, verify_secret, hash_secret,
  is_revoked, is_expired,
}
use status_hub.Auth.Issued.{IsSound, is_key_char, authenticate-issued}
use status_hub.Auth.Checked.{IsChecked, authenticate-IsChecked}
use status_hub.Auth.Revoked.{KeyCall, put, touch, run, Respects, IsNotBy, authenticate-revoked}

-- Digests and keys that only have the right lengths, and a base64 that moves every byte up.
abbrev weak_crypto : Crypto
weak_crypto = record {
  id_key = λ secret salt time memory threads n. replicate n 1;
  encode32 = λ bytes. replicate (length bytes) b'a';
  encode64 = map (λ c. c + 37);
  decode64 = λ s. some (map (λ c. c - 37) s);
  scan_params = λ s. some (argon_memory, argon_time, argon_threads);
}

every-replicate : (n : ℕ) → every is_key_char (replicate n 97) ≡ true
every-replicate zero = refl
every-replicate (suc n) = every-replicate n

moved_back : (s : Text) → map (λ c. c - 37) (map (λ c. c + 37) s) ≡ s
moved_back [] = refl
moved_back (c ∷ s) = cons_path (omega arith) (moved_back s)
  where
    cons_path : {a b : ℕ} {u v : Text} → a ≡ b → u ≡ v → a ∷ u ≡ b ∷ v
    cons_path {a} {b} {u} {v} p q = cc

no_dollar_up : (s : Text) → lacks 36 (map (λ c. c + 37) s) ≡ true
no_dollar_up [] = refl
no_dollar_up (c ∷ s) = ground (arith, no_dollar_up s)

weak_crypto-IsSound : IsSound weak_crypto
weak_crypto-IsSound = record {
  sized = λ secret salt time memory threads n. length-replicate n 1;
  plain = λ bytes. every-replicate (length bytes);
  nonempty = λ bytes h. omega (arith, h, length-replicate {A = ℕ} (length bytes) 97);
  decodes = λ bytes. ap some (moved_back bytes);
  no_dollar = no_dollar_up;
  scans = refl;
}

abbrev draw : Draw
draw = record { bytes = codes "entropy"; salt = codes "salt"; key_id = codes "k1"; now = 10 }

abbrev key : Key
key = issued_key weak_crypto (codes "t") env_test support (codes "ci") 0 draw

abbrev stored : KeyStore
stored = record { by_id = (codes "k1", key) ∷ []; by_prefix = (key.prefix, codes "k1") ∷ [] }

abbrev tenant : Tenant
tenant = record { id = codes "t"; slug = codes "acme"; name = codes "Acme"; created_at = 1 }

abbrev memory : Memory
memory = record new_memory { tenants = (codes "t", tenant) ∷ [] }

abbrev header : Text
header = codes "Bearer " ++ plaintext_of env_test (weak_crypto.encode32 draw.bytes)

abbrev caller : Identity
caller = record {
  tenant_id = codes "t";
  tenant_slug = codes "acme";
  key_id = codes "k1";
  role = support;
  environment = env_test;
  ip = codes "ip";
}

key-stored : put_key key new_key_store ≡ inr stored
unfolding put_key lookup insert
key-stored = refl

known : get_tenant (codes "t") memory ≡ some tenant
unfolding get_tenant lookup text_eq
known = refl

test_valid : valid_environment env_test ≡ true
unfolding valid_environment text_eq
test_valid = refl

let_in : authenticate weak_crypto header 11 (codes "ip") stored memory ≡ inr caller
let_in =
    authenticate-issued weak_crypto weak_crypto-IsSound (codes "t") env_test support (codes "ci") 0
      draw new_key_store stored memory tenant 11 (codes "ip") test_valid (omega arith) key-stored
      known (inl refl)

authenticate-issued_example :
    authenticate weak_crypto header 11 (codes "ip") stored memory ≡ inr caller
authenticate-issued_example =
    authenticate-issued weak_crypto weak_crypto-IsSound (codes "t") env_test support (codes "ci") 0
      draw new_key_store stored memory tenant 11 (codes "ip") test_valid (omega arith) key-stored
      known (inl refl)

authenticate-IsChecked_example : IsChecked weak_crypto header 11 stored memory caller
authenticate-IsChecked_example =
    authenticate-IsChecked weak_crypto header 11 (codes "ip") stored memory caller let_in

abbrev other_draw : Draw
other_draw = record {
  bytes = codes "more bytes";
  salt = codes "salt";
  key_id = codes "k2";
  now = 10;
}

abbrev other_key : Key
other_key = issued_key weak_crypto (codes "t") env_test support (codes "ci") 0 other_draw

abbrev both : List KeyCall
both = put key ∷ put other_key ∷ []

abbrev after_revocation : KeyStore
after_revocation = record {
  by_id = (codes "k1", record key { revoked_at = 20 }) ∷ (codes "k2", other_key) ∷ [];
  by_prefix = (key.prefix, codes "k1") ∷ (other_key.prefix, codes "k2") ∷ [];
}

key-revoked : revoke_key (codes "t") (codes "k1") 20 (run both new_key_store) ≡ inr after_revocation
unfolding run put_key revoke_key lookup insert text_eq prefix_of
key-revoked = refl

abbrev other_header : Text
other_header = codes "Bearer " ++ plaintext_of env_test (weak_crypto.encode32 other_draw.bytes)

other_let_in :
    authenticate weak_crypto other_header 22
      (codes "ip")
      (run (touch (codes "k2") 21 ∷ []) after_revocation)
      memory
    ≡ inr (record caller { key_id = codes "k2" })
unfolding run touch_key lookup insert text_eq prefix_of authenticate parse trim_space trim_left
    trim_right is_space without_prefix after_prefix cut_at valid_environment get_key_by_prefix check
    verify_secret hash_secret split_on is_revoked is_expired get_tenant
other_let_in = refl

key-refused :
    authenticate weak_crypto header 22
      (codes "ip")
      (run (touch (codes "k2") 21 ∷ []) after_revocation)
      memory
    ≡ inl revoked
unfolding run touch_key lookup insert text_eq prefix_of authenticate parse trim_space trim_left
    trim_right is_space without_prefix after_prefix cut_at valid_environment get_key_by_prefix check
    verify_secret hash_secret split_on is_revoked is_expired
key-refused = refl

touch_only : Respects (codes "k1") (touch (codes "k2") 21 ∷ [])
unfolding Respects
touch_only = tt

authenticate-revoked_example : IsNotBy (codes "k1") (
    authenticate weak_crypto header 22
      (codes "ip")
      (run (touch (codes "k2") 21 ∷ []) after_revocation)
      memory)
authenticate-revoked_example =
    authenticate-revoked weak_crypto both (touch (codes "k2") 21 ∷ []) (codes "t") (codes "k1") 20
      after_revocation header 22 (codes "ip") memory (λ h. absurd (omega (arith, h))) key-revoked
      touch_only
