-- ===== src/Tests/CheckpointTests.antt =====
-- Checkpoints of empty logs.
use status_hub.Prelude.{
  ◌≡◌, refl, ℕ, true, false, some, [], ◌∷◌, inr, replicate, arith, Text, text_eq, codes, lookup,
  text_Eq,
}
use status_hub.Domain.Audit.{Codec}
use status_hub.Store.Audit.{AuditLog, new_audit_log, verify_chain, chain_of}
use status_hub.Checkpoint.{
  Checkpoint, Checkpoints, Crypto, history, latest_checkpoint, last_of, verify_tenant,
}
use status_hub.Checkpoint.Continuity.{
  IsContinuous, walk_all, walk_all-IsContinuous, verify_tenant-forgets,
}

-- Every seed has one key, and a message is its own signature.
abbrev open_crypto : Crypto
open_crypto = record {
  public_of = λ seed. replicate 32 7;
  sign_message = λ seed message. message;
  verify_message = λ key message sig. text_eq message sig;
  encode64 = λ bytes. bytes;
  decode64 = λ bytes. some bytes;
  format_nano = λ t. codes "t";
  format_seconds = λ t. codes "t";
}

abbrev plain_codec : Codec ℕ
plain_codec = record {
  marshal = λ fields. inr (codes "{}");
  rfc3339_nano = λ t. codes "t";
  sha256_hex = λ s. s;
}

abbrev no_records : AuditLog ℕ
no_records = new_audit_log

abbrev tenant : Text
tenant = codes "t"

-- The checkpoint of a chain that had one record.
abbrev one_record : Checkpoint
one_record = record {
  tenant_id = tenant;
  records = 1;
  head_hash = codes "h";
  through = 1;
  verified_at = 2;
  signature = [];
  public_key = [];
  intact = true;
  broken_at = [];
  reason = [];
}

abbrev noted_history : Checkpoints
noted_history = (tenant, one_record ∷ []) ∷ []

walk_all-IsContinuous_example : IsContinuous (
    history tenant (
      walk_all open_crypto
        (some (codes "seed"))
        plain_codec
        ((3, tenant, no_records) ∷ (4, tenant, no_records) ∷ [])
        []))
walk_all-IsContinuous_example =
    walk_all-IsContinuous open_crypto (some (codes "seed")) plain_codec
      ((3, tenant, no_records) ∷ (4, tenant, no_records) ∷ []) tenant

latest-noted_history : latest_checkpoint tenant noted_history ≡ some one_record
unfolding latest_checkpoint history lookup text_eq last_of
latest-noted_history = refl

empty-intact : (verify_chain plain_codec 4 tenant no_records).intact ≡ true
unfolding verify_chain chain_of lookup
empty-intact = refl

none_left : (verify_chain plain_codec 3 tenant no_records).records ≡ 0
unfolding verify_chain chain_of lookup
none_left = refl

verify_tenant-forgets_example :
    let (first, s) =
      verify_tenant open_crypto plain_codec
        (some (codes "seed"))
        no_records
        3
        tenant
        noted_history in
    let (second, _) =
      verify_tenant open_crypto plain_codec (some (codes "seed")) no_records 4 tenant s in
    (first.intact ≡ false) × (second.intact ≡ true)
verify_tenant-forgets_example =
    verify_tenant-forgets open_crypto (some (codes "seed")) plain_codec no_records no_records 3 4
      tenant one_record noted_history latest-noted_history refl (omega (arith, none_left))
      empty-intact
