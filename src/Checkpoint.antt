-- ===== src/Checkpoint.antt =====
-- internal/audit/checkpoint.go: signed checkpoints of the audit chains, over the in-memory stores.
-- Ed25519, base64 and the format of times are arguments. Logging, the gauge and the elapsed time of
-- a run are left out, and one reading of the clock serves a run.
pub mod Continuity
pub mod Signature
use status_hub.Prelude.{
  ℕ, zero, suc, ◌+◌, Bool, true, false, not, ◌&&◌, List, [], ◌∷◌, ◌++◌, length, take, map, Option,
  none, some, ◌⊎◌, inl, inr, nat_eq, ltb, leb, if◌then◌else◌, Text, text_Eq, text_ltb, codes, Dict,
  lookup, insert, ℤ, pos, negsuc, decimal, sort_by,
}
use status_hub.Domain.Audit.{Codec}
use status_hub.Domain.Tenancy.{Tenant}
use status_hub.Store.Audit.{AuditLog, ChainProof, verify_chain}
use status_hub.Store.Events.{reverse_onto}

pub record Checkpoint : Type 0 where
  pub tenant_id : Text
  pub records : ℕ
  pub head_hash : Text
  pub through : ℕ
  pub verified_at : ℕ
  pub signature : Text
  pub public_key : Text
  pub intact : Bool
  pub broken_at : Text
  pub reason : Text

-- Packages ed25519, of which a key is its seed, base64, and time with its two formats.
pub record Crypto : Type 0 where
  pub public_of : Text → Text
  pub sign_message : Text → Text → Text
  pub verify_message : Text → Text → Text → Bool
  pub encode64 : Text → Text
  pub decode64 : Text → Option Text
  pub format_nano : ℕ → Text
  pub format_seconds : ℕ → Text

abbrev show_bool : Bool → Text
show_bool true = codes "true"
show_bool false = codes "false"

abbrev bar : Text → Text
bar s = b'|' ∷ s

abbrev pub key_size : ℕ
key_size = 32

-- The errors of NewSigner and of VerifyCheckpoint.
pub data CheckpointError : Type 0 where
  seed_not_base64 key_not_base64 signature_not_base64 does_not_verify : CheckpointError
  bad_seed_size bad_key_size : ℕ → CheckpointError

module _ (crypto : Crypto) where
  unfoldable pub signed_payload : Checkpoint → Text
  signed_payload c =
      codes "statushub-checkpoint-v1"
      ++ (bar c.tenant_id
          ++ (bar (decimal c.records)
              ++ (bar c.head_hash
                  ++ (bar (crypto.format_nano c.through)
                      ++ (bar (show_bool c.intact) ++ bar c.broken_at)))))

  abbrev sized_seed : Option Text → CheckpointError ⊎ Text
  sized_seed none = inl seed_not_base64
  sized_seed (some seed) =
      if nat_eq (length seed) key_size then inr seed else inl (bad_seed_size (length seed))

  -- The signer is its seed.
  unfoldable pub new_signer : Text → CheckpointError ⊎ Text
  new_signer seed64 = sized_seed (crypto.decode64 seed64)

  unfoldable pub public_key_of : Text → Text
  public_key_of seed = crypto.encode64 (crypto.public_of seed)

  unfoldable pub sign : Text → Checkpoint → Checkpoint
  sign seed c = record c {
    public_key = public_key_of seed;
    signature = crypto.encode64 (crypto.sign_message seed (signed_payload c));
  }

  abbrev pub verified_with : Checkpoint → Text → Option Text → Option CheckpointError
  verified_with c key none = some signature_not_base64
  verified_with c key (some sig) =
      if crypto.verify_message key (signed_payload c) sig then none else some does_not_verify

  abbrev pub verified_by : Checkpoint → Option Text → Option CheckpointError
  verified_by c none = some key_not_base64
  verified_by c (some key) =
      if nat_eq (length key) key_size
      then verified_with c key (crypto.decode64 c.signature)
      else some (bad_key_size (length key))

  -- `none` is no error.
  unfoldable pub verify_checkpoint : Checkpoint → Text → Option CheckpointError
  verify_checkpoint c public_key64 = verified_by c (crypto.decode64 public_key64)

-- MemoryCheckpointStore.
abbrev pub Checkpoints : Type 0
Checkpoints = Dict Text (List Checkpoint)

abbrev all_or_none : Option (List Checkpoint) → List Checkpoint
all_or_none none = []
all_or_none (some cs) = cs

unfoldable pub history : Text → Checkpoints → List Checkpoint
history tenant_id s = all_or_none (lookup tenant_id s)

unfoldable pub put_checkpoint : Checkpoint → Checkpoints → Checkpoints
put_checkpoint c s = insert c.tenant_id (history c.tenant_id s ++ c ∷ []) s

unfoldable pub last_of : List Checkpoint → Option Checkpoint
last_of [] = none
last_of (c ∷ []) = some c
last_of (_ ∷ c ∷ cs) = last_of (c ∷ cs)

-- `none` is ErrNoCheckpoint.
unfoldable pub latest_checkpoint : Text → Checkpoints → Option Checkpoint
latest_checkpoint tenant_id s = last_of (history tenant_id s)

abbrev up_to : ℤ → ℕ → ℕ
up_to (pos zero) n = n
up_to (pos (suc k)) n = if ltb n (suc k) then n else suc k
up_to (negsuc _) n = n

unfoldable pub list_checkpoints : Text → ℤ → Checkpoints → List Checkpoint
list_checkpoints tenant_id limit s =
    let all = history tenant_id s in take (up_to limit (length all)) (reverse_onto [] all)

module _ (crypto : Crypto) where
  -- The checkpoint of what the walk found.
  abbrev pub of_proof : Text → ℕ → ChainProof → Checkpoint
  of_proof tenant_id now proof = record {
    tenant_id = tenant_id;
    records = proof.records;
    head_hash = proof.head;
    through = proof.to;
    verified_at = now;
    signature = [];
    public_key = [];
    intact = proof.intact;
    broken_at = proof.broken_at;
    reason = proof.reason;
  }

  abbrev removed_reason : ℕ → Checkpoint → Text
  removed_reason n prev =
      codes "the chain has "
      ++ (decimal n
          ++ (codes " records but the checkpoint at "
              ++ (crypto.format_seconds prev.verified_at
                  ++ (codes " recorded "
                      ++ (decimal prev.records ++ codes "; records have been removed")))))

  -- The comparison with the checkpoint before.
  abbrev pub continued : Option Checkpoint → Checkpoint → Checkpoint
  continued none c = c
  continued (some prev) c =
      if prev.intact && ltb c.records prev.records
      then record c { intact = false; reason = removed_reason c.records prev }
      else c

  abbrev pub with_signature : Option Text → Checkpoint → Checkpoint
  with_signature none c = c
  with_signature (some seed) c = sign crypto seed c

  unfoldable pub checkpoint_of : Option Text → ℕ → Text → ChainProof → Checkpoints → Checkpoint
  checkpoint_of signer now tenant_id proof s =
      with_signature signer
        (continued (latest_checkpoint tenant_id s) (of_proof tenant_id now proof))

  module _ {Json : Type 0} (codec : Codec Json) (signer : Option Text) (log : AuditLog Json) where
    -- The stores in memory report no error.
    unfoldable pub verify_tenant : ℕ → Text → Checkpoints → Checkpoint × Checkpoints
    verify_tenant now tenant_id s =
        let c = checkpoint_of signer now tenant_id (verify_chain codec now tenant_id log) s in
        (c, put_checkpoint c s)

    -- The loop over the tenants, in a context that is not cancelled: the checkpoints that are not
    -- intact, in order, and the store.
    unfoldable pub verify_loop : ℕ → List Tenant → Checkpoints → List Checkpoint × Checkpoints
    verify_loop now [] s = ([], s)
    verify_loop now (t ∷ tenants) s =
        let (c, s') = verify_tenant now t.id s in
        let (broken, end) = verify_loop now tenants s' in
        (if c.intact then broken else c ∷ broken, end)

    -- The number of tenants, the broken checkpoints, and the store.
    unfoldable pub verify_all : ℕ → List Tenant → Checkpoints → ℕ × List Checkpoint × Checkpoints
    verify_all now tenants s =
        let (broken, s') = verify_loop now (sort_by (λ a b. text_ltb a.id b.id) tenants) s in
        (length tenants, broken, s')
