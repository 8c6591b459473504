-- ===== src/Checkpoint/Signature.antt =====
-- internal/audit/checkpoint.go: the checkpoints of a tenant as they are published.
use status_hub.Prelude.{
  ℕ, ◌≡◌, refl, ap, ◌∙◌, Bool, true, false, List, [], ◌∷◌, ◌++◌, Option, none, some, nat_eq,
  if◌then◌else◌, Text, text_eq, text_eq_iff, text_Eq, ◌≢◌, length, arith, lookup-insert, ltb, ◌&&◌,
}
use status_hub.Domain.Audit.{Codec}
use status_hub.Store.Audit.{AuditLog, ChainProof, verify_chain}
use status_hub.Checkpoint.{
  Checkpoint, CheckpointError, does_not_verify, Checkpoints, Crypto, key_size, signed_payload,
  public_key_of, sign, verified_by, verified_with, verify_checkpoint, history, put_checkpoint,
  last_of, latest_checkpoint, verify_tenant, checkpoint_of, continued, with_signature, of_proof,
}

-- What the code relies on: the key of a seed checks what the seed signed, a public key is 32
-- bytes, and base64 decodes what it encoded.
pub record IsSound (crypto : Crypto) : Type 0 where
  pub checks :
      (seed message : Text)
      → crypto.verify_message (crypto.public_of seed) message (crypto.sign_message seed message)
        ≡ true
  pub sized : (seed : Text) → length (crypto.public_of seed) ≡ key_size
  pub decodes : (bytes : Text) → crypto.decode64 (crypto.encode64 bytes) ≡ some bytes

verify_checkpoint-sign :
    (crypto : Crypto)
    → IsSound crypto
    → (seed : Text) (c : Checkpoint)
    → verify_checkpoint crypto (sign crypto seed c) (public_key_of crypto seed) ≡ none
unfolding verify_checkpoint sign public_key_of signed_payload
verify_checkpoint-sign crypto sound seed c =
    ap (verified_by crypto (sign crypto seed c)) (sound.decodes (crypto.public_of seed))
    ∙ right_size (length (crypto.public_of seed)) (sound.sized seed) _ _
    ∙ ap (verified_with crypto (sign crypto seed c) (crypto.public_of seed))
        (sound.decodes (crypto.sign_message seed (signed_payload crypto c)))
    ∙ accepted _ (sound.checks seed (signed_payload crypto c))
  where
    accepted : (b : Bool) → b ≡ true → (if b then none else some does_not_verify) ≡ none
    accepted b h = rw (h) refl

    right_size :
        (n : ℕ)
        → n ≡ key_size
        → (o p : Option CheckpointError) → (if nat_eq n key_size then o else p) ≡ o
    right_size n h o p = rw (h) refl

pub history-put_checkpoint :
    (c : Checkpoint) (s : Checkpoints) (t : Text)
    → history t (put_checkpoint c s)
      ≡ (if text_eq c.tenant_id t then history c.tenant_id s ++ c ∷ [] else history t s)
unfolding history put_checkpoint
history-put_checkpoint c s t =
    rw (lookup-insert c.tenant_id t (history c.tenant_id s ++ c ∷ []) s) (ground arith)

pub last_of-append : (c : Checkpoint) (cs : List Checkpoint) → last_of (cs ++ c ∷ []) ≡ some c
unfolding last_of
last_of-append c [] = refl
last_of-append c (d ∷ []) = refl
last_of-append c (d ∷ e ∷ cs) = last_of-append c (e ∷ cs)

same_text : (t : Text) → text_eq t t ≡ true
same_text t = (text_eq_iff t t).1 refl

pub tenant-checkpoint_of :
    (crypto : Crypto) (signer : Option Text) (now : ℕ) (t : Text) (proof : ChainProof)
    (s : Checkpoints)
    → (checkpoint_of crypto signer now t proof s).tenant_id ≡ t
unfolding checkpoint_of sign
tenant-checkpoint_of crypto signer now t proof s =
    signed signer (continued crypto (latest_checkpoint t s) (of_proof crypto t now proof))
    ∙ compared (latest_checkpoint t s)
  where
    signed :
        (o : Option Text) (c : Checkpoint) → (with_signature crypto o c).tenant_id ≡ c.tenant_id
    signed none c = refl
    signed (some seed) c = refl

    kept :
        (b : Bool) (c d : Checkpoint)
        → c.tenant_id ≡ t
        → d.tenant_id ≡ t
        → (if b then c else d).tenant_id ≡ t
    kept true c d p q = p
    kept false c d p q = q

    compared :
        (o : Option Checkpoint) → (continued crypto o (of_proof crypto t now proof)).tenant_id ≡ t
    compared none = refl
    compared (some prev) = kept (prev.intact && ltb proof.records prev.records) _ _ refl refl

pub history-own :
    (c : Checkpoint) (t : Text) (s : Checkpoints)
    → c.tenant_id ≡ t
    → history t (put_checkpoint c s) ≡ history t s ++ c ∷ []
history-own c t s h = history-put_checkpoint c s t ∙ rw (h, same_text t) refl

pub history-other :
    (c : Checkpoint) (t u : Text) (s : Checkpoints)
    → c.tenant_id ≡ t
    → t ≢ u
    → history u (put_checkpoint c s) ≡ history u s
history-other c t u s h ne = history-put_checkpoint c s u ∙ rw (h, differ) refl
  where
    differ : text_eq t u ≡ false
    differ = ground (arith, text_eq_iff t u)

-- Whatever the walk of a tenant's chain finds, its checkpoint is published: it becomes the last of the
-- tenant's history, all of which is kept, no other tenant's history changes, and with the public key of
-- the signer it is found to be genuine.
pub verify_tenant-published :
    (crypto : Crypto)
    → IsSound crypto
    → {Json : Type 0} (codec : Codec Json) (seed : Text) (log : AuditLog Json) (now : ℕ)
      (t u : Text) (s : Checkpoints)
    → t ≢ u
    → let (c, s') = verify_tenant crypto codec (some seed) log now t s in
      (verify_checkpoint crypto c (public_key_of crypto seed) ≡ none)
      × (history t s' ≡ history t s ++ c ∷ [])
      × (latest_checkpoint t s' ≡ some c)
      × (history u s' ≡ history u s)
unfolding verify_tenant checkpoint_of latest_checkpoint
verify_tenant-published crypto sound codec seed log now t u s ne =
    let proof = verify_chain codec now t log in
    let c = checkpoint_of crypto (some seed) now t proof s in
    let own = history-own c t s (tenant-checkpoint_of crypto (some seed) now t proof s) in
    (
      verify_checkpoint-sign crypto sound seed
          (continued crypto (latest_checkpoint t s) (of_proof crypto t now proof)),
      own,
      ap last_of own ∙ last_of-append c (history t s),
      history-other c t u s (tenant-checkpoint_of crypto (some seed) now t proof s) ne,
    )
