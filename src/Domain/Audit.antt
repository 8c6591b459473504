-- ===== src/Domain/Audit.antt =====
-- internal/domain/audit.go: audit records and the hash that chains them. `Json` stands for the values
-- of a payload; a `time.Time` is its instant, so UTC does nothing to it.
pub mod Framing
use status_hub.Prelude.{
  ℕ, ◌*◌, ◌/◌, ◌++◌, ◌∷◌, [], List, length, Bool, ◌==◌, if◌then◌else◌, ◌⊎◌, inl, inr, Text, text_Eq,
  codes, Dict, decimal, nat_eq,
}

pub record Actor : Type 0 where
  pub type : Text
  pub id : Text
  pub ip : Text

pub record Subject : Type 0 where
  pub type : Text
  pub id : Text

pub record AuditRecord (Json : Type 0) : Type 0 where
  pub id : Text
  pub tenant_id : Text
  pub event_type : Text
  pub occurred_at : ℕ
  pub recorded_at : ℕ
  pub actor : Actor
  pub subject : Subject
  pub payload : Dict Text Json
  pub corrects : Text
  pub prev_hash : Text
  pub hash : Text

-- The packages that the hash is made with: json.Marshal, whose error is a text, Time.Format with
-- time.RFC3339Nano, and SHA-256 with its sum in hexadecimal.
pub record Codec (Json : Type 0) : Type 0 where
  pub marshal : Dict Text Json → Text ⊎ Text
  pub rfc3339_nano : ℕ → Text
  pub sha256_hex : Text → Text

-- Truncate(StoragePrecision), a microsecond, from the zero time.
abbrev pub to_storage_precision : ℕ → ℕ
to_storage_precision t = t / 1000 * 1000

abbrev pub genesis_hash : Text
genesis_hash = codes "sha256:genesis"

unfoldable pub frame : Text → Text
frame part = decimal (length part) ++ (b':' ∷ part ++ b'|' ∷ [])

unfoldable pub frames : List Text → Text
frames [] = []
frames (part ∷ parts) = frame part ++ frames parts

module _ {Json : Type 0} (codec : Codec Json) where
  unfoldable pub canonical_json : Dict Text Json → Text ⊎ Text
  canonical_json [] = inr (codes "{}")
  canonical_json v = codec.marshal v

  -- The parts of a record that are hashed, around its marshalled payload.
  unfoldable pub hashed_parts : AuditRecord Json → Text → List Text
  hashed_parts r payload =
      r.id
      ∷ r.tenant_id
      ∷ r.event_type
      ∷ codec.rfc3339_nano (to_storage_precision r.occurred_at)
      ∷ r.actor.type
      ∷ r.actor.id
      ∷ r.actor.ip
      ∷ r.subject.type
      ∷ r.subject.id
      ∷ payload
      ∷ r.corrects
      ∷ r.prev_hash
      ∷ []

  unfoldable pub compute_hash : AuditRecord Json → Text ⊎ Text
  compute_hash r = elim (canonical_json r.payload) [
    | inl err ↦ inl (codes "audit payload is not hashable: " ++ err)
    | inr payload ↦ inr (codes "sha256:" ++ codec.sha256_hex (frames (hashed_parts r payload)))
  ]

  abbrev pub or_now : ℕ → ℕ → ℕ
  or_now t now = if nat_eq t 0 then now else t

  -- The record as it is hashed: its times set and truncated, and linked.
  unfoldable pub linked : ℕ → Text → AuditRecord Json → AuditRecord Json
  linked now prev_hash r =
      let recorded = or_now r.recorded_at now in
      record r {
        recorded_at = to_storage_precision recorded;
        occurred_at = to_storage_precision (or_now r.occurred_at recorded);
        prev_hash = prev_hash;
      }

  unfoldable pub seal : ℕ → Text → AuditRecord Json → Text ⊎ AuditRecord Json
  seal now prev_hash r = elim (compute_hash (linked now prev_hash r)) [
    | inl err ↦ inl err
    | inr h ↦ inr (record (linked now prev_hash r) { hash = h })
  ]
