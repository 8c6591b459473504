-- ===== src/Tests/AuditTests.antt =====
-- The audit log with a sum that is the text itself, and payloads of numbers of which 0 has no JSON.
use status_hub.Prelude.{
  ℕ, zero, suc, ◌≡◌, refl, true, ◌++◌, ◌∷◌, [], List, map, length, ◌⊎◌, inl, inr, Text, text_eq,
  codes, Dict, decimal, digits, lookup, insert, pos,
}
use status_hub.Domain.Audit.{
  AuditRecord, Codec, compute_hash, canonical_json, frame, frames, hashed_parts, linked, seal,
}
use status_hub.Store.Audit.{
  AuditLog, chain_of, last_audit_hash, new_audit_log, append_audit, why_broken, walk, verify_chain,
  newest_since, list_audit,
}
use status_hub.Store.Audit.Chain.{append_all, append_all-IsIntact}
use status_hub.Store.Audit.Evidence.{Collision, hashed_content, verify_chain_evidence}

abbrev toy_marshal : Dict Text ℕ → Text ⊎ Text
toy_marshal [] = inr []
toy_marshal ((k, zero) ∷ m) = inl (codes "bad")
toy_marshal ((k, suc n) ∷ m) = inr (k ++ decimal n)

abbrev toy : Codec ℕ
toy = record { marshal = toy_marshal; rfc3339_nano = decimal; sha256_hex = λ t. t }

abbrev entry : Text → Text → Dict Text ℕ → AuditRecord ℕ
entry id tenant_id payload = record {
  id = id;
  tenant_id = tenant_id;
  event_type = codes "event.received";
  occurred_at = 0;
  recorded_at = 0;
  actor = record { type = codes "system"; id = []; ip = [] };
  subject = record { type = codes "event"; id = id };
  payload = payload;
  corrects = [];
  prev_hash = [];
  hash = [];
}

abbrev first_length : List Text → ℕ
first_length [] = 0
first_length (t ∷ _) = length t

abbrev one_tenant : List (ℕ × AuditRecord ℕ)
one_tenant =
    (5000, entry (codes "1") (codes "a") [])
    ∷ (7001, entry (codes "2") (codes "a") ((codes "k", 3) ∷ []))
    ∷ []

-- Another tenant's record between the two, and one that cannot be hashed.
abbrev two_tenants : List (ℕ × AuditRecord ℕ)
two_tenants =
    (5000, entry (codes "1") (codes "a") [])
    ∷ (6000, entry (codes "9") (codes "b") [])
    ∷ (6500, entry (codes "8") (codes "a") ((codes "k", 0) ∷ []))
    ∷ (7001, entry (codes "2") (codes "a") ((codes "k", 3) ∷ []))
    ∷ []

abbrev log_one : AuditLog ℕ
log_one = append_all toy one_tenant new_audit_log

abbrev log_two : AuditLog ℕ
log_two = append_all toy two_tenants new_audit_log

two_in_chain : (verify_chain toy 0 (codes "a") log_two).records ≡ 2
unfolding append_all append_audit verify_chain chain_of last_audit_hash seal linked compute_hash
    canonical_json hashed_parts frames frame decimal digits lookup insert text_eq walk why_broken
two_in_chain = refl

newest_listed : length (list_audit (codes "a") 7000 (pos 5) log_two) ≡ 1
unfolding append_all append_audit chain_of last_audit_hash seal linked compute_hash canonical_json
    hashed_parts frames frame decimal digits lookup insert text_eq list_audit newest_since
newest_listed = refl

append_all-IsIntact_example :
    ((verify_chain toy 0 (codes "a") log_two).intact ≡ true)
    × ((verify_chain toy 0 (codes "a") log_two).records ≡ length (chain_of (codes "a") log_two))
append_all-IsIntact_example = append_all-IsIntact toy two_tenants 0 (codes "a")

verify_chain_evidence_example :
    Collision toy
    ⊎ (map (hashed_content toy) (chain_of (codes "a") log_one)
        ≡ map (hashed_content toy) (chain_of (codes "a") log_two))
unfolding append_all append_audit verify_chain chain_of last_audit_hash seal linked compute_hash
    canonical_json hashed_parts frames frame decimal digits lookup insert text_eq walk why_broken
verify_chain_evidence_example =
    verify_chain_evidence toy 0 0 (codes "a") (codes "a") log_one log_two refl refl refl refl
