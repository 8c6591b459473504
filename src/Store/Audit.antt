-- ===== src/Store/Audit.antt =====
-- internal/store/memory_audit.go: the audit records of the in-memory store, one chain for each
-- tenant.
pub mod Chain
pub mod Evidence
use status_hub.Prelude.{
  ℕ, zero, suc, Bool, true, false, not, ◌&&◌, ◌++◌, ◌∷◌, [], List, length, Option, none, some, ◌⊎◌,
  inl, inr, ◌==◌, if◌then◌else◌, Text, text_Eq, codes, Dict, lookup, insert, ltb, leb, nat_eq, ℤ,
  pos, negsuc,
}
use status_hub.Domain.Audit.{AuditRecord, Codec, genesis_hash, compute_hash, seal}

pub record AuditLog (Json : Type 0) : Type 0 where
  pub audit : Dict Text (List (AuditRecord Json))
  pub audit_head : Dict Text Text

pub record ChainProof : Type 0 where
  pub tenant_id : Text
  pub records : ℕ
  pub from : ℕ
  pub to : ℕ
  pub head : Text
  pub intact : Bool
  pub broken_at : Text
  pub reason : Text
  pub verified_at : ℕ

-- How the walk along a chain ends: at a head, or at the first record that does not follow.
pub data Walk : Type 0 where
  head_is : Text → Walk
  breaks : Text → Text → Walk

abbrev pub list_limit : ℤ → ℕ
list_limit (pos zero) = 100
list_limit (pos (suc n)) = if ltb 1000 (suc n) then 100 else suc n
list_limit (negsuc _) = 100

module _ {Json : Type 0} where
  abbrev pub new_audit_log : AuditLog Json
  new_audit_log = record { audit = []; audit_head = [] }

  -- A key that is missing has the zero value.
  abbrev pub or_empty : Option (List (AuditRecord Json)) → List (AuditRecord Json)
  or_empty none = []
  or_empty (some rs) = rs

  unfoldable pub chain_of : Text → AuditLog Json → List (AuditRecord Json)
  chain_of tenant_id log = or_empty (lookup tenant_id log.audit)

  unfoldable pub last_audit_hash : Text → AuditLog Json → Text
  last_audit_hash tenant_id log = elim (lookup tenant_id log.audit_head) [
    | none ↦ genesis_hash
    | some h ↦ h
  ]

  abbrev pub appended : AuditRecord Json → AuditLog Json → AuditLog Json
  appended r log = record {
    audit = insert r.tenant_id (chain_of r.tenant_id log ++ r ∷ []) log.audit;
    audit_head = insert r.tenant_id r.hash log.audit_head;
  }

  -- The loop of ListAudit, over the records from the newest on.
  unfoldable pub newest_since : ℕ → ℕ → List (AuditRecord Json) → List (AuditRecord Json)
  newest_since since zero rs = []
  newest_since since (suc left) [] = []
  newest_since since (suc left) (r ∷ rs) =
      let older = newest_since since left rs in
      if not (nat_eq since 0) && ltb r.recorded_at since then [] else r ∷ older

  abbrev pub reverse_onto :
      List (AuditRecord Json) → List (AuditRecord Json) → List (AuditRecord Json)
  reverse_onto acc [] = acc
  reverse_onto acc (r ∷ rs) = reverse_onto (r ∷ acc) rs

  unfoldable pub list_audit : Text → ℕ → ℤ → AuditLog Json → List (AuditRecord Json)
  list_audit tenant_id since limit log =
      newest_since since (list_limit limit) (reverse_onto [] (chain_of tenant_id log))

  abbrev pub first_recorded_at : List (AuditRecord Json) → ℕ
  first_recorded_at [] = 0
  first_recorded_at (r ∷ _) = r.recorded_at

  abbrev pub last_recorded_at : List (AuditRecord Json) → ℕ
  last_recorded_at [] = 0
  last_recorded_at (r ∷ []) = r.recorded_at
  last_recorded_at (_ ∷ r ∷ rs) = last_recorded_at (r ∷ rs)

  module _ (codec : Codec Json) where
    -- An error leaves the log as it was.
    unfoldable pub append_audit : ℕ → AuditRecord Json → AuditLog Json → Text ⊎ AuditLog Json
    append_audit now r log = elim (seal codec now (last_audit_hash r.tenant_id log) r) [
      | inl err ↦ inl err
      | inr sealed ↦ inr (appended sealed log)
    ]

    -- Why a record does not follow a hash, if it does not.
    unfoldable pub why_broken : Text → AuditRecord Json → Option Text
    why_broken prev r =
        if not (r.prev_hash == prev)
        then some (
            codes "record links to "
            ++ r.prev_hash
            ++ codes " but the previous record hashed to "
            ++ prev)
        else elim (compute_hash codec r) [
          | inl err ↦ some err
          | inr want ↦
              if not (want == r.hash)
              then some (codes "record content does not match its stored hash")
              else none
        ]

    -- The loop of VerifyChain, from the hash `prev`.
    unfoldable pub walk : Text → List (AuditRecord Json) → Walk
    walk prev [] = head_is prev
    walk prev (r ∷ rs) =
        let next = walk r.hash rs in
        elim (why_broken prev r) [ none ↦ next | some why ↦ breaks r.id why ]

    abbrev pub walked : ChainProof → Walk → ChainProof
    walked proof (head_is h) = record proof { head = h }
    walked proof (breaks id why) = record proof { intact = false; broken_at = id; reason = why }

    unfoldable pub verify_chain : ℕ → Text → AuditLog Json → ChainProof
    verify_chain now tenant_id log =
        let rs = chain_of tenant_id log in
        let proof : ChainProof = record {
          tenant_id = tenant_id;
          records = length rs;
          from = first_recorded_at rs;
          to = last_recorded_at rs;
          head = [];
          intact = true;
          broken_at = [];
          reason = [];
          verified_at = now;
        } in
        if nat_eq (length rs) 0 then proof else walked proof (walk genesis_hash rs)
