-- ===== src/Store/Audit/Chain.antt =====
-- What it is that VerifyChain checks, and that appended records have it.
use mathlib.Core.Path.{subst}
use status_hub.Prelude.{
  ℕ, ◌≡◌, refl, sym, ap, ◌∙◌, true, not, ◌++◌, ◌∷◌, [], List, length, Option, none, some, ◌⊎◌, ◌↔◌,
  inl, inr, if◌then◌else◌, Text, text_Eq, text_eq, text_eq_iff, lookup, lookup-insert, Bool-cases,
  Option-cases, arith, nat_eq,
}
use status_hub.Domain.Audit.{
  AuditRecord, Codec, genesis_hash, compute_hash, seal, linked, hashed_parts,
}
use status_hub.Store.Audit.{
  AuditLog, head_is, breaks, new_audit_log, chain_of, last_audit_hash, appended, append_audit,
  why_broken, walk, verify_chain,
}

-- The tests of a record, on its links and on its computed hash.
abbrev tests : Text → Text → Text → Text → Text → Text ⊎ Text → Option Text
tests linked_to prev hash unlinked mismatch c =
    if not (text_eq linked_to prev) then some unlinked else elim c [
      | inl err ↦ some err
      | inr want ↦ if not (text_eq want hash) then some mismatch else none
    ]

follows :
    (linked_to prev hash unlinked mismatch : Text) (c : Text ⊎ Text)
    → tests linked_to prev hash unlinked mismatch c ≡ none
    → (linked_to ≡ prev) × (c ≡ inr hash)
follows linked_to prev hash unlinked mismatch (inl err) h =
    ground (arith, text_eq_iff linked_to prev)
follows linked_to prev hash unlinked mismatch (inr want) h = (
  ground (arith, text_eq_iff linked_to prev),
  ap inr (matched (text_eq_iff linked_to prev) (text_eq_iff want hash)),
)
  where
    matched :
        ((text_eq linked_to prev ≡ true) ↔ (linked_to ≡ prev))
        → ((text_eq want hash ≡ true) ↔ (want ≡ hash))
        → want ≡ hash
    matched a b = ground arith

followed :
    (linked_to prev hash unlinked mismatch : Text) (c : Text ⊎ Text)
    → (linked_to ≡ prev) × (c ≡ inr hash)
    → tests linked_to prev hash unlinked mismatch c ≡ none
followed linked_to prev hash unlinked mismatch c h =
    rw (h.1, (text_eq_iff linked_to prev).1 h.0, (text_eq_iff hash hash).1 refl) refl

abbrev pub right_or {ℓ} : {A : Type ℓ} → A → Text ⊎ A → A
right_or a (inl _) = a
right_or a (inr b) = b

abbrev sealed_with : {Json : Type 0} → AuditRecord Json → Text ⊎ Text → Text ⊎ AuditRecord Json
sealed_with q c = elim c [ inl err ↦ inl err | inr h ↦ inr (record q { hash = h }) ]

module _ {Json : Type 0} (codec : Codec Json) where
  -- The record holds the hash before it, and its own.
  abbrev pub IsSealed : Text → AuditRecord Json → Type 0
  IsSealed prev r = (r.prev_hash ≡ prev) × (compute_hash codec r ≡ inr r.hash)

  -- Records that lead from the hash `prev` to the hash `head`.
  abbrev pub IsLinked : Text → List (AuditRecord Json) → Text → Type 0
  IsLinked prev [] head = prev ≡ head
  IsLinked prev (r ∷ rs) head = IsSealed prev r × IsLinked r.hash rs head

  why_broken-IsSealed :
      (prev : Text) (r : AuditRecord Json) → why_broken codec prev r ≡ none → IsSealed prev r
  unfolding why_broken
  why_broken-IsSealed prev r h = follows r.prev_hash prev r.hash _ _ (compute_hash codec r) h

  IsSealed-why_broken :
      (prev : Text) (r : AuditRecord Json) → IsSealed prev r → why_broken codec prev r ≡ none
  unfolding why_broken
  IsSealed-why_broken prev r s = followed r.prev_hash prev r.hash _ _ (compute_hash codec r) s

  pub walk-IsLinked :
      (prev head : Text) (rs : List (AuditRecord Json))
      → walk codec prev rs ≡ head_is head
      → IsLinked prev rs head
  unfolding walk
  walk-IsLinked prev head [] h = ground arith
  walk-IsLinked prev head (r ∷ rs) h = elim (Option-cases (why_broken codec prev r)) [
    | inl p ↦ (why_broken-IsSealed prev r p, walk-IsLinked r.hash head rs (rw (walk, p) at h))
    | inr (why, p) ↦ absurd (no_head (rw (walk, p) at h))
  ]
    where
      no_head : {why : Text} → breaks r.id why ≡ head_is head → ⊥
      no_head h = ground arith

  pub IsLinked-walk :
      (prev head : Text) (rs : List (AuditRecord Json))
      → IsLinked prev rs head
      → walk codec prev rs ≡ head_is head
  unfolding walk
  IsLinked-walk prev head [] h = ap head_is h
  IsLinked-walk prev head (r ∷ rs) h =
      rw (walk, IsSealed-why_broken prev r h.0) (IsLinked-walk r.hash head rs h.1)

  IsLinked-append :
      (prev h : Text) (rs : List (AuditRecord Json)) (r : AuditRecord Json)
      → IsLinked prev rs h
      → IsSealed h r
      → IsLinked prev (rs ++ r ∷ []) r.hash
  IsLinked-append prev h [] r l s = ((s.0 ∙ sym l, s.1), refl)
  IsLinked-append prev h (q ∷ rs) r l s = (l.0, IsLinked-append q.hash h rs r l.1 s)

  with_hash-IsSealed :
      (q r s : AuditRecord Json) (c : Text ⊎ Text)
      → q.tenant_id ≡ r.tenant_id
      → compute_hash codec q ≡ c
      → sealed_with q c ≡ inr s
      → IsSealed q.prev_hash s × (s.tenant_id ≡ r.tenant_id)
  unfolding compute_hash hashed_parts
  with_hash-IsSealed q r s (inl err) t k h = absurd (no_record h)
    where
      no_record : inl err ≡ inr s → ⊥
      no_record h = ground arith
  with_hash-IsSealed q r s (inr d) t k h =
      subst (λ u. IsSealed q.prev_hash u × (u.tenant_id ≡ r.tenant_id)) (ap (right_or s) h)
        ((refl, k), t)

  seal-IsSealed :
      (now : ℕ) (prev : Text) (r s : AuditRecord Json)
      → seal codec now prev r ≡ inr s
      → IsSealed prev s × (s.tenant_id ≡ r.tenant_id)
  unfolding seal linked
  seal-IsSealed now prev r s h =
      with_hash-IsSealed (linked codec now prev r) r s
        (compute_hash codec (linked codec now prev r)) refl refl h

  chain_of-appended :
      (r : AuditRecord Json) (log : AuditLog Json) (t : Text)
      → chain_of t (appended r log)
        ≡ (if text_eq r.tenant_id t then chain_of r.tenant_id log ++ r ∷ [] else chain_of t log)
  unfolding chain_of
  chain_of-appended r log t =
      rw (lookup-insert r.tenant_id t (chain_of r.tenant_id log ++ r ∷ []) log.audit) (ground arith)

  last_audit_hash-appended :
      (r : AuditRecord Json) (log : AuditLog Json) (t : Text)
      → last_audit_hash t (appended r log)
        ≡ (if text_eq r.tenant_id t then r.hash else last_audit_hash t log)
  unfolding last_audit_hash
  last_audit_hash-appended r log t =
      rw (last_audit_hash, lookup-insert r.tenant_id t r.hash log.audit_head) (ground arith)

  -- The chain of each tenant leads from the genesis hash to its head.
  unfoldable pub IsChained : AuditLog Json → Type 0
  IsChained log = (t : Text) → IsLinked genesis_hash (chain_of t log) (last_audit_hash t log)

  new_audit_log-IsChained : IsChained new_audit_log
  unfolding IsChained chain_of last_audit_hash lookup
  new_audit_log-IsChained t = refl

  appended-IsChained :
      (r : AuditRecord Json) (log : AuditLog Json)
      → IsSealed (last_audit_hash r.tenant_id log) r
      → IsChained log
      → IsChained (appended r log)
  unfolding IsChained
  appended-IsChained r log s chained t = elim (Bool-cases (text_eq r.tenant_id t)) [
    | inl p ↦
        rw (chain_of-appended r log t, last_audit_hash-appended r log t, p)
          (IsLinked-append genesis_hash (last_audit_hash r.tenant_id log) (chain_of r.tenant_id log)
            r (chained r.tenant_id) s)
    | inr p ↦ rw (chain_of-appended r log t, last_audit_hash-appended r log t, p) (chained t)
  ]

  append_audit-IsChained :
      (now : ℕ) (r : AuditRecord Json) (log : AuditLog Json)
      → IsChained log
      → IsChained (right_or log (append_audit codec now r log))
  unfolding append_audit
  append_audit-IsChained now r log chained =
      ending (seal codec now (last_audit_hash r.tenant_id log) r) refl
    where
      ending :
          (s : Text ⊎ AuditRecord Json)
          → seal codec now (last_audit_hash r.tenant_id log) r ≡ s
          → IsChained
              (right_or log (elim s [ inl err ↦ inl err | inr sealed ↦ inr (appended sealed log) ]))
      ending (inl err) h = chained
      ending (inr q) h =
          let (s, t) = seal-IsSealed now (last_audit_hash r.tenant_id log) r q h in
          appended-IsChained q log (subst (λ u. IsSealed (last_audit_hash u log) q) (sym t) s)
            chained

  -- The log after appending records at their times; one that cannot be hashed is not appended.
  unfoldable pub append_all : List (ℕ × AuditRecord Json) → AuditLog Json → AuditLog Json
  append_all [] log = log
  append_all ((now, r) ∷ rest) log = append_all rest (right_or log (append_audit codec now r log))

  append_all-IsChained :
      (rs : List (ℕ × AuditRecord Json)) (log : AuditLog Json)
      → IsChained log
      → IsChained (append_all rs log)
  unfolding append_all
  append_all-IsChained [] log h = h
  append_all-IsChained ((now, r) ∷ rest) log h =
      append_all-IsChained rest (right_or log (append_audit codec now r log))
        (append_audit-IsChained now r log h)

  IsChained-verify_chain :
      (now : ℕ) (t : Text) (log : AuditLog Json)
      → IsChained log
      → ((verify_chain codec now t log).intact ≡ true)
        × ((verify_chain codec now t log).records ≡ length (chain_of t log))
  unfolding verify_chain IsChained
  IsChained-verify_chain now t log h = elim (Bool-cases (nat_eq (length (chain_of t log)) 0)) [
    | inl p ↦ rw p (refl, refl)
    | inr p ↦
        rw (p, IsLinked-walk genesis_hash (last_audit_hash t log) (chain_of t log) (h t))
          (refl, refl)
  ]

  -- From an empty log, whatever records are appended, of whatever tenants and at whatever times,
  -- each tenant's chain verifies as intact, with all the records it holds.
  pub append_all-IsIntact :
      (rs : List (ℕ × AuditRecord Json)) (now : ℕ) (t : Text)
      → let log = append_all rs new_audit_log in
        ((verify_chain codec now t log).intact ≡ true)
        × ((verify_chain codec now t log).records ≡ length (chain_of t log))
  append_all-IsIntact rs now t =
      IsChained-verify_chain now t (append_all rs new_audit_log)
        (append_all-IsChained rs new_audit_log new_audit_log-IsChained)
