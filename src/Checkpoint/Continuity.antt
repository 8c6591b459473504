-- ===== src/Checkpoint/Continuity.antt =====
-- internal/audit/checkpoint.go: what the comparison with the checkpoint before says of the number of
-- records.
use status_hub.Prelude.{
  ℕ, lookup, ◌≤◌, ◌<◌, ◌≡◌, refl, sym, ap, ◌∙◌, Bool, true, false, List, [], ◌∷◌, ◌++◌, Option,
  none, some, if◌then◌else◌, Text, text_eq, text_eq_iff, arith, ltb, ◌&&◌, inl, inr, Bool-cases,
}
use mathlib.Core.Path.{subst}
use status_hub.Domain.Audit.{Codec}
use status_hub.Store.Audit.{AuditLog, ChainProof, verify_chain}
use status_hub.Checkpoint.{
  Checkpoint, Checkpoints, Crypto, history, put_checkpoint, last_of, latest_checkpoint,
  verify_tenant, checkpoint_of, continued, with_signature, of_proof, sign,
}
use status_hub.Checkpoint.Signature.{
  history-own, history-other, last_of-append, tenant-checkpoint_of,
}

-- Of two checkpoints that are both intact, the later one counts no fewer records.
abbrev Follows : Checkpoint → Checkpoint → Type 0
Follows c d = c.intact ≡ true → d.intact ≡ true → c.records ≤ d.records

-- So it is of each checkpoint of a history and the next one.
unfoldable pub IsContinuous : List Checkpoint → Type 0
IsContinuous [] = Unit
IsContinuous (c ∷ []) = Unit
IsContinuous (c ∷ d ∷ cs) = Follows c d × IsContinuous (d ∷ cs)

abbrev FollowsLast : Option Checkpoint → Checkpoint → Type 0
FollowsLast none c = Unit
FollowsLast (some p) c = Follows p c

IsContinuous-append :
    (cs : List Checkpoint) (c : Checkpoint)
    → IsContinuous cs
    → FollowsLast (last_of cs) c
    → IsContinuous (cs ++ c ∷ [])
unfolding IsContinuous last_of
IsContinuous-append [] c h f = tt
IsContinuous-append (d ∷ []) c h f = (f, tt)
IsContinuous-append (d ∷ e ∷ cs) c h f = (h.0, IsContinuous-append (e ∷ cs) c h.1 f)

nothing_yet : (u : Text) → IsContinuous (history u [])
unfolding history lookup IsContinuous
nothing_yet u = tt

module _ (crypto : Crypto) (signer : Option Text) where
  with_signature-kept :
      (o : Option Text) (c : Checkpoint)
      → ((with_signature crypto o c).intact ≡ c.intact)
        × ((with_signature crypto o c).records ≡ c.records)
  unfolding sign
  with_signature-kept none c = (refl, refl)
  with_signature-kept (some seed) c = (refl, refl)

  compared-Follows :
      (b : Bool) (prev c d : Checkpoint)
      → (prev.intact && ltb c.records prev.records) ≡ b
      → d.intact ≡ false
      → Follows prev (if b then d else c)
  compared-Follows true prev c d p q i j = absurd (ground arith)
  compared-Follows false prev c d p q i j = ground arith

  continued-Follows :
      (o : Option Checkpoint) (c : Checkpoint) → FollowsLast o (continued crypto o c)
  continued-Follows none c = tt
  continued-Follows (some prev) c =
      compared-Follows (prev.intact && ltb c.records prev.records) prev c _ refl refl

  FollowsLast-same :
      (o : Option Checkpoint) (c d : Checkpoint)
      → c.intact ≡ d.intact
      → c.records ≡ d.records
      → FollowsLast o d
      → FollowsLast o c
  FollowsLast-same none c d p q f = tt
  FollowsLast-same (some prev) c d p q f =
      λ i j. subst (λ n. prev.records ≤ n) (sym q) (f i (sym p ∙ j))

  checkpoint_of-FollowsLast :
      (now : ℕ) (t : Text) (proof : ChainProof) (s : Checkpoints)
      → FollowsLast (latest_checkpoint t s) (checkpoint_of crypto signer now t proof s)
  unfolding checkpoint_of
  checkpoint_of-FollowsLast now t proof s =
      let c = continued crypto (latest_checkpoint t s) (of_proof crypto t now proof) in
      FollowsLast-same (latest_checkpoint t s) (with_signature crypto signer c) c
        (with_signature-kept signer c).0 (with_signature-kept signer c).1
        (continued-Follows (latest_checkpoint t s) (of_proof crypto t now proof))

  module _ {Json : Type 0} (codec : Codec Json) where
    -- The store after walks at their times, each of a tenant's chain in whatever the log then is.
    unfoldable pub walk_all : List (ℕ × Text × AuditLog Json) → Checkpoints → Checkpoints
    walk_all [] s = s
    walk_all ((now, t, log) ∷ walks) s =
        walk_all walks (verify_tenant crypto codec signer log now t s).1

    verify_tenant-IsContinuous :
        (log : AuditLog Json) (now : ℕ) (t : Text) (s : Checkpoints)
        → ((u : Text) → IsContinuous (history u s))
        → (u : Text) → IsContinuous (history u (verify_tenant crypto codec signer log now t s).1)
    unfolding verify_tenant latest_checkpoint
    verify_tenant-IsContinuous log now t s h u =
        let proof = verify_chain codec now t log in
        let c = checkpoint_of crypto signer now t proof s in
        let tenant = tenant-checkpoint_of crypto signer now t proof s in
        elim (Bool-cases (text_eq t u)) [
          | inl p ↦
              subst (λ v. IsContinuous (history v (put_checkpoint c s))) ((text_eq_iff t u).0 p)
                (subst IsContinuous (sym (history-own c t s tenant)) (
                  IsContinuous-append (history t s) c (h t)
                    (checkpoint_of-FollowsLast now t proof s)))
          | inr p ↦
              subst IsContinuous
                (sym (history-other c t u s tenant (λ e. ground (arith, text_eq_iff t u)))) (h u)
        ]

    walk_all-kept :
        (walks : List (ℕ × Text × AuditLog Json)) (s : Checkpoints)
        → ((u : Text) → IsContinuous (history u s))
        → (u : Text) → IsContinuous (history u (walk_all walks s))
    unfolding walk_all
    walk_all-kept [] s h u = h u
    walk_all-kept ((now, t, log) ∷ walks) s h u =
        walk_all-kept walks (verify_tenant crypto codec signer log now t s).1
          (verify_tenant-IsContinuous log now t s h) u

    -- From an empty store, whatever happens to the audit log between the walks: of two checkpoints of a
    -- tenant that follow one another and are both intact, the later one counts no fewer records.
    pub walk_all-IsContinuous :
        (walks : List (ℕ × Text × AuditLog Json)) (u : Text)
        → IsContinuous (history u (walk_all walks []))
    walk_all-IsContinuous walks u = walk_all-kept walks [] nothing_yet u

    intact-checkpoint_of :
        (now : ℕ) (t : Text) (proof : ChainProof) (s : Checkpoints) (o : Option Checkpoint)
        → latest_checkpoint t s ≡ o
        → (checkpoint_of crypto signer now t proof s).intact
          ≡ (continued crypto o (of_proof crypto t now proof)).intact
    unfolding checkpoint_of
    intact-checkpoint_of now t proof s o h =
        (with_signature-kept signer
          (continued crypto (latest_checkpoint t s) (of_proof crypto t now proof))).0
        ∙ ap (λ l. (continued crypto l (of_proof crypto t now proof)).intact) h

    lost :
        (b k : Bool) (c d : Checkpoint)
        → b ≡ true
        → k ≡ true
        → c.intact ≡ false
        → (if b && k then c else d).intact ≡ false
    lost b k c d p q h = rw (p, q) h

    skipped :
        (b k : Bool) (c d : Checkpoint) → b ≡ false → (if b && k then c else d).intact ≡ d.intact
    skipped b k c d p = rw (p) refl

    latest-put :
        (c : Checkpoint) (t : Text) (s : Checkpoints)
        → c.tenant_id ≡ t
        → latest_checkpoint t (put_checkpoint c s) ≡ some c
    unfolding latest_checkpoint
    latest-put c t s h = ap last_of (history-own c t s h) ∙ last_of-append c (history t s)

    -- The checkpoint of a chain that has lost records since the last one, which was intact, is not intact;
    -- but it is enough that the next walk finds the chain intact as it then is, with whatever records: the
    -- next checkpoint is intact.
    pub verify_tenant-forgets :
        (log log' : AuditLog Json) (now now' : ℕ) (t : Text) (prev : Checkpoint) (s : Checkpoints)
        → latest_checkpoint t s ≡ some prev
        → prev.intact ≡ true
        → (verify_chain codec now t log).records < prev.records
        → (verify_chain codec now' t log').intact ≡ true
        → let (first, s') = verify_tenant crypto codec signer log now t s in
          let (second, _) = verify_tenant crypto codec signer log' now' t s' in
          (first.intact ≡ false) × (second.intact ≡ true)
    unfolding verify_tenant
    verify_tenant-forgets log log' now now' t prev s l i r j =
        let proof = verify_chain codec now t log in
        let first = checkpoint_of crypto signer now t proof s in
        let broken =
          intact-checkpoint_of now t proof s (some prev) l
          ∙ lost prev.intact (ltb proof.records prev.records) _ _ i (ground arith) refl in
        (
          broken,
          intact-checkpoint_of now' t (verify_chain codec now' t log') (put_checkpoint first s)
                (some first)
                (latest-put first t s (tenant-checkpoint_of crypto signer now t proof s))
              ∙ skipped first.intact (ltb (verify_chain codec now' t log').records first.records) _
                  _ broken
              ∙ j,
        )
