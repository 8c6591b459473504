-- ===== src/Store/Audit/Evidence.antt =====
-- Two chains that verify with one head hold the same records, or SHA-256 has a collision.
use mathlib.Core.Path.{subst}
use status_hub.Prelude.{
  ℕ, zero, suc, ◌≡◌, ◌≢◌, refl, sym, ap, ◌∙◌, true, false, ◌++◌, ◌∷◌, [], List, map, length, drop,
  ◌⊎◌, inl, inr, Text, text_Eq, text_eq, text_eq_iff, codes, Bool-cases, Option-cases, arith,
  nat_eq,
}
use status_hub.Domain.Audit.{
  AuditRecord, Codec, genesis_hash, compute_hash, canonical_json, frames, hashed_parts,
}
use status_hub.Domain.Audit.Framing.{frames_injective}
use status_hub.Store.Audit.{
  AuditLog, ChainProof, Walk, head_is, breaks, chain_of, why_broken, walk, walked, verify_chain,
}
use status_hub.Store.Audit.Chain.{IsLinked, right_or, walk-IsLinked}

abbrev last_part : List Text → Text
last_part [] = []
last_part (p ∷ []) = p
last_part (_ ∷ p ∷ ps) = last_part (p ∷ ps)

abbrev pub redated : {Json : Type 0} → (AuditRecord Json → ℕ) → AuditRecord Json → AuditRecord Json
redated f r = record r { recorded_at = f r }

module _ {Json : Type 0} (codec : Codec Json) where
  -- Two texts with one SHA-256.
  unfoldable pub Collision : Type 0
  Collision = (a : Text) × (b : Text) × (a ≢ b) × (codec.sha256_hex a ≡ codec.sha256_hex b)

  abbrev content_with : AuditRecord Json → Text ⊎ Text → Text ⊎ List Text
  content_with r (inl err) = inl err
  content_with r (inr payload) = inr (hashed_parts codec r payload)

  -- What of a record is hashed: its parts, or the error where it has no hash.
  unfoldable pub hashed_content : AuditRecord Json → Text ⊎ List Text
  hashed_content r = content_with r (canonical_json codec r.payload)

  no_hash : {err h : Text} → inl err ≡ inr h → ⊥
  no_hash h = ground arith

  same_sum : (a b : Text) → codec.sha256_hex a ≡ codec.sha256_hex b → Collision ⊎ (a ≡ b)
  unfolding Collision
  same_sum a b h = elim (Bool-cases (text_eq a b)) [
    | inl p ↦ inr ((text_eq_iff a b).0 p)
    | inr p ↦ inl (a, b, differ p, h)
  ]
    where
      differ : text_eq a b ≡ false → a ≢ b
      differ p e = ground (arith, text_eq_iff a b)

  same_frames :
      (ps qs : List Text)
      → codec.sha256_hex (frames ps) ≡ codec.sha256_hex (frames qs)
      → Collision ⊎ (ps ≡ qs)
  same_frames ps qs h = elim (same_sum (frames ps) (frames qs) h) [
    | inl c ↦ inl c
    | inr e ↦ inr (frames_injective ps qs e)
  ]

  same_hash :
      (r s : AuditRecord Json) (h : Text)
      → compute_hash codec r ≡ inr h
      → compute_hash codec s ≡ inr h
      → Collision ⊎ ((hashed_content r ≡ hashed_content s) × (r.prev_hash ≡ s.prev_hash))
  unfolding compute_hash hashed_content hashed_parts
  same_hash r s h a b = hashed (canonical_json codec r.payload) (canonical_json codec s.payload) a b
    where
      hashed :
          (c d : Text ⊎ Text)
          → (elim c [
            | inl err ↦ inl (codes "audit payload is not hashable: " ++ err)
            | inr payload ↦
                inr (codes "sha256:" ++ codec.sha256_hex (frames (hashed_parts codec r payload)))
          ])
            ≡ inr h
          → (elim d [
            | inl err ↦ inl (codes "audit payload is not hashable: " ++ err)
            | inr payload ↦
                inr (codes "sha256:" ++ codec.sha256_hex (frames (hashed_parts codec s payload)))
          ])
            ≡ inr h
          → Collision ⊎ ((content_with r c ≡ content_with s d) × (r.prev_hash ≡ s.prev_hash))
      hashed (inl err) d a b = absurd (no_hash a)
      hashed (inr p) (inl err) a b = absurd (no_hash b)
      hashed (inr p) (inr q) a b =
          elim (same_frames (hashed_parts codec r p) (hashed_parts codec s q)
            (ap (λ t. drop 7 (right_or [] t)) (a ∙ sym b))) [
              | inl c ↦ inl c
              | inr e ↦ inr (ap inr e, ap last_part e)
            ]

  evidence :
      (prev prev' head : Text) (rs ss : List (AuditRecord Json))
      → length rs ≡ length ss
      → IsLinked codec prev rs head
      → IsLinked codec prev' ss head
      → Collision ⊎ ((prev ≡ prev') × (map hashed_content rs ≡ map hashed_content ss))
  evidence prev prev' head [] [] l a b = inr (a ∙ sym b, refl)
  evidence prev prev' head [] (s ∷ ss) l a b = absurd (omega (arith, l))
  evidence prev prev' head (r ∷ rs) [] l a b = absurd (omega (arith, l))
  evidence prev prev' head (r ∷ rs) (s ∷ ss) l a b =
      elim (evidence r.hash s.hash head rs ss (omega (arith, l)) a.1 b.1) [
        | inl c ↦ inl c
        | inr (e, m) ↦ elim (same_hash r s s.hash (a.0.1 ∙ ap inr e) b.0.1) [
          | inl c ↦ inl c
          | inr (k, p) ↦ inr (sym a.0.0 ∙ p ∙ b.0.0, cons_content k m)
        ]
      ]
    where
      cons_content :
          {c d : Text ⊎ List Text} {cs ds : List (Text ⊎ List Text)}
          → c ≡ d
          → cs ≡ ds
          → c ∷ cs ≡ d ∷ ds
      cons_content k m = rw (k, m) refl

  walked_head :
      (proof : ChainProof) (w : Walk)
      → (walked codec proof w).intact ≡ true
      → w ≡ head_is (walked codec proof w).head
  walked_head proof (head_is h) e = refl
  walked_head proof (breaks id why) e = absurd (ground arith)

  head-verify_chain :
      (now : ℕ) (t : Text) (log : AuditLog Json) (n : ℕ)
      → length (chain_of t log) ≡ suc n
      → (verify_chain codec now t log).intact ≡ true
      → IsLinked codec genesis_hash (chain_of t log) (verify_chain codec now t log).head
  unfolding verify_chain
  head-verify_chain now t log n l h = rw (nonzero n l) (
      walk-IsLinked codec genesis_hash _ (chain_of t log)
        (walked_head _ (walk codec genesis_hash (chain_of t log)) (rw (nonzero n l) at h)))
    where
      nonzero : {m : ℕ} (n : ℕ) → m ≡ suc n → nat_eq m 0 ≡ false
      nonzero n l = ground arith

  records-verify_chain :
      (now : ℕ) (t : Text) (log : AuditLog Json)
      → (verify_chain codec now t log).records ≡ length (chain_of t log)
  unfolding verify_chain
  records-verify_chain now t log = elim (Bool-cases (nat_eq (length (chain_of t log)) 0)) [
    | inl p ↦ rw p refl
    | inr p ↦ rw p (records-walked _ (walk codec genesis_hash (chain_of t log)))
  ]
    where
      records-walked :
          (proof : ChainProof) (w : Walk) → (walked codec proof w).records ≡ proof.records
      records-walked proof (head_is h) = refl
      records-walked proof (breaks id why) = refl

  agree :
      (now now' : ℕ) (t t' : Text) (a b : AuditLog Json) (n : ℕ)
      → (verify_chain codec now t a).intact ≡ true
      → (verify_chain codec now' t' b).intact ≡ true
      → (verify_chain codec now t a).head ≡ (verify_chain codec now' t' b).head
      → length (chain_of t a) ≡ n
      → length (chain_of t' b) ≡ n
      → Collision ⊎ (map hashed_content (chain_of t a) ≡ map hashed_content (chain_of t' b))
  agree now now' t t' a b zero i j e l k =
      inr (none_hashed (chain_of t a) l ∙ sym (none_hashed (chain_of t' b) k))
    where
      none_hashed : (rs : List (AuditRecord Json)) → length rs ≡ 0 → map hashed_content rs ≡ []
      none_hashed [] l = refl
      none_hashed (r ∷ rs) l = absurd (omega (arith, l))
  agree now now' t t' a b (suc n) i j e l k =
      elim (evidence genesis_hash genesis_hash (verify_chain codec now' t' b).head (chain_of t a)
        (chain_of t' b) (l ∙ sym k)
        (subst (IsLinked codec genesis_hash (chain_of t a)) e (head-verify_chain now t a n l i))
        (head-verify_chain now' t' b n k j)) [ inl c ↦ inl c | inr (_, m) ↦ inr m ]

  -- Two chains that verify as intact, with as many records and one head, agree in all that is
  -- hashed of each record, in order, unless two different texts have one SHA-256, which the proof
  -- then exhibits. So nothing that is hashed can be changed behind a head that was noted.
  pub verify_chain_evidence :
      (now now' : ℕ) (t t' : Text) (a b : AuditLog Json)
      → (verify_chain codec now t a).intact ≡ true
      → (verify_chain codec now' t' b).intact ≡ true
      → (verify_chain codec now t a).records ≡ (verify_chain codec now' t' b).records
      → (verify_chain codec now t a).head ≡ (verify_chain codec now' t' b).head
      → Collision ⊎ (map hashed_content (chain_of t a) ≡ map hashed_content (chain_of t' b))
  verify_chain_evidence now now' t t' a b i j n e =
      agree now now' t t' a b (length (chain_of t' b)) i j e
        (sym (records-verify_chain now t a) ∙ n ∙ records-verify_chain now' t' b) refl

  -- The walk of a chain ends the same, at the same head or at the same break, whatever the times
  -- are changed to at which its records say they were recorded.
  pub walk-redated :
      (f : AuditRecord Json → ℕ) (prev : Text) (rs : List (AuditRecord Json))
      → walk codec prev (map (redated f) rs) ≡ walk codec prev rs
  unfolding walk why_broken compute_hash hashed_parts
  walk-redated f prev [] = refl
  walk-redated f prev (r ∷ rs) = elim (Option-cases (why_broken codec prev r)) [
    | inl p ↦ rw (walk, p) (walk-redated f r.hash rs)
    | inr (why, p) ↦ rw (walk, p) refl
  ]
