-- ===== src/Receive/Headers.antt =====
-- Secrets in headers are not stored.
use status_hub.Prelude.{
  ◌≡◌, sym, ap, ◌∙◌, true, false, ◌∷◌, [], List, map, none, some, ◌⊎◌, inl, inr, Bool-cases,
  Option-cases, Text, text_Eq, text_eq, text_eq_iff, Dict, lookup, lookup-insert,
}
use status_hub.Domain.Config.{lower}
use status_hub.Receive.{sensitive_headers, is_sensitive, hidden, kept_value, sanitise_headers}

kept_value-hidden :
    (k : Text) (vs : List Text) (v : Text)
    → is_sensitive sensitive_headers k ≡ true
    → kept_value k vs ≡ some v
    → v ≡ hidden
unfolding kept_value
kept_value-hidden k vs v s h = elim (Bool-cases (is_sensitive sensitive_headers k)) [
  | inl p ↦ some_path (rw (kept_value, p) at h)
  | inr p ↦ absurd (clash (sym s ∙ p))
]
  where
    some_path : some hidden ≡ some v → v ≡ hidden
    some_path e = cc

    clash : true ≡ false → ⊥
    clash e = cc

sanitise_headers-value :
    (h : Dict Text (List Text)) (k v : Text)
    → is_sensitive sensitive_headers k ≡ true
    → lookup k (sanitise_headers h) ≡ some v
    → v ≡ hidden
unfolding sanitise_headers lookup
sanitise_headers-value [] k v s p = absurd (nothing p)
  where
    nothing : none ≡ some v → ⊥
    nothing e = cc
sanitise_headers-value ((name, vs) ∷ h) k v s p =
    elim (Option-cases (kept_value (map lower name) vs)) [
      | inl q ↦ sanitise_headers-value h k v s (rw (sanitise_headers, q) at p)
      | inr (kept, q) ↦ elim (Bool-cases (text_eq (map lower name) k)) [
        | inl same ↦
            (let e : map lower name ≡ k = (text_eq_iff (map lower name) k).0 same in
              some_path (
                rw
                  (
                    sanitise_headers,
                    q,
                    lookup-insert (map lower name) k kept (sanitise_headers h),
                    same,
                  )
                  at p)
              ∙ kept_value-hidden (map lower name) vs kept
                  (ap (is_sensitive sensitive_headers) e ∙ s) q)
        | inr other ↦ sanitise_headers-value h k v s (
            rw
              (
                sanitise_headers,
                q,
                lookup-insert (map lower name) k kept (sanitise_headers h),
                other,
              )
              at p)
      ]
    ]
  where
    some_path : {a b : Text} → some a ≡ some b → b ≡ a
    some_path e = cc

-- No value of a header that carries a secret is stored, however the request spells its name and
-- however often it comes: under the name there is nothing, or the placeholder.
pub sanitise_headers-hidden :
    (h : Dict Text (List Text)) (k : Text)
    → is_sensitive sensitive_headers k ≡ true
    → (lookup k (sanitise_headers h) ≡ none) ⊎ (lookup k (sanitise_headers h) ≡ some hidden)
sanitise_headers-hidden h k s = elim (Option-cases (lookup k (sanitise_headers h))) [
  | inl p ↦ inl p
  | inr (v, p) ↦ inr (p ∙ ap some (sanitise_headers-value h k v s p))
]
