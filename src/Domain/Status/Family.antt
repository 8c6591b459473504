-- ===== src/Domain/Status/Family.antt =====
-- The event types that families and statuses compose.
use status_hub.Prelude.{
  ℕ, ◌≡◌, refl, ap, Bool, true, false, not, ◌&&◌, ◌||◌, ◌++◌, ◌∷◌, [], Option, none, some, ◌⊎◌, inl,
  inr, ◌==◌, if◌then◌else◌, nat_eq, Bool-cases, arith, Text, text_Eq, text_eq, text_eq_iff, codes,
}
use status_hub.Domain.Status.{
  member, valid_event_type, event_unknown, chargeback_opened, chargeback_resolved, family,
  suffix_for, composed, event_type_for, status_pending, status_success, status_failed,
  status_reversed,
}

abbrev pub no_point : Text → Bool
no_point [] = true
no_point (c ∷ t) = not (nat_eq c b'.') && no_point t

-- A recognised type that is unknown or of the family.
unfoldable pub IsOf : Text → Text → Type 0
IsOf fam t = (valid_event_type t ≡ true) × ((t ≡ event_unknown) ⊎ (family t ≡ fam))

family-append : (fam s : Text) → no_point fam ≡ true → family (fam ++ (46 ∷ s)) ≡ fam
unfolding family
family-append [] s h = refl
family-append (c ∷ fam) s h =
    rw (not_point c fam h) (ap (λ t. c ∷ t) (family-append fam s (ground arith)))
  where
    not_point : (c : ℕ) (fam : Text) → no_point (c ∷ fam) ≡ true → nat_eq c 46 ≡ false
    not_point c fam h = ground arith

unknown-IsOf : (fam : Text) → IsOf fam event_unknown
unfolding IsOf valid_event_type member text_eq
unknown-IsOf fam = (refl, inl refl)

dispute-IsOf :
    (opened resolved : Bool)
    → IsOf (codes "chargeback") (
        if opened
        then chargeback_opened
        else if resolved
        then chargeback_resolved
        else event_unknown)
unfolding IsOf valid_event_type member text_eq family
dispute-IsOf true resolved = (refl, inr refl)
dispute-IsOf false true = (refl, inr refl)
dispute-IsOf false false = (refl, inl refl)

composed-IsOf :
    (fam : Text) (suffix : Option Text) → no_point fam ≡ true → IsOf fam (composed fam suffix)
composed-IsOf fam none h = unknown-IsOf fam
composed-IsOf fam (some suffix) h = elim (Bool-cases (valid_event_type (fam ++ (46 ∷ suffix)))) [
  | inl p ↦ rw p (unfold IsOf in (p, inr (family-append fam suffix h)))
  | inr p ↦ rw p (unknown-IsOf fam)
]

-- The event type composed of a family without a point and of any status is recognised, and is
-- "unknown" or of that family.
pub event_type_for-IsOf : (fam s : Text) → no_point fam ≡ true → IsOf fam (event_type_for fam s)
unfolding event_type_for
event_type_for-IsOf fam s h = elim (Bool-cases (text_eq fam (codes "chargeback"))) [
  | inl p ↦ rw p (
      rw ((text_eq_iff fam (codes "chargeback")).0 p) (
        dispute-IsOf (s == status_pending)
          ((s == status_success) || (s == status_failed) || (s == status_reversed))))
  | inr p ↦ rw p (composed-IsOf fam (suffix_for s) h)
]
