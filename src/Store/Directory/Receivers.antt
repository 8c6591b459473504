-- ===== src/Store/Directory/Receivers.antt =====
-- The URL of an endpoint leads to that endpoint.
use mathlib.Core.Path.{subst}
use status_hub.Prelude.{
  ◌≡◌, refl, ap, true, false, ◌∷◌, [], some, inl, inr, Bool-cases, arith, Text, text_Eq, text_eq,
  text_eq_iff, Dict, lookup, insert,
}
use status_hub.Domain.Tenancy.{Endpoint, Tenant}
use status_hub.Store.Memory.{Memory, StoreError, stored}
use status_hub.Store.Directory.{create_endpoint, token_taken, find_receiver, resolve_receiver}

text_eq_refl : (t : Text) → text_eq t t ≡ true
text_eq_refl t = (text_eq_iff t t).1 refl

find_receiver-insert :
    (e : Endpoint) (es : Dict Text Endpoint)
    → token_taken e.receiver_token es ≡ false
    → find_receiver e.tenant_id e.receiver_token (insert e.id e es) ≡ some e
unfolding find_receiver insert token_taken
find_receiver-insert e [] h =
    ground (arith, text_eq_refl e.tenant_id, text_eq_refl e.receiver_token)
find_receiver-insert e ((k, f) ∷ es) h =
    ground
      (arith, text_eq_refl e.tenant_id, text_eq_refl e.receiver_token, find_receiver-insert e es)

resolve_receiver-insert :
    (e : Endpoint) (slug : Text) (t : Tenant) (m : Memory)
    → lookup slug m.tenant_by_slug ≡ some e.tenant_id
    → lookup e.tenant_id m.tenants ≡ some t
    → token_taken e.receiver_token m.endpoints ≡ false
    → resolve_receiver slug e.provider e.environment e.receiver_token
        (record m { endpoints = insert e.id e m.endpoints })
      ≡ some (e, t)
unfolding resolve_receiver
resolve_receiver-insert e slug t m p q h =
    rw
      (
        resolve_receiver,
        p,
        find_receiver-insert e m.endpoints h,
        text_eq_refl e.provider,
        text_eq_refl e.environment,
        q,
      )
      refl

-- An endpoint that is created is the one that its tenant's slug, its provider, its environment and
-- its token resolve to.
pub resolve_receiver-create_endpoint :
    (e : Endpoint) (slug : Text) (t : Tenant) (m m' : Memory)
    → lookup slug m.tenant_by_slug ≡ some e.tenant_id
    → lookup e.tenant_id m.tenants ≡ some t
    → create_endpoint e m ≡ inr m'
    → resolve_receiver slug e.provider e.environment e.receiver_token m' ≡ some (e, t)
unfolding create_endpoint
resolve_receiver-create_endpoint e slug t m m' p q h =
    elim (Bool-cases (token_taken e.receiver_token m.endpoints)) [
      | inl taken ↦ absurd (refused (rw (create_endpoint, taken) at h))
      | inr free ↦
          subst
            (λ n. resolve_receiver slug e.provider e.environment e.receiver_token n ≡ some (e, t))
            (ap (stored m) (rw (create_endpoint, free) at h))
            (resolve_receiver-insert e slug t m p q free)
    ]
  where
    refused : {why : StoreError} → inl why ≡ inr m' → ⊥
    refused h = ground arith
