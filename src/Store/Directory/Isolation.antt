-- ===== src/Store/Directory/Isolation.antt =====
-- What one tenant's calls change is that tenant's alone.
use status_hub.Prelude.{
  ◌≡◌, ◌≢◌, refl, sym, ap, ◌∙◌, false, ◌∷◌, [], List, Option, none, some, inl, inr, if◌then◌else◌,
  Bool-cases, Option-cases, arith, Text, text_Eq, text_eq, text_eq_iff, Dict, lookup, insert,
  delete, lookup-insert, lookup-delete,
}
use status_hub.Domain.Tenancy.{Endpoint}
use status_hub.Domain.Config.{Destination}
use status_hub.Store.Memory.{Memory, stored, get_destination}
use status_hub.Store.Directory.{
  get_endpoint, update_endpoint, delete_endpoint, update_destination, delete_destination,
}

-- A call that is made on behalf of a tenant.
pub data TenantCall : Type 0 where
  endpoint_update : Endpoint → TenantCall
  endpoint_delete : Text → TenantCall
  destination_update : Destination → TenantCall
  destination_delete : Text → TenantCall

abbrev pub apply_call : Text → TenantCall → Memory → Memory
apply_call tenant_id (endpoint_update e) m = stored m (update_endpoint tenant_id e m)
apply_call tenant_id (endpoint_delete id) m = stored m (delete_endpoint tenant_id id m)
apply_call tenant_id (destination_update d) m = stored m (update_destination tenant_id d m)
apply_call tenant_id (destination_delete id) m = stored m (delete_destination tenant_id id m)

-- The entry of a map that a tenant is shown: one that it owns.
abbrev shown {ℓ} : {V : Type ℓ} → (V → Text) → Text → Option V → Option V
shown owner t o = elim o [ none ↦ none | some v ↦ if text_eq (owner v) t then some v else none ]

module _ {ℓ} {V : Type ℓ} (owner : V → Text) (t other : Text) (differ : t ≢ other) where
  shown-other : (v : V) → owner v ≡ t → shown owner other (some v) ≡ none
  shown-other v e = rw (not_same (owner v) e) refl
    where
      not_same : (o : Text) → o ≡ t → text_eq o other ≡ false
      not_same o e = elim (Bool-cases (text_eq o other)) [
        | inl p ↦ absurd (differ (sym e ∙ (text_eq_iff o other).0 p))
        | inr p ↦ p
      ]

  -- A tenant's entry is replaced by another of the tenant's, or is deleted.
  module _ (k id : Text) (old : V) (m : Dict Text V) (held : lookup k m ≡ some old)
      (owned : owner old ≡ t) where
    insert-shown :
        (new : V)
        → owner new ≡ t
        → shown owner other (lookup id (insert k new m)) ≡ shown owner other (lookup id m)
    insert-shown new e = elim (Bool-cases (text_eq k id)) [
      | inl p ↦
          rw (lookup-insert k id new m, p)
            (shown-other new e
              ∙ sym (
                  ap (shown owner other)
                    (ap (λ j. lookup j m) (sym ((text_eq_iff k id).0 p)) ∙ held)
                  ∙ shown-other old owned))
      | inr p ↦ rw (lookup-insert k id new m, p) refl
    ]

    delete-shown : shown owner other (lookup id (delete k m)) ≡ shown owner other (lookup id m)
    delete-shown = elim (Bool-cases (text_eq k id)) [
      | inl p ↦
          rw (lookup-delete k id m, p)
            (sym (
              ap (shown owner other) (ap (λ j. lookup j m) (sym ((text_eq_iff k id).0 p)) ∙ held)
              ∙ shown-other old owned))
      | inr p ↦ rw (lookup-delete k id m, p) refl
    ]

module _ (t other : Text) (m : Memory) (differ : t ≢ other) (id : Text) where
  update_endpoint-other :
      (e : Endpoint)
      → get_endpoint other id (stored m (update_endpoint t e m)) ≡ get_endpoint other id m
  unfolding get_endpoint update_endpoint
  update_endpoint-other e = elim (Option-cases (lookup e.id m.endpoints)) [
    | inl p ↦ rw (stored, update_endpoint, p) refl
    | inr (old, p) ↦ elim (Bool-cases (text_eq old.tenant_id t)) [
      | inl q ↦
          rw (stored, update_endpoint, p, q)
            (insert-shown (λ (v : Endpoint). v.tenant_id) t other differ e.id id old m.endpoints p
              ((text_eq_iff old.tenant_id t).0 q) (record e { tenant_id = t }) refl)
      | inr q ↦ rw (stored, update_endpoint, p, q) refl
    ]
  ]

  delete_endpoint-other :
      (k : Text)
      → get_endpoint other id (stored m (delete_endpoint t k m)) ≡ get_endpoint other id m
  unfolding get_endpoint delete_endpoint
  delete_endpoint-other k = elim (Option-cases (lookup k m.endpoints)) [
    | inl p ↦ rw (stored, delete_endpoint, p) refl
    | inr (old, p) ↦ elim (Bool-cases (text_eq old.tenant_id t)) [
      | inl q ↦
          rw (stored, delete_endpoint, p, q)
            (delete-shown (λ (v : Endpoint). v.tenant_id) t other differ k id old m.endpoints p
              ((text_eq_iff old.tenant_id t).0 q))
      | inr q ↦ rw (stored, delete_endpoint, p, q) refl
    ]
  ]

  update_destination-other :
      (e : Destination)
      → get_destination other id (stored m (update_destination t e m)) ≡ get_destination other id m
  unfolding get_destination update_destination
  update_destination-other e = elim (Option-cases (lookup e.id m.destinations)) [
    | inl p ↦ rw (stored, update_destination, p) refl
    | inr (old, p) ↦ elim (Bool-cases (text_eq old.tenant_id t)) [
      | inl q ↦
          rw (stored, update_destination, p, q)
            (insert-shown (λ (v : Destination). v.tenant_id) t other differ e.id id old
              m.destinations p ((text_eq_iff old.tenant_id t).0 q) (record e { tenant_id = t })
              refl)
      | inr q ↦ rw (stored, update_destination, p, q) refl
    ]
  ]

  delete_destination-other :
      (k : Text)
      → get_destination other id (stored m (delete_destination t k m)) ≡ get_destination other id m
  unfolding get_destination delete_destination
  delete_destination-other k = elim (Option-cases (lookup k m.destinations)) [
    | inl p ↦ rw (stored, delete_destination, p) refl
    | inr (old, p) ↦ elim (Bool-cases (text_eq old.tenant_id t)) [
      | inl q ↦
          rw (stored, delete_destination, p, q)
            (delete-shown (λ (v : Destination). v.tenant_id) t other differ k id old m.destinations
              p ((text_eq_iff old.tenant_id t).0 q))
      | inr q ↦ rw (stored, delete_destination, p, q) refl
    ]
  ]

  endpoint-destinations :
      (e : Endpoint)
      → get_destination other id (stored m (update_endpoint t e m)) ≡ get_destination other id m
  unfolding get_destination update_endpoint
  endpoint-destinations e = ground arith

  endpoint_gone-destinations :
      (k : Text)
      → get_destination other id (stored m (delete_endpoint t k m)) ≡ get_destination other id m
  unfolding get_destination delete_endpoint
  endpoint_gone-destinations k = ground arith

  destination-endpoints :
      (d : Destination)
      → get_endpoint other id (stored m (update_destination t d m)) ≡ get_endpoint other id m
  unfolding get_endpoint update_destination
  destination-endpoints d = ground arith

  destination_gone-endpoints :
      (k : Text)
      → get_endpoint other id (stored m (delete_destination t k m)) ≡ get_endpoint other id m
  unfolding get_endpoint delete_destination
  destination_gone-endpoints k = ground arith

  apply_call-other :
      (call : TenantCall)
      → (get_endpoint other id (apply_call t call m) ≡ get_endpoint other id m)
        × (get_destination other id (apply_call t call m) ≡ get_destination other id m)
  apply_call-other (endpoint_update e) = (update_endpoint-other e, endpoint-destinations e)
  apply_call-other (endpoint_delete k) = (delete_endpoint-other k, endpoint_gone-destinations k)
  apply_call-other (destination_update d) = (destination-endpoints d, update_destination-other d)
  apply_call-other (destination_delete k) =
      (destination_gone-endpoints k, delete_destination-other k)

abbrev pub apply_calls : Text → List TenantCall → Memory → Memory
apply_calls t [] m = m
apply_calls t (call ∷ calls) m = apply_calls t calls (apply_call t call m)

-- Whatever a tenant updates and deletes, with whatever ids it names, every other tenant reads the
-- same endpoints and destinations as before.
pub apply_calls-other :
    (t other : Text) (calls : List TenantCall) (m : Memory) (id : Text)
    → t ≢ other
    → (get_endpoint other id (apply_calls t calls m) ≡ get_endpoint other id m)
      × (get_destination other id (apply_calls t calls m) ≡ get_destination other id m)
apply_calls-other t other [] m id differ = (refl, refl)
apply_calls-other t other (call ∷ calls) m id differ =
    let (e, d) = apply_calls-other t other calls (apply_call t call m) id differ in
    let (e', d') = apply_call-other t other m differ id call in (e ∙ e', d ∙ d')
