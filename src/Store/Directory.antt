-- ===== src/Store/Directory.antt =====
-- internal/store/memory.go: tenants, endpoints and destinations. A list that is sorted by a key of
-- its map, or by a slug, has no two elements that are equal in the order.
pub mod Isolation
pub mod Receivers
use status_hub.Prelude.{
  ℕ, Bool, true, false, not, ◌&&◌, ◌||◌, ◌++◌, ◌∷◌, [], List, Option, none, some, ◌⊎◌, inl, inr,
  ◌==◌, if◌then◌else◌, Text, text_Eq, text_ltb, codes, Dict, lookup, insert, delete, values, filter,
  sort_by,
}
use status_hub.Domain.Tenancy.{Tenant, Endpoint}
use status_hub.Domain.Config.{Destination}
use status_hub.Store.Memory.{Memory, StoreError, not_found, duplicate}

unfoldable pub create_tenant : Tenant → Memory → StoreError ⊎ Memory
create_tenant t m = elim (lookup t.slug m.tenant_by_slug) [
  | some _ ↦ inl (duplicate (codes "tenant slug " ++ t.slug))
  | none ↦ inr (record m {
    tenants = insert t.id t m.tenants;
    tenant_by_slug = insert t.slug t.id m.tenant_by_slug;
  })
]

unfoldable pub get_tenant : Text → Memory → Option Tenant
get_tenant tenant_id m = lookup tenant_id m.tenants

-- A tenant that the map lacks is Go's zero value.
abbrev pub no_tenant : Tenant
no_tenant = record { id = []; slug = []; name = []; created_at = 0 }

abbrev pub tenant_or_zero : Option Tenant → Tenant
tenant_or_zero none = no_tenant
tenant_or_zero (some t) = t

unfoldable pub get_tenant_by_slug : Text → Memory → Option Tenant
get_tenant_by_slug slug m = elim (lookup slug m.tenant_by_slug) [
  | none ↦ none
  | some id ↦ some (tenant_or_zero (lookup id m.tenants))
]

unfoldable pub list_tenants : Memory → List Tenant
list_tenants m = sort_by (λ a b. text_ltb a.slug b.slug) (values m.tenants)

unfoldable pub token_taken : Text → Dict Text Endpoint → Bool
token_taken token [] = false
token_taken token ((_, e) ∷ es) = (e.receiver_token == token) || token_taken token es

unfoldable pub create_endpoint : Endpoint → Memory → StoreError ⊎ Memory
create_endpoint e m =
    if token_taken e.receiver_token m.endpoints
    then inl (duplicate (codes "receiver token"))
    else inr (record m { endpoints = insert e.id e m.endpoints })

-- The entry, if it is the tenant's: a missing entry and another tenant's look the same.
unfoldable pub get_endpoint : Text → Text → Memory → Option Endpoint
get_endpoint tenant_id id m = elim (lookup id m.endpoints) [
  | none ↦ none
  | some e ↦ if e.tenant_id == tenant_id then some e else none
]

unfoldable pub list_endpoints : Text → Memory → List Endpoint
list_endpoints tenant_id m =
    sort_by (λ a b. text_ltb a.id b.id)
      (filter (λ e. e.tenant_id == tenant_id) (values m.endpoints))

unfoldable pub update_endpoint : Text → Endpoint → Memory → StoreError ⊎ Memory
update_endpoint tenant_id e m = elim (lookup e.id m.endpoints) [
  | none ↦ inl not_found
  | some existing ↦
      if existing.tenant_id == tenant_id
      then inr
          (record m { endpoints = insert e.id (record e { tenant_id = tenant_id }) m.endpoints })
      else inl not_found
]

unfoldable pub delete_endpoint : Text → Text → Memory → StoreError ⊎ Memory
delete_endpoint tenant_id id m = elim (lookup id m.endpoints) [
  | none ↦ inl not_found
  | some e ↦
      if e.tenant_id == tenant_id
      then inr (record m { endpoints = delete id m.endpoints })
      else inl not_found
]

-- The first endpoint of the tenant with the token.
unfoldable pub find_receiver : Text → Text → Dict Text Endpoint → Option Endpoint
find_receiver tenant_id token [] = none
find_receiver tenant_id token ((_, e) ∷ es) =
    let later = find_receiver tenant_id token es in
    if (e.tenant_id == tenant_id) && (e.receiver_token == token) then some e else later

unfoldable pub resolve_receiver : Text → Text → Text → Text → Memory → Option (Endpoint × Tenant)
resolve_receiver tenant_slug provider env token m = elim (lookup tenant_slug m.tenant_by_slug) [
  | none ↦ none
  | some tenant_id ↦ elim (find_receiver tenant_id token m.endpoints) [
    | none ↦ none
    | some e ↦
        if (e.provider == provider) && (e.environment == env)
        then some (e, tenant_or_zero (lookup tenant_id m.tenants))
        else none
  ]
]

unfoldable pub create_destination : Destination → Memory → Memory
create_destination d m = record m { destinations = insert d.id d m.destinations }

unfoldable pub list_destinations : Text → Memory → List Destination
list_destinations tenant_id m =
    sort_by (λ a b. text_ltb a.id b.id)
      (filter (λ d. d.tenant_id == tenant_id) (values m.destinations))

unfoldable pub update_destination : Text → Destination → Memory → StoreError ⊎ Memory
update_destination tenant_id d m = elim (lookup d.id m.destinations) [
  | none ↦ inl not_found
  | some existing ↦
      if existing.tenant_id == tenant_id
      then inr (record m {
        destinations = insert d.id (record d { tenant_id = tenant_id }) m.destinations;
      })
      else inl not_found
]

unfoldable pub delete_destination : Text → Text → Memory → StoreError ⊎ Memory
delete_destination tenant_id id m = elim (lookup id m.destinations) [
  | none ↦ inl not_found
  | some d ↦
      if d.tenant_id == tenant_id
      then inr (record m { destinations = delete id m.destinations })
      else inl not_found
]
