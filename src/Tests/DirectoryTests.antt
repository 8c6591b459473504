-- ===== src/Tests/DirectoryTests.antt =====
-- Two tenants and their endpoints.
use status_hub.Prelude.{
  ◌≡◌, refl, ap, true, false, ◌∷◌, [], none, inl, Text, text_eq, text_ltb, codes, lookup, filter,
  insert_by, sort_by,
}
use status_hub.Domain.Tenancy.{Tenant, Endpoint, receiver_path}
use status_hub.Store.Memory.{Memory, new_memory, duplicate, get_destination}
use status_hub.Store.Directory.{
  create_tenant, create_endpoint, get_endpoint, list_endpoints, token_taken, find_receiver,
  resolve_receiver,
}
use status_hub.Store.Directory.Isolation.{
  endpoint_update, endpoint_delete, apply_calls, apply_calls-other,
}

abbrev pub acme : Tenant
acme = record { id = codes "t1"; slug = codes "acme"; name = codes "Acme"; created_at = 1 }

abbrev rival : Tenant
rival = record { id = codes "t2"; slug = codes "rival"; name = codes "Rival"; created_at = 2 }

abbrev endpoint : Text → Text → Text → Endpoint
endpoint id tenant_id token = record {
  id = id;
  tenant_id = tenant_id;
  provider = codes "paystack";
  environment = codes "live";
  receiver_token = token;
  secret_ref = codes "s";
  adapter_name = codes "paystack";
  adapter_config = [];
  allowed_source_cidrs = [];
  enabled = true;
  created_at = 3;
  rotated_at = 0;
}

abbrev pub hook : Endpoint
hook = endpoint (codes "ep1") (codes "t1") (codes "tok_a")

abbrev two_tenants : Memory
two_tenants = record new_memory {
  tenants = (codes "t1", acme) ∷ (codes "t2", rival) ∷ [];
  tenant_by_slug = (codes "acme", codes "t1") ∷ (codes "rival", codes "t2") ∷ [];
  endpoints = (codes "ep2", endpoint (codes "ep2") (codes "t1") (codes "tok_b")) ∷ [];
}

abbrev pub with_hook : Memory
with_hook = record two_tenants {
  endpoints =
      (codes "ep2", endpoint (codes "ep2") (codes "t1") (codes "tok_b")) ∷ (codes "ep1", hook) ∷ [];
}

token_refused :
    create_endpoint (endpoint (codes "ep3") (codes "t2") (codes "tok_b")) two_tenants
    ≡ inl (duplicate (codes "receiver token"))
unfolding create_endpoint token_taken text_eq
token_refused = refl

slug_refused : create_tenant acme two_tenants ≡ inl (duplicate (codes "tenant slug acme"))
unfolding create_tenant lookup text_eq
slug_refused = refl

other_provider_refused :
    resolve_receiver (codes "acme") (codes "stripe") (codes "live") (codes "tok_a") with_hook ≡ none
unfolding resolve_receiver find_receiver lookup text_eq
other_provider_refused = refl

listed_in_order :
    list_endpoints (codes "t1") with_hook
    ≡ hook ∷ endpoint (codes "ep2") (codes "t1") (codes "tok_b") ∷ []
unfolding list_endpoints filter sort_by insert_by text_ltb text_eq
listed_in_order = refl

hook_path : receiver_path hook (codes "acme") ≡ codes "/v1/hooks/acme/paystack/live/tok_a"
unfolding receiver_path
hook_path = refl

-- The rival names the other's endpoint, and changes nothing that the other reads.
apply_calls-other_example :
    (get_endpoint (codes "t1") (codes "ep1") (
        apply_calls
          (codes "t2")
          (endpoint_update hook ∷ endpoint_delete (codes "ep1") ∷ [])
          with_hook)
      ≡ get_endpoint (codes "t1") (codes "ep1") with_hook)
    × (get_destination (codes "t1") (codes "ep1") (
          apply_calls
            (codes "t2")
            (endpoint_update hook ∷ endpoint_delete (codes "ep1") ∷ [])
            with_hook)
        ≡ get_destination (codes "t1") (codes "ep1") with_hook)
unfolding text_eq
apply_calls-other_example =
    apply_calls-other (codes "t2") (codes "t1")
      (endpoint_update hook ∷ endpoint_delete (codes "ep1") ∷ []) with_hook (codes "ep1")
      (λ e. absurd (differ (ap (text_eq (codes "t1")) e)))
  where
    differ : false ≡ true → ⊥
    differ e = cc
