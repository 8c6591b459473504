-- ===== src/Store/Memory.antt =====
-- internal/store/memory.go: the state of the in-memory store, but for its audit records, and the
-- reads that delivery makes. Its mutex makes each method one step.
use status_hub.Prelude.{
  ◌⊎◌, inl, inr, ℕ, Option, none, some, [], List, Text, text_Eq, Dict, lookup, ◌==◌, if◌then◌else◌,
}
use status_hub.Domain.Delivery.{Delivery}
use status_hub.Domain.Event.{CanonicalEvent}
use status_hub.Domain.Tenancy.{Tenant, Endpoint, RawEvent}
use status_hub.Domain.Config.{Destination}

pub record Memory : Type 0 where
  pub tenants : Dict Text Tenant
  pub tenant_by_slug : Dict Text Text
  pub endpoints : Dict Text Endpoint
  pub destinations : Dict Text Destination
  pub raw_events : Dict Text RawEvent
  pub raw_order : List Text
  pub normalised : Dict Text Text
  pub failures : Dict Text Text
  pub events : Dict Text CanonicalEvent
  pub event_keys : Dict Text Text
  pub event_list : List Text
  pub deliveries : Dict ℕ Delivery
  pub delivery_ids : ℕ
  pub sequences : Dict Text ℕ
  pub leases : Dict ℕ ℕ

abbrev pub new_memory : Memory
new_memory = record {
  tenants = [];
  tenant_by_slug = [];
  endpoints = [];
  destinations = [];
  raw_events = [];
  raw_order = [];
  normalised = [];
  failures = [];
  events = [];
  event_keys = [];
  event_list = [];
  deliveries = [];
  delivery_ids = 0;
  sequences = [];
  leases = [];
}

-- ErrNotFound, and ErrDuplicate with what it names.
pub data StoreError : Type 0 where
  not_found : StoreError
  duplicate : Text → StoreError

-- An error leaves the store as it was.
abbrev pub stored : Memory → StoreError ⊎ Memory → Memory
stored m (inl _) = m
stored m (inr m') = m'

-- `none` is ErrNotFound: no such destination, or another tenant's.
unfoldable pub get_destination : Text → Text → Memory → Option Destination
get_destination tenant_id id m = elim (lookup id m.destinations) [
  | none ↦ none
  | some d ↦ if d.tenant_id == tenant_id then some d else none
]

unfoldable pub get_canonical_event : Text → Text → Memory → Option CanonicalEvent
get_canonical_event tenant_id id m = elim (lookup id m.events) [
  | none ↦ none
  | some e ↦ if e.tenant_id == tenant_id then some e else none
]
