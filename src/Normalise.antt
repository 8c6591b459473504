-- ===== src/Normalise.antt =====
-- internal/normalise: the normaliser, which makes a canonical event of a raw one and queues it
-- (normalise.go), and the sweep of its worker (worker.go).
pub mod Settled
pub mod Valid
pub mod Forwarded
use status_hub.Prelude.{
  ℕ, ◌+◌, Bool, true, false, not, ◌&&◌, ◌∷◌, [], List, ◌++◌, Option, none, some, ◌⊎◌, inl, inr,
  ◌==◌, if◌then◌else◌, nat_eq, Text, text_Eq, codes, Dict, lookup, ℤ,
}
use status_hub.Domain.Tenancy.{RawEvent, Endpoint}
use status_hub.Domain.Event.{CanonicalEvent}
use status_hub.Domain.Audit.{Codec, AuditRecord}
use status_hub.Domain.Validation.{validate, normalise}
use status_hub.Store.Memory.{Memory, StoreError, not_found, duplicate, stored}
use status_hub.Store.Directory.{get_endpoint}
use status_hub.Store.Events.{
  get_raw_event, put_canonical_event, mark_normalisation_failure, list_unnormalised,
}
use status_hub.Store.Audit.{AuditLog, append_audit}
use status_hub.Dispatch.Enqueue.{enqueue}

-- An adapter's error: its text, and the label that reasonFor gives it.
pub record ParseError : Type 0 where
  pub text : Text
  pub reason : Text

-- What the normaliser asks of the packages around it: the adapters, the salts of the tenants, HMAC
-- with SHA-256 in hexadecimal, JSON. `shards` is the dispatcher's.
pub record World (Json : Type 0) : Type 0 where
  pub now : ℕ
  pub new_id : Text
  pub get_adapter : Text → Text → Option (Text → ParseError ⊎ CanonicalEvent)
  pub resolve_salt : Text → Option Text
  pub hmac_hex : Text → Text → Text
  pub shards : ℤ
  pub text_json : Text → Json
  pub bool_json : Bool → Json
  pub codec : Codec Json

pub data Effect : Type 0 where
  failure_metric : Text → Text → Effect
  duplicate_metric : Text → Effect
  unknown_metric : Text → Text → Effect
  incomplete_metric : Text → Text → Effect

pub record State (Json : Type 0) : Type 0 where
  pub store : Memory
  pub log : AuditLog Json
  pub effects : List Effect

-- How Process ends: nil, an error that is ErrNotNormalisable, or one that is not and is retried.
pub data Outcome : Type 0 where
  done : Outcome
  not_normalisable : Outcome
  transient : Outcome

abbrev pub salt_ref : Text → Text
salt_ref tenant_id = codes "tenant-salt://" ++ tenant_id

abbrev pub or_received : ℕ → RawEvent → CanonicalEvent → CanonicalEvent
or_received now raw ev =
    let ev' = record ev { received_at = raw.received_at; normalised_at = now } in
    if nat_eq ev.occurred_at 0
    then record ev' { occurred_at = raw.received_at; mapping_complete = false }
    else ev'

-- recordMappingQuality.
unfoldable pub mapping_quality : CanonicalEvent → List Effect
mapping_quality ev =
    (if not (ev.unmapped_status == [])
      then unknown_metric ev.provider ev.unmapped_status ∷ []
      else [])
    ++ (if not ev.mapping_complete then incomplete_metric ev.provider ev.event_type ∷ [] else [])

abbrev pub logged {ℓ} : {A : Type ℓ} → A → Text ⊎ A → A
logged a (inl _) = a
logged a (inr b) = b

module _ {Json : Type 0} (w : World Json) where
  unfoldable pub pseudonymise : Text → Text → Option Text
  pseudonymise tenant_id value = elim (w.resolve_salt (salt_ref tenant_id)) [
    | none ↦ none
    | some salt ↦ some (codes "sha256:" ++ w.hmac_hex salt value)
  ]

  abbrev pub hashed_or_dropped : CanonicalEvent → Option Text → CanonicalEvent
  hashed_or_dropped ev none = record ev { customer_ref_hash = []; mapping_complete = false }
  hashed_or_dropped ev (some h) = record ev { customer_ref_hash = h }

  abbrev pub hide_customer : Text → CanonicalEvent → CanonicalEvent
  hide_customer tenant_id ev =
      if ev.customer_ref_hash == []
      then ev
      else hashed_or_dropped ev (pseudonymise tenant_id ev.customer_ref_hash)

  -- The event from what the adapter parsed to Validate. The note that the code writes into the map
  -- ProviderExtra of a redacted event is left out, as that map is; where an adapter left it nil, that
  -- write panics.
  unfoldable pub filled : RawEvent → Endpoint → Text → CanonicalEvent → CanonicalEvent
  filled raw endpoint tenant_id ev =
      let named = record ev {
        id = w.new_id;
        tenant_id = tenant_id;
        raw_event_id = raw.id;
        provider = endpoint.provider;
      } in
      normalise
        (record (hide_customer tenant_id (or_received w.now raw named)) { redacted = raw.redacted })

  abbrev pub emit : List Effect → State Json → State Json
  emit es st = record st { effects = st.effects ++ es }

  -- A failure to mark is logged.
  unfoldable pub mark : Text → Text → Text → State Json → State Json
  mark tenant_id id reason st = record st {
    store = stored st.store (mark_normalisation_failure tenant_id id reason st.store);
  }

  abbrev pub audit_record : Text → CanonicalEvent → AuditRecord Json
  audit_record adapter ev = record {
    id = [];
    tenant_id = ev.tenant_id;
    event_type = codes "event.normalised";
    occurred_at = 0;
    recorded_at = 0;
    actor = record { type = codes "system"; id = []; ip = [] };
    subject = record { type = codes "event"; id = ev.id };
    payload =
        (codes "raw_event", w.text_json ev.raw_event_id)
        ∷ (codes "provider", w.text_json ev.provider)
        ∷ (codes "adapter", w.text_json adapter)
        ∷ (codes "transaction_ref", w.text_json ev.transaction_ref)
        ∷ (codes "status", w.text_json ev.status)
        ∷ (codes "mapping_complete", w.bool_json ev.mapping_complete)
        ∷ [];
    corrects = [];
    prev_hash = [];
    hash = [];
  }

  -- Once the event is stored: the audit record, and the deliveries.
  unfoldable pub announce : Text → CanonicalEvent → State Json → State Json
  announce adapter ev st = record st {
    log = logged st.log (append_audit w.codec w.now (audit_record adapter ev) st.log);
    store = enqueue w.shards w.now ev st.store;
  }

  -- What follows the write, by its result.
  unfoldable pub stored_event :
      RawEvent
      → Text
      → Text
      → Text
      → CanonicalEvent
      → State Json
      → StoreError ⊎ Memory
      → State Json × Outcome
  stored_event raw id tenant_id adapter ev st (inr m) =
      (announce adapter ev (record st { store = m }), done)
  stored_event raw id tenant_id adapter ev st (inl (duplicate _)) = (
    mark tenant_id id (codes "duplicate of an event already normalised")
        (emit (duplicate_metric raw.provider ∷ []) st),
    done,
  )
  stored_event raw id tenant_id adapter ev st (inl not_found) = (st, transient)

  -- What follows Validate, by its error.
  unfoldable pub validated :
      RawEvent
      → Text
      → Text
      → Text
      → CanonicalEvent
      → State Json
      → Option Text
      → State Json × Outcome
  validated raw id tenant_id adapter ev st (some err) = (
    mark tenant_id id err
        (emit (failure_metric raw.provider (codes "invalid_canonical_event") ∷ []) st),
    not_normalisable,
  )
  validated raw id tenant_id adapter ev st none =
      stored_event raw id tenant_id adapter ev (emit (mapping_quality ev) st)
        (put_canonical_event ev st.store)

  -- What follows Parse, by its result.
  unfoldable pub parsed :
      RawEvent
      → Endpoint
      → Text
      → Text
      → State Json
      → ParseError ⊎ CanonicalEvent
      → State Json × Outcome
  parsed raw endpoint id tenant_id st (inl err) = (
    mark tenant_id id err.text (emit (failure_metric raw.provider err.reason ∷ []) st),
    not_normalisable,
  )
  parsed raw endpoint id tenant_id st (inr ev) =
      let ev' = filled raw endpoint tenant_id ev in
      validated raw id tenant_id endpoint.adapter_name ev' st (validate ev')

  unfoldable pub with_adapter :
      RawEvent
      → Endpoint
      → Text
      → Text
      → State Json
      → Option (Text → ParseError ⊎ CanonicalEvent)
      → State Json × Outcome
  with_adapter raw endpoint id tenant_id st none = (st, transient)
  with_adapter raw endpoint id tenant_id st (some parse) =
      parsed raw endpoint id tenant_id st (parse raw.body)

  unfoldable pub with_endpoint :
      RawEvent → Text → Text → State Json → Option Endpoint → State Json × Outcome
  with_endpoint raw id tenant_id st none = (st, transient)
  with_endpoint raw id tenant_id st (some endpoint) =
      with_adapter raw endpoint id tenant_id st (w.get_adapter tenant_id endpoint.adapter_name)

  unfoldable pub process_raw : Text → Text → State Json → Option RawEvent → State Json × Outcome
  process_raw id tenant_id st none = (st, transient)
  process_raw id tenant_id st (some raw) =
      let rest =
        with_endpoint raw id tenant_id st (get_endpoint tenant_id raw.endpoint_id st.store) in
      if not raw.signature_valid then (st, not_normalisable) else rest

  unfoldable pub process : Text → Text → State Json → State Json × Outcome
  process id tenant_id st = process_raw id tenant_id st (get_raw_event tenant_id id st.store)

-- The loop of sweep over the ids of the raw events that it found. Each is processed for its own
-- tenant, with the clock and the new id of its turn.
unfoldable pub sweep_loop :
    {Json : Type 0} → (ℕ → World Json) → ℕ → List Text → State Json → State Json
sweep_loop w turn [] st = st
sweep_loop w turn (id ∷ ids) st = elim (lookup id st.store.raw_events) [
  | none ↦ sweep_loop w (turn + 1) ids st
  | some raw ↦ sweep_loop w (turn + 1) ids (process (w turn) id raw.tenant_id st).0
]

unfoldable pub sweep : {Json : Type 0} → (ℕ → World Json) → ℤ → State Json → State Json
sweep w batch st = sweep_loop w 0 (list_unnormalised batch st.store) st
