-- ===== src/Receive.antt =====
-- internal/receive/receiver.go: the handler that takes in a provider's webhook. It resolves the
-- endpoint, checks the rate, reads the body, removes card numbers, verifies the signature, stores
-- the raw event, and only then acknowledges.
mod Checks
pub mod Headers
pub mod Outcome
pub mod Work
unfoldable pub use Checks.*
use status_hub.Prelude.{
  ℕ, zero, suc, ◌+◌, ◌*◌, ◌^◌, Bool, true, false, not, ◌&&◌, ◌||◌, ◌++◌, ◌∷◌, [], List, map, length,
  take, filter, Option, none, some, ◌⊎◌, inl, inr, ◌==◌, if◌then◌else◌, nat_eq, ltb, Text, quoted,
  text_Eq, codes, Dict, lookup, insert,
}
use status_hub.Domain.Tenancy.{Endpoint, RawEvent, Tenant}
use status_hub.Domain.Config.{lower}
use status_hub.Domain.Amount.{trim_space}
use status_hub.Domain.Audit.{Codec, AuditRecord}
use status_hub.Store.Memory.{Memory, StoreError, stored}
use status_hub.Store.Directory.{resolve_receiver}
use status_hub.Store.Events.{put_raw_event}
use status_hub.Store.Audit.{AuditLog, append_audit}
use status_hub.Redact.{Result, scan, describe}
use status_hub.Ratelimit.{Bounded, try_acquire, release}

abbrev pub is_none : Option Text → Bool
is_none none = true
is_none (some _) = false

pub data Effect : Type 0 where
  rejected_metric : Text → Effect
  received_metric : Text → Text → Bool → Effect
  signature_failure_metric : Text → Effect
  responded : Response → Effect
  notified : Text → Effect

pub record State (Json : Type 0) : Type 0 where
  pub store : Memory
  pub log : AuditLog Json
  pub in_flight : Bounded
  pub effects : List Effect

abbrev pub redaction_seen : RawEvent → List Effect
redaction_seen raw = if raw.redacted then rejected_metric (codes "pan_redacted") ∷ [] else []

abbrev pub logged {ℓ} : {A : Type ℓ} → A → Text ⊎ A → A
logged a (inl _) = a
logged a (inr b) = b

module _ {Json : Type 0} (w : World Json) where
  abbrev pub emit : List Effect → State Json → State Json
  emit es st = record st { effects = st.effects ++ es }

  -- A failure to append is logged, and changes nothing.
  abbrev pub add_record : AuditRecord Json → State Json → State Json
  add_record r st = record st { log = logged st.log (append_audit w.codec w.now r st.log) }

  abbrev pub addr_string : Text → Text
  addr_string src = if src == [] then codes "invalid IP" else src

  abbrev pub record_of : Text → Endpoint → Text → RawEvent → Dict Text Json → AuditRecord Json
  record_of kind endpoint src raw extra = record {
    id = [];
    tenant_id = raw.tenant_id;
    event_type = kind;
    occurred_at = 0;
    recorded_at = 0;
    actor = record { type = codes "system"; id = []; ip = addr_string src };
    subject = record { type = codes "raw_event"; id = raw.id };
    payload =
        (codes "provider", w.text_json endpoint.provider)
        ∷ (codes "endpoint", w.text_json endpoint.id)
        ∷ extra;
    corrects = [];
    prev_hash = [];
    hash = [];
  }

  abbrev pub error_or_empty : Option Text → Text
  error_or_empty none = []
  error_or_empty (some err) = err

  unfoldable pub raw_event_of : Endpoint → Tenant → Request → Text → Option Text → RawEvent
  raw_event_of endpoint tenant req body failure =
      let found = scan body in
      record {
        id = w.new_id;
        tenant_id = tenant.id;
        endpoint_id = endpoint.id;
        provider = endpoint.provider;
        headers = sanitise_headers req.headers;
        body = found.body;
        body_sha256 = w.sha256_hex body;
        redacted = found.redacted;
        redaction_note = describe found;
        source_ip = source_addr w req;
        signature_valid = is_none failure;
        signature_error = error_or_empty failure;
        received_at = w.now;
      }

  unfoldable pub respond : Response → List Effect → State Json → State Json × Response
  respond r before st = (emit (before ++ responded r ∷ []) st, r)

  -- After the raw event is stored.
  unfoldable pub answer : Endpoint → Request → Text → RawEvent → State Json → State Json × Response
  answer endpoint req body raw st =
      let src = source_addr w req in
      let counted = received_metric endpoint.provider raw.tenant_id raw.signature_valid in
      let refused =
        add_record
          (record_of (codes "signature.failed") endpoint src raw
            ((codes "reason", w.text_json raw.signature_error) ∷ []))
          st in
      let accepted =
        add_record
          (record_of (codes "event.received") endpoint src raw (
            (codes "body_sha256", w.text_json raw.body_sha256)
            ∷ (codes "bytes", w.number_json (length body))
            ∷ []))
          st in
      let ok : Response = record {
        status = 200;
        error = [];
        event_id = raw.id;
        retry_after = [];
      } in
      if not raw.signature_valid
      then respond (refuse 401 (codes "signature_verification_failed"))
          (counted ∷ signature_failure_metric endpoint.provider ∷ []) refused
      else (emit (counted ∷ responded ok ∷ notified raw.id ∷ []) accepted, ok)

  unfoldable pub take_in : Endpoint → Tenant → Request → Text → State Json → State Json × Response
  take_in endpoint tenant req body st =
      let raw =
        raw_event_of endpoint tenant req body
          (verify_error w endpoint req body (source_addr w req)) in
      elim (put_raw_event raw st.store) [
        | inl _ ↦ respond (refuse 500 (codes "storage_unavailable")) (redaction_seen raw) st
        | inr store ↦
            answer endpoint req body raw (record (emit (redaction_seen raw) st) { store = store })
      ]

  unfoldable pub handle_endpoint : Endpoint → Tenant → Request → State Json → State Json × Response
  handle_endpoint endpoint tenant req st =
      if not endpoint.enabled
      then respond (refuse 404 (codes "not_found")) [] st
      else elim (w.rate_allows tenant.id) [
        | some retry_after ↦
            respond (record (refuse 429 (codes "rate_limited")) { retry_after = retry_after })
              (rejected_metric (codes "rate_limited") ∷ []) st
        | none ↦ elim (read_body req.incoming) [
          | inl r ↦ respond r (rejected_metric r.error ∷ []) st
          | inr body ↦ take_in endpoint tenant req body st
        ]
      ]

  -- handleWebhook once it has a slot.
  unfoldable pub handle : Request → State Json → State Json × Response
  handle req st = elim (resolve_receiver req.tenant req.provider req.env req.token st.store) [
    | none ↦
        respond (refuse 404 (codes "not_found")) (rejected_metric (codes "unknown_endpoint") ∷ [])
          st
    | some (endpoint, tenant) ↦ handle_endpoint endpoint tenant req st
  ]

  unfoldable pub handle_webhook : Request → State Json → State Json × Response
  handle_webhook req st =
      let (slots, ok) = try_acquire st.in_flight in
      if not ok
      then respond (record (refuse 429 (codes "at_capacity")) { retry_after = codes "1" })
          (rejected_metric (codes "at_capacity") ∷ []) st
      else (let (after, r) = handle req (record st { in_flight = slots }) in
          (record after { in_flight = release after.in_flight }, r))
