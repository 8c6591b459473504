-- ===== src/Normalise/Settled.antt =====
-- A raw event that is processed is settled, or nothing has happened.
use status_hub.Prelude.{
  ℕ, ◌≡◌, ◌≢◌, refl, ap, ◌∙◌, Bool, true, false, not, ◌&&◌, ◌∷◌, [], List, Option, none, some, ◌⊎◌,
  inl, inr, if◌then◌else◌, Bool-cases, Option-cases, and_false, arith, Text, text_Eq, text_eq,
  text_eq_iff, lookup, insert, lookup-insert_self, ℤ,
}
use status_hub.Domain.Tenancy.{RawEvent, Endpoint}
use status_hub.Domain.Event.{CanonicalEvent}
use status_hub.Domain.Config.{Destination}
use status_hub.Domain.Delivery.{shard_for}
use status_hub.Domain.Validation.{validate, normalise}
use status_hub.Store.Memory.{Memory, StoreError, not_found, duplicate, stored}
use status_hub.Store.Directory.{get_endpoint, list_destinations}
use status_hub.Store.Deliveries.{enqueue_delivery, next_sequence}
use status_hub.Store.Events.{
  get_raw_event, is_missing, is_pending, key_of_event, put_event, put_canonical_event,
  mark_normalisation_failure,
}
use status_hub.Dispatch.Enqueue.{wants, delivery_for, enqueue_loop, enqueue}
use status_hub.Normalise.{
  ParseError, World, State, Effect, emit, mapping_quality, Outcome, not_normalisable, transient,
  or_received, hide_customer, pseudonymise, filled, mark, announce, stored_event, validated, parsed,
  with_adapter, with_endpoint, process_raw, process,
}

enqueue_loop-pending :
    (e : CanonicalEvent) (shard seq now : ℕ) (dests : List Destination) (m : Memory) (id : Text)
    → is_pending (enqueue_loop e shard seq now dests m) id ≡ is_pending m id
unfolding enqueue_loop
enqueue_loop-pending e shard seq now [] m id = refl
enqueue_loop-pending e shard seq now (dest ∷ dests) m id = elim (Bool-cases (wants e dest)) [
  | inr p ↦ rw (enqueue_loop, p) (enqueue_loop-pending e shard seq now dests m id)
  | inl p ↦
      rw (enqueue_loop, p)
        (enqueue_loop-pending e shard seq now dests
            (enqueue_delivery now (delivery_for e shard seq false now dest) m).0 id
          ∙ one dest)
]
  where
    one :
        (dest : Destination)
        → is_pending (enqueue_delivery now (delivery_for e shard seq false now dest) m).0 id
          ≡ is_pending m id
    one dest = unfold is_pending enqueue_delivery in refl

enqueue-pending :
    (shards : ℤ) (now : ℕ) (e : CanonicalEvent) (m : Memory) (id : Text)
    → is_pending (enqueue shards now e m) id ≡ is_pending m id
unfolding enqueue next_sequence
enqueue-pending shards now e m id =
    let (m', seq) = next_sequence e.tenant_id e.transaction_ref m in
    enqueue_loop-pending e (shard_for e.transaction_ref shards) seq now
      (list_destinations e.tenant_id m) m' id
    ∙ (unfold is_pending in refl)

pub put_canonical_event-puts :
    (e : CanonicalEvent) (m m' : Memory) → put_canonical_event e m ≡ inr m' → m' ≡ put_event e m
unfolding put_canonical_event
put_canonical_event-puts e m m' h = elim (Bool-cases (text_eq e.provider_event_id [])) [
  | inl p ↦ same (rw (put_canonical_event, p) at h)
  | inr p ↦ elim (Option-cases (lookup (key_of_event e) m.event_keys)) [
    | inl q ↦ same (rw (put_canonical_event, p, q) at h)
    | inr (k, q) ↦ absurd (refused (rw (put_canonical_event, p, q) at h))
  ]
]
  where
    same : {n : Memory} → ◌≡◌ {A = StoreError ⊎ Memory} (inr n) (inr m') → m' ≡ n
    same k = cc

    refused : {why : StoreError} → inl why ≡ inr m' → ⊥
    refused k = cc

absorbs : (a b : Bool) → (a && b && false) ≡ false
absorbs a b = ground arith

-- The raw event is in the store, under its id.
module _ (id t : Text) (raw : RawEvent) (m : Memory)
    (held : lookup id m.raw_events ≡ some raw) where
  marked :
      (reason : Text)
      → text_eq raw.tenant_id t ≡ true
      → mark_normalisation_failure t id reason m
        ≡ inr (record m { failures = insert id reason m.failures })
  unfolding mark_normalisation_failure
  marked reason own = rw (mark_normalisation_failure, held, own) refl

  failed-settled :
      (reason : Text) → is_pending (record m { failures = insert id reason m.failures }) id ≡ false
  unfolding is_pending
  failed-settled reason =
      rw (is_pending, held, lookup-insert_self id reason m.failures)
        (absorbs raw.signature_valid (is_missing (lookup id m.normalised)))

  mark-settled :
      (reason : Text)
      → text_eq raw.tenant_id t ≡ true
      → is_pending (stored m (mark_normalisation_failure t id reason m)) id ≡ false
  mark-settled reason own =
      ap (λ r. is_pending (stored m r) id) (marked reason own) ∙ failed-settled reason

  put_event-settled :
      (e : CanonicalEvent)
      → e.raw_event_id ≡ id
      → text_eq id [] ≡ false
      → is_pending (put_event e m) id ≡ false
  unfolding put_event is_pending
  put_event-settled e same some_id =
      rw
        (
          put_event,
          is_pending,
          held,
          same,
          some_id,
          lookup-insert_self id e.id m.normalised,
          and_false raw.signature_valid,
        )
        refl

  invalid-settled : raw.signature_valid ≡ false → is_pending m id ≡ false
  unfolding is_pending
  invalid-settled p = rw (is_pending, held, p) refl

module _ {Json : Type 0} (w : World Json) where
  hide_customer-raw :
      (t : Text) (ev : CanonicalEvent) → (hide_customer w t ev).raw_event_id ≡ ev.raw_event_id
  unfolding pseudonymise
  hide_customer-raw t ev = ground arith

  filled-raw :
      (raw : RawEvent) (endpoint : Endpoint) (t : Text) (ev : CanonicalEvent)
      → (filled w raw endpoint t ev).raw_event_id ≡ raw.id
  unfolding filled normalise
  filled-raw raw endpoint t ev = hide_customer-raw t _ ∙ received ev
    where
      received :
          (ev : CanonicalEvent)
          → (or_received w.now raw (record ev {
            id = w.new_id;
            tenant_id = t;
            raw_event_id = raw.id;
            provider = endpoint.provider;
          })).raw_event_id
            ≡ raw.id
      received ev = ground arith

  -- Nothing has happened to the store and the attempt is repeated, or the event does not wait any more.
  unfoldable pub Settles : Text → State Json → State Json × Outcome → Type 0
  Settles id before (after, how) =
      ((how ≡ transient) × (after.store ≡ before.store)) ⊎ (is_pending after.store id ≡ false)

  module _ (id t : Text) (raw : RawEvent) (own : text_eq raw.tenant_id t ≡ true)
      (same : raw.id ≡ id) (some_id : text_eq id [] ≡ false) where
    module _ (st : State Json) (held : lookup id st.store.raw_events ≡ some raw) where
      mark-Settles : (reason : Text) → is_pending (mark w t id reason st).store id ≡ false
      unfolding mark
      mark-Settles reason = mark-settled id t raw st.store held reason own

      announced :
          (adapter : Text) (ev : CanonicalEvent) (m : Memory)
          → put_canonical_event ev st.store ≡ inr m
          → ev.raw_event_id ≡ id
          → is_pending (announce w adapter ev (record st { store = m })).store id ≡ false
      unfolding announce
      announced adapter ev m put from =
          enqueue-pending w.shards w.now ev m id
          ∙ ap (λ n. is_pending n id) (put_canonical_event-puts ev st.store m put)
          ∙ put_event-settled id t raw st.store held ev from some_id

    module _ (st : State Json) (held : lookup id st.store.raw_events ≡ some raw) where
      mark_emitted-Settles :
          (es : List Effect) (reason : Text)
          → is_pending (mark w t id reason (emit w es st)).store id ≡ false
      mark_emitted-Settles es reason = mark-Settles (emit w es st) held reason

      stored_event-Settles :
          (adapter : Text) (ev : CanonicalEvent) (es : List Effect) (r : StoreError ⊎ Memory)
          → put_canonical_event ev st.store ≡ r
          → ev.raw_event_id ≡ id
          → Settles id st (stored_event w raw id t adapter ev (emit w es st) r)
      unfolding Settles stored_event
      stored_event-Settles adapter ev es (inr m) put from =
          inr (announced (emit w es st) held adapter ev m put from)
      stored_event-Settles adapter ev es (inl (duplicate k)) put from = inr (mark-Settles _ held _)
      stored_event-Settles adapter ev es (inl not_found) put from = inl (refl, refl)

      validated-Settles :
          (adapter : Text) (ev : CanonicalEvent) (r : Option Text)
          → ev.raw_event_id ≡ id
          → Settles id st (validated w raw id t adapter ev st r)
      unfolding Settles validated
      validated-Settles adapter ev (some err) from = inr (mark_emitted-Settles _ err)
      validated-Settles adapter ev none from =
          stored_event-Settles adapter ev (mapping_quality ev) (put_canonical_event ev st.store)
            refl from

      parsed-Settles :
          (endpoint : Endpoint) (r : ParseError ⊎ CanonicalEvent)
          → Settles id st (parsed w raw endpoint id t st r)
      unfolding Settles parsed
      parsed-Settles endpoint (inl err) = inr (mark_emitted-Settles _ err.text)
      parsed-Settles endpoint (inr ev) =
          validated-Settles endpoint.adapter_name (filled w raw endpoint t ev)
            (validate (filled w raw endpoint t ev)) (filled-raw raw endpoint t ev ∙ same)

      with_adapter-Settles :
          (endpoint : Endpoint) (o : Option (Text → ParseError ⊎ CanonicalEvent))
          → Settles id st (with_adapter w raw endpoint id t st o)
      unfolding Settles with_adapter
      with_adapter-Settles endpoint none = inl (refl, refl)
      with_adapter-Settles endpoint (some parse) = parsed-Settles endpoint (parse raw.body)

      with_endpoint-Settles : (o : Option Endpoint) → Settles id st (with_endpoint w raw id t st o)
      unfolding Settles with_endpoint
      with_endpoint-Settles none = inl (refl, refl)
      with_endpoint-Settles (some endpoint) =
          with_adapter-Settles endpoint (w.get_adapter t endpoint.adapter_name)

      by_signature :
          (valid : Bool) (x : State Json × Outcome)
          → Settles id st x
          → (valid ≡ false → is_pending st.store id ≡ false)
          → Settles id st (if not valid then (st, not_normalisable) else x)
      unfolding Settles
      by_signature true x h k = h
      by_signature false x h k = inr (k refl)

      process_raw-Settles : Settles id st (process_raw w id t st (some raw))
      unfolding Settles process_raw
      process_raw-Settles =
          by_signature raw.signature_valid _
            (with_endpoint-Settles (get_endpoint t raw.endpoint_id st.store))
            (λ p. invalid-settled id t raw st.store held p)

  -- Processing a raw event that is stored under its own id, which is not empty, for its own tenant either
  -- leaves the store as it was, with an error that is retried, or settles the event: it does not wait to
  -- be normalised any more.
  pub process-Settles :
      (id : Text) (raw : RawEvent) (st : State Json)
      → lookup id st.store.raw_events ≡ some raw
      → raw.id ≡ id
      → id ≢ []
      → Settles id st (process w id raw.tenant_id st)
  unfolding Settles process get_raw_event
  process-Settles id raw st held same some_id =
      rw (process, get_raw_event, held, own)
        (process_raw-Settles id raw.tenant_id raw own same not_empty st held)
    where
      own : text_eq raw.tenant_id raw.tenant_id ≡ true
      own = (text_eq_iff raw.tenant_id raw.tenant_id).1 refl

      not_empty : text_eq id [] ≡ false
      not_empty = elim (Bool-cases (text_eq id [])) [
        | inl p ↦ absurd (some_id ((text_eq_iff id []).0 p))
        | inr p ↦ p
      ]
