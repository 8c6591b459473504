-- ===== src/Normalise/Valid.antt =====
-- The events of the store keep to the canonical schema.
use mathlib.Core.Path.{subst}
use status_hub.Prelude.{
  ℕ, ◌+◌, ◌≡◌, refl, sym, ap, ◌∙◌, Bool, true, false, not, ◌∷◌, [], List, Option, none, some, ◌⊎◌,
  inl, inr, if◌then◌else◌, Bool-cases, Option-cases, arith, Text, text_Eq, text_eq, lookup,
  lookup-insert, ℤ,
}
use status_hub.Domain.Tenancy.{RawEvent, Endpoint}
use status_hub.Domain.Event.{CanonicalEvent}
use status_hub.Domain.Config.{Destination}
use status_hub.Domain.Delivery.{shard_for}
use status_hub.Domain.Validation.{validate}
use status_hub.Store.Memory.{Memory, StoreError, not_found, duplicate, stored}
use status_hub.Store.Directory.{get_endpoint, list_destinations}
use status_hub.Store.Deliveries.{enqueue_delivery, next_sequence}
use status_hub.Store.Events.{
  get_raw_event, put_event, put_canonical_event, mark_normalisation_failure, list_unnormalised,
}
use status_hub.Dispatch.Enqueue.{wants, delivery_for, enqueue_loop, enqueue}
use status_hub.Normalise.{
  ParseError, World, State, Effect, emit, mapping_quality, Outcome, filled, mark, announce,
  stored_event, validated, parsed, with_adapter, with_endpoint, not_normalisable, process_raw,
  process, sweep_loop, sweep,
}
use status_hub.Normalise.Settled.{put_canonical_event-puts}

unfoldable pub AllValid : Memory → Type 0
AllValid m = (id : Text) (e : CanonicalEvent) → lookup id m.events ≡ some e → validate e ≡ none

AllValid-same : (m n : Memory) → n.events ≡ m.events → AllValid m → AllValid n
unfolding AllValid
AllValid-same m n same ok id e h = ok id e (sym (ap (lookup id) same) ∙ h)

enqueue_loop-events :
    (e : CanonicalEvent) (shard seq now : ℕ) (dests : List Destination) (m : Memory)
    → (enqueue_loop e shard seq now dests m).events ≡ m.events
unfolding enqueue_loop
enqueue_loop-events e shard seq now [] m = refl
enqueue_loop-events e shard seq now (dest ∷ dests) m = elim (Bool-cases (wants e dest)) [
  | inr p ↦ rw (enqueue_loop, p) (enqueue_loop-events e shard seq now dests m)
  | inl p ↦
      rw (enqueue_loop, p)
        (enqueue_loop-events e shard seq now dests
            (enqueue_delivery now (delivery_for e shard seq false now dest) m).0
          ∙ one dest)
]
  where
    one :
        (dest : Destination)
        → (enqueue_delivery now (delivery_for e shard seq false now dest) m).0.events ≡ m.events
    one dest = unfold enqueue_delivery in refl

enqueue-events :
    (shards : ℤ) (now : ℕ) (e : CanonicalEvent) (m : Memory)
    → (enqueue shards now e m).events ≡ m.events
unfolding enqueue next_sequence
enqueue-events shards now e m =
    let (m', seq) = next_sequence e.tenant_id e.transaction_ref m in
    enqueue_loop-events e (shard_for e.transaction_ref shards) seq now
      (list_destinations e.tenant_id m) m'

put_event-AllValid :
    (e : CanonicalEvent) (m : Memory) → validate e ≡ none → AllValid m → AllValid (put_event e m)
unfolding AllValid put_event
put_event-AllValid e m valid ok id f h = elim (Bool-cases (text_eq e.id id)) [
  | inl p ↦ ap validate (sym (same (rw (lookup-insert e.id id e m.events, p) at h))) ∙ valid
  | inr p ↦ ok id f (rw (lookup-insert e.id id e m.events, p) at h)
]
  where
    same : some e ≡ some f → e ≡ f
    same k = cc

marked-events :
    (t id reason : Text) (m : Memory)
    → (stored m (mark_normalisation_failure t id reason m)).events ≡ m.events
unfolding mark_normalisation_failure
marked-events t id reason m = ground arith

module _ {Json : Type 0} (w : World Json) (st : State Json) (ok : AllValid st.store)
    (raw : RawEvent) (id t : Text) where
  mark-AllValid :
      (st' : State Json) (reason : Text)
      → st'.store ≡ st.store
      → AllValid (mark w t id reason st').store
  unfolding mark
  mark-AllValid st' reason same =
      AllValid-same st.store _
        (marked-events t id reason st'.store ∙ ap (λ (m : Memory). m.events) same) ok

  stored_event-AllValid :
      (adapter : Text) (ev : CanonicalEvent) (es : List Effect) (r : StoreError ⊎ Memory)
      → validate ev ≡ none
      → put_canonical_event ev st.store ≡ r
      → AllValid (stored_event w raw id t adapter ev (emit w es st) r).0.store
  unfolding stored_event announce
  stored_event-AllValid adapter ev es (inr m) valid put =
      AllValid-same m _ (enqueue-events w.shards w.now ev m) (
        subst AllValid (sym (put_canonical_event-puts ev st.store m put))
          (put_event-AllValid ev st.store valid ok))
  stored_event-AllValid adapter ev es (inl (duplicate k)) valid put = mark-AllValid _ _ refl
  stored_event-AllValid adapter ev es (inl not_found) valid put = ok

  validated-AllValid :
      (adapter : Text) (ev : CanonicalEvent) (r : Option Text)
      → validate ev ≡ r
      → AllValid (validated w raw id t adapter ev st r).0.store
  unfolding validated
  validated-AllValid adapter ev (some err) e = mark-AllValid _ err refl
  validated-AllValid adapter ev none e =
      stored_event-AllValid adapter ev (mapping_quality ev) (put_canonical_event ev st.store) e refl

  parsed-AllValid :
      (endpoint : Endpoint) (r : ParseError ⊎ CanonicalEvent)
      → AllValid (parsed w raw endpoint id t st r).0.store
  unfolding parsed
  parsed-AllValid endpoint (inl err) = mark-AllValid _ err.text refl
  parsed-AllValid endpoint (inr ev) =
      validated-AllValid endpoint.adapter_name (filled w raw endpoint t ev)
        (validate (filled w raw endpoint t ev)) refl

  with_endpoint-AllValid : (o : Option Endpoint) → AllValid (with_endpoint w raw id t st o).0.store
  unfolding with_endpoint
  with_endpoint-AllValid none = ok
  with_endpoint-AllValid (some endpoint) = adapted (w.get_adapter t endpoint.adapter_name)
    where
      adapted :
          (o : Option (Text → ParseError ⊎ CanonicalEvent))
          → AllValid (with_adapter w raw endpoint id t st o).0.store
      adapted none = unfold with_adapter in ok
      adapted (some parse) = unfold with_adapter in parsed-AllValid endpoint (parse raw.body)

module _ {Json : Type 0} where
  process-AllValid :
      (w : World Json) (id t : Text) (st : State Json)
      → AllValid st.store
      → AllValid (process w id t st).0.store
  unfolding process process_raw
  process-AllValid w id t st ok = found (get_raw_event t id st.store)
    where
      either :
          (valid : Bool) (x : State Json × Outcome)
          → AllValid x.0.store
          → AllValid (if not valid then (st, not_normalisable) else x).0.store
      either true x h = h
      either false x h = ok

      found : (o : Option RawEvent) → AllValid (process_raw w id t st o).0.store
      found none = ok
      found (some raw) =
          either raw.signature_valid _
            (with_endpoint-AllValid w st ok raw id t (get_endpoint t raw.endpoint_id st.store))

  sweep_loop-AllValid :
      (w : ℕ → World Json) (turn : ℕ) (ids : List Text) (st : State Json)
      → AllValid st.store
      → AllValid (sweep_loop w turn ids st).store
  unfolding sweep_loop
  sweep_loop-AllValid w turn [] st ok = ok
  sweep_loop-AllValid w turn (id ∷ ids) st ok =
      elim (Option-cases (lookup id st.store.raw_events)) [
        | inl p ↦ rw (sweep_loop, p) (sweep_loop-AllValid w (turn + 1) ids st ok)
        | inr (raw, p) ↦
            rw (sweep_loop, p)
              (sweep_loop-AllValid w (turn + 1) ids (process (w turn) id raw.tenant_id st).0
                (process-AllValid (w turn) id raw.tenant_id st ok))
      ]

  -- Where every event of the store passes Validate, a sweep of the normaliser keeps it so, whatever the
  -- adapters return.
  pub sweep-AllValid :
      (w : ℕ → World Json) (batch : ℤ) (st : State Json)
      → AllValid st.store
      → AllValid (sweep w batch st).store
  unfolding sweep
  sweep-AllValid w batch st ok = sweep_loop-AllValid w 0 (list_unnormalised batch st.store) st ok
