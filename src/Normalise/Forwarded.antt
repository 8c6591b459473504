-- ===== src/Normalise/Forwarded.antt =====
-- From the receiver to the queue of deliveries: what becomes of an acknowledged webhook that the
-- normaliser processes.
use status_hub.Prelude.{
  ℕ, suc, ◌+◌, Bool, not, arith, ◌≡◌, refl, sym, ap, ◌∙◌, true, false, none, some, ◌⊎◌, inr, filter,
  get_elem?, if◌then◌else◌, Text, text_Eq, nat_Eq, text_eq_iff, lookup, lookup-insert_self,
}
use status_hub.Domain.Tenancy.{RawEvent, Endpoint}
use status_hub.Domain.Event.{CanonicalEvent}
use status_hub.Domain.Config.{Destination}
use status_hub.Domain.Delivery.{shard_for}
use status_hub.Domain.Validation.{validate}
use status_hub.Store.Memory.{Memory}
use status_hub.Store.Directory.{get_endpoint, list_destinations}
use status_hub.Store.Events.{get_raw_event, put_event, put_canonical_event}
use status_hub.Dispatch.Enqueue.Complete.{queued_as, is_wanted, sequence_of, enqueue-queued}
use status_hub.Normalise.{
  ParseError, World, State, Outcome, done, emit, mapping_quality, filled, announce, stored_event,
  validated, parsed, with_adapter, with_endpoint, process_raw, process,
}
use status_hub.Normalise.Settled.{put_canonical_event-puts}
use status_hub.Receive
use status_hub.Receive.Work.{acknowledged-Stores, put_raw_event-stored}

given : {a b : RawEvent} → some a ≡ some b → a ≡ b
given {a} {b} h = cc

module _ {Json : Type 0} (w : World Json) (id : Text) (raw : RawEvent) (endpoint : Endpoint)
    (parse : Text → ParseError ⊎ CanonicalEvent) (ev : CanonicalEvent) where
  abbrev pub canonical : CanonicalEvent
  canonical = filled w raw endpoint raw.tenant_id ev

  process-done :
      (st : State Json) (m : Memory)
      → get_raw_event raw.tenant_id id st.store ≡ some raw
      → raw.signature_valid ≡ true
      → get_endpoint raw.tenant_id raw.endpoint_id st.store ≡ some endpoint
      → w.get_adapter raw.tenant_id endpoint.adapter_name ≡ some parse
      → parse raw.body ≡ inr ev
      → validate canonical ≡ none
      → put_canonical_event canonical st.store ≡ inr m
      → process w id raw.tenant_id st ≡ (
        announce w endpoint.adapter_name canonical
            (record (emit w (mapping_quality canonical) st) { store = m }),
        done,
      )
  unfolding process process_raw with_endpoint with_adapter parsed validated stored_event
  process-done st m held valid found adapter parses sound stored =
      ap (process_raw w id raw.tenant_id st) held
      ∙ signed raw.signature_valid valid _ _
      ∙ ap (with_endpoint w raw id raw.tenant_id st) found
      ∙ ap (with_adapter w raw endpoint id raw.tenant_id st) adapter
      ∙ ap (parsed w raw endpoint id raw.tenant_id st) parses
      ∙ ap (validated w raw id raw.tenant_id endpoint.adapter_name canonical st) sound
      ∙ ap
          (stored_event w raw id raw.tenant_id endpoint.adapter_name canonical
            (emit w (mapping_quality canonical) st))
          stored
    where
      signed : (b : Bool) → b ≡ true → (o p : State Json × Outcome) → (if not b then o else p) ≡ p
      signed true h o p = refl
      signed false h o p = absurd (ground arith)

  stored-canonical :
      (m n : Memory)
      → put_canonical_event canonical n ≡ inr m
      → lookup canonical.id m.events ≡ some canonical
  unfolding put_event
  stored-canonical m n h =
      ap (λ k. lookup canonical.id k.events) (put_canonical_event-puts canonical n m h)
      ∙ lookup-insert_self canonical.id canonical n.events

  module _ {Json' : Type 0} (receiver : Receive.World Json') (req : Receive.Request)
      (before : Receive.State Json') where
    abbrev after : Memory
    after = (Receive.handle_webhook receiver req before).0.store

    acknowledged-valid :
        (Receive.handle_webhook receiver req before).1.status ≡ 200
        → lookup receiver.new_id after.raw_events ≡ some raw
        → raw.signature_valid ≡ true
    acknowledged-valid ok held =
        let (stored, put, same, valid, _) = acknowledged-Stores receiver req before ok in
        let (found, _, _, _) = put_raw_event-stored stored before.store after put in
        ap (λ r. r.signature_valid)
          (given (sym held ∙ ap (λ i. lookup i after.raw_events) (sym same) ∙ found))
        ∙ valid

own-raw :
    (id : Text) (raw : RawEvent) (m : Memory)
    → lookup id m.raw_events ≡ some raw
    → get_raw_event raw.tenant_id id m ≡ some raw
unfolding get_raw_event
own-raw id raw m h = rw (get_raw_event, h, (text_eq_iff raw.tenant_id raw.tenant_id).1 refl) refl

-- A webhook that was answered with 200, with the raw event that it stored, and a normaliser that finds
-- the endpoint, has an adapter for it that parses the body into an event which, completed, is valid
-- and is not refused as a duplicate: processing the raw event ends without an error, and each
-- enabled destination of the tenant whose filter matches the event has a pending delivery of it, with
-- the shard of its reference and its next sequence number.
pub acknowledged-forwarded :
    {Json Json' : Type 0} (receiver : Receive.World Json') (req : Receive.Request)
    (before : Receive.State Json') (w : World Json) (raw : RawEvent) (endpoint : Endpoint)
    (parse : Text → ParseError ⊎ CanonicalEvent) (ev : CanonicalEvent) (st : State Json)
    (m : Memory) (i : ℕ) (dest : Destination)
    → let e = canonical w receiver.new_id raw endpoint parse ev in
      (Receive.handle_webhook receiver req before).1.status ≡ 200
      → st.store ≡ (Receive.handle_webhook receiver req before).0.store
      → lookup receiver.new_id st.store.raw_events ≡ some raw
      → get_endpoint raw.tenant_id raw.endpoint_id st.store ≡ some endpoint
      → w.get_adapter raw.tenant_id endpoint.adapter_name ≡ some parse
      → parse raw.body ≡ inr ev
      → validate e ≡ none
      → put_canonical_event e st.store ≡ inr m
      → get_elem? (filter (is_wanted e) (list_destinations e.tenant_id m)) i ≡ some dest
      → let (st', outcome) = process w receiver.new_id raw.tenant_id st in
        (outcome ≡ done)
        × (lookup (m.delivery_ids + suc i) st'.store.deliveries
            ≡ some (
                queued_as e
                  (shard_for e.transaction_ref w.shards)
                  (sequence_of e m)
                  w.now
                  dest
                  (m.delivery_ids + suc i)))
unfolding announce
acknowledged-forwarded receiver req before w raw endpoint parse ev st m i dest ok same held found
      adapter parses sound stored wanted =
    let e = canonical w receiver.new_id raw endpoint parse ev in
    let valid =
      acknowledged-valid w receiver.new_id raw endpoint parse ev receiver req before ok
        (ap (λ n. lookup receiver.new_id n.raw_events) (sym same) ∙ held) in
    let ends =
      process-done w receiver.new_id raw endpoint parse ev st m
        (own-raw receiver.new_id raw st.store held) valid found adapter parses sound stored in
    (
      ap (λ r. r.1) ends,
      ap (λ r. lookup (m.delivery_ids + suc i) r.0.store.deliveries) ends
          ∙ (enqueue-queued w.shards w.now e m i dest
              (stored-canonical w receiver.new_id raw endpoint parse ev m st.store stored)
              wanted).0,
    )
