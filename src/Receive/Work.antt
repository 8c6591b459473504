-- ===== src/Receive/Work.antt =====
-- What a webhook leaves for the normaliser to do.
use status_hub.Prelude.{
  [], ◌∷◌, ◌++◌, ◌≡◌, refl, sym, ap, ◌∙◌, true, false, ◌&&◌, List, some, inl, inr, arith, Text,
  text_Eq, lookup, lookup-insert_self,
}
use status_hub.Domain.Tenancy.{RawEvent}
use status_hub.Store.Memory.{Memory}
use status_hub.Store.Events.{put_raw_event, is_pending, is_missing}
use status_hub.Store.Events.Pending.{EventCall, apply_event_calls, apply_event_calls-held}
use status_hub.Receive.{Request, Response, World, State, handle_webhook}
use status_hub.Receive.Outcome.{Stores, IsTakenFrom, IsOutcome, handle_webhook-IsOutcome}

pub put_raw_event-stored :
    (raw : RawEvent) (m n : Memory)
    → put_raw_event raw m ≡ inr n
    → (lookup raw.id n.raw_events ≡ some raw)
      × (n.normalised ≡ m.normalised)
      × (n.failures ≡ m.failures)
      × (n.raw_order ≡ m.raw_order ++ raw.id ∷ [])
unfolding put_raw_event
put_raw_event-stored raw m n h = ground (arith, lookup-insert_self raw.id raw m.raw_events)

is_pending_held :
    (id : Text) (raw : RawEvent) (m : Memory)
    → lookup id m.raw_events ≡ some raw
    → is_pending m id
      ≡ raw.signature_valid
        && is_missing (lookup id m.normalised)
        && is_missing (lookup id m.failures)
unfolding is_pending
is_pending_held id raw m h = rw (is_pending, h) refl

module _ {Json : Type 0} (w : World Json) (req : Request) (st : State Json) where
  abbrev after : Memory
  after = (handle_webhook w req st).0.store

  abbrev response : Response
  response = (handle_webhook w req st).1

  pub acknowledged-Stores : response.status ≡ 200 → Stores w req true st.store after
  unfolding IsOutcome
  acknowledged-Stores h = elim (handle_webhook-IsOutcome w req st).1 [
    | inl (_, _, s) ↦ s
    | inr (inl (k, _)) ↦ absurd (omega (arith, h, k))
    | inr (inr (k, _, _)) ↦ absurd (ground (arith, h, k))
  ]

  unsigned-Stores : response.status ≡ 401 → Stores w req false st.store after
  unfolding IsOutcome
  unsigned-Stores h = elim (handle_webhook-IsOutcome w req st).1 [
    | inl (k, _, _) ↦ absurd (omega (arith, h, k))
    | inr (inl (_, s)) ↦ s
    | inr (inr (k, _, _)) ↦ absurd (ground (arith, h, k))
  ]

  -- The raw event that is stored of a webhook that was refused with 401 is never changed, and never
  -- waits to be normalised, whatever is stored later.
  pub unsigned-Kept :
      (calls : List EventCall)
      → response.status ≡ 401
      → ((raw : RawEvent) × (raw.signature_valid ≡ false)
          × IsTakenFrom w req st.store false raw
          × (lookup w.new_id after.raw_events ≡ some raw)
          × (lookup w.new_id (apply_event_calls calls after).raw_events ≡ some raw))
        × (is_pending (apply_event_calls calls after) w.new_id ≡ false)
  unsigned-Kept calls h =
      let (raw, put, same, invalid, taken) = unsigned-Stores h in
      let (held, _, _, _) = put_raw_event-stored raw st.store after put in
      let held' : lookup w.new_id after.raw_events ≡ some raw =
        ap (λ i. lookup i after.raw_events) (sym same) ∙ held in
      let (kept, never) = apply_event_calls-held calls w.new_id raw after held' in
      (
        (raw, invalid, taken, held', kept),
        never (
            is_pending_held w.new_id raw after held'
            ∙ ap
                (λ b.
                  b
                  && is_missing (lookup w.new_id after.normalised)
                  && is_missing (lookup w.new_id after.failures))
                invalid),
      )
