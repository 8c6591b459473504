-- ===== src/Store/Events/Pending.antt =====
-- Which raw events wait to be normalised.
use status_hub.Prelude.{
  ℕ, zero, suc, ◌-◌, ◌≡◌, refl, ap, false, ◌∷◌, [], List, filter, take, some, inl, inr, Bool-cases,
  arith, leb, Text, text_Eq, text_eq_iff, lookup, lookup-insert, ℤ, pos, negsuc, positive_or,
}
use status_hub.Domain.Tenancy.{RawEvent}
use status_hub.Domain.Event.{CanonicalEvent}
use status_hub.Store.Memory.{Memory, stored}
use status_hub.Store.Events.{
  put_raw_event, is_pending, pending_loop, list_unnormalised, put_event, put_canonical_event,
  mark_normalisation_failure,
}

less_one : (n : ℕ) → suc (suc n) - 1 ≡ suc n
less_one n = omega arith

more_than_one : (n : ℕ) → leb (suc (suc n)) 1 ≡ false
more_than_one n = ground arith

pending_loop-filter :
    (m : Memory) (left : ℕ) (ids : List Text)
    → pending_loop m (suc left) ids ≡ take (suc left) (filter (is_pending m) ids)
unfolding filter pending_loop
pending_loop-filter m left [] = refl
pending_loop-filter m zero (id ∷ ids) = elim (Bool-cases (is_pending m id)) [
  | inr skip ↦ rw (pending_loop, skip) (pending_loop-filter m zero ids)
  | inl wait ↦ rw (pending_loop, wait) refl
]
pending_loop-filter m (suc left) (id ∷ ids) = elim (Bool-cases (is_pending m id)) [
  | inr skip ↦ rw (pending_loop, skip) (pending_loop-filter m (suc left) ids)
  | inl wait ↦
      rw (pending_loop, wait, more_than_one left, less_one left)
        (ap (λ l. id ∷ l) (pending_loop-filter m left ids))
]

-- ListUnnormalised returns the first events, in the order of their arrival, of those that wait.
pub list_unnormalised-filter :
    (limit : ℤ) (m : Memory)
    → list_unnormalised limit m ≡ take (positive_or limit 100) (filter (is_pending m) m.raw_order)
unfolding list_unnormalised
list_unnormalised-filter (pos zero) m = pending_loop-filter m 99 m.raw_order
list_unnormalised-filter (pos (suc n)) m = pending_loop-filter m n m.raw_order
list_unnormalised-filter (negsuc n) m = pending_loop-filter m 99 m.raw_order

-- A call on the events of the store.
pub data EventCall : Type 0 where
  raw_put : RawEvent → EventCall
  event_put : CanonicalEvent → EventCall
  failure_mark : Text → Text → Text → EventCall

abbrev pub apply_event_call : EventCall → Memory → Memory
apply_event_call (raw_put e) m = stored m (put_raw_event e m)
apply_event_call (event_put e) m = stored m (put_canonical_event e m)
apply_event_call (failure_mark t id reason) m = stored m (mark_normalisation_failure t id reason m)

abbrev pub apply_event_calls : List EventCall → Memory → Memory
apply_event_calls [] m = m
apply_event_calls (call ∷ calls) m = apply_event_calls calls (apply_event_call call m)

module _ (id : Text) (raw : RawEvent) (m : Memory) (held : lookup id m.raw_events ≡ some raw) where
  put_raw_event-held :
      (e : RawEvent) → lookup id (stored m (put_raw_event e m)).raw_events ≡ some raw
  unfolding put_raw_event
  put_raw_event-held e = ground (arith, lookup-insert e.id id e m.raw_events, text_eq_iff e.id id)

  put_canonical_event-held :
      (e : CanonicalEvent) → lookup id (stored m (put_canonical_event e m)).raw_events ≡ some raw
  unfolding put_canonical_event put_event
  put_canonical_event-held e = ground arith

  mark-held :
      (t k reason : Text)
      → lookup id (stored m (mark_normalisation_failure t k reason m)).raw_events ≡ some raw
  unfolding mark_normalisation_failure
  mark-held t k reason = ground arith

  apply_event_call-held :
      (call : EventCall) → lookup id (apply_event_call call m).raw_events ≡ some raw
  apply_event_call-held (raw_put e) = put_raw_event-held e
  apply_event_call-held (event_put e) = put_canonical_event-held e
  apply_event_call-held (failure_mark t k reason) = mark-held t k reason

  -- An event that is held and does not wait does not wait later.
  module _ (settled : is_pending m id ≡ false) where
    put_raw_event-settled : (e : RawEvent) → is_pending (stored m (put_raw_event e m)) id ≡ false
    unfolding put_raw_event is_pending
    put_raw_event-settled e =
        ground (arith, lookup-insert e.id id e m.raw_events, text_eq_iff e.id id)

    put_canonical_event-settled :
        (e : CanonicalEvent) → is_pending (stored m (put_canonical_event e m)) id ≡ false
    unfolding put_canonical_event put_event is_pending
    put_canonical_event-settled e =
        ground (arith, lookup-insert e.raw_event_id id e.id m.normalised)

    mark-settled :
        (t k reason : Text)
        → is_pending (stored m (mark_normalisation_failure t k reason m)) id ≡ false
    unfolding mark_normalisation_failure is_pending
    mark-settled t k reason = ground (arith, lookup-insert k id reason m.failures)

    apply_event_call-settled : (call : EventCall) → is_pending (apply_event_call call m) id ≡ false
    apply_event_call-settled (raw_put e) = put_raw_event-settled e
    apply_event_call-settled (event_put e) = put_canonical_event-settled e
    apply_event_call-settled (failure_mark t k reason) = mark-settled t k reason

-- A raw event that is stored is never changed, whatever is stored after it; and once it does not
-- wait to be normalised, for its signature, its canonical event or a failure, it never does again.
pub apply_event_calls-held :
    (calls : List EventCall) (id : Text) (raw : RawEvent) (m : Memory)
    → lookup id m.raw_events ≡ some raw
    → (lookup id (apply_event_calls calls m).raw_events ≡ some raw)
      × (is_pending m id ≡ false → is_pending (apply_event_calls calls m) id ≡ false)
apply_event_calls-held [] id raw m held = (held, λ h. h)
apply_event_calls-held (call ∷ calls) id raw m held =
    let (held', later) =
      apply_event_calls-held calls id raw (apply_event_call call m)
        (apply_event_call-held id raw m held call) in
    (held', λ settled. later (apply_event_call-settled id raw m held settled call))
