-- ===== src/Store/Events/Dedupe.antt =====
-- A provider's event is stored once.
use mathlib.Core.Path.{subst}
use status_hub.Prelude.{
  ◌≡◌, ◌≢◌, refl, sym, ap, ◌∙◌, false, ◌∷◌, [], List, none, some, inl, inr, Bool-cases,
  Option-cases, arith, Text, text_Eq, text_eq, text_eq_iff, lookup, lookup-insert,
}
use status_hub.Domain.Tenancy.{RawEvent}
use status_hub.Domain.Event.{CanonicalEvent}
use status_hub.Store.Memory.{Memory, stored, new_memory, duplicate}
use status_hub.Store.Events.{
  key_of_event, put_event, put_raw_event, mark_normalisation_failure, put_canonical_event,
}
use status_hub.Store.Events.Pending.{
  EventCall, raw_put, event_put, failure_mark, apply_event_call, apply_event_calls,
}

-- The key of each stored event that has a provider's id leads to it.
unfoldable pub IsKeyed : Memory → Type 0
IsKeyed m =
    (id : Text) (e : CanonicalEvent)
    → lookup id m.events ≡ some e
    → e.provider_event_id ≢ []
    → lookup (key_of_event e) m.event_keys ≡ some id

module _ (e : CanonicalEvent) (m : Memory) where
  IsFresh : Type 0
  IsFresh = e.provider_event_id ≢ [] → lookup (key_of_event e) m.event_keys ≡ none

  put_event-new_key :
      e.provider_event_id ≢ [] → lookup (key_of_event e) (put_event e m).event_keys ≡ some e.id
  unfolding put_event
  put_event-new_key has = elim (Bool-cases (text_eq e.provider_event_id [])) [
    | inl p ↦ absurd (has ((text_eq_iff e.provider_event_id []).0 p))
    | inr p ↦
        rw
          (
            p,
            lookup-insert (key_of_event e) (key_of_event e) e.id m.event_keys,
            (text_eq_iff (key_of_event e) (key_of_event e)).1 refl,
          )
          refl
  ]

  put_event-old_key :
      (k id : Text)
      → IsFresh
      → lookup k m.event_keys ≡ some id
      → lookup k (put_event e m).event_keys ≡ some id
  unfolding IsFresh put_event
  put_event-old_key k id fresh old = elim (Bool-cases (text_eq e.provider_event_id [])) [
    | inl p ↦ rw p old
    | inr p ↦ rw (p, lookup-insert (key_of_event e) k e.id m.event_keys, differ p) old
  ]
    where
      differ : text_eq e.provider_event_id [] ≡ false → text_eq (key_of_event e) k ≡ false
      differ p = elim (Bool-cases (text_eq (key_of_event e) k)) [
        | inl same ↦ absurd (
            clash (
              sym (fresh (λ h. absurd (empty p h)))
              ∙ ap (λ j. lookup j m.event_keys) ((text_eq_iff (key_of_event e) k).0 same)
              ∙ old))
        | inr other ↦ other
      ]
        where
          clash : none ≡ some id → ⊥
          clash h = ground arith

          empty : text_eq e.provider_event_id [] ≡ false → e.provider_event_id ≡ [] → ⊥
          empty p h = ground (arith, text_eq_iff e.provider_event_id [])

  put_event-IsKeyed : IsFresh → IsKeyed m → IsKeyed (put_event e m)
  unfolding IsKeyed put_event
  put_event-IsKeyed fresh keyed id f held has = elim (Bool-cases (text_eq e.id id)) [
    | inl p ↦
        (let same : e ≡ f = some_path (rw (lookup-insert e.id id e m.events, p) at held) in
          subst
            (λ g.
              g.provider_event_id ≢ []
              → lookup (key_of_event g) (put_event e m).event_keys ≡ some id)
            same (λ has'. put_event-new_key has' ∙ ap some ((text_eq_iff e.id id).0 p)) has)
    | inr p ↦
        put_event-old_key (key_of_event f) id fresh
          (keyed id f (rw (lookup-insert e.id id e m.events, p) at held) has)
  ]
    where
      some_path : {g h : CanonicalEvent} → some g ≡ some h → g ≡ h
      some_path h = cc

put_canonical_event-IsKeyed :
    (e : CanonicalEvent) (m : Memory) → IsKeyed m → IsKeyed (stored m (put_canonical_event e m))
unfolding put_canonical_event IsFresh
put_canonical_event-IsKeyed e m keyed = elim (Bool-cases (text_eq e.provider_event_id [])) [
  | inl p ↦
      rw p (
        put_event-IsKeyed e m (λ has. absurd (has ((text_eq_iff e.provider_event_id []).0 p)))
          keyed)
  | inr p ↦ elim (Option-cases (lookup (key_of_event e) m.event_keys)) [
    | inl q ↦ rw (p, q) (put_event-IsKeyed e m (λ _. q) keyed)
    | inr (existing, q) ↦ rw (p, q) keyed
  ]
]

IsKeyed-same :
    (m n : Memory) → n.events ≡ m.events → n.event_keys ≡ m.event_keys → IsKeyed m → IsKeyed n
unfolding IsKeyed
IsKeyed-same m n e k keyed id f held has =
    ap (lookup (key_of_event f)) k ∙ keyed id f (sym (ap (lookup id) e) ∙ held) has

put_raw_event-events :
    (e : RawEvent) (m : Memory)
    → ((stored m (put_raw_event e m)).events ≡ m.events)
      × ((stored m (put_raw_event e m)).event_keys ≡ m.event_keys)
unfolding put_raw_event
put_raw_event-events e m = ground arith

mark-events :
    (t k reason : Text) (m : Memory)
    → let n = stored m (mark_normalisation_failure t k reason m) in
      (n.events ≡ m.events) × (n.event_keys ≡ m.event_keys)
unfolding mark_normalisation_failure
mark-events t k reason m = ground arith

apply_event_call-IsKeyed :
    (call : EventCall) (m : Memory) → IsKeyed m → IsKeyed (apply_event_call call m)
apply_event_call-IsKeyed (event_put e) m keyed = put_canonical_event-IsKeyed e m keyed
apply_event_call-IsKeyed (raw_put e) m keyed =
    let (e', k) = put_raw_event-events e m in
    IsKeyed-same m (stored m (put_raw_event e m)) e' k keyed
apply_event_call-IsKeyed (failure_mark t id reason) m keyed =
    let (e, k) = mark-events t id reason m in
    IsKeyed-same m (stored m (mark_normalisation_failure t id reason m)) e k keyed

apply_event_calls-IsKeyed :
    (calls : List EventCall) (m : Memory) → IsKeyed m → IsKeyed (apply_event_calls calls m)
apply_event_calls-IsKeyed [] m keyed = keyed
apply_event_calls-IsKeyed (call ∷ calls) m keyed =
    apply_event_calls-IsKeyed calls (apply_event_call call m)
      (apply_event_call-IsKeyed call m keyed)

new_memory-IsKeyed : IsKeyed new_memory
unfolding IsKeyed lookup
new_memory-IsKeyed id e held has = absurd (none_held held)
  where
    none_held : none ≡ some e → ⊥
    none_held h = cc

-- Whatever is stored from the start on, once a canonical event with a provider's id, which is not
-- empty, is stored, another one of its tenant and provider with that id is refused, and the refusal
-- names the stored event: a redelivery is never a second event.
pub apply_event_calls-redelivery :
    (calls : List EventCall) (i : Text) (e f : CanonicalEvent)
    → let m = apply_event_calls calls new_memory in
      lookup i m.events ≡ some e
      → e.provider_event_id ≢ []
      → f.tenant_id ≡ e.tenant_id
      → f.provider ≡ e.provider
      → f.provider_event_id ≡ e.provider_event_id
      → put_canonical_event f m ≡ inl (duplicate i)
unfolding IsKeyed put_canonical_event
apply_event_calls-redelivery calls i e f p has t v k =
    rw
      (
        put_canonical_event,
        not_empty,
        ap (λ c. lookup c (apply_event_calls calls new_memory).event_keys) one_key
            ∙ apply_event_calls-IsKeyed calls new_memory new_memory-IsKeyed i e p has,
      )
      refl
  where
    one_key : key_of_event f ≡ key_of_event e
    one_key = rw (t, v, k) refl

    not_empty : text_eq f.provider_event_id [] ≡ false
    not_empty = elim (Bool-cases (text_eq f.provider_event_id [])) [
      | inl q ↦ absurd (has (sym k ∙ (text_eq_iff f.provider_event_id []).0 q))
      | inr q ↦ q
    ]
