-- ===== src/Dispatch/Dispatcher/Outcome.antt =====
-- What `deliver_once` leaves of a delivery: its status, its attempts, its lease, its audit records.
use status_hub.Prelude.{
  ℕ, ◌≤◌, ◌<◌, ◌≡◌, refl, sym, ◌∙◌, ap, Bool, true, false, Option, none, some, List, [], ◌∷◌, ◌++◌,
  leb, nat_eq, ◌||◌, Bool-cases, Option-cases, inl, inr, arith, lookup, lookup-insert_self,
  lookup-delete_self, insert, delete, nat_Eq, Text, text_Eq, text_eq_iff,
}
use mathlib.Core.Path.{subst}
use mathlib.Core.List.{append-nil}
use status_hub.Domain.Delivery.{
  Delivery, DeliveryStatus, failed, succeeded, dead_letter, is_in_flight, is_success, should_retry,
}
use status_hub.Domain.Event.{CanonicalEvent}
use status_hub.Domain.Config.{Destination, attempts}
use status_hub.Store.Memory.{Memory, get_destination, get_canonical_event}
use status_hub.Store.Deliveries.{complete_delivery}
use status_hub.Dispatch.Message.{Refusal}
use status_hub.Dispatch.Breaker
use status_hub.Dispatch.Breaker.{Breaker, allow, state_of}
use status_hub.Dispatch.Dispatcher.{
  AuditEventType, event_forwarded, event_dead_lettered, Effect, request, audit, delivery_count,
  dead_letter_count, breaker_gauge, State, World, Response, transport_error, responded, emit,
  complete, policy_of, parked, park, record_success, record_failure, succeed, fail, noted,
  dead_lettered, outage, retry, settle, answered, send, build, resolve, encode, admit, attempt,
  deliver_once,
}

-- The kinds of the audit records among the effects.
unfoldable pub audits : List Effect → List AuditEventType
audits [] = []
audits (audit k _ _ _ ∷ es) = k ∷ audits es
audits (request _ _ _ _ ∷ es) = audits es
audits (delivery_count _ _ ∷ es) = audits es
audits (dead_letter_count _ ∷ es) = audits es
audits (breaker_gauge _ _ ∷ es) = audits es

audits-append : (es fs : List Effect) → audits (es ++ fs) ≡ audits es ++ audits fs
unfolding audits
audits-append [] fs = refl
audits-append (audit k _ _ _ ∷ es) fs = ap (λ l. k ∷ l) (audits-append es fs)
audits-append (request _ _ _ _ ∷ es) fs = audits-append es fs
audits-append (delivery_count _ _ ∷ es) fs = audits-append es fs
audits-append (dead_letter_count _ ∷ es) fs = audits-append es fs
audits-append (breaker_gauge _ _ ∷ es) fs = audits-append es fs

-- The record that a status calls for.
abbrev pub audit_for : DeliveryStatus → List AuditEventType
audit_for succeeded = event_forwarded ∷ []
audit_for dead_letter = event_dead_lettered ∷ []
audit_for _ = []

-- The store has the delivery, under the same tenant.
pub record IsStored (del : Delivery) (st : State) : Type 0 where
  pub existing : Delivery
  pub found : lookup del.id st.store.deliveries ≡ some existing
  pub tenant : existing.tenant_id ≡ del.tenant_id

-- What is left of a delivery of which `limit` attempts may be made, after the audit records `base`.
pub record Outcome (limit : ℕ) (id : ℕ) (base : List AuditEventType) (r : State × Bool)
    : Type 0 where
  pub ok : r.1 ≡ true
  pub stored : Delivery
  pub found : lookup id r.0.store.deliveries ≡ some stored
  pub unleased : lookup id r.0.store.leases ≡ none
  pub settled : is_in_flight stored.status ≡ false
  pub budgeted : stored.status ≡ failed → stored.attempt < limit
  pub bounded : stored.attempt ≤ limit
  pub audited : audits r.0.effects ≡ base ++ audit_for stored.status

-- The store after a delivery that it has is completed.
unfoldable pub completed : ℕ → Delivery → Delivery → Memory → Memory
completed now existing d m = record m {
  deliveries =
      insert d.id (record d { created_at = existing.created_at; updated_at = now }) m.deliveries;
  leases = delete d.id m.leases;
}

pub complete_lem :
    (now : ℕ) (d : Delivery) (st : State) (h : IsStored d st)
    → complete now d st ≡ (record st { store = completed now h.existing d st.store }, true)
unfolding complete complete_delivery completed
complete_lem now d st h =
    let same = (text_eq_iff h.existing.tenant_id d.tenant_id).1 h.tenant in
    let step : complete_delivery now d st.store ≡ (completed now h.existing d st.store, true) =
      rw (h.found, complete_delivery) (rw same) in
    ap (λ (p : Memory × Bool). let q : State × Bool = (record st { store = p.0 }, p.1) in q) step

complete-Outcome :
    (limit now : ℕ) (base : List AuditEventType) (d : Delivery) (st : State)
    → IsStored d st
    → is_in_flight d.status ≡ false
    → (d.status ≡ failed → d.attempt < limit)
    → d.attempt ≤ limit
    → audits st.effects ≡ base ++ audit_for d.status
    → Outcome limit d.id base (complete now d st)
unfolding completed
complete-Outcome limit now base d st h s b c a = rw (complete_lem now d st h) (record {
  ok = refl;
  stored = record d { created_at = h.existing.created_at; updated_at = now };
  found =
      lookup-insert_self d.id (record d { created_at = h.existing.created_at; updated_at = now })
        st.store.deliveries;
  unleased = lookup-delete_self d.id st.store.leases;
  settled = s;
  budgeted = b;
  bounded = c;
  audited = a;
})

-- What holds of the state throughout an attempt, until the delivery is completed.
pub record IsReady (del : Delivery) (base : List AuditEventType) (st : State) : Type 0 where
  pub stored : IsStored del st
  pub unaudited : audits st.effects ≡ base

module _ {del : Delivery} {base : List AuditEventType} where
  emit-IsReady :
      (es : List Effect) (st : State)
      → audits es ≡ []
      → IsReady del base st
      → IsReady del base (emit es st)
  emit-IsReady es st q h = record {
    stored = record {
      existing = h.stored.existing;
      found = h.stored.found;
      tenant = h.stored.tenant;
    };
    unaudited =
        audits-append st.effects es
        ∙ ap (λ l. audits st.effects ++ l) q
        ∙ append-nil (audits st.effects)
        ∙ h.unaudited;
  }

  breaker-IsReady :
      (b : Breaker) (st : State)
      → IsReady del base st
      → IsReady del base (record st { breaker = b })
  breaker-IsReady b st h = record {
    stored = record {
      existing = h.stored.existing;
      found = h.stored.found;
      tenant = h.stored.tenant;
    };
    unaudited = h.unaudited;
  }

  record_success-IsReady :
      (id : Text) (st : State) → IsReady del base st → IsReady del base (record_success id st)
  unfolding record_success audits
  record_success-IsReady id st h =
      emit-IsReady _ (record st { breaker = Breaker.succeeded id st.breaker }) refl
        (breaker-IsReady (Breaker.succeeded id st.breaker) st h)

  record_failure-IsReady :
      (now : ℕ) (id reason : Text) (st : State)
      → IsReady del base st
      → IsReady del base (record_failure now id reason st)
  unfolding record_failure audits
  record_failure-IsReady now id reason st h =
      emit-IsReady _ (record st { breaker = (Breaker.failed now id reason st.breaker).0 }) refl
        (breaker-IsReady (Breaker.failed now id reason st.breaker).0 st h)

-- The delivery `d`, which is `del` with its outcome written, is completed after the effects `es`.
finish :
    (limit now : ℕ) (base : List AuditEventType) (del d : Delivery) (es : List Effect) (st : State)
    → IsReady del base st
    → d.id ≡ del.id
    → d.tenant_id ≡ del.tenant_id
    → is_in_flight d.status ≡ false
    → (d.status ≡ failed → d.attempt < limit)
    → d.attempt ≤ limit
    → audits es ≡ audit_for d.status
    → Outcome limit del.id base (complete now d (emit es st))
finish limit now base del d es st h i t s b c a =
    subst (λ k. Outcome limit k base (complete now d (emit es st))) i
      (complete-Outcome limit now base d (emit es st)
        (record {
          existing = h.stored.existing;
          found = ap (λ k. lookup k st.store.deliveries) i ∙ h.stored.found;
          tenant = h.stored.tenant ∙ sym t;
        })
        s b c
        (audits-append st.effects es
          ∙ ap (λ l. l ++ audits es) h.unaudited
          ∙ ap (λ l. base ++ l) a))

module _ (limit : ℕ) (base : List AuditEventType) (del : Delivery) (few : del.attempt ≤ limit) where
  succeed-Outcome :
      (w : World) (code : ℕ) (body : Text) (st : State)
      → IsReady del base st
      → Outcome limit del.id base (succeed w del code body st)
  unfolding succeed audits is_in_flight
  succeed-Outcome w code body st h =
      finish limit w.ended base del _ _ st h refl refl refl (λ e. cc) few refl

  fail-Outcome :
      (now : ℕ) (w : World) (code : ℕ) (body reason : Text) (st : State)
      → IsReady del base st
      → Outcome limit del.id base (fail now w del code body reason st)
  unfolding fail audits is_in_flight
  fail-Outcome now w code body reason st h =
      finish limit now base del _ _ st h refl refl refl (λ e. cc) few refl

  -- `d` is `del`, maybe with what was noted of the attempt.
  park-Outcome :
      (now : ℕ) (d : Delivery) (dest : Destination) (reason : Text) (st : State)
      → 0 < limit
      → d.id ≡ del.id
      → d.tenant_id ≡ del.tenant_id
      → d.attempt ≡ del.attempt
      → IsReady del base st
      → Outcome limit del.id base (park now d dest reason st)
  unfolding park parked audits is_in_flight
  park-Outcome now d dest reason st pos i t a h =
      finish limit now base del (parked now d dest reason) _ st h i t refl (λ _. ground arith)
        (ground arith) refl

  dead_lettered-Outcome :
      (now : ℕ) (d : Delivery) (st : State)
      → d.id ≡ del.id
      → d.tenant_id ≡ del.tenant_id
      → d.attempt ≡ del.attempt
      → IsReady del base st
      → Outcome limit del.id base (dead_lettered now d st)
  unfolding dead_lettered audits is_in_flight
  dead_lettered-Outcome now d st i t a h =
      finish limit now base del _ _ st h i t refl (λ e. cc) (omega (arith, a)) refl

  retry-Outcome :
      (now : ℕ) (w : World) (dest : Destination) (code : ℕ) (body reason : Text) (st : State)
      → 0 < limit
      → attempts (policy_of dest) ≡ limit
      → IsReady del base st
      → Outcome limit del.id base (retry now w del dest code body reason st)
  unfolding retry audits is_in_flight
  retry-Outcome now w dest code body reason st pos budget h =
      let d = noted now w del code body reason in
      elim (Bool-cases (leb (attempts (policy_of dest)) del.attempt)) [
        | inl spent ↦ rw spent (elim (Bool-cases (outage now del dest st)) [
          | inl out ↦ rw out (park-Outcome now d dest _ st pos refl refl refl h)
          | inr over ↦ rw over (dead_lettered-Outcome now d st refl refl refl h)
        ])
        | inr left ↦
            rw left (finish limit now base del _ _ st h refl refl refl (λ _. ground arith) few refl)
      ]

  module _ (w : World) (dest : Destination) (pos : 0 < limit)
      (budget : attempts (policy_of dest) ≡ limit) where
    settle-Outcome :
        (code : ℕ) (body : Text) (st : State)
        → IsReady del base st
        → Outcome limit del.id base (settle w del dest code body st)
    unfolding settle
    settle-Outcome code body st h = elim (Bool-cases (is_success code)) [
      | inl good ↦ rw good (succeed-Outcome w code body _ (record_success-IsReady dest.id st h))
      | inr bad ↦ rw bad (elim (Bool-cases (leb 500 code || nat_eq code 429)) [
        | inl server ↦ rw server (
            retry-Outcome w.ended w dest code body [] _ pos budget
              (record_failure-IsReady w.ended dest.id _ st h))
        | inr client ↦ rw client (elim (Bool-cases (should_retry code)) [
          | inl again ↦ rw again (retry-Outcome w.ended w dest code body [] st pos budget h)
          | inr never ↦ rw never (fail-Outcome w.ended w code body _ st h)
        ])
      ])
    ]

    answered-Outcome :
        (r : Response) (st : State)
        → IsReady del base st
        → Outcome limit del.id base (answered r w del dest st)
    unfolding answered
    answered-Outcome (transport_error reason true) st h =
        fail-Outcome w.ended w 0 [] reason _ (record_failure-IsReady w.ended dest.id reason st h)
    answered-Outcome (transport_error reason false) st h =
        retry-Outcome w.ended w dest 0 [] reason _ pos budget
          (record_failure-IsReady w.ended dest.id reason st h)
    answered-Outcome (responded code body) st h = settle-Outcome code body st h

    module _ (event : CanonicalEvent) where
      build-Outcome :
          (o : Option Text) (st : State)
          → IsReady del base st
          → Outcome limit del.id base (build o w del event dest st)
      unfolding build send audits
      build-Outcome (some err) st h = fail-Outcome w.start w 0 [] _ st h
      build-Outcome none st h =
          answered-Outcome w.response _
            (emit-IsReady (request dest.url event.id del.attempt del.is_replay ∷ []) st refl h)

      resolve-Outcome :
          (o : Option Text) (st : State)
          → IsReady del base st
          → Outcome limit del.id base (resolve o w del event dest st)
      unfolding resolve
      resolve-Outcome (some err) st h = retry-Outcome w.start w dest 0 [] _ st pos budget h
      resolve-Outcome none st h = build-Outcome w.request_error st h

      encode-Outcome :
          (o : Option Text) (st : State)
          → IsReady del base st
          → Outcome limit del.id base (encode o w del event dest st)
      unfolding encode
      encode-Outcome (some err) st h = fail-Outcome w.start w 0 [] _ st h
      encode-Outcome none st h = resolve-Outcome w.secret_error st h

      admit-Outcome :
          (o : Option Refusal) (st : State)
          → IsReady del base st
          → Outcome limit del.id base (admit o w del event dest st)
      unfolding admit
      admit-Outcome (some refusal) st h = park-Outcome w.start del dest _ st pos refl refl refl h
      admit-Outcome none st h = encode-Outcome w.encode_error st h

-- An attempt at a stored delivery, of which at most `limit` attempts are allowed, always completes
-- it, whatever the outside does: the store keeps it, no longer in flight and with no lease; where it
-- is to be tried again its attempts are below the limit, and they never pass it; and exactly one
-- audit record is added where it was forwarded or dead-lettered, of that kind, and none otherwise.
pub deliver_once-Outcome :
    (w : World) (del : Delivery) (st : State) (limit : ℕ)
    → IsStored del st
    → 0 < limit
    → del.attempt ≤ limit
    → ((dest : Destination)
        → get_destination del.tenant_id del.destination_id st.store ≡ some dest
        → attempts (policy_of dest) ≡ limit)
    → Outcome limit del.id (audits st.effects) (deliver_once w del st)
unfolding deliver_once attempt
deliver_once-Outcome w del st limit h pos few budget =
    let ready : IsReady del (audits st.effects) st = record { stored = h; unaudited = refl } in
    elim (Option-cases (get_canonical_event del.tenant_id del.event_id st.store)) [
      | inl p ↦
          rw (p, deliver_once)
            (fail-Outcome limit (audits st.effects) del few w.start w 0 [] _ st ready)
      | inr (event, p) ↦
          rw (p, deliver_once)
            (elim (Option-cases (get_destination del.tenant_id del.destination_id st.store)) [
              | inl q ↦
                  rw (q, deliver_once)
                    (fail-Outcome limit (audits st.effects) del few w.start w 0 [] _ st ready)
              | inr (dest, q) ↦
                  rw (q, deliver_once)
                    (admit-Outcome limit (audits st.effects) del few w dest pos (budget dest q)
                      event (allow w.start dest.id st.breaker).1 _
                      (breaker-IsReady (allow w.start dest.id st.breaker).0 st ready))
            ])
    ]
