-- ===== src/Dispatch/Dispatcher/Outage.antt =====
-- Deliveries to a destination whose breaker is not closed.
use status_hub.Prelude.{
  ℕ, ◌≤◌, ◌≡◌, ◌≢◌, refl, ◌∙◌, ap, Bool, true, false, none, some, List, [], ◌∷◌, ◌++◌, leb, nat_eq,
  ◌||◌, Bool-cases, inl, inr, arith, lookup, lookup-insert_self, nat_Eq, Text, All,
}
use status_hub.Domain.Delivery.{Delivery, failed, is_success, should_retry}
use status_hub.Domain.Event.{CanonicalEvent}
use status_hub.Domain.Config.{Destination, attempts}
use status_hub.Store.Memory.{Memory, get_destination, get_canonical_event}
use status_hub.Store.Deliveries.{lease_out}
use status_hub.Dispatch.Message.{Refusal, probe_busy, why}
use status_hub.Dispatch.Breaker.{closed, allow, state_of}
use status_hub.Dispatch.Breaker.Run.{Call, run}
use status_hub.Dispatch.Breaker.Probes.{ReportsNothing, probe_exclusive}
use status_hub.Dispatch.Dispatcher.{
  Effect, request, audit, delivery_count, dead_letter_count, breaker_gauge, parked_label, State,
  World, responded, emit, complete, parked, park, fail, dead_lettered, outage, retry, policy_of,
  settle, answered, send, build, resolve, encode, admit, attempt, deliver_once,
}
use status_hub.Dispatch.Dispatcher.Outcome.{IsStored, complete_lem, completed}

-- The requests among the effects.
unfoldable pub requests : List Effect → List Effect
requests [] = []
requests (request u k n r ∷ es) = request u k n r ∷ requests es
requests (audit _ _ _ _ ∷ es) = requests es
requests (delivery_count _ _ ∷ es) = requests es
requests (dead_letter_count _ ∷ es) = requests es
requests (breaker_gauge _ _ ∷ es) = requests es

requests-append_gauge :
    (es : List Effect) (a b : Effect)
    → requests (a ∷ b ∷ []) ≡ []
    → requests (es ++ a ∷ b ∷ []) ≡ requests es
unfolding requests
requests-append_gauge [] a b h = h
requests-append_gauge (request u k n r ∷ es) a b h =
    ap (λ l. request u k n r ∷ l) (requests-append_gauge es a b h)
requests-append_gauge (audit _ _ _ _ ∷ es) a b h = requests-append_gauge es a b h
requests-append_gauge (delivery_count _ _ ∷ es) a b h = requests-append_gauge es a b h
requests-append_gauge (dead_letter_count _ ∷ es) a b h = requests-append_gauge es a b h
requests-append_gauge (breaker_gauge _ _ ∷ es) a b h = requests-append_gauge es a b h

-- The event and the destination of a delivery are both there.
pub record IsKnown (del : Delivery) (event : CanonicalEvent) (dest : Destination) (m : Memory)
    : Type 0 where
  pub event_found : get_canonical_event del.tenant_id del.event_id m ≡ some event
  pub dest_found : get_destination del.tenant_id del.destination_id m ≡ some dest

deliver_once-known :
    (w : World) (del : Delivery) (event : CanonicalEvent) (dest : Destination) (st : State)
    → IsKnown del event dest st.store
    → deliver_once w del st
      ≡ admit
          (allow w.start dest.id st.breaker).1
          w
          del
          event
          dest
          (record st { breaker = (allow w.start dest.id st.breaker).0 })
unfolding deliver_once attempt
deliver_once-known w del event dest st k =
    rw (k.event_found, deliver_once) (rw (k.dest_found, deliver_once) refl)

-- What is stored of a delivery that was parked.
pub record IsParked (before : Delivery) (w : World) (es : List Effect) (r : State × Bool)
    : Type 0 where
  pub stored : Delivery
  pub found : lookup before.id r.0.store.deliveries ≡ some stored
  pub status : stored.status ≡ failed
  pub attempt : stored.attempt ≡ before.attempt
  pub later : w.start ≤ stored.next_retry_at
  pub silent : requests r.0.effects ≡ requests es

park-IsParked :
    (w : World) (now : ℕ) (before : Delivery) (dest : Destination) (st : State) (reason : Text)
    → IsStored (lease_out now before) st
    → IsParked before w st.effects (park w.start (lease_out now before) dest reason st)
unfolding park parked lease_out completed requests
park-IsParked w now before dest st reason h =
    let es : List Effect = delivery_count dest.id parked_label ∷ breaker_gauge dest.id true ∷ [] in
    let d = parked w.start (lease_out now before) dest reason in
    let there : IsStored d (emit es st) = record {
      existing = h.existing;
      found = h.found;
      tenant = h.tenant;
    } in
    rw (complete_lem w.start d (emit es st) there) (record {
      stored = record d { created_at = h.existing.created_at; updated_at = w.start };
      found =
          lookup-insert_self before.id
            (record d { created_at = h.existing.created_at; updated_at = w.start })
            st.store.deliveries;
      status = refl;
      attempt = ground arith;
      later = omega arith;
      silent =
          requests-append_gauge st.effects (delivery_count dest.id parked_label)
            (breaker_gauge dest.id true) refl;
    })

-- A delivery that was claimed and that its destination's breaker then refuses is put back with the
-- attempts that it had before it was claimed, to be tried again no earlier than now, and no
-- request is sent for it.
pub refused-IsParked :
    (w : World) (now : ℕ) (before : Delivery) (event : CanonicalEvent) (dest : Destination)
    (st : State) (refusal : Refusal)
    → IsStored (lease_out now before) st
    → IsKnown (lease_out now before) event dest st.store
    → (allow w.start dest.id st.breaker).1 ≡ some refusal
    → IsParked before w st.effects (deliver_once w (lease_out now before) st)
unfolding admit
refused-IsParked w now before event dest st refusal h k refused =
    let st' : State = record st { breaker = (allow w.start dest.id st.breaker).0 } in
    let there : IsStored (lease_out now before) st' = record {
      existing = h.existing;
      found = h.found;
      tenant = h.tenant;
    } in
    rw (deliver_once-known w (lease_out now before) event dest st k)
      (rw refused (park-IsParked w now before dest st' (why refusal) there))

-- Completing a delivery does not touch the breaker.
breaker-complete :
    (now : ℕ) (d : Delivery) (st : State) → (complete now d st).0.breaker ≡ st.breaker
unfolding complete
breaker-complete now d st = refl

breaker-retry :
    (now : ℕ) (w : World) (del : Delivery) (dest : Destination) (code : ℕ) (body reason : Text)
    (st : State)
    → (retry now w del dest code body reason st).0.breaker ≡ st.breaker
unfolding retry park dead_lettered complete outage
breaker-retry now w del dest code body reason st =
    elim (Bool-cases (leb (attempts (policy_of dest)) del.attempt)) [
      | inl spent ↦ rw spent (elim (Bool-cases (outage now del dest st)) [
        | inl out ↦ rw out refl
        | inr over ↦ rw over refl
      ])
      | inr left ↦ rw left refl
    ]

-- An answer that neither accepts the event nor says anything of the destination's health (a 4xx
-- but 429, or a redirect) leaves the breaker as it is.
breaker-settle :
    (w : World) (del : Delivery) (dest : Destination) (code : ℕ) (body : Text) (st : State)
    → is_success code ≡ false
    → (leb 500 code || nat_eq code 429) ≡ false
    → (settle w del dest code body st).0.breaker ≡ st.breaker
unfolding settle fail complete
breaker-settle w del dest code body st bad client = rw bad (
    rw client (elim (Bool-cases (should_retry code)) [
      | inl again ↦ rw again (breaker-retry w.ended w del dest code body [] st)
      | inr never ↦ rw never refl
    ]))

-- If the probe that an open or half-open breaker let through is answered with such a code, the
-- breaker is left waiting for the outcome of that probe: it refuses the destination at every later
-- time, whatever calls come in between, as long as none of them reports an outcome for the
-- destination or resets it.
pub probe_answer_lost :
    (w : World) (del : Delivery) (event : CanonicalEvent) (dest : Destination) (st : State)
    (code : ℕ) (body : Text) (later : ℕ) (cs : List Call)
    → IsKnown del event dest st.store
    → state_of dest.id st.breaker ≢ closed
    → (allow w.start dest.id st.breaker).1 ≡ none
    → w.encode_error ≡ none
    → w.secret_error ≡ none
    → w.request_error ≡ none
    → w.response ≡ responded code body
    → is_success code ≡ false
    → (leb 500 code || nat_eq code 429) ≡ false
    → All (ReportsNothing dest.id) cs
    → (allow later dest.id (run (deliver_once w del st).0.breaker cs)).1 ≡ some probe_busy
unfolding admit encode resolve build send answered
probe_answer_lost w del event dest st code body later cs k tripped granted e1 e2 e3 r bad client
      silent =
    let st' : State = record st { breaker = (allow w.start dest.id st.breaker).0 } in
    let sent = emit (request dest.url event.id del.attempt del.is_replay ∷ []) st' in
    let same : (deliver_once w del st).0.breaker ≡ (allow w.start dest.id st.breaker).0 =
      ap (λ (p : State × Bool). p.0.breaker) (deliver_once-known w del event dest st k)
      ∙ ap (λ o. (admit o w del event dest st').0.breaker) granted
      ∙ ap (λ o. (encode o w del event dest st').0.breaker) e1
      ∙ ap (λ o. (resolve o w del event dest st').0.breaker) e2
      ∙ ap (λ o. (build o w del event dest st').0.breaker) e3
      ∙ ap (λ o. (answered o w del dest sent).0.breaker) r
      ∙ breaker-settle w del dest code body sent bad client in
    rw same (probe_exclusive st.breaker dest.id w.start later cs tripped granted silent)
