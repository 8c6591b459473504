-- ===== src/Receive/Outcome.antt =====
-- How the handling of a webhook may end, and what is stored then.
use status_hub.Prelude.{
  ℕ, ◌+◌, ◌≡◌, refl, sym, ap, ◌∙◌, Bool, true, false, ◌||◌, Option, none, some, ◌∷◌, [], List, ◌⊎◌,
  inl, inr, if◌then◌else◌, Bool-cases, Option-cases, arith, nat_eq, ltb, Text, codes, text_Eq,
}
use status_hub.Domain.Tenancy.{Endpoint, RawEvent, Tenant}
use status_hub.Store.Memory.{Memory, StoreError}
use status_hub.Store.Directory.{resolve_receiver}
use status_hub.Store.Events.{put_raw_event}
use status_hub.Redact.{scan}
use status_hub.Ratelimit.{Bounded, try_acquire, release}
use status_hub.Receive.{
  Request, Response, refuse, Incoming, broken, bytes, redaction_seen, emit, rejected_metric, World,
  State, Effect, read_body, raw_event_of, answer, respond, take_in, handle_endpoint, handle,
  handle_webhook, verify_error, source_addr, is_none, error_or_empty,
}

-- A response that stands for no stored event.
abbrev pub is_refusal : ℕ → Bool
is_refusal s = nat_eq s 400 || nat_eq s 404 || nat_eq s 413 || nat_eq s 429 || nat_eq s 500

module _ {Json : Type 0} (w : World Json) where
  -- What verifying a signature found, and the error that is kept of it.
  Verdict : Bool → Option Text → Text → Type 0
  Verdict true found kept = found ≡ none
  Verdict false found kept = found ≡ some kept

  -- What a raw event has of the request: the endpoint and the tenant that the request resolves to,
  -- the body without its card numbers and the digest of all of it, and the verdict on its signature.
  pub record IsTakenFrom (req : Request) (before : Memory) (valid : Bool) (raw : RawEvent)
      : Type 0 where
    endpoint : Endpoint
    tenant : Tenant
    body : Text
    resolved :
        resolve_receiver req.tenant req.provider req.env req.token before ≡ some (endpoint, tenant)
    incoming : req.incoming ≡ bytes body
    verdict :
        Verdict valid (verify_error w endpoint req body (source_addr w req)) raw.signature_error
    same_endpoint : raw.endpoint_id ≡ endpoint.id
    same_tenant : raw.tenant_id ≡ tenant.id
    same_provider : raw.provider ≡ endpoint.provider
    cleaned : raw.body ≡ (scan body).body
    digest : raw.body_sha256 ≡ w.sha256_hex body

  -- A raw event of the request is stored under the new id, with its signature found valid or not.
  abbrev pub Stores : Request → Bool → Memory → Memory → Type 0
  Stores req valid before after =
      (raw : RawEvent) × (put_raw_event raw before ≡ inr after)
      × (raw.id ≡ w.new_id)
      × (raw.signature_valid ≡ valid)
      × IsTakenFrom req before valid raw

  unfoldable pub IsOutcome : Request → State Json → State Json × Response → Type 0
  IsOutcome req before (after, r) =
      (after.in_flight ≡ before.in_flight)
      × (((r.status ≡ 200) × (r.event_id ≡ w.new_id) × Stores req true before.store after.store)
          ⊎ ((r.status ≡ 401) × Stores req false before.store after.store)
          ⊎ ((is_refusal r.status ≡ true)
              × (after.store ≡ before.store)
              × (after.log ≡ before.log)))

  answer-store :
      (endpoint : Endpoint) (req : Request) (body : Text) (raw : RawEvent) (st : State Json)
      → ((answer w endpoint req body raw st).0.store ≡ st.store)
        × ((answer w endpoint req body raw st).1.status
            ≡ (if raw.signature_valid then 200 else 401))
        × (raw.signature_valid ≡ true → (answer w endpoint req body raw st).1.event_id ≡ raw.id)
        × ((answer w endpoint req body raw st).0.in_flight ≡ st.in_flight)
  unfolding answer respond
  answer-store endpoint req body raw st = elim (Bool-cases raw.signature_valid) [
    | inl p ↦ rw (answer, p) (refl, refl, (λ _. refl), refl)
    | inr p ↦ rw (answer, p) (refl, refl, (λ h. absurd (not_valid h)), refl)
  ]
    where
      not_valid : false ≡ true → ⊥
      not_valid h = cc

  -- What comes after the write decides nothing about the store.
  answer-IsOutcome :
      (endpoint : Endpoint) (req : Request) (body : Text) (raw : RawEvent) (before st : State Json)
      → put_raw_event raw before.store ≡ inr st.store
      → st.in_flight ≡ before.in_flight
      → raw.id ≡ w.new_id
      → ((valid : Bool) → raw.signature_valid ≡ valid → IsTakenFrom req before.store valid raw)
      → IsOutcome req before (answer w endpoint req body raw st)
  unfolding IsOutcome
  answer-IsOutcome endpoint req body raw before st put slots same taken =
      let (store, status, id, kept) = answer-store endpoint req body raw st in
      let written = put ∙ ap inr (sym store) in
      elim (Bool-cases raw.signature_valid) [
        | inl p ↦ (
          kept ∙ slots,
          inl (
            status ∙ ap (λ b. if b then 200 else 401) p,
            id p ∙ same,
            (raw, written, same, p, taken _ p),
          ),
        )
        | inr p ↦ (
          kept ∙ slots,
          inr (
              inl
                (status ∙ ap (λ b. if b then 200 else 401) p, (raw, written, same, p, taken _ p))),
        )
      ]

  refused-IsOutcome :
      (req : Request) (r : Response) (es : List Effect) (st : State Json)
      → is_refusal r.status ≡ true
      → IsOutcome req st (respond w r es st)
  unfolding IsOutcome respond
  refused-IsOutcome req r es st h = (refl, inr (inr (h, refl, refl)))

  stored-IsOutcome :
      (endpoint : Endpoint) (req : Request) (body : Text) (raw : RawEvent) (st : State Json)
      (o : StoreError ⊎ Memory)
      → put_raw_event raw st.store ≡ o
      → raw.id ≡ w.new_id
      → ((valid : Bool) → raw.signature_valid ≡ valid → IsTakenFrom req st.store valid raw)
      → IsOutcome req st (elim o [
        | inl _ ↦ respond w (refuse 500 (codes "storage_unavailable")) (redaction_seen raw) st
        | inr store ↦
            answer w endpoint req body raw
              (record (emit w (redaction_seen raw) st) { store = store })
      ])
  stored-IsOutcome endpoint req body raw st (inl why) e same taken =
      refused-IsOutcome req (refuse 500 (codes "storage_unavailable")) (redaction_seen raw) st refl
  stored-IsOutcome endpoint req body raw st (inr store) e same taken =
      answer-IsOutcome endpoint req body raw st
        (record (emit w (redaction_seen raw) st) { store = store }) e refl same taken

  is_none-Verdict :
      (valid : Bool) (failure : Option Text)
      → is_none failure ≡ valid
      → Verdict valid failure (error_or_empty w failure)
  unfolding Verdict
  is_none-Verdict true none h = refl
  is_none-Verdict true (some err) h = absurd (ground arith)
  is_none-Verdict false none h = absurd (ground arith)
  is_none-Verdict false (some err) h = refl

  raw_event_of-IsTakenFrom :
      (endpoint : Endpoint) (tenant : Tenant) (req : Request) (body : Text) (m : Memory)
      → resolve_receiver req.tenant req.provider req.env req.token m ≡ some (endpoint, tenant)
      → req.incoming ≡ bytes body
      → let failure = verify_error w endpoint req body (source_addr w req) in
        let raw = raw_event_of w endpoint tenant req body failure in
        (valid : Bool) → raw.signature_valid ≡ valid → IsTakenFrom req m valid raw
  unfolding raw_event_of
  raw_event_of-IsTakenFrom endpoint tenant req body m found came valid v = record {
    endpoint = endpoint;
    tenant = tenant;
    body = body;
    resolved = found;
    incoming = came;
    verdict = is_none-Verdict valid (verify_error w endpoint req body (source_addr w req)) v;
    same_endpoint = refl;
    same_tenant = refl;
    same_provider = refl;
    cleaned = refl;
    digest = refl;
  }

  take_in-IsOutcome :
      (endpoint : Endpoint) (tenant : Tenant) (req : Request) (body : Text) (st : State Json)
      → resolve_receiver req.tenant req.provider req.env req.token st.store
        ≡ some (endpoint, tenant)
      → req.incoming ≡ bytes body
      → IsOutcome req st (take_in w endpoint tenant req body st)
  unfolding take_in
  take_in-IsOutcome endpoint tenant req body st found came =
      let raw =
        raw_event_of w endpoint tenant req body
          (verify_error w endpoint req body (source_addr w req)) in
      stored-IsOutcome endpoint req body raw st (put_raw_event raw st.store) refl
        (unfold raw_event_of in refl)
        (raw_event_of-IsTakenFrom endpoint tenant req body st.store found came)

  read_body-bytes : (i : Incoming) (body : Text) → read_body i ≡ inr body → i ≡ bytes body
  unfolding read_body
  read_body-bytes broken body h = absurd (ground arith)
  read_body-bytes (bytes b) body h = ap bytes (ground arith)

  read_body-refuses :
      (i : Incoming) (r : Response) → read_body i ≡ inl r → is_refusal r.status ≡ true
  unfolding read_body
  read_body-refuses broken r h = ground arith
  read_body-refuses (bytes body) r h = ground arith

  handle_endpoint-IsOutcome :
      (endpoint : Endpoint) (tenant : Tenant) (req : Request) (st : State Json)
      → resolve_receiver req.tenant req.provider req.env req.token st.store
        ≡ some (endpoint, tenant)
      → IsOutcome req st (handle_endpoint w endpoint tenant req st)
  unfolding handle_endpoint
  handle_endpoint-IsOutcome endpoint tenant req st found = elim (Bool-cases endpoint.enabled) [
    | inr off ↦
        rw (handle_endpoint, off)
          (refused-IsOutcome req (refuse 404 (codes "not_found")) [] st refl)
    | inl on ↦ elim (Option-cases (w.rate_allows tenant.id)) [
      | inr (after, p) ↦ rw (handle_endpoint, on, p) (refused-IsOutcome req _ _ st refl)
      | inl p ↦ rw (handle_endpoint, on, p) (read (read_body req.incoming) refl)
    ]
  ]
    where
      read :
          (b : Response ⊎ Text)
          → read_body req.incoming ≡ b
          → IsOutcome req st (elim b [
            | inl r ↦ respond w r (rejected_metric r.error ∷ []) st
            | inr body ↦ take_in w endpoint tenant req body st
          ])
      read (inl r) e = refused-IsOutcome req r _ st (read_body-refuses req.incoming r e)
      read (inr body) e =
          take_in-IsOutcome endpoint tenant req body st found (read_body-bytes req.incoming body e)

  handle-IsOutcome : (req : Request) (st : State Json) → IsOutcome req st (handle w req st)
  unfolding handle
  handle-IsOutcome req st =
      elim (Option-cases (resolve_receiver req.tenant req.provider req.env req.token st.store)) [
        | inl p ↦ rw (handle, p) (refused-IsOutcome req _ _ st refl)
        | inr ((endpoint, tenant), p) ↦
            rw (handle, p) (handle_endpoint-IsOutcome endpoint tenant req st p)
      ]

  released : (b : Bounded) → release (record b { in_use = b.in_use + 1 }) ≡ b
  unfolding release
  released b = ap (λ n. record b { in_use = n }) (omega arith)

  -- A webhook ends in one of three ways, and its slot is free again. It is acknowledged with 200 and
  -- the id of its raw event, which is stored, where its signature was verified without an error; it
  -- is refused with 401, and its raw event stored with the error that verifying found; or it is
  -- refused with another status, and the store and the audit log are as they were. The raw event
  -- names the endpoint and the tenant that the request resolves to, and has the digest of the body
  -- and the body without its card numbers.
  pub handle_webhook-IsOutcome :
      (req : Request) (st : State Json) → IsOutcome req st (handle_webhook w req st)
  unfolding handle_webhook try_acquire IsOutcome respond
  handle_webhook-IsOutcome req st =
      elim (Bool-cases (ltb st.in_flight.in_use st.in_flight.capacity)) [
        | inr p ↦ rw p (refl, inr (inr (refl, refl, refl)))
        | inl p ↦
            (let taken : State Json = record st {
              in_flight = record st.in_flight { in_use = st.in_flight.in_use + 1 };
            } in
              let (slots, how) = handle-IsOutcome req taken in
              rw p (ap release slots ∙ released st.in_flight, how))
      ]
