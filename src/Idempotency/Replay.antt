-- ===== src/Idempotency/Replay.antt =====
-- A retry gets the original result.
use status_hub.Prelude.{
  ℕ, ◌+◌, ◌^◌, ◌≤◌, ◌<◌, ◌≡◌, refl, sym, ap, ◌∙◌, true, ◌∷◌, [], List, length, take, Option, none,
  some, inl, inr, Bool-cases, All, arith, leb, ltb, Text, text_Eq, text_eq, text_eq_iff, lookup,
  lookup-insert_self,
}
use status_hub.Idempotency.{
  IdempotencyRecord, Records, idempotency_window, max_recorded_body, idempotency_key, claim, begin,
  completed, complete, Write, write_header, write, RecordingWriter, new_recorder, apply_writes,
  apply_write, apply_write_header, Request, Response, World, Start, answered, unguarded, claimed,
  answer_existing, is_recorded, finish_request, record_for, request_hash_of, or_no_tenant,
  claim_request, claim_with, start_request, run_started, idempotent,
}
use status_hub.Idempotency.Calls.{
  Call, Spares, apply_calls, apply_calls-held, begin-claims, remembered,
}
use status_hub.Idempotency.Recorder.{recorded-full, recorded-bounded}

module _ {Json : Type 0} (w : World Json) (req : Request) where
  -- The record that a claim begins with.
  abbrev first : Text → Text → IdempotencyRecord
  first t body = record_for w req t (request_hash_of w req body)

  abbrev to_start : Text → Text → Option IdempotencyRecord → Start
  to_start t body found = elim found [
    | none ↦ claimed t body
    | some existing ↦ answered (answer_existing (request_hash_of w req body) existing)
  ]

  to_start-claimed :
      (t t' body body' : Text) (o : Option IdempotencyRecord)
      → to_start t' body' o ≡ claimed t body
      → (t' ≡ t) × (body' ≡ body) × (o ≡ none)
  to_start-claimed t t' body body' none h = (same_tenant h, same_body h, refl)
    where
      same_tenant : claimed t' body' ≡ claimed t body → t' ≡ t
      same_tenant e = cc

      same_body : claimed t' body' ≡ claimed t body → body' ≡ body
      same_body e = cc
  to_start-claimed t t' body body' (some existing) h = absurd (clash h)
    where
      clash : {r : Response} → answered r ≡ claimed t body → ⊥
      clash e = cc

  claim_with-claimed :
      (now : ℕ) (t' : Text) (o : Option Text) (s : Records) (t body : Text)
      → (claim_with w now req t' o s).1 ≡ claimed t body
      → (later : ℕ) (s' : Records)
      → claim_with w later req t' o s' ≡ claim_request w later req t body s'
  unfolding claim_with claim_request
  claim_with-claimed now t' none s t body h later s' = absurd (said h)
    where
      said : {r : Response} → answered r ≡ claimed t body → ⊥
      said e = cc
  claim_with-claimed now t' (some b) s t body h later s' =
      let b' = take (2 ^ 20) b in
      let (same_tenant, same_body, _) =
        to_start-claimed t t' body b' (begin now (first t' b') s).1 h in
      ap (λ c. claim_request w later req c b' s') same_tenant
      ∙ ap (λ c. claim_request w later req t c s') same_body

  -- A request that was let to run on a claim comes as far as to the claim each time.
  start_request-claimed :
      (now : ℕ) (s : Records) (t body : Text)
      → (start_request w now req s).1 ≡ claimed t body
      → (later : ℕ) (s' : Records)
      → start_request w later req s' ≡ claim_request w later req t body s'
  unfolding start_request
  start_request-claimed now s t body h later s' =
      let tenant = or_no_tenant req.identity in
      elim (Bool-cases (text_eq req.key [])) [
        | inl p ↦ absurd (free (rw (start_request, p) at h))
        | inr p ↦ elim (Bool-cases (ltb 255 (length req.key))) [
          | inl q ↦ absurd (said (rw (start_request, p, q) at h))
          | inr q ↦ elim (Bool-cases (text_eq tenant [])) [
            | inl r ↦ absurd (said (rw (start_request, p, q, r) at h))
            | inr r ↦
                rw (start_request, p, q, r)
                  (claim_with-claimed now tenant req.body s t body
                    (rw (start_request, p, q, r) at h) later s')
          ]
        ]
      ]
    where
      free : unguarded ≡ claimed t body → ⊥
      free e = cc

      said : {r : Response} → answered r ≡ claimed t body → ⊥
      said e = cc

  claim_request-claimed :
      (now : ℕ) (s : Records) (t body : Text)
      → (claim_request w now req t body s).1 ≡ claimed t body
      → ((begin now (first t body) s).1 ≡ none)
        × ((claim_request w now req t body s).0 ≡ (begin now (first t body) s).0)
  unfolding claim_request
  claim_request-claimed now s t body h =
      ((to_start-claimed t t body body (begin now (first t body) s).1 h).2, refl)

-- The store when a request that began now has written its response, and calls came before its end
-- and after it.
abbrev pub finished :
    {Json : Type 0}
    → World Json
    → Request
    → ℕ
    → Records
    → Text
    → List Write
    → List Call
    → List Call
    → Records
finished w req now s t ws during after = apply_calls after (
    finish_request req t (apply_writes ws new_recorder)
      (apply_calls during (start_request w now req s).0))

-- The record of a result that is complete answers the request it is of.
answer_existing-completed :
    (hash : Text) (r : IdempotencyRecord) (status : ℕ) (body : Text)
    → r.request_hash ≡ hash
    → length body ≤ max_recorded_body
    → answer_existing hash (completed status body r)
      ≡ record { status = status; error = []; body = body; replayed = true; retry_after = [] }
unfolding answer_existing completed
answer_existing-completed hash r status body same small =
    rw (completed, answer_existing, (text_eq_iff r.request_hash hash).1 same, fits small) refl
  where
    fits : length body ≤ max_recorded_body → leb (length body) max_recorded_body ≡ true
    fits h = ground (arith, h)

finish_request-held :
    (req : Request) (t : Text) (rec : RecordingWriter) (x : IdempotencyRecord) (s : Records)
    → lookup (idempotency_key t req.key) s ≡ some x
    → is_recorded rec.status ≡ true
    → lookup (idempotency_key t req.key) (finish_request req t rec s)
      ≡ some (completed rec.status rec.body x)
unfolding finish_request complete
finish_request-held req t rec x s held ok =
    rw (finish_request, ok, complete, held)
      (lookup-insert_self (idempotency_key t req.key) (completed rec.status rec.body x) s)

module _ {Json : Type 0} (w : World Json) (req : Request) where
  -- A retry, when the store has the result under the key.
  replayed_request :
      (now later : ℕ) (s s' : Records) (t body : Text) (status : ℕ) (out : Text)
      → (start_request w now req s).1 ≡ claimed t body
      → length out ≤ max_recorded_body
      → later < now + idempotency_window
      → lookup (idempotency_key t req.key) s'
        ≡ some (completed status out (claim now (first w req t body)))
      → start_request w later req s' ≡ (
        s',
        answered
            (record { status = status; error = []; body = out; replayed = true; retry_after = [] }),
      )
  unfolding claim_request begin claim completed
  replayed_request now later s s' t body status out h small soon held =
      start_request-claimed w req now s t body h later s'
      ∙ rw (claim_request, begin, held, remembered later now soon)
          (ap (λ r. (s', answered r))
            (answer_existing-completed (request_hash_of w req body) (claim now (first w req t body))
              status out refl small))

  -- The request ran on a claim, with other calls before it finished and after.
  module _ (now : ℕ) (s : Records) (t body : Text) (ws : List Write) (during after : List Call)
      (runs : (start_request w now req s).1 ≡ claimed t body)
      (before_end : All (Spares (idempotency_key t req.key) now) during)
      (after_end : All (Spares (idempotency_key t req.key) now) after) where
    abbrev rec : RecordingWriter
    rec = apply_writes ws new_recorder

    abbrev left : Records
    left = finished w req now s t ws during after

    finished-held :
        is_recorded rec.status ≡ true
        → lookup (idempotency_key t req.key) left
          ≡ some (completed rec.status rec.body (claim now (first w req t body)))
    unfolding claim completed
    finished-held ok =
        let same : start_request w now req s ≡ claim_request w now req t body s =
          start_request-claimed w req now s t body runs now s in
        let (fresh, store) =
          claim_request-claimed w req now s t body (sym (ap (λ p. p.1) same) ∙ runs) in
        let x = claim now (first w req t body) in
        let claimed' : lookup (idempotency_key t req.key) (start_request w now req s).0 ≡ some x =
          ap (λ p. lookup (idempotency_key t req.key) p.0) same
          ∙ ap (lookup (idempotency_key t req.key)) store
          ∙ begin-claims now (first w req t body) s fresh in
        apply_calls-held (idempotency_key t req.key) (completed rec.status rec.body x) after _
          after_end
          (finish_request-held req t rec x (apply_calls during (start_request w now req s).0)
            (apply_calls-held (idempotency_key t req.key) x during (start_request w now req s).0
              before_end claimed')
            ok)

    kept_result :
        (later : ℕ)
        → is_recorded rec.status ≡ true
        → later < now + idempotency_window
        → start_request w later req left ≡ (
          left,
          answered (record {
            status = rec.status;
            error = [];
            body = rec.body;
            replayed = true;
            retry_after = [];
          }),
        )
    kept_result later ok soon =
        replayed_request now later s left t body rec.status rec.body runs (recorded-bounded ws) soon
          (finished-held ok)

    idempotent-answered :
        {S : Type 0} (next : Request → S → S × List Write) (server : S) (later : ℕ) (r : Response)
        → start_request w later req left ≡ (left, answered r)
        → idempotent w next later req (server, left) ≡ ((server, left), r)
    unfolding run_started
    idempotent-answered next server later r e = ap (run_started next req server) e

    -- A request ran on a claim of its key and succeeded, with a response of at most 64 KiB. Retried
    -- within the window, it gets the same status and the same body, marked as replayed, and neither the
    -- server nor the store changes; whatever other calls came before the end of the first run and after it.
    pub idempotent-replays :
        {S : Type 0} (next : Request → S → S × List Write) (server : S) (later : ℕ)
        → is_recorded rec.status ≡ true
        → length rec.sent ≤ max_recorded_body
        → later < now + idempotency_window
        → idempotent w next later req (server, left) ≡ (
          (server, left),
          record {
            status = rec.status;
            error = [];
            body = rec.sent;
            replayed = true;
            retry_after = [];
          },
        )
    idempotent-replays next server later ok small soon =
        idempotent-answered next server later
          (record {
            status = rec.status;
            error = [];
            body = rec.sent;
            replayed = true;
            retry_after = [];
          })
          (kept_result later ok soon
            ∙ ap
                (λ b. (
                  left,
                  answered (record {
                    status = rec.status;
                    error = [];
                    body = b;
                    replayed = true;
                    retry_after = [];
                  }),
                ))
                (recorded-full ws small))

alone :
    (status : ℕ) (b : Text)
    → max_recorded_body < length b
    → ((apply_writes (write_header status ∷ write b ∷ []) new_recorder).status ≡ status)
      × ((apply_writes (write_header status ∷ write b ∷ []) new_recorder).body ≡ [])
unfolding apply_writes apply_write apply_write_header
alone status b large = ground (arith, large)

-- A response that is written in one piece of more than 64 KiB is not kept: a retry gets its status with
-- an empty body, marked as replayed.
pub idempotent-loses :
    {Json : Type 0} (w : World Json) (req : Request) (now later : ℕ) (s : Records) (t body b : Text)
    (status : ℕ) {S : Type 0} (next : Request → S → S × List Write) (server : S)
    → (start_request w now req s).1 ≡ claimed t body
    → is_recorded status ≡ true
    → max_recorded_body < length b
    → later < now + idempotency_window
    → let left =
        finish_request req t
          (apply_writes (write_header status ∷ write b ∷ []) new_recorder)
          (start_request w now req s).0 in
      idempotent w next later req (server, left) ≡ (
        (server, left),
        record { status = status; error = []; body = []; replayed = true; retry_after = [] },
      )
idempotent-loses w req now later s t body b status next server runs ok large soon =
    let ws = write_header status ∷ write b ∷ [] in
    let (same, lost) = alone status b large in
    idempotent-answered w req now s t body ws [] [] runs tt tt next server later _ (
      kept_result w req now s t body ws [] [] runs tt tt later (ap is_recorded same ∙ ok) soon
      ∙ ap
          (λ (p : ℕ × Text). (
            finished w req now s t ws [] [],
            answered (record {
              status = p.0;
              error = [];
              body = p.1;
              replayed = true;
              retry_after = [];
            }),
          ))
          (ap (λ n. (n, (apply_writes ws new_recorder).body)) same ∙ ap (λ c. (status, c)) lost))
