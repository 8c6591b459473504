-- ===== src/Dispatch/Dispatcher.antt =====
-- internal/dispatch/dispatcher.go: one attempt at one delivery, and what is recorded of it.
-- What the attempt asks of the outside comes in `World`; the clock is read once before the request
-- and once after it. What it only puts out (requests, metrics, audit records) is kept as a list of
-- effects. Logging is left out, and so are the bytes of the payload and their signature.
pub mod Outcome
pub mod Outage
use status_hub.Prelude.{
  ℕ, zero, suc, ◌+◌, ◌-◌, ◌*◌, ◌/◌, Bool, true, false, ◌&&◌, ◌||◌, not, Option, none, some, List,
  [], ◌∷◌, ◌++◌, length, ltb, leb, nat_eq, if◌then◌else◌, Text, codes, decimal, get_elem?,
}
use status_hub.Domain.Delivery.{Delivery, failed, succeeded, dead_letter, should_retry, is_success}
use status_hub.Domain.Event.{CanonicalEvent}
use status_hub.Domain.Config.{RetryPolicy, Destination, attempts, default_retry_policy, second}
use status_hub.Store.Memory.{Memory, get_destination, get_canonical_event}
use status_hub.Store.Deliveries.{complete_delivery}
use status_hub.Dispatch.Message.{truncate, Refusal, why}
use status_hub.Dispatch.Breaker
use status_hub.Dispatch.Breaker.{
  Breaker, BreakerState, closed, open_state, half_open, allow, state_of,
}

pub data AuditEventType : Type 0 where
  event_forwarded event_dead_lettered : AuditEventType

-- The label `status` of statushub_deliveries_total.
pub data Label : Type 0 where
  succeeded_label retrying_label parked_label dead_letter_label : Label

pub data Effect : Type 0 where
  -- The POST: its URL, its Idempotency-Key, its attempt and whether it is a replay.
  request : Text → Text → ℕ → Bool → Effect
  -- An audit record: its kind, tenant, event and destination.
  audit : AuditEventType → Text → Text → Text → Effect
  delivery_count : Text → Label → Effect
  dead_letter_count : Text → Effect
  breaker_gauge : Text → Bool → Effect

-- What the dispatcher works on.
pub record State : Type 0 where
  pub store : Memory
  pub breaker : Breaker
  pub effects : List Effect

-- What `http.Client.Do` gives: an error and whether it is ErrPrivateAddress, or an answer.
pub data Response : Type 0 where
  transport_error : Text → Bool → Response
  responded : ℕ → Text → Response

-- The outside, for one attempt: the clock before and after the request, the errors of encoding the
-- payload, of resolving the secrets and of building the request, the response, and the random
-- number of the jitter (`none` where its source fails).
pub record World : Type 0 where
  pub start : ℕ
  pub ended : ℕ
  pub encode_error : Option Text
  pub secret_error : Option Text
  pub request_error : Option Text
  pub response : Response
  pub draw : Option ℕ

abbrev pub emit : List Effect → State → State
emit es st = record st { effects = st.effects ++ es }

-- The error of CompleteDelivery is passed on: `false` is ErrNotFound.
unfoldable pub complete : ℕ → Delivery → State → State × Bool
complete now del st =
    let (m, ok) = complete_delivery now del st.store in (record st { store = m }, ok)

unfoldable pub policy_of : Destination → RetryPolicy
policy_of dest =
    if nat_eq (length dest.retry_policy.backoff) 0 then default_retry_policy else dest.retry_policy

abbrev get_or_zero : Option ℕ → ℕ
get_or_zero none = 0
get_or_zero (some n) = n

-- `base + n - spread`; the spread is at most the base.
unfoldable pub jittered : RetryPolicy → ℕ → Option ℕ → ℕ
jittered p base none = base
jittered p base (some n) = base + n - p.jitter.spread base

unfoldable pub backoff_for : RetryPolicy → ℕ → Option ℕ → ℕ
unfolding jittered
backoff_for p attempt draw =
    let idx = if leb (length p.backoff) attempt then length p.backoff - 1 else attempt in
    let base = get_or_zero (get_elem? p.backoff idx) in
    if nat_eq base 0 || not p.jitter.is_positive then base else jittered p base draw

unfoldable pub breaker_retry_delay : Destination → ℕ
breaker_retry_delay dest =
    let timeout = (policy_of dest).timeout in
    if ltb 0 timeout && ltb timeout (30 * second) then timeout else 15 * second

unfoldable pub parked : ℕ → Delivery → Destination → Text → Delivery
parked now del dest reason = record del {
  attempt = if ltb 0 del.attempt then del.attempt - 1 else del.attempt;
  status = failed;
  error = truncate (codes "parked: " ++ reason);
  next_retry_at = now + breaker_retry_delay dest;
}

unfoldable pub park : ℕ → Delivery → Destination → Text → State → State × Bool
park now del dest reason st =
    complete now (parked now del dest reason)
      (emit (delivery_count dest.id parked_label ∷ breaker_gauge dest.id true ∷ []) st)

abbrev pub is_closed : BreakerState → Bool
is_closed closed = true
is_closed _ = false

unfoldable pub record_success : Text → State → State
record_success id st =
    emit (breaker_gauge id false ∷ []) (record st { breaker = Breaker.succeeded id st.breaker })

unfoldable pub record_failure : ℕ → Text → Text → State → State
record_failure now id reason st =
    let (b, s) = Breaker.failed now id reason st.breaker in
    emit (breaker_gauge id (not (is_closed s)) ∷ []) (record st { breaker = b })

abbrev pub to_ms : ℕ → ℕ
to_ms d = d / 1_000_000

unfoldable pub succeed : World → Delivery → ℕ → Text → State → State × Bool
succeed w del code body st =
    complete w.ended
      (record del {
        status = succeeded;
        response_code = code;
        response_body = truncate body;
        duration_ms = to_ms (w.ended - w.start);
        next_retry_at = 0;
      })
      (emit
        (delivery_count del.destination_id succeeded_label
          ∷ audit event_forwarded del.tenant_id del.event_id del.destination_id
          ∷ [])
        st)

-- A permanent failure, at the time `now`.
unfoldable pub fail : ℕ → World → Delivery → ℕ → Text → Text → State → State × Bool
fail now w del code body reason st =
    complete now
      (record del {
        status = dead_letter;
        response_code = code;
        response_body = truncate body;
        error = truncate reason;
        duration_ms = to_ms (now - w.start);
        next_retry_at = 0;
      })
      (emit
        (dead_letter_count del.tenant_id
          ∷ delivery_count del.destination_id dead_letter_label
          ∷ audit event_dead_lettered del.tenant_id del.event_id del.destination_id
          ∷ [])
        st)

abbrev pub max_outage_parking : ℕ
max_outage_parking = 86400 * second

abbrev pub state_text : BreakerState → Text
state_text closed = codes "closed"
state_text open_state = codes "open"
state_text half_open = codes "half_open"

abbrev pub parked_reason : BreakerState → Text
parked_reason s =
    codes "destination breaker is "
    ++ (state_text s ++ codes "; the retry budget is not spent during a destination-wide outage")

unfoldable pub noted : ℕ → World → Delivery → ℕ → Text → Text → Delivery
noted now w del code body reason = record del {
  response_code = code;
  response_body = truncate body;
  error = truncate reason;
  duration_ms = to_ms (now - w.start);
}

unfoldable pub dead_lettered : ℕ → Delivery → State → State × Bool
dead_lettered now del st =
    complete now (record del { status = dead_letter; next_retry_at = 0 })
      (emit
        (dead_letter_count del.tenant_id
          ∷ delivery_count del.destination_id dead_letter_label
          ∷ audit event_dead_lettered del.tenant_id del.event_id del.destination_id
          ∷ [])
        st)

unfoldable pub outage : ℕ → Delivery → Destination → State → Bool
outage now del dest st =
    not (is_closed (state_of dest.id st.breaker)) && ltb (now - del.created_at) max_outage_parking

-- The next attempt, or the dead letter where the budget is spent.
unfoldable pub retry : ℕ → World → Delivery → Destination → ℕ → Text → Text → State → State × Bool
unfolding noted
retry now w del dest code body reason st =
    let policy = policy_of dest in
    let del' = noted now w del code body reason in
    if leb (attempts policy) del.attempt
    then (if outage now del dest st
        then park now del' dest (parked_reason (state_of dest.id st.breaker)) st
        else dead_lettered now del' st)
    else complete now
        (record del' {
          status = failed;
          next_retry_at = now + backoff_for policy del.attempt w.draw;
        })
        (emit (delivery_count del.destination_id retrying_label ∷ []) st)

-- What `DeliverOnce` makes of an answer of the destination. The body is cut at one kilobyte.
unfoldable pub settle : World → Delivery → Destination → ℕ → Text → State → State × Bool
settle w del dest code body st =
    if is_success code
    then succeed w del code body (record_success dest.id st)
    else if leb 500 code || nat_eq code 429
    then retry w.ended w del dest code body []
        (record_failure w.ended dest.id (codes "destination returned " ++ decimal code) st)
    else if should_retry code
    then retry w.ended w del dest code body [] st
    else fail w.ended w del code body
        (codes "destination returned "
          ++ (decimal code ++ codes ", which will not change on retry"))
        st

unfoldable pub answered : Response → World → Delivery → Destination → State → State × Bool
answered (transport_error reason private) w del dest st =
    let st' = record_failure w.ended dest.id reason st in
    if private then fail w.ended w del 0 [] reason st' else retry w.ended w del dest 0 [] reason st'
answered (responded code body) w del dest st = settle w del dest code body st

unfoldable pub send : World → Delivery → CanonicalEvent → Destination → State → State × Bool
send w del event dest st =
    answered w.response w del dest
      (emit (request dest.url event.id del.attempt del.is_replay ∷ []) st)

-- The steps before the request, each with its error.
unfoldable pub build :
    Option Text → World → Delivery → CanonicalEvent → Destination → State → State × Bool
build (some err) w del event dest st =
    fail w.start w del 0 [] (codes "request could not be built: " ++ err) st
build none w del event dest st = send w del event dest st

unfoldable pub resolve :
    Option Text → World → Delivery → CanonicalEvent → Destination → State → State × Bool
resolve (some err) w del event dest st =
    retry w.start w del dest 0 [] (codes "signing secret did not resolve: " ++ err) st
resolve none w del event dest st = build w.request_error w del event dest st

unfoldable pub encode :
    Option Text → World → Delivery → CanonicalEvent → Destination → State → State × Bool
encode (some err) w del event dest st =
    fail w.start w del 0 [] (codes "payload could not be encoded: " ++ err) st
encode none w del event dest st = resolve w.secret_error w del event dest st

unfoldable pub admit :
    Option Refusal → World → Delivery → CanonicalEvent → Destination → State → State × Bool
admit (some refusal) w del event dest st = park w.start del dest (why refusal) st
admit none w del event dest st = encode w.encode_error w del event dest st

unfoldable pub attempt : World → Delivery → CanonicalEvent → Destination → State → State × Bool
attempt w del event dest st =
    let (b, answer) = allow w.start dest.id st.breaker in
    admit answer w del event dest (record st { breaker = b })

unfoldable pub deliver_once : World → Delivery → State → State × Bool
deliver_once w del st = elim (get_canonical_event del.tenant_id del.event_id st.store) [
  | none ↦ fail w.start w del 0 [] (codes "event not found: not found") st
  | some event ↦ elim (get_destination del.tenant_id del.destination_id st.store) [
    | none ↦ fail w.start w del 0 [] (codes "destination not found: not found") st
    | some dest ↦ attempt w del event dest st
  ]
]
