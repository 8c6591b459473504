-- ===== src/Idempotency.antt =====
-- internal/api/idempotency.go: the store of idempotency keys, and the wrapper that answers a retry with
-- the original result.
mod Keys
pub mod Calls
pub mod Recorder
pub mod Replay
unfoldable pub use Keys.*
use status_hub.Prelude.{
  ℕ, zero, suc, ◌+◌, ◌-◌, ◌*◌, ◌^◌, Bool, true, false, not, ◌&&◌, ◌||◌, ◌++◌, ◌∷◌, [], List, length,
  take, Option, none, some, ◌==◌, if◌then◌else◌, nat_eq, ltb, leb, Text, text_Eq, codes, Dict,
  lookup, insert, delete,
}

-- What a handler does to the writer of its response.
pub data Write : Type 0 where
  write_header : ℕ → Write
  write : Text → Write

-- The recordingWriter, and the bytes that it passes on.
pub record RecordingWriter : Type 0 where
  pub status : ℕ
  pub body : Text
  pub written : Bool
  pub sent : Text

abbrev pub new_recorder : RecordingWriter
new_recorder = record { status = 200; body = []; written = false; sent = [] }

unfoldable pub apply_write_header : ℕ → RecordingWriter → RecordingWriter
apply_write_header status w = if w.written then w else record w { written = true; status = status }

abbrev pub record_chunk : Text → RecordingWriter → RecordingWriter
record_chunk b w = record w {
  body = if leb (length w.body + length b) max_recorded_body then w.body ++ b else w.body;
  sent = w.sent ++ b;
}

unfoldable pub apply_write : Text → RecordingWriter → RecordingWriter
apply_write b w = record_chunk b (if w.written then w else apply_write_header 200 w)

unfoldable pub apply_writes : List Write → RecordingWriter → RecordingWriter
apply_writes [] w = w
apply_writes (write_header status ∷ ws) w = apply_writes ws (apply_write_header status w)
apply_writes (write b ∷ ws) w = apply_writes ws (apply_write b w)

-- A request to a write endpoint: its key, empty without one, the tenant of its identity, and its
-- body, if the connection gives it.
pub record Request : Type 0 where
  pub method : Text
  pub path : Text
  pub key : Text
  pub identity : Option Text
  pub body : Option Text

pub record Response : Type 0 where
  pub status : ℕ
  pub error : Text
  pub body : Text
  pub replayed : Bool
  pub retry_after : Text

abbrev pub write_error : ℕ → Text → Response
write_error status error = record {
  status = status;
  error = error;
  body = [];
  replayed = false;
  retry_after = [];
}

-- The packages around the wrapper: SHA-256 in hexadecimal, and JSON, whose maps have no order.
pub record World (Json : Type 0) : Type 0 where
  pub sha256_hex : Text → Text
  pub unmarshal : Text → Option Json
  pub marshal : Json → Option Text

-- How the wrapper begins: it answers, lets the handler run, or lets it run on a claim of a tenant,
-- with the body that was read.
pub data Start : Type 0 where
  answered : Response → Start
  unguarded : Start
  claimed : Text → Text → Start

unfoldable pub answer_existing : Text → IdempotencyRecord → Response
answer_existing hash existing =
    if not (existing.request_hash == hash)
    then write_error 409 (codes "this idempotency key was used with a different request")
    else if existing.in_flight
    then record (write_error 409
        (codes "a request with this idempotency key is still in progress")) {
          retry_after = codes "1";
        }
    else record {
      status = existing.status;
      error = [];
      body = existing.body;
      replayed = true;
      retry_after = [];
    }

abbrev pub is_recorded : ℕ → Bool
is_recorded status = leb 200 status && ltb status 300

abbrev pub kept_or {ℓ} : {A : Type ℓ} → A → Option A → A
kept_or a none = a
kept_or a (some b) = b

-- The wrapper after the handler ran on a claim. An error of the store is logged.
unfoldable pub finish_request : Request → Text → RecordingWriter → Records → Records
finish_request req tenant_id rec s =
    if is_recorded rec.status
    then kept_or s (complete req.key tenant_id rec.status rec.body s)
    else abandon req.key tenant_id s

abbrev pub passed_on : Request → Start → Request
passed_on req (answered _) = req
passed_on req unguarded = req
passed_on req (claimed _ body) = record req { body = some body }

abbrev pub response_of : RecordingWriter → Response
response_of rec = record {
  status = rec.status;
  error = [];
  body = rec.sent;
  replayed = false;
  retry_after = [];
}

abbrev pub or_no_tenant : Option Text → Text
or_no_tenant none = []
or_no_tenant (some t) = t

-- The rest of the wrapper, when nothing else comes in between.
unfoldable pub run_started :
    {S : Type 0}
    → (Request → S → S × List Write)
    → Request
    → S
    → Records × Start
    → (S × Records) × Response
run_started next req server (begun, how) =
    let (after, writes) = next (passed_on req how) server in
    let rec = apply_writes writes new_recorder in
    elim how [
      | answered r ↦ ((server, begun), r)
      | unguarded ↦ ((after, begun), response_of rec)
      | claimed tenant_id _ ↦ ((after, finish_request req tenant_id rec begun), response_of rec)
    ]

module _ {Json : Type 0} (w : World Json) where
  -- sortedAny is a copy, since a map has no order.
  unfoldable pub canonical_request_body : Text → Text
  canonical_request_body body = elim (w.unmarshal body) [
    | none ↦ body
    | some v ↦ elim (w.marshal v) [ none ↦ body | some out ↦ out ]
  ]

  unfoldable pub request_hash_of : Request → Text → Text
  request_hash_of req body =
      w.sha256_hex (req.method ++ (b' ' ∷ req.path ++ (b'\n' ∷ canonical_request_body body)))

  abbrev pub record_for : Request → Text → Text → IdempotencyRecord
  record_for req tenant_id hash = record {
    key = req.key;
    tenant_id = tenant_id;
    method = req.method;
    path = req.path;
    request_hash = hash;
    status = 0;
    body = [];
    replayed = false;
    in_flight = false;
    created_at = 0;
  }

  unfoldable pub claim_request : ℕ → Request → Text → Text → Records → Records × Start
  claim_request now req tenant_id body s =
      let hash = request_hash_of req body in
      let (after, found) = begin now (record_for req tenant_id hash) s in
      (
        after,
        elim found [
          | none ↦ claimed tenant_id body
          | some existing ↦ answered (answer_existing hash existing)
        ],
      )

  -- At most 2^20 bytes of the body are read.
  unfoldable pub claim_with : ℕ → Request → Text → Option Text → Records → Records × Start
  claim_with now req tenant_id none s =
      (s, answered (write_error 400 (codes "could not read the request body")))
  claim_with now req tenant_id (some body) s =
      claim_request now req tenant_id (take (2 ^ 20) body) s

  -- The wrapper until the handler runs.
  unfoldable pub start_request : ℕ → Request → Records → Records × Start
  start_request now req s =
      let tenant_id = or_no_tenant req.identity in
      if req.key == []
      then (s, unguarded)
      else if ltb 255 (length req.key)
      then (s, answered (write_error 400 (codes "idempotency key must be at most 255 characters")))
      else if tenant_id == []
      then (s, answered (write_error 401 (codes "unauthorised")))
      else claim_with now req tenant_id req.body s

  -- The wrapper around a handler that works on the state of the server.
  abbrev pub idempotent :
      {S : Type 0}
      → (Request → S → S × List Write)
      → ℕ
      → Request
      → S × Records
      → (S × Records) × Response
  idempotent next now req (server, s) = run_started next req server (start_request now req s)
