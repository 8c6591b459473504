-- ===== src/Tests/ReceiveTests.antt =====
-- A provider whose signature is the secret itself, and the requests it sends.
use status_hub.Prelude.{
  ℕ, ◌≡◌, refl, false, ◌∷◌, [], List, Option, none, some, inr, if◌then◌else◌, ◌==◌, Text, text_Eq,
  text_eq, codes, Dict, lookup,
}
use status_hub.Domain.Amount.{trim_space, trim_left, trim_right, is_space}
use status_hub.Domain.Tenancy.{RawEvent}
use status_hub.Domain.Audit.{Codec}
use status_hub.Store.Audit.{new_audit_log}
use status_hub.Store.Directory.{find_receiver, resolve_receiver}
use status_hub.Store.Events.{put_raw_event, is_pending}
use status_hub.Store.Events.Pending.{EventCall, failure_mark, apply_event_calls}
use status_hub.Ratelimit.{try_acquire}
use status_hub.Receive.{
  Request, Incoming, bytes, World, Adapter, State, read_body, source_addr, in_some_prefix,
  check_source, try_secrets, verify_error, raw_event_of, respond, answer, take_in, handle_endpoint,
  handle, handle_webhook, first_value,
}
use status_hub.Receive.Outcome.{IsTakenFrom, IsOutcome, handle_webhook-IsOutcome}
use status_hub.Receive.Work.{unsigned-Kept}
use status_hub.Tests.DirectoryTests.{with_hook}

abbrev pub toy : Codec ℕ
toy = record { marshal = λ _. inr []; rfc3339_nano = λ _. []; sha256_hex = λ t. t }

abbrev signed_by : Dict Text (List Text) → Text → Text → Option Text
signed_by headers body secret =
    if first_value (lookup (codes "Verif-Hash") headers) == secret
    then none
    else some (codes "signature mismatch")

abbrev adapter : Adapter
adapter = record { allowed_sources = some (codes "10.0.0.1" ∷ []); verify = signed_by }

abbrev pub world : World ℕ
world = record {
  now = 50;
  new_id = codes "r1";
  rate_allows = λ _. none;
  trust_proxy_headers = false;
  parse_addr = some;
  split_host = λ _. none;
  unmap = λ a. a;
  in_prefix = text_eq;
  get_adapter = λ _ _. inr adapter;
  resolve_secrets = λ _. inr (codes "old" ∷ codes "new" ∷ []);
  sha256_hex = λ t. t;
  text_json = λ _. 1;
  number_json = λ n. n;
  codec = toy;
}

abbrev request : Text → Text → Incoming → Request
request from signature incoming = record {
  tenant = codes "acme";
  provider = codes "paystack";
  env = codes "live";
  token = codes "tok_a";
  headers = (codes "Verif-Hash", signature ∷ []) ∷ (codes "Accept", codes "json" ∷ []) ∷ [];
  incoming = incoming;
  remote_addr = from;
}

abbrev pub start : State ℕ
start = record {
  store = with_hook;
  log = new_audit_log;
  in_flight = record { name = []; capacity = 1; in_use = 0 };
  effects = [];
}

abbrev pub good : Request
good = request (codes "10.0.0.1") (codes "new") (bytes (codes "{}"))

abbrev forged : Request
forged = request (codes "10.0.0.1") (codes "guess") (bytes (codes "{}"))

empty_refused : (handle_webhook world (request [] [] (bytes [])) start).1.status ≡ 400
unfolding handle_webhook try_acquire handle handle_endpoint resolve_receiver find_receiver lookup
    text_eq read_body respond
empty_refused = refl

-- The address is refused before any secret is tried.
elsewhere_refused :
    (handle_webhook world
      (request (codes "10.9.9.9") (codes "new") (bytes (codes "{}")))
      start).1.status
    ≡ 401
unfolding handle_webhook try_acquire handle handle_endpoint resolve_receiver find_receiver lookup
    text_eq read_body respond take_in raw_event_of verify_error source_addr check_source
    in_some_prefix try_secrets put_raw_event answer trim_space trim_left trim_right is_space
elsewhere_refused = refl

handle_webhook-IsOutcome_example : IsOutcome world good start (handle_webhook world good start)
handle_webhook-IsOutcome_example = handle_webhook-IsOutcome world good start

abbrev later : List EventCall
later = failure_mark (codes "t1") (codes "r1") (codes "late") ∷ []

unsigned-Kept_example :
    ((raw : RawEvent) × (raw.signature_valid ≡ false)
      × IsTakenFrom world forged start.store false raw
      × (lookup (codes "r1") (handle_webhook world forged start).0.store.raw_events ≡ some raw)
      × (lookup
            (codes "r1")
            (apply_event_calls later (handle_webhook world forged start).0.store).raw_events
          ≡ some raw))
    × (is_pending (apply_event_calls later (handle_webhook world forged start).0.store) (codes "r1")
        ≡ false)
unfolding handle_webhook try_acquire handle handle_endpoint resolve_receiver find_receiver lookup
    text_eq read_body respond take_in raw_event_of verify_error source_addr check_source
    in_some_prefix try_secrets put_raw_event answer trim_space trim_left trim_right is_space
unsigned-Kept_example = unsigned-Kept world forged start later refl

abbrev two_spellings : Dict Text (List Text)
two_spellings = (codes "COOKIE", codes "a" ∷ []) ∷ (codes "cookie", codes "b" ∷ []) ∷ []
