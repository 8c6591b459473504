-- ===== src/Receive/Checks.antt =====
-- internal/receive/receiver.go: what the handler reads and checks before it stores anything: the body, the
-- headers, the source address and the signature.
use status_hub.Prelude.{
  ℕ, ◌^◌, Bool, false, not, ◌&&◌, ◌||◌, ◌++◌, ◌∷◌, [], List, map, length, take, filter, Option,
  none, some, ◌⊎◌, inl, inr, ◌==◌, if◌then◌else◌, nat_eq, ltb, Text, quoted, text_Eq, codes, Dict,
  lookup, insert,
}
use status_hub.Domain.Tenancy.{Endpoint}
use status_hub.Domain.Config.{lower}
use status_hub.Domain.Amount.{trim_space}
use status_hub.Domain.Audit.{Codec}

abbrev pub max_body_bytes : ℕ
max_body_bytes = 2 ^ 20

-- The body as the connection gives it: an error, or its bytes.
pub data Incoming : Type 0 where
  broken : Incoming
  bytes : Text → Incoming

pub record Request : Type 0 where
  pub tenant : Text
  pub provider : Text
  pub env : Text
  pub token : Text
  pub headers : Dict Text (List Text)
  pub incoming : Incoming
  pub remote_addr : Text

-- The response, the name of its error, the id that it acknowledges, and its Retry-After header.
pub record Response : Type 0 where
  pub status : ℕ
  pub error : Text
  pub event_id : Text
  pub retry_after : Text

abbrev pub refuse : ℕ → Text → Response
refuse status error = record { status = status; error = error; event_id = []; retry_after = [] }

-- A provider's adapter: the ranges that it publishes, if it restricts sources, and its check of a
-- signature, with the error that it finds.
pub record Adapter : Type 0 where
  pub allowed_sources : Option (List Text)
  pub verify : Dict Text (List Text) → Text → Text → Option Text

-- What the handler asks of the packages around it. An address is its text, empty where there is
-- none; `in_prefix` parses a range and says whether it has the address.
pub record World (Json : Type 0) : Type 0 where
  pub now : ℕ
  pub new_id : Text
  pub rate_allows : Text → Option Text
  pub trust_proxy_headers : Bool
  pub parse_addr : Text → Option Text
  pub split_host : Text → Option Text
  pub unmap : Text → Text
  pub in_prefix : Text → Text → Bool
  pub get_adapter : Text → Text → Text ⊎ Adapter
  pub resolve_secrets : Text → Text ⊎ List Text
  pub sha256_hex : Text → Text
  pub text_json : Text → Json
  pub number_json : ℕ → Json
  pub codec : Codec Json

-- readBody: the error's name and status, or the body.
unfoldable pub read_body : Incoming → Response ⊎ Text
read_body broken = inl (refuse 400 (codes "unreadable"))
read_body (bytes body) =
    if ltb max_body_bytes (length body)
    then inl (refuse 413 (codes "too_large"))
    else if nat_eq (length body) 0
    then inl (refuse 400 (codes "unreadable"))
    else inr body

abbrev pub sensitive_headers : List Text
sensitive_headers =
    codes "authorization"
    ∷ codes "proxy-authorization"
    ∷ codes "cookie"
    ∷ codes "set-cookie"
    ∷ codes "x-paystack-signature"
    ∷ codes "verif-hash"
    ∷ codes "verify-hash"
    ∷ codes "stripe-signature"
    ∷ codes "x-monnify-signature"
    ∷ codes "x-interswitch-signature"
    ∷ codes "x-nibss-signature"
    ∷ codes "x-api-key"
    ∷ codes "x-auth-token"
    ∷ []

unfoldable pub is_sensitive : List Text → Text → Bool
is_sensitive [] k = false
is_sensitive (s ∷ ss) k = (s == k) || is_sensitive ss k

abbrev pub hidden : Text
hidden = codes "[redacted]"

abbrev pub one_line : Text → Text
one_line v = filter (λ c. not (nat_eq c b'\r') && not (nat_eq c b'\n')) (take 1024 v)

-- What is kept of a header, if anything.
unfoldable pub kept_value : Text → List Text → Option Text
kept_value k vs =
    if is_sensitive sensitive_headers k
    then some hidden
    else elim vs [ [] ↦ none | v ∷ _ ↦ some (one_line v) ]

unfoldable pub sanitise_headers : Dict Text (List Text) → Dict Text Text
sanitise_headers [] = []
sanitise_headers ((k, vs) ∷ h) =
    let others = sanitise_headers h in
    elim (kept_value (map lower k) vs) [ none ↦ others | some v ↦ insert (map lower k) v others ]

abbrev pub not_allowed : Text
not_allowed = codes "source address is not in the provider's published ranges: "

-- Up to the first comma.
unfoldable pub before_comma : Text → Text
before_comma [] = []
before_comma (c ∷ s) = let rest = before_comma s in if nat_eq c b',' then [] else c ∷ rest

abbrev pub first_value : Option (List Text) → Text
first_value none = []
first_value (some []) = []
first_value (some (v ∷ _)) = v

module _ {Json : Type 0} (w : World Json) where
  abbrev pub forwarded_for : Request → Option Text
  forwarded_for req =
      let xff = first_value (lookup (codes "X-Forwarded-For") req.headers) in
      if w.trust_proxy_headers && not (xff == [])
      then w.parse_addr (trim_space (before_comma xff))
      else none

  abbrev pub host_or_all : Text → Option Text → Text
  host_or_all addr none = addr
  host_or_all addr (some host) = host

  abbrev pub unmapped : Option Text → Text
  unmapped none = []
  unmapped (some a) = w.unmap a

  unfoldable pub source_addr : Request → Text
  source_addr req = elim (forwarded_for req) [
    | some a ↦ a
    | none ↦ unmapped (w.parse_addr (host_or_all req.remote_addr (w.split_host req.remote_addr)))
  ]

  unfoldable pub in_some_prefix : Text → List Text → Bool
  in_some_prefix src [] = false
  in_some_prefix src (c ∷ cs) = w.in_prefix (trim_space c) src || in_some_prefix src cs

  -- checkSource: the error, if there is one.
  unfoldable pub check_source : Text → List Text → Option Text
  check_source src cidrs =
      if src == []
      then some (not_allowed ++ codes "no usable source address")
      else if in_some_prefix src cidrs
      then none
      else some (not_allowed ++ (src ++ codes " is not in the published ranges"))

  abbrev pub allowed_ranges : Endpoint → List Text → List Text
  allowed_ranges e published =
      if nat_eq (length e.allowed_source_cidrs) 0 then published else e.allowed_source_cidrs

  -- The loop over the secrets: the error of the last of them, unless one verifies.
  unfoldable pub try_secrets : Adapter → Request → Text → Text → List Text → Option Text
  try_secrets a req body last [] = some last
  try_secrets a req body last (s ∷ ss) = elim (a.verify req.headers body s) [
    | none ↦ none
    | some err ↦ try_secrets a req body err ss
  ]

  abbrev pub source_error : Endpoint → Text → Option (List Text) → Option Text
  source_error e src none = none
  source_error e src (some published) = check_source src (allowed_ranges e published)

  -- The error that `verify` finds, if any.
  unfoldable pub verify_error : Endpoint → Request → Text → Text → Option Text
  verify_error e req body src = elim (w.get_adapter e.tenant_id e.adapter_name) [
    | inl err ↦
        some (codes "adapter " ++ (quoted e.adapter_name ++ (codes " is not available: " ++ err)))
    | inr a ↦ elim (source_error e src a.allowed_sources) [
      | some err ↦ some err
      | none ↦ elim (w.resolve_secrets e.secret_ref) [
        | inl err ↦
            some (codes "secret " ++ (quoted e.secret_ref ++ (codes " did not resolve: " ++ err)))
        | inr secrets ↦ try_secrets a req body (codes "request carries no signature header") secrets
      ]
    ]
  ]
