-- ===== src/Domain/Validation.antt =====
-- internal/domain/event.go and config.go: the checks of a canonical event, of a retry policy, of a filter
-- and of a destination's URL. A time is an instant, which has no location, so ErrNotUTC never occurs
-- and UTC does nothing; the runes of a currency are its bytes.
use status_hub.Prelude.{
  zero, suc, ◌*◌, Bool, true, false, not, ◌&&◌, ◌||◌, Option, none, some, ◌⊎◌, inl, inr, List,
  length, ◌++◌, ◌∷◌, [], ◌==◌, if◌then◌else◌, nat_eq, ltb, Text, text_Eq, codes, quoted, ℤ, pos,
  negsuc,
}
use status_hub.Domain.Config.{RetryPolicy, Filter, second}
use status_hub.Domain.Amount.{normalise_currency, valid_currency}
use status_hub.Domain.Status.{valid_status, valid_event_type}
use status_hub.Domain.Event.{CanonicalEvent}

abbrev pub is_zero_amount : ℤ → Bool
is_zero_amount (pos zero) = true
is_zero_amount (pos (suc _)) = false
is_zero_amount (negsuc _) = false

-- The error's text, if there is one.
unfoldable pub validate : CanonicalEvent → Option Text
validate e =
    if e.tenant_id == []
    then some (codes "event has no tenant")
    else if e.transaction_ref == []
    then some (codes "event has no transaction reference")
    else if not (valid_status e.status)
    then some (codes "event status is not in the canonical set: " ++ quoted e.status)
    else if not (valid_event_type e.event_type)
    then some (codes "event type is not in the canonical set: " ++ quoted e.event_type)
    else if (not (is_zero_amount e.amount_minor) || not (e.currency == []))
        && not (valid_currency e.currency)
    then some (codes "currency is not a three-letter ISO 4217 code: " ++ quoted e.currency)
    else none

unfoldable pub normalise : CanonicalEvent → CanonicalEvent
normalise e = record e { currency = normalise_currency e.currency }

unfoldable pub dedupe_key : CanonicalEvent → Text → Text
dedupe_key e body_sha256 =
    if not (e.provider_event_id == [])
    then e.provider ++ (b':' ∷ e.provider_event_id)
    else e.provider ++ (codes ":body:" ++ body_sha256)

-- A model's policy has no negative wait, and its fraction is between 0 and 1.
unfoldable pub validate_policy : RetryPolicy → Option Text
validate_policy p =
    if nat_eq (length p.backoff) 0
    then some (codes "retry policy must allow at least one attempt")
    else if ltb 20 (length p.backoff)
    then some (codes "retry policy must not exceed 20 attempts")
    else if nat_eq p.timeout 0 || ltb (60 * second) p.timeout
    then some (codes "per-attempt timeout must be positive and at most one minute")
    else none

-- The first of the values that is not valid.
unfoldable pub first_invalid : (Text → Bool) → List Text → Option Text
first_invalid valid [] = none
first_invalid valid (v ∷ vs) = let rest = first_invalid valid vs in if valid v then rest else some v

abbrev pub is_negative : ℤ → Bool
is_negative (pos _) = false
is_negative (negsuc _) = true

unfoldable pub validate_filter : Filter → Option Text
validate_filter f = elim (first_invalid valid_event_type f.event_types) [
  | some t ↦ some (codes "event type is not in the canonical set: " ++ quoted t)
  | none ↦ elim (first_invalid valid_status f.statuses) [
    | some s ↦ some (codes "event status is not in the canonical set: " ++ quoted s)
    | none ↦
        if is_negative f.min_amount_minor
        then some (codes "minimum amount cannot be negative")
        else none
  ]
]

-- What url.Parse finds in a URL.
pub record ParsedUrl : Type 0 where
  pub scheme : Text
  pub host : Text
  pub has_user : Bool

unfoldable pub has_line_break : Text → Bool
has_line_break [] = false
has_line_break (c ∷ s) = nat_eq c b'\r' || nat_eq c b'\n' || has_line_break s

unfoldable pub validate_url : (Text → Text ⊎ ParsedUrl) → Text → Option Text
validate_url parse raw = elim (parse raw) [
  | inl err ↦ some (codes "destination URL is not a URL: " ++ err)
  | inr u ↦
      if not (u.scheme == codes "https")
      then some (codes "destination URL must be https")
      else if u.host == []
      then some (codes "destination URL has no host")
      else if u.has_user
      then some (codes "destination URL must not embed credentials")
      else if has_line_break raw
      then some (codes "destination URL contains a line break")
      else none
]
