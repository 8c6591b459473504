-- ===== src/Domain/Status.antt =====
-- internal/domain/status.go: statuses and event types, which are strings of a closed set.
pub mod Family
use status_hub.Prelude.{
  Bool, true, false, not, ◌&&◌, ◌||◌, ◌++◌, ◌∷◌, [], List, Option, none, some, ◌==◌, if◌then◌else◌,
  nat_eq, Text, text_Eq, codes,
}

abbrev pub status_pending : Text
status_pending = codes "pending"

abbrev pub status_success : Text
status_success = codes "success"

abbrev pub status_failed : Text
status_failed = codes "failed"

abbrev pub status_reversed : Text
status_reversed = codes "reversed"

abbrev pub status_abandoned : Text
status_abandoned = codes "abandoned"

abbrev pub status_unknown : Text
status_unknown = codes "unknown"

-- Whether a set, the keys of a map, has a string.
unfoldable pub member : Text → List Text → Bool
member v [] = false
member v (k ∷ ks) = (k == v) || member v ks

abbrev pub all_statuses : List Text
all_statuses =
    status_pending ∷ status_success ∷ status_failed ∷ status_reversed ∷ status_abandoned
    ∷ status_unknown ∷ []

unfoldable pub valid_status : Text → Bool
valid_status s = member s all_statuses

unfoldable pub status_is_terminal : Text → Bool
status_is_terminal s = not (s == status_pending) && not (s == status_unknown)

-- An unrecognised status is an error.
unfoldable pub parse_status : Text → Option Text
parse_status v = if not (valid_status v) then none else some v

abbrev pub event_unknown : Text
event_unknown = codes "unknown"

abbrev pub chargeback_opened : Text
chargeback_opened = codes "chargeback.opened"

abbrev pub chargeback_resolved : Text
chargeback_resolved = codes "chargeback.resolved"

abbrev pub all_event_types : List Text
all_event_types =
    codes "payment.pending"
    ∷ codes "payment.completed"
    ∷ codes "payment.failed"
    ∷ codes "payment.reversed"
    ∷ codes "payment.abandoned"
    ∷ codes "transfer.pending"
    ∷ codes "transfer.completed"
    ∷ codes "transfer.failed"
    ∷ codes "transfer.reversed"
    ∷ codes "refund.completed"
    ∷ codes "refund.failed"
    ∷ chargeback_opened
    ∷ chargeback_resolved
    ∷ event_unknown
    ∷ []

unfoldable pub valid_event_type : Text → Bool
valid_event_type t = member t all_event_types

-- The text before its first point.
unfoldable pub family : Text → Text
family [] = []
family (c ∷ t) = let rest = family t in if nat_eq c b'.' then [] else c ∷ rest

abbrev pub suffix_for : Text → Option Text
suffix_for s =
    if s == status_pending
    then some (codes "pending")
    else if s == status_success
    then some (codes "completed")
    else if s == status_failed
    then some (codes "failed")
    else if s == status_reversed
    then some (codes "reversed")
    else if s == status_abandoned
    then some (codes "abandoned")
    else none

abbrev pub chargeback_for : Text → Text
chargeback_for s =
    if s == status_pending
    then chargeback_opened
    else if (s == status_success) || (s == status_failed) || (s == status_reversed)
    then chargeback_resolved
    else event_unknown

abbrev pub composed : Text → Option Text → Text
composed fam none = event_unknown
composed fam (some suffix) =
    let t = fam ++ (b'.' ∷ suffix) in if not (valid_event_type t) then event_unknown else t

unfoldable pub event_type_for : Text → Text → Text
event_type_for fam s =
    if fam == codes "chargeback" then chargeback_for s else composed fam (suffix_for s)
