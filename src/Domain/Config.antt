-- ===== src/Domain/Config.antt =====
-- internal/domain/config.go: destinations, their filters and their retry policies.
use status_hub.Prelude.{
  ℕ, ◌+◌, ◌*◌, ◌/◌, arith, ◌≤◌, Bool, true, false, ◌&&◌, not, List, [], ◌∷◌, length, ltb, nat_eq,
  if◌then◌else◌, ◌==◌, Text, text_Eq, ℤ, pos, negsuc, in_range,
}
use status_hub.Domain.Event.{CanonicalEvent}

abbrev pub second : ℕ
second = 1_000_000_000

-- A float64 `JitterFraction` between 0 and 1, as the program uses it: the spread of a duration, and
-- twice the spread, both cut to whole nanoseconds.
pub record Jitter : Type 0 where
  pub is_positive : Bool
  pub spread : ℕ → ℕ
  pub twice_spread : ℕ → ℕ
  pub spread-le : (d : ℕ) → spread d ≤ d

pub record RetryPolicy : Type 0 where
  pub backoff : List ℕ
  pub jitter : Jitter
  pub timeout : ℕ

-- The fraction 0.2. At the whole seconds of the default schedule the product is exact.
pub fifth-le : (d : ℕ) → d / 5 ≤ d
fifth-le d = omega arith

unfoldable pub fifth : Jitter
fifth = record {
  is_positive = true;
  spread = λ d. d / 5;
  twice_spread = λ d. (2 * d) / 5;
  spread-le = fifth-le;
}

unfoldable pub default_retry_policy : RetryPolicy
unfolding fifth
default_retry_policy = record {
  backoff =
      0
      ∷ (10 * second)
      ∷ (60 * second)
      ∷ (300 * second)
      ∷ (1800 * second)
      ∷ (7200 * second)
      ∷ (21600 * second)
      ∷ [];
  jitter = fifth;
  timeout = 10 * second;
}

unfoldable pub attempts : RetryPolicy → ℕ
attempts p = length p.backoff

pub record Filter : Type 0 where
  pub providers : List Text
  pub event_types : List Text
  pub statuses : List Text
  pub min_amount_minor : ℤ

unfoldable pub contains : List Text → Text → Bool
contains [] v = false
contains (x ∷ xs) v = if x == v then true else contains xs v

abbrev pub lower : ℕ → ℕ
lower c = if in_range b'A' b'Z' c then c + 32 else c

-- strings.EqualFold on ASCII texts, which provider names are.
unfoldable pub equal_fold : Text → Text → Bool
equal_fold [] [] = true
equal_fold (a ∷ s) (b ∷ t) = nat_eq (lower a) (lower b) && equal_fold s t
equal_fold _ _ = false

unfoldable pub contains_fold : List Text → Text → Bool
contains_fold [] v = false
contains_fold (x ∷ xs) v = if equal_fold x v then true else contains_fold xs v

abbrev is_positive : ℤ → Bool
is_positive (pos n) = ltb 0 n
is_positive (negsuc _) = false

abbrev pub ltb_ℤ : ℤ → ℤ → Bool
ltb_ℤ (pos a) (pos b) = ltb a b
ltb_ℤ (pos a) (negsuc b) = false
ltb_ℤ (negsuc a) (pos b) = true
ltb_ℤ (negsuc a) (negsuc b) = ltb b a

unfoldable pub matches : Filter → CanonicalEvent → Bool
matches f e =
    if ltb 0 (length f.providers) && not (contains_fold f.providers e.provider)
    then false
    else if ltb 0 (length f.event_types) && not (contains f.event_types e.event_type)
    then false
    else if ltb 0 (length f.statuses) && not (contains f.statuses e.status)
    then false
    else if is_positive f.min_amount_minor && ltb_ℤ e.amount_minor f.min_amount_minor
    then false
    else true

pub record Destination : Type 0 where
  pub id : Text
  pub tenant_id : Text
  pub url : Text
  pub signing_secret_ref : Text
  pub filter : Filter
  pub retry_policy : RetryPolicy
  pub include_raw : Bool
  pub schema_version : Text
  pub enabled : Bool
  pub created_at : ℕ
