-- ===== src/Dispatch/Breaker.antt =====
-- internal/dispatch/breaker.go: the circuit breaker that the dispatcher keeps for each destination.
-- The mutex makes each method one step, so a method is a function from breaker to breaker. `b.now()`
-- is the argument `now`. A time is a count of nanoseconds since Go's zero time, which is 0.
pub mod Run
pub mod Invariant
pub mod Probes
pub mod Cooldown
use status_hub.Prelude.{
  ℕ, ◌+◌, ◌*◌, ◌-◌, ◌/◌, Bool, true, false, Option, none, some, List, [], ◌∷◌, ltb, leb, ◌==◌,
  nat_eq, if◌then◌else◌, not, ◌&&◌, ℤ, positive_or, Dict, lookup, insert, delete, map, Text,
  text_Eq, text_eq_iff,
}
use status_hub.Domain.Config.{second}
use status_hub.Dispatch.Message.{truncate, Refusal, failing, probe_busy, to_seconds}

pub data BreakerState : Type 0 where
  closed open_state half_open : BreakerState

pub record BreakerEntry : Type 0 where
  pub state : BreakerState
  pub consecutive : ℕ
  pub opened_at : ℕ
  pub next_probe_at : ℕ
  pub cooldown : ℕ
  pub probe_in_flight : Bool
  pub last_error : Text
  pub trips : ℕ

pub record Breaker : Type 0 where
  pub entries : Dict Text BreakerEntry
  pub threshold : ℕ
  pub cooldown : ℕ
  pub max_cooldown : ℕ

pub record BreakerOptions : Type 0 where
  pub threshold : ℤ
  pub cooldown : ℤ
  pub max_cooldown : ℤ

unfoldable pub new_breaker : BreakerOptions → Breaker
new_breaker o = record {
  entries = [];
  threshold = positive_or o.threshold 5;
  cooldown = positive_or o.cooldown (30 * second);
  max_cooldown = positive_or o.max_cooldown (300 * second);
}

-- `none` is the answer `true, ""`.
abbrev pub Answer : Type 0
Answer = Option Refusal

-- What `Allow` does with the entry that it found.
unfoldable pub allow_entry : BreakerState → ℕ → BreakerEntry → BreakerEntry × Answer
allow_entry closed now e = (e, none)
allow_entry open_state now e =
    if ltb now e.next_probe_at
    then (e, some (failing e.consecutive e.last_error (e.next_probe_at - now)))
    else (record e { state = half_open; probe_in_flight = true }, none)
allow_entry half_open now e =
    if e.probe_in_flight then (e, some probe_busy) else (record e { probe_in_flight = true }, none)

unfoldable pub allow : ℕ → Text → Breaker → Breaker × Answer
allow now id b = elim (lookup id b.entries) [
  | none ↦ (b, none)
  | some e ↦
      (let (e', answer) = allow_entry e.state now e in
        (record b { entries = insert id e' b.entries }, answer))
]

unfoldable pub succeeded_entry : BreakerEntry → BreakerEntry
succeeded_entry e = record e {
  state = closed;
  consecutive = 0;
  probe_in_flight = false;
  cooldown = 0;
  last_error = [];
  next_probe_at = 0;
}

unfoldable pub succeeded : Text → Breaker → Breaker
succeeded id b = elim (lookup id b.entries) [
  | none ↦ b
  | some e ↦ record b { entries = insert id (succeeded_entry e) b.entries }
]

abbrev pub new_entry : BreakerEntry
new_entry = record {
  state = closed;
  consecutive = 0;
  opened_at = 0;
  next_probe_at = 0;
  cooldown = 0;
  probe_in_flight = false;
  last_error = [];
  trips = 0;
}

abbrev pub min_duration : ℕ → ℕ → ℕ
min_duration a b = if ltb a b then a else b

-- The wait after a failed probe.
unfoldable pub longer_cooldown : Breaker → ℕ → ℕ
longer_cooldown b cooldown =
    let c = min_duration (cooldown * 2) b.max_cooldown in if nat_eq c 0 then b.cooldown else c

-- What `Failed` does once the failure is counted; the state decides.
unfoldable pub trip : Breaker → ℕ → BreakerState → BreakerEntry → BreakerEntry
unfolding longer_cooldown
trip b now half_open e =
    let c = longer_cooldown b e.cooldown in
    record e { state = open_state; cooldown = c; next_probe_at = now + c }
trip b now closed e =
    if leb b.threshold e.consecutive
    then record e {
      state = open_state;
      opened_at = now;
      cooldown = b.cooldown;
      next_probe_at = now + b.cooldown;
      trips = e.trips + 1;
    }
    else e
trip b now open_state e = e

unfoldable pub failed_entry : Breaker → ℕ → Text → BreakerEntry → BreakerEntry
unfolding trip
failed_entry b now reason e = trip b now e.state (record e {
  consecutive = e.consecutive + 1;
  last_error = truncate reason;
  probe_in_flight = false;
})

abbrev pub entry_or_new : Option BreakerEntry → BreakerEntry
entry_or_new none = new_entry
entry_or_new (some e) = e

unfoldable pub failed : ℕ → Text → Text → Breaker → Breaker × BreakerState
failed now id reason b =
    let e = failed_entry b now reason (entry_or_new (lookup id b.entries)) in
    (record b { entries = insert id e b.entries }, e.state)

unfoldable pub state_of : Text → Breaker → BreakerState
state_of id b = elim (lookup id b.entries) [ none ↦ closed | some e ↦ e.state ]

unfoldable pub reset : Text → Breaker → Breaker
reset id b = record b { entries = delete id b.entries }

-- What the dashboard shows of one destination. `opened_at` is a pointer, nil for the zero time.
pub record Health : Type 0 where
  pub destination_id : Text
  pub state : BreakerState
  pub consecutive_failures : ℕ
  pub last_error : Text
  pub opened_at : Option ℕ
  pub next_probe_in : ℕ
  pub trips : ℕ

abbrev pub is_open : BreakerState → Bool
is_open open_state = true
is_open _ = false

unfoldable pub health : ℕ → Text × BreakerEntry → Health
health now (id, e) = record {
  destination_id = id;
  state = e.state;
  consecutive_failures = e.consecutive;
  last_error = e.last_error;
  opened_at = if nat_eq e.opened_at 0 then none else some e.opened_at;
  next_probe_in =
      if is_open e.state && ltb now e.next_probe_at
      then to_seconds (e.next_probe_at - now) * second
      else 0;
  trips = e.trips;
}

unfoldable pub snapshot : ℕ → Breaker → List Health
unfolding health
snapshot now b = map (health now) b.entries
