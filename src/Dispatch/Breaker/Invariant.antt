-- ===== src/Dispatch/Breaker/Invariant.antt =====
-- What holds of every entry of a breaker, whatever calls were made.
use status_hub.Prelude.{◌≤◌, ◌<◌, max, true, ◌≡◌, ◌≢◌, Option, none, some, Text, text_Eq, lookup}
use status_hub.Dispatch.Breaker.{closed, half_open, Breaker, BreakerEntry}

-- The settings that `NewBreaker` makes are positive.
pub record IsConfigured (b : Breaker) : Type 0 where
  pub threshold_pos : 0 < b.threshold
  pub cooldown_pos : 0 < b.cooldown
  pub max_cooldown_pos : 0 < b.max_cooldown

pub record IsSound (b : Breaker) (e : BreakerEntry) : Type 0 where
  pub probe_half_open : e.probe_in_flight ≡ true → e.state ≡ half_open
  pub closed_below : e.state ≡ closed → e.consecutive < b.threshold
  pub tripped_above : e.state ≢ closed → b.threshold ≤ e.consecutive
  pub tripped_waits : e.state ≢ closed → 0 < e.cooldown
  pub cooldown_bounded : e.cooldown ≤ max b.cooldown b.max_cooldown
  pub next_probe_after : e.state ≢ closed → e.cooldown ≤ e.next_probe_at

abbrev SoundOption : Breaker → Option BreakerEntry → Type 0
SoundOption b none = Unit
SoundOption b (some e) = IsSound b e

-- Every entry that the breaker holds is sound.
pub record IsHealthy (b : Breaker) : Type 0 where
  pub configured : IsConfigured b
  pub sound : (id : Text) → SoundOption b (lookup id b.entries)
