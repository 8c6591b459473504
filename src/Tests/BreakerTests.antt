-- ===== src/Tests/BreakerTests.antt =====
-- A breaker that opens after two failures, waits 10 and at most 35.
use status_hub.Prelude.{
  ◌≡◌, refl, false, some, List, [], ◌∷◌, arith, Text, text_eq, text_Eq, codes, pos, lookup,
}
use status_hub.Dispatch.Message.{probe_busy}
use status_hub.Dispatch.Breaker.{
  open_state, Breaker, BreakerEntry, BreakerOptions, allow, allow_entry, state_of,
}
use status_hub.Dispatch.Breaker.Run.{Call, allow_call, succeeded_call, failed_call, run}
use status_hub.Dispatch.Breaker.Probes.{probe_exclusive}
use status_hub.Dispatch.Breaker.Cooldown.{Waits}

abbrev dst : Text
dst = codes "d1"

abbrev other : Text
other = codes "d"

abbrev boom : Text
boom = codes "x"

abbrev options : BreakerOptions
options = record { threshold = pos 2; cooldown = pos 10; max_cooldown = pos 35 }

abbrev two_failures : List Call
two_failures = failed_call 1 dst boom ∷ failed_call 2 dst boom ∷ []

abbrev tripped_entry : BreakerEntry
tripped_entry = record {
  state = open_state;
  consecutive = 2;
  opened_at = 2;
  next_probe_at = 12;
  cooldown = 10;
  probe_in_flight = false;
  last_error = boom;
  trips = 1;
}

abbrev tripped : Breaker
tripped = record {
  entries = (dst, tripped_entry) ∷ [];
  threshold = 2;
  cooldown = 10;
  max_cooldown = 35;
}

probe_exclusive_example :
    (allow 99 dst (run (allow 12 dst tripped).0 (allow_call 13 dst ∷ succeeded_call other ∷ []))).1
    ≡ some probe_busy
unfolding allow allow_entry state_of lookup text_eq
probe_exclusive_example =
    probe_exclusive tripped dst 12 99 (allow_call 13 dst ∷ succeeded_call other ∷ []) (λ e. cc e)
      refl (tt, ((λ e. cc e), tt))

tripped-Waits : Waits dst 10 tripped
unfolding lookup text_eq
tripped-Waits = record {
  entry = tripped_entry;
  found = refl;
  opened = refl;
  cooldown = refl;
  positive = omega arith;
  bounded = omega arith;
}
