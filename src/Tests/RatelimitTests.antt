-- ===== src/Tests/RatelimitTests.antt =====
-- A semaphore of two slots.
use status_hub.Prelude.{◌≡◌, refl, ◌∷◌, [], List, codes, pos, negsuc}
use status_hub.Ratelimit.{
  new_bounded, try_acquire, release, Call, acquire_call, release_call, run, IsAccounted,
  run-new_bounded-IsAccounted,
}

abbrev three_then_back : List Call
three_then_back = acquire_call ∷ acquire_call ∷ acquire_call ∷ release_call ∷ acquire_call ∷ []

third_refused : (run three_then_back (new_bounded (codes "receive") (pos 2))).1 ≡ 3
unfolding run new_bounded try_acquire release
third_refused = refl

one_slot_at_least : (new_bounded (codes "receive") (negsuc 4)).capacity ≡ 1
unfolding new_bounded
one_slot_at_least = refl

run-new_bounded-IsAccounted_example :
    IsAccounted 2 0 1 (run three_then_back (new_bounded (codes "receive") (pos 2)))
run-new_bounded-IsAccounted_example =
    run-new_bounded-IsAccounted three_then_back (codes "receive") (pos 2)
