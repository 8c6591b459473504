-- ===== src/Prelude/Format.antt =====
-- What package fmt prints: %d of a natural number, and %s of a duration of whole seconds.
use Prim.Native.Nat.{ℕ, zero, suc, ◌+◌, ◌/◌, ◌%◌}
use mathlib.Core.List.{[], ◌∷◌, ◌++◌}
use status_hub.Prelude.Tests.{ltb, if◌then◌else◌}
use status_hub.Prelude.Bytes.{Text, codes}

-- The decimal digits of a number below 10 ^ fuel.
unfoldable pub digits : ℕ → ℕ → Text
digits zero n = []
digits (suc fuel) n =
    let high = digits fuel (n / 10) in
    if ltb n 10 then (48 + n) ∷ [] else high ++ (48 + n % 10) ∷ []

unfoldable pub decimal : ℕ → Text
unfolding digits
decimal n = digits (n + 1) n

unfoldable pub show_seconds : ℕ → Text
unfolding decimal
show_seconds s =
    let secs = decimal (s % 60) ++ codes "s" in
    let mins = decimal ((s / 60) % 60) ++ (codes "m" ++ secs) in
    if ltb s 60
    then secs
    else if ltb s 3600
    then mins
    else decimal (s / 3600) ++ (codes "h" ++ mins)

-- %q of a text with nothing to escape.
abbrev pub quoted : Text → Text
quoted s = b'"' ∷ s ++ b'"' ∷ []
