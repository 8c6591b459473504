-- ===== src/Dispatch/Message.antt =====
-- The messages that the dispatcher keeps, and `truncate` of internal/dispatch/dispatcher.go.
use status_hub.Prelude.{
  ℕ, zero, suc, ◌≤◌, [], ◌∷◌, arith, length, take, ltb, if◌then◌else◌, Text, to_valid_utf8, codes,
  decimal, show_seconds, ◌+◌, ◌/◌, ◌++◌,
}

abbrev pub max_response_body : ℕ
max_response_body = 1024

-- At most `n` bytes of `s`.
cut : ℕ → Text → Text
cut n s = if ltb n (length s) then take n s else s

unfoldable pub truncate : Text → Text
unfolding cut
truncate s = cut max_response_body (to_valid_utf8 s)

length-take-le : (n : ℕ) (s : Text) → length (take n s) ≤ n
length-take-le zero s = omega arith
length-take-le (suc n) [] = omega arith
length-take-le (suc n) (x ∷ s) = omega (arith, length-take-le n s)

length-cut : (n : ℕ) (s : Text) → length (cut n s) ≤ n
unfolding cut
length-cut n s = ground (arith, length-take-le n s)

pub length-truncate : (s : Text) → length (truncate s) ≤ max_response_body
length-truncate s = unfold truncate in length-cut max_response_body (to_valid_utf8 s)

-- Why the breaker refused a delivery: the arguments of the two messages of `Allow`.
pub data Refusal : Type 0 where
  failing : ℕ → Text → ℕ → Refusal
  probe_busy : Refusal

-- time.Duration.Round(time.Second), in seconds: to the nearest, halves up.
abbrev pub to_seconds : ℕ → ℕ
to_seconds d = (d + 500_000_000) / 1_000_000_000

unfoldable pub why : Refusal → Text
why (failing n last_error wait) =
    codes "destination has failed "
    ++ (decimal n
        ++ (codes " times consecutively ("
            ++ (last_error ++ (codes "); next probe in " ++ show_seconds (to_seconds wait)))))
why probe_busy = codes "a probe is already in flight for this destination"
