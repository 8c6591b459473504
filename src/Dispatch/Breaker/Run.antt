-- ===== src/Dispatch/Breaker/Run.antt =====
-- Sequences of calls of the breaker's methods, in the order in which its mutex admits them.
use status_hub.Prelude.{
  ℕ, ◌≡◌, Option, none, some, List, [], ◌∷◌, ◌==◌, if◌then◌else◌, Text, text_Eq, text_eq_iff,
  lookup, lookup-insert, lookup-delete, arith, Option-cases, inl, inr,
}
use status_hub.Dispatch.Breaker.{
  Breaker, BreakerEntry, allow, succeeded, failed, reset, entry_or_new, allow_entry,
  succeeded_entry, failed_entry,
}

pub data Call : Type 0 where
  allow_call : ℕ → Text → Call
  succeeded_call : Text → Call
  failed_call : ℕ → Text → Text → Call
  reset_call : Text → Call

-- The destination that a call is about.
abbrev pub target : Call → Text
target (allow_call _ id) = id
target (succeeded_call id) = id
target (failed_call _ id _) = id
target (reset_call id) = id

unfoldable pub call : Breaker → Call → Breaker
unfolding allow succeeded failed reset
call b (allow_call now id) = (allow now id b).0
call b (succeeded_call id) = succeeded id b
call b (failed_call now id reason) = (failed now id reason b).0
call b (reset_call id) = reset id b

unfoldable pub run : Breaker → List Call → Breaker
run b [] = b
run b (c ∷ cs) = run (call b c) cs

-- The entry that a call leaves for its destination.
unfoldable pub entry_after : Breaker → Call → Option BreakerEntry → Option BreakerEntry
entry_after b (allow_call now id) none = none
entry_after b (allow_call now id) (some e) = some (allow_entry e.state now e).0
entry_after b (succeeded_call id) none = none
entry_after b (succeeded_call id) (some e) = some (succeeded_entry e)
entry_after b (failed_call now id reason) o = some (failed_entry b now reason (entry_or_new o))
entry_after b (reset_call id) o = none

-- A call writes the entry of its destination, and no other.
pub lookup-call :
    (b : Breaker) (id : Text) (c : Call)
    → lookup id (call b c).entries
      ≡ (if target c == id then entry_after b c (lookup id b.entries) else lookup id b.entries)
unfolding call entry_after
lookup-call b id (allow_call now k) = elim (Option-cases (lookup k b.entries)) [
  | inl p ↦ ground (arith, text_eq_iff k id)
  | inr (e, p) ↦
      ground (arith, text_eq_iff k id, lookup-insert k id (allow_entry e.state now e).0 b.entries)
]
lookup-call b id (succeeded_call k) = elim (Option-cases (lookup k b.entries)) [
  | inl p ↦ ground (arith, text_eq_iff k id)
  | inr (e, p) ↦ ground (arith, text_eq_iff k id, lookup-insert k id (succeeded_entry e) b.entries)
]
lookup-call b id (failed_call now k reason) = ground (
  arith,
  text_eq_iff k id,
  lookup-insert k id (failed_entry b now reason (entry_or_new (lookup k b.entries))) b.entries,
)
lookup-call b id (reset_call k) = ground (arith, text_eq_iff k id, lookup-delete k id b.entries)

-- No call changes the settings.
pub call_settings :
    (b : Breaker) (c : Call)
    → ((call b c).threshold ≡ b.threshold)
      × ((call b c).cooldown ≡ b.cooldown)
      × ((call b c).max_cooldown ≡ b.max_cooldown)
unfolding call
call_settings b (allow_call now k) = ground arith
call_settings b (succeeded_call k) = ground arith
call_settings b (failed_call now k reason) = ground arith
call_settings b (reset_call k) = ground arith
