-- ===== src/Dispatch/Breaker/Probes.antt =====
-- When the breaker opens, what an open breaker lets through, and how long it waits between probes.
use status_hub.Prelude.{
  ℕ, suc, ◌+◌, ◌<◌, true, false, ◌≡◌, ◌≢◌, refl, Option, none, some, List, [], ◌∷◌, ◌==◌,
  if◌then◌else◌, ltb, Text, text_Eq, text_eq_iff, lookup, lookup-insert_self, arith, Option-cases,
  Bool-cases, inl, inr, All, length,
}
use status_hub.Dispatch.Breaker.{
  closed, open_state, half_open, Breaker, BreakerEntry, allow, allow_entry, succeeded,
  succeeded_entry, failed, failed_entry, entry_or_new, state_of,
}
use status_hub.Dispatch.Message.{probe_busy}
use status_hub.Dispatch.Breaker.Run.{
  Call, target, allow_call, succeeded_call, failed_call, reset_call, call, run, entry_after,
  lookup-call,
}

-- A call that reports no outcome for `id`, and does not reset it.
abbrev pub ReportsNothing : Text → Call → Type 0
ReportsNothing id (allow_call _ _) = Unit
ReportsNothing id c = target c ≢ id

abbrev IsProbing : Option BreakerEntry → Type 0
IsProbing none = ⊥
IsProbing (some e) = (e.state ≡ half_open) × (e.probe_in_flight ≡ true)

allow_entry-IsProbing :
    (now : ℕ) (e : BreakerEntry)
    → IsProbing (some e)
    → IsProbing (some (allow_entry e.state now e).0)
unfolding allow_entry
allow_entry-IsProbing now e h = ground arith

entry_after-IsProbing :
    (b : Breaker) (id : Text) (c : Call) (o : Option BreakerEntry)
    → ReportsNothing id c
    → IsProbing o
    → IsProbing (if target c == id then entry_after b c o else o)
unfolding entry_after
entry_after-IsProbing b id (allow_call now k) (some e) n h = elim (Bool-cases (k == id)) [
  | inl p ↦ rw p (allow_entry-IsProbing now e h)
  | inr p ↦ rw p h
]
entry_after-IsProbing b id (succeeded_call k) (some e) n h = ground (arith, text_eq_iff k id)
entry_after-IsProbing b id (failed_call now k reason) (some e) n h =
    ground (arith, text_eq_iff k id)
entry_after-IsProbing b id (reset_call k) (some e) n h = ground (arith, text_eq_iff k id)
entry_after-IsProbing b id c none n h = absurd h

run-IsProbing :
    (b : Breaker) (id : Text) (cs : List Call)
    → All (ReportsNothing id) cs
    → IsProbing (lookup id b.entries)
    → IsProbing (lookup id (run b cs).entries)
unfolding run
run-IsProbing b id [] n h = h
run-IsProbing b id (c ∷ cs) n h =
    run-IsProbing (call b c) id cs n.1
      (rw (lookup-call b id c) (entry_after-IsProbing b id c (lookup id b.entries) n.0 h))

IsProbing-refused :
    (later : ℕ) (id : Text) (b : Breaker)
    → IsProbing (lookup id b.entries)
    → (allow later id b).1 ≡ some probe_busy
unfolding allow allow_entry
IsProbing-refused later id b h = elim (Option-cases (lookup id b.entries)) [
  | inl p ↦ absurd (rw p at h)
  | inr (e, p) ↦ ground (arith, h)
]

allow-IsProbing :
    (b : Breaker) (id : Text) (now : ℕ)
    → state_of id b ≢ closed
    → (allow now id b).1 ≡ none
    → IsProbing (lookup id (allow now id b).0.entries)
unfolding allow allow_entry state_of
allow-IsProbing b id now tripped granted = elim (Option-cases (lookup id b.entries)) [
  | inl p ↦ absurd (tripped (rw (p, state_of)))
  | inr (e, p) ↦ ground (arith, lookup-insert_self id (allow_entry e.state now e).0 b.entries)
]

-- When an open or half-open breaker lets a delivery through, it refuses every later one for that
-- destination as long as no outcome is reported for the destination and it is not reset, whatever
-- else is called in between and however much time passes.
pub probe_exclusive :
    (b : Breaker) (id : Text) (now later : ℕ) (cs : List Call)
    → state_of id b ≢ closed
    → (allow now id b).1 ≡ none
    → All (ReportsNothing id) cs
    → (allow later id (run (allow now id b).0 cs)).1 ≡ some probe_busy
probe_exclusive b id now later cs tripped granted n =
    IsProbing-refused later id (run (allow now id b).0 cs)
      (run-IsProbing (allow now id b).0 id cs n (allow-IsProbing b id now tripped granted))

-- The failures of one destination, one after the other: when, and for what reason.
unfoldable pub fail_all : Breaker → Text → List (ℕ × Text) → Breaker
fail_all b id [] = b
fail_all b id ((now, reason) ∷ fs) = fail_all (failed now id reason b).0 id fs

-- How many failures a closed entry has counted; an open entry stays open.
abbrev IsCounting : ℕ → Option BreakerEntry → Type 0
IsCounting k none = k ≡ 0
IsCounting k (some e) = (e.state ≡ closed) × (e.consecutive ≡ k)

abbrev IsOpen : Option BreakerEntry → Type 0
IsOpen none = ⊥
IsOpen (some e) = e.state ≡ open_state

lookup-failed :
    (b : Breaker) (now : ℕ) (id : Text) (reason : Text)
    → lookup id (failed now id reason b).0.entries
      ≡ some (failed_entry b now reason (entry_or_new (lookup id b.entries)))
unfolding failed
lookup-failed b now id reason =
    lookup-insert_self id (failed_entry b now reason (entry_or_new (lookup id b.entries))) b.entries

threshold-failed :
    (b : Breaker) (now : ℕ) (id : Text) (reason : Text)
    → (failed now id reason b).0.threshold ≡ b.threshold
unfolding failed
threshold-failed b now id reason = refl

failed_entry-IsOpen :
    (b : Breaker) (now : ℕ) (reason : Text) (o : Option BreakerEntry)
    → IsOpen o
    → IsOpen (some (failed_entry b now reason (entry_or_new o)))
unfolding failed_entry
failed_entry-IsOpen b now reason (some e) h = ground arith
failed_entry-IsOpen b now reason none h = absurd h

failed_entry_counts :
    (b : Breaker) (now : ℕ) (reason : Text) (k : ℕ) (o : Option BreakerEntry)
    → IsCounting k o
    → let e = failed_entry b now reason (entry_or_new o) in
      if ltb (suc k) b.threshold then IsCounting (suc k) (some e) else IsOpen (some e)
unfolding failed_entry
failed_entry_counts b now reason k (some e) h = elim (Bool-cases (ltb (suc k) b.threshold)) [
  | inl p ↦ rw p (ground arith)
  | inr p ↦ rw p (ground arith)
]
failed_entry_counts b now reason k none h = elim (Bool-cases (ltb (suc k) b.threshold)) [
  | inl p ↦ rw p (ground arith)
  | inr p ↦ rw p (ground arith)
]

fail_all-IsOpen :
    (b : Breaker) (id : Text) (fs : List (ℕ × Text))
    → IsOpen (lookup id b.entries)
    → IsOpen (lookup id (fail_all b id fs).entries)
unfolding fail_all
fail_all-IsOpen b id [] h = h
fail_all-IsOpen b id ((now, reason) ∷ fs) h =
    fail_all-IsOpen (failed now id reason b).0 id fs (
      rw (lookup-failed b now id reason) (failed_entry-IsOpen b now reason (lookup id b.entries) h))

IsOpen-state_of :
    (b : Breaker) (id : Text) → IsOpen (lookup id b.entries) → state_of id b ≡ open_state
unfolding state_of
IsOpen-state_of b id h = elim (Option-cases (lookup id b.entries)) [
  | inl p ↦ absurd (rw p at h)
  | inr (e, p) ↦ ground (arith, h)
]

IsCounting-state_of :
    (b : Breaker) (id : Text) (k : ℕ) → IsCounting k (lookup id b.entries) → state_of id b ≡ closed
unfolding state_of
IsCounting-state_of b id k h = elim (Option-cases (lookup id b.entries)) [
  | inl p ↦ rw (p, state_of)
  | inr (e, p) ↦ ground (arith, h)
]

module _ (b : Breaker) (now : ℕ) (id : Text) (reason : Text) (k : ℕ)
    (h : IsCounting k (lookup id b.entries)) where
  failed-IsCounting :
      ltb (suc k) b.threshold ≡ true
      → IsCounting (suc k) (lookup id (failed now id reason b).0.entries)
  failed-IsCounting p =
      rw (lookup-failed b now id reason)
        (rw p at (failed_entry_counts b now reason k (lookup id b.entries) h))

  failed-IsOpen :
      ltb (suc k) b.threshold ≡ false → IsOpen (lookup id (failed now id reason b).0.entries)
  failed-IsOpen p =
      rw (lookup-failed b now id reason)
        (rw p at (failed_entry_counts b now reason k (lookup id b.entries) h))

fail_all_counts :
    (b : Breaker) (id : Text) (fs : List (ℕ × Text)) (k : ℕ)
    → k < b.threshold
    → IsCounting k (lookup id b.entries)
    → state_of id (fail_all b id fs)
      ≡ (if ltb (k + length fs) b.threshold then closed else open_state)
unfolding fail_all
fail_all_counts b id [] k lt h = ground (arith, IsCounting-state_of b id k h)
fail_all_counts b id ((now, reason) ∷ fs) k lt h = elim (Bool-cases (ltb (suc k) b.threshold)) [
  | inl p ↦
      (let ih =
          fail_all_counts (failed now id reason b).0 id fs (suc k)
            (ground (arith, threshold-failed b now id reason))
            (failed-IsCounting b now id reason k h p) in
        ground (arith, ih, threshold-failed b now id reason))
  | inr p ↦ ground (
    arith,
    IsOpen-state_of (fail_all (failed now id reason b).0 id fs) id
        (fail_all-IsOpen (failed now id reason b).0 id fs (failed-IsOpen b now id reason k h p)),
  )
]

succeeded-IsCounting : (b : Breaker) (id : Text) → IsCounting 0 (lookup id (succeeded id b).entries)
unfolding succeeded succeeded_entry
succeeded-IsCounting b id = elim (Option-cases (lookup id b.entries)) [
  | inl p ↦ rw (p, succeeded) (rw p refl)
  | inr (e, p) ↦
      rw (p, succeeded) (rw (lookup-insert_self id (succeeded_entry e) b.entries) (refl, refl))
]

threshold-succeeded : (b : Breaker) (id : Text) → (succeeded id b).threshold ≡ b.threshold
unfolding succeeded
threshold-succeeded b id = ground arith

-- After a success, whatever the breaker's state was, the next failures in a row leave the
-- destination closed while they are fewer than the threshold, and open from the threshold on.
pub opens_at_threshold :
    (b : Breaker) (id : Text) (fs : List (ℕ × Text))
    → 0 < b.threshold
    → state_of id (fail_all (succeeded id b) id fs)
      ≡ (if ltb (length fs) b.threshold then closed else open_state)
opens_at_threshold b id fs h =
    let e = threshold-succeeded b id in
    ground (
      arith,
      e,
      fail_all_counts (succeeded id b) id fs 0 (ground (arith, e)) (succeeded-IsCounting b id),
    )
