-- ===== src/Dispatch/Breaker/Cooldown.antt =====
-- How long an open breaker waits between probes that fail.
use status_hub.Prelude.{
  ℕ, zero, suc, ◌+◌, ◌*◌, ◌^◌, ◌≤◌, ◌<◌, ◌≡◌, refl, none, some, List, [], ◌∷◌, ltb, Text, text_Eq,
  lookup, lookup-insert_self, arith, Bool-cases, inl, inr, length, sym, ap, ◌∙◌,
}
use native.Mathlib.Nat.{pow-suc, pow-succ', mul_assoc}
use status_hub.Dispatch.Breaker.{
  open_state, Breaker, BreakerEntry, allow, allow_entry, failed, failed_entry, entry_or_new,
  min_duration,
}

-- One probe: when it was asked for, when it failed, and why.
abbrev pub Probe : Type 0
Probe = ℕ × ℕ × Text

unfoldable pub probe_fails : Text → Probe → Breaker → Breaker
probe_fails id (asked, ended, reason) b = (failed ended id reason (allow asked id b).0).0

unfoldable pub probes_fail : Text → List Probe → Breaker → Breaker
probes_fail id [] b = b
probes_fail id (p ∷ ps) b = probes_fail id ps (probe_fails id p b)

-- Each of the probes was let through.
abbrev pub AllGranted : Text → List Probe → Breaker → Type 0
AllGranted id [] b = Unit
AllGranted id (p ∷ ps) b = ((allow p.0 id b).1 ≡ none) × AllGranted id ps (probe_fails id p b)

-- The destination is open and waits `c`, which is no more than the largest wait.
pub record Waits (id : Text) (c : ℕ) (b : Breaker) : Type 0 where
  pub entry : BreakerEntry
  pub found : lookup id b.entries ≡ some entry
  pub opened : entry.state ≡ open_state
  pub cooldown : entry.cooldown ≡ c
  pub positive : 0 < c
  pub bounded : c ≤ b.max_cooldown

abbrev doubled : ℕ → ℕ → ℕ
doubled c limit = min_duration (c * 2) limit

probe_entry :
    (b : Breaker) (asked ended : ℕ) (reason : Text) (e : BreakerEntry)
    → e.state ≡ open_state
    → 0 < e.cooldown
    → e.cooldown ≤ b.max_cooldown
    → (allow_entry e.state asked e).1 ≡ none
    → let f = failed_entry b ended reason (allow_entry e.state asked e).0 in
      (f.state ≡ open_state)
      × (f.cooldown ≡ doubled e.cooldown b.max_cooldown)
      × (f.next_probe_at ≡ ended + f.cooldown)
      × (asked < e.next_probe_at → ⊥)
unfolding allow_entry failed_entry
probe_entry b asked ended reason e o p m g = ground arith

-- The entry of a destination after a call that found it.
lookup-allow :
    (b : Breaker) (now : ℕ) (id : Text) (e : BreakerEntry)
    → lookup id b.entries ≡ some e
    → lookup id (allow now id b).0.entries ≡ some (allow_entry e.state now e).0
unfolding allow
lookup-allow b now id e p =
    rw (p, allow) (lookup-insert_self id (allow_entry e.state now e).0 b.entries)

answer-allow :
    (b : Breaker) (now : ℕ) (id : Text) (e : BreakerEntry)
    → lookup id b.entries ≡ some e
    → (allow now id b).1 ≡ (allow_entry e.state now e).1
unfolding allow
answer-allow b now id e p = rw (p, allow) refl

max_cooldown-allow :
    (b : Breaker) (now : ℕ) (id : Text) → (allow now id b).0.max_cooldown ≡ b.max_cooldown
unfolding allow
max_cooldown-allow b now id = ground arith

lookup-probe_fails :
    (b : Breaker) (asked ended : ℕ) (reason : Text) (id : Text) (e : BreakerEntry)
    → lookup id b.entries ≡ some e
    → lookup id (probe_fails id (asked, ended, reason) b).entries
      ≡ some (failed_entry (allow asked id b).0 ended reason (allow_entry e.state asked e).0)
unfolding probe_fails failed
lookup-probe_fails b asked ended reason id e p =
    let b' = (allow asked id b).0 in
    rw
      (lookup-insert_self id (failed_entry b' ended reason (entry_or_new (lookup id b'.entries)))
        b'.entries)
      (rw (lookup-allow b asked id e p))

max_cooldown-probe_fails :
    (b : Breaker) (id : Text) (p : Probe) → (probe_fails id p b).max_cooldown ≡ b.max_cooldown
unfolding probe_fails failed
max_cooldown-probe_fails b id (asked, ended, reason) = max_cooldown-allow b asked id

min_duration-le : (a b : ℕ) → min_duration a b ≤ b
min_duration-le a b = ground arith

probe_fails-Waits :
    (b : Breaker) (id : Text) (c : ℕ) (p : Probe)
    → Waits id c b
    → (allow p.0 id b).1 ≡ none
    → Waits id (doubled c b.max_cooldown) (probe_fails id p b)
probe_fails-Waits b id c (asked, ended, reason) w g =
    let m = max_cooldown-allow b asked id in
    let e = w.entry in
    let f = failed_entry (allow asked id b).0 ended reason (allow_entry e.state asked e).0 in
    let (o, k, _, _) =
      probe_entry (allow asked id b).0 asked ended reason e w.opened (ground (arith, w))
        (ground (arith, w, m)) (sym (answer-allow b asked id e w.found) ∙ g) in
    record {
      entry = f;
      found = lookup-probe_fails b asked ended reason id e w.found;
      opened = o;
      cooldown = ground (arith, k, m, w.cooldown);
      positive = ground (arith, w.positive, w.bounded);
      bounded = omega (
        arith,
        min_duration-le (c * 2) b.max_cooldown,
        max_cooldown-probe_fails b id (asked, ended, reason),
      );
    }

-- Doubling and capping one by one is doubling so often and capping once.
min_duration-capped :
    (a m k : ℕ) → 0 < k → min_duration (min_duration a m * k) m ≡ min_duration (a * k) m
min_duration-capped a m k h = elim (Bool-cases (ltb a m)) [
  | inl p ↦ rw p refl
  | inr p ↦
      (let over : m ≤ a = ground arith in
        let most : m ≤ m * k = grind arith in
        let more : m * k ≤ a * k = grind arith in rw p (ground (arith, most, more)))
]

pow-pos : (n : ℕ) → 0 < 2 ^ n
pow-pos zero = omega arith
pow-pos (suc n) = simp pow-suc (omega (arith, pow-pos n))

Waits-cast : (id : Text) (b : Breaker) {c d : ℕ} → c ≡ d → Waits id c b → Waits id d b
Waits-cast id b e w = rw e at w

-- While a destination is open, n probes that are let through and fail leave it open, with its wait
-- doubled n times but never above the largest wait.
pub cooldown_doubles :
    (b : Breaker) (id : Text) (c : ℕ) (ps : List Probe)
    → Waits id c b
    → AllGranted id ps b
    → Waits id (min_duration (c * 2 ^ length ps) b.max_cooldown) (probes_fail id ps b)
unfolding probes_fail
cooldown_doubles b id c [] w g = Waits-cast id b (ground (arith, w.bounded)) w
cooldown_doubles b id c (p ∷ ps) w g =
    let ih =
      cooldown_doubles (probe_fails id p b) id (doubled c b.max_cooldown) ps
        (probe_fails-Waits b id c p w g.0) g.1 in
    let n = length ps in
    let m = max_cooldown-probe_fails b id p in
    Waits-cast id (probes_fail id ps (probe_fails id p b))
      (ap (min_duration (doubled c b.max_cooldown * 2 ^ n)) m
        ∙ min_duration-capped (c * 2) b.max_cooldown (2 ^ n) (pow-pos n)
        ∙ ap (λ x. min_duration x b.max_cooldown)
            (mul_assoc c 2 (2 ^ n) ∙ ap (λ x. c * x) (sym (pow-succ' 2 n))))
      ih
