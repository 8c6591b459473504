-- ===== src/Dispatch/Ssrf/Dialled.antt =====
-- internal/dispatch/ssrf.go: what DialContext connects to.
use status_hub.Prelude.{
  ◌≡◌, refl, ap, List, [], ◌∷◌, All, length, take, Option, none, some, ◌⊎◌, inl, inr, Option-cases,
  Text,
}
use status_hub.Dispatch.Ssrf.{
  Addr, Guard, GuardError, Resolver, Dial, check_addr, check_all, dial_round, dial_loop,
  dial_checked, dial_answers, dial_split, dial_context, refused, err_dial, err_no_address,
  err_bad_address,
}

-- An address that the guard lets through.
abbrev pub Passes : Guard → Addr → Type 0
Passes g a = check_addr g a ≡ none

check_all-All : (g : Guard) (addrs : List Addr) → check_all g addrs ≡ none → All (Passes g) addrs
unfolding check_all
check_all-All g [] q = tt
check_all-All g (a ∷ addrs) q = elim (Option-cases (check_addr g a)) [
  | inl p ↦ (p, check_all-All g addrs (rw (check_all, p) at q))
  | inr (err, p) ↦ absurd (failed err (rw (check_all, p) at q))
]
  where
    failed : (err : GuardError) → some err ≡ none → ⊥
    failed err k = cc

-- The connection goes through a dial of such an address.
abbrev Connected {ℓ} :
    {Conn : Type ℓ} → (Addr → Text ⊎ Conn) → (Addr → Type 0) → GuardError ⊎ Conn → Type ℓ
Connected dial P (inl _) = Unit
Connected dial P (inr conn) = (a : Addr) × P a × (dial a ≡ inr conn)

-- Only addresses with the property are dialled, in the order of the answers from the first on, and a
-- connection is to one of them.
unfoldable pub IsLoop {ℓ} :
    {Conn : Type ℓ} → (Addr → Text ⊎ Conn) → (Addr → Type 0) → List Addr → Dial Conn → Type ℓ
IsLoop dial P addrs d =
    All P d.dialled × (d.dialled ≡ take (length d.dialled) addrs) × Connected dial P d.result

module _ {ℓ} {Conn : Type ℓ} (dial : Addr → Text ⊎ Conn) (P : Addr → Type 0) where
  dial_round-IsLoop :
      (a : Addr) (addrs : List Addr) (later : Text → Dial Conn) (answer : Text ⊎ Conn)
      → dial a ≡ answer
      → P a
      → ((err : Text) → IsLoop dial P addrs (later err))
      → IsLoop dial P (a ∷ addrs) (dial_round a later answer)
  unfolding IsLoop
  dial_round-IsLoop a addrs later (inr conn) q p h = ((p, tt), refl, (a, p, q))
  dial_round-IsLoop a addrs later (inl err) q p h =
      ((p, (h err).0), ap (λ ds. a ∷ ds) (h err).1, (h err).2)

  dial_loop-IsLoop :
      (last : GuardError) (addrs : List Addr)
      → All P addrs
      → IsLoop dial P addrs (dial_loop dial last addrs)
  unfolding dial_loop IsLoop
  dial_loop-IsLoop last [] all = (tt, refl, tt)
  dial_loop-IsLoop last (a ∷ addrs) all =
      dial_round-IsLoop a addrs (λ err. dial_loop dial (err_dial err) addrs) (dial a) refl all.0
        (λ err. dial_loop-IsLoop (err_dial err) addrs all.1)

-- Either no connection is tried and there is an error, or each answer of the resolver passes and
-- only answers are dialled.
unfoldable pub IsGuarded {ℓ} :
    {Conn : Type ℓ} → Guard → Resolver → (Text → Addr → Text ⊎ Conn) → Dial Conn → Type ℓ
IsGuarded g look_up dial d =
    ((err : GuardError) × (d ≡ refused err))
    ⊎ ((host port : Text) × (addrs : List Addr) × (look_up host ≡ inr addrs)
        × All (Passes g) addrs
        × IsLoop (dial port) (Passes g) addrs d)

module _ {ℓ} {Conn : Type ℓ} (g : Guard) (look_up : Resolver)
    (dial : Text → Addr → Text ⊎ Conn) where
  dial_checked-IsGuarded :
      (host port : Text) (addrs : List Addr) (answer : Option GuardError)
      → look_up host ≡ inr addrs
      → check_all g addrs ≡ answer
      → IsGuarded g look_up dial (dial_checked host (dial port) addrs answer)
  unfolding IsGuarded
  dial_checked-IsGuarded host port addrs (some err) q p = inl (err, refl)
  dial_checked-IsGuarded host port addrs none q p =
      let all = check_all-All g addrs p in
      inr (
        host,
        port,
        addrs,
        q,
        all,
        dial_loop-IsLoop (dial port) (Passes g) (err_no_address host) addrs all,
      )

  dial_answers-IsGuarded :
      (host port : Text) (answer : Text ⊎ List Addr)
      → look_up host ≡ answer
      → IsGuarded g look_up dial (dial_answers g host (dial port) answer)
  unfolding IsGuarded
  dial_answers-IsGuarded host port (inl err) q = inl (err_no_address host, refl)
  dial_answers-IsGuarded host port (inr addrs) q =
      dial_checked-IsGuarded host port addrs (check_all g addrs) q refl

  dial_split-IsGuarded :
      (answer : Text ⊎ (Text × Text)) → IsGuarded g look_up dial (dial_split g look_up dial answer)
  unfolding IsGuarded
  dial_split-IsGuarded (inl err) = inl (err_bad_address err, refl)
  dial_split-IsGuarded (inr (host, port)) = dial_answers-IsGuarded host port (look_up host) refl

-- Whatever the resolver answers at the time of the delivery, DialContext either tries no connection and
-- returns an error, or every address of the answer passes CheckAddr; then it dials only addresses
-- of the answer, in its order from the first on, and the connection it returns is a dial of one of
-- them.
pub dial_context-IsGuarded {ℓ} :
    {Conn : Type ℓ} (g : Guard) (split : Text → Text ⊎ (Text × Text)) (look_up : Resolver)
    (dial : Text → Addr → Text ⊎ Conn) (address : Text)
    → IsGuarded g look_up dial (dial_context g split look_up dial address)
unfolding dial_context
dial_context-IsGuarded g split look_up dial address =
    dial_split-IsGuarded g look_up dial (split address)
