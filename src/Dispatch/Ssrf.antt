-- ===== src/Dispatch/Ssrf.antt =====
-- internal/dispatch/ssrf.go: which addresses a delivery may be sent to. What package netip knows of
-- an address is written out below; the parsers of URLs, addresses and prefixes, the resolver and
-- the dialler are arguments.
pub mod Dialled
pub mod Ranges
pub mod Zones
use status_hub.Prelude.{
  ℕ, zero, suc, ◌+◌, ◌-◌, ◌*◌, ◌/◌, ◌%◌, ◌^◌, Bool, true, false, not, ◌&&◌, ◌||◌, List, [], ◌∷◌,
  ◌++◌, Option, none, some, ◌⊎◌, inl, inr, ◌==◌, nat_eq, if◌then◌else◌, Text, text_Eq, codes,
  length,
}
use status_hub.Domain.Amount.{trim_space}

-- netip.Addr: the zero value, or a number of 32 or of 128 bits; [] is no zone.
pub data Addr : Type 0 where
  no_addr : Addr
  v4 : ℕ → Addr
  v6 : ℕ → Text → Addr

-- ::ffff:a.b.c.d becomes a.b.c.d, and loses its zone.
abbrev pub unmap_addr : Addr → Addr
unmap_addr no_addr = no_addr
unmap_addr (v4 n) = v4 n
unmap_addr (v6 n zone) = if nat_eq (n / 2 ^ 32) 0xffff then v4 (n % 2 ^ 32) else v6 n zone

abbrev pub is_valid : Addr → Bool
is_valid no_addr = false
is_valid (v4 _) = true
is_valid (v6 _ _) = true

abbrev pub is_loopback : Addr → Bool
is_loopback no_addr = false
is_loopback (v4 n) = nat_eq (n / 2 ^ 24) 127
is_loopback (v6 n zone) = nat_eq n 1

abbrev pub is_private : Addr → Bool
is_private no_addr = false
is_private (v4 n) = nat_eq (n / 2 ^ 24) 10 || nat_eq (n / 2 ^ 20) 2753 || nat_eq (n / 2 ^ 16) 49320
is_private (v6 n zone) = nat_eq (n / 2 ^ 121) 0x7e

abbrev pub is_link_local_unicast : Addr → Bool
is_link_local_unicast no_addr = false
is_link_local_unicast (v4 n) = nat_eq (n / 2 ^ 16) 43518
is_link_local_unicast (v6 n zone) = nat_eq (n / 2 ^ 118) 0x3fa

-- The low four bits of the second byte are the scope.
abbrev pub has_scope : ℕ → ℕ → Bool
has_scope scope n = nat_eq (n / 2 ^ 120) 0xff && nat_eq ((n / 2 ^ 112) % 16) scope

abbrev pub is_link_local_multicast : Addr → Bool
is_link_local_multicast no_addr = false
is_link_local_multicast (v4 n) = nat_eq (n / 2 ^ 8) 14680064
is_link_local_multicast (v6 n zone) = has_scope 2 n

-- Go compares the whole address, its zone included.
abbrev pub is_unspecified : Addr → Bool
is_unspecified no_addr = false
is_unspecified (v4 n) = nat_eq n 0
is_unspecified (v6 n zone) = nat_eq n 0 && (zone == [])

abbrev pub is_multicast : Addr → Bool
is_multicast no_addr = false
is_multicast (v4 n) = nat_eq (n / 2 ^ 28) 14
is_multicast (v6 n zone) = nat_eq (n / 2 ^ 120) 0xff

abbrev pub is_interface_local_multicast : Addr → Bool
is_interface_local_multicast (v6 n zone) = has_scope 1 n
is_interface_local_multicast _ = false

-- netip.Prefix: the number, without its zone, and the length.
pub data Prefix : Type 0 where
  prefix4 : ℕ → ℕ → Prefix
  prefix6 : ℕ → ℕ → Prefix

-- An address with a zone is in no prefix.
abbrev pub prefix_contains : Prefix → Addr → Bool
prefix_contains (prefix4 base bits) (v4 n) = nat_eq (n / 2 ^ (32 - bits)) (base / 2 ^ (32 - bits))
prefix_contains (prefix6 base bits) (v6 n zone) =
    (zone == []) && nat_eq (n / 2 ^ (128 - bits)) (base / 2 ^ (128 - bits))
prefix_contains _ _ = false

abbrev pub quad : ℕ → ℕ → ℕ → ℕ → ℕ
quad a b c d = ((a * 256 + b) * 256 + c) * 256 + d

abbrev pub universally_blocked : List Prefix
universally_blocked =
    prefix4 (quad 0 0 0 0) 8
    ∷ prefix4 (quad 100 64 0 0) 10
    ∷ prefix4 (quad 192 0 0 0) 24
    ∷ prefix4 (quad 192 0 2 0) 24
    ∷ prefix4 (quad 192 88 99 0) 24
    ∷ prefix4 (quad 198 18 0 0) 15
    ∷ prefix4 (quad 198 51 100 0) 24
    ∷ prefix4 (quad 203 0 113 0) 24
    ∷ prefix4 (quad 240 0 0 0) 4
    ∷ prefix4 (quad 255 255 255 255) 32
    ∷ prefix6 0 128
    ∷ prefix6 (0x64ff9b * 2 ^ 96) 96
    ∷ prefix6 (0x100 * 2 ^ 112) 64
    ∷ prefix6 (0x20010db8 * 2 ^ 96) 32
    ∷ prefix6 (0xfc * 2 ^ 120) 7
    ∷ []

pub record Guard : Type 0 where
  pub extra_blocked : List Prefix
  pub allow_private : Bool

-- Why an address is not publicly routable.
pub data Reason : Type 0 where
  invalid_address loopback private_range link_local unspecified multicast : Reason
  interface_local : Reason
  blocked_range : Prefix → Reason

-- The errors: err_private wraps ErrPrivateAddress, and err_no_address ErrNoAddress with the host.
pub data GuardError : Type 0 where
  err_not_https err_no_host : GuardError
  err_bad_url err_no_address err_bad_address err_dial : Text → GuardError
  err_bad_cidr : Text → GuardError
  err_private : Reason → Addr → GuardError

abbrev pub blocked_by : List Prefix → Addr → Option GuardError
blocked_by [] a = none
blocked_by (p ∷ ps) a =
    let later = blocked_by ps a in
    if prefix_contains p a then some (err_private (blocked_range p) a) else later

-- The switch, and the loop over the ranges.
abbrev check_unmapped : Guard → Addr → Option GuardError
check_unmapped g a =
    if is_loopback a
    then some (err_private loopback a)
    else if is_private a
    then some (err_private private_range a)
    else if is_link_local_unicast a || is_link_local_multicast a
    then some (err_private link_local a)
    else if is_unspecified a
    then some (err_private unspecified a)
    else if is_multicast a
    then some (err_private multicast a)
    else if is_interface_local_multicast a
    then some (err_private interface_local a)
    else blocked_by (g.extra_blocked ++ universally_blocked) a

-- `none` is no error.
unfoldable pub check_addr : Guard → Addr → Option GuardError
check_addr g a =
    if g.allow_private
    then none
    else if not (is_valid a)
    then some (err_private invalid_address a)
    else check_unmapped g (unmap_addr a)

-- Every answer must pass; the first that does not is reported.
unfoldable pub check_all : Guard → List Addr → Option GuardError
check_all g [] = none
check_all g (a ∷ addrs) = elim (check_addr g a) [ some err ↦ some err | none ↦ check_all g addrs ]

-- NewGuard, with the parser of prefixes.
unfoldable pub new_guard :
    (Text → Option Prefix) → List Text → Bool → List Prefix → GuardError ⊎ Guard
new_guard parse_prefix [] allow_private extra =
    inr (record { extra_blocked = extra; allow_private = allow_private })
new_guard parse_prefix (c ∷ cidrs) allow_private extra = elim (parse_prefix (trim_space c)) [
  | none ↦ inl (err_bad_cidr c)
  | some p ↦ new_guard parse_prefix cidrs allow_private (extra ++ p ∷ [])
]

pub record Url : Type 0 where
  pub scheme : Text
  pub hostname : Text

-- The answer of LookupNetIP: an error, or the addresses.
abbrev pub Resolver : Type 0
Resolver = Text → Text ⊎ List Addr

abbrev check_answers : Guard → Text → Text ⊎ List Addr → Option GuardError
check_answers g host (inl _) = some (err_no_address host)
check_answers g host (inr []) = some (err_no_address host)
check_answers g host (inr (a ∷ addrs)) = check_all g (a ∷ addrs)

abbrev check_host : Guard → Resolver → Text → Option Addr → Option GuardError
check_host g look_up host (some addr) = check_addr g addr
check_host g look_up host none = check_answers g host (look_up host)

unfoldable pub check_url :
    Guard → (Text → Text ⊎ Url) → (Text → Option Addr) → Resolver → Text → Option GuardError
check_url g parse_url parse_addr look_up raw = elim (parse_url raw) [
  | inl _ ↦ some (err_bad_url raw)
  | inr u ↦
      if not (u.scheme == codes "https")
      then some err_not_https
      else if u.hostname == []
      then some err_no_host
      else check_host g look_up u.hostname (parse_addr u.hostname)
]

-- What a call of the hook does: the addresses it dials, in their order, and its result.
pub record Dial {ℓ} (Conn : Type ℓ) : Type ℓ where
  pub dialled : List Addr
  pub result : GuardError ⊎ Conn

module _ {ℓ} {Conn : Type ℓ} where
  -- One round of the second loop: the first address that answers ends it.
  abbrev pub dial_round : Addr → (Text → Dial Conn) → Text ⊎ Conn → Dial Conn
  dial_round a later (inr conn) = record { dialled = a ∷ []; result = inr conn }
  dial_round a later (inl err) = record {
    dialled = a ∷ (later err).dialled;
    result = (later err).result;
  }

  -- The second loop; `last` is what `lastErr` makes of the end.
  unfoldable pub dial_loop : (Addr → Text ⊎ Conn) → GuardError → List Addr → Dial Conn
  dial_loop dial last [] = record { dialled = []; result = inl last }
  dial_loop dial last (a ∷ addrs) =
      dial_round a (λ err. dial_loop dial (err_dial err) addrs) (dial a)

  abbrev pub refused : GuardError → Dial Conn
  refused err = record { dialled = []; result = inl err }

  -- The second loop runs when the first has found no error.
  abbrev pub dial_checked : Text → (Addr → Text ⊎ Conn) → List Addr → Option GuardError → Dial Conn
  dial_checked host dial addrs (some err) = refused err
  dial_checked host dial addrs none = dial_loop dial (err_no_address host) addrs

  abbrev pub dial_answers : Guard → Text → (Addr → Text ⊎ Conn) → Text ⊎ List Addr → Dial Conn
  dial_answers g host dial (inl _) = refused (err_no_address host)
  dial_answers g host dial (inr addrs) = dial_checked host dial addrs (check_all g addrs)

  abbrev pub dial_split :
      Guard → Resolver → (Text → Addr → Text ⊎ Conn) → Text ⊎ (Text × Text) → Dial Conn
  dial_split g look_up dial (inl err) = refused (err_bad_address err)
  dial_split g look_up dial (inr (host, port)) = dial_answers g host (dial port) (look_up host)

  -- DialContext, with the splitter of host and port; the port goes into `dial`.
  unfoldable pub dial_context :
      Guard
      → (Text → Text ⊎ (Text × Text))
      → Resolver
      → (Text → Addr → Text ⊎ Conn)
      → Text
      → Dial Conn
  dial_context g split look_up dial address = dial_split g look_up dial (split address)
