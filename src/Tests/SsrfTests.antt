-- ===== src/Tests/SsrfTests.antt =====
-- Addresses that are let through, and a host with two of them.
use status_hub.Prelude.{
  ◌≡◌, ◌↔◌, refl, ℕ, none, [], ◌∷◌, List, ◌⊎◌, inl, inr, arith, Text, codes, if◌then◌else◌, nat_eq,
}
use status_hub.Dispatch.Ssrf.{
  Addr, v4, v6, err_private, link_local, quad, check_addr, check_all, dial_context, dial_loop,
}
use status_hub.Dispatch.Ssrf.Ranges.{standard, special_v4, Outside, check_addr-Outside}
use status_hub.Dispatch.Ssrf.Zones.{check_addr-zoned}
use status_hub.Dispatch.Ssrf.Dialled.{IsGuarded, dial_context-IsGuarded}

abbrev dns : ℕ
dns = quad 8 8 8 8

abbrev first_address : Addr
first_address = v4 dns

abbrev second_address : Addr
second_address = v4 (quad 1 1 1 1)

abbrev metadata : Addr
metadata = v4 (quad 169 254 169 254)

abbrev host_port : Text → Text ⊎ (Text × Text)
host_port address = inr (codes "hooks.example", codes "443")

abbrev two_answers : Text → Text ⊎ List Addr
two_answers host = inr (first_address ∷ second_address ∷ [])

abbrev rebound : Text → Text ⊎ List Addr
rebound host = inr (first_address ∷ metadata ∷ [])

-- Only the second address answers; the connection is its number.
abbrev connect : Text → Addr → Text ⊎ ℕ
connect port (v4 n) = if nat_eq n dns then inl (codes "refused") else inr n
connect port _ = inl (codes "no route")

second_answers :
    dial_context standard host_port two_answers connect (codes "hooks.example:443")
    ≡ record { dialled = first_address ∷ second_address ∷ []; result = inr (quad 1 1 1 1) }
unfolding dial_context check_all check_addr dial_loop
second_answers = refl

metadata_refused :
    dial_context standard host_port rebound connect (codes "hooks.example:443")
    ≡ record { dialled = []; result = inl (err_private link_local metadata) }
unfolding dial_context check_all check_addr dial_loop
metadata_refused = refl

dial_context-IsGuarded_example :
    IsGuarded standard two_answers connect
      (dial_context standard host_port two_answers connect (codes "hooks.example:443"))
dial_context-IsGuarded_example =
    dial_context-IsGuarded standard host_port two_answers connect (codes "hooks.example:443")

check_addr-Outside_example : (check_addr standard (v4 dns) ≡ none) ↔ Outside dns special_v4
check_addr-Outside_example = check_addr-Outside dns (omega arith)

check_addr-zoned_example : check_addr standard (v6 0 (codes "x")) ≡ none
check_addr-zoned_example = check_addr-zoned standard b'x' []
