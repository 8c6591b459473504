-- ===== src/Dispatch/Ssrf/Zones.antt =====
-- internal/dispatch/ssrf.go: addresses that spell another address, or that carry a zone.
use status_hub.Prelude.{
  ◌≡◌, refl, ℕ, ◌+◌, ◌*◌, ◌/◌, ◌%◌, ◌^◌, ◌<◌, List, [], ◌∷◌, ◌++◌, Bool, true, false, none, nat_eq,
  arith, Text, text_eq, if◌then◌else◌,
}
use status_hub.Dispatch.Ssrf.{
  v4, v6, Guard, check_addr, blocked_by, universally_blocked, Prefix, prefix4, prefix6,
}

-- ::ffff:a.b.c.d, with whatever zone, is judged as a.b.c.d, by every guard.
pub check_addr-mapped :
    (g : Guard) (n : ℕ) (zone : Text)
    → n < 2 ^ 32
    → check_addr g (v6 (0xffff * 2 ^ 32 + n) zone) ≡ check_addr g (v4 n)
unfolding check_addr
check_addr-mapped g n zone h = rw (mapped, low) refl
  where
    mapped : nat_eq ((0xffff * 2 ^ 32 + n) / 2 ^ 32) 0xffff ≡ true
    mapped = ground arith

    low : (0xffff * 2 ^ 32 + n) % 2 ^ 32 ≡ n
    low = omega arith

blocked_by-zoned :
    (ps : List Prefix) (n c : ℕ) (zone : Text) → blocked_by ps (v6 n (c ∷ zone)) ≡ none
unfolding text_eq
blocked_by-zoned [] n c zone = refl
blocked_by-zoned (prefix4 base bits ∷ ps) n c zone = blocked_by-zoned ps n c zone
blocked_by-zoned (prefix6 base bits ∷ ps) n c zone = blocked_by-zoned ps n c zone

-- [::] with a zone passes every guard, whatever ranges it has.
pub check_addr-zoned : (g : Guard) (c : ℕ) (zone : Text) → check_addr g (v6 0 (c ∷ zone)) ≡ none
unfolding check_addr text_eq
check_addr-zoned g c zone = allowed g.allow_private
  where
    allowed :
        (b : Bool)
        → (if b
            then none
            else blocked_by (g.extra_blocked ++ universally_blocked) (v6 0 (c ∷ zone)))
          ≡ none
    allowed true = refl
    allowed false = blocked_by-zoned (g.extra_blocked ++ universally_blocked) 0 c zone
