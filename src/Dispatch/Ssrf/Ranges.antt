-- ===== src/Dispatch/Ssrf/Ranges.antt =====
-- internal/dispatch/ssrf.go: the addresses that CheckAddr lets through, as intervals.
use status_hub.Prelude.{
  ◌≡◌, refl, ◌↔◌, ℕ, ◌^◌, ◌<◌, List, [], ◌∷◌, Bool, false, ◌&&◌, ◌||◌, none, leb, arith,
  if◌then◌else◌, Option, some,
}
use status_hub.Dispatch.Ssrf.{
  v4, Guard, check_addr, prefix4, prefix_contains, is_loopback, is_private, is_link_local_unicast,
  is_link_local_multicast, is_unspecified, is_multicast, quad,
}

-- The blocks of the registry of special-purpose addresses, the multicast and the reserved ones, in
-- the order of the numbers: the first and the last address of each.
abbrev pub special_v4 : List (ℕ × ℕ)
special_v4 =
    (quad 0 0 0 0, quad 0 255 255 255)
    ∷ (quad 10 0 0 0, quad 10 255 255 255)
    ∷ (quad 100 64 0 0, quad 100 127 255 255)
    ∷ (quad 127 0 0 0, quad 127 255 255 255)
    ∷ (quad 169 254 0 0, quad 169 254 255 255)
    ∷ (quad 172 16 0 0, quad 172 31 255 255)
    ∷ (quad 192 0 0 0, quad 192 0 0 255)
    ∷ (quad 192 0 2 0, quad 192 0 2 255)
    ∷ (quad 192 88 99 0, quad 192 88 99 255)
    ∷ (quad 192 168 0 0, quad 192 168 255 255)
    ∷ (quad 198 18 0 0, quad 198 19 255 255)
    ∷ (quad 198 51 100 0, quad 198 51 100 255)
    ∷ (quad 203 0 113 0, quad 203 0 113 255)
    ∷ (quad 224 0 0 0, quad 255 255 255 255)
    ∷ []

abbrev pub Outside : ℕ → List (ℕ × ℕ) → Type 0
Outside n [] = Unit
Outside n ((lo, hi) ∷ blocks) = ((leb lo n && leb n hi) ≡ false) × Outside n blocks

abbrev pub standard : Guard
standard = record { extra_blocked = []; allow_private = false }

module _ {A : Type 0} where
  skip :
      (b : Bool) (x : A) (rest : Option A)
      → b ≡ false
      → rest ≡ none
      → (if b then some x else rest) ≡ none
  skip b x rest p h = rw (p) h

passes-Outside : (n : ℕ) → n < 2 ^ 32 → check_addr standard (v4 n) ≡ none → Outside n special_v4
unfolding check_addr
passes-Outside n h q = (
  ground arith,
  (
    ground arith,
    (
      ground arith,
      (
        ground arith,
        (
          ground arith,
          (
            ground arith,
            (
              ground arith,
              (
                ground arith,
                (
                  ground arith,
                  (
                    ground arith,
                    (ground arith, (ground arith, (ground arith, (ground arith, tt)))),
                  ),
                ),
              ),
            ),
          ),
        ),
      ),
    ),
  ),
)

Outside-passes : (n : ℕ) → n < 2 ^ 32 → Outside n special_v4 → check_addr standard (v4 n) ≡ none
unfolding check_addr
Outside-passes n h o = skip (is_loopback (v4 n)) _ _ (ground (arith, o.1.1.1.0)) (
    skip (is_private (v4 n)) _ _ (ground (arith, o.1.0, o.1.1.1.1.1.0, o.1.1.1.1.1.1.1.1.1.0)) (
      skip (is_link_local_unicast (v4 n) || is_link_local_multicast (v4 n)) _ _
        (ground (arith, o.1.1.1.1.0, o.1.1.1.1.1.1.1.1.1.1.1.1.1.0))
        (skip (is_unspecified (v4 n)) _ _ (ground (arith, o.0)) (
          skip (is_multicast (v4 n)) _ _ (ground (arith, o.1.1.1.1.1.1.1.1.1.1.1.1.1.0)) (
            skip (prefix_contains (prefix4 (quad 0 0 0 0) 8) (v4 n)) _ _ (ground (arith, o.0)) (
              skip (prefix_contains (prefix4 (quad 100 64 0 0) 10) (v4 n)) _ _
                (ground (arith, o.1.1.0))
                (skip (prefix_contains (prefix4 (quad 192 0 0 0) 24) (v4 n)) _ _
                  (ground (arith, o.1.1.1.1.1.1.0))
                  (skip (prefix_contains (prefix4 (quad 192 0 2 0) 24) (v4 n)) _ _
                    (ground (arith, o.1.1.1.1.1.1.1.0))
                    (skip (prefix_contains (prefix4 (quad 192 88 99 0) 24) (v4 n)) _ _
                      (ground (arith, o.1.1.1.1.1.1.1.1.0))
                      (skip (prefix_contains (prefix4 (quad 198 18 0 0) 15) (v4 n)) _ _
                        (ground (arith, o.1.1.1.1.1.1.1.1.1.1.0))
                        (skip (prefix_contains (prefix4 (quad 198 51 100 0) 24) (v4 n)) _ _
                          (ground (arith, o.1.1.1.1.1.1.1.1.1.1.1.0))
                          (skip (prefix_contains (prefix4 (quad 203 0 113 0) 24) (v4 n)) _ _
                            (ground (arith, o.1.1.1.1.1.1.1.1.1.1.1.1.0))
                            (skip (prefix_contains (prefix4 (quad 240 0 0 0) 4) (v4 n)) _ _
                              (ground (arith, o.1.1.1.1.1.1.1.1.1.1.1.1.1.0))
                              (skip (prefix_contains (prefix4 (quad 255 255 255 255) 32) (v4 n)) _ _
                                (ground (arith, o.1.1.1.1.1.1.1.1.1.1.1.1.1.0)) (refl)))))))))))))))

-- A guard without ranges of its own lets an IPv4 address through exactly where it lies outside of each
-- block of the table.
pub check_addr-Outside :
    (n : ℕ) → n < 2 ^ 32 → (check_addr standard (v4 n) ≡ none) ↔ Outside n special_v4
check_addr-Outside n h = (passes-Outside n h, Outside-passes n h)
