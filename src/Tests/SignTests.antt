-- ===== src/Tests/SignTests.antt =====
-- A header of two secrets.
use status_hub.Prelude.{
  ◌≡◌, refl, ℕ, zero, suc, ◌%◌, ◌*◌, ◌++◌, none, [], ◌∷◌, List, All, length, replicate,
  length-replicate, arith, Text, codes, pos, IsByte,
}
use status_hub.Domain.Config.{second}
use status_hub.Dispatch.Sign.{Mac, sign_with, verify_header}
use status_hub.Dispatch.Sign.RoundTrip.{IsSha256, verify_header-sign_with}
use status_hub.Dispatch.Sign.Accepted.{IsFresh, SameDigest, accepted_digest}

-- Not HMAC, but with digests of 32 bytes.
abbrev length_mac : Mac
length_mac secret message = replicate 32 (length (secret ++ message) % 256)

All-replicate : (n b : ℕ) → IsByte b → All IsByte (replicate n b)
All-replicate zero b h = tt
All-replicate (suc n) b h = (h, All-replicate n b h)

length_mac-IsSha256 : IsSha256 length_mac
length_mac-IsSha256 secret message = (
  length-replicate 32 (length (secret ++ message) % 256),
  All-replicate 32 (length (secret ++ message) % 256) (omega arith),
)

abbrev secrets : List Text
secrets = codes "new" ∷ codes "old" ∷ []

abbrev body : Text
body = codes "{}"

abbrev sent : ℕ
sent = 1700000000

abbrev clock : ℕ
clock = 1700000010 * second

verify_header-sign_with_example :
    verify_header length_mac
      (codes "old")
      body
      (sign_with length_mac secrets body (pos sent))
      clock
      (pos 0)
    ≡ none
verify_header-sign_with_example =
    verify_header-sign_with length_mac length_mac-IsSha256 body secrets 1 (codes "old") sent clock
      (pos 0) refl (omega arith) (omega arith) (omega arith) (omega arith) (omega arith)

accepted_digest_example :
    IsFresh clock (pos sent) (300 * second)
    × SameDigest length_mac length_mac-IsSha256 body body (pos sent) (codes "old") secrets
accepted_digest_example =
    accepted_digest length_mac length_mac-IsSha256 body body (pos sent) (codes "old") secrets clock
      (pos 0) (omega arith)
      (verify_header-sign_with length_mac length_mac-IsSha256 body secrets 1 (codes "old") sent
        clock (pos 0) refl (omega arith) (omega arith) (omega arith) (omega arith) (omega arith))
