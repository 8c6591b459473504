-- ===== src/Domain/Delivery.antt =====
-- internal/domain/delivery.go: one event's journey to one destination. Times are nanoseconds since
-- Go's zero time, and a text is its list of bytes. The counters are not bounded: no run of the
-- program makes 2^63 attempts.
mod Laws
use Prim.Native.Nat.{bit_xor}
use status_hub.Prelude.{
  ℕ, zero, suc, ◌*◌, ◌%◌, ◌^◌, ◌&&◌, Bool, true, false, Option, none, some, List, [], ◌∷◌, nat_eq,
  ltb, leb, ◌||◌, if◌then◌else◌, Text, ℤ, positive_or,
}

pub data DeliveryStatus : Type 0 where
  pending in_flight succeeded failed dead_letter : DeliveryStatus

unfoldable pub is_terminal : DeliveryStatus → Bool
is_terminal succeeded = true
is_terminal dead_letter = true
is_terminal _ = false

unfoldable pub is_in_flight : DeliveryStatus → Bool
is_in_flight in_flight = true
is_in_flight _ = false

pub record Delivery : Type 0 where
  pub id : ℕ
  pub tenant_id : Text
  pub event_id : Text
  pub destination_id : Text
  pub transaction_ref : Text
  pub shard : ℕ
  pub sequence : ℕ
  pub attempt : ℕ
  pub status : DeliveryStatus
  pub response_code : ℕ
  pub response_body : Text
  pub error : Text
  pub duration_ms : ℕ
  pub is_replay : Bool
  pub next_retry_at : ℕ
  pub created_at : ℕ
  pub updated_at : ℕ

abbrev pub default_shards : ℕ
default_shards = 64

-- hash/fnv's 32-bit FNV-1a.
unfoldable pub fnv32a : ℕ → Text → ℕ
fnv32a h [] = h
fnv32a h (b ∷ bs) = fnv32a ((bit_xor h b * 16777619) % 2 ^ 32) bs

unfoldable pub shard_for : Text → ℤ → ℕ
unfolding fnv32a
shard_for transaction_ref shards =
    fnv32a 2166136261 transaction_ref % (positive_or shards default_shards % 2 ^ 32)

unfoldable pub should_retry : ℕ → Bool
should_retry code =
    if nat_eq code 0
    then true
    else if nat_eq code 408 || nat_eq code 429
    then true
    else if leb 500 code
    then true
    else false

unfoldable pub is_success : ℕ → Bool
is_success code = leb 200 code && ltb code 300
