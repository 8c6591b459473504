-- ===== src/Idempotency/Keys.antt =====
-- internal/api/idempotency.go: the in-memory store of idempotency keys.
use status_hub.Prelude.{
  ℕ, ◌+◌, ◌-◌, ◌*◌, ◌^◌, Bool, true, false, ◌++◌, ◌∷◌, [], length, Option, none, some,
  if◌then◌else◌, ltb, leb, Text, text_Eq, Dict, lookup, insert, delete,
}

-- 24 hours.
abbrev pub idempotency_window : ℕ
idempotency_window = 24 * 3600 * 10 ^ 9

abbrev pub max_recorded_body : ℕ
max_recorded_body = 65536

pub record IdempotencyRecord : Type 0 where
  pub key : Text
  pub tenant_id : Text
  pub method : Text
  pub path : Text
  pub request_hash : Text
  pub status : ℕ
  pub body : Text
  pub replayed : Bool
  pub in_flight : Bool
  pub created_at : ℕ

abbrev pub Records : Type 0
Records = Dict Text IdempotencyRecord

unfoldable pub idempotency_key : Text → Text → Text
idempotency_key tenant_id key = tenant_id ++ (b'|' ∷ key)

abbrev pub record_key : IdempotencyRecord → Text
record_key r = idempotency_key r.tenant_id r.key

unfoldable pub claim : ℕ → IdempotencyRecord → IdempotencyRecord
claim now r = record r { in_flight = true; created_at = now }

abbrev pub is_remembered : ℕ → IdempotencyRecord → Bool
is_remembered now r = ltb (now - r.created_at) idempotency_window

-- Begin, with the record that the key has already.
unfoldable pub begin : ℕ → IdempotencyRecord → Records → Records × Option IdempotencyRecord
begin now r s = elim (lookup (record_key r) s) [
  | none ↦ (insert (record_key r) (claim now r) s, none)
  | some existing ↦
      if is_remembered now existing
      then (s, some existing)
      else (insert (record_key r) (claim now r) (delete (record_key r) s), none)
]

unfoldable pub completed : ℕ → Text → IdempotencyRecord → IdempotencyRecord
completed status body r = record r {
  in_flight = false;
  status = status;
  body = if leb (length body) max_recorded_body then body else r.body;
}

-- `none` is the error for a key that nothing has claimed.
unfoldable pub complete : Text → Text → ℕ → Text → Records → Option Records
complete key tenant_id status body s = elim (lookup (idempotency_key tenant_id key) s) [
  | none ↦ none
  | some r ↦ some (insert (idempotency_key tenant_id key) (completed status body r) s)
]

unfoldable pub abandon : Text → Text → Records → Records
abandon key tenant_id s = delete (idempotency_key tenant_id key) s

-- The loop of Sweep, with the number of the records that it removes.
unfoldable pub sweep_loop : ℕ → Records → Records × ℕ
sweep_loop cutoff [] = ([], 0)
sweep_loop cutoff ((k, r) ∷ s) =
    let (kept, removed) = sweep_loop cutoff s in
    if ltb r.created_at cutoff then (kept, removed + 1) else ((k, r) ∷ kept, removed)

unfoldable pub sweep : ℕ → Records → Records × ℕ
sweep now s = sweep_loop (now - idempotency_window) s
