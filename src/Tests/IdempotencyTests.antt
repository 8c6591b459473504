-- ===== src/Tests/IdempotencyTests.antt =====
-- A server that counts the writes that it made.
use status_hub.Prelude.{
  ℕ, ◌+◌, ◌≡◌, refl, ap, true, false, ◌∷◌, [], List, none, some, replicate, length-replicate, arith,
  Text, text_Eq, text_eq, codes, lookup, insert, delete,
}
use status_hub.Idempotency.{
  IdempotencyRecord, Records, idempotency_key, claim, begin, Write, write_header, write,
  new_recorder, apply_writes, apply_write, apply_write_header, Request, World, record_for,
  finish_request, request_hash_of, abandon, claim_request, claim_with, start_request, run_started,
  idempotent,
}
use status_hub.Idempotency.Calls.{
  Call, begin_call, complete_call, sweep_call, apply_calls, begin-IsExclusive,
}
use status_hub.Idempotency.Replay.{finished, idempotent-replays, idempotent-loses}

abbrev world : World Text
world = record { sha256_hex = λ t. t; unmarshal = λ _. none; marshal = some }

abbrev creation : Request
creation = record {
  method = codes "POST";
  path = codes "/v1/endpoints";
  key = codes "k1";
  identity = some (codes "t1");
  body = some (codes "{}");
}

abbrev created : List Write
created = write_header 201 ∷ write (codes "{id:") ∷ write (codes "7}") ∷ []

abbrev create : Request → ℕ → ℕ × List Write
create req n = (n + 1, created)

abbrev refuse : Request → ℕ → ℕ × List Write
refuse req n = (n, write_header 500 ∷ [])

-- A failure is not kept, so the retry runs.
failure_forgotten : (idempotent world refuse 10 creation (4, [])).0 ≡ (4, [])
unfolding start_request run_started claim_with claim_request begin finish_request apply_writes
    apply_write_header abandon lookup insert delete text_eq idempotency_key
failure_forgotten = refl

abbrev hash : Text
hash = request_hash_of world creation (codes "{}")

abbrev mine : IdempotencyRecord
mine = record_for world creation (codes "t1") hash

abbrev other : IdempotencyRecord
other = record_for world (record creation { key = codes "k2" }) (codes "t1") hash

abbrev between : List Call
between = begin_call 20 other ∷ complete_call (codes "k2") (codes "t1") 200 [] ∷ sweep_call 30 ∷ []

other_key :
    idempotency_key (codes "t1") (codes "k2") ≡ idempotency_key (codes "t1") (codes "k1") → ⊥
unfolding idempotency_key text_eq
other_key e = absurd (clash (ap (text_eq (codes "t1|k1")) e))
  where
    clash : false ≡ true → ⊥
    clash h = cc

begin-IsExclusive_example :
    begin 40 mine (apply_calls between (begin 10 mine []).0)
    ≡ (apply_calls between (begin 10 mine []).0, some (claim 10 mine))
unfolding begin lookup
begin-IsExclusive_example =
    begin-IsExclusive 10 40 mine mine between [] refl refl
      (omega arith, (other_key, (omega arith, tt))) (omega arith)

idempotent-replays_example :
    idempotent world create 40 creation
      (5, finished world creation 10 [] (codes "t1") created between [])
    ≡ (
      (5, finished world creation 10 [] (codes "t1") created between []),
      record { status = 201; error = []; body = codes "{id:7}"; replayed = true; retry_after = [] },
    )
unfolding start_request claim_with claim_request begin lookup text_eq apply_writes
    apply_write_header apply_write
idempotent-replays_example =
    idempotent-replays world creation 10 [] (codes "t1") (codes "{}") created between [] refl
      (omega arith, (other_key, (omega arith, tt))) tt create 5 40 refl (omega arith) (omega arith)

abbrev large : Text
large = replicate 70000 b'x'

abbrev lost : Records
lost =
    finish_request creation (codes "t1")
      (apply_writes (write_header 200 ∷ write large ∷ []) new_recorder)
      (start_request world 10 creation []).0

idempotent-loses_example :
    idempotent world create 40 creation (5, lost)
    ≡ ((5, lost), record { status = 200; error = []; body = []; replayed = true; retry_after = [] })
unfolding start_request claim_with claim_request begin lookup text_eq
idempotent-loses_example =
    idempotent-loses world creation 10 40 [] (codes "t1") (codes "{}") large 200 create 5 refl refl
      (omega (arith, length-replicate {A = ℕ} 70000 b'x')) (omega arith)
