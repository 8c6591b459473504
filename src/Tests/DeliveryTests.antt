-- ===== src/Tests/DeliveryTests.antt =====
-- A queue of two deliveries of one transaction, and a third of another.
use status_hub.Prelude.{
  ◌≡◌, refl, false, some, [], ◌∷◌, arith, text_eq, text_Eq, nat_Eq, codes, pos, lookup, insert,
  delete, All,
}
use status_hub.Domain.Delivery.{Delivery, pending, failed, is_in_flight, is_terminal}
use status_hub.Store.Memory.{Memory, new_memory}
use status_hub.Store.Deliveries.{
  key_of, is_blocking, lease_out, claim_due, enqueue_delivery, complete_delivery, claim_loop,
  sort_deliveries, candidates, is_candidate, insert_sorted, before, contains_key, blocked_keys,
  take_one, enqueued_ref, lease_after, lease_before, ref_for,
}
use status_hub.Store.Deliveries.Exclusive.{OneInFlight}
use status_hub.Store.Deliveries.Workers.{
  starts, waits, enqueues, claims, completes, Reached-OneInFlight,
}
use status_hub.Store.Deliveries.Order.{IsClaimed, claim_due-IsClaimed}
use status_hub.Store.Deliveries.Overtaking.{claim_due_overtakes}

abbrev queued : Delivery
queued = record {
  id = 1;
  tenant_id = codes "t";
  event_id = codes "e1";
  destination_id = codes "d";
  transaction_ref = codes "r";
  shard = 3;
  sequence = 1;
  attempt = 0;
  status = pending;
  response_code = 0;
  response_body = [];
  error = [];
  duration_ms = 0;
  is_replay = false;
  next_retry_at = 0;
  created_at = 5;
  updated_at = 5;
}

abbrev waiting : Delivery
waiting = record queued { attempt = 1; status = failed; next_retry_at = 100 }

abbrev behind : Delivery
behind = record queued { id = 2; event_id = codes "e2"; sequence = 2 }

abbrev pair : Memory
pair = record new_memory { deliveries = (1, waiting) ∷ (2, behind) ∷ []; delivery_ids = 2 }

-- Two deliveries of one transaction are queued at 5; one is claimed, and at 9, before its attempt is
-- over, another worker finds nothing; at 20 the outcome is recorded, and the second is claimed.
abbrev two_queued : Memory
two_queued = (enqueue_delivery 5 queued (enqueue_delivery 5 queued new_memory).0).0

abbrev two_claims : Memory
two_claims = (claim_due 3 9 (pos 8) (pos 60) (claim_due 3 5 (pos 8) (pos 60) two_queued).0).0

abbrev handed_on : Memory
handed_on = (claim_due 3 20 (pos 8) (pos 60) (complete_delivery 20 waiting two_claims).0).0

second_waits : (claim_due 3 9 (pos 8) (pos 60) (claim_due 3 5 (pos 8) (pos 60) two_queued).0).1 ≡ []
unfolding claim_due claim_loop sort_deliveries candidates enqueue_delivery insert is_candidate
    is_terminal is_in_flight insert_sorted before contains_key blocked_keys is_blocking take_one
    text_eq key_of lookup enqueued_ref lease_after lease_before lease_out ref_for
second_waits = refl

second_is_claimed : lookup 2 handed_on.leases ≡ some 80
unfolding claim_due claim_loop sort_deliveries candidates enqueue_delivery insert is_candidate
    is_terminal is_in_flight insert_sorted before contains_key blocked_keys is_blocking take_one
    text_eq key_of lookup enqueued_ref lease_after lease_before lease_out ref_for complete_delivery
    delete
second_is_claimed = refl

Reached-OneInFlight_example : OneInFlight 20 handed_on
unfolding is_in_flight
Reached-OneInFlight_example = Reached-OneInFlight (
    claims 3 (pos 8) (pos 60) (
      completes waiting refl (
        waits 20 (ground arith) (
          claims 3 (pos 8) (pos 60) (
            waits 9 (ground arith) (
              claims 3 (pos 8) (pos 60)
                (enqueues queued refl (enqueues queued refl (starts 5)))))))))

claim_due_overtakes_example : (claim_due 3 50 (pos 8) (pos 60) pair).1 ≡ lease_out 50 behind ∷ []
unfolding key_of lookup text_eq
claim_due_overtakes_example =
    claim_due_overtakes pair 3 50 (pos 8) (pos 60) waiting behind (record {
      queue = refl;
      one_key = refl;
      in_order = omega arith;
      earlier_failed = refl;
      earlier_waits = omega arith;
      later_pending = refl;
      later_due = refl;
      later_shard = refl;
    })

claim_due-IsClaimed_example : All (IsClaimed pair 3 50) (claim_due 3 50 (pos 8) (pos 60) pair).1
claim_due-IsClaimed_example = claim_due-IsClaimed 3 50 (pos 8) (pos 60) pair
