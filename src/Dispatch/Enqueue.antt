-- ===== src/Dispatch/Enqueue.antt =====
-- internal/dispatch/dispatcher.go: queueing a canonical event for the destinations that want it, once or
-- again. The in-memory store reports no error here, and one reading of the clock serves them all.
pub mod Complete
use status_hub.Prelude.{
  ℕ, zero, suc, ◌+◌, Bool, true, false, ◌&&◌, Option, none, some, List, [], ◌∷◌, if◌then◌else◌,
  Text, ℤ,
}
use status_hub.Domain.Delivery.{Delivery, pending, shard_for}
use status_hub.Domain.Event.{CanonicalEvent}
use status_hub.Domain.Config.{Destination, matches}
use status_hub.Store.Memory.{Memory, get_destination}
use status_hub.Store.Directory.{list_destinations}
use status_hub.Store.Deliveries.{enqueue_delivery, next_sequence}

abbrev pub wants : CanonicalEvent → Destination → Bool
wants e dest = dest.enabled && matches dest.filter e

-- The delivery that is queued; what it does not name has the zero value.
abbrev pub delivery_for : CanonicalEvent → ℕ → ℕ → Bool → ℕ → Destination → Delivery
delivery_for e shard seq is_replay now dest = record {
  id = 0;
  tenant_id = e.tenant_id;
  event_id = e.id;
  destination_id = dest.id;
  transaction_ref = [];
  shard = shard;
  sequence = seq;
  attempt = 0;
  status = pending;
  response_code = 0;
  response_body = [];
  error = [];
  duration_ms = 0;
  is_replay = is_replay;
  next_retry_at = 0;
  created_at = now;
  updated_at = 0;
}

-- The loop over the destinations.
unfoldable pub enqueue_loop : CanonicalEvent → ℕ → ℕ → ℕ → List Destination → Memory → Memory
enqueue_loop e shard seq now [] m = m
enqueue_loop e shard seq now (dest ∷ dests) m =
    let skipped = enqueue_loop e shard seq now dests m in
    let queued =
      enqueue_loop e shard seq now dests
        (enqueue_delivery now (delivery_for e shard seq false now dest) m).0 in
    if wants e dest then queued else skipped

unfoldable pub enqueue : ℤ → ℕ → CanonicalEvent → Memory → Memory
enqueue shards now e m =
    let (m', seq) = next_sequence e.tenant_id e.transaction_ref m in
    enqueue_loop e (shard_for e.transaction_ref shards) seq now (list_destinations e.tenant_id m) m'

abbrev pub queue_replay : ℤ → ℕ → CanonicalEvent → Memory → Option Destination → Memory × Option ℕ
queue_replay shards now e m none = (m, none)
queue_replay shards now e m (some dest) =
    let (m', seq) = next_sequence e.tenant_id e.transaction_ref m in
    let (m'', id) =
      enqueue_delivery now (delivery_for e (shard_for e.transaction_ref shards) seq true now dest)
        m' in
    (m'', some id)

-- The id of the delivery, or `none` where the tenant has no such destination.
unfoldable pub enqueue_replay : ℤ → ℕ → CanonicalEvent → Text → Memory → Memory × Option ℕ
enqueue_replay shards now e destination_id m =
    queue_replay shards now e m (get_destination e.tenant_id destination_id m)
