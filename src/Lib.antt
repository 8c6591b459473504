-- ===== src/Lib.antt =====
-- StatusHub: a service that receives the webhooks of payment providers, normalises them into
-- canonical events and forwards those to the endpoints of its customers.
--
-- The parts that are modelled, and the files that model them:
--
-- Domain/Delivery, Domain/Config, Domain/Event: the vocabulary of internal/domain (delivery.go,
--   config.go, event.go): deliveries and their status, shards, destinations, filters, retry
--   policies, canonical events.
-- Domain/Status: statuses and event types (internal/domain/status.go).
-- Domain/Amount: amounts of money (internal/domain/amount.go), from the decimal text of a
--   provider to minor units and back; the functions of package strings and strconv that it calls
--   are written out, for base 10, on the runes of a text.
-- Store/Memory, Store/Deliveries: the in-memory store (internal/store/memory.go and
--   memory_delivery.go). Its maps are association lists (Prelude/Maps). Its mutex makes each method
--   one step, so a method is a function from store to store; ErrNotFound is `none` or `false`.
-- Domain/Tenancy: tenants, endpoints and raw events (config.go and event.go of internal/domain).
-- Store/Directory, Store/Events: the rest of that store: tenants, endpoints and destinations, and
--   raw and canonical events. An error leaves the store as it was (`stored`).
-- Store/Listing: the listings of deliveries and the summary of unmapped statuses of that store.
--   Where the code sorts with ties, or loops over a map, the model takes the order of its list.
-- Receive, Receive/Checks: the handler of webhooks (internal/receive/receiver.go). It finds the
--   endpoint, asks the limiter, reads the body, verifies the signature, stores the raw event,
--   appends an audit record and answers. What the connection gives is a record Request, the
--   packages around it are a record World. The order of the steps is that of the code, but the
--   verification, which changes nothing, stands with the raw event that it decides.
-- Domain/Audit, Store/Audit: audit records, the hash that chains them (internal/domain/audit.go)
--   and the chain of each tenant in the in-memory store (internal/store/memory_audit.go). The
--   records and heads of the store are a record of their own, AuditLog, since nothing else touches
--   them. SHA-256, json.Marshal and Time.Format are the parameter Codec.
-- Redact: the scanner that takes card numbers out of a payload (internal/redact/redact.go). The
--   index of its loop is the rest of the body, with the two bytes before it, and what it skips is a
--   count.
-- Ratelimit: the semaphore Bounded (internal/ratelimit/ratelimit.go); its channel is a count.
-- Dispatch/Breaker: the circuit breaker (internal/dispatch/breaker.go), method by method.
-- Dispatch/Dispatcher: DeliverOnce and what it calls (internal/dispatch/dispatcher.go). It reads
--   the store, asks the breaker, sends the request, tells the breaker how it went, and completes
--   the delivery in the store.
--
-- Jsonpath: the paths of declarative adapters (internal/jsonpath). The loop of Compile runs on
--   the number of steps that may still begin, since the code checks it in each round.
--   Jsonpath/Value has the documents, Eval and Flatten; the loop over a map takes the members in
--   the order of the model.
-- Domain/Validation: the checks of a canonical event, a retry policy, a filter and a URL
--   (event.go and config.go of internal/domain).
-- Dispatch/Enqueue: the queueing of an event for its destinations
--   (internal/dispatch/dispatcher.go).
-- Normalise: the normaliser and the sweep of its worker (internal/normalise/normalise.go and
--   worker.go). It reads a raw event, has an adapter parse it, completes and checks the event,
--   stores it, and queues it; what follows each fallible step is a function by the step's result. A
--   sweep has a World for each of its turns, since the clock and the new id change.
-- Idempotency, Idempotency/Keys: the store of idempotency keys, the writer that records a
--   response, and the wrapper of the write handlers (internal/api/idempotency.go). The wrapper is
--   cut where the handler runs: start_request claims the key, finish_request completes or abandons
--   it, and other calls may come in between. The handler is a function on a state of the server,
--   which is a parameter; the server has a store of keys, and its errors are logged only.
--
-- Dispatch/Ssrf: the guard of outgoing connections (internal/dispatch/ssrf.go). An address is a
--   number of 32 or 128 bits with its zone; the predicates and prefixes of package netip are
--   divisions by powers of two. DialContext gives the addresses that it dials besides its result.
-- Dispatch/Sign: the signature header (internal/dispatch/sign.go), written and checked. Durations
--   stop at the bounds of int64 as package time has it, and the negation of the least one is itself.
-- Dispatch/Replay: the replay of stored events (internal/dispatch/replay.go). Its loop over pages
--   runs for at most one round for each stored event and one more; each full page moves the cursor
--   down, so that is enough where ids descend (Dispatch/Replay/Complete).
-- Checkpoint: signed checkpoints of audit chains (internal/audit/checkpoint.go), over Store/Audit.
-- Auth: API keys and their store (internal/auth/key.go, store.go and context.go), and the two
--   functions of internal/api/middleware.go that let a request in. Looking a key up and checking
--   it are one step; touching it is another call of the store.
-- Prelude/Split: strings.Split, strings.Cut and package encoding/hex.
--
-- Normalise/Forwarded puts the receiver, the store, the normaliser and the dispatcher together.
--
-- Conventions. A time.Time is the number of nanoseconds since Go's zero time, so IsZero is a test
-- for 0; a duration that the program stores is a number of nanoseconds, and an option that may be
-- negative is an integer. A string is the list of its bytes, and of its runes in Domain/Amount
-- and Jsonpath; where the former calls the latter (an address, a currency) the text is ASCII.
-- Amounts are within int64, and the negation that wraps is written out. Counters (attempts, ids,
-- failures) and durations are not bounded: they stay far below 2^63 in any run. The hash and the
-- shard of a reference keep their 32-bit wrap-around. Two definitions take fuel: the decimal digits
-- of a number n, with n + 1 rounds, and the loop over the pages of a replay, whose result is an
-- option, so that its fuel running out is told apart from its end (and is `endless` in a replay).
--
-- The outside (clock, HTTP, JSON encoding, secrets, random numbers) enters an attempt as the
-- record World. Metrics, audit records and requests leave it as a list of effects; an audit
-- effect names its kind and what it is about, and its payload is left out, as are payload bytes
-- and signatures. The float64 jitter is a record of two functions on durations, with the bound
-- that a fraction of at most 1 gives. Not modelled: logging, the token buckets, the PostgreSQL
-- store, the HTTP servers, the adapters, the run loops of the workers. Of the receiver the
-- gauges, the durations and the class of an address in a metric are left out, header names are
-- lower-cased as ASCII, %q is for names that need no escape, and the audit records have no id
-- yet.
pub mod Prelude
pub mod Receive
pub mod Normalise
pub mod Jsonpath
pub mod Idempotency
pub mod Ratelimit
pub mod Redact
pub mod Domain
pub mod Store
pub mod Auth
pub mod Checkpoint
pub mod Dispatch
mod Tests
