-- ===== src/Lib.antt =====
-- Chartly: models of the core logic of the Go packages and services, and theorems about it.
--
-- Chartly is a set of services around shared packages. Connectors fetch data from remote sites: a
-- circuit breaker decides whether a site is asked at all, and a ring buffer carries the chunks that
-- come from a stream to the code that reads them. The orchestrator builds a graph from the plan of a
-- job and runs its steps in topological order; policies and a limiter of its scheduler decide which
-- triggers start a job. A request that changes something carries an
-- idempotency key, and the idempotency store lets one caller do the work and replays the result to the
-- others. Messages between services travel in envelopes, which a queue runner takes, hands to a handler
-- and settles. Configurations are merged in layers, and a policy says what the storage service caches
-- and under which key. The audit service keeps the events that the services report in an append-only ledger.
-- These parts are libraries of one process each, and do not call one another; within the audit
-- service the hash chain and its verification read the events of the ledger.
--
-- The files and the code that they model:
--   Circuit          services/connector-hub/internal/pool/circuit_breaker.go
--     The manager is a map from normalised keys to circuits. allow, report and snapshot are
--     Allow, Report and Snapshot, one step each under the mutex. do_call is a Do that no other call comes
--     into: Do holds the mutex in its Allow and its Report only, so one with calls in between is an
--     allow, those calls and a report. Circuit/Invariant has what every circuit keeps, Circuit/Isolation
--     the view of the manager as independent circuits, Circuit/Timing how a circuit opens, waits and
--     closes.
--   Idempotency      pkg/idempotency/keys.go, pkg/idempotency/store.go
--     Idempotency/Encode is the deterministic encoder, Idempotency/Keys building and parsing of keys
--     (BuildKey, BuildKeyFromMap, ParseKey), with the round trip in its children. Idempotency/Store is
--     MemoryStore: try_begin, touch, complete_key, fail, get, delete and sweep; perform and run make
--     sequences of them. Its children have the invariant, the view that forgets expired records, what
--     errors leave alone, and leases and replays.
--   RingBuffer       services/connector-hub/internal/streaming/backpressure.go
--     The channels of tokens are counters. RingBuffer/Queue is the specification, a bounded queue,
--     RingBuffer/Refine compares an open buffer with it, RingBuffer/Closing has closed ones, and
--     RingBuffer/Late a TryPush that meets a Close.
--   Workflow         services/orchestrator/internal/workflow/dag_builder.go
--     Workflow has the graph, AddNode and AddEdge, Workflow/Topo TopoSort, Validate and BuildFromPlan.
--     The children follow Kahn's algorithm from the in-degrees to the sorted list.
--     Workflow/Executor is services/orchestrator/internal/workflow/executor.go: execute takes the order
--     of topo_sort and calls the handlers of the registry; Workflow/Executor/Runs reads the trace.
--   Pool             services/connector-hub/internal/pool/connection_pool.go
--     Pool/Step has the atomic actions: a call of Acquire, Start, Stop, reapOnce or a release is the
--     point that it has reached, and move makes its next action. Pool/Run interleaves any number of
--     calls. Pool/Accounts and Pool/Balance are about the counters, Pool/Owners about who has which
--     resource.
--   Queue            pkg/queue/queue.go, pkg/queue/consumer.go, pkg/queue/dlq.go
--     Queue is NormalizeEnvelope, Validate and StableEnvelopeHash, Queue/Retry the retry policy (decide,
--     deterministic_jitter) on int64 words, Queue/Worker NewRunner and workerLoop, round by round.
--     Queue/Normalized, Queue/Delays and Queue/Settled are about them. Queue/Dlq has the records of dead
--     letters, which carry an envelope, and Queue/Dlq/Kept what their normalisation accepts.
--   Scheduler        services/orchestrator/internal/scheduler/policies.go
--     Scheduler has Validate and Decide, Scheduler/Limiter Allow and ResetOld (reset_old), and
--     Scheduler/Limiter/Bounded counts what Allow lets through. The times are seconds there.
--   Config           pkg/config/merge.go
--     merge and merge_many are Merge and MergeMany; the node budget and the report are passed along.
--     Config/Wins looks values up in the result.
--   Cache            services/storage/internal/cache/cache_policy.go
--     admit, rule_for and key are Admit, RuleFor and Key; Cache/Keys is about keys that are equal.
--   Ledger           services/audit/internal/ledger/append_only.go
--     Ledger has the events and their normalisation, Ledger/AppendOnly the ledger with Append, Get,
--     Stats and evictDeterministic, Ledger/Listing has List. Ledger/Index relates the index to the
--     events, Ledger/Evict, Ledger/Older and Ledger/Oldest say what an eviction leaves, Ledger/Append has Append and Get,
--     and Ledger/Ascending what List returns. Ledger/Collapse is about the collapsing of white space.
--   Ledger/Chain     services/audit/internal/ledger/hash_chain.go
--     Ledger/Chain/Canonical writes an event as canonical JSON, Ledger/Chain has BuildChain and
--     VerifyChain, Ledger/Chain/Rebuild relates the two, and Ledger/Chain/Tamper says what a chain fixes.
--     Ledger/Visits, Ledger/Chain/Orders and Ledger/Chain/Revisit compare two runs that visit the same
--     maps in two orders.
--   Ledger/Verify    services/audit/internal/ledger/verification.go
--     VerifyEvents, VerifyLedgerSnapshot and VerifyChainMatches. Ledger/Verify/Accepted (with Seen, about
--     the keys) describes the
--     events that are accepted, Ledger/Verify/Monotonic the option for times, and
--     Ledger/Verify/Snapshot what a snapshot is good for.
--   Prelude, Text, Dict
--     Tests on numbers, lists, Go's int; strings as lists of bytes, with trimming, splitting and
--     sorting; maps with string keys as association lists. Text/Unique tells sorted lists apart.
--
-- How the code is read:
--   * A method under a mutex is one step, from a state to a state and a result. An error is a value:
--     the sentinel that the code wraps, and its message where two errors share a sentinel.
--   * A time is a number of nanoseconds, 0 for the zero time in Circuit and Idempotency; the clock, the
--     error of a context and a random token are arguments of the step. In Ledger the times count
--     from the day before the year 0, so that every RFC 3339 time is a natural number; time.Parse is
--     a parameter there, for any function, and so are time.LoadLocation in Scheduler, SHA-256 in Idempotency, Queue and the hash chain,
--     and how encoding/json prints a float64.
--   * Texts are ASCII: one byte is one character for strings.TrimSpace, Fields and ToLower.
--   * A map is a list in which a key stands once. Where a result depends on the order in which Go
--     visits a map, the list has the order of that one visit: two runs over one map are two lists.
--   * Unsigned counters wrap at 2 ^ 64, and so does the arithmetic on durations in Queue/Retry, in
--     two's complement. An int that only counts entries of a slice does not overflow.
--   * A decimal number has at most 20 digits, enough for 64 bits. The fuel of `kahn` is the number of
--     waiting nodes and of edges: each round takes one waiting node, and a node is added at most once
--     for an edge, so it never runs out.
--   * In the ring buffer the case that a select takes, and whether another goroutine closes the
--     buffer before or after it, are arguments of a call. Other interleavings of two calls inside one
--     another are not modelled.
--   * In the connection pool an action reads or writes one shared counter, the flag, or the channel;
--     any number of calls may be in progress, and any of them acts next.
--
-- Not modelled: the goroutines, timers and retries of the schedulers, HTTP servers
-- and clients, storage drivers, exporters and statistics on floating-point numbers, which are input
-- and output or arithmetic that the theorems would not say much about; access control and
-- the other packages. Receivers that are nil pointers, values of a detail
-- or of a key's parts of other dynamic types than the listed ones, and the commented-out fields of
-- Options of the idempotency store are left out too; other declarations that stand in comments, without
-- which a file does not compile, are read as declared (QueueName, MergeOptions, NodeID, minuteKey).
pub mod Cache
pub mod Config
pub mod Pool
pub mod Queue
pub mod Scheduler
pub mod Prelude
pub mod Text
pub mod Dict
pub mod Circuit
pub mod Idempotency
pub mod RingBuffer
pub mod Workflow
pub mod Ledger
