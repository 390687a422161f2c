-- ===== src/Lib.antt =====
-- Verification of fluffy-dollop, a log pipeline of three Go programs around Redis.
--
-- The program. The ingestion service (cmd/ingestion) takes log events over HTTP, asks a throttler
-- whether to admit them, and adds them to one of several Redis streams, chosen by a hash of the
-- event's service. A worker (cmd/worker) reads the stream of its partition as a member of a consumer
-- group, processes each job once as far as a deduplication key in Redis tells, acknowledges it, and
-- sends a job that failed back to the stream or, with its retries used up, to a dead letter stream.
-- It also takes over messages that another worker left pending. The control plane
-- (cmd/control_plane) lists the workers by their heartbeats, on the one instance that holds a lock.
--
-- The files.
--   Base          names of the libraries, list lemmas, Go's integers (Int), texts (Text)
--   Go            what the program uses of Go: errors, calls that may fail on a state (Effect),
--                 strconv, hash/fnv, float64 and errgroup as parameters
--   Redis         the client's commands as a parameter; Laws and Hashes have the documented
--                 behaviour that theorems name, Memory a server that satisfies it
--   Models        pkg/models/log_event.go
--   Config        internal/config: Types and Addresses (config.go), Constants and Defaults
--                 (defaults.go), Issue and Validator (validator.go), Loader (loader.go);
--                 Validator/Sections and Whole say what the validator accepts
--   Queue         internal/queue: Types, Message, Producer (Enqueue, StreamLength), Dlq, Consumer
--                 (Consume, Ack, Retry, ReclaimStale, GetPendingInfo)
--   Worker        internal/worker: Dedup (dedup_processor.go), Process (processMessage), Backoff,
--                 Poll (NewWorker, pollLoop), Pool (pollLoop, reclaimStale and their goroutines as a
--                 step relation), Reclaim (tryReclaim), Start (Start, registryLoop, server.go,
--                 processor.go)
--   Bootstrap     internal/bootstrap: partitions.go, consumer.go, dlq.go, Connect (redis.go)
--   Ingestion     internal/ingestion: Throttler (adpative_throttler.go) with Updater (its goroutine,
--                 Start, Stop, and bootstrap/throttler.go), Service, Handler, Middleware, Router,
--                 HttpServer (server.go, and cmd/ingestion/main.go)
--   Commands      cmd/worker/main.go and cmd/control_plane/main.go
--   Pipeline      the programs on one Redis: requests, messages that workers handle, and requeues, one
--                 after the other, and what a consumer reads or takes over then
--   Registry      internal/registry: registry.go and types.go, Replay (what the registry promises,
--                 without Redis, and what a listing or a reconcile then says), ControlPlane (control_plane.go)
--   Health        internal/health: aggregator.go, http.go, Checkers (redis.go, postgres.go)
--   Observability internal/observability/logger.go: the level and the format, and Logger, the lines
--   Tests         runs at concrete inputs
--
-- How Go is modelled. A string is the list of its bytes. int and int64 are integers, with wrap64
-- where an operation can overflow and saturate64 where time.Time differences saturate. Pointers
-- that may be nil are Option. A call that may fail is a function from a state to a result and the
-- state after it, so what a failed call wrote stays written. The clock, uuid.New and rand.Float64
-- are arguments. An error is a text, a wrapped error with the text before `: %w`, redis.Nil, or a
-- panic; details of a wrapped text that name a key or an index are left out. Except in
-- Observability and Middleware, log lines are left out. A time-out of a context shows as an error of
-- the call that it ends.
--
-- The parameters. Redis is a record of commands on an abstract state; encoding/json is a pair of
-- functions for each of the two types that are stored; float64 is a record of operations; parsing a
-- float64 and a duration are functions. A theorem that needs more of them takes it as a record of
-- laws: QueueLaws, RangeLaws, StreamLaws, ClaimLaws, KeyLaws, HashLaws, ListingLaws and GroupLaws
-- (the commands' documentation), JsonLaws (encoding/json reads back what it wrote, up to a depth),
-- ErrGroupLaws (that of errgroup), ScanProgress (a scan of XAUTOCLAIM comes to its end),
-- RatioOrder, RatioTotal and DoublesExactly (IEEE 754). Between two commands other clients may act
-- and keys may expire; where that matters, it is a step of its own (Event.meanwhile of the control
-- plane, Beat.meanwhile of the registry loop, UpdateEvent.elsewhere of the throttler).
--
-- Loops. ReclaimStale reads a list that says for each round whether the context is done, which is
-- its fuel; a theorem says that more rounds than Redis has pages suffice. The loops of the control
-- plane, of the registry and of the throttler, and the poll loop with its backoff, read the list of
-- events that their select statements receive: a run that has used them up is still going. The
-- worker's loops and goroutines are also a step relation, Pool.Step, whose reachable states the
-- theorems describe.
--
-- Not modelled: the construction of net/http servers and muxes and of the clients, the shutdown
-- goroutine of the health server, signals, the unused parseMessage of message.go, and what slog prints.
pub mod Base
pub mod Go
pub mod Redis
pub mod Models
pub mod Config
pub mod Queue
pub mod Worker
pub mod Bootstrap
pub mod Commands
pub mod Ingestion
pub mod Pipeline
pub mod Registry
pub mod Health
pub mod Tests
pub mod Observability
