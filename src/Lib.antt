-- ===== src/Lib.antt =====
-- Kaana is the inference data plane of Oxy: it takes one signed request with a list of authorized
-- routes, runs it against the providers that those routes name, and streams normalized events back.
-- This library models the decisions on that path and proves what each of them promises. Paths are
-- from the repository's root.
--
-- internal/kaana/emitter.go (Emitter): the order of a stream's events. An adapter calls it during an
--   attempt, the executor around it. Emitter.Calls is any sequence of those calls, Emitter.Grammar
--   the order that a client may rely on. The sink is a function of its own state.
-- internal/kaana/usage_estimate.go (UsageEstimate): what is counted of the delivered output, which
--   the emitter feeds and settlement merges with what a provider reported.
-- internal/rotation/rotation.go (Rotation): the circuit breaker of each deployment. The executor asks
--   it before an attempt and reports to its permit after it. Float64 is a parameter (Prelude.Floats).
-- internal/customerlimit/customerlimit.go (CustomerLimit): the same for a customer's own credential.
-- internal/provider/errors.go and internal/kaana/executor.go (Failure): what an adapter's error says,
--   to the breakers, to the route switch and to the customer.
-- internal/kaana/executor.go, RetryPolicy (Retry): when an attempt is repeated on its route. Sums and
--   shifts wrap as int64 does (Prelude.Words).
-- internal/provider/funding.go (Funding) and internal/provider/credential.go (KeyPool, KeyWalk): the
--   keys of a provider, their economic order, which of them a call may be sent with, and the walk
--   from one key to the next. The walk runs on fuel: one unit more than the pool has keys.
-- internal/kaana/executor.go and internal/inventory/inventory.go (Routes): the signed list of routes
--   against the inventory. Regions, references and ids are texts.
-- internal/kaana/executor.go (Executor): the loop of execute. The breakers, the limits, the registry,
--   the adapters and the emitter are an interface over a state of their own (Surroundings); the
--   retries are those of Retry. The loop runs on fuel: a unit for each turn.
-- internal/providercost (Money, Cost): exact decimal amounts and list prices; rate cards, the cost of
--   attempts and requests, and the events that are stored. A text is a list of bytes, and sums and
--   products wrap as int64 does. Cost.Loading begins where the JSON of a file is decoded.
-- internal/sse/sse.go (Sse): the decoder and the writer of server-sent events. A body is its bytes and
--   how it ends; the connection is an interface.
-- internal/realtime/replay.go (Replay): the events kept for a client that reconnects, against the
--   whole log of a session (Replay.Log).
-- internal/audioprobe (Audio): how long an uploaded file plays: the rounding of a measurement and the
--   durations of WAV, FLAC, MPEG, ADTS and Ogg. An upload is its bytes, and a loop over its frames,
--   pages or chunks is a recursion on the bytes that are left, so that it needs no fuel.
-- internal/contract (Contract): the closed vocabularies, model references and the error body.
--
-- A method that changes its receiver is a function that also returns the new state; an error is an
-- option or a value of a type of errors, by the message it formats. The mutex of a registry makes its
-- calls a sequence, so a property of every interleaving is one of every list of calls. A time is the
-- count of nanoseconds since Go's zero time (Prelude.Time). Maps are association lists
-- (Prelude.Assoc) or functions.
--
-- Not modelled: the settlement of the executor and the cost rows that its loop appends, the realtime
-- session, the Matroska and MP4 probes with the choice by media type, the HTTP surfaces, the
-- providers' wire formats, encryption, signatures and databases. Free text passes regular expressions
-- in the source, which are a parameter here; the three short patterns of internal/providercost are
-- written out.
pub mod Prelude
pub mod Audio
pub mod Contract
pub mod UsageEstimate
pub mod Emitter
pub mod Rotation
pub mod CustomerLimit
pub mod Failure
pub mod Retry
pub mod Funding
pub mod KeyPool
pub mod KeyWalk
pub mod Replay
pub mod Sse
pub mod Money
pub mod Cost
pub mod Routes
pub mod Executor
