-- ===== src/Lib.antt =====
-- Verification of sttork, a voice interface to interactive fiction: a player's utterance becomes at most one
-- parser command, a deterministic engine in a worker executes it, and what happened is kept as an
-- ordered log of semantic events.
--
-- The parts and how they interact:
--   * packages/contracts holds the shared types and the check of a canonical command. Contracts/Command.antt is
--     canonical-command.ts (`canonicalizeCommand` is `canonicalize_command`), Contracts/Engine.antt
--     the data of engine.ts, Contracts/Envelope.antt is event-envelope.ts. Below Contracts/Command,
--     Blanks, Words and Canonical are proofs.
--   * packages/events numbers the events. Events/Sequence.antt is event-sequence.ts (`EventSequence`
--     with `append`), Events/Order.antt its proofs.
--   * packages/game-engine turns a worker that answers messages into the engine port.
--     GameEngine/Protocol.antt is worker-protocol.ts; GameEngine/Checks.antt and GameEngine/Adapter are
--     worker-engine-adapter.ts: State is what `WorkerEngineAdapter` keeps, Guards what a method checks
--     before its message, Replies what it checks of the answer and the state it takes over,
--     Operations the methods (`boot_method`, `execute_method`, `snapshot_method`, `restore_method`,
--     `inspect_method`). The other files of that directory are proofs.
--   * packages/session runs the player's turns: it asks the guide for a decision, the engine to execute
--     it and the narrator to speak, and emits an event of each step. Session is
--     semantic-turn-coordinator.ts: Events the payloads (contracts/src/semantic-events.ts), State the
--     fields, Turn `#emit`, Narrate `#narrate`, Finish `#finishEngineResult`, Guide and Run `#runNew`,
--     Journal and Submit `submitTurn`, `#recover` and the failures recorded without a turn, Records
--     the events of audio and pauses; Segments
--     cuts a narration into sentences, Excerpt checks the narration of the opening. Replay, Once, Free,
--     Requested, Records/Aside and Segments/Letters are proofs.
--   * spikes/dork-worker is the worker's side of that protocol. DorkWorker/Snapshot is
--     worker-snapshot-envelope.ts: Format the data and limits, Prepare, Relative and Envelope the checks
--     (`prepareReceipt`, `validateReceiptsRelativeToEnvelope`, `prepareEnvelope`), Writer and Encode
--     `encodeWorkerSnapshotEnvelope`, Reader, Records and Decode `decodeWorkerSnapshotEnvelope`; RoundTrip is proofs.
--     DorkWorker/Runtime is dork-worker-runtime.ts: State the fields of `DorkWorkerRuntime` and
--     `dispose`, Checks the checks of a message and the constructor, Receipts the receipt journal,
--     Execute, Operations and Restore the methods, Exchange `exchange`. Meanwhile says what may
--     happen while a method waits; the other files there are proofs. Ascii is a coding of texts for
--     the tests.
--
-- How the code is read:
--   * A string is its list of UTF-16 code units (Base/Text.antt). A number is a natural number, so
--     that a negative, fractional or non-finite one is outside the model; a value whose type the source
--     checks at run time has that type here, and an enumeration of strings that come from the worker has
--     a constructor `invalid` for every other string.
--   * A function that may throw gives an `Outcome` (Base/Outcome.antt).
--   * An async method is a tree of its steps (Async.antt): it reads and writes the object's state, and calls
--     what is not its own, at once (`ask`) or at an `await`, where the other tasks of the program may
--     change the state before the reply comes. The callbacks, the transport, the digest, the guide, the
--     engine port and the narrator are calls of which nothing is assumed: a reply is any value, and
--     `none` or `false` says that the call threw. `run` executes a tree in a world of replies;
--     `Ensures` (Async/Rules.antt) speaks of every run of a tree, whatever the replies, and `Told`
--     (Async/Told.antt) of those whose replies are known to be of some kind.
--   * While a method of the adapter waits, the other tasks leave the adapter as it is: `#beginOperation`
--     refuses any other method then.
--   * While a method of the worker's runtime waits, `dispose` may be called; any other `exchange` is
--     refused then and changes nothing.
--   * The platform's UTF-8 coder is a parameter, `Utf8`; that its encoding is never shorter than the text
--     is the one fact that is assumed of it, where a theorem says so. The offset and the message of an
--     error of the codec are left out. A session of the worker is a number, and its methods are calls
--     which may answer anything or throw; only its `dispose` is taken never to throw, as that of
--     dork-candidate-session.ts, which sets fields and rejects promises.
--   * The canonical time stamp rests on `Date` and is a parameter, `canonical`. No fuel is used: every loop of
--     the code that is modelled is structural here.
--
-- Not modelled: the opening and role introductions of the coordinator; how the projections
-- `#observedWorld` and `#openingScene`, which only the guide's input is made from, are computed: the
-- coordinator holds the events that `#emit` has handed to them (`projected`), of which, from where
-- they stood at the start, they are functions; packages/guide-core, command-knowledge, audio, experience and providers; of spikes the session around the
-- interpreter, the facade that replaces a worker and the codec of the inner checkpoint; the
-- applications below apps; the vendored interpreter. A subscriber of events that calls back into the
-- coordinator while it is being told of an event is not modelled either.
pub mod Base
pub mod Async
pub mod Contracts
pub mod DorkWorker
pub mod Events
pub mod GameEngine
pub mod Session
