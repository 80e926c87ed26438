-- ===== src/DorkWorker/Runtime/Journal/History.antt =====
-- The receipt journal over the whole life of a runtime.
use sttork.Base.{ℕ, ◌≡◌, ◌≤◌, refl, List, [], ◌∷◌, All, arith}
use sttork.Base.Outcome.{ok}
use sttork.Async.{World, run}
use sttork.Async.Rules.{Ensures-run}
use sttork.Async.Keeps.{Every}
use sttork.Contracts.Engine.{RuntimeIdentity, AdapterIdentity}
use sttork.GameEngine.Protocol.{EngineWorkerRequest}
use sttork.DorkWorker.Snapshot.Format.{Utf8, WorkerSnapshotReceipt}
use sttork.DorkWorker.Runtime.State.{DorkWorkerRuntime, Call, Reply, dispose}
use sttork.DorkWorker.Runtime.Checks.{RuntimeOptions, create, require_positive_limit}
use sttork.DorkWorker.Runtime.Exchange.{exchange}
use sttork.DorkWorker.Runtime.Meanwhile.{Meanwhile}
use sttork.DorkWorker.Runtime.Sound.{IsJournal, IsWithin, size_of}
use sttork.DorkWorker.Runtime.Journal.Exchange.{exchange-IsWithin, dispose-IsWithin}

-- A message that is answered in a world, or a call of `dispose`.
pub data Event : Type 0 where
  exchanges : World DorkWorkerRuntime Call Reply → EngineWorkerRequest → Event
  disposes : World DorkWorkerRuntime Call Reply → Event

-- In the event's world nothing but a disposal happens while a method waits.
abbrev pub IsFair : Event → Type 0
IsFair (exchanges w request) = (n : ℕ) (s : DorkWorkerRuntime) → Meanwhile s (w.meanwhile n s)
IsFair (disposes w) = (n : ℕ) (s : DorkWorkerRuntime) → Meanwhile s (w.meanwhile n s)

unfoldable pub after : Utf8 → Event → DorkWorkerRuntime → DorkWorkerRuntime
unfolding exchange dispose run
after utf8 (exchanges w request) s = (run w 0 s (exchange utf8 request)).final
after utf8 (disposes w) s = (run w 0 s dispose).final

unfoldable pub after_all : Utf8 → List Event → DorkWorkerRuntime → DorkWorkerRuntime
unfolding after
after_all utf8 [] s = s
after_all utf8 (event ∷ events) s = after_all utf8 events (after utf8 event s)

after-IsWithin :
    (utf8 : Utf8) (m b : ℕ) (event : Event) (s : DorkWorkerRuntime)
    → IsFair event
    → IsWithin utf8 m b s
    → IsWithin utf8 m b (after utf8 event s)
unfolding after
after-IsWithin utf8 m b (exchanges w request) s fair h =
    Ensures-run Every Meanwhile w fair _ (exchange utf8 request) 0 s
      (exchange-IsWithin utf8 m b request s h)
after-IsWithin utf8 m b (disposes w) s fair h =
    Ensures-run Every Meanwhile w fair _ dispose 0 s (dispose-IsWithin utf8 m b s h)

after_all-IsWithin :
    (utf8 : Utf8) (m b : ℕ) (events : List Event) (s : DorkWorkerRuntime)
    → All IsFair events
    → IsWithin utf8 m b s
    → IsWithin utf8 m b (after_all utf8 events s)
unfolding after_all
after_all-IsWithin utf8 m b [] s fair h = h
after_all-IsWithin utf8 m b (event ∷ events) s (f, fair) h =
    after_all-IsWithin utf8 m b events (after utf8 event s) fair
      (after-IsWithin utf8 m b event s f h)

empty-IsJournal :
    (utf8 : Utf8) (rs : List WorkerSnapshotReceipt) (n m b : ℕ)
    → rs ≡ []
    → n ≡ 0
    → IsJournal utf8 rs n m b
unfolding size_of
empty-IsJournal utf8 rs n m b none_there none_used =
    rw (none_there, none_used)
      (record { distinct = tt; sized = refl; few = omega arith; small = omega arith })

create-IsWithin :
    (utf8 : Utf8) (runtime : RuntimeIdentity) (adapter : AdapterIdentity) (schema : ℕ)
    (options : RuntimeOptions) (s : DorkWorkerRuntime)
    → create utf8 runtime adapter schema options ≡ ok s
    → IsWithin utf8 s.max_receipts s.max_receipt_journal_bytes s
      × (s.max_receipts ≤ 32)
      × (s.max_receipt_journal_bytes ≤ 1048576)
unfolding create require_positive_limit
create-IsWithin utf8 runtime adapter schema options s h = (
  record {
    journal =
        empty-IsJournal utf8 s.receipts s.receipt_journal_bytes s.max_receipts
          s.max_receipt_journal_bytes (ground (arith, h)) (ground (arith, h));
    count_limit = refl;
    byte_limit = refl;
  },
  ground (arith, h),
  ground (arith, h),
)

-- After any history of messages and disposals on a new runtime, whatever the sessions answer and
-- whatever throws, no two receipts share an identity, the runtime's count of their bytes is the sum
-- of their encoded sizes, their number is at most the limit the runtime was made with and at most
-- 32, and their bytes are at most that limit and 1 MiB, if nothing but `dispose` intervenes while
-- a method waits.
pub history-IsWithin :
    (utf8 : Utf8) (runtime : RuntimeIdentity) (adapter : AdapterIdentity) (schema : ℕ)
    (options : RuntimeOptions) (s : DorkWorkerRuntime) (events : List Event)
    → create utf8 runtime adapter schema options ≡ ok s
    → All IsFair events
    → IsWithin utf8 s.max_receipts s.max_receipt_journal_bytes (after_all utf8 events s)
      × (s.max_receipts ≤ 32)
      × (s.max_receipt_journal_bytes ≤ 1048576)
history-IsWithin utf8 runtime adapter schema options s events made fair =
    let (w, few, small) = create-IsWithin utf8 runtime adapter schema options s made in
    (after_all-IsWithin utf8 s.max_receipts s.max_receipt_journal_bytes events s fair w, few, small)
