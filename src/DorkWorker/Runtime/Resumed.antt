-- ===== src/DorkWorker/Runtime/Resumed.antt =====
-- A snapshot that is restored brings the receipts back.
use sttork.Base.{ℕ, ◌≡◌, ◌∙◌, false, inl, inr, List, arith}
use sttork.Base.Outcome.{Outcome, ok}
use sttork.Async.{World, run}
use sttork.Async.Rules.{Ensures-run}
use sttork.Contracts.Engine.{Boundary, EngineSnapshot, restored}
use sttork.GameEngine.Protocol.{ResponseBody, snapshot_result}
use sttork.DorkWorker.Snapshot.Format.{Utf8, IsUtf8, WorkerSnapshotEnvelope}
use sttork.DorkWorker.Snapshot.Decode.{decode_envelope}
use sttork.DorkWorker.Runtime.State.{DorkWorkerRuntime, Call, Reply, RuntimeError}
use sttork.DorkWorker.Runtime.Operations.{snapshot_method}
use sttork.DorkWorker.Runtime.Restore.{restore_method, restore_response}
use sttork.DorkWorker.Runtime.Meanwhile.{Meanwhile, Anything}
use sttork.DorkWorker.Runtime.Saved.{IsSaved, saved, booted_first, thrown, snapshot_method-IsSaved}
use sttork.DorkWorker.Runtime.Restored.{Gave, restore_method-IsRestored}
use sttork.DorkWorker.Runtime.Restored.Outcomes.{IsRestored}

saved_receipts :
    (utf8 : Utf8) (snapshot : EngineSnapshot) (r : Outcome RuntimeError ResponseBody)
    (s : DorkWorkerRuntime)
    → IsSaved utf8 r s
    → r ≡ ok (snapshot_result snapshot)
    → s.disposed ≡ false
    → (e : WorkerSnapshotEnvelope) × (decode_envelope utf8 snapshot.bytes ≡ ok e)
      × (e.receipts ≡ s.receipts)
saved_receipts utf8 snapshot r s (saved other e a d v (inl k)) h alive =
    (e, ground (arith, a, h, d), k)
saved_receipts utf8 snapshot r s (saved other e a d v (inr k)) h alive =
    absurd (ground (arith, k, alive))
saved_receipts utf8 snapshot r s (booted_first a) h alive = absurd (ground (arith, a, h))
saved_receipts utf8 snapshot r s (thrown x a) h alive = absurd (ground (arith, a, h))

restored_receipts :
    (gave : List ℕ → ℕ → Type 0) (utf8 : Utf8) (snapshot : EngineSnapshot)
    (start : DorkWorkerRuntime) (r : Outcome RuntimeError ResponseBody) (s : DorkWorkerRuntime)
    (revision : ℕ) (boundary : Boundary) (e : WorkerSnapshotEnvelope)
    → IsRestored gave utf8 snapshot start r s
    → r ≡ ok (restore_response restored revision boundary)
    → decode_envelope utf8 snapshot.bytes ≡ ok e
    → s.receipts ≡ e.receipts
restored_receipts gave utf8 snapshot start r s revision boundary e
      (IsRestored.taken other session size d v a c z j) h g =
    ground (arith, d, g, j)
restored_receipts gave utf8 snapshot start r s revision boundary e (IsRestored.refused x n b a l) h
      g =
    absurd (ground (arith, a, h))
restored_receipts gave utf8 snapshot start r s revision boundary e (IsRestored.booted_first a l) h
      g =
    absurd (ground (arith, a, h))
restored_receipts gave utf8 snapshot start r s revision boundary e (IsRestored.thrown x a l) h g =
    absurd (ground (arith, a, h))

-- When one runtime has taken a snapshot and was not disposed of meanwhile, and any runtime answers
-- that it has restored that snapshot, then this one holds exactly the receipts that the first held,
-- so that what was answered before is answered again. Nothing but a disposal happens while the
-- methods wait, and the platform's UTF-8 encoding is never shorter than the text.
pub restore-snapshot :
    (utf8 : Utf8) (laws : IsUtf8 utf8) (w w' : World DorkWorkerRuntime Call Reply) (n n' : ℕ)
    (s t : DorkWorkerRuntime) (snapshot : EngineSnapshot) (revision : ℕ) (boundary : Boundary)
    → ((m : ℕ) (x : DorkWorkerRuntime) → Meanwhile x (w.meanwhile m x))
    → ((m : ℕ) (x : DorkWorkerRuntime) → Meanwhile x (w'.meanwhile m x))
    → (run w n s (snapshot_method utf8)).outcome ≡ ok (snapshot_result snapshot)
    → (run w n s (snapshot_method utf8)).final.disposed ≡ false
    → (run w' n' t (restore_method utf8 snapshot)).outcome
      ≡ ok (restore_response restored revision boundary)
    → (run w' n' t (restore_method utf8 snapshot)).final.receipts
      ≡ (run w n s (snapshot_method utf8)).final.receipts
restore-snapshot utf8 laws w w' n n' s t snapshot revision boundary fair fair' taken alive
      answered =
    let first = run w n s (snapshot_method utf8) in
    let second = run w' n' t (restore_method utf8 snapshot) in
    let (e, d, k) =
      saved_receipts utf8 snapshot first.outcome first.final
        (Ensures-run Anything Meanwhile w fair (IsSaved utf8) (snapshot_method utf8) n s
          (snapshot_method-IsSaved utf8 laws s))
        taken alive in
    restored_receipts (Gave w') utf8 snapshot t second.outcome second.final revision boundary e
      (restore_method-IsRestored utf8 snapshot t w' n' fair') answered d
    ∙ k
