-- ===== src/DorkWorker/Runtime/Receipts.antt =====
-- The receipts of spikes/dork-worker/dork-worker-runtime.ts. A clone of a receipt is the receipt.
use sttork.Base.{
  ℕ, zero, suc, Bool, true, false, List, [], ◌∷◌, leb, ltb, length, ◌+◌, Option, none, some,
  if◌then◌else◌, is_some,
}
use sttork.Base.Text.{Text, ◌===◌}
use sttork.Base.Outcome.{Outcome, ok, err, ◌>>=◌, ◌>>◌, require, throw_if}
use sttork.Contracts.Engine.{
  Boundary, input_requested, ExecuteRequest, ExecuteResult, committed, rejected, Rejection,
}
use sttork.DorkWorker.Snapshot.Format.{
  Utf8, WorkerSnapshotReceipt, WorkerSnapshotEnvelope, max_output_bytes,
}
use sttork.DorkWorker.Snapshot.Prepare.{measure_receipt_bytes}
use sttork.DorkWorker.Runtime.State.{RuntimeError, failure, DorkWorkerRuntime}

-- `receipts.get(requestId)`
unfoldable pub find : Text → List WorkerSnapshotReceipt → Option WorkerSnapshotReceipt
find request_id [] = none
find request_id (receipt ∷ receipts) = elim (receipt.request_id === request_id) [
  | true ↦ some receipt
  | false ↦ find request_id receipts
]

-- `receipts.set(receipt.requestId, receipt)`: in place where the key is there, else at the end
unfoldable pub set : WorkerSnapshotReceipt → List WorkerSnapshotReceipt → List WorkerSnapshotReceipt
set stored [] = stored ∷ []
set stored (receipt ∷ receipts) = elim (receipt.request_id === stored.request_id) [
  | true ↦ stored ∷ receipts
  | false ↦ receipt ∷ set stored receipts
]

-- `measureWorkerSnapshotReceiptBytes`, whose errors are not those of an invalid request
unfoldable pub measured : Utf8 → WorkerSnapshotReceipt → Outcome RuntimeError ℕ
unfolding measure_receipt_bytes
measured utf8 receipt = elim (measure_receipt_bytes utf8 receipt) [
  | ok n ↦ ok n
  | err e ↦ err failure
]

-- `#canRecordReceipt`
unfoldable pub can_record_receipt :
    Utf8 → DorkWorkerRuntime → WorkerSnapshotReceipt → Outcome RuntimeError Bool
unfolding measured
can_record_receipt utf8 self receipt =
    if ltb (length self.receipts) self.max_receipts
    then (do
      size ← measured utf8 receipt
      ok (leb (self.receipt_journal_bytes + size) self.max_receipt_journal_bytes))
    else ok false

-- `#recordReceipt`
unfoldable pub record_receipt :
    Utf8 → WorkerSnapshotReceipt → DorkWorkerRuntime → Outcome RuntimeError DorkWorkerRuntime
unfolding can_record_receipt set measured
record_receipt utf8 stored self = do
  fits ← can_record_receipt utf8 self stored
  require fits failure
  size ← measured utf8 stored
  ok (record self {
    receipts = set stored (self.receipts);
    receipt_journal_bytes = self.receipt_journal_bytes + size;
  })

-- `"x".repeat(n)`
unfoldable pub repeat_x : ℕ → Text
repeat_x zero = []
repeat_x (suc n) = b'x' ∷ repeat_x n

-- A command that ran, and what it is recorded with.
abbrev pub committed_result : Text → ℕ → ℕ → Text → Text → Boundary → ExecuteResult
committed_result request_id previous_revision revision command output boundary = record {
  request_id = request_id;
  previous_revision = previous_revision;
  revision = revision;
  command = command;
  output = output;
  turn_complete = true;
  boundary = boundary;
  status = committed;
}

-- `#rejectedExecute`
abbrev pub rejected_execute : Text → Text → ℕ → Boundary → Rejection → ExecuteResult
rejected_execute request_id command revision boundary rejection = record {
  request_id = request_id;
  previous_revision = revision;
  revision = revision;
  command = command;
  output = [];
  turn_complete = true;
  boundary = boundary;
  status = rejected rejection;
}

-- The receipt of a request's result.
abbrev pub receipt_of : ExecuteRequest → ExecuteResult → WorkerSnapshotReceipt
receipt_of input result = record {
  request_id = input.request_id;
  expected_revision = input.expected_revision;
  command = input.command;
  result = result;
}

-- `#canRecordWorstCaseCommittedReceipt`
unfoldable pub can_record_worst_case :
    Utf8 → DorkWorkerRuntime → ExecuteRequest → ℕ → Outcome RuntimeError Bool
unfolding can_record_receipt repeat_x
can_record_worst_case utf8 self input previous_revision = can_record_receipt utf8 self (
    receipt_of input (
      committed_result input.request_id previous_revision (suc previous_revision) input.command
        (repeat_x max_output_bytes) input_requested))

-- The loop of `#validateRestoredReceipts`.
unfoldable pub restored_from :
    Utf8
    → ℕ
    → List WorkerSnapshotReceipt
    → ℕ
    → List WorkerSnapshotReceipt
    → Outcome RuntimeError (List WorkerSnapshotReceipt × ℕ)
unfolding find measured set
restored_from utf8 maximum receipts size [] = ok (receipts, size)
restored_from utf8 maximum receipts size (stored ∷ rest) = do
  throw_if (is_some (find stored.request_id receipts)) failure
  amount ← measured utf8 stored
  throw_if (ltb maximum (size + amount)) failure
  restored_from utf8 maximum (set stored receipts) (size + amount) rest

-- `#validateRestoredReceipts`
unfoldable pub validate_restored_receipts :
    Utf8
    → DorkWorkerRuntime
    → WorkerSnapshotEnvelope
    → Outcome RuntimeError (List WorkerSnapshotReceipt × ℕ)
unfolding restored_from
validate_restored_receipts utf8 self envelope = do
  throw_if (ltb self.max_receipts (length envelope.receipts)) failure
  restored_from utf8 self.max_receipt_journal_bytes [] 0 envelope.receipts
