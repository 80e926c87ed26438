-- ===== src/DorkWorker/Snapshot/Relative.antt =====
-- spikes/dork-worker/worker-snapshot-envelope.ts: the checks of the receipts against one another
-- and against the public state. A `Set` is the list of what was added, the last first.
use sttork.Base.{
  ℕ, zero, suc, Bool, true, false, not, ◌&&◌, ◌||◌, List, [], ◌∷◌, ltb, ◌==◌, any, holds,
}
use sttork.Base.Text.{Text, ◌===◌}
use sttork.Base.Outcome.{Outcome, ok, err, ◌>>=◌, ◌>>◌, throw_if}
use sttork.Contracts.Engine.{Boundary, Boundary-discrete, ExecuteResult, ExecuteStatus}
use sttork.DorkWorker.Snapshot.Format.{
  CodecError, duplicate_request_id, invalid_value, WorkerSnapshotReceipt,
}

-- `a === b` on turn boundaries
abbrev pub same_boundary : Boundary → Boundary → Bool
same_boundary a b = holds (Boundary-discrete a b)

abbrev pub has_text : List Text → Text → Bool
has_text seen t = any (λ s. s === t) seen

abbrev pub has : List ℕ → ℕ → Bool
has seen n = any (λ m. m == n) seen

abbrev pub commits : ExecuteStatus → Bool
commits ExecuteStatus.committed = true
commits (ExecuteStatus.rejected r) = false

-- The public state that the receipts are checked against.
pub record PublicState : Type 0 where
  pub revision : ℕ
  pub last_output : Text
  pub boundary : Boundary

-- The checks on one result, given the revisions that earlier receipts committed.
unfoldable pub check_result : PublicState → List ℕ → ExecuteResult → Outcome CodecError (Unit {0})
unfolding Boundary-discrete
check_result state committed result = do
  throw_if (ltb state.revision result.previous_revision || ltb state.revision result.revision)
      invalid_value
  throw_if (commits result.status && has committed result.revision) invalid_value
  throw_if
      (commits result.status
        && (result.revision == state.revision)
        && (not (result.output === state.last_output)
            || not (same_boundary result.boundary state.boundary)))
      invalid_value
  throw_if
      ((result.revision == state.revision) && not (same_boundary result.boundary state.boundary))
      invalid_value

-- `committedRevisions.add(result.revision)`, for a committed result
abbrev pub add_committed : ExecuteResult → List ℕ → List ℕ
add_committed result committed = elim (commits (result.status)) [
  | true ↦ result.revision ∷ committed
  | false ↦ committed
]

-- The loop over the receipts: it gives the revisions that they committed.
unfoldable pub check_receipts :
    PublicState → List Text → List ℕ → List WorkerSnapshotReceipt → Outcome CodecError (List ℕ)
unfolding check_result
check_receipts state ids committed [] = ok committed
check_receipts state ids committed (receipt ∷ receipts) = do
  throw_if (has_text ids receipt.request_id) duplicate_request_id
  check_result state committed receipt.result
  check_receipts state (receipt.request_id ∷ ids) (add_committed receipt.result committed) receipts

-- The second loop: `rounds` revisions from `next` on are each among the committed.
unfoldable pub require_revisions : ℕ → ℕ → List ℕ → Outcome CodecError (Unit {0})
require_revisions zero next committed = ok tt
require_revisions (suc rounds) next committed = elim (has committed next) [
  | true ↦ require_revisions rounds (suc next) committed
  | false ↦ err invalid_value
]

-- `validateReceiptsRelativeToEnvelope`
unfoldable pub validate_receipts_relative :
    List WorkerSnapshotReceipt → PublicState → Outcome CodecError (Unit {0})
unfolding check_receipts require_revisions
validate_receipts_relative receipts state = do
  committed ← check_receipts state [] [] receipts
  require_revisions state.revision 1 committed
