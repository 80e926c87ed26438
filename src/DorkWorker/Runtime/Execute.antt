-- ===== src/DorkWorker/Runtime/Execute.antt =====
-- `#execute` of `DorkWorkerRuntime`. A method gives the body of its response.
use sttork.Base.{ℕ, suc, Bool, false, not, ◌&&◌, ◌==◌, Option, none, some, if◌then◌else◌}
use sttork.Base.Text.{Text, codes, ◌===◌}
use sttork.Base.Outcome.{ok, err}
use sttork.Async.{ret, throw, put, await, ◌>>=◌, ◌>>◌, lift, state}
use sttork.Contracts.Command.{canonicalize_command, string}
use sttork.Contracts.Engine.{
  terminated, ExecuteRequest, ExecuteResult, PublicEngineState, Rejection, duplicate,
  invalid_command, stale_revision, receipt_capacity, max_safe_integer,
}
use sttork.GameEngine.Protocol.{ResponseBody, execute_result, error, not_booted, invalid_request}
use sttork.DorkWorker.Snapshot.Format.{Utf8, WorkerSnapshotReceipt}
use sttork.DorkWorker.Snapshot.Relative.{same_boundary}
use sttork.DorkWorker.Runtime.State.{
  DorkTurn, Executed, turn, over_limit, threw, execute_session, Method, failure, inspect,
}
use sttork.DorkWorker.Runtime.Checks.{require_bounded_id, require_revision}
use sttork.DorkWorker.Runtime.Receipts.{
  find, can_record_receipt, can_record_worst_case, record_receipt, rejected_execute,
  committed_result, receipt_of,
}

abbrev pub must_boot : ResponseBody
must_boot = error not_booted (codes "The engine worker must be booted first.")

-- `candidate === command`, false where `canonicalizeCommand` throws
unfoldable pub is_canonical : Text → Bool
is_canonical command = elim (canonicalize_command (string command)) [
  | ok candidate ↦ candidate === command
  | err e ↦ false
]

abbrev pub rejection_of : ExecuteRequest → PublicEngineState → Rejection → ExecuteResult
rejection_of input seen rejection =
    rejected_execute (input.request_id) (input.command) (seen.revision) (seen.boundary) rejection

-- What was committed is what the session shows.
unfoldable pub is_consistent : PublicEngineState → DorkTurn → PublicEngineState → Bool
is_consistent before ran after =
    (after.revision == suc (before.revision))
    && (after.last_output === ran.output)
    && same_boundary after.boundary ran.boundary

module _ (utf8 : Utf8) where
  -- Record a result's receipt, then answer with the result.
  unfoldable pub record_result : ExecuteRequest → ExecuteResult → Method ResponseBody
  unfolding record_receipt
  record_result input result = do
    now ← state
    next ← lift (record_receipt utf8 (receipt_of input result) now)
    put next (ret (execute_result result))

  -- A rejection that is recorded if there is room for it.
  unfoldable pub reject : ExecuteRequest → PublicEngineState → Rejection → Method ResponseBody
  unfolding record_result can_record_receipt
  reject input seen rejection = do
    now ← state
    fits ← lift (can_record_receipt utf8 now (receipt_of input (rejection_of input seen rejection)))
    if fits
        then record_result input (rejection_of input seen rejection)
        else ret (execute_result (rejection_of input seen receipt_capacity))

  -- A request whose identity has a receipt.
  unfoldable pub repeated : ℕ → ExecuteRequest → WorkerSnapshotReceipt → Method ResponseBody
  unfolding inspect
  repeated session input existing =
      if (existing.expected_revision == input.expected_revision)
        && (existing.command === input.command)
      then ret (execute_result existing.result)
      else (do seen ← inspect session; ret (execute_result (rejection_of input seen duplicate)))

  -- After the session has run the command.
  unfoldable pub after_execute :
      ℕ → ExecuteRequest → PublicEngineState → Executed → Method ResponseBody
  unfolding inspect can_record_receipt record_result is_consistent
  after_execute session input seen threw = throw failure
  after_execute session input seen over_limit = do
    current ← inspect session
    now ← state
    fits ← lift (
        can_record_receipt utf8 now (receipt_of input (rejection_of input current invalid_command)))
    if fits then record_result input (rejection_of input current invalid_command) else throw failure
  after_execute session input seen (turn t) = do
    after ← inspect session
    if is_consistent seen t after
        then record_result input (
            committed_result (input.request_id) (seen.revision) (after.revision) (input.command)
              (t.output) (t.boundary))
        else throw failure

  -- Run the command, if the receipt of any result that it may have fits.
  unfoldable pub run_command : ℕ → ExecuteRequest → PublicEngineState → Method ResponseBody
  unfolding can_record_worst_case after_execute
  run_command session input seen = do
    now ← state
    fits ← lift (can_record_worst_case utf8 now input seen.revision)
    if fits
        then (do
          executed ← await (execute_session session input.command) ret
          after_execute session input seen executed)
        else ret (execute_result (rejection_of input seen receipt_capacity))

  -- A request with a new identity.
  unfoldable pub execute_new : ℕ → ExecuteRequest → Method ResponseBody
  unfolding inspect is_canonical reject run_command
  execute_new session input = do
    seen ← inspect session
    if not (is_canonical input.command)
        then ret (error invalid_request (codes "The engine command is not in canonical form."))
        else (if same_boundary seen.boundary terminated
            then reject input seen invalid_command
            else (if not (input.expected_revision == seen.revision)
                then reject input seen stale_revision
                else (if seen.revision == max_safe_integer
                    then throw failure
                    else run_command session input seen)))

  unfoldable pub execute_found :
      ℕ → ExecuteRequest → Option WorkerSnapshotReceipt → Method ResponseBody
  unfolding repeated execute_new
  execute_found session input none = execute_new session input
  execute_found session input (some existing) = repeated session input existing

  unfoldable pub execute_in : Option ℕ → ExecuteRequest → Method ResponseBody
  unfolding require_bounded_id require_revision execute_found find
  execute_in none input = ret must_boot
  execute_in (some session) input = do
    lift (require_bounded_id utf8 input.request_id)
    lift (require_revision input.expected_revision)
    now ← state
    execute_found session input (find input.request_id now.receipts)

  unfoldable pub execute_method : ExecuteRequest → Method ResponseBody
  unfolding execute_in
  execute_method input = do self ← state; execute_in self.session input
