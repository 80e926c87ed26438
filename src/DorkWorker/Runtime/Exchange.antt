-- ===== src/DorkWorker/Runtime/Exchange.antt =====
-- `exchange` of `DorkWorkerRuntime`: one message, and its response. A message of another kind than
-- the protocol's five has no counterpart.
use sttork.Base.{true, false, not, ◌==◌, if◌then◌else◌}
use sttork.Base.Text.{codes}
use sttork.Async.{ret, throw, put, ◌>>=◌, ◌>>◌, lift, state, catch, finally, modify}
use sttork.GameEngine.Protocol.{
  engine_worker_protocol_version, EngineWorkerRequest, EngineWorkerResponse, RequestBody,
  ResponseBody, error, invalid_request, internal_error,
}
use sttork.DorkWorker.Snapshot.Format.{Utf8}
use sttork.DorkWorker.Runtime.State.{Method, RuntimeError, invalid_request_error}
use sttork.DorkWorker.Runtime.Checks.{require_bounded_id}
use sttork.DorkWorker.Runtime.Execute.{execute_method}
use sttork.DorkWorker.Runtime.Operations.{boot_method, snapshot_method, inspect_method}
use sttork.DorkWorker.Runtime.Restore.{restore_method}

-- The response to an error that was thrown.
unfoldable pub error_response : RuntimeError → ResponseBody
error_response RuntimeError.invalid_request_error =
    error invalid_request (codes "The engine worker request is invalid.")
error_response RuntimeError.failure =
    error internal_error (codes "The engine worker request could not be completed.")

-- The switch on the message's kind.
unfoldable pub dispatch : Utf8 → RequestBody → Method ResponseBody
unfolding boot_method execute_method snapshot_method restore_method inspect_method
dispatch utf8 (RequestBody.boot input) = boot_method utf8 input
dispatch utf8 (RequestBody.execute input) = execute_method utf8 input
dispatch utf8 RequestBody.snapshot = snapshot_method utf8
dispatch utf8 (RequestBody.restore candidate) = restore_method utf8 candidate
dispatch utf8 RequestBody.inspect_public_state = inspect_method

-- The part under `try`.
unfoldable pub answer : Utf8 → EngineWorkerRequest → Method ResponseBody
unfolding require_bounded_id dispatch
answer utf8 request = do
  self ← state
  if self.disposed
      then ret (error internal_error (codes "The engine worker runtime is unavailable."))
      else (do
        lift (require_bounded_id utf8 request.message_id)
        if not (request.protocol_version == engine_worker_protocol_version)
            then throw invalid_request_error
            else dispatch utf8 request.body)

abbrev pub release : Method (Unit {0})
release = modify (λ now. record now { operation_in_flight = false })

-- `#error` and the other responses carry the version and the message's identity.
abbrev pub respond : EngineWorkerRequest → ResponseBody → EngineWorkerResponse
respond request body = record {
  protocol_version = engine_worker_protocol_version;
  message_id = request.message_id;
  body = body;
}

abbrev pub answered : Utf8 → EngineWorkerRequest → Method ResponseBody
answered utf8 request = finally (catch (answer utf8 request) (λ e. ret (error_response e))) release

unfoldable pub exchange : Utf8 → EngineWorkerRequest → Method EngineWorkerResponse
unfolding answer error_response
exchange utf8 request = do
  self ← state
  if self.operation_in_flight
      then ret (
          respond request
            (error invalid_request (codes "Another engine operation is already in flight.")))
      else put (record self { operation_in_flight = true })
          (do body ← answered utf8 request; ret (respond request body))
