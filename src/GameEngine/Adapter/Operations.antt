-- ===== src/GameEngine/Adapter/Operations.antt =====
-- The methods of `WorkerEngineAdapter`.
use sttork.Base.{ℕ, Bool, Option, none, some, holds, if◌then◌else◌}
use sttork.Base.Outcome.{Outcome, ok, err, require}
use sttork.Async.{Proc, ret, throw, get, put, ask, await, ◌>>=◌, ◌>>◌, catch, finally, lift, state}
use sttork.Contracts.Engine.{
  BootRequest, BootResult, Boundary, Compatibility, ExecuteRequest, ExecuteResult, EngineSnapshot,
  incompatible_snapshot, corrupt_snapshot, RestoreResult, PublicEngineState,
}
use sttork.GameEngine.Protocol.{
  engine_worker_protocol_version, EngineWorkerRequest, RequestBody, ResponseBody,
}
use sttork.GameEngine.Checks.{
  AdapterError, state_error, execution_uncertain, restore_uncertain, boot_uncertain,
  require_nonempty_string, same_compatibility, validate_snapshot,
}
use sttork.GameEngine.Adapter.State.{
  Operation, boot, execute, snapshot, restore, inspect_public_state, Operation-discrete, Recovery,
  boot_quarantined, execute_uncertain, restore_quarantined, Adapter, Call, next_message_id,
  exchange, digest_sha256, Reply,
}
use sttork.GameEngine.Adapter.Guards.{
  admit_boot, admit_execute, admit_snapshot, admit_restore, rejected_restore, admit_inspect,
}
use sttork.GameEngine.Adapter.Replies.{
  or_port, open_response, expect_boot, expect_execute, expect_snapshot, expect_restore,
  expect_inspect, accept_boot, accept_execute, digest_matches, accept_snapshot, accept_restore,
  accept_inspect,
}

abbrev pub Method : Type 0 → Type 0
Method A = Proc Adapter AdapterError Call Reply A

unfoldable pub require_idle : Option Operation → Outcome AdapterError (Unit {0})
require_idle none = ok tt
require_idle (some _) = err state_error

-- `#beginOperation`
unfoldable pub begin_operation : Operation → Method (Unit {0})
begin_operation operation = do
  self ← state
  lift (require_idle self.operation_in_flight)
  put (record self { operation_in_flight = some operation }) (ret tt)

unfoldable pub require_running : Operation → Option Operation → Outcome AdapterError (Unit {0})
require_running operation none = err state_error
require_running operation (some other) =
    require (holds (Operation-discrete operation other)) state_error

-- `#endOperation`
unfoldable pub end_operation : Operation → Method (Unit {0})
end_operation operation = do
  self ← state
  lift (require_running operation self.operation_in_flight)
  put (record self { operation_in_flight = none }) (ret tt)

-- `#allocateMessageId`, and the message around it.
unfoldable pub new_message : RequestBody → Method EngineWorkerRequest
new_message body = do
  reply ← ask next_message_id ret
  message_id ← lift (or_port reply)
  lift (require_nonempty_string message_id)
  ret (record {
    protocol_version = engine_worker_protocol_version;
    message_id = message_id;
    body = body;
  })

-- `#exchange`
unfoldable pub send :
    {A : Type 0} → EngineWorkerRequest → (ResponseBody → Outcome AdapterError A) → Method A
send message expect = do
  reply ← await (exchange message) ret
  lift (open_response message expect reply)

-- Take the state over that a reply was accepted into.
abbrev pub settle : {A : Type 0} → (Adapter → Outcome AdapterError Adapter) → A → Method A
settle accept result = do now ← state; next ← lift (accept now); put next (ret result)

-- Send a message and believe its reply; a failure is recorded and thrown on, wrapped.
unfoldable pub submit :
    {A : Type 0}
    → EngineWorkerRequest
    → (ResponseBody → Outcome AdapterError A)
    → (A → Adapter → Outcome AdapterError Adapter)
    → Recovery
    → (AdapterError → AdapterError)
    → Method A
unfolding send
submit message expect accept recovery wrap =
    catch (send message expect >>= λ result. settle (accept result) result)
      (λ e. get λ self. put (record self { recovery = recovery }) (throw (wrap e)))

unfoldable pub boot_method : BootRequest → Method BootResult
unfolding begin_operation end_operation new_message submit
boot_method input = do
  self ← state
  lift (admit_boot self input)
  message ← new_message (RequestBody.boot input)
  begin_operation boot
  finally
      (submit message expect_boot (λ result now. accept_boot now input result)
        (boot_quarantined input.story_id) (boot_uncertain input.story_id))
      (end_operation boot)

unfoldable pub execute_method : ExecuteRequest → (aborted : Bool) → Method ExecuteResult
unfolding begin_operation end_operation new_message submit
execute_method input aborted = do
  self ← state
  (revision, boundary) ← lift (admit_execute self input aborted)
  message ← new_message (RequestBody.execute input)
  begin_operation execute
  finally
      (submit message expect_execute
        (λ result now. accept_execute now input revision boundary result)
        (execute_uncertain input.request_id input.expected_revision input.command)
        (execution_uncertain input.request_id input.expected_revision))
      (end_operation execute)

unfoldable pub take_snapshot : ℕ → Compatibility → EngineWorkerRequest → Method EngineSnapshot
unfolding send
take_snapshot revision compatibility message = do
  taken ← send message expect_snapshot
  lift (validate_snapshot taken)
  reply ← await (digest_sha256 taken.bytes) ret
  lift (accept_snapshot revision compatibility taken reply)

unfoldable pub snapshot_method : Method EngineSnapshot
unfolding begin_operation end_operation new_message take_snapshot
snapshot_method = do
  self ← state
  (revision, compatibility) ← lift (admit_snapshot self)
  message ← new_message RequestBody.snapshot
  begin_operation snapshot
  finally (take_snapshot revision compatibility message) (end_operation snapshot)

-- From the message on, a failure leaves it open whether the worker has restored.
unfoldable pub submit_restore :
    EngineSnapshot → ℕ → Boundary → EngineWorkerRequest → Method RestoreResult
submit_restore candidate revision boundary message =
    submit message expect_restore
      (λ result now. accept_restore now candidate revision boundary result)
      (restore_quarantined candidate.revision) (restore_uncertain candidate.revision)

-- `restore` from the digest on.
unfoldable pub check_and_submit : EngineSnapshot → ℕ → Boundary → Method RestoreResult
unfolding new_message submit_restore
check_and_submit candidate revision boundary = do
  reply ← await (digest_sha256 candidate.bytes) ret
  matches ← lift (digest_matches candidate reply)
  if matches
      then new_message (RequestBody.restore candidate)
        >>= submit_restore candidate revision boundary
      else ret (rejected_restore corrupt_snapshot revision boundary)

unfoldable pub restore_method : EngineSnapshot → Method RestoreResult
unfolding begin_operation end_operation check_and_submit
restore_method candidate = do
  self ← state
  (revision, boundary, compatibility) ← lift (admit_restore self)
  begin_operation restore
  finally
      (lift (validate_snapshot candidate) >>= λ _.
        if same_compatibility candidate.compatibility compatibility
        then check_and_submit candidate revision boundary
        else ret (rejected_restore incompatible_snapshot revision boundary))
      (end_operation restore)

unfoldable pub inspect_method : Method PublicEngineState
unfolding begin_operation end_operation new_message send
inspect_method = do
  self ← state
  (revision, boundary) ← lift (admit_inspect self)
  message ← new_message RequestBody.inspect_public_state
  begin_operation inspect_public_state
  finally
      (send message expect_inspect >>= λ seen.
        settle (λ now. accept_inspect now self.recovery revision boundary seen) seen)
      (end_operation inspect_public_state)

-- A call of a method, with its arguments.
pub data Task : Type 0 where
  boots : BootRequest → Task
  executes : ExecuteRequest → (aborted : Bool) → Task
  snapshots : Task
  restores : EngineSnapshot → Task
  inspects : Task

abbrev discard : {A : Type 0} → Method A → Method (Unit {0})
discard m = m >>= λ _. ret tt

unfoldable pub perform : Task → Method (Unit {0})
unfolding boot_method execute_method snapshot_method restore_method inspect_method
perform (boots input) = discard (boot_method input)
perform (executes input aborted) = discard (execute_method input aborted)
perform snapshots = discard snapshot_method
perform (restores candidate) = discard (restore_method candidate)
perform inspects = discard inspect_method
