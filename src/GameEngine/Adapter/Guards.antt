-- ===== src/GameEngine/Adapter/Guards.antt =====
-- What a call of the adapter must pass before its message is sent.
use sttork.Base.{ℕ, Bool, true, false, not, ◌&&◌, ◌||◌, [], Option, none, some, is_some, ◌==◌}
use sttork.Base.Text.{Text, ◌===◌, codes}
use sttork.Base.Outcome.{Outcome, ok, err, ◌>>=◌, ◌>>◌, throw_if}
use sttork.Contracts.Command.{CommandError, string, canonicalize_command}
use sttork.Contracts.Engine.{
  BootRequest, Boundary, terminated, Compatibility, ExecuteRequest, RestoreRejection, RestoreStatus,
  RestoreResult,
}
use sttork.GameEngine.Checks.{
  AdapterError, type_error, state_error, command_error, execution_cancelled, Checked,
  require_nonempty_string, require_sha256, require_revision, validate_compatibility,
}
use sttork.GameEngine.Adapter.State.{
  EngineWorkerBinding, Recovery, ready, boot_quarantined, execute_uncertain, restore_quarantined,
  Adapter,
}

-- `#requireRevision`, `#requireBoundary`, `#requireCompatibility`
abbrev pub require_booted : {A : Type 0} → Option A → Outcome AdapterError A
require_booted none = err state_error
require_booted (some a) = ok a

-- The constructor.
unfoldable pub create : EngineWorkerBinding → Outcome AdapterError Adapter
unfolding validate_compatibility
create binding = do
  validate_compatibility (record {
    story = record {
      id = codes "binding-validation-placeholder";
      artifact_sha256 = codes "0000000000000000000000000000000000000000000000000000000000000000";
    };
    runtime = binding.runtime;
    adapter = binding.adapter;
    snapshot_schema_version = binding.snapshot_schema_version;
  })
  ok (record {
    binding = binding;
    compatibility = none;
    revision = none;
    boundary = none;
    operation_in_flight = none;
    recovery = ready;
  })

abbrev is_boot_quarantined : Recovery → Bool
is_boot_quarantined (boot_quarantined _) = true
is_boot_quarantined _ = false

-- `boot` up to its message.
unfoldable pub admit_boot : Adapter → BootRequest → Checked
unfolding require_nonempty_string require_sha256
admit_boot self input = do
  throw_if (is_boot_quarantined self.recovery) state_error
  throw_if (is_some self.compatibility) state_error
  require_nonempty_string input.story_id
  require_sha256 input.artifact_sha256

-- `#assertExecuteAllowed`
unfoldable pub assert_execute_allowed : Recovery → ExecuteRequest → Outcome AdapterError Bool
assert_execute_allowed (restore_quarantined _) input = err state_error
assert_execute_allowed (execute_uncertain request_id expected_revision command) input = do
  throw_if
      (not (request_id === input.request_id)
        || not (expected_revision == input.expected_revision)
        || not (command === input.command))
      state_error
  ok true
assert_execute_allowed _ input = ok false

abbrev is_terminated : Boundary → Bool
is_terminated terminated = true
is_terminated _ = false

abbrev of_command : Outcome CommandError Text → Outcome AdapterError Text
of_command (ok t) = ok t
of_command (err e) = err (command_error e)

-- `execute` up to its message: the revision and the boundary that it starts from.
unfoldable pub admit_execute :
    Adapter → ExecuteRequest → (aborted : Bool) → Outcome AdapterError (ℕ × Boundary)
unfolding require_nonempty_string require_revision assert_execute_allowed
admit_execute self input aborted = do
  revision ← require_booted self.revision
  boundary ← require_booted self.boundary
  require_nonempty_string input.request_id
  require_revision input.expected_revision
  canonical_command ← of_command (canonicalize_command (string input.command))
  throw_if (not (canonical_command === input.command)) type_error
  throw_if aborted (execution_cancelled input.request_id)
  resolves ← assert_execute_allowed self.recovery input
  throw_if (is_terminated boundary && not resolves) state_error
  ok (revision, boundary)

-- `#assertReadyOperation`
unfoldable pub assert_ready_operation : Recovery → Checked
assert_ready_operation (execute_uncertain _ _ _) = err state_error
assert_ready_operation (restore_quarantined _) = err state_error
assert_ready_operation _ = ok tt

unfoldable pub admit_snapshot : Adapter → Outcome AdapterError (ℕ × Compatibility)
unfolding assert_ready_operation
admit_snapshot self = do
  revision ← require_booted self.revision
  compatibility ← require_booted self.compatibility
  assert_ready_operation self.recovery
  ok (revision, compatibility)

unfoldable pub admit_restore : Adapter → Outcome AdapterError (ℕ × Boundary × Compatibility)
unfolding assert_ready_operation
admit_restore self = do
  revision ← require_booted self.revision
  boundary ← require_booted self.boundary
  compatibility ← require_booted self.compatibility
  assert_ready_operation self.recovery
  ok (revision, boundary, compatibility)

-- The result of a restore that the adapter refuses by itself.
unfoldable pub rejected_restore : RestoreRejection → ℕ → Boundary → RestoreResult
rejected_restore rejection revision boundary = record {
  revision = revision;
  output = [];
  turn_complete = true;
  boundary = boundary;
  status = RestoreStatus.rejected rejection;
}

unfoldable pub admit_inspect : Adapter → Outcome AdapterError (ℕ × Boundary)
admit_inspect self = do
  revision ← require_booted self.revision
  boundary ← require_booted self.boundary
  ok (revision, boundary)
