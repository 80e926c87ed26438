-- ===== src/GameEngine/Checks.antt =====
-- The checks of packages/game-engine/src/worker-engine-adapter.ts that read no state.
use sttork.Base.{ℕ, suc, Bool, true, false, not, ◌&&◌, ◌||◌, leb, ltb, ◌==◌, holds, all, length}
use sttork.Base.Text.{Text, ◌===◌}
use sttork.Base.Outcome.{Outcome, ok, err, ◌>>◌, require, throw_if}
use sttork.Contracts.Command.{CommandError}
use sttork.Contracts.Engine.{
  max_engine_snapshot_bytes, max_safe_integer, Boundary, input_requested, terminated,
  Boundary-discrete, Compatibility, ExecuteRequest, Rejection, ExecuteStatus, committed,
  ExecuteResult, EngineSnapshot,
}

-- What a method of the adapter may throw. `port` is what the transport or the digest threw.
pub data AdapterError : Type 0 where
  type_error range_error state_error protocol_error port : AdapterError
  command_error : CommandError → AdapterError
  execution_cancelled : (request_id : Text) → AdapterError
  execution_uncertain : (request_id : Text) (expected_revision : ℕ) → AdapterError → AdapterError
  restore_uncertain : (snapshot_revision : ℕ) → AdapterError → AdapterError
  boot_uncertain : (story_id : Text) → AdapterError → AdapterError

abbrev pub Checked : Type 0
Checked = Outcome AdapterError (Unit {0})

unfoldable pub require_nonempty_string : Text → Checked
require_nonempty_string value = throw_if (length value == 0) type_error

-- `[a-f0-9]`
unfoldable pub is_hex : ℕ → Bool
is_hex c = (leb b'a' c && leb c b'f') || (leb b'0' c && leb c b'9')

unfoldable pub require_sha256 : Text → Checked
unfolding is_hex
require_sha256 value = require ((length value == 64) && all is_hex value) type_error

unfoldable pub require_revision : ℕ → Checked
require_revision value = require (leb value max_safe_integer) range_error

unfoldable pub require_turn_boundary : Boundary → Checked
require_turn_boundary input_requested = ok tt
require_turn_boundary terminated = ok tt
require_turn_boundary Boundary.invalid = err protocol_error

unfoldable pub require_turn_complete : Bool → Boundary → Checked
unfolding require_turn_boundary
require_turn_complete turn_complete boundary = do
  require turn_complete protocol_error
  require_turn_boundary boundary

unfoldable pub same_compatibility : Compatibility → Compatibility → Bool
same_compatibility left right =
    (left.story.id === right.story.id)
    && (left.story.artifact_sha256 === right.story.artifact_sha256)
    && (left.runtime.id === right.runtime.id)
    && (left.runtime.version === right.runtime.version)
    && (left.runtime.artifact_sha256 === right.runtime.artifact_sha256)
    && (left.adapter.id === right.adapter.id)
    && (left.adapter.version === right.adapter.version)
    && (left.snapshot_schema_version == right.snapshot_schema_version)

unfoldable pub validate_compatibility : Compatibility → Checked
unfolding require_nonempty_string require_sha256
validate_compatibility c = do
  require_nonempty_string c.story.id
  require_sha256 c.story.artifact_sha256
  require_nonempty_string c.runtime.id
  require_nonempty_string c.runtime.version
  require_sha256 c.runtime.artifact_sha256
  require_nonempty_string c.adapter.id
  require_nonempty_string c.adapter.version
  require (leb c.snapshot_schema_version max_safe_integer && leb 1 c.snapshot_schema_version)
      range_error

unfoldable pub validate_snapshot : EngineSnapshot → Checked
unfolding require_sha256 require_revision validate_compatibility
validate_snapshot snapshot = do
  throw_if (length snapshot.bytes == 0) type_error
  throw_if (ltb max_engine_snapshot_bytes (length snapshot.bytes)) range_error
  require_sha256 snapshot.sha256
  require_revision snapshot.revision
  validate_compatibility snapshot.compatibility

-- `left !== right` on turn boundaries
abbrev pub differs : Boundary → Boundary → Bool
differs left right = not (holds (Boundary-discrete left right))

abbrev pub is_valid_rejection : Rejection → Bool
is_valid_rejection Rejection.invalid = false
is_valid_rejection _ = true

-- The last part of `#validateExecuteResult`, by the result's status.
check_transition : ExecuteStatus → ExecuteRequest → ExecuteResult → ℕ → Boundary → Checked
check_transition committed input result current_revision current_boundary =
    throw_if
      (not (result.previous_revision == input.expected_revision)
        || not (result.revision == suc result.previous_revision)
        || (not (current_revision == result.previous_revision)
            && ltb current_revision result.revision)
        || ((result.revision == current_revision) && differs result.boundary current_boundary))
      protocol_error
check_transition (ExecuteStatus.rejected why) input result current_revision current_boundary =
    throw_if
      (not (is_valid_rejection why)
        || not (result.previous_revision == result.revision)
        || ltb current_revision result.revision
        || ((result.revision == current_revision) && differs result.boundary current_boundary))
      protocol_error

unfoldable pub validate_execute_result : ExecuteRequest → ExecuteResult → ℕ → Boundary → Checked
unfolding require_nonempty_string require_revision require_turn_complete check_transition
validate_execute_result input result current_revision current_boundary = do
  require_nonempty_string result.request_id
  require_revision result.previous_revision
  require_revision result.revision
  require_turn_complete result.turn_complete result.boundary
  throw_if (not (result.request_id === input.request_id) || not (result.command === input.command))
      protocol_error
  check_transition result.status input result current_revision current_boundary
