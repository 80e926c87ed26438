-- ===== src/GameEngine/Adapter/Replies.antt =====
-- What a reply must pass before the adapter believes it, and the state it is accepted into.
use sttork.Base.{
  ℕ, suc, Bool, true, false, not, ◌&&◌, ◌||◌, Option, none, some, leb, ltb, ◌==◌, if◌then◌else◌,
  length,
}
use sttork.Base.Text.{Text, ◌===◌}
use sttork.Base.Outcome.{Outcome, ok, err, ◌>>=◌, ◌>>◌, require, throw_if}
use sttork.Contracts.Engine.{
  max_safe_integer, BootRequest, Boundary, Compatibility, BootResult, ExecuteRequest, ExecuteStatus,
  committed, ExecuteResult, EngineSnapshot, RestoreRejection, RestoreStatus, restored,
  RestoreResult, PublicEngineState,
}
use sttork.GameEngine.Protocol.{
  engine_worker_protocol_version, EngineWorkerRequest, EngineWorkerResponse, ResponseBody,
  boot_result, execute_result, snapshot_result, restore_result, inspect_public_state_result,
}
use sttork.GameEngine.Checks.{
  AdapterError, protocol_error, port, require_sha256, require_revision, require_turn_boundary,
  require_turn_complete, same_compatibility, validate_compatibility, differs,
  validate_execute_result,
}
use sttork.GameEngine.Adapter.State.{Recovery, ready, execute_uncertain, Adapter}

abbrev pub or_port : {A : Type 0} → Option A → Outcome AdapterError A
or_port none = err port
or_port (some a) = ok a

-- `#exchange` after its `await`.
unfoldable pub open_response :
    {A : Type 0}
    → EngineWorkerRequest
    → (ResponseBody → Outcome AdapterError A)
    → Option EngineWorkerResponse
    → Outcome AdapterError A
open_response request expect reply = do
  response ← or_port reply
  require (response.protocol_version == engine_worker_protocol_version) protocol_error
  require (response.message_id === request.message_id) protocol_error
  expect response.body

unfoldable pub expect_boot : ResponseBody → Outcome AdapterError BootResult
expect_boot (boot_result result) = ok result
expect_boot _ = err protocol_error

unfoldable pub expect_execute : ResponseBody → Outcome AdapterError ExecuteResult
expect_execute (execute_result result) = ok result
expect_execute _ = err protocol_error

unfoldable pub expect_snapshot : ResponseBody → Outcome AdapterError EngineSnapshot
expect_snapshot (snapshot_result snapshot) = ok snapshot
expect_snapshot _ = err protocol_error

unfoldable pub expect_restore : ResponseBody → Outcome AdapterError RestoreResult
expect_restore (restore_result result) = ok result
expect_restore _ = err protocol_error

unfoldable pub expect_inspect : ResponseBody → Outcome AdapterError PublicEngineState
expect_inspect (inspect_public_state_result state) = ok state
expect_inspect _ = err protocol_error

unfoldable pub accept_boot : Adapter → BootRequest → BootResult → Outcome AdapterError Adapter
accept_boot self input result = do
  require_turn_complete result.turn_complete result.boundary
  require (result.revision == 0) protocol_error
  validate_compatibility result.compatibility
  require
      (same_compatibility result.compatibility (record {
        story = record { id = input.story_id; artifact_sha256 = input.artifact_sha256 };
        runtime = self.binding.runtime;
        adapter = self.binding.adapter;
        snapshot_schema_version = self.binding.snapshot_schema_version;
      }))
      protocol_error
  ok (record self {
    compatibility = some result.compatibility;
    revision = some 0;
    boundary = some result.boundary;
    recovery = ready;
  })

abbrev is_committed : ExecuteStatus → Bool
is_committed committed = true
is_committed _ = false

-- `execute` after a response.
unfoldable pub accept_execute :
    Adapter → ExecuteRequest → ℕ → Boundary → ExecuteResult → Outcome AdapterError Adapter
accept_execute self input revision boundary result = do
  validate_execute_result input result revision boundary
  ok (
      if is_committed result.status && leb revision result.revision
      then record self {
        revision = some result.revision;
        boundary = some result.boundary;
        recovery = ready;
      }
      else record self { revision = some revision; recovery = ready })

-- `#snapshotDigestMatches` after its `await`.
unfoldable pub digest_matches : EngineSnapshot → Option Text → Outcome AdapterError Bool
unfolding require_sha256
digest_matches snapshot reply = do
  actual ← or_port reply
  require_sha256 actual
  ok (actual === snapshot.sha256)

unfoldable pub accept_snapshot :
    ℕ → Compatibility → EngineSnapshot → Option Text → Outcome AdapterError EngineSnapshot
accept_snapshot revision compatibility snapshot reply = do
  matches ← digest_matches snapshot reply
  require matches protocol_error
  require (snapshot.revision == revision) protocol_error
  require (same_compatibility snapshot.compatibility compatibility) protocol_error
  ok snapshot

abbrev is_valid_restore_rejection : RestoreRejection → Bool
is_valid_restore_rejection RestoreRejection.invalid = false
is_valid_restore_rejection _ = true

settle_restore :
    RestoreStatus
    → Adapter
    → EngineSnapshot
    → ℕ
    → Boundary
    → RestoreResult
    → Outcome AdapterError Adapter
settle_restore restored self candidate revision boundary result = do
  require (length result.output == 0) protocol_error
  require (result.revision == candidate.revision) protocol_error
  ok (record self {
    revision = some result.revision;
    boundary = some result.boundary;
    recovery = ready;
  })
settle_restore (RestoreStatus.rejected why) self candidate revision boundary result = do
  require (is_valid_restore_rejection why) protocol_error
  throw_if
      (not (result.revision == revision)
        || not (length result.output == 0)
        || differs result.boundary boundary)
      protocol_error
  ok self

-- `restore` after a response.
unfoldable pub accept_restore :
    Adapter → EngineSnapshot → ℕ → Boundary → RestoreResult → Outcome AdapterError Adapter
unfolding require_turn_complete require_revision settle_restore
accept_restore self candidate revision boundary result = do
  require_turn_complete result.turn_complete result.boundary
  require_revision result.revision
  settle_restore result.status self candidate revision boundary result

-- What an inspection may confirm, by the recovery state it began in.
reconcile : Recovery → Adapter → ℕ → Boundary → PublicEngineState → Outcome AdapterError Adapter
reconcile ready self revision boundary seen = do
  throw_if (not (seen.revision == revision) || differs seen.boundary boundary) protocol_error
  ok self
reconcile (execute_uncertain _ _ _) self revision boundary seen = do
  throw_if
      (ltb seen.revision revision
        || ltb (if revision == max_safe_integer then revision else suc revision) seen.revision
        || ((seen.revision == revision) && differs seen.boundary boundary))
      protocol_error
  ok (record self { revision = some seen.revision; boundary = some seen.boundary })
reconcile _ self revision boundary seen = ok self

-- `inspectPublicState` after a response.
unfoldable pub accept_inspect :
    Adapter → Recovery → ℕ → Boundary → PublicEngineState → Outcome AdapterError Adapter
unfolding require_revision require_turn_boundary reconcile
accept_inspect self recovery revision boundary seen = do
  require_revision seen.revision
  require_turn_boundary seen.boundary
  reconcile recovery self revision boundary seen
