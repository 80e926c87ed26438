-- ===== src/DorkWorker/Runtime/Restore.antt =====
-- `#restore` of `DorkWorkerRuntime`: a snapshot is restored into a candidate session, which takes
-- the active one's place only when all has passed.
use sttork.Base.{
  ℕ, Bool, true, false, not, ◌&&◌, ◌||◌, [], ◌==◌, ltb, length, List, Option, none, some,
  if◌then◌else◌,
}
use sttork.Base.Text.{◌===◌}
use sttork.Async.{ret, throw, put, ask, await, ◌>>=◌, ◌>>◌, lift, state, catch}
use sttork.Contracts.Engine.{
  Boundary, Compatibility, EngineSnapshot, PublicEngineState, max_engine_snapshot_bytes,
  RestoreRejection, incompatible_snapshot, corrupt_snapshot, RestoreStatus, restored, rejected,
}
use sttork.GameEngine.Protocol.{ResponseBody, restore_result}
use sttork.GameEngine.Checks.{same_compatibility}
use sttork.DorkWorker.Snapshot.Format.{
  Utf8, WorkerSnapshotEnvelope, WorkerSnapshotReceipt, max_total_bytes,
}
use sttork.DorkWorker.Snapshot.Decode.{decode_envelope}
use sttork.DorkWorker.Snapshot.Relative.{same_boundary}
use sttork.DorkWorker.Runtime.State.{
  digest_sha256, restore_session, dispose_session, Method, failure, inspect, or_failed,
}
use sttork.DorkWorker.Runtime.Checks.{require_revision, require_sha256, check_compatibility}
use sttork.DorkWorker.Runtime.Receipts.{validate_restored_receipts}
use sttork.DorkWorker.Runtime.Execute.{must_boot}
use sttork.DorkWorker.Runtime.Operations.{or_codec, give_up}

abbrev pub restore_response : RestoreStatus → ℕ → Boundary → ResponseBody
restore_response status revision boundary = restore_result (record {
  revision = revision;
  output = [];
  turn_complete = true;
  boundary = boundary;
  status = status;
})

abbrev pub reject_restore : PublicEngineState → RestoreRejection → Method ResponseBody
reject_restore active rejection =
    ret (restore_response (rejected rejection) (active.revision) (active.boundary))

-- The length of the bytes that may be a snapshot.
unfoldable pub is_snapshot_length : List ℕ → Bool
is_snapshot_length bytes =
    not (length bytes == 0)
    && not (ltb max_total_bytes (length bytes))
    && not (ltb max_engine_snapshot_bytes (length bytes))

-- The checks on the snapshot that comes in.
unfoldable pub check_snapshot : Utf8 → EngineSnapshot → Method (Unit {0})
unfolding is_snapshot_length require_sha256 require_revision check_compatibility
check_snapshot utf8 candidate =
    if is_snapshot_length candidate.bytes
    then (do
      lift (require_sha256 candidate.sha256)
      lift (require_revision candidate.revision)
      lift (check_compatibility utf8 candidate.compatibility))
    else throw failure

unfoldable pub shows : PublicEngineState → WorkerSnapshotEnvelope → Bool
shows seen envelope =
    (seen.revision == envelope.revision)
    && (seen.last_output === envelope.last_output)
    && same_boundary seen.boundary envelope.boundary

-- The candidate session takes over, with the receipts of the snapshot, unless the runtime was
-- disposed of in the meantime.
unfoldable pub take_over :
    ℕ → ℕ → PublicEngineState → List WorkerSnapshotReceipt × ℕ → ℕ → Method ResponseBody
take_over epoch active seen receipt_state candidate = do
  now ← state
  if now.disposed || not (now.lifecycle_epoch == epoch)
      then throw failure
      else put
          (record now {
            session = some candidate;
            receipts = receipt_state.0;
            receipt_journal_bytes = receipt_state.1;
          })
          (do
            ask (dispose_session active) ret
            ret (restore_response restored seen.revision seen.boundary))

-- The inner `try` block.
unfoldable pub swap :
    ℕ → ℕ → WorkerSnapshotEnvelope → List WorkerSnapshotReceipt × ℕ → ℕ → Method ResponseBody
unfolding inspect shows take_over
swap epoch active envelope receipt_state candidate = do
  seen ← inspect candidate
  if not (shows seen envelope)
      then throw failure
      else take_over epoch active seen receipt_state candidate

-- A snapshot of the right bytes: the receipts are checked, and a session is made of the rest.
unfoldable pub stage : Utf8 → ℕ → WorkerSnapshotEnvelope → Method ResponseBody
unfolding validate_restored_receipts or_failed swap give_up
stage utf8 active envelope = do
  self ← state
  receipt_state ← lift (validate_restored_receipts utf8 self envelope)
  reply ← await (restore_session envelope.inner_checkpoint) ret
  candidate ← lift (or_failed reply)
  catch (swap self.lifecycle_epoch active envelope receipt_state candidate) (give_up candidate)

-- The second `try` block.
unfoldable pub load : Utf8 → ℕ → PublicEngineState → EngineSnapshot → Method ResponseBody
unfolding or_failed or_codec decode_envelope stage
load utf8 active active_state candidate = do
  reply ← await (digest_sha256 candidate.bytes) ret
  digest ← lift (or_failed reply)
  if not (digest === candidate.sha256) then reject_restore active_state corrupt_snapshot else (do
    envelope ← lift (or_codec (decode_envelope utf8 candidate.bytes))
    if not (envelope.revision == candidate.revision)
        then reject_restore active_state corrupt_snapshot
        else stage utf8 active envelope)

unfoldable pub restore_from :
    Utf8 → ℕ → Compatibility → PublicEngineState → EngineSnapshot → Method ResponseBody
unfolding same_compatibility load
restore_from utf8 active compatibility active_state candidate =
    if not (same_compatibility candidate.compatibility compatibility)
    then reject_restore active_state incompatible_snapshot
    else catch (load utf8 active active_state candidate)
        (λ e. reject_restore active_state corrupt_snapshot)

unfoldable pub restore_in :
    Utf8 → EngineSnapshot → Option ℕ → Option Compatibility → Method ResponseBody
unfolding inspect check_snapshot restore_from
restore_in utf8 candidate none compatibility = ret must_boot
restore_in utf8 candidate (some active) none = ret must_boot
restore_in utf8 candidate (some active) (some compatibility) = do
  active_state ← inspect active
  checked ← catch (check_snapshot utf8 candidate >>= λ _. ret true) (λ e. ret false)
  if checked
      then restore_from utf8 active compatibility active_state candidate
      else reject_restore active_state corrupt_snapshot

-- `#restore`
unfoldable pub restore_method : Utf8 → EngineSnapshot → Method ResponseBody
unfolding restore_in
restore_method utf8 candidate = do
  self ← state
  restore_in utf8 candidate self.session self.compatibility
