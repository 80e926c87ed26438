-- ===== src/DorkWorker/Runtime/Operations.antt =====
-- The other methods of `DorkWorkerRuntime`, and `exchange`.
use sttork.Base.{ℕ, true, not, ◌||◌, ◌==◌, ltb, length, Option, none, some, if◌then◌else◌}
use sttork.Base.Text.{Text, codes, ◌===◌}
use sttork.Base.Outcome.{Outcome, ok, err}
use sttork.Async.{ret, throw, put, ask, await, ◌>>=◌, ◌>>◌, lift, state, catch}
use sttork.Contracts.Engine.{BootRequest, Compatibility, max_engine_snapshot_bytes}
use sttork.GameEngine.Protocol.{
  ResponseBody, boot_result, snapshot_result, inspect_public_state_result, error, already_booted,
}
use sttork.DorkWorker.Snapshot.Format.{
  CodecError, Utf8, worker_snapshot_schema_version, max_total_bytes,
}
use sttork.DorkWorker.Snapshot.Encode.{encode_envelope}
use sttork.DorkWorker.Runtime.State.{
  DorkWorkerRuntime, artifact_sha256, digest_sha256, new_session, boot_session, snapshot_session,
  dispose_session, Method, RuntimeError, invalid_request_error, failure, inspect, or_failed,
}
use sttork.DorkWorker.Runtime.Checks.{require_bounded_id, require_sha256}
use sttork.DorkWorker.Runtime.Execute.{must_boot}

-- An error of the codec is one of the runtime's other errors.
unfoldable pub or_codec : {A : Type 0} → Outcome CodecError A → Outcome RuntimeError A
or_codec (ok a) = ok a
or_codec (err e) = err failure

-- `#createCompatibility`
abbrev pub create_compatibility : DorkWorkerRuntime → Text → Compatibility
create_compatibility self digest = record {
  story = record { id = self.story_id; artifact_sha256 = digest };
  runtime = self.runtime_identity;
  adapter = self.adapter_identity;
  snapshot_schema_version = self.snapshot_schema_version;
}

-- A session that was to replace the active one is given up, and the error goes on.
unfoldable pub give_up : {A : Type 0} → ℕ → RuntimeError → Method A
give_up candidate e = do ask (dispose_session candidate) ret; throw e

-- The session is taken over, unless the runtime was disposed in the meantime.
unfoldable pub boot_candidate : ℕ → Text → ℕ → Method ResponseBody
unfolding or_failed
boot_candidate epoch digest candidate = do
  reply ← await (boot_session candidate) ret
  turn ← lift (or_failed reply)
  now ← state
  if now.disposed || not (now.lifecycle_epoch == epoch)
      then throw failure
      else put
          (record now {
            session = some candidate;
            compatibility = some (create_compatibility now digest);
          })
          (ret (
            boot_result (record {
              revision = 0;
              output = turn.output;
              turn_complete = true;
              boundary = turn.boundary;
              compatibility = create_compatibility now digest;
            })))

unfoldable pub boot_new : Utf8 → BootRequest → Method ResponseBody
unfolding require_bounded_id require_sha256 or_failed boot_candidate give_up
boot_new utf8 input = do
  lift (require_bounded_id utf8 input.story_id)
  lift (require_sha256 input.artifact_sha256)
  digested ← await artifact_sha256 ret
  digest ← lift (or_failed digested)
  self ← state
  if not (input.story_id === self.story_id) || not (input.artifact_sha256 === digest)
      then throw invalid_request_error
      else (do
        created ← ask new_session ret
        candidate ← lift (or_failed created)
        catch (boot_candidate self.lifecycle_epoch digest candidate) (give_up candidate))

unfoldable pub boot_in : Utf8 → BootRequest → Option ℕ → Method ResponseBody
unfolding boot_new
boot_in utf8 input none = boot_new utf8 input
boot_in utf8 input (some session) =
    ret (error already_booted (codes "The engine worker is already booted."))

-- `#boot`
unfoldable pub boot_method : Utf8 → BootRequest → Method ResponseBody
unfolding boot_in
boot_method utf8 input = do self ← state; boot_in utf8 input self.session

-- The checkpoint, the public state and the receipts of an active session, under their digest.
unfoldable pub save : Utf8 → ℕ → Compatibility → Method ResponseBody
unfolding or_failed inspect or_codec encode_envelope
save utf8 session compatibility = do
  reply ← await (snapshot_session session) ret
  checkpoint ← lift (or_failed reply)
  seen ← inspect session
  now ← state
  bytes ← lift (
      or_codec (
        encode_envelope utf8 (record {
          schema_version = worker_snapshot_schema_version;
          revision = seen.revision;
          last_output = seen.last_output;
          boundary = seen.boundary;
          inner_checkpoint = checkpoint;
          receipts = now.receipts;
        })))
  if ltb max_total_bytes (length bytes) || ltb max_engine_snapshot_bytes (length bytes)
      then throw failure
      else (do
        digested ← await (digest_sha256 bytes) ret
        digest ← lift (or_failed digested)
        ret (
            snapshot_result (record {
              bytes = bytes;
              sha256 = digest;
              revision = seen.revision;
              compatibility = compatibility;
            })))

unfoldable pub snapshot_in : Utf8 → Option ℕ → Option Compatibility → Method ResponseBody
unfolding save
snapshot_in utf8 none compatibility = ret must_boot
snapshot_in utf8 (some session) none = ret must_boot
snapshot_in utf8 (some session) (some compatibility) = save utf8 session compatibility

-- `#snapshot`
unfoldable pub snapshot_method : Utf8 → Method ResponseBody
unfolding snapshot_in
snapshot_method utf8 = do self ← state; snapshot_in utf8 self.session self.compatibility

-- `#inspect`
unfoldable pub inspect_in : Option ℕ → Method ResponseBody
unfolding inspect
inspect_in none = ret must_boot
inspect_in (some session) = do seen ← inspect session; ret (inspect_public_state_result seen)

unfoldable pub inspect_method : Method ResponseBody
unfolding inspect_in
inspect_method = do self ← state; inspect_in self.session
