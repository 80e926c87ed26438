-- ===== src/Session/Finish.antt =====
-- `#finishEngineResult` and `#result`
-- (packages/session/src/semantic-turn-coordinator.ts).
use sttork.Base.{Bool, true, false, Option, none, some, if◌then◌else◌, length}
use sttork.Base.Text.{Text, codes}
use sttork.Async.{ret, ask, await, ◌>>=◌, ◌>>◌, catch, lift, state, modify}
use sttork.Contracts.Engine.{
  ExecuteRequest, ExecuteResult, EngineSnapshot, Rejection, ExecuteStatus,
}
use sttork.Contracts.Envelope.{internal, debug, accessible}
use sttork.Session.Events.{
  narrator, confirmed, checkpoint, engine_command_committed, engine_command_rejected, engine_output,
  narration_cancelled, save_checkpointed, save_failed, system_error,
}
use sttork.Session.State.{
  TurnOutcome, committed, TurnResult, RecoveryRecord, next_narration_id, snapshot,
}
use sttork.Session.Turn.{Method, require_id, is_aborted, emit, note}
use sttork.Session.Narrate.{narrate}

-- `RunResult`
pub record RunResult : Type 0 where
  pub result : TurnResult
  pub recovery : Option RecoveryRecord

-- `#result`, of the run's array as it is.
unfoldable pub result_of :
    Text → TurnOutcome → Option ExecuteResult → Option EngineSnapshot → Method TurnResult
result_of interaction_id outcome engine_result checkpoint' = do
  self ← state
  ret (record {
    interaction_id = interaction_id;
    outcome = outcome;
    events = self.local;
    engine_result = engine_result;
    checkpoint = checkpoint';
  })

-- `return { result: this.#result(interactionId, outcome, local) }`
abbrev pub ended : Text → TurnOutcome → Method RunResult
unfolding result_of
ended interaction_id outcome = do
  result ← result_of interaction_id outcome none none
  ret (record { result = result; recovery = none })

module _ (canonical : Text → Bool) where
  -- The `catch` of the checkpoint.
  unfoldable pub checkpoint_failed :
      (interaction_id output_id : Text) → ExecuteResult → Method (Unit {0})
  unfolding emit
  checkpoint_failed interaction_id output_id r = do
    lost ← emit canonical interaction_id (some output_id) accessible (save_failed r.revision)
    note canonical interaction_id (some lost.id) accessible
        (system_error checkpoint (codes "checkpoint-failed") confirmed)

  -- The `try` of the checkpoint from the snapshot's reply on; a snapshot that was taken stays.
  unfoldable pub keep_checkpoint :
      (interaction_id output_id : Text)
      → ExecuteResult
      → Option EngineSnapshot
      → Method (Option EngineSnapshot)
  unfolding emit checkpoint_failed
  keep_checkpoint interaction_id output_id r none =
      checkpoint_failed interaction_id output_id r >> ret none
  keep_checkpoint interaction_id output_id r (some taken) =
      catch
        (note canonical interaction_id (some output_id) internal
          (save_checkpointed taken.revision taken.sha256 (length taken.bytes)))
        (λ e. checkpoint_failed interaction_id output_id r)
      >> ret (some taken)

  -- The narration of what the engine put out, or its cancellation.
  unfoldable pub narrate_output :
      (interaction_id output_id : Text) → ExecuteResult → Method (Unit {0})
  unfolding narrate require_id emit
  narrate_output interaction_id output_id r = do
    stop ← is_aborted
    if stop
        then (ask next_narration_id ret >>= λ reply. lift (require_id reply) >>= λ narration_id.
            note canonical interaction_id (some output_id) accessible
              (narration_cancelled narration_id narrator))
        else (narrate canonical interaction_id narrator r.output output_id true false >>= λ _.
            ret tt)

  unfoldable pub finish_committed :
      (interaction_id causation_id : Text) → ExecuteResult → Method RunResult
  unfolding emit keep_checkpoint narrate_output result_of
  finish_committed interaction_id causation_id r = do
    done ←
        emit canonical interaction_id (some causation_id) debug (
          engine_command_committed r.request_id r.previous_revision r.revision r.command r.boundary)
    output ←
        emit canonical interaction_id (some done.id) accessible
          (engine_output r.revision r.output r.boundary)
    reply ← await snapshot ret
    kept ← keep_checkpoint interaction_id output.id r reply
    narrate_output interaction_id output.id r
    result ← result_of interaction_id committed (some r) kept
    ret (record { result = result; recovery = none })

  unfoldable pub finish_rejected :
      (interaction_id causation_id : Text)
      → ExecuteRequest
      → ExecuteResult
      → Rejection
      → Method RunResult
  unfolding emit result_of
  finish_rejected interaction_id causation_id request r reason = do
    note canonical interaction_id (some causation_id) accessible
        (engine_command_rejected request.request_id r.revision request.command reason)
    result ← result_of interaction_id TurnOutcome.failed (some r) none
    ret (record { result = result; recovery = none })

  unfoldable pub finish_as :
      (interaction_id causation_id : Text)
      → ExecuteRequest
      → ExecuteResult
      → ExecuteStatus
      → Method RunResult
  unfolding finish_rejected finish_committed
  finish_as interaction_id causation_id request r (ExecuteStatus.rejected reason) =
      finish_rejected interaction_id causation_id request r reason
  finish_as interaction_id causation_id request r ExecuteStatus.committed =
      finish_committed interaction_id causation_id r

  -- `#finishEngineResult`
  unfoldable pub finish_engine_result :
      (interaction_id causation_id : Text) → ExecuteRequest → ExecuteResult → Method RunResult
  unfolding finish_as
  finish_engine_result interaction_id causation_id request r = do
    modify (λ self. record self { pending_intent = none })
    finish_as interaction_id causation_id request r r.status
