-- ===== src/Session/Submit.antt =====
-- `submitTurn`, `#recover`, `recordTranscriptionFailure` and `recordAudioFailure`
-- (packages/session/src/semantic-turn-coordinator.ts): the journal of the turns.
use sttork.Base.{Bool, Option, none, some, [], ◌∷◌, if◌then◌else◌}
use sttork.Base.Text.{Text}
use sttork.Async.{ret, throw, put, await, ◌>>=◌, ◌>>◌, catch, finally, lift, state, modify}
use sttork.Contracts.Envelope.{debug, accessible}
use sttork.Session.Events.{
  ErrorStage, transcription, audio, not_submitted, system_error, system_recovered,
}
use sttork.Session.State.{
  TurnInput, failed, TurnResult, RecoveryRecord, Fingerprint, transcription_failure, audio_failure,
  StoredTurn, pending, complete, uncertain, execute, settled, run_ended, Executed, thrown, lookup,
  set, delete, fingerprint, validate_turn_input,
}
use sttork.Session.Journal.{or_rethrown, require_free, admit_turn, same_turn, admit_failure}
use sttork.Session.Turn.{Method, is_aborted, append_event, emit}
use sttork.Session.Finish.{RunResult, finish_engine_result}
use sttork.Session.Run.{clear_active, run_new}

abbrev pub store : Text → StoredTurn → Method (Unit {0})
store id stored = modify (λ self. record self { turns = set id stored self.turns })

-- What is stored when a run has ended.
abbrev pub stored_turn : Fingerprint → TurnResult → Option RecoveryRecord → StoredTurn
stored_turn fp result none = complete fp result
stored_turn fp result (some recovery) = uncertain fp result recovery

abbrev pub stored_as : Fingerprint → RunResult → StoredTurn
stored_as fp run = stored_turn fp run.result run.recovery

module _ (canonical : Text → Bool) where
  -- The `try` of `#recover` from the engine's reply on.
  unfoldable pub after_recovery :
      Text → Fingerprint → TurnResult → RecoveryRecord → Executed → Method TurnResult
  unfolding emit finish_engine_result
  after_recovery interaction_id fp stored recovery (thrown not_sent) = ret stored
  after_recovery interaction_id fp stored recovery (Executed.result r) = do
    recovered ←
        emit canonical interaction_id (some recovery.requested_event_id) debug
          (system_recovered recovery.request.request_id r.revision)
    completed ← finish_engine_result canonical interaction_id recovered.id recovery.request r
    store interaction_id (complete fp completed.result)
    ret completed.result

  unfoldable pub recover : Text → Fingerprint → TurnResult → RecoveryRecord → Method TurnResult
  unfolding require_free after_recovery
  recover interaction_id fp stored recovery = do
    self ← state
    lift (require_free self)
    stop ← is_aborted
    if stop
        then ret stored
        else (put
              (record self { active_interaction_id = some interaction_id; local = stored.events })
              (ret tt)
            >>= λ _.
                finally
                  (await (execute recovery.request) ret
                    >>= after_recovery interaction_id fp stored recovery)
                  (clear_active canonical))

  -- A turn that the journal holds under the interaction's name.
  unfoldable pub resume : Text → Fingerprint → StoredTurn → Method TurnResult
  unfolding same_turn recover
  resume interaction_id fp (complete fp' stored) =
      lift (same_turn interaction_id fp' fp) >>= λ _. ret stored
  resume interaction_id fp (pending fp') = lift (same_turn interaction_id fp' fp) >>= λ _.
      await (settled interaction_id) (λ reply. lift (or_rethrown reply))
  resume interaction_id fp (uncertain fp' stored recovery) =
      lift (same_turn interaction_id fp' fp) >>= λ _. recover interaction_id fp' stored recovery

  -- A turn that it does not hold. The source starts the run first and marks the turn as pending before
  -- the run's first wait; no other task sees the state between the two.
  unfoldable pub begin_turn : TurnInput → Method TurnResult
  unfolding admit_turn run_new set delete fingerprint
  begin_turn input = do
    self ← state
    lift (admit_turn self)
    store input.interaction_id (pending (fingerprint input))
    completed ← catch (run_new canonical input) (λ e.
        await (run_ended input.interaction_id) ret >>= λ _.
        modify (λ now. record now { turns = delete input.interaction_id now.turns }) >>= λ _.
        throw e)
    await (run_ended input.interaction_id) ret
    store input.interaction_id (stored_as (fingerprint input) completed)
    ret completed.result

  unfoldable pub submit_found : TurnInput → Option StoredTurn → Method TurnResult
  unfolding resume begin_turn fingerprint
  submit_found input none = begin_turn input
  submit_found input (some stored) = resume input.interaction_id (fingerprint input) stored

  -- `submitTurn`
  unfoldable pub submit_turn : TurnInput → Method TurnResult
  unfolding validate_turn_input lookup submit_found
  submit_turn input = do
    lift (validate_turn_input input)
    self ← state
    submit_found input (lookup self.turns input.interaction_id)

  unfoldable pub record_failure :
      ErrorStage → Fingerprint → (interaction_id code : Text) → Method TurnResult
  unfolding admit_failure append_event set
  record_failure stage fp interaction_id code = do
    self ← state
    lift (admit_failure self interaction_id code)
    event ←
        append_event canonical interaction_id none accessible
          (system_error stage code not_submitted)
    let result : TurnResult = record {
      interaction_id = interaction_id;
      outcome = failed;
      events = event ∷ [];
      engine_result = none;
      checkpoint = none;
    }
    store interaction_id (complete fp result)
    ret result

  unfoldable pub record_transcription_failure : (interaction_id code : Text) → Method TurnResult
  unfolding record_failure
  record_transcription_failure interaction_id code =
      record_failure transcription (transcription_failure code) interaction_id code

  unfoldable pub record_audio_failure : (interaction_id code : Text) → Method TurnResult
  unfolding record_failure
  record_audio_failure interaction_id code =
      record_failure audio (audio_failure code) interaction_id code
