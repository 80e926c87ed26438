-- ===== src/Session/Run.antt =====
-- `#runNew` and `#recover` (packages/session/src/semantic-turn-coordinator.ts).
use sttork.Base.{Bool, true, false, Option, none, some, [], if◌then◌else◌}
use sttork.Base.Text.{Text, codes}
use sttork.Async.{ret, put, ask, await, ◌>>=◌, ◌>>◌, catch, finally, lift, state, modify}
use sttork.Contracts.Engine.{ExecuteRequest, PublicEngineState}
use sttork.Contracts.Envelope.{debug, accessible}
use sttork.Session.Events.{
  not_submitted, unknown, coordinator, engine, transcript_final, guide_decision_proposed,
  guide_decision_accepted, engine_command_requested, system_error, GuideResult, SemanticEvent,
  GuideDecision, AcceptedKind, PendingIntent, provider_failure,
}
use sttork.Session.State.{
  TurnInput, TurnOutcome, cancelled, failed, StoredIntent, next_request_id, decide,
  inspect_public_state, Executed, thrown, execute,
}
use sttork.Session.Turn.{Method, require_id, is_aborted, emit, note}
use sttork.Session.Finish.{RunResult, result_of, finish_engine_result}
use sttork.Session.Guide.{stopped, guide_failed, guide_rejected, guide_clarified, guide_explained}

module _ (canonical : Text → Bool) where
  -- `cancelled-before-engine-submit`, from the coordinator
  unfoldable pub cancelled_early : (interaction_id accepted_id : Text) → Method RunResult
  unfolding stopped
  cancelled_early interaction_id accepted_id =
      stopped canonical interaction_id accepted_id
        (system_error coordinator (codes "cancelled-before-engine-submit") not_submitted) cancelled

  -- The `catch` around the engine's execution and what follows it; `not_sent` is what
  -- `engineCommitState` reads of the error.
  unfoldable pub execution_lost :
      (interaction_id requested_id : Text) → ExecuteRequest → (not_sent : Bool) → Method RunResult
  unfolding emit stopped result_of
  execution_lost interaction_id requested_id request true =
      stopped canonical interaction_id requested_id
        (system_error engine (codes "cancelled-before-engine-submit") not_submitted) cancelled
  execution_lost interaction_id requested_id request false = do
    note canonical interaction_id (some requested_id) accessible
        (system_error engine (codes "engine-outcome-uncertain") unknown)
    result ← result_of interaction_id TurnOutcome.uncertain none none
    ret (record {
      result = result;
      recovery = some (record { request = request; requested_event_id = requested_id });
    })

  -- What follows the engine's reply. No error of the coordinator's own has a `commitState`, and a
  -- callback's is taken to have none.
  unfoldable pub after_execute :
      (interaction_id requested_id : Text) → ExecuteRequest → Executed → Method RunResult
  unfolding execution_lost finish_engine_result
  after_execute interaction_id requested_id request (thrown not_sent) =
      execution_lost interaction_id requested_id request not_sent
  after_execute interaction_id requested_id request (Executed.result r) =
      catch (finish_engine_result canonical interaction_id requested_id request r)
        (λ e. execution_lost interaction_id requested_id request false)

  -- From the acceptance of a command on, up to the request of its execution.
  unfoldable pub request_execution :
      (interaction_id accepted_id command : Text) → PublicEngineState → Method RunResult
  unfolding emit require_id after_execute
  request_execution interaction_id accepted_id command seen = do
    reply ← ask next_request_id ret
    request_id ← lift (require_id reply)
    let request : ExecuteRequest = record {
      request_id = request_id;
      expected_revision = seen.revision;
      command = command;
    }
    requested ←
        emit canonical interaction_id (some accepted_id) debug (engine_command_requested request)
    answer ← await (execute request) ret
    after_execute interaction_id requested.id request answer

  -- From the reply of `inspectPublicState` on.
  unfoldable pub after_inspection :
      (interaction_id accepted_id command : Text) → Option PublicEngineState → Method RunResult
  unfolding stopped cancelled_early request_execution
  after_inspection interaction_id accepted_id command none =
      stopped canonical interaction_id accepted_id
        (system_error engine (codes "engine-inspection-failed") not_submitted) failed
  after_inspection interaction_id accepted_id command (some seen) = do
    stop ← is_aborted
    if stop
        then cancelled_early interaction_id accepted_id
        else request_execution interaction_id accepted_id command seen

  unfoldable pub guide_executes : (interaction_id accepted_id command : Text) → Method RunResult
  unfolding cancelled_early after_inspection
  guide_executes interaction_id accepted_id command = do
    stop ← is_aborted
    if stop
        then cancelled_early interaction_id accepted_id
        else (await inspect_public_state ret >>= λ reply.
            after_inspection interaction_id accepted_id command reply)

  -- `guideResult.decision`
  abbrev pub decision_of : GuideResult → GuideDecision
  decision_of (GuideResult.execute command decision source) = GuideDecision.execute decision
  decision_of (GuideResult.clarify decision intent) = GuideDecision.clarify decision
  decision_of (GuideResult.explain decision) = GuideDecision.explain decision
  decision_of (GuideResult.rejected decision cause) = GuideDecision.cannot_comply decision
  decision_of (GuideResult.provider_failure decision) = GuideDecision.cannot_comply decision

  abbrev accept : (interaction_id proposed_id : Text) → AcceptedKind → Method SemanticEvent
  unfolding emit
  accept interaction_id proposed_id kind =
      emit canonical interaction_id (some proposed_id) debug (guide_decision_accepted kind)

  -- The branches on the guide's result, `before` being the pending intent when the turn began.
  unfoldable pub follow :
      (interaction_id proposed_id : Text) → Option StoredIntent → GuideResult → Method RunResult
  unfolding guide_rejected guide_clarified guide_explained guide_executes
  follow interaction_id proposed_id before (GuideResult.rejected decision cause) =
      guide_rejected canonical interaction_id proposed_id cause decision TurnOutcome.rejected
  follow interaction_id proposed_id before (GuideResult.provider_failure decision) =
      guide_rejected canonical interaction_id proposed_id provider_failure decision failed
  follow interaction_id proposed_id before (GuideResult.clarify decision intent) = do
    accepted ← accept interaction_id proposed_id AcceptedKind.clarify
    guide_clarified canonical interaction_id accepted.id before decision intent
  follow interaction_id proposed_id before (GuideResult.explain decision) = do
    accepted ← accept interaction_id proposed_id AcceptedKind.explain
    guide_explained canonical interaction_id accepted.id decision
  follow interaction_id proposed_id before (GuideResult.execute command decision source) = do
    accepted ← accept interaction_id proposed_id AcceptedKind.execute
    guide_executes interaction_id accepted.id command

  -- From the guide's reply on; `none` is a guide that threw, or the abort.
  unfoldable pub after_guide :
      (interaction_id transcript_id : Text)
      → Option StoredIntent
      → Option GuideResult
      → Method RunResult
  unfolding guide_failed emit follow
  after_guide interaction_id transcript_id before none =
      guide_failed canonical interaction_id transcript_id
  after_guide interaction_id transcript_id before (some guided) = do
    proposed ←
        emit canonical interaction_id (some transcript_id) debug
          (guide_decision_proposed (decision_of guided))
    follow interaction_id proposed.id before guided

  abbrev intent_of : Option StoredIntent → Option PendingIntent
  intent_of none = none
  intent_of (some stored) = some stored.intent

  -- The `try` of `#runNew`.
  unfoldable pub turn_body : TurnInput → Option StoredIntent → Method RunResult
  unfolding emit after_guide
  turn_body input before = do
    transcript ←
        emit canonical input.interaction_id none accessible
          (transcript_final input.transcript input.transcript_confidence)
    self ← state
    guided ← await (decide input (self.projected) (intent_of before)) ret
    after_guide input.interaction_id transcript.id before guided

  -- `finally { this.#activeInteractionId = undefined }`
  abbrev pub clear_active : Method (Unit {0})
  clear_active = modify (λ self. record self { active_interaction_id = none })

  unfoldable pub run_new : TurnInput → Method RunResult
  unfolding turn_body
  run_new input = do
    self ← state
    put (record self { active_interaction_id = some input.interaction_id; local = [] }) (ret tt)
    finally (turn_body input self.pending_intent) clear_active
