-- ===== src/Session/Guide.antt =====
-- The branches of `#runNew` in which the engine is not reached
-- (packages/session/src/semantic-turn-coordinator.ts).
use sttork.Base.{Bool, false, Option, none, some, if◌then◌else◌}
use sttork.Base.Text.{Text, codes}
use sttork.Async.{◌>>=◌, ◌>>◌, modify}
use sttork.Contracts.Envelope.{debug, accessible}
use sttork.Session.Events.{
  guide, not_submitted, Payload, guide_decision_rejected, guide_clarification, guide_explanation,
  guide_cannot_comply, system_error, PendingIntent, CannotComply, ClarifyDecision, ExplainDecision,
  RejectionCause,
}
use sttork.Session.State.{
  TurnOutcome, clarified, explained, cancelled, failed, StoredIntent, same_intent,
}
use sttork.Session.Turn.{Method, is_aborted, emit, note}
use sttork.Session.Narrate.{narrate}
use sttork.Session.Finish.{RunResult, result_of, ended}

module _ (canonical : Text → Bool) where
  -- A turn that ends with a system error and nothing else.
  unfoldable pub stopped :
      (interaction_id causation_id : Text) → Payload → TurnOutcome → Method RunResult
  unfolding emit result_of
  stopped interaction_id causation_id payload outcome =
      note canonical interaction_id (some causation_id) accessible payload
      >> ended interaction_id outcome

  unfoldable pub guide_failed : (interaction_id transcript_id : Text) → Method RunResult
  unfolding stopped
  guide_failed interaction_id transcript_id = do
    stop ← is_aborted
    if stop
        then stopped interaction_id transcript_id
            (system_error guide (codes "cancelled") not_submitted) cancelled
        else stopped interaction_id transcript_id
            (system_error guide (codes "guide-failed") not_submitted) failed

  -- The branch of a rejected decision or of a provider that failed.
  unfoldable pub guide_rejected :
      (interaction_id proposed_id : Text)
      → RejectionCause
      → CannotComply
      → TurnOutcome
      → Method RunResult
  unfolding emit narrate result_of
  guide_rejected interaction_id proposed_id cause decision outcome = do
    refused ←
        emit canonical interaction_id (some proposed_id) debug
          (guide_decision_rejected cause decision)
    cannot ←
        emit canonical interaction_id (some refused.id) accessible (guide_cannot_comply decision)
    narrate canonical interaction_id guide decision.response cannot.id false false
    ended interaction_id outcome

  -- The pending intent of a clarification; an intent that stays the same keeps its source.
  unfoldable pub next_intent :
      Text → Option StoredIntent → Option PendingIntent → Option StoredIntent
  unfolding same_intent
  next_intent interaction_id before none = none
  next_intent interaction_id none (some intent) =
      some (record { intent = intent; source_interaction_id = interaction_id })
  next_intent interaction_id (some before) (some intent) = some (record {
    intent = intent;
    source_interaction_id =
        if same_intent before.intent intent then before.source_interaction_id else interaction_id;
  })

  unfoldable pub guide_clarified :
      (interaction_id accepted_id : Text)
      → Option StoredIntent
      → ClarifyDecision
      → Option PendingIntent
      → Method RunResult
  unfolding emit narrate result_of next_intent
  guide_clarified interaction_id accepted_id before decision intent = do
    question ←
        emit canonical interaction_id (some accepted_id) accessible (guide_clarification decision)
    narrate canonical interaction_id guide decision.question question.id false false
    modify (λ self. record self { pending_intent = next_intent interaction_id before intent })
    ended interaction_id clarified

  unfoldable pub guide_explained :
      (interaction_id accepted_id : Text) → ExplainDecision → Method RunResult
  unfolding emit narrate result_of
  guide_explained interaction_id accepted_id decision = do
    modify (λ self. record self { pending_intent = none })
    explanation ←
        emit canonical interaction_id (some accepted_id) accessible
          (guide_explanation decision.response decision.source_ids)
    narrate canonical interaction_id guide decision.response explanation.id false false
    ended interaction_id explained
