-- ===== src/Session/Requested/Parts.antt =====
-- What a turn does besides executing: `#finishEngineResult` and the guide's branches.
use sttork.Base.{Bool, true, false, Option, none, some}
use sttork.Base.Text.{Text}
use sttork.Contracts.Engine.{
  ExecuteRequest, ExecuteResult, EngineSnapshot, ExecuteStatus, Rejection,
}
use sttork.Session.Events.{
  Payload, RejectionCause, CannotComply, ClarifyDecision, PendingIntent, ExplainDecision,
}
use sttork.Session.State.{TurnOutcome, StoredIntent, Executed, thrown}
use sttork.Session.Finish.{
  result_of, checkpoint_failed, keep_checkpoint, narrate_output, finish_committed, finish_rejected,
  finish_as, finish_engine_result,
}
use sttork.Session.Guide.{stopped, guide_failed, guide_rejected, guide_clarified, guide_explained}
use sttork.Session.Run.{cancelled_early, execution_lost, after_execute}
use sttork.Session.Requested.Rules.{quiet, IsQuiet}
use sttork.Session.Requested.Turns.{emit-IsQuiet, narrate-IsQuiet}

result_of-IsQuiet :
    (id : Text) (o : TurnOutcome) (r : Option ExecuteResult) (c : Option EngineSnapshot)
    → IsQuiet (result_of id o r c)
unfolding result_of
result_of-IsQuiet id o r c = search (quiet) depth 20

ruleset parts = (quiet, result_of-IsQuiet, emit-IsQuiet, narrate-IsQuiet)

module _ (canonical : Text → Bool) where
  checkpoint_failed-IsQuiet :
      (id output : Text) (r : ExecuteResult) → IsQuiet (checkpoint_failed canonical id output r)
  unfolding checkpoint_failed
  checkpoint_failed-IsQuiet id output r = search (parts) depth 30

  keep_checkpoint-IsQuiet :
      (id output : Text) (r : ExecuteResult) (reply : Option EngineSnapshot)
      → IsQuiet (keep_checkpoint canonical id output r reply)
  unfolding keep_checkpoint
  keep_checkpoint-IsQuiet id output r none = search (parts, checkpoint_failed-IsQuiet) depth 30
  keep_checkpoint-IsQuiet id output r (some taken) =
      search (parts, checkpoint_failed-IsQuiet) depth 30

  narrate_output-IsQuiet :
      (id output : Text) (r : ExecuteResult) → IsQuiet (narrate_output canonical id output r)
  unfolding narrate_output
  narrate_output-IsQuiet id output r = search (tt, parts) depth 30

  finish_committed-IsQuiet :
      (id cause : Text) (r : ExecuteResult) → IsQuiet (finish_committed canonical id cause r)
  unfolding finish_committed
  finish_committed-IsQuiet id cause r =
      search (tt, parts, keep_checkpoint-IsQuiet, narrate_output-IsQuiet) depth 40

  finish_rejected-IsQuiet :
      (id cause : Text) (request : ExecuteRequest) (r : ExecuteResult) (why : Rejection)
      → IsQuiet (finish_rejected canonical id cause request r why)
  unfolding finish_rejected
  finish_rejected-IsQuiet id cause request r why = search (parts) depth 30

  finish_as-IsQuiet :
      (id cause : Text) (request : ExecuteRequest) (r : ExecuteResult) (status : ExecuteStatus)
      → IsQuiet (finish_as canonical id cause request r status)
  unfolding finish_as
  finish_as-IsQuiet id cause request r ExecuteStatus.committed = finish_committed-IsQuiet id cause r
  finish_as-IsQuiet id cause request r (ExecuteStatus.rejected why) =
      finish_rejected-IsQuiet id cause request r why

  pub finish_engine_result-IsQuiet :
      (id cause : Text) (request : ExecuteRequest) (r : ExecuteResult)
      → IsQuiet (finish_engine_result canonical id cause request r)
  unfolding finish_engine_result
  finish_engine_result-IsQuiet id cause request r = search (parts, finish_as-IsQuiet) depth 30

  pub stopped-IsQuiet :
      (id cause : Text) (payload : Payload) (o : TurnOutcome)
      → IsQuiet (stopped canonical id cause payload o)
  unfolding stopped
  stopped-IsQuiet id cause payload o = search (parts) depth 30

  pub guide_failed-IsQuiet : (id cause : Text) → IsQuiet (guide_failed canonical id cause)
  unfolding guide_failed
  guide_failed-IsQuiet id cause = search (tt, parts, stopped-IsQuiet) depth 30

  pub guide_rejected-IsQuiet :
      (id cause : Text) (why : RejectionCause) (decision : CannotComply) (o : TurnOutcome)
      → IsQuiet (guide_rejected canonical id cause why decision o)
  unfolding guide_rejected
  guide_rejected-IsQuiet id cause why decision o = search (parts) depth 40

  pub guide_clarified-IsQuiet :
      (id cause : Text) (before : Option StoredIntent) (decision : ClarifyDecision)
      (intent : Option PendingIntent)
      → IsQuiet (guide_clarified canonical id cause before decision intent)
  unfolding guide_clarified
  guide_clarified-IsQuiet id cause before decision intent = search (parts) depth 40

  pub guide_explained-IsQuiet :
      (id cause : Text) (decision : ExplainDecision)
      → IsQuiet (guide_explained canonical id cause decision)
  unfolding guide_explained
  guide_explained-IsQuiet id cause decision = search (parts) depth 40

  pub cancelled_early-IsQuiet : (id cause : Text) → IsQuiet (cancelled_early canonical id cause)
  unfolding cancelled_early
  cancelled_early-IsQuiet id cause = search (stopped-IsQuiet)

  execution_lost-IsQuiet :
      (id cause : Text) (request : ExecuteRequest) (not_sent : Bool)
      → IsQuiet (execution_lost canonical id cause request not_sent)
  unfolding execution_lost
  execution_lost-IsQuiet id cause request true = search (stopped-IsQuiet)
  execution_lost-IsQuiet id cause request false = search (parts) depth 40

  pub after_execute-IsQuiet :
      (id cause : Text) (request : ExecuteRequest) (answer : Executed)
      → IsQuiet (after_execute canonical id cause request answer)
  unfolding after_execute
  after_execute-IsQuiet id cause request (thrown b) = execution_lost-IsQuiet id cause request b
  after_execute-IsQuiet id cause request (Executed.result r) =
      search (quiet, finish_engine_result-IsQuiet, execution_lost-IsQuiet) depth 30
