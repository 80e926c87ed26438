-- ===== src/Session/Requested/Execution.antt =====
-- A turn that runs asks the log before the engine.
use sttork.Base.{◌≡◌, refl, inl, Bool, List, [], ◌∷◌, ◌++◌, Option, none, some, arith}
use sttork.Base.Text.{Text}
use sttork.Base.Outcome.{Outcome, ok, err}
use sttork.Async.{ret, await, ◌>>=◌, modify}
use sttork.Async.Rules.{Ensures, Next, Ensures-lift, Ensures-bind, Ensures-mono}
use sttork.Contracts.Envelope.{Visibility, debug}
use sttork.Contracts.Engine.{ExecuteRequest, PublicEngineState}
use sttork.Events.Sequence.{EventSequence, EventDraft, EventError, admit_draft, append}
use sttork.Events.Order.{append_lem}
use sttork.Session.Events.{Payload, SemanticEvent, engine_command_requested, GuideResult}
use sttork.Session.State.{Coordinator, CoordinatorError, Reply, TurnInput, StoredIntent, execute}
use sttork.Session.Turn.{of_event, draft_of, append_event, emit, require_id}
use sttork.Session.Run.{
  after_execute, request_execution, after_inspection, guide_executes, follow, after_guide,
  turn_body, run_new,
}
use sttork.Session.Requested.Rules.{
  quiet, IsQuiet, Requested, KeepsLocal, Whatever, IsQuiet-bind, IsQuiet-lift,
}
use sttork.Session.Requested.Turns.{emit-IsQuiet}
use sttork.Session.Requested.Parts.{
  stopped-IsQuiet, guide_failed-IsQuiet, guide_rejected-IsQuiet, guide_clarified-IsQuiet,
  guide_explained-IsQuiet, cancelled_early-IsQuiet, after_execute-IsQuiet,
}

of_event-ok : {A : Type 0} (o : Outcome EventError A) (a : A) → of_event o ≡ ok a → o ≡ ok a
of_event-ok (ok b) a h = ground arith
of_event-ok (err e) a h = absurd (ground arith)

abbrev Carries : Payload → Outcome CoordinatorError SemanticEvent → Coordinator → Type 0
Carries payload (ok e) s = e.payload ≡ payload
Carries payload (err x) s = Unit

module _ (canonical : Text → Bool) where
  append-payload :
      (q : EventSequence) (draft : EventDraft Payload) (id now : Option Text)
      (made : SemanticEvent × EventSequence)
      → append canonical q draft id now ≡ ok made
      → made.0.payload ≡ draft.payload
  append-payload q draft id now made e = (append_lem canonical q made.1 draft id now made.0 e).5

  append_event-Carries :
      (id : Text) (cause : Option Text) (v : Visibility) (payload : Payload) (s : Coordinator)
      → Ensures Requested KeepsLocal (Carries payload) (append_event canonical id cause v payload) s
  unfolding append_event Ensures ◌>>=◌
  append_event-Carries id cause v payload s =
      Ensures-lift Requested KeepsLocal (Carries payload)
        (of_event (admit_draft s.sequence (draft_of payload id cause v))) _ s
        (λ n _. (
          tt,
          λ stamp.
              Ensures-lift Requested KeepsLocal (Carries payload)
                (of_event
                  (append canonical s.sequence (draft_of payload id cause v) stamp.0 stamp.1))
                _ s
                (λ made e. (
                  tt,
                  λ _.
                      append-payload s.sequence (draft_of payload id cause v) stamp.0 stamp.1 made
                        (of_event-ok _ made e),
                ))
                (λ _ _. tt),
        ))
        (λ _ _. tt)

  -- What `emit` leaves in the run's array when it returns.
  abbrev Logs : Payload → Outcome CoordinatorError SemanticEvent → Coordinator → Type 0
  Logs payload (ok e) s =
      (before : List SemanticEvent) × (s.local ≡ before ++ e ∷ []) × (e.payload ≡ payload)
  Logs payload (err x) s = Unit

  logged :
      (payload : Payload) (o : Outcome CoordinatorError SemanticEvent) (s' : Coordinator)
      → Carries payload o s'
      → Next {R = Reply} Requested KeepsLocal
          (Logs payload)
          (λ event.
            modify (λ self. record self { local = self.local ++ event ∷ [] }) >>= λ _. ret event)
          o
          s'
  unfolding Ensures ◌>>=◌
  logged payload (ok e) s' h = (s'.local, refl, h)
  logged payload (err x) s' h = tt

  emit-Logs :
      (id : Text) (cause : Option Text) (v : Visibility) (payload : Payload) (s : Coordinator)
      → Ensures Requested KeepsLocal (Logs payload) (emit canonical id cause v payload) s
  unfolding emit
  emit-Logs id cause v payload s =
      Ensures-bind Requested KeepsLocal (Logs payload) (append_event canonical id cause v payload) _
        s
        (Ensures-mono Requested KeepsLocal (Carries payload) _ (logged payload)
          (append_event canonical id cause v payload) s (append_event-Carries id cause v payload s))

  answered :
      (id : Text) (request : ExecuteRequest) (o : Outcome CoordinatorError SemanticEvent)
      (s' : Coordinator)
      → Logs (engine_command_requested request) o s'
      → Next {R = Reply} Requested KeepsLocal Whatever
          (λ requested.
            await (execute request) ret >>= after_execute canonical id requested.id request)
          o
          s'
  unfolding Ensures ◌>>=◌ IsQuiet
  answered id request (ok e) s' (before, same, carried) = (
    inl (before, e, same, carried),
    λ answer t o. after_execute-IsQuiet canonical id e.id request answer t,
  )
  answered id request (err x) s' h = tt

  executed :
      (id cause : Text) (request : ExecuteRequest)
      → IsQuiet (
          emit canonical id (some cause) debug (engine_command_requested request) >>= λ requested.
          await (execute request) ret >>= after_execute canonical id requested.id request)
  unfolding IsQuiet
  executed id cause request s =
      Ensures-bind Requested KeepsLocal Whatever
        (emit canonical id (some cause) debug (engine_command_requested request)) _ s
        (Ensures-mono Requested KeepsLocal (Logs (engine_command_requested request)) _
          (answered id request)
          (emit canonical id (some cause) debug (engine_command_requested request)) s
          (emit-Logs id (some cause) debug (engine_command_requested request) s))

  request_execution-IsQuiet :
      (id cause command : Text) (seen : PublicEngineState)
      → IsQuiet (request_execution canonical id cause command seen)
  unfolding request_execution
  request_execution-IsQuiet id cause command seen =
      IsQuiet-bind _ _ (search (quiet, tt) depth 10) λ reply.
        IsQuiet-bind _ _ (IsQuiet-lift (require_id reply)) λ request_id.
          executed id cause (record {
            request_id = request_id;
            expected_revision = seen.revision;
            command = command;
          })

  after_inspection-IsQuiet :
      (id cause command : Text) (reply : Option PublicEngineState)
      → IsQuiet (after_inspection canonical id cause command reply)
  unfolding after_inspection
  after_inspection-IsQuiet id cause command none = search (stopped-IsQuiet)
  after_inspection-IsQuiet id cause command (some seen) =
      search (quiet, cancelled_early-IsQuiet, request_execution-IsQuiet, tt) depth 20

  guide_executes-IsQuiet :
      (id cause command : Text) → IsQuiet (guide_executes canonical id cause command)
  unfolding guide_executes
  guide_executes-IsQuiet id cause command =
      search (quiet, cancelled_early-IsQuiet, after_inspection-IsQuiet, tt) depth 20

  follow-IsQuiet :
      (id cause : Text) (before : Option StoredIntent) (g : GuideResult)
      → IsQuiet (follow canonical id cause before g)
  unfolding follow
  follow-IsQuiet id cause before (GuideResult.rejected decision why) =
      search (guide_rejected-IsQuiet)
  follow-IsQuiet id cause before (GuideResult.provider_failure decision) =
      search (guide_rejected-IsQuiet)
  follow-IsQuiet id cause before (GuideResult.clarify decision intent) =
      search (quiet, emit-IsQuiet, guide_clarified-IsQuiet) depth 20
  follow-IsQuiet id cause before (GuideResult.explain decision) =
      search (quiet, emit-IsQuiet, guide_explained-IsQuiet) depth 20
  follow-IsQuiet id cause before (GuideResult.execute command decision source) =
      search (quiet, emit-IsQuiet, guide_executes-IsQuiet) depth 20

  after_guide-IsQuiet :
      (id cause : Text) (before : Option StoredIntent) (reply : Option GuideResult)
      → IsQuiet (after_guide canonical id cause before reply)
  unfolding after_guide
  after_guide-IsQuiet id cause before none = guide_failed-IsQuiet canonical id cause
  after_guide-IsQuiet id cause before (some g) =
      search (quiet, emit-IsQuiet, follow-IsQuiet) depth 20

  turn_body-IsQuiet :
      (input : TurnInput) (before : Option StoredIntent)
      → IsQuiet (turn_body canonical input before)
  unfolding turn_body
  turn_body-IsQuiet input before = search (quiet, emit-IsQuiet, after_guide-IsQuiet, tt) depth 20

  pub run_new-IsQuiet : (input : TurnInput) → IsQuiet (run_new canonical input)
  unfolding run_new
  run_new-IsQuiet input = search (quiet, turn_body-IsQuiet) depth 30
