-- ===== src/Session/Turn.antt =====
-- A turn of the coordinator: `#emit`, `#narrate`, `#finishEngineResult`, `#runNew`, `#recover` and
-- `submitTurn` (packages/session/src/semantic-turn-coordinator.ts).
use sttork.Base.{Bool, ◌||◌, Option, none, some, [], ◌∷◌, ◌++◌, ltb, ◌==◌, if◌then◌else◌, length}
use sttork.Base.Text.{Text}
use sttork.Base.Outcome.{Outcome, ok, err}
use sttork.Async.{Proc, ret, put, ask, ◌>>=◌, ◌>>◌, lift, state, modify}
use sttork.Contracts.Envelope.{Visibility}
use sttork.Events.Sequence.{EventDraft, EventError, admit_draft, append}
use sttork.Session.Events.{Payload, type_of, SemanticEvent}
use sttork.Session.State.{
  CoordinatorError, type_error, callback, Coordinator, Call, next_stamp, aborted, publish, Reply,
}

abbrev pub Method : Type 0 → Type 0
Method A = Proc Coordinator CoordinatorError Call Reply A

-- An error of the event sequence, thrown on.
abbrev pub of_event : {A : Type 0} → Outcome EventError A → Outcome CoordinatorError A
of_event (ok a) = ok a
of_event (err e) = err (CoordinatorError.event e)

-- `#requireId` on what a callback returned.
unfoldable pub require_id : Option Text → Outcome CoordinatorError Text
require_id none = err callback
require_id (some id) = if (length id == 0) || ltb 160 (length id) then err type_error else ok id

abbrev pub draft_of : Payload → Text → Option Text → Visibility → EventDraft Payload
draft_of payload correlation_id causation_id visibility = record {
  type = type_of payload;
  correlation_id = correlation_id;
  causation_id = causation_id;
  visibility = visibility;
  payload = payload;
}

abbrev pub is_aborted : Method Bool
is_aborted = ask aborted ret

module _ (canonical : Text → Bool) where
  -- `#emit` but for `local.push(event)`: number the event, hand it to the projections and publish
  -- it; what the subscriber throws is dropped.
  unfoldable pub append_event : Text → Option Text → Visibility → Payload → Method SemanticEvent
  unfolding admit_draft append
  append_event correlation_id causation_id visibility payload = do
    self ← state
    lift (
        of_event
          (admit_draft self.sequence (draft_of payload correlation_id causation_id visibility)))
    (id, now) ← ask next_stamp ret
    (event, sequence) ← lift (
        of_event (
          append canonical self.sequence (draft_of payload correlation_id causation_id visibility)
            id now))
    put (record self { sequence = sequence; projected = self.projected ++ event ∷ [] }) (ret tt)
    ask (publish event) ret
    ret event

  -- `#emit` on the array of the active run.
  unfoldable pub emit : Text → Option Text → Visibility → Payload → Method SemanticEvent
  unfolding append_event
  emit correlation_id causation_id visibility payload = do
    event ← append_event correlation_id causation_id visibility payload
    modify (λ self. record self { local = self.local ++ event ∷ [] })
    ret event

  -- `#emit` where its event is not used.
  abbrev pub note : Text → Option Text → Visibility → Payload → Method (Unit {0})
  unfolding emit
  note correlation_id causation_id visibility payload =
      emit correlation_id causation_id visibility payload >>= λ _. ret tt
