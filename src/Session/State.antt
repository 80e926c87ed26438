-- ===== src/Session/State.antt =====
-- What the coordinator holds, and the calls it makes
-- (packages/session/src/semantic-turn-coordinator.ts). The projections `#observedWorld` and
-- `#openingScene` are kept as the events that `#emit` has handed to them; from where they stood at
-- the start, they are functions of these.
use sttork.Base.{
  ℕ, zero, suc, ◌/◌, ◌%◌, Bool, true, false, not, ◌&&◌, ◌||◌, Option, none, some, List, [], ◌∷◌,
  ◌^◌, ltb, ◌==◌, if◌then◌else◌, any, length, leb, holds, ℕ_discrete,
}
use sttork.Base.Text.{Text, ◌===◌, has_control, trim, is_control}
use sttork.Base.Outcome.{Outcome, ok, ◌>>◌, throw_if}
use sttork.Contracts.Engine.{ExecuteRequest, ExecuteResult, EngineSnapshot, PublicEngineState}
use sttork.Events.Sequence.{EventSequence, EventError}
use sttork.Session.Events.{
  Number, not_finite, negative, ratio, NarrationRole, PendingIntent, ObjectAction-discrete, action,
  content_object, contextual_choice, read_examine_choice, GuideResult, SemanticEvent,
}

pub record TurnInput : Type 0 where
  pub interaction_id : Text
  pub transcript : Text
  pub transcript_confidence : Option Number
  pub observed_objects : List Text

pub data TurnOutcome : Type 0 where
  committed clarified explained rejected cancelled failed uncertain : TurnOutcome

pub record TurnResult : Type 0 where
  pub interaction_id : Text
  pub outcome : TurnOutcome
  pub events : List SemanticEvent
  pub engine_result : Option ExecuteResult
  pub checkpoint : Option EngineSnapshot

pub record RecoveryRecord : Type 0 where
  pub request : ExecuteRequest
  pub requested_event_id : Text

pub record StoredIntent : Type 0 where
  pub intent : PendingIntent
  pub source_interaction_id : Text

-- The text that `fingerprint` makes, by its parts; the two other texts are those of the failures.
pub data Fingerprint : Type 0 where
  turn :
      (interaction_id transcript : Text)
      → Option Number
      → (observed_objects : List Text) → Fingerprint
  transcription_failure audio_failure : (code : Text) → Fingerprint

unfoldable pub Fingerprint-discrete : Discrete Fingerprint
unfolding ℕ_discrete
Fingerprint-discrete = hlevel ℕ_discrete

pub data StoredTurn : Type 0 where
  pending : Fingerprint → StoredTurn
  complete : Fingerprint → TurnResult → StoredTurn
  uncertain : Fingerprint → TurnResult → RecoveryRecord → StoredTurn

pub data CoordinatorError : Type 0 where
  event : EventError → CoordinatorError
  conflict : (interaction_id : Text) → CoordinatorError
  busy : CoordinatorError
  capacity : ℕ → CoordinatorError
  type_error range_error callback : CoordinatorError
  -- what the run that was awaited threw
  rethrown : CoordinatorError

-- `local` is the array of the run that is active, `opening_pending` is
-- `this.#opening?.kind === "pending"`.
pub record Coordinator : Type 0 where
  pub sequence : EventSequence
  pub max_turns : ℕ
  pub turns : List (Text × StoredTurn)
  pub opening_pending : Bool
  pub active_interaction_id : Option Text
  pub pending_intent : Option StoredIntent
  pub local : List SemanticEvent
  -- the events of `#emit`, from which `#observedWorld` and `#openingScene` are computed
  pub projected : List SemanticEvent

pub record NarrationRequest : Type 0 where
  pub narration_id : Text
  pub role : NarrationRole
  pub text : Text
  pub source_event_id : Text
  pub correlation_id : Text

-- The calls: the callbacks (`next_stamp` asks `nextId` and `now` of the event sequence together; the
-- source does not call `now` when the identity is refused), the guide, the
-- engine port, the narrator, the flag of the abort signal, the promise of a pending turn, and that of
-- a run of one's own that has ended (`run_ended`).
pub data Call : Type 0 where
  next_stamp next_request_id next_narration_id aborted : Call
  publish : SemanticEvent → Call
  decide : TurnInput → (projected : List SemanticEvent) → Option PendingIntent → Call
  inspect_public_state snapshot : Call
  execute : ExecuteRequest → Call
  prepare : NarrationRequest → Call
  settled run_ended : (interaction_id : Text) → Call

-- What `execute` gives: a result, or an error that says or does not say `not-submitted`.
pub data Executed : Type 0 where
  result : ExecuteResult → Executed
  thrown : (not_submitted : Bool) → Executed

-- `none` and `false` are calls that threw.
abbrev pub Reply : Call → Type 0
Reply next_stamp = Option Text × Option Text
Reply next_request_id = Option Text
Reply next_narration_id = Option Text
Reply aborted = Bool
Reply (publish e) = Bool
Reply (decide input projected intent) = Option GuideResult
Reply inspect_public_state = Option PublicEngineState
Reply snapshot = Option EngineSnapshot
Reply (execute request) = Executed
Reply (prepare request) = Bool
Reply (settled interaction_id) = Option TurnResult
Reply (run_ended interaction_id) = Unit

-- `Map.get`, `Map.set` and `Map.delete`
unfoldable pub lookup : List (Text × StoredTurn) → Text → Option StoredTurn
lookup [] id = none
lookup ((k, t) ∷ rest) id = let later = lookup rest id in if k === id then some t else later

unfoldable pub set : Text → StoredTurn → List (Text × StoredTurn) → List (Text × StoredTurn)
set id t [] = (id, t) ∷ []
set id t ((k, u) ∷ rest) =
    let later = set id t rest in if k === id then (k, t) ∷ rest else (k, u) ∷ later

unfoldable pub delete : Text → List (Text × StoredTurn) → List (Text × StoredTurn)
delete id [] = []
delete id ((k, u) ∷ rest) = let later = delete id rest in if k === id then rest else (k, u) ∷ later

-- `a < b` on strings
unfoldable pub before : Text → Text → Bool
before [] [] = false
before [] (d ∷ t) = true
before (c ∷ s) [] = false
before (c ∷ s) (d ∷ t) = ltb c d || ((c == d) && before s t)

unfoldable pub insert : Text → List Text → List Text
unfolding before
insert s [] = s ∷ []
insert s (t ∷ ts) = let later = insert s ts in if before t s then t ∷ later else s ∷ t ∷ ts

-- `[...observedObjects].sort()`
unfoldable pub sort : List Text → List Text
unfolding insert
sort [] = []
sort (s ∷ ss) = insert s (sort ss)

-- `m / 2 ^ k` in lowest terms, the one form in which `JSON.stringify` sees a number.
unfoldable pub reduced : ℕ → ℕ → Number
reduced m zero = ratio m 0
reduced m (suc k) = let less = reduced (m / 2) k in if m % 2 == 0 then less else ratio m (suc k)

abbrev pub as_written : Option Number → Option Number
as_written none = none
as_written (some not_finite) = some not_finite
as_written (some negative) = some negative
as_written (some (ratio m k)) = some (reduced m k)

unfoldable pub fingerprint : TurnInput → Fingerprint
unfolding sort reduced
fingerprint input =
    turn input.interaction_id input.transcript (as_written input.transcript_confidence)
      (sort input.observed_objects)

-- A nonempty string of at most `n` units with no control.
abbrev pub is_bounded : ℕ → Text → Bool
is_bounded n value = not (length value == 0) && leb (length value) n && not (has_control value)

abbrev pub is_fraction : Number → Bool
is_fraction not_finite = false
is_fraction negative = false
is_fraction (ratio m k) = leb m (2 ^ k)

abbrev pub is_confidence : Option Number → Bool
is_confidence none = true
is_confidence (some x) = is_fraction x

unfoldable pub validate_turn_input : TurnInput → Outcome CoordinatorError (Unit {0})
unfolding trim is_control
validate_turn_input input = do
  throw_if (not (is_bounded 160 input.interaction_id)) type_error
  throw_if
      ((length (trim input.transcript) == 0)
        || ltb 2_000 (length input.transcript)
        || has_control input.transcript)
      type_error
  throw_if (not (is_confidence input.transcript_confidence)) range_error
  throw_if
      (ltb 32 (length input.observed_objects)
        || any (λ object. not (is_bounded 80 object)) input.observed_objects)
      type_error
  ok tt

-- `samePendingOpeningObjectIntent`
unfoldable pub same_intent : PendingIntent → PendingIntent → Bool
unfolding ObjectAction-discrete
same_intent (action a) (action b) = holds (ObjectAction-discrete a b)
same_intent content_object content_object = true
same_intent (contextual_choice o a b) (contextual_choice p c d) =
    (o === p) && holds (ObjectAction-discrete a c) && holds (ObjectAction-discrete b d)
same_intent (read_examine_choice o) (read_examine_choice p) = o === p
same_intent _ _ = false
