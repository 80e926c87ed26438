-- ===== src/Session/Journal.antt =====
-- The guards of the journal of turns, of `submitTurn`, `#recover`, `recordTranscriptionFailure` and
-- `recordAudioFailure` (packages/session/src/semantic-turn-coordinator.ts).
use sttork.Base.{not, ◌&&◌, Option, none, some, is_some, leb, if◌then◌else◌, length, holds}
use sttork.Base.Text.{Text}
use sttork.Base.Outcome.{Outcome, ok, err, ◌>>◌, throw_if}
use sttork.Session.State.{
  TurnResult, Fingerprint, Fingerprint-discrete, CoordinatorError, conflict, busy, capacity,
  type_error, rethrown, Coordinator, lookup, is_bounded,
}

-- What an awaited run gave, or that it threw.
abbrev pub or_rethrown : Option TurnResult → Outcome CoordinatorError TurnResult
or_rethrown none = err rethrown
or_rethrown (some result) = ok result

-- The two checks on other work in hand.
unfoldable pub require_free : Coordinator → Outcome CoordinatorError (Unit {0})
require_free self = do
  throw_if (is_some self.active_interaction_id) busy
  throw_if self.opening_pending busy
  ok tt

-- What `submitTurn` asks of a turn that the journal does not hold.
unfoldable pub admit_turn : Coordinator → Outcome CoordinatorError (Unit {0})
unfolding require_free
admit_turn self = do
  throw_if (leb self.max_turns (length self.turns)) (capacity self.max_turns)
  require_free self

unfoldable pub same_turn : Text → Fingerprint → Fingerprint → Outcome CoordinatorError (Unit {0})
unfolding Fingerprint-discrete
same_turn interaction_id fp fp' =
    if holds (Fingerprint-discrete fp fp') then ok tt else err (conflict interaction_id)

-- What both `recordTranscriptionFailure` and `recordAudioFailure` ask.
unfoldable pub admit_failure :
    Coordinator → (interaction_id code : Text) → Outcome CoordinatorError (Unit {0})
unfolding lookup
admit_failure self interaction_id code = do
  throw_if (not (is_bounded 160 interaction_id && is_bounded 160 code)) type_error
  throw_if (is_some (lookup self.turns interaction_id)) (conflict interaction_id)
  throw_if (leb self.max_turns (length self.turns)) (capacity self.max_turns)
  ok tt
