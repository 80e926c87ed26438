-- ===== src/Events/Sequence.antt =====
-- packages/events/src/event-sequence.ts, class `EventSequence`. `nextId` and `now` are callbacks:
-- what they returned is an argument, `none` if they threw.
use sttork.Base.{ℕ, suc, Bool, ◌&&◌, Option, none, some, List, [], ◌∷◌, leb, ◌==◌, if◌then◌else◌}
use sttork.Base.Text.{Text}
use sttork.Base.Outcome.{Outcome, ok, err, ◌>>=◌, ◌>>◌, require}
use sttork.Contracts.Engine.{max_safe_integer}
use sttork.Contracts.Envelope.{
  Visibility, EventEnvelope, is_nonempty, is_optional, is_visibility, is_event_envelope_v1,
}

pub record EventSequence : Type 0 where
  pub session_id : Text
  pub next_sequence : Option ℕ

pub record EventDraft (P : Type 0) : Type 0 where
  pub type : Text
  pub correlation_id : Text
  pub causation_id : Option Text
  pub visibility : Visibility
  pub payload : P

-- The `TypeError`s and `RangeError`s of the class, and a callback that threw.
pub data EventError : Type 0 where
  type_error range_error callback : EventError

-- The constructor, `firstSequence` given.
unfoldable pub create : Text → ℕ → Outcome EventError EventSequence
create session_id first_sequence = do
  require (is_nonempty session_id) type_error
  require (leb first_sequence max_safe_integer && leb 1 first_sequence) range_error
  ok (record { session_id = session_id; next_sequence = some first_sequence })

abbrev pub or_exhausted : Option ℕ → Outcome EventError ℕ
or_exhausted none = err range_error
or_exhausted (some n) = ok n

abbrev pub or_callback : Option Text → Outcome EventError Text
or_callback none = err callback
or_callback (some t) = ok t

-- `sequence === MAX_SAFE_INTEGER ? undefined : sequence + 1`
unfoldable pub next : ℕ → Option ℕ
next n = if n == max_safe_integer then none else some (suc n)

module _ {P : Type 0} where
  -- `append` up to the call of `nextId`.
  unfoldable pub admit_draft : EventSequence → EventDraft P → Outcome EventError ℕ
  admit_draft self draft = do
    sequence ← or_exhausted self.next_sequence
    require (is_nonempty draft.type) type_error
    require (is_nonempty draft.correlation_id) type_error
    require (is_optional draft.causation_id) type_error
    require (is_visibility draft.visibility) type_error
    ok sequence

  unfoldable pub envelope : EventSequence → EventDraft P → ℕ → Text → Text → EventEnvelope P
  envelope self draft sequence id occurred_at = record {
    schema_version = 1;
    id = id;
    session_id = self.session_id;
    sequence = sequence;
    occurred_at = occurred_at;
    type = draft.type;
    correlation_id = draft.correlation_id;
    causation_id = draft.causation_id;
    visibility = draft.visibility;
    payload = draft.payload;
  }

-- One call of `append`: the draft and what the callbacks returned.
abbrev pub Attempt : Type 0 → Type 0
Attempt P = EventDraft P × Option Text × Option Text

module _ (canonical : Text → Bool) {P : Type 0} where
  -- `append` from the call of `nextId` on.
  unfoldable pub stamp :
      EventSequence
      → EventDraft P
      → ℕ
      → (next_id now : Option Text) → Outcome EventError (EventEnvelope P × EventSequence)
  unfolding envelope is_event_envelope_v1 next
  stamp self draft sequence next_id now = do
    id ← or_callback next_id
    require (is_nonempty id) type_error
    occurred_at ← or_callback now
    require (canonical occurred_at) range_error
    require (is_event_envelope_v1 canonical (envelope self draft sequence id occurred_at))
        type_error
    ok (envelope self draft sequence id occurred_at, record self { next_sequence = next sequence })

  unfoldable pub append :
      EventSequence
      → EventDraft P
      → (next_id now : Option Text) → Outcome EventError (EventEnvelope P × EventSequence)
  unfolding admit_draft stamp
  append self draft next_id now = do
    sequence ← admit_draft self draft
    stamp self draft sequence next_id now

  abbrev after :
      EventSequence → Outcome EventError (EventEnvelope P × EventSequence) → EventSequence
  after self (ok (event, self')) = self'
  after self (err e) = self

  abbrev recorded :
      Outcome EventError (EventEnvelope P × EventSequence)
      → List (EventEnvelope P)
      → List (EventEnvelope P)
  recorded (ok (event, self')) events = event ∷ events
  recorded (err e) events = events

  -- The events of a history of attempts; an attempt that throws adds none.
  unfoldable pub append_all : EventSequence → List (Attempt P) → List (EventEnvelope P)
  append_all self [] = []
  append_all self ((draft, id, now) ∷ rest) =
      let r = append self draft id now in recorded r (append_all (after self r) rest)
