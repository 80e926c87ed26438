-- ===== src/Events/Order.antt =====
-- The order of a session's events: which event a call of `append` gives, when it cannot fail, and
-- how the events of a whole history are numbered (packages/events/src/event-sequence.ts).
use sttork.Base.{ℕ, ◌≤◌, ◌≡◌, Bool, true, Option, some, List, [], ◌∷◌, arith}
use sttork.Base.Text.{Text}
use sttork.Base.Outcome.{ok}
use sttork.Contracts.Engine.{max_safe_integer}
use sttork.Contracts.Envelope.{
  EventEnvelope, is_nonempty, is_optional, is_visibility, is_event_envelope_v1,
}
use sttork.Events.Sequence.{EventSequence, EventDraft, next, envelope, stamp, admit_draft, append}

-- The sequence `s` has a named session, and its next number is the positive safe integer `n`.
abbrev pub IsReady : EventSequence → ℕ → Type 0
IsReady s n =
    (s.next_sequence ≡ some n)
    × (is_nonempty s.session_id ≡ true)
    × (1 ≤ n)
    × (n ≤ max_safe_integer)

-- A draft that `append` admits.
abbrev pub IsDraft : {P : Type 0} → EventDraft P → Type 0
IsDraft draft =
    (is_nonempty draft.type ≡ true)
    × (is_nonempty draft.correlation_id ≡ true)
    × (is_optional draft.causation_id ≡ true)
    × (is_visibility draft.visibility ≡ true)

-- The numbers follow each other from `n` on, and none follows the largest safe integer.
unfoldable pub IsNumbered : Option ℕ → List ℕ → Type 0
IsNumbered o [] = Unit
IsNumbered o (m ∷ ms) = (o ≡ some m) × IsNumbered (next m) ms

module _ (canonical : Text → Bool) {P : Type 0} where
  append-draft :
      (s s' : EventSequence) (draft : EventDraft P) (id now : Option Text) (event : EventEnvelope P)
      → append canonical s draft id now ≡ ok (event, s')
      → (event.payload ≡ draft.payload)
        × (event.causation_id ≡ draft.causation_id)
        × (event.type ≡ draft.type)
        × (event.correlation_id ≡ draft.correlation_id)
        × (event.visibility ≡ draft.visibility)
  unfolding append envelope
  append-draft s s' draft id now event h = ground arith

  append-numbered :
      (s s' : EventSequence) (draft : EventDraft P) (id now : Option Text) (event : EventEnvelope P)
      → append canonical s draft id now ≡ ok (event, s')
      → (is_event_envelope_v1 canonical event ≡ true)
        × (s.next_sequence ≡ some event.sequence)
        × (s'.next_sequence ≡ next event.sequence)
        × (s'.session_id ≡ s.session_id)
        × (event.session_id ≡ s.session_id)
        × (id ≡ some event.id)
        × (now ≡ some event.occurred_at)
  unfolding append envelope
  append-numbered s s' draft id now event h = ground arith

  pub append_lem :
      (s s' : EventSequence) (draft : EventDraft P) (id now : Option Text) (event : EventEnvelope P)
      → append canonical s draft id now ≡ ok (event, s')
      → (is_event_envelope_v1 canonical event ≡ true)
        × (s.next_sequence ≡ some event.sequence)
        × (s'.next_sequence ≡ next event.sequence)
        × (s'.session_id ≡ s.session_id)
        × (event.session_id ≡ s.session_id)
        × (event.payload ≡ draft.payload)
        × (event.causation_id ≡ draft.causation_id)
        × (event.type ≡ draft.type)
        × (event.correlation_id ≡ draft.correlation_id)
        × (event.visibility ≡ draft.visibility)
        × (id ≡ some event.id)
        × (now ≡ some event.occurred_at)
  append_lem s s' draft id now event h =
      let (v, n, n', a, b, i, o) = append-numbered s s' draft id now event h in
      let (p, c, t, d, w) = append-draft s s' draft id now event h in
      (v, n, n', a, b, p, c, t, d, w, i, o)

  -- On a ready sequence and an admitted draft, `append` returns the envelope whenever the callbacks
  -- give a nonempty identity and a canonical time.
  pub append_total :
      (s : EventSequence) (draft : EventDraft P) (id now : Text) (n : ℕ)
      → IsReady s n
      → IsDraft draft
      → is_nonempty id ≡ true
      → canonical now ≡ true
      → append canonical s draft (some id) (some now)
        ≡ ok (envelope s draft n id now, record s { next_sequence = next n })
  unfolding append admit_draft stamp envelope is_event_envelope_v1
  append_total s draft id now n (e, se, lo, hi) (t, c, v, w) i o = ground arith
