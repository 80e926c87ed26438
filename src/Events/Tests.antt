-- ===== src/Events/Tests.antt =====
-- A short event history: one event, a callback that throws, a second event.
use sttork.Base.{ℕ, ◌≡◌, refl, Bool, true, none, some, List, [], ◌∷◌, map, arith}
use sttork.Base.Text.{Text, codes}
use sttork.Base.Outcome.{ok}
use sttork.Contracts.Envelope.{EventEnvelope, accessible}
use sttork.Events.Sequence.{EventSequence, EventDraft, next, envelope, append, append_all, Attempt}
use sttork.Events.Order.{append_total}

abbrev any_time : Text → Bool
any_time t = true

abbrev sequence_a : EventSequence
sequence_a = record { session_id = codes "s"; next_sequence = some 7 }

abbrev draft_a : EventDraft ℕ
draft_a = record {
  type = codes "session.paused";
  correlation_id = codes "turn";
  causation_id = none;
  visibility = accessible;
  payload = 5;
}

abbrev history_a : List (Attempt ℕ)
history_a =
    (draft_a, some (codes "e1"), some (codes "now"))
    ∷ (draft_a, none, some (codes "now"))
    ∷ (draft_a, some (codes "e2"), some (codes "now"))
    ∷ []

history_numbers :
    map (λ (e : EventEnvelope ℕ). e.sequence) (append_all any_time sequence_a history_a)
    ≡ 7 ∷ 8 ∷ []
unfolding append_all append
history_numbers = refl

append_total_example :
    append any_time sequence_a draft_a (some (codes "e1")) (some (codes "now"))
    ≡ ok (
      envelope sequence_a draft_a 7 (codes "e1") (codes "now"),
      record sequence_a { next_sequence = next 7 },
    )
append_total_example =
    append_total any_time sequence_a draft_a (codes "e1") (codes "now") 7 (ground arith)
      (ground arith) (ground arith) refl
