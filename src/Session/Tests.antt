-- ===== src/Session/Tests.antt =====
-- The coordinator's turn on concrete inputs: a turn of which the guide fails, then the same again.
use sttork.Base.{
  ℕ, ◌≡◌, ◌≢◌, refl, Bool, true, false, ◌⊎◌, ◌↔◌, Option, none, some, List, [], ◌∷◌, arith,
}
use sttork.Base.Text.{Text, codes, Text-discrete}
use sttork.Base.Outcome.{ok, err}
use sttork.Async.{World, run, ◌>>=◌, catch, finally}
use sttork.Contracts.Envelope.{accessible}
use sttork.Session.Events.{
  Payload, SemanticEvent, transcript_final, system_error, guide, narrator, PlaybackOutcome,
  not_submitted, type_of, ratio,
}
use sttork.Session.State.{
  TurnInput, TurnResult, failed, RecoveryRecord, complete, uncertain, capacity, conflict,
  Coordinator, Call, Reply, next_stamp, next_request_id, next_narration_id, aborted, publish,
  decide, inspect_public_state, snapshot, execute, prepare, settled, run_ended, thrown, lookup,
  fingerprint, validate_turn_input, reduced,
}
use sttork.Session.Excerpt.{
  is_ordered_exact_line_subsequence, kept, lines, is_ordered_exact_line_subsequence_iff,
}
use sttork.Session.Segments.{narration_segments}
use sttork.Session.Segments.Letters.{spoken, joined, narration_segments-spoken}
use sttork.Session.Submit.{submit_turn}
use sttork.Session.Replay.{at_once, full, submit_turn-complete, submit_turn-refused}
use sttork.Session.Once.{submit_turn-twice}
use sttork.Async.Rules.{Ensures}
use sttork.Session.Requested.Rules.{Requested, KeepsLocal, Whatever}
use sttork.Session.Requested.Submission.{submit_turn-Requested}
use sttork.Session.Records.{take_note, playback_ended}
use sttork.Session.Records.Aside.{IsAside, take_note-IsAside}
use sttork.Session.Free.{IsFree, submit_turn-IsFree}

abbrev any_time : Text → Bool
any_time t = true

abbrev silent_reply : ℕ → (c : Call) → Reply c
silent_reply n next_stamp = (some (codes "e"), some (codes "now"))
silent_reply n next_request_id = none
silent_reply n next_narration_id = none
silent_reply n aborted = false
silent_reply n (publish e) = true
silent_reply n (decide input projected intent) = none
silent_reply n inspect_public_state = none
silent_reply n snapshot = none
silent_reply n (execute request) = thrown false
silent_reply n (prepare request) = false
silent_reply n (settled id) = none
silent_reply n (run_ended id) = tt

-- A world in which nothing but the event sequence's callbacks answers.
abbrev silent_world : World Coordinator Call Reply
silent_world = record { reply = silent_reply; meanwhile = λ n s. s }

abbrev input_a : TurnInput
input_a = record {
  interaction_id = codes "t1";
  transcript = codes "open it";
  transcript_confidence = none;
  observed_objects = codes "mailbox" ∷ [];
}

abbrev start_a : Coordinator
start_a = record {
  sequence = record { session_id = codes "s"; next_sequence = some 1 };
  max_turns = 128;
  turns = [];
  opening_pending = false;
  active_interaction_id = none;
  pending_intent = none;
  local = [];
  projected = [];
}

abbrev event_a : ℕ → Option Text → Payload → SemanticEvent
event_a n cause payload = record {
  schema_version = 1;
  id = codes "e";
  session_id = codes "s";
  sequence = n;
  occurred_at = codes "now";
  type = type_of payload;
  correlation_id = codes "t1";
  causation_id = cause;
  visibility = accessible;
  payload = payload;
}

abbrev result_a : TurnResult
result_a = record {
  interaction_id = codes "t1";
  outcome = failed;
  events =
      event_a 1 none (transcript_final (codes "open it") none)
      ∷ event_a 2 (some (codes "e")) (system_error guide (codes "guide-failed") not_submitted)
      ∷ [];
  engine_result = none;
  checkpoint = none;
}

one_half : reduced 2 2 ≡ ratio 1 1
unfolding reduced
one_half = refl

submit_turn_failed :
    (run silent_world 0 start_a (submit_turn any_time input_a)).outcome ≡ ok result_a
unfolding submit_turn run ◌>>=◌ catch finally
submit_turn_failed = refl

abbrev after_a : Coordinator
after_a = (run silent_world 0 start_a (submit_turn any_time input_a)).final

submit_turn-twice_example :
    ((recovery : RecoveryRecord) × (lookup after_a.turns (codes "t1")
        ≡ some (uncertain (fingerprint input_a) result_a recovery)))
    ⊎ ((w' : World Coordinator Call Reply) (n' : ℕ)
        → run w' n' after_a (submit_turn any_time input_a) ≡ at_once (ok result_a) after_a)
unfolding lookup
submit_turn-twice_example =
    submit_turn-twice any_time start_a input_a result_a silent_world 0 refl submit_turn_failed

submit_turn-IsFree_example : IsFree after_a
submit_turn-IsFree_example =
    submit_turn-IsFree any_time silent_world 0 start_a input_a (λ n s. refl) refl

abbrev stored_a : Coordinator
stored_a = record start_a { turns = (codes "t1", complete (fingerprint input_a) result_a) ∷ [] }

submit_turn-complete_example :
    (fingerprint input_a ≡ fingerprint input_a
      → run silent_world 0 stored_a (submit_turn any_time input_a) ≡ at_once (ok result_a) stored_a)
    × (fingerprint input_a ≢ fingerprint input_a
        → run silent_world 0 stored_a (submit_turn any_time input_a)
          ≡ at_once (err (conflict (codes "t1"))) stored_a)
unfolding lookup validate_turn_input Text-discrete
submit_turn-complete_example =
    submit_turn-complete any_time silent_world 0 stored_a input_a (fingerprint input_a) result_a
      refl refl

abbrev full_a : Coordinator
full_a = record start_a { max_turns = 0 }

submit_turn-refused_example :
    run silent_world 0 full_a (submit_turn any_time input_a) ≡ at_once (err (capacity 0)) full_a
unfolding lookup validate_turn_input
submit_turn-refused_example =
    submit_turn-refused any_time silent_world 0 full_a input_a (capacity 0) refl refl
      (full (omega arith))

is_ordered_exact_line_subsequence_iff_example :
    (is_ordered_exact_line_subsequence (codes "West of House\n>") (codes ">") ≡ true)
    ↔ ((bs : List Bool) × (kept bs (lines (codes "West of House\n>")) ≡ lines (codes ">")))
is_ordered_exact_line_subsequence_iff_example =
    is_ordered_exact_line_subsequence_iff (codes "West of House\n>") (codes ">")

narration_segments_test :
    narration_segments (codes "Taken. The  door is open!\n>")
    ≡ codes "Taken." ∷ codes "The door is open!" ∷ codes ">" ∷ []
unfolding narration_segments
narration_segments_test = refl

narration_segments-spoken_example :
    spoken (joined (narration_segments (codes "Taken. The  door is open!")))
    ≡ spoken (codes "Taken. The  door is open!")
narration_segments-spoken_example = narration_segments-spoken (codes "Taken. The  door is open!")

submit_turn-Requested_example :
    Ensures Requested KeepsLocal Whatever (submit_turn any_time input_a) start_a
submit_turn-Requested_example = submit_turn-Requested any_time input_a start_a

take_note-IsAside_example : IsAside (
    take_note any_time (
      playback_ended
        (codes "t1")
        (codes "n")
        narrator
        (codes "e")
        PlaybackOutcome.failed
        (some (codes "c"))))
take_note-IsAside_example = take_note-IsAside any_time (
    playback_ended (codes "t1") (codes "n") narrator (codes "e") PlaybackOutcome.failed
      (some (codes "c")))
