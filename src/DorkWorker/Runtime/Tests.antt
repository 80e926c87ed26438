-- ===== src/DorkWorker/Runtime/Tests.antt =====
-- Runs of the runtime on small inputs: a game that is over refuses a command, and repeats it.
use sttork.Base.{List, ◌≤◌, ℕ, ◌≡◌, refl, sym, ap, subst, false, [], ◌∷◌, none, some, arith}
use sttork.Base.Text.{codes, Text-discrete, is_control, is_space, trim, trim_start, trim_end}
use sttork.Base.Outcome.{ok}
use sttork.Async.{World, Run, run, ◌>>=◌, catch, finally}
use sttork.Async.Rules.{Ensures}
use sttork.Contracts.Command.{
  canonicalize_command, check_normalized, replace_blanks, has_then, word_here, is_separator,
  is_blank, at_end,
}
use sttork.Contracts.Engine.{
  terminated, Boundary-discrete, ExecuteRequest, ExecuteResult, invalid_command,
}
use sttork.GameEngine.Protocol.{EngineWorkerResponse, execute_result}
use sttork.DorkWorker.Ascii.{ascii}
use sttork.DorkWorker.Snapshot.Prepare.{
  require_safe_uint, boundary_marker, add_size, rejection_marker_of, status_markers, check_expected,
  decode_fatal_utf8, encode_bounded_utf8, prepare_request_id, canonical_or, prepare_command,
  prepare_execute_result, payload_size, prepare_receipt, measure_receipt_bytes,
}
use sttork.DorkWorker.Runtime.State.{
  DorkWorkerRuntime, RuntimeError, Call, Reply, artifact_sha256, digest_sha256, new_session,
  restore_session, boot_session, inspect_session, execute_session, snapshot_session,
  dispose_session, threw, inspect, or_failed,
}
use sttork.DorkWorker.Runtime.Checks.{
  require_bounded_id, require_revision, RuntimeOptions, create, check_seed, require_positive_limit,
}
use sttork.DorkWorker.Runtime.Receipts.{
  find, set, measured, can_record_receipt, record_receipt, rejected_execute, receipt_of,
}
use sttork.DorkWorker.Runtime.Execute.{
  execute_method, execute_in, execute_found, execute_new, reject, record_result, is_canonical,
}
use sttork.DorkWorker.Runtime.Exchange.{exchange, answer, dispatch, respond}
use sttork.DorkWorker.Runtime.Meanwhile.{Meanwhile, nothing, Anything}
use sttork.DorkWorker.Runtime.Answers.{IsAnswered, exchange-IsAnswered}
use sttork.DorkWorker.Runtime.Repeats.{execute_message, IsReady, IsAdmitted, exchange-replays}
use sttork.DorkWorker.Runtime.Once.{exchange-twice}
use sttork.DorkWorker.Runtime.Sound.{IsWithin}
use sttork.DorkWorker.Runtime.Journal.History.{
  Event, exchanges, disposes, after_all, history-IsWithin,
}
use native.Mathlib.Decide.{ℕ_discrete}

-- A runtime whose session is the first.
abbrev booted : DorkWorkerRuntime
booted = record {
  story_id = codes "story";
  runtime_identity = record { id = codes "dork"; version = codes "1"; artifact_sha256 = [] };
  adapter_identity = record { id = codes "adapter"; version = codes "1" };
  snapshot_schema_version = 1;
  max_receipts = 4;
  max_receipt_journal_bytes = 1048576;
  session = some 0;
  compatibility = none;
  receipts = [];
  receipt_journal_bytes = 0;
  operation_in_flight = false;
  disposed = false;
  lifecycle_epoch = 0;
}

abbrev over_reply : ℕ → (c : Call) → Reply c
over_reply n artifact_sha256 = none
over_reply n (digest_sha256 bytes) = none
over_reply n new_session = none
over_reply n (restore_session bytes) = none
over_reply n (boot_session session) = none
over_reply n (inspect_session session) =
    some (record { revision = 3; last_output = codes "The end."; boundary = terminated })
over_reply n (execute_session session command) = threw
over_reply n (snapshot_session session) = none
over_reply n (dispose_session session) = tt

-- A world in which the game is over.
abbrev over : World DorkWorkerRuntime Call Reply
over = record { reply = over_reply; meanwhile = λ n s. s }

abbrev look : ExecuteRequest
look = record { request_id = codes "r1"; expected_revision = 3; command = codes "look" }

abbrev too_late : ExecuteResult
too_late = rejected_execute (codes "r1") (codes "look") 3 terminated invalid_command

abbrev after_look : DorkWorkerRuntime
after_look = record booted { receipts = receipt_of look too_late ∷ []; receipt_journal_bytes = 56 }

-- The session is asked for its state, and is not told to run the command.
look_rejected : run over 0 booted (exchange ascii (execute_message (codes "m1") look)) ≡ record {
  outcome = ok (respond (execute_message (codes "m1") look) (execute_result too_late));
  final = after_look;
  calls = inspect_session 0 ∷ [];
}
unfolding run ◌>>=◌ catch finally exchange answer dispatch execute_method execute_in execute_found
    execute_new reject record_result is_canonical find set measured can_record_receipt
    record_receipt inspect or_failed require_bounded_id require_revision canonicalize_command
    check_normalized replace_blanks has_then word_here is_separator is_blank at_end is_control
    is_space trim trim_start trim_end require_safe_uint boundary_marker add_size rejection_marker_of
    status_markers check_expected decode_fatal_utf8 encode_bounded_utf8 prepare_request_id
    canonical_or prepare_command prepare_execute_result payload_size prepare_receipt
    measure_receipt_bytes Text-discrete Boundary-discrete ℕ_discrete
look_rejected = refl

admitted : IsAdmitted ascii (codes "m2") look
unfolding require_bounded_id require_revision is_control
admitted = record { message = refl; request = refl; revision = refl }

abbrev first_run : Run DorkWorkerRuntime RuntimeError Call EngineWorkerResponse
first_run = run over 0 booted (exchange ascii (execute_message (codes "m1") look))

ready : IsReady first_run.final 0
ready =
    subst (λ (r : Run DorkWorkerRuntime RuntimeError Call EngineWorkerResponse). IsReady r.final 0)
      (sym look_rejected) (record { free = refl; alive = refl; active = refl })

exchange-IsAnswered_example :
    Ensures Anything Meanwhile
      (IsAnswered (execute_message (codes "m1") look))
      (exchange ascii (execute_message (codes "m1") look))
      booted
exchange-IsAnswered_example =
    exchange-IsAnswered ascii (execute_message (codes "m1") look) booted refl

exchange-replays_example :
    run over 7 after_look (exchange ascii (execute_message (codes "m2") look)) ≡ record {
      outcome = ok (respond (execute_message (codes "m2") look) (execute_result too_late));
      final = after_look;
      calls = [];
    }
unfolding find Text-discrete
exchange-replays_example =
    exchange-replays ascii over 7 0 after_look (codes "m2") look too_late
      (record { free = refl; alive = refl; active = refl }) admitted refl

exchange-twice_example :
    run over 7 first_run.final (exchange ascii (execute_message (codes "m2") look)) ≡ record {
      outcome = ok (respond (execute_message (codes "m2") look) (execute_result too_late));
      final = first_run.final;
      calls = [];
    }
exchange-twice_example =
    exchange-twice ascii over over 0 7 0 booted (codes "m1") (codes "m2") look too_late
      (λ m t. nothing) refl
      (ap (λ (r : Run DorkWorkerRuntime RuntimeError Call EngineWorkerResponse). r.outcome)
        look_rejected)
      (λ e. ground (arith, e)) (λ e. ground (arith, e)) ready admitted

abbrev new_runtime : DorkWorkerRuntime
new_runtime = record booted { session = none }

abbrev options : RuntimeOptions
options = record {
  story_id = codes "story";
  story_byte_length = 64;
  seed = none;
  max_receipts = some 4;
  max_receipt_journal_bytes = none;
}

-- A message that comes before the boot, a disposal, and a message that comes after it.
abbrev events : List Event
events =
    exchanges over (execute_message (codes "m1") look)
    ∷ disposes over
    ∷ exchanges over (execute_message (codes "m2") look)
    ∷ []

made : create ascii booted.runtime_identity booted.adapter_identity 1 options ≡ ok new_runtime
unfolding create require_bounded_id check_seed require_positive_limit is_control
made = refl

history-IsWithin_example :
    IsWithin ascii 4 1048576 (after_all ascii events new_runtime) × (4 ≤ 32) × (1048576 ≤ 1048576)
history-IsWithin_example =
    history-IsWithin ascii booted.runtime_identity booted.adapter_identity 1 options new_runtime
      events made ((λ n s. nothing), ((λ n s. nothing), ((λ n s. nothing), tt)))
