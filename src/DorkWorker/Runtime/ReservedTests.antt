-- ===== src/DorkWorker/Runtime/ReservedTests.antt =====
-- The room that one command needs, and that it is enough.
use sttork.Base.{
  ℕ, zero, suc, ◌+◌, ◌≤◌, ◌≡◌, refl, true, false, [], arith, some, none, all, ltb, holds-true,
}
use sttork.Base.Text.{Text, codes, Text-discrete, is_control, is_space, trim, trim_start, trim_end}
use sttork.Base.Outcome.{ok}
use sttork.Contracts.Command.{
  canonicalize_command, check_normalized, replace_blanks, has_then, word_here, is_separator,
  is_blank, at_end,
}
use sttork.Contracts.Engine.{ExecuteRequest, ExecuteResult, input_requested}
use sttork.DorkWorker.Ascii.{ascii, ascii-IsUtf8}
use sttork.DorkWorker.Snapshot.Prepare.{
  require_safe_uint, boundary_marker, add_size, status_markers, check_expected, decode_fatal_utf8,
  encode_bounded_utf8, prepare_request_id, canonical_or, prepare_command, prepare_execute_result,
  payload_size, prepare_receipt, measure_receipt_bytes,
}
use sttork.DorkWorker.Runtime.State.{DorkWorkerRuntime}
use sttork.DorkWorker.Runtime.Receipts.{
  find, measured, can_record_receipt, can_record_worst_case, record_receipt, receipt_of,
  committed_result, repeat_x,
}
use sttork.DorkWorker.Runtime.Reserved.{length-repeat_x, record_receipt-reserved}
use native.Mathlib.Decide.{ℕ_discrete}

abbrev fresh : DorkWorkerRuntime
fresh = record {
  story_id = codes "story";
  runtime_identity = record { id = codes "dork"; version = codes "1"; artifact_sha256 = [] };
  adapter_identity = record { id = codes "adapter"; version = codes "1" };
  snapshot_schema_version = 1;
  max_receipts = 4;
  max_receipt_journal_bytes = 1048576;
  session = some 0;
  compatibility = none;
  receipts = [];
  receipt_journal_bytes = 0;
  operation_in_flight = false;
  disposed = false;
  lifecycle_epoch = 0;
}

abbrev look : ExecuteRequest
look = record { request_id = codes "r1"; expected_revision = 3; command = codes "look" }

abbrev result_of : Text → ExecuteResult
result_of output = committed_result (codes "r1") 3 4 (codes "look") output input_requested

repeat_x-ascii : (n : ℕ) → all (λ b. ltb b 128) (repeat_x n) ≡ true
unfolding repeat_x
repeat_x-ascii zero = refl
repeat_x-ascii (suc n) = repeat_x-ascii n

output_encoded :
    (n : ℕ) → n ≤ 262144 → encode_bounded_utf8 ascii (repeat_x n) 262144 true ≡ ok (repeat_x n)
unfolding encode_bounded_utf8 decode_fatal_utf8
output_encoded n h = ground (
  arith,
  length-repeat_x n,
  repeat_x-ascii n,
  holds-true (Text-discrete (repeat_x n) (repeat_x n)) refl,
)

id_encoded : prepare_request_id ascii (codes "r1") ≡ ok (codes "r1")
unfolding prepare_request_id encode_bounded_utf8 decode_fatal_utf8 Text-discrete ℕ_discrete
id_encoded = refl

command_encoded :
    prepare_command ascii (codes "look")
    ≡ ok (record { value = codes "look"; bytes = codes "look" })
unfolding prepare_command canonical_or encode_bounded_utf8 decode_fatal_utf8 canonicalize_command
    check_normalized replace_blanks has_then word_here is_separator is_blank at_end is_control
    is_space trim trim_start trim_end Text-discrete ℕ_discrete
command_encoded = refl

result_prepared :
    (n : ℕ)
    → n ≤ 262144
    → prepare_execute_result ascii (result_of (repeat_x n))
      ≡ ok (record {
        value = result_of (repeat_x n);
        request_id_bytes = codes "r1";
        command_bytes = codes "look";
        output_bytes = repeat_x n;
        boundary_marker = 1;
        status_marker = 1;
        rejection_marker = 0;
      })
unfolding prepare_execute_result require_safe_uint boundary_marker status_markers
result_prepared n h = ground (arith, id_encoded, command_encoded, output_encoded n h)

receipt_measured :
    (n : ℕ) → n ≤ 262144 → measured ascii (receipt_of look (result_of (repeat_x n))) ≡ ok (56 + n)
unfolding measured measure_receipt_bytes prepare_receipt require_safe_uint check_expected
    payload_size add_size
receipt_measured n h = ground (
  arith,
  id_encoded,
  command_encoded,
  result_prepared n h,
  length-repeat_x n,
  holds-true (Text-discrete (codes "r1") (codes "r1")) refl,
  holds-true (Text-discrete (codes "look") (codes "look")) refl,
)

room_reserved : can_record_worst_case ascii fresh look 3 ≡ ok true
unfolding can_record_worst_case can_record_receipt
room_reserved = ground (arith, receipt_measured 262144 (omega arith))

record_receipt-reserved_example :
    (next : DorkWorkerRuntime) × (record_receipt ascii
        (receipt_of look (result_of (repeat_x 9)))
        fresh
      ≡ ok next)
    × (find (codes "r1") next.receipts ≡ some (receipt_of look (result_of (repeat_x 9))))
record_receipt-reserved_example =
    record_receipt-reserved ascii ascii-IsUtf8 fresh look 3 65 (result_of (repeat_x 9))
      room_reserved refl refl (receipt_measured 9 (omega arith))
