-- ===== src/DorkWorker/Snapshot/Tests.antt =====
-- Runs of the codec on small snapshots.
use sttork.Base.{ℕ, ◌≡◌, refl, true, List, [], ◌∷◌}
use sttork.Base.Text.{codes, Text-discrete, is_control, is_space, trim, trim_start, trim_end}
use sttork.Base.Outcome.{Outcome, ok, err}
use sttork.Contracts.Command.{
  canonicalize_command, check_normalized, replace_blanks, has_then, word_here, is_separator,
  is_blank, at_end,
}
use sttork.Contracts.Engine.{input_requested, Boundary-discrete}
use sttork.DorkWorker.Ascii.{ascii, ascii-IsUtf8}
use sttork.DorkWorker.Snapshot.Format.{WorkerSnapshotEnvelope, WorkerSnapshotReceipt, CodecError}
use sttork.DorkWorker.Snapshot.Prepare.{
  require_safe_uint, boundary_marker, add_size, status_markers, check_expected, decode_fatal_utf8,
  encode_bounded_utf8, prepare_request_id, canonical_or, prepare_command, prepare_execute_result,
  payload_size, prepare_receipt,
}
use sttork.DorkWorker.Snapshot.Relative.{
  check_result, check_receipts, require_revisions, validate_receipts_relative,
}
use sttork.DorkWorker.Snapshot.Envelope.{
  journal_size, total_size, prepare_receipts, prepare_envelope,
}
use sttork.DorkWorker.Snapshot.Writer.{create, field_bytes, write, write_all, finish}
use sttork.DorkWorker.Snapshot.Encode.{journal_fields, encode_envelope}
use sttork.DorkWorker.Snapshot.Decode.{decode_envelope}
use sttork.DorkWorker.Snapshot.RoundTrip.Envelope.{decode-encode}
use sttork.Contracts.Engine.{committed}
use native.Mathlib.Decide.{ℕ_discrete}

-- One turn was played.
abbrev played : WorkerSnapshotReceipt
played = record {
  request_id = codes "turn-1";
  expected_revision = 0;
  command = codes "look";
  result = record {
    request_id = codes "turn-1";
    previous_revision = 0;
    revision = 1;
    command = codes "look";
    output = codes "A house.";
    turn_complete = true;
    boundary = input_requested;
    status = committed;
  };
}

abbrev saved : WorkerSnapshotEnvelope
saved = record {
  schema_version = 1;
  revision = 1;
  last_output = codes "A house.";
  boundary = input_requested;
  inner_checkpoint = codes "checkpoint-bytes";
  receipts = played ∷ [];
}

abbrev bytes_of : Outcome CodecError (List ℕ) → List ℕ
bytes_of (ok bs) = bs
bytes_of (err e) = []

abbrev saved_bytes : List ℕ
unfolding encode_envelope
saved_bytes = bytes_of (encode_envelope ascii saved)

saved_encoded : encode_envelope ascii saved ≡ ok saved_bytes
unfolding encode_envelope prepare_envelope require_safe_uint boundary_marker encode_bounded_utf8
    decode_fatal_utf8 prepare_receipts prepare_receipt prepare_request_id prepare_command
    canonical_or canonicalize_command check_normalized replace_blanks has_then word_here
    is_separator is_blank at_end is_control is_space trim trim_start trim_end prepare_execute_result
    status_markers check_expected payload_size add_size journal_size validate_receipts_relative
    check_receipts check_result require_revisions total_size journal_fields create field_bytes write
    write_all finish Text-discrete Boundary-discrete ℕ_discrete
saved_encoded = refl

decode-encode_example : decode_envelope ascii saved_bytes ≡ ok saved
decode-encode_example = decode-encode ascii saved saved_bytes ascii-IsUtf8 saved_encoded

-- A receipt that the journal lacks is missed.
unsaved : encode_envelope ascii (record saved { receipts = [] }) ≡ err CodecError.invalid_value
unfolding encode_envelope prepare_envelope require_safe_uint boundary_marker encode_bounded_utf8
    decode_fatal_utf8 prepare_receipts journal_size validate_receipts_relative check_receipts
    require_revisions total_size Text-discrete ℕ_discrete
unsaved = refl
