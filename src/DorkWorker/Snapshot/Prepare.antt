-- ===== src/DorkWorker/Snapshot/Prepare.antt =====
-- spikes/dork-worker/worker-snapshot-envelope.ts: the checks on a receipt, which give its bytes.
use sttork.Base.{
  ℕ, Bool, true, false, not, ◌&&◌, ◌||◌, List, ltb, ◌==◌, length, ◌+◌, none, some, if◌then◌else◌,
}
use sttork.Base.Text.{Text, ◌===◌}
use sttork.Base.Outcome.{Outcome, ok, err, ◌>>=◌, ◌>>◌, require, throw_if}
use sttork.Contracts.Command.{canonicalize_command, string}
use sttork.Contracts.Engine.{
  Boundary, input_requested, terminated, ExecuteResult, ExecuteStatus, Rejection, max_safe_integer,
}
use sttork.DorkWorker.Snapshot.Format.{
  CodecError, invalid_value, limit_exceeded, invalid_utf8, noncanonical, WorkerSnapshotReceipt,
  Utf8, max_request_id_bytes, max_command_length, max_command_bytes, max_output_bytes,
  max_receipt_journal_bytes, receipt_fixed_bytes, receipt_length_prefix_bytes,
}

pub record PreparedCommand : Type 0 where
  pub value : Text
  pub bytes : List ℕ

pub record PreparedExecuteResult : Type 0 where
  pub value : ExecuteResult
  pub request_id_bytes : List ℕ
  pub command_bytes : List ℕ
  pub output_bytes : List ℕ
  pub boundary_marker : ℕ
  pub status_marker : ℕ
  pub rejection_marker : ℕ

pub record PreparedReceipt : Type 0 where
  pub value : WorkerSnapshotReceipt
  pub request_id_bytes : List ℕ
  pub command_bytes : List ℕ
  pub result : PreparedExecuteResult
  pub payload_bytes : ℕ
  pub encoded_bytes : ℕ

unfoldable pub require_safe_uint : ℕ → Outcome CodecError (Unit {0})
require_safe_uint value = throw_if (ltb max_safe_integer value) invalid_value

unfoldable pub boundary_marker : Boundary → Outcome CodecError ℕ
boundary_marker Boundary.input_requested = ok 1
boundary_marker Boundary.terminated = ok 2
boundary_marker Boundary.invalid = err invalid_value

unfoldable pub boundary_from_marker : ℕ → Outcome CodecError Boundary
boundary_from_marker marker =
    if marker == 1
    then ok input_requested
    else if marker == 2
    then ok terminated
    else err invalid_value

unfoldable pub add_size : ℕ → ℕ → ℕ → Outcome CodecError ℕ
add_size total amount maximum = do
  throw_if (ltb max_safe_integer (total + amount) || ltb maximum (total + amount)) limit_exceeded
  ok (total + amount)

-- The switch on `value.rejection`.
unfoldable pub rejection_marker_of : Rejection → Outcome CodecError ℕ
rejection_marker_of Rejection.stale_revision = ok 1
rejection_marker_of Rejection.duplicate = ok 2
rejection_marker_of Rejection.invalid_command = ok 3
rejection_marker_of Rejection.receipt_capacity = ok 4
rejection_marker_of Rejection.invalid = err invalid_value

-- The status marker and the rejection marker, and what a status asks of the two revisions.
unfoldable pub status_markers : ExecuteStatus → ℕ → ℕ → Outcome CodecError (ℕ × ℕ)
unfolding rejection_marker_of
status_markers ExecuteStatus.committed previous_revision revision = do
  throw_if (not (revision == previous_revision + 1) || ltb max_safe_integer (previous_revision + 1))
      invalid_value
  ok (1, 0)
status_markers (ExecuteStatus.rejected rejection) previous_revision revision = do
  throw_if (not (previous_revision == revision)) invalid_value
  marker ← rejection_marker_of rejection
  ok (2, marker)

-- What a receipt's expected revision may be, by its result's status.
unfoldable pub check_expected : ℕ → ExecuteResult → Outcome CodecError (Unit {0})
check_expected expected_revision result = elim (result.status) [
  | ExecuteStatus.committed ↦
      throw_if (not (expected_revision == result.previous_revision)) invalid_value
  | ExecuteStatus.rejected rejection ↦ elim rejection [
    | Rejection.stale_revision ↦ throw_if (expected_revision == result.revision) invalid_value
    | _ ↦ ok tt
  ]
]

-- The sum of the sizes of the parts of a receipt.
unfoldable pub payload_size : List ℕ → List ℕ → PreparedExecuteResult → Outcome CodecError ℕ
unfolding add_size
payload_size request_id_bytes command_bytes result = do
  with_id ← add_size receipt_fixed_bytes (length request_id_bytes) max_receipt_journal_bytes
  with_command ← add_size with_id (length command_bytes) max_receipt_journal_bytes
  with_result_id ← add_size with_command (length result.request_id_bytes) max_receipt_journal_bytes
  with_result_command ←
      add_size with_result_id (length result.command_bytes) max_receipt_journal_bytes
  add_size with_result_command (length result.output_bytes) max_receipt_journal_bytes

module _ (utf8 : Utf8) where
  unfoldable pub decode_fatal_utf8 : List ℕ → Outcome CodecError Text
  decode_fatal_utf8 bytes = elim (utf8.decode bytes) [
    | none ↦ err invalid_utf8
    | some text ↦ ok text
  ]

  unfoldable pub encode_bounded_utf8 : Text → ℕ → Bool → Outcome CodecError (List ℕ)
  unfolding decode_fatal_utf8
  encode_bounded_utf8 value maximum_bytes allow_empty = do
    throw_if (not allow_empty && (length value == 0)) invalid_value
    throw_if (ltb maximum_bytes (length value)) limit_exceeded
    throw_if (ltb maximum_bytes (length (utf8.encode value))) limit_exceeded
    decoded ← decode_fatal_utf8 (utf8.encode value)
    require (decoded === value) invalid_value
    ok (utf8.encode value)

  unfoldable pub prepare_request_id : Text → Outcome CodecError (List ℕ)
  unfolding encode_bounded_utf8
  prepare_request_id value = encode_bounded_utf8 value max_request_id_bytes false

  unfoldable pub canonical_or : Text → Outcome CodecError Text
  canonical_or value = elim (canonicalize_command (string value)) [
    | ok canonical ↦ ok canonical
    | err e ↦ err noncanonical
  ]

  unfoldable pub prepare_command : Text → Outcome CodecError PreparedCommand
  unfolding encode_bounded_utf8 canonical_or
  prepare_command value = do
    throw_if (ltb max_command_length (length value)) limit_exceeded
    canonical ← canonical_or value
    require (canonical === value) noncanonical
    bytes ← encode_bounded_utf8 canonical max_command_bytes false
    ok (record { value = canonical; bytes = bytes })

  unfoldable pub prepare_execute_result : ExecuteResult → Outcome CodecError PreparedExecuteResult
  unfolding prepare_request_id prepare_command encode_bounded_utf8 require_safe_uint boundary_marker
      status_markers
  prepare_execute_result value = do
    request_id_bytes ← prepare_request_id value.request_id
    command ← prepare_command value.command
    output_bytes ← encode_bounded_utf8 value.output max_output_bytes true
    require_safe_uint value.previous_revision
    require_safe_uint value.revision
    require value.turn_complete invalid_value
    boundary ← boundary_marker value.boundary
    markers ← status_markers value.status value.previous_revision value.revision
    ok (record {
      value = record {
        request_id = value.request_id;
        previous_revision = value.previous_revision;
        revision = value.revision;
        command = command.value;
        output = value.output;
        turn_complete = true;
        boundary = value.boundary;
        status = value.status;
      };
      request_id_bytes = request_id_bytes;
      command_bytes = command.bytes;
      output_bytes = output_bytes;
      boundary_marker = boundary;
      status_marker = markers.0;
      rejection_marker = markers.1;
    })

  unfoldable pub prepare_receipt : WorkerSnapshotReceipt → Outcome CodecError PreparedReceipt
  unfolding prepare_request_id require_safe_uint prepare_command prepare_execute_result
      check_expected payload_size add_size
  prepare_receipt value = do
    request_id_bytes ← prepare_request_id value.request_id
    require_safe_uint value.expected_revision
    command ← prepare_command value.command
    result ← prepare_execute_result value.result
    require (value.request_id === result.value.request_id) invalid_value
    require (command.value === result.value.command) invalid_value
    check_expected value.expected_revision result.value
    payload_bytes ← payload_size request_id_bytes command.bytes result
    encoded_bytes ← add_size receipt_length_prefix_bytes payload_bytes max_receipt_journal_bytes
    ok (record {
      value = record {
        request_id = value.request_id;
        expected_revision = value.expected_revision;
        command = command.value;
        result = result.value;
      };
      request_id_bytes = request_id_bytes;
      command_bytes = command.bytes;
      result = result;
      payload_bytes = payload_bytes;
      encoded_bytes = encoded_bytes;
    })

  -- `measureWorkerSnapshotReceiptBytes`
  unfoldable pub measure_receipt_bytes : WorkerSnapshotReceipt → Outcome CodecError ℕ
  unfolding prepare_receipt
  measure_receipt_bytes receipt = do prepared ← prepare_receipt receipt; ok prepared.encoded_bytes
