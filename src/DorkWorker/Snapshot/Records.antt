-- ===== src/DorkWorker/Snapshot/Records.antt =====
-- spikes/dork-worker/worker-snapshot-envelope.ts: decodeStatus, decodeReceipt and the loop over the
-- journal's records in decodeWorkerSnapshotEnvelope.
use sttork.Base.{ℕ, zero, suc, true, false, not, List, [], ◌∷◌, ltb, ◌==◌, ◌+◌, if◌then◌else◌}
use sttork.Base.Outcome.{Outcome, ok, err, throw_if, require}
use sttork.Contracts.Engine.{
  Boundary, ExecuteStatus, committed, rejected, stale_revision, duplicate, invalid_command,
  receipt_capacity,
}
use sttork.DorkWorker.Snapshot.Format.{
  CodecError, invalid_value, noncanonical, truncated, trailing_bytes, WorkerSnapshotReceipt, Utf8,
  max_output_bytes, max_request_id_bytes, max_command_bytes, receipt_fixed_bytes,
  receipt_length_prefix_bytes,
}
use sttork.DorkWorker.Snapshot.Prepare.{PreparedReceipt, boundary_from_marker, prepare_receipt}
use sttork.DorkWorker.Snapshot.Reader.{
  Reader, ◌>>=◌, ◌>>◌, pure, checked, remaining, bytes, u8, u16, u32, safe_u64, bounded_utf8,
}

-- The switch on the rejection marker.
unfoldable pub rejection_from_marker : ℕ → Outcome CodecError ExecuteStatus
rejection_from_marker marker =
    if marker == 1
    then ok (rejected stale_revision)
    else if marker == 2
    then ok (rejected duplicate)
    else if marker == 3
    then ok (rejected invalid_command)
    else if marker == 4
    then ok (rejected receipt_capacity)
    else err invalid_value

unfoldable pub decode_status : ℕ → ℕ → Outcome CodecError ExecuteStatus
unfolding rejection_from_marker
decode_status status_marker rejection_marker =
    if status_marker == 1
    then (if rejection_marker == 0 then ok committed else err noncanonical)
    else if status_marker == 2
    then rejection_from_marker rejection_marker
    else err invalid_value

-- The lengths that a receipt's record declares.
pub record ReceiptLengths : Type 0 where
  pub request_id : ℕ
  pub command : ℕ
  pub result_request_id : ℕ
  pub result_command : ℕ
  pub result_output : ℕ

unfoldable pub receipt_lengths : Reader ReceiptLengths
unfolding ◌>>=◌ u16 u32 pure
receipt_lengths = do
  request_id_length ← u16
  command_length ← u16
  result_request_id_length ← u16
  result_command_length ← u16
  result_output_length ← u32
  pure (record {
    request_id = request_id_length;
    command = command_length;
    result_request_id = result_request_id_length;
    result_command = result_command_length;
    result_output = result_output_length;
  })

-- The fixed fields that follow the lengths.
pub record ReceiptFacts : Type 0 where
  pub expected_revision : ℕ
  pub previous_revision : ℕ
  pub revision : ℕ
  pub boundary : Boundary
  pub status : ExecuteStatus

unfoldable pub receipt_facts : Reader ReceiptFacts
unfolding ◌>>=◌ safe_u64 u8 checked boundary_from_marker decode_status pure
receipt_facts = do
  expected_revision ← safe_u64
  previous_revision ← safe_u64
  revision ← safe_u64
  turn_complete ← u8
  checked (throw_if (not (turn_complete == 1)) invalid_value)
  boundary_marker ← u8
  boundary ← checked (boundary_from_marker boundary_marker)
  status_marker ← u8
  rejection_marker ← u8
  status ← checked (decode_status status_marker rejection_marker)
  pure (record {
    expected_revision = expected_revision;
    previous_revision = previous_revision;
    revision = revision;
    boundary = boundary;
    status = status;
  })

module _ (utf8 : Utf8) where
  -- The texts of a receipt, with its fixed fields.
  unfoldable pub receipt_texts : ReceiptLengths → ReceiptFacts → Reader WorkerSnapshotReceipt
  unfolding ◌>>=◌ bounded_utf8 pure
  receipt_texts lengths facts = do
    request_id ← bounded_utf8 utf8 lengths.request_id max_request_id_bytes false
    command ← bounded_utf8 utf8 lengths.command max_command_bytes false
    result_request_id ← bounded_utf8 utf8 lengths.result_request_id max_request_id_bytes false
    result_command ← bounded_utf8 utf8 lengths.result_command max_command_bytes false
    result_output ← bounded_utf8 utf8 lengths.result_output max_output_bytes true
    pure (record {
      request_id = request_id;
      expected_revision = facts.expected_revision;
      command = command;
      result = record {
        request_id = result_request_id;
        previous_revision = facts.previous_revision;
        revision = facts.revision;
        command = result_command;
        output = result_output;
        turn_complete = true;
        boundary = facts.boundary;
        status = facts.status;
      };
    })

  unfoldable pub decode_receipt : Reader PreparedReceipt
  unfolding ◌>>=◌ receipt_lengths receipt_facts receipt_texts checked prepare_receipt
  decode_receipt = do
    lengths ← receipt_lengths
    facts ← receipt_facts
    receipt ← receipt_texts lengths facts
    checked (prepare_receipt utf8 receipt)

  -- One record of the journal: `record` is a reader of its own, which must be used up.
  unfoldable pub decode_record : ℕ → List ℕ → Outcome CodecError PreparedReceipt
  unfolding decode_receipt ◌>>=◌ remaining checked
  decode_record record_length bs =
      elim ((do
        receipt ← decode_receipt
        left ← remaining
        checked (throw_if (not (left == 0)) trailing_bytes)
        checked (
            require (receipt.encoded_bytes == receipt_length_prefix_bytes + record_length)
              noncanonical)
        pure receipt)
        bs) [ ok (receipt, rest) ↦ ok receipt | err e ↦ err e ]

  -- The loop over the journal's records.
  unfoldable pub decode_receipts : ℕ → Reader (List PreparedReceipt)
  unfolding ◌>>=◌ u32 checked bytes decode_record pure
  decode_receipts zero = pure []
  decode_receipts (suc count) = do
    record_length ← u32
    checked (throw_if (ltb record_length receipt_fixed_bytes) truncated)
    bs ← bytes record_length
    receipt ← checked (decode_record record_length bs)
    receipts ← decode_receipts count
    pure (receipt ∷ receipts)

  -- The journal, a reader of its own, which must be used up.
  unfoldable pub decode_journal : ℕ → List ℕ → Outcome CodecError (List PreparedReceipt)
  unfolding ◌>>=◌ decode_receipts remaining checked pure
  decode_journal count bs =
      elim ((do
        receipts ← decode_receipts count
        left ← remaining
        checked (throw_if (not (left == 0)) trailing_bytes)
        pure receipts)
        bs) [ ok (receipts, rest) ↦ ok receipts | err e ↦ err e ]
