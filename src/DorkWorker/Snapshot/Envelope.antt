-- ===== src/DorkWorker/Snapshot/Envelope.antt =====
-- spikes/dork-worker/worker-snapshot-envelope.ts: the checks on a whole envelope.
use sttork.Base.{ℕ, true, not, List, [], ◌∷◌, ltb, ◌==◌, length, ◌+◌}
use sttork.Base.Outcome.{Outcome, ok, ◌>>=◌, ◌>>◌, throw_if}
use sttork.DorkWorker.Snapshot.Format.{
  CodecError, unsupported_version, invalid_value, limit_exceeded, WorkerSnapshotReceipt,
  WorkerSnapshotEnvelope, Utf8, worker_snapshot_schema_version, max_total_bytes, max_output_bytes,
  max_inner_checkpoint_bytes, checkpoint_header_bytes, max_receipts, max_receipt_journal_bytes,
  fixed_header_bytes, fixed_body_bytes,
}
use sttork.DorkWorker.Snapshot.Prepare.{
  PreparedReceipt, require_safe_uint, boundary_marker as marker_of_boundary, add_size,
  encode_bounded_utf8, prepare_receipt, measure_receipt_bytes,
}
use sttork.DorkWorker.Snapshot.Relative.{PublicState, validate_receipts_relative}

pub record PreparedEnvelope : Type 0 where
  pub value : WorkerSnapshotEnvelope
  pub last_output_bytes : List ℕ
  pub inner_checkpoint : List ℕ
  pub receipts : List PreparedReceipt
  pub journal_bytes : ℕ
  pub boundary_marker : ℕ
  pub total_bytes : ℕ

-- The public state that an envelope holds.
abbrev pub public_state : WorkerSnapshotEnvelope → PublicState
public_state e = record {
  revision = e.revision;
  last_output = e.last_output;
  boundary = e.boundary;
}

-- The loop that adds the receipts' sizes up, from `total` on.
unfoldable pub journal_size : ℕ → List PreparedReceipt → Outcome CodecError ℕ
unfolding add_size
journal_size total [] = ok total
journal_size total (receipt ∷ receipts) = do
  next ← add_size total receipt.encoded_bytes max_receipt_journal_bytes
  journal_size next receipts

-- The header, the body, the output, the checkpoint and the journal.
unfoldable pub total_size : List ℕ → List ℕ → ℕ → Outcome CodecError ℕ
unfolding add_size
total_size last_output_bytes inner_checkpoint journal_bytes = do
  with_output ←
      add_size (fixed_header_bytes + fixed_body_bytes) (length last_output_bytes) max_total_bytes
  with_checkpoint ← add_size with_output (length inner_checkpoint) max_total_bytes
  add_size with_checkpoint journal_bytes max_total_bytes

abbrev pub values : List PreparedReceipt → List WorkerSnapshotReceipt
values [] = []
values (receipt ∷ receipts) = receipt.value ∷ values receipts

module _ (utf8 : Utf8) where
  -- `value.receipts.map((receipt) => prepareReceipt(receipt))`
  unfoldable pub prepare_receipts :
      List WorkerSnapshotReceipt → Outcome CodecError (List PreparedReceipt)
  unfolding prepare_receipt
  prepare_receipts [] = ok []
  prepare_receipts (receipt ∷ receipts) = do
    prepared ← prepare_receipt utf8 receipt
    rest ← prepare_receipts receipts
    ok (prepared ∷ rest)

  unfoldable pub prepare_envelope : WorkerSnapshotEnvelope → Outcome CodecError PreparedEnvelope
  unfolding require_safe_uint marker_of_boundary encode_bounded_utf8 prepare_receipts journal_size
      validate_receipts_relative total_size
  prepare_envelope value = do
    throw_if (not (value.schema_version == worker_snapshot_schema_version)) unsupported_version
    require_safe_uint value.revision
    marker ← marker_of_boundary value.boundary
    last_output_bytes ← encode_bounded_utf8 utf8 value.last_output max_output_bytes true
    throw_if (ltb (length value.inner_checkpoint) checkpoint_header_bytes) invalid_value
    throw_if (ltb max_inner_checkpoint_bytes (length value.inner_checkpoint)) limit_exceeded
    throw_if (ltb max_receipts (length value.receipts)) limit_exceeded
    receipts ← prepare_receipts value.receipts
    journal_bytes ← journal_size 0 receipts
    validate_receipts_relative (values receipts) (public_state value)
    total_bytes ← total_size last_output_bytes value.inner_checkpoint journal_bytes
    ok (record {
      value = record {
        schema_version = worker_snapshot_schema_version;
        revision = value.revision;
        last_output = value.last_output;
        boundary = value.boundary;
        inner_checkpoint = value.inner_checkpoint;
        receipts = values receipts;
      };
      last_output_bytes = last_output_bytes;
      inner_checkpoint = value.inner_checkpoint;
      receipts = receipts;
      journal_bytes = journal_bytes;
      boundary_marker = marker;
      total_bytes = total_bytes;
    })

  -- The loop of `measureWorkerSnapshotReceiptJournalBytes`.
  unfoldable pub measured_size : ℕ → List WorkerSnapshotReceipt → Outcome CodecError ℕ
  unfolding measure_receipt_bytes add_size
  measured_size total [] = ok total
  measured_size total (receipt ∷ receipts) = do
    amount ← measure_receipt_bytes utf8 receipt
    next ← add_size total amount max_receipt_journal_bytes
    measured_size next receipts

  -- `measureWorkerSnapshotReceiptJournalBytes`
  unfoldable pub measure_journal_bytes : List WorkerSnapshotReceipt → Outcome CodecError ℕ
  unfolding measured_size
  measure_journal_bytes receipts = do
    throw_if (ltb max_receipts (length receipts)) limit_exceeded
    measured_size 0 receipts
