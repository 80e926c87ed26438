-- ===== src/DorkWorker/Snapshot/Decode.antt =====
-- spikes/dork-worker/worker-snapshot-envelope.ts: decodeWorkerSnapshotEnvelope.
use sttork.Base.{ℕ, true, not, List, ltb, ◌==◌, length, if◌then◌else◌}
use sttork.Base.Outcome.{Outcome, ok, err, throw_if}
use sttork.Contracts.Engine.{Boundary}
use sttork.DorkWorker.Snapshot.Format.{
  CodecError, invalid_value, limit_exceeded, truncated, trailing_bytes, unsupported_version,
  invalid_total_length, WorkerSnapshotEnvelope, Utf8, worker_snapshot_schema_version,
  max_total_bytes, max_output_bytes, max_inner_checkpoint_bytes, checkpoint_header_bytes,
  max_receipts, max_receipt_journal_bytes, fixed_header_bytes,
}
use sttork.DorkWorker.Snapshot.Prepare.{boundary_from_marker}
use sttork.DorkWorker.Snapshot.Relative.{validate_receipts_relative}
use sttork.DorkWorker.Snapshot.Envelope.{values}
use sttork.DorkWorker.Snapshot.Reader.{
  Reader, ◌>>=◌, ◌>>◌, pure, checked, remaining, bytes, u8, u16, u32, safe_u64, reserved_u8,
  reserved_u16, magic, bounded_utf8,
}
use sttork.DorkWorker.Snapshot.Records.{decode_journal}

-- What the body's fixed fields declare.
pub record BodyFields : Type 0 where
  pub revision : ℕ
  pub boundary : Boundary
  pub last_output : ℕ
  pub inner_checkpoint : ℕ
  pub receipt_count : ℕ
  pub journal : ℕ

-- The header: `total` is the length of the whole input.
unfoldable pub decode_header : ℕ → Reader (Unit {0})
unfolding ◌>>=◌ magic u16 checked reserved_u16 u32
decode_header total = do
  magic
  schema ← u16
  checked (throw_if (not (schema == worker_snapshot_schema_version)) unsupported_version)
  reserved_u16
  declared_total ← u32
  checked (throw_if (not (declared_total == total)) invalid_total_length)

unfoldable pub body_fields : Reader BodyFields
unfolding ◌>>=◌ safe_u64 u8 checked boundary_from_marker reserved_u8 reserved_u16 u32 u16 pure
body_fields = do
  revision ← safe_u64
  boundary_marker ← u8
  boundary ← checked (boundary_from_marker boundary_marker)
  reserved_u8
  reserved_u16
  last_output_length ← u32
  inner_checkpoint_length ← u32
  receipt_count ← u16
  reserved_u16
  journal_length ← u32
  pure (record {
    revision = revision;
    boundary = boundary;
    last_output = last_output_length;
    inner_checkpoint = inner_checkpoint_length;
    receipt_count = receipt_count;
    journal = journal_length;
  })

-- The checks on what the body declares.
unfoldable pub check_body : BodyFields → Reader (Unit {0})
unfolding ◌>>=◌ checked
check_body fields = do
  checked (throw_if (ltb max_output_bytes fields.last_output) limit_exceeded)
  checked (throw_if (ltb fields.inner_checkpoint checkpoint_header_bytes) invalid_value)
  checked (throw_if (ltb max_inner_checkpoint_bytes fields.inner_checkpoint) limit_exceeded)
  checked (throw_if (ltb max_receipts fields.receipt_count) limit_exceeded)
  checked (throw_if (ltb max_receipt_journal_bytes fields.journal) limit_exceeded)

module _ (utf8 : Utf8) where
  -- The rest of the body, and the checks on the whole.
  unfoldable pub decode_content : BodyFields → Reader WorkerSnapshotEnvelope
  unfolding ◌>>=◌ bounded_utf8 bytes checked decode_journal remaining validate_receipts_relative
      pure
  decode_content fields = do
    last_output ← bounded_utf8 utf8 fields.last_output max_output_bytes true
    inner_checkpoint ← bytes fields.inner_checkpoint
    journal ← bytes fields.journal
    receipts ← checked (decode_journal utf8 fields.receipt_count journal)
    left ← remaining
    checked (throw_if (not (left == 0)) trailing_bytes)
    checked (
        validate_receipts_relative (values receipts) (record {
          revision = fields.revision;
          last_output = last_output;
          boundary = fields.boundary;
        }))
    pure (record {
      schema_version = worker_snapshot_schema_version;
      revision = fields.revision;
      last_output = last_output;
      boundary = fields.boundary;
      inner_checkpoint = inner_checkpoint;
      receipts = values receipts;
    })

  unfoldable pub decode_body : ℕ → Reader WorkerSnapshotEnvelope
  unfolding ◌>>=◌ decode_header body_fields check_body decode_content
  decode_body total = do
    decode_header total
    fields ← body_fields
    check_body fields
    decode_content fields

  unfoldable pub decode_envelope : List ℕ → Outcome CodecError WorkerSnapshotEnvelope
  unfolding decode_body
  decode_envelope input =
      if ltb max_total_bytes (length input)
      then err limit_exceeded
      else if ltb (length input) fixed_header_bytes
      then err truncated
      else elim (decode_body (length input) input) [
        | ok (envelope, rest) ↦ ok envelope
        | err e ↦ err e
      ]
