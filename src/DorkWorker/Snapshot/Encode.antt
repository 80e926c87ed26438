-- ===== src/DorkWorker/Snapshot/Encode.antt =====
-- spikes/dork-worker/worker-snapshot-envelope.ts: encodeWorkerSnapshotEnvelope.
use sttork.Base.{ℕ, List, [], ◌∷◌, ◌++◌, length}
use sttork.Base.Outcome.{Outcome, ◌>>=◌}
use sttork.DorkWorker.Snapshot.Format.{
  CodecError, magic_bytes, worker_snapshot_schema_version, WorkerSnapshotEnvelope, Utf8,
}
use sttork.DorkWorker.Snapshot.Prepare.{PreparedReceipt}
use sttork.DorkWorker.Snapshot.Envelope.{PreparedEnvelope, prepare_envelope}
use sttork.DorkWorker.Snapshot.Writer.{create, Field, raw, u8, u16, u32, u64, write_all, finish}

-- The writes for one receipt, after its length.
abbrev pub record_fields : PreparedReceipt → List Field
record_fields receipt =
    u16 (length receipt.request_id_bytes)
    ∷ u16 (length receipt.command_bytes)
    ∷ u16 (length receipt.result.request_id_bytes)
    ∷ u16 (length receipt.result.command_bytes)
    ∷ u32 (length receipt.result.output_bytes)
    ∷ u64 receipt.value.expected_revision
    ∷ u64 receipt.value.result.previous_revision
    ∷ u64 receipt.value.result.revision
    ∷ u8 1
    ∷ u8 receipt.result.boundary_marker
    ∷ u8 receipt.result.status_marker
    ∷ u8 receipt.result.rejection_marker
    ∷ raw receipt.request_id_bytes
    ∷ raw receipt.command_bytes
    ∷ raw receipt.result.request_id_bytes
    ∷ raw receipt.result.command_bytes
    ∷ raw receipt.result.output_bytes
    ∷ []

unfoldable pub journal_fields : List PreparedReceipt → List Field
journal_fields [] = []
journal_fields (receipt ∷ receipts) =
    u32 receipt.payload_bytes ∷ (record_fields receipt ++ journal_fields receipts)

-- The writes for the header and the fixed part of the body.
abbrev pub header_fields : PreparedEnvelope → List Field
header_fields prepared =
    raw magic_bytes
    ∷ u16 worker_snapshot_schema_version
    ∷ u16 0
    ∷ u32 prepared.total_bytes
    ∷ u64 prepared.value.revision
    ∷ u8 prepared.boundary_marker
    ∷ u8 0
    ∷ u16 0
    ∷ u32 (length prepared.last_output_bytes)
    ∷ u32 (length prepared.inner_checkpoint)
    ∷ u16 (length prepared.receipts)
    ∷ u16 0
    ∷ u32 prepared.journal_bytes
    ∷ []

abbrev pub envelope_fields : PreparedEnvelope → List Field
envelope_fields prepared =
    header_fields prepared
    ++ (raw prepared.last_output_bytes
        ∷ raw prepared.inner_checkpoint
        ∷ journal_fields prepared.receipts)

unfoldable pub encode_envelope : Utf8 → WorkerSnapshotEnvelope → Outcome CodecError (List ℕ)
unfolding prepare_envelope journal_fields create write_all finish
encode_envelope utf8 envelope = do
  prepared ← prepare_envelope utf8 envelope
  writer ← write_all (envelope_fields prepared) (create prepared.total_bytes)
  finish writer
