-- ===== src/DorkWorker/Snapshot/RoundTrip/Whole.antt =====
-- What an envelope passes when it is prepared, and that its encoding has the length that was
-- added up.
use sttork.Base.{ℕ, ◌+◌, ◌≤◌, ◌≡◌, ap, ◌∙◌, true, List, [], ◌++◌, length, length-append, arith}
use sttork.Base.Outcome.{ok}
use sttork.Contracts.Engine.{max_safe_integer}
use sttork.DorkWorker.Snapshot.Format.{
  Utf8, WorkerSnapshotEnvelope, max_output_bytes, max_inner_checkpoint_bytes, max_receipts,
  max_total_bytes,
}
use sttork.DorkWorker.Snapshot.Prepare.{
  boundary_marker, encode_bounded_utf8, require_safe_uint, add_size,
}
use sttork.DorkWorker.Snapshot.Relative.{validate_receipts_relative}
use sttork.DorkWorker.Snapshot.Envelope.{
  PreparedEnvelope, prepare_envelope, prepare_receipts, journal_size, total_size, values,
  public_state,
}
use sttork.DorkWorker.Snapshot.Writer.{field_bytes}
use sttork.DorkWorker.Snapshot.Encode.{envelope_fields, journal_fields, encode_envelope}
use sttork.DorkWorker.Snapshot.RoundTrip.Writes.{put, fields_bytes-put, finish-fields}
use sttork.DorkWorker.Snapshot.RoundTrip.Journal.{length-journal, prepare_receipts-values}

pub total_size-sum :
    (output checkpoint : List ℕ) (journal n : ℕ)
    → total_size output checkpoint journal ≡ ok n
    → (n ≡ 44 + length output + length checkpoint + journal) × (n ≤ max_total_bytes)
unfolding total_size add_size
total_size-sum output checkpoint journal n h = ground arith

module _ (utf8 : Utf8) where
  -- What an envelope passes, step by step.
  pub record IsPreparedEnvelope (e : WorkerSnapshotEnvelope) (p : PreparedEnvelope) : Type 0 where
    pub schema : e.schema_version ≡ 1
    pub revision : e.revision ≤ max_safe_integer
    pub boundary : boundary_marker e.boundary ≡ ok p.boundary_marker
    pub output :
        encode_bounded_utf8 utf8 e.last_output max_output_bytes true ≡ ok p.last_output_bytes
    pub checkpoint_low : 16 ≤ length e.inner_checkpoint
    pub checkpoint_high : length e.inner_checkpoint ≤ max_inner_checkpoint_bytes
    pub few : length e.receipts ≤ max_receipts
    pub receipts : prepare_receipts utf8 e.receipts ≡ ok p.receipts
    pub journal : journal_size 0 p.receipts ≡ ok p.journal_bytes
    pub relative : validate_receipts_relative (values p.receipts) (public_state e) ≡ ok tt
    pub total : total_size p.last_output_bytes e.inner_checkpoint p.journal_bytes ≡ ok p.total_bytes
    pub checkpoint : p.inner_checkpoint ≡ e.inner_checkpoint
    pub value : p.value ≡ record e { schema_version = 1; receipts = values p.receipts }

  pub prepare_envelope-IsPreparedEnvelope :
      (e : WorkerSnapshotEnvelope) (p : PreparedEnvelope)
      → prepare_envelope utf8 e ≡ ok p
      → IsPreparedEnvelope e p
  unfolding prepare_envelope require_safe_uint
  prepare_envelope-IsPreparedEnvelope e p h = ground arith

  -- The prepared envelope's value is the envelope.
  pub prepared_value :
      (e : WorkerSnapshotEnvelope) (p : PreparedEnvelope)
      → IsPreparedEnvelope e p
      → (values p.receipts ≡ e.receipts) × (length p.receipts ≡ length e.receipts) × (p.value ≡ e)
  prepared_value e p h =
      let (same, size) = prepare_receipts-values utf8 e.receipts p.receipts h.receipts in
      (same, size, ground (arith, h.value, h.schema, same))

  pub length-envelope :
      (e : WorkerSnapshotEnvelope) (p : PreparedEnvelope)
      → IsPreparedEnvelope e p
      → length (put (envelope_fields p) []) ≡ p.total_bytes
  unfolding field_bytes
  length-envelope e p h =
      let journal = put (journal_fields p.receipts) [] in
      omega (
        arith,
        total_size-sum p.last_output_bytes e.inner_checkpoint p.journal_bytes p.total_bytes h.total,
        length-journal utf8 e.receipts p.receipts 0 p.journal_bytes h.receipts h.journal,
        ap (λ (t : List ℕ). length t) h.checkpoint,
        length-append p.last_output_bytes (p.inner_checkpoint ++ journal),
        length-append p.inner_checkpoint journal,
      )

  -- What is prepared is encoded: no write passes the buffer's end, and the buffer is filled.
  pub encode-prepared :
      (e : WorkerSnapshotEnvelope) (p : PreparedEnvelope)
      → prepare_envelope utf8 e ≡ ok p
      → encode_envelope utf8 e ≡ ok (put (envelope_fields p) [])
  unfolding encode_envelope
  encode-prepared e p h =
      let i = prepare_envelope-IsPreparedEnvelope e p h in
      let same = fields_bytes-put (envelope_fields p) in
      rw h (
        finish-fields (envelope_fields p) p.total_bytes
          (ap (λ (t : List ℕ). length t) same ∙ length-envelope e p i)
        ∙ ap ok same)
