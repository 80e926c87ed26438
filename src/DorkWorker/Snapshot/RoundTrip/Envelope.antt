-- ===== src/DorkWorker/Snapshot/RoundTrip/Envelope.antt =====
-- The whole snapshot is read back from its encoding.
use sttork.Base.{
  ℕ, ◌≤◌, ◌≡◌, sym, subst, true, List, [], ◌∷◌, ◌++◌, length, arith, inl, inr, append-nil,
}
use sttork.Base.Outcome.{ok, Outcome-cases}
use sttork.DorkWorker.Snapshot.Format.{
  Utf8, IsUtf8, WorkerSnapshotEnvelope, max_output_bytes, magic_bytes,
}
use sttork.DorkWorker.Snapshot.Envelope.{PreparedEnvelope, prepare_envelope}
use sttork.DorkWorker.Snapshot.Writer.{field_bytes, raw, u8, u16, u32, u64}
use sttork.DorkWorker.Snapshot.Encode.{envelope_fields, journal_fields, encode_envelope}
use sttork.DorkWorker.Snapshot.Reader.{◌>>=◌, pure, checked, remaining, bytes}
use sttork.DorkWorker.Snapshot.Decode.{
  BodyFields, decode_header, body_fields, check_body, decode_content, decode_body, decode_envelope,
}
use sttork.DorkWorker.Snapshot.RoundTrip.Writes.{put}
use sttork.DorkWorker.Snapshot.RoundTrip.Reads.{read-bytes}
use sttork.DorkWorker.Snapshot.RoundTrip.Prepared.{
  encode_bounded_utf8-IsEncoded, boundary_marker-read,
}
use sttork.DorkWorker.Snapshot.RoundTrip.Receipts.{read-text}
use sttork.DorkWorker.Snapshot.RoundTrip.Journal.{read-journal, length-journal}
use sttork.DorkWorker.Snapshot.RoundTrip.Header.{read-header, read-body}
use sttork.DorkWorker.Snapshot.RoundTrip.Whole.{
  IsPreparedEnvelope, prepare_envelope-IsPreparedEnvelope, prepared_value, encode-prepared,
  length-envelope, total_size-sum,
}

-- Reading all that there is.
read-all : (n : ℕ) (bs : List ℕ) → length bs ≡ n → bytes n bs ≡ ok (bs, [])
read-all n bs h =
    rw (sym h)
      (subst (λ (t : List ℕ). bytes (length bs) t ≡ ok (bs, [])) (append-nil bs) (read-bytes bs []))

body-steps :
    (utf8 : Utf8) (total : ℕ) (start next rest : List ℕ) (fields : BodyFields)
    (e : WorkerSnapshotEnvelope)
    → decode_header total start ≡ ok (tt, next)
    → body_fields next ≡ ok (fields, rest)
    → check_body fields rest ≡ ok (tt, rest)
    → decode_content utf8 fields rest ≡ ok (e, [])
    → decode_body utf8 total start ≡ ok (e, [])
unfolding decode_body ◌>>=◌
body-steps utf8 total start next rest fields e h b c d = ground (arith, h, b, c, d)

decode-of_body :
    (utf8 : Utf8) (bs : List ℕ) (total : ℕ) (e : WorkerSnapshotEnvelope)
    → length bs ≡ total
    → 16 ≤ total
    → total ≤ 4194304
    → decode_body utf8 total bs ≡ ok (e, [])
    → decode_envelope utf8 bs ≡ ok e
unfolding decode_envelope
decode-of_body utf8 bs total e same low high h = ground arith

module _ (utf8 : Utf8) (laws : IsUtf8 utf8) (e : WorkerSnapshotEnvelope)
    (p : PreparedEnvelope) where
  abbrev fields_of : BodyFields
  fields_of = record {
    revision = e.revision;
    boundary = e.boundary;
    last_output = length p.last_output_bytes;
    inner_checkpoint = length e.inner_checkpoint;
    receipt_count = length p.receipts;
    journal = p.journal_bytes;
  }

  -- The bytes that follow the fixed fields.
  abbrev content_bytes : List ℕ
  content_bytes = p.last_output_bytes ++ (e.inner_checkpoint ++ put (journal_fields p.receipts) [])

  journal_length :
      IsPreparedEnvelope utf8 e p
      → (length (put (journal_fields p.receipts) []) ≡ p.journal_bytes)
        × (p.journal_bytes ≤ 1048576)
  journal_length h =
      let (same, high) =
        length-journal utf8 e.receipts p.receipts 0 p.journal_bytes h.receipts h.journal
          (omega arith) in
      (omega (arith, same), high)

  content_read :
      IsPreparedEnvelope utf8 e p → decode_content utf8 fields_of content_bytes ≡ ok (e, [])
  unfolding decode_content ◌>>=◌ checked remaining pure
  content_read h =
      let journal = put (journal_fields p.receipts) [] in
      let i =
        encode_bounded_utf8-IsEncoded utf8 e.last_output max_output_bytes true p.last_output_bytes
          h.output in
      ground (
        arith,
        h.schema,
        h.relative,
        prepared_value utf8 e p h,
        read-text utf8 laws e.last_output max_output_bytes true p.last_output_bytes
            (e.inner_checkpoint ++ journal) i,
        read-bytes e.inner_checkpoint journal,
        read-all p.journal_bytes journal (journal_length h).0,
        read-journal utf8 laws e.receipts p.receipts h.receipts,
      )

  checks_pass :
      IsPreparedEnvelope utf8 e p → (rest : List ℕ) → check_body fields_of rest ≡ ok (tt, rest)
  unfolding check_body ◌>>=◌ checked
  checks_pass h rest =
      let i =
        encode_bounded_utf8-IsEncoded utf8 e.last_output max_output_bytes true p.last_output_bytes
          h.output in
      ground (
        arith,
        i.bounded,
        h.checkpoint_low,
        h.checkpoint_high,
        h.few,
        (prepared_value utf8 e p h).1,
        (journal_length h).1,
      )

  body_read :
      IsPreparedEnvelope utf8 e p
      → decode_body utf8 p.total_bytes (put (envelope_fields p) []) ≡ ok (e, [])
  unfolding field_bytes
  body_read h =
      let t =
        total_size-sum p.last_output_bytes e.inner_checkpoint p.journal_bytes p.total_bytes
          h.total in
      let i =
        encode_bounded_utf8-IsEncoded utf8 e.last_output max_output_bytes true p.last_output_bytes
          h.output in
      let j = journal_length h in
      let v = prepared_value utf8 e p h in
      let m = boundary_marker-read e.boundary p.boundary_marker h.boundary in
      let fixed =
        u64 e.revision
        ∷ u8 p.boundary_marker
        ∷ u8 0
        ∷ u16 0
        ∷ u32 (length p.last_output_bytes)
        ∷ u32 (length e.inner_checkpoint)
        ∷ u16 (length p.receipts)
        ∷ u16 0
        ∷ u32 p.journal_bytes
        ∷ [] in
      let fields =
        read-body e.revision p.boundary_marker (length p.last_output_bytes)
          (length e.inner_checkpoint) (length p.receipts) p.journal_bytes e.boundary content_bytes
          h.revision m.1 m.0 (omega (arith, i.bounded)) (omega (arith, h.checkpoint_high))
          (omega (arith, h.few, v.1)) (omega (arith, j.1)) in
      rw (v.2, h.checkpoint)
        (body-steps utf8 p.total_bytes
          (put (raw magic_bytes ∷ u16 1 ∷ u16 0 ∷ u32 p.total_bytes ∷ []) (put fixed content_bytes))
          (put fixed content_bytes) content_bytes fields_of e
          (read-header p.total_bytes (put fixed content_bytes) (omega (arith, t.1))) fields
          (checks_pass h content_bytes) (content_read h))

  decode-prepared :
      IsPreparedEnvelope utf8 e p → decode_envelope utf8 (put (envelope_fields p) []) ≡ ok e
  decode-prepared h =
      let t =
        total_size-sum p.last_output_bytes e.inner_checkpoint p.journal_bytes p.total_bytes
          h.total in
      decode-of_body utf8 (put (envelope_fields p) []) p.total_bytes e (length-envelope utf8 e p h)
        (omega (arith, t.0)) (omega (arith, t.1)) (body_read h)

-- A snapshot that is encoded is decoded to the very same envelope, for every platform whose UTF-8
-- encoding is never shorter than the text.
pub decode-encode :
    (utf8 : Utf8) (e : WorkerSnapshotEnvelope) (bs : List ℕ)
    → IsUtf8 utf8
    → encode_envelope utf8 e ≡ ok bs
    → decode_envelope utf8 bs ≡ ok e
unfolding encode_envelope
decode-encode utf8 e bs laws h = elim (Outcome-cases (prepare_envelope utf8 e)) [
  | inl (p, d) ↦
      let i = prepare_envelope-IsPreparedEnvelope utf8 e p d in
      let same : put (envelope_fields p) [] ≡ bs = ground (arith, encode-prepared utf8 e p d) in
      subst (λ (t : List ℕ). decode_envelope utf8 t ≡ ok e) (same) (decode-prepared utf8 laws e p i)
  | inr (x, d) ↦ ground arith
]
