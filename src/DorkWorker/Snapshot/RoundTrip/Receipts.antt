-- ===== src/DorkWorker/Snapshot/RoundTrip/Receipts.antt =====
-- A receipt's record is read back from its writes, whatever follows.
use sttork.Base.{ℕ, ◌≤◌, ◌<◌, ◌≡◌, Bool, true, false, List, [], ◌∷◌, ◌++◌, length, arith}
use sttork.Base.Text.{Text}
use sttork.Base.Outcome.{ok}
use sttork.Contracts.Engine.{Boundary, ExecuteStatus, max_safe_integer}
use sttork.DorkWorker.Snapshot.Format.{
  Utf8, IsUtf8, WorkerSnapshotReceipt, max_request_id_bytes, max_command_bytes, max_output_bytes,
}
use sttork.DorkWorker.Snapshot.Prepare.{
  PreparedReceipt, prepare_receipt, boundary_from_marker, decode_fatal_utf8,
}
use sttork.DorkWorker.Snapshot.Writer.{Field, raw, u8, u16, u32, u64, field_bytes}
use sttork.DorkWorker.Snapshot.Encode.{record_fields}
use sttork.DorkWorker.Snapshot.Reader.{◌>>=◌, pure, checked, bounded_utf8}
use sttork.DorkWorker.Snapshot.Records.{
  ReceiptLengths, receipt_lengths, ReceiptFacts, receipt_facts, receipt_texts, decode_receipt,
  decode_status,
}
use sttork.DorkWorker.Snapshot.RoundTrip.Writes.{put}
use sttork.DorkWorker.Snapshot.RoundTrip.Reads.{read-u8, read-u16, read-u32, read-u64, read-bytes}
use sttork.DorkWorker.Snapshot.RoundTrip.Prepared.{
  IsEncoded, IsPreparedReceipt, prepare_receipt-IsPreparedReceipt, boundary_marker-read,
  status_markers-read,
}

pub read-text :
    (utf8 : Utf8) (laws : IsUtf8 utf8) (t : Text) (maximum : ℕ) (allow_empty : Bool)
    (bs rest : List ℕ)
    → IsEncoded utf8 t maximum allow_empty bs
    → bounded_utf8 utf8 (length bs) maximum allow_empty (bs ++ rest) ≡ ok (t, rest)
unfolding bounded_utf8 ◌>>=◌ checked decode_fatal_utf8
read-text utf8 laws t maximum allow_empty bs rest h =
    ground
      (arith, read-bytes bs rest, laws.never_shorter t, h.encoded, h.bounded, h.decoded, h.nonempty)

read-lengths :
    (a b c d e : ℕ) (rest : List ℕ)
    → a < 65536
    → b < 65536
    → c < 65536
    → d < 65536
    → e < 4294967296
    → receipt_lengths (put (u16 a ∷ u16 b ∷ u16 c ∷ u16 d ∷ u32 e ∷ []) rest)
      ≡ ok (
        record {
          request_id = a;
          command = b;
          result_request_id = c;
          result_command = d;
          result_output = e;
        },
        rest,
      )
unfolding receipt_lengths ◌>>=◌ pure field_bytes
read-lengths a b c d e rest ha hb hc hd he = ground (
  arith,
  read-u16 a (put (u16 b ∷ u16 c ∷ u16 d ∷ u32 e ∷ []) rest),
  read-u16 b (put (u16 c ∷ u16 d ∷ u32 e ∷ []) rest),
  read-u16 c (put (u16 d ∷ u32 e ∷ []) rest),
  read-u16 d (put (u32 e ∷ []) rest),
  read-u32 e rest,
)

read-facts :
    (expected previous revision boundary_mark status_mark rejection_mark : ℕ) (b : Boundary)
    (s : ExecuteStatus) (rest : List ℕ)
    → expected ≤ max_safe_integer
    → previous ≤ max_safe_integer
    → revision ≤ max_safe_integer
    → boundary_mark < 256
    → status_mark < 256
    → rejection_mark < 256
    → boundary_from_marker boundary_mark ≡ ok b
    → decode_status status_mark rejection_mark ≡ ok s
    → receipt_facts (
        put
          (u64 expected
            ∷ u64 previous
            ∷ u64 revision
            ∷ u8 1
            ∷ u8 boundary_mark
            ∷ u8 status_mark
            ∷ u8 rejection_mark
            ∷ [])
          rest)
      ≡ ok (
        record {
          expected_revision = expected;
          previous_revision = previous;
          revision = revision;
          boundary = b;
          status = s;
        },
        rest,
      )
unfolding receipt_facts ◌>>=◌ pure checked field_bytes
read-facts e p r bm sm rm b s rest he hp hr hbm hsm hrm hb hs = ground (
  arith,
  read-u64 e (put (u64 p ∷ u64 r ∷ u8 1 ∷ u8 bm ∷ u8 sm ∷ u8 rm ∷ []) rest),
  read-u64 p (put (u64 r ∷ u8 1 ∷ u8 bm ∷ u8 sm ∷ u8 rm ∷ []) rest),
  read-u64 r (put (u8 1 ∷ u8 bm ∷ u8 sm ∷ u8 rm ∷ []) rest),
  read-u8 1 (put (u8 bm ∷ u8 sm ∷ u8 rm ∷ []) rest),
  read-u8 bm (put (u8 sm ∷ u8 rm ∷ []) rest),
  read-u8 sm (put (u8 rm ∷ []) rest),
  read-u8 rm rest,
)

module _ (utf8 : Utf8) (laws : IsUtf8 utf8) (v : WorkerSnapshotReceipt) (p : PreparedReceipt) where
  -- What a receipt's fixed fields hold.
  abbrev lengths_of : ReceiptLengths
  lengths_of = record {
    request_id = length p.request_id_bytes;
    command = length p.command_bytes;
    result_request_id = length p.result.request_id_bytes;
    result_command = length p.result.command_bytes;
    result_output = length p.result.output_bytes;
  }

  abbrev facts_of : ReceiptFacts
  facts_of = record {
    expected_revision = v.expected_revision;
    previous_revision = v.result.previous_revision;
    revision = v.result.revision;
    boundary = v.result.boundary;
    status = v.result.status;
  }

  abbrev text_fields : List Field
  text_fields =
      raw p.request_id_bytes
      ∷ raw p.command_bytes
      ∷ raw p.result.request_id_bytes
      ∷ raw p.result.command_bytes
      ∷ raw p.result.output_bytes
      ∷ []

  read-texts :
      (rest : List ℕ)
      → IsPreparedReceipt utf8 v p
      → receipt_texts utf8 lengths_of facts_of (put text_fields rest) ≡ ok (v, rest)
  unfolding receipt_texts ◌>>=◌ pure field_bytes
  read-texts rest h =
      let i = p.request_id_bytes in
      let c = p.command_bytes in
      let j = p.result.request_id_bytes in
      let d = p.result.command_bytes in
      let o = p.result.output_bytes in
      ground (
        arith,
        read-text utf8 laws v.request_id max_request_id_bytes false i
            (put (raw c ∷ raw j ∷ raw d ∷ raw o ∷ []) rest) h.request_id,
        read-text utf8 laws v.command max_command_bytes false c
            (put (raw j ∷ raw d ∷ raw o ∷ []) rest) h.command,
        read-text utf8 laws v.result.request_id max_request_id_bytes false j
            (put (raw d ∷ raw o ∷ []) rest) h.result.request_id,
        read-text utf8 laws v.result.command max_command_bytes false d (put (raw o ∷ []) rest)
            h.result.command,
        read-text utf8 laws v.result.output max_output_bytes true o rest h.result.output,
        h.result.complete,
      )

  abbrev fact_fields : List Field
  fact_fields =
      u64 v.expected_revision
      ∷ u64 v.result.previous_revision
      ∷ u64 v.result.revision
      ∷ u8 1
      ∷ u8 p.result.boundary_marker
      ∷ u8 p.result.status_marker
      ∷ u8 p.result.rejection_marker
      ∷ []

  facts_read :
      (rest : List ℕ)
      → IsPreparedReceipt utf8 v p
      → receipt_facts (put fact_fields rest) ≡ ok (facts_of, rest)
  facts_read rest h =
      let b = boundary_marker-read v.result.boundary p.result.boundary_marker h.result.boundary in
      let s =
        status_markers-read v.result.status v.result.previous_revision v.result.revision
          (p.result.status_marker, p.result.rejection_marker) h.result.status in
      read-facts v.expected_revision v.result.previous_revision v.result.revision
        p.result.boundary_marker p.result.status_marker p.result.rejection_marker v.result.boundary
        v.result.status rest h.expected h.result.previous h.result.next b.1 s.1 s.2 b.0 s.0

  lengths_read :
      (rest : List ℕ)
      → IsPreparedReceipt utf8 v p
      → receipt_lengths (
          put
            (u16 (length p.request_id_bytes)
              ∷ u16 (length p.command_bytes)
              ∷ u16 (length p.result.request_id_bytes)
              ∷ u16 (length p.result.command_bytes)
              ∷ u32 (length p.result.output_bytes)
              ∷ [])
            rest)
        ≡ ok (lengths_of, rest)
  lengths_read rest h =
      read-lengths (length p.request_id_bytes) (length p.command_bytes)
        (length p.result.request_id_bytes) (length p.result.command_bytes)
        (length p.result.output_bytes) rest (omega (arith, h.request_id.bounded))
        (omega (arith, h.command.bounded)) (omega (arith, h.result.request_id.bounded))
        (omega (arith, h.result.command.bounded)) (omega (arith, h.result.output.bounded))

  pub read-record :
      (rest : List ℕ)
      → prepare_receipt utf8 v ≡ ok p
      → decode_receipt utf8 (put (record_fields p) rest) ≡ ok (p, rest)
  unfolding decode_receipt ◌>>=◌ checked
  read-record rest e =
      let h = prepare_receipt-IsPreparedReceipt utf8 v p e in
      ground (
        arith,
        h.value,
        lengths_read (put fact_fields (put text_fields rest)) h,
        facts_read (put text_fields rest) h,
        read-texts rest h,
        e,
      )
