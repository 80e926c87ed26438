-- ===== src/DorkWorker/Snapshot/RoundTrip/Journal.antt =====
-- The journal is read back from its writes.
use sttork.Base.{
  ℕ, suc, ◌+◌, ◌≤◌, ◌≡◌, ap, ◌∙◌, subst, List, [], ◌∷◌, ◌++◌, length, length-append, arith, inl,
  inr,
}
use sttork.Base.Outcome.{ok, Outcome-cases}
use sttork.DorkWorker.Snapshot.Format.{
  Utf8, IsUtf8, WorkerSnapshotReceipt, max_receipt_journal_bytes,
}
use sttork.DorkWorker.Snapshot.Prepare.{PreparedReceipt, prepare_receipt, add_size}
use sttork.DorkWorker.Snapshot.Envelope.{values, prepare_receipts, journal_size}
use sttork.DorkWorker.Snapshot.Writer.{u32_bytes, field_bytes}
use sttork.DorkWorker.Snapshot.Encode.{record_fields, journal_fields}
use sttork.DorkWorker.Snapshot.Reader.{◌>>=◌, pure, checked, remaining, bytes, u32}
use sttork.DorkWorker.Snapshot.Records.{
  decode_receipt, decode_record, decode_receipts, decode_journal,
}
use sttork.DorkWorker.Snapshot.RoundTrip.Writes.{put, put-append, put-rest}
use sttork.DorkWorker.Snapshot.RoundTrip.Reads.{read-u32, read-bytes}
use sttork.DorkWorker.Snapshot.RoundTrip.Prepared.{
  IsPreparedReceipt, prepare_receipt-IsPreparedReceipt,
}
use sttork.DorkWorker.Snapshot.RoundTrip.Receipts.{read-record}

-- The bytes of one record.
abbrev record_bytes : PreparedReceipt → List ℕ
record_bytes p = put (record_fields p) []

journal_size-cons :
    (total n : ℕ) (p : PreparedReceipt) (ps : List PreparedReceipt)
    → journal_size total (p ∷ ps) ≡ ok n
    → (journal_size (total + p.encoded_bytes) ps ≡ ok n)
      × (total + p.encoded_bytes ≤ max_receipt_journal_bytes)
unfolding journal_size add_size
journal_size-cons total n p ps h = ground arith

module _ (utf8 : Utf8) where
  length-record :
      (v : WorkerSnapshotReceipt) (p : PreparedReceipt)
      → IsPreparedReceipt utf8 v p
      → length (record_bytes p) ≡ p.payload_bytes
  unfolding field_bytes
  length-record v p h =
      let i = p.request_id_bytes in
      let c = p.command_bytes in
      let j = p.result.request_id_bytes in
      let d = p.result.command_bytes in
      let o = p.result.output_bytes in
      omega (
        arith,
        h.payload,
        length-append i (c ++ (j ++ (d ++ (o ++ [])))),
        length-append c (j ++ (d ++ (o ++ []))),
        length-append j (d ++ (o ++ [])),
        length-append d (o ++ []),
        length-append o [],
      )

  record-done :
      (n : ℕ) (bs : List ℕ) (p : PreparedReceipt)
      → decode_receipt utf8 bs ≡ ok (p, [])
      → p.encoded_bytes ≡ 4 + n
      → decode_record utf8 n bs ≡ ok p
  unfolding decode_record ◌>>=◌ checked remaining pure
  record-done n bs p e h = ground arith

  -- One round of the loop.
  receipts-step :
      (count n : ℕ) (start bs more rest left : List ℕ) (p : PreparedReceipt)
      (ps : List PreparedReceipt)
      → 40 ≤ n
      → u32 start ≡ ok (n, more)
      → bytes n more ≡ ok (bs, rest)
      → decode_record utf8 n bs ≡ ok p
      → decode_receipts utf8 count rest ≡ ok (ps, left)
      → decode_receipts utf8 (suc count) start ≡ ok (p ∷ ps, left)
  unfolding decode_receipts ◌>>=◌ checked pure
  receipts-step count n start bs more rest left p ps low e b d r = ground arith

  -- What preparing a list of receipts gives, by its head.
  prepare_receipts-cons :
      (v : WorkerSnapshotReceipt) (vs : List WorkerSnapshotReceipt) (qs : List PreparedReceipt)
      → prepare_receipts utf8 (v ∷ vs) ≡ ok qs
      → (p : PreparedReceipt) × (ps : List PreparedReceipt) × (qs ≡ p ∷ ps)
        × (prepare_receipt utf8 v ≡ ok p)
        × (prepare_receipts utf8 vs ≡ ok ps)
  unfolding prepare_receipts
  prepare_receipts-cons v vs qs h = elim (Outcome-cases (prepare_receipt utf8 v)) [
    | inl (p, e) ↦ elim (Outcome-cases (prepare_receipts utf8 vs)) [
      | inl (ps, d) ↦ (p, ps, ground arith, e, d)
      | inr (x, d) ↦ ground arith
    ]
    | inr (x, e) ↦ ground arith
  ]

  pub prepare_receipts-values :
      (vs : List WorkerSnapshotReceipt) (ps : List PreparedReceipt)
      → prepare_receipts utf8 vs ≡ ok ps
      → (values ps ≡ vs) × (length ps ≡ length vs)
  unfolding prepare_receipts
  prepare_receipts-values [] ps h = ground arith
  prepare_receipts-values (v ∷ vs) qs h =
      let (p, ps, same, e, d) = prepare_receipts-cons v vs qs h in
      ground (
        arith,
        prepare_receipts-values vs ps d,
        (prepare_receipt-IsPreparedReceipt utf8 v p e).value,
      )

  journal-cons :
      (p : PreparedReceipt) (ps : List PreparedReceipt)
      → put (journal_fields (p ∷ ps)) []
        ≡ u32_bytes p.payload_bytes ++ (record_bytes p ++ put (journal_fields ps) [])
  unfolding journal_fields field_bytes
  journal-cons p ps =
      ap (λ (t : List ℕ). u32_bytes p.payload_bytes ++ t)
        (put-append (record_fields p) (journal_fields ps) []
          ∙ put-rest (record_fields p) (put (journal_fields ps) []))

  module _ (laws : IsUtf8 utf8) where
    -- The head of the journal.
    journal-step :
        (v : WorkerSnapshotReceipt) (p : PreparedReceipt) (ps : List PreparedReceipt)
        → prepare_receipt utf8 v ≡ ok p
        → decode_receipts utf8 (length ps) (put (journal_fields ps) []) ≡ ok (ps, [])
        → decode_receipts utf8 (suc (length ps)) (put (journal_fields (p ∷ ps)) [])
          ≡ ok (p ∷ ps, [])
    journal-step v p ps e ih =
        let i = prepare_receipt-IsPreparedReceipt utf8 v p e in
        let rest = put (journal_fields ps) [] in
        let more = record_bytes p ++ rest in
        rw (journal-cons p ps) (
          receipts-step (length ps) p.payload_bytes (u32_bytes p.payload_bytes ++ more)
            (record_bytes p) more rest [] p ps (omega (arith, i.payload))
            (read-u32 p.payload_bytes more (omega (arith, i.encoded, i.bounded)))
            (subst (λ (n : ℕ). bytes n more ≡ ok (record_bytes p, rest)) (length-record v p i)
              (read-bytes (record_bytes p) rest))
            (record-done p.payload_bytes (record_bytes p) p (read-record utf8 laws v p [] e)
              i.encoded)
            ih)

    read-receipts :
        (vs : List WorkerSnapshotReceipt) (ps : List PreparedReceipt)
        → prepare_receipts utf8 vs ≡ ok ps
        → decode_receipts utf8 (length ps) (put (journal_fields ps) []) ≡ ok (ps, [])
    unfolding prepare_receipts journal_fields decode_receipts pure
    read-receipts [] ps h = ground arith
    read-receipts (v ∷ vs) qs h =
        let (p, ps, same, e, d) = prepare_receipts-cons v vs qs h in
        ground (arith, same, journal-step v p ps e (read-receipts vs ps d))

    pub read-journal :
        (vs : List WorkerSnapshotReceipt) (ps : List PreparedReceipt)
        → prepare_receipts utf8 vs ≡ ok ps
        → decode_journal utf8 (length ps) (put (journal_fields ps) []) ≡ ok ps
    unfolding decode_journal ◌>>=◌ checked remaining pure
    read-journal vs ps h = ground (arith, read-receipts vs ps h)

  length-journal_cons :
      (v : WorkerSnapshotReceipt) (p : PreparedReceipt) (ps : List PreparedReceipt)
      → prepare_receipt utf8 v ≡ ok p
      → length (put (journal_fields (p ∷ ps)) [])
        ≡ p.encoded_bytes + length (put (journal_fields ps) [])
  length-journal_cons v p ps e =
      let i = prepare_receipt-IsPreparedReceipt utf8 v p e in
      rw (journal-cons p ps) (
        omega (
          arith,
          i.encoded,
          length-record v p i,
          length-append (record_bytes p) (put (journal_fields ps) []),
        ))

  -- The sizes that were added up are the length of what is written.
  pub length-journal :
      (vs : List WorkerSnapshotReceipt) (ps : List PreparedReceipt) (total n : ℕ)
      → prepare_receipts utf8 vs ≡ ok ps
      → journal_size total ps ≡ ok n
      → total ≤ max_receipt_journal_bytes
      → (total + length (put (journal_fields ps) []) ≡ n) × (n ≤ max_receipt_journal_bytes)
  unfolding prepare_receipts journal_size journal_fields
  length-journal [] ps total n h e low = ground arith
  length-journal (v ∷ vs) qs total n h e low =
      let (p, ps, same, d, r) = prepare_receipts-cons v vs qs h in
      let (next, high) = journal_size-cons total n p ps (ground (arith, same)) in
      ground (
        arith,
        same,
        length-journal_cons v p ps d,
        length-journal vs ps (total + p.encoded_bytes) n r next high,
      )
