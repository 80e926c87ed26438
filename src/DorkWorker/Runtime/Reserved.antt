-- ===== src/DorkWorker/Runtime/Reserved.antt =====
-- The room that is reserved before a command runs is enough for its receipt.
use sttork.Base.{ℕ, zero, suc, ◌+◌, ◌≤◌, ◌≡◌, refl, ap, true, List, length, arith, some, inl, inr}
use sttork.Base.Text.{Text}
use sttork.Base.Outcome.{ok, Outcome-cases}
use sttork.Contracts.Engine.{ExecuteRequest, ExecuteResult, input_requested}
use sttork.DorkWorker.Snapshot.Format.{Utf8, IsUtf8, WorkerSnapshotReceipt, max_output_bytes}
use sttork.DorkWorker.Snapshot.Prepare.{PreparedReceipt, prepare_receipt, measure_receipt_bytes}
use sttork.DorkWorker.Snapshot.RoundTrip.Prepared.{prepare_receipt-IsPreparedReceipt}
use sttork.DorkWorker.Runtime.State.{DorkWorkerRuntime}
use sttork.DorkWorker.Runtime.Receipts.{
  find, set, measured, can_record_receipt, can_record_worst_case, record_receipt, receipt_of,
  committed_result, repeat_x,
}
use sttork.DorkWorker.Runtime.Recorded.{record_receipt-find}

pub length-repeat_x : (n : ℕ) → length (repeat_x n) ≡ n
unfolding repeat_x
length-repeat_x zero = refl
length-repeat_x (suc n) = ap suc (length-repeat_x n)

module _ (utf8 : Utf8) where
  -- What a receipt measures, by the encodings of its texts.
  abbrev others_size : WorkerSnapshotReceipt → ℕ
  others_size v =
      44
      + length (utf8.encode (v.request_id))
      + length (utf8.encode (v.command))
      + length (utf8.encode (v.result.request_id))
      + length (utf8.encode (v.result.command))

  prepared_size :
      (v : WorkerSnapshotReceipt) (p : PreparedReceipt)
      → prepare_receipt utf8 v ≡ ok p
      → (p.encoded_bytes ≡ others_size v + length (utf8.encode v.result.output))
        × (length (utf8.encode v.result.output) ≤ max_output_bytes)
  prepared_size v p h =
      let i = prepare_receipt-IsPreparedReceipt utf8 v p h in
      let size = λ (bs : List ℕ). length bs in
      let a = ap size i.request_id.encoded in
      let b = ap size i.command.encoded in
      let c = ap size i.result.request_id.encoded in
      let d = ap size i.result.command.encoded in
      let o = ap size i.result.output.encoded in
      (
        omega (arith, i.payload, i.encoded, a, b, c, d, o),
        omega (arith, i.result.output.bounded, o),
      )

  measured_size :
      (v : WorkerSnapshotReceipt) (n : ℕ)
      → measured utf8 v ≡ ok n
      → (n ≡ others_size v + length (utf8.encode v.result.output))
        × (length (utf8.encode v.result.output) ≤ max_output_bytes)
  unfolding measured measure_receipt_bytes
  measured_size v n h = elim (Outcome-cases (prepare_receipt utf8 v)) [
    | inl (p, e) ↦ ground (arith, h, e, prepared_size v p e)
    | inr (x, e) ↦ ground (arith, h, e)
  ]

  room :
      (s : DorkWorkerRuntime) (v : WorkerSnapshotReceipt)
      → can_record_receipt utf8 s v ≡ ok true
      → (n : ℕ) × (measured utf8 v ≡ ok n)
        × (length s.receipts + 1 ≤ s.max_receipts)
        × (s.receipt_journal_bytes + n ≤ s.max_receipt_journal_bytes)
  unfolding can_record_receipt
  room s v h = elim (Outcome-cases (measured utf8 v)) [
    | inl (n, e) ↦ (n, e, ground (arith, h, e), ground (arith, h, e))
    | inr (x, e) ↦ ground (arith, h, e)
  ]

  recorded :
      (s : DorkWorkerRuntime) (v : WorkerSnapshotReceipt) (n : ℕ)
      → measured utf8 v ≡ ok n
      → length s.receipts + 1 ≤ s.max_receipts
      → s.receipt_journal_bytes + n ≤ s.max_receipt_journal_bytes
      → record_receipt utf8 v s
        ≡ ok (record s {
          receipts = set v (s.receipts);
          receipt_journal_bytes = s.receipt_journal_bytes + n;
        })
  unfolding record_receipt can_record_receipt
  recorded s v n e few small = ground (arith, e, few, small)

-- Where the room for the largest receipt of a request was tested and found before its command ran,
-- a receipt for any result of that request and command that can be encoded at all is recorded: the
-- recording does not throw, and the receipt is found under the request's identity. The platform's
-- UTF-8 encoding is never shorter than the text.
pub record_receipt-reserved :
    (utf8 : Utf8) (laws : IsUtf8 utf8) (s : DorkWorkerRuntime) (input : ExecuteRequest)
    (revision n : ℕ) (result : ExecuteResult)
    → can_record_worst_case utf8 s input revision ≡ ok true
    → result.request_id ≡ input.request_id
    → result.command ≡ input.command
    → measured utf8 (receipt_of input result) ≡ ok n
    → (next : DorkWorkerRuntime) × (record_receipt utf8 (receipt_of input result) s ≡ ok next)
      × (find input.request_id next.receipts ≡ some (receipt_of input result))
unfolding can_record_worst_case
record_receipt-reserved utf8 laws s input revision n result reserved same_id same_command sized =
    let worst = receipt_of input (
      committed_result input.request_id revision (suc revision) input.command
        (repeat_x max_output_bytes) input_requested) in
    let (m, e, few, small) = room utf8 s worst reserved in
    let large = measured_size utf8 worst m e in
    let actual = measured_size utf8 (receipt_of input result) n sized in
    let long = laws.never_shorter (repeat_x max_output_bytes) in
    let size = λ (t : Text). length (utf8.encode t) in
    let done = recorded utf8 s (receipt_of input result) n sized few (
      omega (
        arith,
        large,
        actual,
        long,
        length-repeat_x max_output_bytes,
        small,
        ap size same_id,
        ap size same_command,
      )) in
    (_, done, record_receipt-find utf8 (receipt_of input result) s _ done)
