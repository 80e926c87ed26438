-- ===== src/DorkWorker/Snapshot/RoundTrip/Prepared.antt =====
-- What a value passes when it is prepared.
use sttork.Base.{ℕ, ◌+◌, ◌≤◌, ◌<◌, ◌≡◌, ◌≢◌, Bool, true, false, List, length, arith, some}
use sttork.Base.Text.{Text, Text-discrete}
use sttork.Base.Outcome.{ok}
use sttork.Contracts.Engine.{ExecuteResult, ExecuteStatus, Boundary, max_safe_integer}
use sttork.DorkWorker.Snapshot.Format.{
  Utf8, WorkerSnapshotReceipt, max_request_id_bytes, max_command_bytes, max_output_bytes,
  max_receipt_journal_bytes,
}
use sttork.DorkWorker.Snapshot.Prepare.{
  encode_bounded_utf8, decode_fatal_utf8, prepare_request_id, prepare_command, PreparedCommand,
  PreparedExecuteResult, PreparedReceipt, prepare_execute_result, prepare_receipt, boundary_marker,
  boundary_from_marker, status_markers, rejection_marker_of, require_safe_uint, payload_size,
  add_size,
}
use sttork.DorkWorker.Snapshot.Records.{decode_status, rejection_from_marker}

pub boundary_marker-read :
    (b : Boundary) (m : ℕ) → boundary_marker b ≡ ok m → (boundary_from_marker m ≡ ok b) × (m < 256)
unfolding boundary_marker boundary_from_marker
boundary_marker-read b m h = ground arith

pub status_markers-read :
    (s : ExecuteStatus) (a b : ℕ) (m : ℕ × ℕ)
    → status_markers s a b ≡ ok m
    → (decode_status m.0 m.1 ≡ ok s) × (m.0 < 256) × (m.1 < 256)
unfolding status_markers rejection_marker_of decode_status rejection_from_marker
status_markers-read s a b m h = ground arith

pub add_size-sum :
    (total amount maximum n : ℕ)
    → add_size total amount maximum ≡ ok n
    → (n ≡ total + amount) × (n ≤ maximum)
unfolding add_size
add_size-sum total amount maximum n h = ground arith

payload_size-sum :
    (ids cs : List ℕ) (r : PreparedExecuteResult) (n : ℕ)
    → payload_size ids cs r ≡ ok n
    → n
      ≡ 40
        + length ids
        + length cs
        + length r.request_id_bytes
        + length r.command_bytes
        + length r.output_bytes
unfolding payload_size add_size
payload_size-sum ids cs r n h = ground arith

module _ (utf8 : Utf8) where
  -- `bs` is the encoding of `t`, in at most `maximum` bytes, from which it can be read back.
  pub record IsEncoded (t : Text) (maximum : ℕ) (allow_empty : Bool) (bs : List ℕ) : Type 0 where
    pub encoded : bs ≡ utf8.encode t
    pub bounded : length bs ≤ maximum
    pub decoded : utf8.decode bs ≡ some t
    pub nonempty : allow_empty ≡ false → length t ≢ 0

  pub encode_bounded_utf8-IsEncoded :
      (t : Text) (maximum : ℕ) (allow_empty : Bool) (bs : List ℕ)
      → encode_bounded_utf8 utf8 t maximum allow_empty ≡ ok bs
      → IsEncoded t maximum allow_empty bs
  unfolding encode_bounded_utf8 decode_fatal_utf8 Text-discrete
  encode_bounded_utf8-IsEncoded t maximum allow_empty bs h = ground (arith)

  command_or :
      (t : Text) (c : PreparedCommand)
      → prepare_command utf8 t ≡ ok c
      → (c.value ≡ t) × (encode_bounded_utf8 utf8 t max_command_bytes false ≡ ok c.bytes)
  unfolding prepare_command Text-discrete
  command_or t c h = ground arith

  -- What a result passes, step by step.
  record IsPassed (v : ExecuteResult) (p : PreparedExecuteResult) : Type 0 where
    request_id :
        encode_bounded_utf8 utf8 v.request_id max_request_id_bytes false ≡ ok p.request_id_bytes
    command :
        prepare_command utf8 v.command
        ≡ ok (record { value = p.value.command; bytes = p.command_bytes })
    output : encode_bounded_utf8 utf8 v.output max_output_bytes true ≡ ok p.output_bytes
    previous : v.previous_revision ≤ max_safe_integer
    next : v.revision ≤ max_safe_integer
    complete : v.turn_complete ≡ true
    boundary : boundary_marker v.boundary ≡ ok p.boundary_marker
    status :
        status_markers v.status v.previous_revision v.revision
        ≡ ok (p.status_marker, p.rejection_marker)
    value : p.value ≡ record v { command = p.value.command; turn_complete = true }

  prepare_execute_result-IsPassed :
      (v : ExecuteResult) (p : PreparedExecuteResult)
      → prepare_execute_result utf8 v ≡ ok p
      → IsPassed v p
  unfolding prepare_execute_result prepare_request_id require_safe_uint
  prepare_execute_result-IsPassed v p h = ground arith

  -- What a result passes: its own value comes back, with the bytes of its texts and its markers.
  pub record IsPreparedResult (v : ExecuteResult) (p : PreparedExecuteResult) : Type 0 where
    pub value : p.value ≡ v
    pub request_id : IsEncoded (v.request_id) max_request_id_bytes false p.request_id_bytes
    pub command : IsEncoded (v.command) max_command_bytes false p.command_bytes
    pub output : IsEncoded (v.output) max_output_bytes true p.output_bytes
    pub previous : v.previous_revision ≤ max_safe_integer
    pub next : v.revision ≤ max_safe_integer
    pub complete : v.turn_complete ≡ true
    pub boundary : boundary_marker v.boundary ≡ ok p.boundary_marker
    pub status :
        status_markers v.status v.previous_revision v.revision
        ≡ ok (p.status_marker, p.rejection_marker)

  pub prepare_execute_result-IsPreparedResult :
      (v : ExecuteResult) (p : PreparedExecuteResult)
      → prepare_execute_result utf8 v ≡ ok p
      → IsPreparedResult v p
  prepare_execute_result-IsPreparedResult v p h =
      let q = prepare_execute_result-IsPassed v p h in
      let c =
        command_or v.command (record { value = p.value.command; bytes = p.command_bytes })
          q.command in
      record {
        value = ground (arith, q.value, c.0, q.complete);
        request_id =
            encode_bounded_utf8-IsEncoded v.request_id max_request_id_bytes false p.request_id_bytes
              q.request_id;
        command =
            encode_bounded_utf8-IsEncoded v.command max_command_bytes false p.command_bytes c.1;
        output =
            encode_bounded_utf8-IsEncoded v.output max_output_bytes true p.output_bytes q.output;
        previous = q.previous;
        next = q.next;
        complete = q.complete;
        boundary = q.boundary;
        status = q.status;
      }

  -- What a receipt passes.
  pub record IsPreparedReceipt (v : WorkerSnapshotReceipt) (p : PreparedReceipt) : Type 0 where
    pub value : p.value ≡ v
    pub request_id : IsEncoded (v.request_id) max_request_id_bytes false p.request_id_bytes
    pub command : IsEncoded (v.command) max_command_bytes false p.command_bytes
    pub expected : v.expected_revision ≤ max_safe_integer
    pub result : IsPreparedResult v.result p.result
    pub payload :
        p.payload_bytes
        ≡ 40
          + length p.request_id_bytes
          + length p.command_bytes
          + length p.result.request_id_bytes
          + length p.result.command_bytes
          + length p.result.output_bytes
    pub encoded : p.encoded_bytes ≡ 4 + p.payload_bytes
    pub bounded : p.encoded_bytes ≤ max_receipt_journal_bytes

  record IsPassedReceipt (v : WorkerSnapshotReceipt) (p : PreparedReceipt) : Type 0 where
    request_id :
        encode_bounded_utf8 utf8 v.request_id max_request_id_bytes false ≡ ok p.request_id_bytes
    command :
        prepare_command utf8 v.command
        ≡ ok (record { value = p.value.command; bytes = p.command_bytes })
    expected : v.expected_revision ≤ max_safe_integer
    result : prepare_execute_result utf8 v.result ≡ ok p.result
    payload : payload_size p.request_id_bytes p.command_bytes p.result ≡ ok p.payload_bytes
    encoded : add_size 4 p.payload_bytes max_receipt_journal_bytes ≡ ok p.encoded_bytes
    value : p.value ≡ record v { command = p.value.command; result = p.result.value }

  prepare_receipt-IsPassedReceipt :
      (v : WorkerSnapshotReceipt) (p : PreparedReceipt)
      → prepare_receipt utf8 v ≡ ok p
      → IsPassedReceipt v p
  unfolding prepare_receipt prepare_request_id require_safe_uint
  prepare_receipt-IsPassedReceipt v p h = ground arith

  pub prepare_receipt-IsPreparedReceipt :
      (v : WorkerSnapshotReceipt) (p : PreparedReceipt)
      → prepare_receipt utf8 v ≡ ok p
      → IsPreparedReceipt v p
  prepare_receipt-IsPreparedReceipt v p h =
      let q = prepare_receipt-IsPassedReceipt v p h in
      let c =
        command_or v.command (record { value = p.value.command; bytes = p.command_bytes })
          q.command in
      let r = prepare_execute_result-IsPreparedResult v.result p.result q.result in
      record {
        value = ground (arith, q.value, c.0, r.value);
        request_id =
            encode_bounded_utf8-IsEncoded v.request_id max_request_id_bytes false p.request_id_bytes
              q.request_id;
        command =
            encode_bounded_utf8-IsEncoded v.command max_command_bytes false p.command_bytes c.1;
        expected = q.expected;
        result = r;
        payload =
            payload_size-sum p.request_id_bytes p.command_bytes p.result p.payload_bytes q.payload;
        encoded =
            (add_size-sum 4 p.payload_bytes max_receipt_journal_bytes p.encoded_bytes q.encoded).0;
        bounded =
            (add_size-sum 4 p.payload_bytes max_receipt_journal_bytes p.encoded_bytes q.encoded).1;
      }
