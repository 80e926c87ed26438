-- ===== src/DorkWorker/Snapshot/Format.antt =====
-- spikes/dork-worker/worker-snapshot-envelope.ts: limits, markers, errors and data. An error is its
-- code: the offset that some carry and the message are left out. A snapshot's fields have their
-- types, so the checks on values of other shapes have no counterpart.
use sttork.Base.{ℕ, length, ◌≤◌, List, Option, ◌*◌}
use sttork.Base.Text.{Text, codes}
use sttork.Contracts.Command.{max_canonical_command_length}
use sttork.Contracts.Engine.{Boundary, ExecuteResult, max_engine_snapshot_bytes}

-- "ZVDORKWS" in UTF-8
abbrev pub magic_bytes : List ℕ
magic_bytes = codes "ZVDORKWS"

abbrev pub worker_snapshot_schema_version : ℕ
worker_snapshot_schema_version = 1

abbrev pub max_total_bytes : ℕ
max_total_bytes = max_engine_snapshot_bytes

-- `DORK_CHECKPOINT_MAX_TOTAL_BYTES`, 1024 * 1024
abbrev pub max_inner_checkpoint_bytes : ℕ
max_inner_checkpoint_bytes = 1048576

-- `DORK_CHECKPOINT_MAX_LAST_OUTPUT_BYTES`, 256 * 1024
abbrev pub max_output_bytes : ℕ
max_output_bytes = 262144

-- `DORK_CHECKPOINT_FIXED_HEADER_BYTES`
abbrev pub checkpoint_header_bytes : ℕ
checkpoint_header_bytes = 16

abbrev pub max_request_id_bytes : ℕ
max_request_id_bytes = 128

abbrev pub max_command_length : ℕ
max_command_length = max_canonical_command_length

abbrev pub max_command_bytes : ℕ
max_command_bytes = max_command_length * 4

abbrev pub max_receipts : ℕ
max_receipts = 32

-- 1024 * 1024
abbrev pub max_receipt_journal_bytes : ℕ
max_receipt_journal_bytes = 1048576

abbrev pub fixed_header_bytes : ℕ
fixed_header_bytes = 16

abbrev pub fixed_body_bytes : ℕ
fixed_body_bytes = 28

abbrev pub receipt_fixed_bytes : ℕ
receipt_fixed_bytes = 40

abbrev pub receipt_length_prefix_bytes : ℕ
receipt_length_prefix_bytes = 4

-- The codes of `WorkerSnapshotCodecError`. `range_error` is what a `DataView` or `set` throws where
-- a write would pass the buffer's end.
pub data CodecError : Type 0 where
  invalid_input limit_exceeded truncated trailing_bytes invalid_magic unsupported_version :
      CodecError
  nonzero_reserved invalid_total_length invalid_utf8 noncanonical : CodecError
  duplicate_request_id invalid_value range_error : CodecError

pub record WorkerSnapshotReceipt : Type 0 where
  pub request_id : Text
  pub expected_revision : ℕ
  pub command : Text
  pub result : ExecuteResult

pub record WorkerSnapshotEnvelope : Type 0 where
  pub schema_version : ℕ
  pub revision : ℕ
  pub last_output : Text
  pub boundary : Boundary
  pub inner_checkpoint : List ℕ
  -- oldest to newest
  pub receipts : List WorkerSnapshotReceipt

-- The platform's `TextEncoder`, and its `TextDecoder` with `fatal` and `ignoreBOM`, which throws on
-- what is not UTF-8.
pub record Utf8 : Type 0 where
  pub encode : Text → List ℕ
  pub decode : List ℕ → Option Text

-- What the code relies on: "UTF-8 is never shorter than a JavaScript string's UTF-16 code-unit
-- count".
pub record IsUtf8 (utf8 : Utf8) : Type 0 where
  pub never_shorter : (t : Text) → length t ≤ length (utf8.encode t)
