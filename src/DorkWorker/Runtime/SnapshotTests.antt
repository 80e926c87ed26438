-- ===== src/DorkWorker/Runtime/SnapshotTests.antt =====
-- A small game is saved by one runtime and restored by another.
use sttork.Base.{ℕ, ◌≡◌, refl, false, List, [], none, some}
use sttork.Base.Text.{Text, codes, Text-discrete, is_control}
use sttork.Base.Outcome.{Outcome, ok, err}
use sttork.Async.{World, run, Run, ◌>>=◌, catch}
use sttork.Async.Rules.{Ensures}
use sttork.Contracts.Engine.{
  Compatibility, EngineSnapshot, input_requested, Boundary-discrete, restored,
}
use sttork.GameEngine.Protocol.{ResponseBody, snapshot_result}
use sttork.GameEngine.Checks.{same_compatibility, is_hex}
use sttork.DorkWorker.Ascii.{ascii, ascii-IsUtf8}
use sttork.DorkWorker.Snapshot.Format.{WorkerSnapshotEnvelope, CodecError}
use sttork.DorkWorker.Snapshot.Prepare.{
  require_safe_uint, boundary_marker, boundary_from_marker, add_size, decode_fatal_utf8,
  encode_bounded_utf8,
}
use sttork.DorkWorker.Snapshot.Relative.{
  check_receipts, require_revisions, validate_receipts_relative,
}
use sttork.DorkWorker.Snapshot.Envelope.{
  journal_size, total_size, prepare_receipts, prepare_envelope,
}
use sttork.DorkWorker.Snapshot.Writer.{create, field_bytes, write, write_all, finish}
use sttork.DorkWorker.Snapshot.Encode.{journal_fields, encode_envelope}
use sttork.DorkWorker.Snapshot.Reader as Reader
use sttork.DorkWorker.Snapshot.Decode.{
  decode_header, body_fields, check_body, decode_content, decode_body, decode_envelope,
}
use sttork.DorkWorker.Snapshot.Records.{decode_receipts, decode_journal}
use sttork.DorkWorker.Runtime.State.{
  DorkWorkerRuntime, Call, Reply, RuntimeError, artifact_sha256, digest_sha256, new_session,
  restore_session, boot_session, inspect_session, execute_session, snapshot_session,
  dispose_session, threw, inspect, or_failed,
}
use sttork.DorkWorker.Runtime.Checks.{
  require_bounded_id, require_revision, require_sha256, check_compatibility,
}
use sttork.DorkWorker.Runtime.Receipts.{restored_from, validate_restored_receipts}
use sttork.DorkWorker.Runtime.Operations.{or_codec, save, snapshot_in, snapshot_method, give_up}
use sttork.DorkWorker.Runtime.Restore.{
  restore_response, is_snapshot_length, check_snapshot, shows, take_over, swap, stage, load,
  restore_from, restore_in, restore_method,
}
use sttork.DorkWorker.Runtime.Meanwhile.{Meanwhile, nothing, Anything}
use sttork.DorkWorker.Runtime.Saved.{IsSaved, snapshot_method-IsSaved}
use sttork.DorkWorker.Runtime.Restored.{Gave, restore_method-IsRestored}
use sttork.DorkWorker.Runtime.Restored.Outcomes.{IsRestored}
use sttork.DorkWorker.Runtime.Resumed.{restore-snapshot}
use native.Mathlib.Decide.{ℕ_discrete}

-- A digest.
abbrev hex : Text
hex = codes "0123456789abcdef0123456789abcdef0123456789abcdef0123456789abcdef"

abbrev compatible : Compatibility
compatible = record {
  story = record { id = codes "story"; artifact_sha256 = hex };
  runtime = record { id = codes "dork"; version = codes "1"; artifact_sha256 = hex };
  adapter = record { id = codes "adapter"; version = codes "1" };
  snapshot_schema_version = 1;
}

abbrev playing : DorkWorkerRuntime
playing = record {
  story_id = codes "story";
  runtime_identity = compatible.runtime;
  adapter_identity = compatible.adapter;
  snapshot_schema_version = 1;
  max_receipts = 4;
  max_receipt_journal_bytes = 1048576;
  session = some 0;
  compatibility = some compatible;
  receipts = [];
  receipt_journal_bytes = 0;
  operation_in_flight = false;
  disposed = false;
  lifecycle_epoch = 0;
}

abbrev start_reply : ℕ → (c : Call) → Reply c
start_reply n artifact_sha256 = none
start_reply n (digest_sha256 bytes) = some hex
start_reply n new_session = none
start_reply n (restore_session bytes) = some 1
start_reply n (boot_session session) = none
start_reply n (inspect_session session) =
    some (record { revision = 0; last_output = codes "Hi."; boundary = input_requested })
start_reply n (execute_session session command) = threw
start_reply n (snapshot_session session) = some (codes "checkpoint-bytes")
start_reply n (dispose_session session) = tt

-- A world in which the game stands at its start.
abbrev start : World DorkWorkerRuntime Call Reply
start = record { reply = start_reply; meanwhile = λ n s. s }

abbrev at_start : WorkerSnapshotEnvelope
at_start = record {
  schema_version = 1;
  revision = 0;
  last_output = codes "Hi.";
  boundary = input_requested;
  inner_checkpoint = codes "checkpoint-bytes";
  receipts = [];
}

abbrev bytes_of : Outcome CodecError (List ℕ) → List ℕ
bytes_of (ok bs) = bs
bytes_of (err e) = []

abbrev snapshot : EngineSnapshot
unfolding encode_envelope
snapshot = record {
  bytes = bytes_of (encode_envelope ascii at_start);
  sha256 = hex;
  revision = 0;
  compatibility = compatible;
}

abbrev saving : Run DorkWorkerRuntime RuntimeError Call ResponseBody
saving = run start 0 playing (snapshot_method ascii)

abbrev seven : DorkWorkerRuntime
seven = record playing { session = some 7 }

abbrev restoring : Run DorkWorkerRuntime RuntimeError Call ResponseBody
restoring = run start 0 seven (restore_method ascii snapshot)

game_saved : saving.outcome ≡ ok (snapshot_result snapshot)
unfolding run ◌>>=◌ snapshot_method snapshot_in save or_codec or_failed inspect encode_envelope
    prepare_envelope require_safe_uint boundary_marker encode_bounded_utf8 decode_fatal_utf8
    prepare_receipts journal_size validate_receipts_relative check_receipts require_revisions
    total_size add_size journal_fields create field_bytes write write_all finish Text-discrete
    ℕ_discrete
game_saved = refl

still_alive : saving.final.disposed ≡ false
unfolding run ◌>>=◌ snapshot_method snapshot_in save or_codec or_failed inspect encode_envelope
    prepare_envelope require_safe_uint boundary_marker encode_bounded_utf8 decode_fatal_utf8
    prepare_receipts journal_size validate_receipts_relative check_receipts require_revisions
    total_size add_size journal_fields create field_bytes write write_all finish Text-discrete
    ℕ_discrete
still_alive = refl

snapshot_method-IsSaved_example :
    Ensures Anything Meanwhile (IsSaved ascii) (snapshot_method ascii) playing
snapshot_method-IsSaved_example = snapshot_method-IsSaved ascii ascii-IsUtf8 playing

restore_method-IsRestored_example :
    IsRestored (Gave start) ascii snapshot seven restoring.outcome restoring.final
restore_method-IsRestored_example =
    restore_method-IsRestored ascii snapshot seven start 0 (λ m x. nothing)

game_restored : restoring.outcome ≡ ok (restore_response restored 0 input_requested)
unfolding run ◌>>=◌ catch restore_method restore_in check_snapshot is_snapshot_length require_sha256
    require_revision is_hex check_compatibility require_bounded_id is_control restore_from
    same_compatibility load or_codec or_failed inspect stage validate_restored_receipts
    restored_from swap shows take_over give_up decode_envelope decode_body decode_header body_fields
    check_body decode_content decode_journal decode_receipts Reader.◌>>=◌ Reader.pure Reader.checked
    Reader.remaining Reader.bytes Reader.u8 Reader.u16 Reader.u32 Reader.safe_u64 Reader.reserved_u8
    Reader.reserved_u16 Reader.magic Reader.bounded_utf8 boundary_from_marker decode_fatal_utf8
    validate_receipts_relative check_receipts require_revisions encode_envelope prepare_envelope
    require_safe_uint boundary_marker encode_bounded_utf8 prepare_receipts journal_size total_size
    add_size journal_fields create field_bytes write write_all finish Text-discrete
    Boundary-discrete ℕ_discrete
game_restored = refl

restore-snapshot_example : restoring.final.receipts ≡ saving.final.receipts
restore-snapshot_example =
    restore-snapshot ascii ascii-IsUtf8 start start 0 0 playing seven snapshot 0 input_requested
      (λ m x. nothing) (λ m x. nothing) game_saved still_alive game_restored
