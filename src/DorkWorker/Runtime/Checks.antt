-- ===== src/DorkWorker/Runtime/Checks.antt =====
-- The checks of spikes/dork-worker/dork-worker-runtime.ts on what a message carries, and the
-- constructor. A message has its type, so the tests for objects and strings have no counterpart.
use sttork.Base.{ℕ, false, ◌&&◌, ◌||◌, ltb, ◌==◌, all, length, Option, none, some, []}
use sttork.Base.Text.{Text, has_control}
use sttork.Base.Outcome.{Outcome, ok, ◌>>=◌, ◌>>◌, require, throw_if}
use sttork.Contracts.Engine.{max_safe_integer, Compatibility, RuntimeIdentity, AdapterIdentity}
use sttork.GameEngine.Checks.{is_hex}
use sttork.DorkWorker.Snapshot.Format.{
  Utf8, max_receipts as receipt_limit, max_receipt_journal_bytes as journal_limit,
}
use sttork.DorkWorker.Runtime.State.{
  RuntimeError, invalid_request_error, failure, DorkWorkerRuntime,
}

-- `MAX_RUNTIME_ID_BYTES`
abbrev pub max_runtime_id_bytes : ℕ
max_runtime_id_bytes = 128

unfoldable pub require_bounded_id : Utf8 → Text → Outcome RuntimeError (Unit {0})
require_bounded_id utf8 value =
    throw_if
      ((length value == 0)
        || ltb max_runtime_id_bytes (length (utf8.encode value))
        || has_control value)
      invalid_request_error

unfoldable pub require_revision : ℕ → Outcome RuntimeError (Unit {0})
require_revision value = throw_if (ltb max_safe_integer value) invalid_request_error

unfoldable pub require_sha256 : Text → Outcome RuntimeError (Unit {0})
unfolding is_hex
require_sha256 value = require ((length value == 64) && all is_hex value) invalid_request_error

-- `requirePositiveLimit`
unfoldable pub require_positive_limit : Option ℕ → ℕ → Outcome RuntimeError ℕ
require_positive_limit none maximum = ok maximum
require_positive_limit (some value) maximum = do
  throw_if (ltb max_safe_integer value || ltb value 1 || ltb maximum value) failure
  ok value

-- `cloneIncomingCompatibility`
unfoldable pub check_compatibility : Utf8 → Compatibility → Outcome RuntimeError (Unit {0})
unfolding require_bounded_id require_sha256 require_revision
check_compatibility utf8 c = do
  require_bounded_id utf8 c.story.id
  require_sha256 c.story.artifact_sha256
  require_bounded_id utf8 c.runtime.id
  require_bounded_id utf8 c.runtime.version
  require_sha256 c.runtime.artifact_sha256
  require_bounded_id utf8 c.adapter.id
  require_bounded_id utf8 c.adapter.version
  require_revision c.snapshot_schema_version
  throw_if (ltb c.snapshot_schema_version 1) invalid_request_error

-- The options of a runtime, but for the story's bytes, of which only the length is read here.
pub record RuntimeOptions : Type 0 where
  pub story_id : Text
  pub story_byte_length : ℕ
  pub seed : Option ℕ
  pub max_receipts : Option ℕ
  pub max_receipt_journal_bytes : Option ℕ

unfoldable pub check_seed : Option ℕ → Outcome RuntimeError (Unit {0})
check_seed none = ok tt
check_seed (some seed) = throw_if (ltb 4294967295 seed) failure

unfoldable pub create :
    Utf8
    → RuntimeIdentity
    → AdapterIdentity
    → ℕ
    → RuntimeOptions
    → Outcome RuntimeError DorkWorkerRuntime
unfolding require_bounded_id check_seed require_positive_limit
create utf8 runtime adapter schema_version options = do
  require_bounded_id utf8 options.story_id
  throw_if (ltb options.story_byte_length 64) failure
  check_seed options.seed
  receipts ← require_positive_limit options.max_receipts receipt_limit
  journal_bytes ← require_positive_limit options.max_receipt_journal_bytes journal_limit
  ok (record {
    story_id = options.story_id;
    runtime_identity = runtime;
    adapter_identity = adapter;
    snapshot_schema_version = schema_version;
    max_receipts = receipts;
    max_receipt_journal_bytes = journal_bytes;
    session = none;
    compatibility = none;
    receipts = [];
    receipt_journal_bytes = 0;
    operation_in_flight = false;
    disposed = false;
    lifecycle_epoch = 0;
  })
