-- ===== src/DorkWorker/Runtime/State.antt =====
-- The fields of `DorkWorkerRuntime`, the calls that it makes, and its disposal. A session is known
-- by a number: its own methods are calls, which may answer anything or throw; only its `dispose`
-- does not throw (`dispose` of dork-candidate-session.ts sets fields and rejects promises).
use sttork.Base.{ℕ, suc, Bool, true, List, [], Option, none, some, if◌then◌else◌}
use sttork.Base.Text.{Text}
use sttork.Base.Outcome.{Outcome, ok, err}
use sttork.Async.{Proc, ret, ask, ◌>>=◌, ◌>>◌, lift, state, modify}
use sttork.Contracts.Engine.{
  Boundary, Compatibility, PublicEngineState, RuntimeIdentity, AdapterIdentity,
}
use sttork.DorkWorker.Snapshot.Format.{WorkerSnapshotReceipt}

pub record DorkWorkerRuntime : Type 0 where
  pub story_id : Text
  pub runtime_identity : RuntimeIdentity
  pub adapter_identity : AdapterIdentity
  pub snapshot_schema_version : ℕ
  pub max_receipts : ℕ
  pub max_receipt_journal_bytes : ℕ
  pub session : Option ℕ
  pub compatibility : Option Compatibility
  -- a `Map`, in the order of insertion
  pub receipts : List WorkerSnapshotReceipt
  pub receipt_journal_bytes : ℕ
  pub operation_in_flight : Bool
  pub disposed : Bool
  pub lifecycle_epoch : ℕ

-- What a turn of a session gives.
pub record DorkTurn : Type 0 where
  pub output : Text
  pub boundary : Boundary

-- How a session's `execute` ends; `over_limit` is the error that the story's input limit raises.
pub data Executed : Type 0 where
  turn : DorkTurn → Executed
  over_limit threw : Executed

-- The story's digest, `digestSha256`, and the constructor and the methods of a session.
pub data Call : Type 0 where
  artifact_sha256 : Call
  digest_sha256 : List ℕ → Call
  new_session : Call
  restore_session : List ℕ → Call
  boot_session : ℕ → Call
  inspect_session : ℕ → Call
  execute_session : ℕ → Text → Call
  snapshot_session : ℕ → Call
  dispose_session : ℕ → Call

-- `none` says that the call threw.
abbrev pub Reply : Call → Type 0
Reply artifact_sha256 = Option Text
Reply (digest_sha256 _) = Option Text
Reply new_session = Option ℕ
Reply (restore_session _) = Option ℕ
Reply (boot_session _) = Option DorkTurn
Reply (inspect_session _) = Option PublicEngineState
Reply (execute_session _ _) = Executed
Reply (snapshot_session _) = Option (List ℕ)
Reply (dispose_session _) = Unit {0}

-- `DorkWorkerInvalidRequestError`, and every other error.
pub data RuntimeError : Type 0 where
  invalid_request_error failure : RuntimeError

abbrev pub Method : Type 0 → Type 0
Method A = Proc DorkWorkerRuntime RuntimeError Call Reply A

-- The value, or what the call threw.
unfoldable pub or_failed : {A : Type 0} → Option A → Outcome RuntimeError A
or_failed none = err failure
or_failed (some a) = ok a

-- `inspectPublicState()` of a session
unfoldable pub inspect : ℕ → Method PublicEngineState
unfolding or_failed
inspect session = do reply ← ask (inspect_session session) ret; lift (or_failed reply)

-- What `dispose` does to the fields.
unfoldable pub disposed_state : DorkWorkerRuntime → DorkWorkerRuntime
disposed_state self = record self {
  disposed = true;
  lifecycle_epoch = suc (self.lifecycle_epoch);
  session = none;
  compatibility = none;
  receipts = [];
  receipt_journal_bytes = 0;
}

unfoldable pub dispose_active : Option ℕ → Method (Unit {0})
dispose_active none = ret tt
dispose_active (some session) = ask (dispose_session session) ret

unfoldable pub dispose : Method (Unit {0})
unfolding dispose_active disposed_state
dispose = do
  self ← state
  if self.disposed then ret tt else (do dispose_active self.session; modify disposed_state)
