-- ===== src/Contracts/Engine.antt =====
-- packages/contracts/src/engine.ts: the engine port's data. A revision or a length is a natural
-- number; bytes are a list of numbers.
use sttork.Base.{ℕ, Bool, List}
use sttork.Base.Text.{Text}

-- 4 MiB
abbrev pub max_engine_snapshot_bytes : ℕ
max_engine_snapshot_bytes = 4194304

-- `Number.MAX_SAFE_INTEGER`
abbrev pub max_safe_integer : ℕ
max_safe_integer = 9007199254740991

pub record BootRequest : Type 0 where
  pub story_id : Text
  pub artifact_sha256 : Text

-- `invalid` is any other string: the worker's side is not trusted to keep to the type.
pub data Boundary : Type 0 where
  input_requested terminated invalid : Boundary

unfoldable pub Boundary-discrete : Discrete Boundary
Boundary-discrete = hlevel

pub record StoryIdentity : Type 0 where
  pub id : Text
  pub artifact_sha256 : Text

pub record RuntimeIdentity : Type 0 where
  pub id : Text
  pub version : Text
  pub artifact_sha256 : Text

pub record AdapterIdentity : Type 0 where
  pub id : Text
  pub version : Text

pub record Compatibility : Type 0 where
  pub story : StoryIdentity
  pub runtime : RuntimeIdentity
  pub adapter : AdapterIdentity
  pub snapshot_schema_version : ℕ

pub record BootResult : Type 0 where
  pub revision : ℕ
  pub output : Text
  pub turn_complete : Bool
  pub boundary : Boundary
  pub compatibility : Compatibility

pub record ExecuteRequest : Type 0 where
  pub request_id : Text
  pub expected_revision : ℕ
  pub command : Text

pub data Rejection : Type 0 where
  stale_revision duplicate invalid_command receipt_capacity invalid : Rejection

pub data ExecuteStatus : Type 0 where
  committed : ExecuteStatus
  rejected : Rejection → ExecuteStatus

pub record ExecuteResult : Type 0 where
  pub request_id : Text
  pub previous_revision : ℕ
  pub revision : ℕ
  pub command : Text
  pub output : Text
  pub turn_complete : Bool
  pub boundary : Boundary
  pub status : ExecuteStatus

pub record EngineSnapshot : Type 0 where
  pub bytes : List ℕ
  pub sha256 : Text
  pub revision : ℕ
  pub compatibility : Compatibility

pub data RestoreRejection : Type 0 where
  incompatible_snapshot corrupt_snapshot invalid : RestoreRejection

pub data RestoreStatus : Type 0 where
  restored : RestoreStatus
  rejected : RestoreRejection → RestoreStatus

pub record RestoreResult : Type 0 where
  pub revision : ℕ
  pub output : Text
  pub turn_complete : Bool
  pub boundary : Boundary
  pub status : RestoreStatus

pub record PublicEngineState : Type 0 where
  pub revision : ℕ
  pub last_output : Text
  pub boundary : Boundary
