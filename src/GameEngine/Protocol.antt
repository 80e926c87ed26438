-- ===== src/GameEngine/Protocol.antt =====
-- packages/game-engine/src/worker-protocol.ts: what crosses the worker's boundary.
use sttork.Base.{ℕ}
use sttork.Base.Text.{Text}
use sttork.Contracts.Engine.{
  BootRequest, BootResult, ExecuteRequest, ExecuteResult, EngineSnapshot, RestoreResult,
  PublicEngineState,
}

abbrev pub engine_worker_protocol_version : ℕ
engine_worker_protocol_version = 1

pub data RequestBody : Type 0 where
  boot : BootRequest → RequestBody
  execute : ExecuteRequest → RequestBody
  snapshot : RequestBody
  restore : EngineSnapshot → RequestBody
  inspect_public_state : RequestBody

pub record EngineWorkerRequest : Type 0 where
  pub protocol_version : ℕ
  pub message_id : Text
  pub body : RequestBody

pub data ErrorCode : Type 0 where
  invalid_request not_booted already_booted internal_error : ErrorCode

pub data ResponseBody : Type 0 where
  boot_result : BootResult → ResponseBody
  execute_result : ExecuteResult → ResponseBody
  snapshot_result : EngineSnapshot → ResponseBody
  restore_result : RestoreResult → ResponseBody
  inspect_public_state_result : PublicEngineState → ResponseBody
  error : ErrorCode → Text → ResponseBody

pub record EngineWorkerResponse : Type 0 where
  pub protocol_version : ℕ
  pub message_id : Text
  pub body : ResponseBody
