-- ===== src/GameEngine/Adapter/State.antt =====
-- The fields of `WorkerEngineAdapter` and the calls that it makes.
use sttork.Base.{ℕ, List, Option}
use sttork.Base.Text.{Text}
use sttork.Contracts.Engine.{Boundary, RuntimeIdentity, AdapterIdentity, Compatibility}
use sttork.GameEngine.Protocol.{EngineWorkerRequest, EngineWorkerResponse}

pub record EngineWorkerBinding : Type 0 where
  pub runtime : RuntimeIdentity
  pub adapter : AdapterIdentity
  pub snapshot_schema_version : ℕ

pub data Operation : Type 0 where
  boot execute snapshot restore inspect_public_state : Operation

unfoldable pub Operation-discrete : Discrete Operation
Operation-discrete = hlevel

pub data Recovery : Type 0 where
  ready : Recovery
  boot_quarantined : (story_id : Text) → Recovery
  execute_uncertain : (request_id : Text) (expected_revision : ℕ) (command : Text) → Recovery
  restore_quarantined : (snapshot_revision : ℕ) → Recovery

pub record Adapter : Type 0 where
  pub binding : EngineWorkerBinding
  pub compatibility : Option Compatibility
  pub revision : Option ℕ
  pub boundary : Option Boundary
  pub operation_in_flight : Option Operation
  pub recovery : Recovery

-- `nextMessageId`, the transport's `exchange` and `digestSha256`.
pub data Call : Type 0 where
  next_message_id : Call
  exchange : EngineWorkerRequest → Call
  digest_sha256 : List ℕ → Call

-- `none` says that the call threw.
abbrev pub Reply : Call → Type 0
Reply next_message_id = Option Text
Reply (exchange _) = Option EngineWorkerResponse
Reply (digest_sha256 _) = Option Text
