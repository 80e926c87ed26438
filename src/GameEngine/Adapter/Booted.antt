-- ===== src/GameEngine/Adapter/Booted.antt =====
-- What holds of the adapter between two calls.
use sttork.Base.{ℕ, ◌≤◌, ◌≡◌, ◌≢◌, Option, none, some, arith, Bool}
use sttork.Base.Outcome.{ok}
use sttork.Contracts.Engine.{
  max_safe_integer, Boundary, BootRequest, BootResult, Compatibility, ExecuteRequest, ExecuteResult,
  EngineSnapshot, RestoreResult, PublicEngineState,
}
use sttork.GameEngine.Checks.{
  require_turn_complete, require_revision, require_turn_boundary, validate_execute_result,
}
use sttork.GameEngine.Adapter.State.{Recovery, Adapter}
use sttork.GameEngine.Adapter.Replies.{accept_boot, accept_execute, accept_restore, accept_inspect}

-- The compatibility, the revision and the boundary are known together or not at all; a known
-- revision is a safe integer and a known boundary one of the two that the contract has.
abbrev pub Known : Option Compatibility → Option ℕ → Option Boundary → Type 0
Known none none none = Unit
Known (some c) (some r) (some b) = (r ≤ max_safe_integer) × (b ≢ Boundary.invalid)
Known _ _ _ = ⊥

abbrev pub IsBooted : Adapter → Type 0
IsBooted s = Known s.compatibility s.revision s.boundary

Known-revision :
    (c : Option Compatibility) (r r' : ℕ) (b : Option Boundary)
    → r' ≤ max_safe_integer
    → Known c (some r) b
    → Known c (some r') b
Known-revision (some c) r r' (some b) h k = (h, k.1)
Known-revision none r r' none h k = k
Known-revision none r r' (some b) h k = k
Known-revision (some c) r r' none h k = k

turn_complete-valid :
    (done : Bool) (b : Boundary) → require_turn_complete done b ≡ ok tt → b ≢ Boundary.invalid
unfolding require_turn_complete
turn_complete-valid done b h = ground arith

turn_boundary-valid : (b : Boundary) → require_turn_boundary b ≡ ok tt → b ≢ Boundary.invalid
unfolding require_turn_boundary
turn_boundary-valid b h = ground arith

revision-safe : (r : ℕ) → require_revision r ≡ ok tt → r ≤ max_safe_integer
unfolding require_revision
revision-safe r h = ground arith

execute_result-valid :
    (input : ExecuteRequest) (result : ExecuteResult) (r : ℕ) (b : Boundary)
    → validate_execute_result input result r b ≡ ok tt
    → (result.revision ≤ max_safe_integer) × (result.boundary ≢ Boundary.invalid)
unfolding validate_execute_result
execute_result-valid input result r b h = ground arith

pub accept_boot-IsBooted :
    (s : Adapter) (input : BootRequest) (result : BootResult) (next : Adapter)
    → accept_boot s input result ≡ ok next
    → IsBooted next × (next.operation_in_flight ≡ s.operation_in_flight)
unfolding accept_boot
accept_boot-IsBooted s input result next h =
    ground (arith, turn_complete-valid result.turn_complete result.boundary)

pub accept_execute-IsBooted :
    (s : Adapter) (input : ExecuteRequest) (r : ℕ) (b : Boundary) (result : ExecuteResult)
    (next : Adapter)
    → s.revision ≡ some r
    → IsBooted s
    → accept_execute s input r b result ≡ ok next
    → IsBooted next × (next.operation_in_flight ≡ s.operation_in_flight)
unfolding accept_execute
accept_execute-IsBooted s input r b result next e k h =
    ground (arith, execute_result-valid input result r b)

pub accept_restore-IsBooted :
    (s : Adapter) (candidate : EngineSnapshot) (r : ℕ) (b : Boundary) (result : RestoreResult)
    (next : Adapter)
    → s.revision ≡ some r
    → IsBooted s
    → accept_restore s candidate r b result ≡ ok next
    → IsBooted next × (next.operation_in_flight ≡ s.operation_in_flight)
unfolding accept_restore
accept_restore-IsBooted s candidate r b result next e k h = ground arith

pub accept_inspect-IsBooted :
    (s : Adapter) (recovery : Recovery) (r : ℕ) (b : Boundary) (seen : PublicEngineState)
    (next : Adapter)
    → s.revision ≡ some r
    → IsBooted s
    → accept_inspect s recovery r b seen ≡ ok next
    → IsBooted next × (next.operation_in_flight ≡ s.operation_in_flight)
unfolding accept_inspect
accept_inspect-IsBooted s recovery r b seen next e k h = ground arith

-- No reply changes the operation in flight.
module _ (s next : Adapter) where
  pub accept_boot-operation :
      (input : BootRequest) (result : BootResult)
      → accept_boot s input result ≡ ok next
      → next.operation_in_flight ≡ s.operation_in_flight
  unfolding accept_boot
  accept_boot-operation input result h = ground arith

  pub accept_execute-operation :
      (input : ExecuteRequest) (r : ℕ) (b : Boundary) (result : ExecuteResult)
      → accept_execute s input r b result ≡ ok next
      → next.operation_in_flight ≡ s.operation_in_flight
  unfolding accept_execute
  accept_execute-operation input r b result h = ground arith

  pub accept_restore-operation :
      (candidate : EngineSnapshot) (r : ℕ) (b : Boundary) (result : RestoreResult)
      → accept_restore s candidate r b result ≡ ok next
      → next.operation_in_flight ≡ s.operation_in_flight
  unfolding accept_restore
  accept_restore-operation candidate r b result h = ground arith

  pub accept_inspect-operation :
      (recovery : Recovery) (r : ℕ) (b : Boundary) (seen : PublicEngineState)
      → accept_inspect s recovery r b seen ≡ ok next
      → next.operation_in_flight ≡ s.operation_in_flight
  unfolding accept_inspect
  accept_inspect-operation recovery r b seen h = ground arith
