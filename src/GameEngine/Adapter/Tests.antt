-- ===== src/GameEngine/Adapter/Tests.antt =====
-- The adapter on concrete inputs: booted and idle, busy, and with an uncertain execution.
use sttork.Base.{ℕ, ◌≡◌, refl, false, List, [], ◌∷◌, none, some, arith}
use sttork.Base.Text.{codes}
use sttork.Base.Outcome.{ok}
use sttork.Async.Rules.{Ensures}
use sttork.GameEngine.Adapter.Guards.{create}
use sttork.GameEngine.Adapter.History.{Episode, history, history-IsIdle}
use sttork.Contracts.Engine.{Compatibility, input_requested, ExecuteRequest, EngineSnapshot}
use sttork.GameEngine.Adapter.State.{
  EngineWorkerBinding, execute, ready, execute_uncertain, Adapter, Call, Reply, next_message_id,
  exchange, digest_sha256,
}
use sttork.GameEngine.Adapter.Operations.{execute_method, boots, executes, restores, perform}
use sttork.GameEngine.Adapter.Steps.{Untouched}
use sttork.GameEngine.Adapter.Exclusion.{IsLocal, Refused, perform_busy}
use sttork.GameEngine.Adapter.Lifecycle.{IsIdle, Anything, Settled, perform-IsIdle}
use sttork.GameEngine.Adapter.Execute.{Submits, Executed, execute_method-Executed}
use sttork.GameEngine.Adapter.Allowed.{MaySend}
use sttork.GameEngine.Adapter.Recovery.{Whatever, perform-MaySend}

abbrev hash : List ℕ
hash = codes "37084966477dff679282de42974b2077156b1bd68fad92a65d4ea94d8eb64d79"

abbrev binding_a : EngineWorkerBinding
binding_a = record {
  runtime = record { id = codes "bocfel"; version = codes "2.2"; artifact_sha256 = hash };
  adapter = record { id = codes "worker"; version = codes "1" };
  snapshot_schema_version = 1;
}

abbrev compatibility_a : Compatibility
compatibility_a = record {
  story = record { id = codes "zork1"; artifact_sha256 = hash };
  runtime = binding_a.runtime;
  adapter = binding_a.adapter;
  snapshot_schema_version = 1;
}

abbrev booted_a : Adapter
booted_a = record {
  binding = binding_a;
  compatibility = some compatibility_a;
  revision = some 3;
  boundary = some input_requested;
  operation_in_flight = none;
  recovery = ready;
}

abbrev request_a : ExecuteRequest
request_a = record {
  request_id = codes "r4";
  expected_revision = 3;
  command = codes "open mailbox";
}

abbrev other_request : ExecuteRequest
other_request = record { request_id = codes "r5"; expected_revision = 3; command = codes "look" }

abbrev uncertain_a : Adapter
uncertain_a = record booted_a { recovery = execute_uncertain (codes "r4") 3 (codes "open mailbox") }

abbrev snapshot_a : EngineSnapshot
snapshot_a = record {
  bytes = 1 ∷ 2 ∷ [];
  sha256 = hash;
  revision = 2;
  compatibility = compatibility_a;
}

perform-MaySend_example :
    Ensures
      (MaySend (execute_uncertain (codes "r4") 3 (codes "open mailbox")))
      Untouched
      Whatever
      (perform (executes other_request false))
      uncertain_a
perform-MaySend_example =
    perform-MaySend uncertain_a (execute_uncertain (codes "r4") 3 (codes "open mailbox")) refl
      (compatibility_a, refl) refl (executes other_request false)

perform_busy_example :
    Ensures IsLocal Untouched
      (Refused (record booted_a { operation_in_flight = some execute }))
      (perform (restores snapshot_a))
      (record booted_a { operation_in_flight = some execute })
perform_busy_example =
    perform_busy (record booted_a { operation_in_flight = some execute }) execute refl
      (restores snapshot_a)

execute_method-Executed_example :
    Ensures
      (Submits request_a)
      Untouched
      (Executed booted_a request_a)
      (execute_method request_a false)
      booted_a
execute_method-Executed_example = execute_method-Executed booted_a request_a false refl

perform-IsIdle_example :
    Ensures Anything Untouched Settled (perform (executes request_a false)) booted_a
perform-IsIdle_example =
    perform-IsIdle booted_a (record { booted = (ground arith); released = refl })
      (executes request_a false)

abbrev fresh_a : Adapter
fresh_a = record {
  binding = binding_a;
  compatibility = none;
  revision = none;
  boundary = none;
  operation_in_flight = none;
  recovery = ready;
}

abbrev mute_reply : ℕ → (c : Call) → Reply c
mute_reply n next_message_id = some (codes "m1")
mute_reply n (exchange m) = none
mute_reply n (digest_sha256 bytes) = none

-- The worker never answers: the boot is quarantined, and the execution is refused.
abbrev episodes_a : List Episode
episodes_a =
    (
      boots (record { story_id = codes "zork1"; artifact_sha256 = hash }),
      record { reply = mute_reply; meanwhile = λ n s. s },
    )
    ∷ (executes request_a false, record { reply = mute_reply; meanwhile = λ n s. s })
    ∷ []

created_a : create binding_a ≡ ok fresh_a
unfolding create
created_a = refl

history-IsIdle_example : IsIdle (history fresh_a episodes_a)
history-IsIdle_example =
    history-IsIdle binding_a fresh_a episodes_a created_a ((λ n s. refl), ((λ n s. refl), tt))
