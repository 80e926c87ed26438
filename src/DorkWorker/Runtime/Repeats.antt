-- ===== src/DorkWorker/Runtime/Repeats.antt =====
-- A request whose identity has a receipt.
use sttork.Base.{ℕ, ◌≡◌, false, arith, [], some}
use sttork.Base.Text.{Text, Text-discrete}
use sttork.Base.Outcome.{ok}
use sttork.Async.{World, run, ◌>>=◌, catch, finally}
use sttork.Contracts.Engine.{ExecuteRequest, ExecuteResult}
use sttork.GameEngine.Protocol.{EngineWorkerRequest, RequestBody, execute_result}
use sttork.DorkWorker.Snapshot.Format.{Utf8}
use sttork.DorkWorker.Runtime.State.{DorkWorkerRuntime, Call, Reply}
use sttork.DorkWorker.Runtime.Checks.{require_bounded_id, require_revision}
use sttork.DorkWorker.Runtime.Receipts.{find, receipt_of}
use sttork.DorkWorker.Runtime.Execute.{execute_method, execute_in, execute_found, repeated}
use sttork.DorkWorker.Runtime.Exchange.{exchange, answer, respond, dispatch}

-- The message that carries an execute request.
abbrev pub execute_message : Text → ExecuteRequest → EngineWorkerRequest
execute_message message_id input = record {
  protocol_version = 1;
  message_id = message_id;
  body = RequestBody.execute input;
}

-- The runtime is booted and free.
pub record IsReady (s : DorkWorkerRuntime) (session : ℕ) : Type 0 where
  pub free : s.operation_in_flight ≡ false
  pub alive : s.disposed ≡ false
  pub active : s.session ≡ some session

-- The identities and the revision of a message pass their checks.
pub record IsAdmitted (utf8 : Utf8) (message_id : Text) (input : ExecuteRequest) : Type 0 where
  pub message : require_bounded_id utf8 message_id ≡ ok tt
  pub request : require_bounded_id utf8 input.request_id ≡ ok tt
  pub revision : require_revision input.expected_revision ≡ ok tt

-- An execute request that has a receipt is answered from it: on a runtime that is booted and free,
-- in every world, with the result that was recorded, no call of the session and no change.
pub exchange-replays :
    (utf8 : Utf8) (w : World DorkWorkerRuntime Call Reply) (n session : ℕ) (s : DorkWorkerRuntime)
    (message_id : Text) (input : ExecuteRequest) (result : ExecuteResult)
    → IsReady s session
    → IsAdmitted utf8 message_id input
    → find input.request_id s.receipts ≡ some (receipt_of input result)
    → run w n s (exchange utf8 (execute_message message_id input)) ≡ record {
      outcome = ok (respond (execute_message message_id input) (execute_result result));
      final = s;
      calls = [];
    }
unfolding exchange answer execute_method execute_in execute_found repeated run ◌>>=◌ catch finally
    dispatch Text-discrete
exchange-replays utf8 w n session s message_id input result ready admitted found = ground (
  arith, ready.free, ready.alive, ready.active, admitted.message, admitted.request,
  admitted.revision, found,
)
