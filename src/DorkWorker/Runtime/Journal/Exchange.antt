-- ===== src/DorkWorker/Runtime/Journal/Exchange.antt =====
-- `exchange` and `dispose` keep the receipt journal within its limits.
use sttork.Base.{ℕ, Option, none, some}
use sttork.Base.Outcome.{ok, err, Outcome}
use sttork.Async.{◌>>=◌, ret, catch, modify}
use sttork.Async.Rules.{
  Ensures, Ensures-put, Ensures-state, Ensures-ret, Ensures-if, Ensures-bind, Ensures-mono,
  Ensures-finally, Next, Rethrow,
}
use sttork.Async.Keeps.{Every, Leads}
use sttork.GameEngine.Protocol.{EngineWorkerRequest, RequestBody, ResponseBody}
use sttork.DorkWorker.Snapshot.Format.{Utf8}
use sttork.DorkWorker.Runtime.State.{
  DorkWorkerRuntime, Reply, RuntimeError, Method, dispose, dispose_active, disposed_state,
}
use sttork.DorkWorker.Runtime.Exchange.{
  exchange, answer, answered, dispatch, release, respond, error_response,
}
use sttork.DorkWorker.Runtime.Meanwhile.{Meanwhile}
use sttork.DorkWorker.Runtime.Sound.{IsWithin, disposed-IsWithin}
use sttork.DorkWorker.Runtime.Journal.{Keeps, keeps}
use sttork.DorkWorker.Runtime.Journal.Execute.{execute_method-Within}
use sttork.DorkWorker.Runtime.Journal.Methods.{
  Within, Within-catch, run_Within, boot_method-Within, snapshot_method-Within,
  restore_method-Within, inspect_method-Within,
}

module _ (utf8 : Utf8) (m b : ℕ) where
  dispatch-Within : (body : RequestBody) → Within utf8 m b (dispatch utf8 body)
  unfolding dispatch
  dispatch-Within (RequestBody.boot input) = boot_method-Within utf8 m b input
  dispatch-Within (RequestBody.execute input) = execute_method-Within utf8 m b input
  dispatch-Within RequestBody.snapshot = snapshot_method-Within utf8 m b
  dispatch-Within (RequestBody.restore candidate) = restore_method-Within utf8 m b candidate
  dispatch-Within RequestBody.inspect_public_state = inspect_method-Within utf8 m b

  answer-Within : (request : EngineWorkerRequest) → Within utf8 m b (answer utf8 request)
  unfolding answer
  answer-Within request = search (keeps, dispatch-Within) depth 20

  caught-Within :
      (request : EngineWorkerRequest)
      → Within utf8 m b (catch (answer utf8 request) (λ e. ret (error_response e)))
  caught-Within request = search (keeps, Within-catch, answer-Within) depth 10

  after_release :
      (r : Outcome RuntimeError ResponseBody) (s : DorkWorkerRuntime)
      → IsWithin utf8 m b s
      → Ensures Every Meanwhile
          (λ _ s'. IsWithin utf8 m b s')
          (release >>= λ _. Rethrow {R = Reply} Every Meanwhile r)
          s
  unfolding Ensures ◌>>=◌
  after_release (ok body) s w = record {
    journal = w.journal;
    count_limit = w.count_limit;
    byte_limit = w.byte_limit;
  }
  after_release (err e) s w = record {
    journal = w.journal;
    count_limit = w.count_limit;
    byte_limit = w.byte_limit;
  }

  responded :
      (request : EngineWorkerRequest) (r : Outcome RuntimeError ResponseBody)
      (s : DorkWorkerRuntime)
      → IsWithin utf8 m b s
      → Next {R = Reply} Every Meanwhile
          (λ _ s'. IsWithin utf8 m b s')
          (λ body. ret (respond request body))
          r
          s
  unfolding Ensures
  responded request (ok body) s w = w
  responded request (err e) s w = w

  pub exchange-IsWithin :
      (request : EngineWorkerRequest) (s : DorkWorkerRuntime)
      → IsWithin utf8 m b s
      → Ensures Every Meanwhile (λ _ s'. IsWithin utf8 m b s') (exchange utf8 request) s
  unfolding exchange
  exchange-IsWithin request s w = Ensures-state Every Meanwhile _ _ s (
      Ensures-if Every Meanwhile _ s.operation_in_flight _ _ s
        (λ _. Ensures-ret Reply Every Meanwhile _ _ s w)
        (λ _. Ensures-put Every Meanwhile _ _ _ s (
          Ensures-bind Every Meanwhile _ (answered utf8 request) _ _ (
            Ensures-mono Every Meanwhile _ _ (responded request) (answered utf8 request) _ (
              Ensures-finally Every Meanwhile _ _ release _ (
                Ensures-mono Every Meanwhile _ _ after_release _ _ (
                  run_Within utf8 m b _ (caught-Within request) _ (record {
                    journal = w.journal;
                    count_limit = w.count_limit;
                    byte_limit = w.byte_limit;
                  }))))))))

  ended :
      (s : DorkWorkerRuntime)
      → IsWithin utf8 m b s
      → Ensures {R = Reply} Every Meanwhile
          (λ (_ : Outcome RuntimeError (Unit {0})) s'. IsWithin utf8 m b s')
          (modify disposed_state)
          s
  unfolding Ensures
  ended s w = disposed-IsWithin utf8 m b s w

  active-Within : (o : Option ℕ) → Within utf8 m b (dispose_active o)
  unfolding dispose_active Keeps Leads
  active-Within none = search keeps depth 5
  active-Within (some session) = search keeps depth 10

  disposal :
      (c : Method (Unit {0})) (s : DorkWorkerRuntime)
      → Within utf8 m b c
      → IsWithin utf8 m b s
      → Ensures Every Meanwhile (λ _ s'. IsWithin utf8 m b s') (c >>= λ _. modify disposed_state) s
  disposal c s h w =
      Ensures-bind Every Meanwhile _ c _ s
        (Ensures-mono Every Meanwhile _ _ left c s (run_Within utf8 m b c h s w))
    where
      left :
          (r : Outcome RuntimeError (Unit {0})) (s' : DorkWorkerRuntime)
          → IsWithin utf8 m b s'
          → Next {R = Reply} Every Meanwhile
              (λ _ s''. IsWithin utf8 m b s'')
              (λ _. modify disposed_state)
              r
              s'
      left (ok a) s' w' = ended s' w'
      left (err e) s' w' = w'

  pub dispose-IsWithin :
      (s : DorkWorkerRuntime)
      → IsWithin utf8 m b s
      → Ensures Every Meanwhile (λ _ s'. IsWithin utf8 m b s') dispose s
  unfolding dispose
  dispose-IsWithin s w = Ensures-state Every Meanwhile _ _ s (
      Ensures-if Every Meanwhile _ s.disposed _ _ s
        (λ _. Ensures-ret Reply Every Meanwhile _ tt s w)
        (λ _. disposal (dispose_active s.session) s (active-Within s.session) w))
