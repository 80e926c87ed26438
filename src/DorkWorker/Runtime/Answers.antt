-- ===== src/DorkWorker/Runtime/Answers.antt =====
-- Every message is answered, and the runtime is free again.
use sttork.Base.{◌≡◌, refl, true, false, arith}
use sttork.Base.Outcome.{Outcome, ok, err}
use sttork.Async.{ret, catch, ◌>>=◌}
use sttork.Async.Rules.{
  Ensures, Ensures-bind, Ensures-state, Ensures-if, Ensures-put, Ensures-finally, Ensures-catch,
  Ensures-mono, Rethrow, Ensures-any, Handled, Next,
}
use sttork.GameEngine.Protocol.{EngineWorkerRequest, EngineWorkerResponse, ResponseBody}
use sttork.DorkWorker.Snapshot.Format.{Utf8}
use sttork.DorkWorker.Runtime.State.{DorkWorkerRuntime, Reply, RuntimeError}
use sttork.DorkWorker.Runtime.Exchange.{
  exchange, answer, answered, respond, error_response, release,
}
use sttork.DorkWorker.Runtime.Meanwhile.{Meanwhile, Anything}

-- The response to a message: its version and identity, and a runtime that is free.
pub data IsAnswered (request : EngineWorkerRequest)
    : Outcome RuntimeError EngineWorkerResponse → DorkWorkerRuntime → Type 0 where
  is_answered :
      {r : Outcome RuntimeError EngineWorkerResponse} {s : DorkWorkerRuntime}
      (response : EngineWorkerResponse)
      → r ≡ ok response
      → response.protocol_version ≡ 1
      → response.message_id ≡ request.message_id
      → s.operation_in_flight ≡ false
      → IsAnswered request r s

-- The part between setting the flag and clearing it gives a body, and clears the flag.
abbrev IsReleased : Outcome RuntimeError ResponseBody → DorkWorkerRuntime → Type 0
IsReleased r s = ((body : ResponseBody) × (r ≡ ok body)) × (s.operation_in_flight ≡ false)

after_answer :
    (r : Outcome RuntimeError ResponseBody) (s : DorkWorkerRuntime)
    → Handled {R = Reply} Anything Meanwhile
        (λ o s'.
          Ensures Anything Meanwhile IsReleased (release >>= λ _. Rethrow Anything Meanwhile o) s')
        (λ e. ret (error_response e))
        r
        s
unfolding Ensures ◌>>=◌
after_answer (ok body) s = ((body, refl), refl)
after_answer (err e) s = ((error_response e, refl), refl)

answered-IsReleased :
    (utf8 : Utf8) (request : EngineWorkerRequest) (s : DorkWorkerRuntime)
    → Ensures Anything Meanwhile IsReleased (answered utf8 request) s
answered-IsReleased utf8 request s =
    Ensures-finally Anything Meanwhile IsReleased (catch (answer utf8 request) _) release s (
      Ensures-catch Anything Meanwhile _ (answer utf8 request) (λ e. ret (error_response e)) s
        (Ensures-any Anything Meanwhile _ (λ _ _. tt) after_answer (answer utf8 request) s))

responded :
    (request : EngineWorkerRequest) (r : Outcome RuntimeError ResponseBody) (s : DorkWorkerRuntime)
    → IsReleased r s
    → Next {R = Reply} Anything Meanwhile
        (IsAnswered request)
        (λ body. ret (respond request body))
        r
        s
unfolding Ensures
responded request (ok body) s (b, free) = is_answered (respond request body) refl refl refl free
responded request (err e) s ((body, bad), free) = absurd (ground (arith, bad))

-- A message that comes while the runtime is free is answered, with its own identity and the
-- protocol's version, and leaves the runtime free, whatever the session answers, whatever throws
-- and whenever the runtime is disposed of in the meantime: `exchange` itself never throws.
pub exchange-IsAnswered :
    (utf8 : Utf8) (request : EngineWorkerRequest) (s : DorkWorkerRuntime)
    → s.operation_in_flight ≡ false
    → Ensures Anything Meanwhile (IsAnswered request) (exchange utf8 request) s
unfolding exchange
exchange-IsAnswered utf8 request s free = Ensures-state Anything Meanwhile _ _ s (
    Ensures-if Anything Meanwhile _ s.operation_in_flight _ _ s (λ busy. absurd (bad busy))
      λ _. Ensures-put Anything Meanwhile _ _ _ s (
        Ensures-bind Anything Meanwhile _ (answered utf8 request) _ _ (
          Ensures-mono Anything Meanwhile IsReleased _ (responded request) (answered utf8 request) _
            (answered-IsReleased utf8 request _))))
  where
    bad : s.operation_in_flight ≡ true → ⊥
    bad busy = ground (arith, busy, free)
