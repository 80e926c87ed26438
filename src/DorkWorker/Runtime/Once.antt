-- ===== src/DorkWorker/Runtime/Once.antt =====
-- An execute message runs at most once.
use sttork.Base.{ℕ, ◌≡◌, ◌≢◌, refl, sym, subst, true, false, inl, inr, arith, [], some}
use sttork.Base.Text.{Text}
use sttork.Base.Outcome.{Outcome, ok, err}
use sttork.Async.{World, run, ret, catch, ◌>>=◌}
use sttork.Async.Rules.{
  Ensures, Ensures-bind, Ensures-state, Ensures-if, Ensures-put, Ensures-ret, Ensures-finally,
  Ensures-catch, Ensures-mono, Ensures-lift, Ensures-run, Handled, Next, Rethrow,
}
use sttork.Contracts.Engine.{ExecuteRequest, ExecuteResult, rejected, duplicate, receipt_capacity}
use sttork.GameEngine.Protocol.{
  EngineWorkerRequest, EngineWorkerResponse, ResponseBody, execute_result,
}
use sttork.DorkWorker.Snapshot.Format.{Utf8}
use sttork.DorkWorker.Runtime.State.{DorkWorkerRuntime, Call, Reply, RuntimeError}
use sttork.DorkWorker.Runtime.Checks.{require_bounded_id}
use sttork.DorkWorker.Runtime.Receipts.{find, receipt_of}
use sttork.DorkWorker.Runtime.Exchange.{
  exchange, answer, answered, dispatch, respond, error_response, release,
}
use sttork.DorkWorker.Runtime.Meanwhile.{Meanwhile, Anything}
use sttork.DorkWorker.Runtime.Recorded.{
  IsRecorded, recorded, refused, failed, thrown, execute_method-IsRecorded,
}
use sttork.DorkWorker.Runtime.Repeats.{execute_message, IsReady, IsAdmitted, exchange-replays}

released :
    {input : ExecuteRequest} {r : Outcome RuntimeError ResponseBody} (s : DorkWorkerRuntime)
    → IsRecorded input r s
    → IsRecorded input r (record s { operation_in_flight = false })
released s (recorded result e f) = recorded result e f
released s (refused result e f) = refused result e f
released s (failed code message e) = failed code message e
released s (thrown x e) = thrown x e

module _ (utf8 : Utf8) (message_id : Text) (input : ExecuteRequest) where
  abbrev request : EngineWorkerRequest
  request = execute_message message_id input

  -- The body of the response, and how it was recorded.
  abbrev pub IsReplied : Outcome RuntimeError EngineWorkerResponse → DorkWorkerRuntime → Type 0
  IsReplied r s =
      (body : ResponseBody) × (r ≡ ok (respond request body)) × IsRecorded input (ok body) s

  answer-IsRecorded :
      (s : DorkWorkerRuntime)
      → Ensures Anything Meanwhile (IsRecorded input) (answer utf8 request) s
  unfolding answer dispatch
  answer-IsRecorded s = Ensures-state Anything Meanwhile _ _ s (
      Ensures-if Anything Meanwhile _ s.disposed _ _ s
        (λ _. Ensures-ret Reply Anything Meanwhile _ _ s (failed _ _ refl))
        (λ _.
          Ensures-lift Anything Meanwhile _ (require_bounded_id utf8 message_id) _ s
            (λ _ _. execute_method-IsRecorded utf8 input s) (λ e _. thrown e refl)))

  after_answer :
      (r : Outcome RuntimeError ResponseBody) (s : DorkWorkerRuntime)
      → IsRecorded input r s
      → Handled {R = Reply} Anything Meanwhile
          (λ o s'.
            Ensures Anything Meanwhile
              (λ o' s''. (body : ResponseBody) × (o' ≡ ok body) × IsRecorded input (ok body) s'')
              (release >>= λ _. Rethrow Anything Meanwhile o)
              s')
          (λ e. ret (error_response e))
          r
          s
  unfolding Ensures ◌>>=◌ error_response
  after_answer (ok body) s h = (body, refl, released s h)
  after_answer (err RuntimeError.invalid_request_error) s h = (_, refl, failed _ _ refl)
  after_answer (err RuntimeError.failure) s h = (_, refl, failed _ _ refl)

  responded :
      (r : Outcome RuntimeError ResponseBody) (s : DorkWorkerRuntime)
      → (body : ResponseBody) × (r ≡ ok body) × IsRecorded input (ok body) s
      → Next {R = Reply} Anything Meanwhile IsReplied (λ body. ret (respond request body)) r s
  unfolding Ensures
  responded (ok body) s (b, e, h) = (
    body,
    refl,
    subst (λ (x : ResponseBody). IsRecorded input (ok x) s) (sym (ground (arith, e))) h,
  )
  responded (err x) s (b, e, h) = absurd (ground (arith, e))

  -- On a free runtime an execute message is answered with a result whose receipt the runtime then
  -- holds, with a rejection for a duplicate or for want of room, or with an error.
  pub exchange-IsReplied :
      (s : DorkWorkerRuntime)
      → s.operation_in_flight ≡ false
      → Ensures Anything Meanwhile IsReplied (exchange utf8 request) s
  unfolding exchange
  exchange-IsReplied s free = Ensures-state Anything Meanwhile _ _ s (
      Ensures-if Anything Meanwhile _ s.operation_in_flight _ _ s (λ busy. absurd (bad busy))
        λ _. Ensures-put Anything Meanwhile _ _ _ s (
          Ensures-bind Anything Meanwhile _ (answered utf8 request) _ _ (
            Ensures-mono Anything Meanwhile _ _ responded (answered utf8 request) _ (
              Ensures-finally Anything Meanwhile _ (catch (answer utf8 request) _) release _ (
                Ensures-catch Anything Meanwhile _ (answer utf8 request)
                  (λ e. ret (error_response e)) _
                  (Ensures-mono Anything Meanwhile _ _ after_answer (answer utf8 request) _
                    (answer-IsRecorded _)))))))
    where
      bad : s.operation_in_flight ≡ true → ⊥
      bad busy = ground (arith, busy, free)

found_receipt :
    (input : ExecuteRequest) (result : ExecuteResult) (r : Outcome RuntimeError ResponseBody)
    (s : DorkWorkerRuntime)
    → IsRecorded input r s
    → r ≡ ok (execute_result result)
    → result.status ≢ rejected duplicate
    → result.status ≢ rejected receipt_capacity
    → find input.request_id s.receipts ≡ some (receipt_of input result)
found_receipt input result r s (recorded other e f) h d c = ground (arith, e, f, h)
found_receipt input result r s (refused other e (inl x)) h d c =
    absurd (d (ground (arith, e, x, h)))
found_receipt input result r s (refused other e (inr x)) h d c =
    absurd (c (ground (arith, e, x, h)))
found_receipt input result r s (failed code message e) h d c = ground (arith, e, h)
found_receipt input result r s (thrown x e) h d c = ground (arith, e, h)

-- When a free runtime has answered an execute request with a result, but not with a rejection as a
-- duplicate or for want of room, then the same request under any message identity that passes its
-- checks, sent to the runtime as the first left it if that is still booted, is answered with that
-- very result, whatever the world then is: the session is not called and nothing changes.
pub exchange-twice :
    (utf8 : Utf8) (w w' : World DorkWorkerRuntime Call Reply) (n n' session : ℕ)
    (s : DorkWorkerRuntime) (first second : Text) (input : ExecuteRequest) (result : ExecuteResult)
    → ((m : ℕ) (t : DorkWorkerRuntime) → Meanwhile t (w.meanwhile m t))
    → s.operation_in_flight ≡ false
    → (run w n s (exchange utf8 (execute_message first input))).outcome
      ≡ ok (respond (execute_message first input) (execute_result result))
    → result.status ≢ rejected duplicate
    → result.status ≢ rejected receipt_capacity
    → IsReady (run w n s (exchange utf8 (execute_message first input))).final session
    → IsAdmitted utf8 second input
    → run w' n'
        (run w n s (exchange utf8 (execute_message first input))).final
        (exchange utf8 (execute_message second input))
      ≡ record {
        outcome = ok (respond (execute_message second input) (execute_result result));
        final = (run w n s (exchange utf8 (execute_message first input))).final;
        calls = [];
      }
exchange-twice utf8 w w' n n' session s first second input result keeps free h d c ready admitted =
    let done = (run w n s (exchange utf8 (execute_message first input))).final in
    let (body, e, on_record) =
      Ensures-run Anything Meanwhile w keeps (IsReplied utf8 first input)
        (exchange utf8 (execute_message first input)) n s
        (exchange-IsReplied utf8 first input s free) in
    exchange-replays utf8 w' n' session done second input result ready admitted
      (found_receipt input result (ok body) done on_record (ground (arith, e, h)) d c)
