-- ===== src/DorkWorker/Runtime/Recorded.antt =====
-- What an execute request is answered is on record.
use sttork.Base.{
  ℕ, ◌≡◌, refl, Bool, ◌⊎◌, inl, inr, arith, List, [], ◌∷◌, Option, none, some, not, if◌then◌else◌,
  ◌==◌,
}
use sttork.Base.Text.{Text, Text-discrete}
use sttork.Base.Outcome.{Outcome, ok, err}
use sttork.Async.{ret, throw, ◌>>=◌, state}
use sttork.Async.Rules.{
  Ensures, Ensures-state, Ensures-if, Ensures-put, Ensures-ret, Ensures-throw, Ensures-lift,
  Ensures-after,
}
use sttork.Contracts.Engine.{
  ExecuteRequest, ExecuteResult, rejected, Rejection, duplicate, receipt_capacity, invalid_command,
  stale_revision, PublicEngineState, terminated, max_safe_integer,
}
use sttork.GameEngine.Protocol.{ResponseBody, ErrorCode, execute_result, error}
use sttork.DorkWorker.Snapshot.Format.{Utf8, WorkerSnapshotReceipt}
use sttork.DorkWorker.Snapshot.Relative.{same_boundary}
use sttork.DorkWorker.Runtime.State.{
  DorkWorkerRuntime, Reply, RuntimeError, failure, Method, inspect, Executed, turn, over_limit,
  threw,
}
use sttork.DorkWorker.Runtime.Receipts.{find, set, receipt_of, record_receipt, committed_result}
use sttork.DorkWorker.Runtime.Execute.{
  execute_method, execute_in, execute_found, repeated, execute_new, run_command, after_execute,
  record_result, reject, rejection_of, is_canonical, is_consistent,
}
use sttork.DorkWorker.Runtime.Meanwhile.{Meanwhile, Anything}

-- How a request was answered, and the receipt that is left.
pub data IsRecorded (input : ExecuteRequest)
    : Outcome RuntimeError ResponseBody → DorkWorkerRuntime → Type 0 where
  -- with a result, whose receipt is there
  recorded :
      {r : Outcome RuntimeError ResponseBody} {s : DorkWorkerRuntime} (result : ExecuteResult)
      → r ≡ ok (execute_result result)
      → find input.request_id s.receipts ≡ some (receipt_of input result)
      → IsRecorded input r s
  -- with a rejection that is never recorded
  refused :
      {r : Outcome RuntimeError ResponseBody} {s : DorkWorkerRuntime} (result : ExecuteResult)
      → r ≡ ok (execute_result result)
      → (result.status ≡ rejected duplicate) ⊎ (result.status ≡ rejected receipt_capacity)
      → IsRecorded input r s
  -- with an error
  failed :
      {r : Outcome RuntimeError ResponseBody} {s : DorkWorkerRuntime} (code : ErrorCode)
      (message : Text)
      → r ≡ ok (error code message)
      → IsRecorded input r s
  thrown :
      {r : Outcome RuntimeError ResponseBody} {s : DorkWorkerRuntime} (e : RuntimeError)
      → r ≡ err e
      → IsRecorded input r s

find-set :
    (stored : WorkerSnapshotReceipt) (receipts : List WorkerSnapshotReceipt)
    → find stored.request_id (set stored receipts) ≡ some stored
unfolding find set Text-discrete
find-set stored [] = ground arith
find-set stored (receipt ∷ receipts) = ground (arith, find-set stored receipts)

pub record_receipt-find :
    (utf8 : Utf8) (stored : WorkerSnapshotReceipt) (s next : DorkWorkerRuntime)
    → record_receipt utf8 stored s ≡ ok next
    → find stored.request_id next.receipts ≡ some stored
unfolding record_receipt
record_receipt-find utf8 stored s next h = ground (arith, find-set stored s.receipts)

-- What `find` gives has the identity that was looked for.
find-same :
    (id : Text) (receipts : List WorkerSnapshotReceipt) (r : WorkerSnapshotReceipt)
    → find id receipts ≡ some r
    → r.request_id ≡ id
unfolding find Text-discrete
find-same id [] r h = ground arith
find-same id (receipt ∷ receipts) r h = ground (arith, find-same id receipts r)

module _ (utf8 : Utf8) (input : ExecuteRequest) where
  unfoldable Records : Method ResponseBody → DorkWorkerRuntime → Type 0
  Records = Ensures Anything Meanwhile (IsRecorded input)

  record_result-Records :
      (result : ExecuteResult) (s : DorkWorkerRuntime) → Records (record_result utf8 input result) s
  unfolding record_result Records
  record_result-Records result s = Ensures-state Anything Meanwhile _ _ s (
      Ensures-lift Anything Meanwhile _ (record_receipt utf8 (receipt_of input result) s) _ s
        (λ next e. Ensures-put Anything Meanwhile _ next _ s (
          Ensures-ret Reply Anything Meanwhile _ (execute_result result) next
            (recorded result refl (record_receipt-find utf8 (receipt_of input result) s next e))))
        (λ e _. thrown e refl))

  throw-Records : (e : RuntimeError) (s : DorkWorkerRuntime) → Records (throw e) s
  unfolding Records
  throw-Records e s = Ensures-throw Reply Anything Meanwhile _ e s (thrown e refl)

  full-Records :
      (seen : PublicEngineState) (s : DorkWorkerRuntime)
      → Records (ret (execute_result (rejection_of input seen receipt_capacity))) s
  unfolding Records
  full-Records seen s =
      Ensures-ret Reply Anything Meanwhile _ _ s
        (refused (rejection_of input seen receipt_capacity) refl (inr refl))

  error-Records :
      (code : ErrorCode) (message : Text) (s : DorkWorkerRuntime)
      → Records (ret (error code message)) s
  unfolding Records
  error-Records code message s =
      Ensures-ret Reply Anything Meanwhile _ _ s (failed code message refl)

  -- After a part that reads or waits.
  then_Records :
      {A : Type 0} (m : Method A) (f : A → Method ResponseBody) (s : DorkWorkerRuntime)
      → ((a : A) (s' : DorkWorkerRuntime) → Records (f a) s')
      → Records (m >>= f) s
  unfolding Records
  then_Records m f s h =
      Ensures-after Anything Meanwhile (IsRecorded input) (λ _ _. tt) (λ e _. thrown e refl) m f s h

  if_Records :
      (b : Bool) (p q : Method ResponseBody) (s : DorkWorkerRuntime)
      → Records p s
      → Records q s
      → Records (if b then p else q) s
  unfolding Records
  if_Records b p q s yes' no' =
      Ensures-if Anything Meanwhile (IsRecorded input) b p q s (λ _. yes') (λ _. no')

  reject-Records :
      (seen : PublicEngineState) (rejection : Rejection) (s : DorkWorkerRuntime)
      → Records (reject utf8 input seen rejection) s
  unfolding reject
  reject-Records seen rejection s = then_Records _ _ s λ now s1. then_Records _ _ s1 λ fits s2.
      if_Records fits _ _ s2 (record_result-Records (rejection_of input seen rejection) s2)
        (full-Records seen s2)

  after_execute-Records :
      (session : ℕ) (seen : PublicEngineState) (executed : Executed) (s : DorkWorkerRuntime)
      → Records (after_execute utf8 session input seen executed) s
  unfolding after_execute
  after_execute-Records session seen threw s = throw-Records _ s
  after_execute-Records session seen over_limit s = then_Records _ _ s λ current s1.
      then_Records _ _ s1 λ now s2. then_Records _ _ s2 λ fits s3.
        if_Records fits _ _ s3
          (record_result-Records (rejection_of input current invalid_command) s3)
          (throw-Records failure s3)
  after_execute-Records session seen (turn t) s = then_Records _ _ s λ after s1.
      if_Records (is_consistent seen t after) _ _ s1
        (record_result-Records
          (committed_result input.request_id seen.revision after.revision input.command t.output
            t.boundary)
          s1)
        (throw-Records failure s1)

  run_command-Records :
      (session : ℕ) (seen : PublicEngineState) (s : DorkWorkerRuntime)
      → Records (run_command utf8 session input seen) s
  unfolding run_command
  run_command-Records session seen s = then_Records _ _ s λ now s1. then_Records _ _ s1 λ fits s2.
      if_Records fits _ _ s2
        (then_Records _ _ s2 λ executed s3. after_execute-Records session seen executed s3)
        (full-Records seen s2)

  execute_new-Records :
      (session : ℕ) (s : DorkWorkerRuntime) → Records (execute_new utf8 session input) s
  unfolding execute_new
  execute_new-Records session s = then_Records _ _ s λ seen s1.
      if_Records (not (is_canonical input.command)) _ _ s1 (error-Records _ _ s1) (
        if_Records (same_boundary seen.boundary terminated) _ _ s1
          (reject-Records seen invalid_command s1)
          (if_Records (not (input.expected_revision == seen.revision)) _ _ s1
            (reject-Records seen stale_revision s1)
            (if_Records (seen.revision == max_safe_integer) _ _ s1 (throw-Records failure s1)
              (run_command-Records session seen s1))))

  repeated-Records :
      (session : ℕ) (existing : WorkerSnapshotReceipt) (s : DorkWorkerRuntime)
      → find input.request_id s.receipts ≡ some existing
      → Records (repeated utf8 session input existing) s
  unfolding repeated Records Text-discrete
  repeated-Records session existing s h =
      Ensures-if Anything Meanwhile _ _ _ _ s
        (λ same. Ensures-ret Reply Anything Meanwhile _ _ s (
          recorded existing.result refl
            (ground (arith, same, find-same input.request_id s.receipts existing h))))
        (λ _.
          Ensures-after Anything Meanwhile _ (λ _ _. tt) (λ e _. thrown e refl) (inspect session) _
            s
            λ seen s1.
              Ensures-ret Reply Anything Meanwhile _ _ s1
                (refused (rejection_of input seen duplicate) refl (inl refl)))

  found-Records :
      (session : ℕ) (o : Option WorkerSnapshotReceipt) (s : DorkWorkerRuntime)
      → find input.request_id s.receipts ≡ o
      → Records (execute_found utf8 session input o) s
  unfolding execute_found
  found-Records session none s h = execute_new-Records session s
  found-Records session (some existing) s h = repeated-Records session existing s h

  state_found :
      (session : ℕ) (s : DorkWorkerRuntime)
      → Records
          (state >>= λ now. execute_found utf8 session input (find input.request_id now.receipts))
          s
  unfolding Records
  state_found session s =
      Ensures-state Anything Meanwhile _ _ s
        (found-Records session (find input.request_id s.receipts) s refl)

  in-Records : (o : Option ℕ) (s : DorkWorkerRuntime) → Records (execute_in utf8 o input) s
  unfolding execute_in
  in-Records none s = error-Records _ _ s
  in-Records (some session) s =
      then_Records _ _ s λ _ s1. then_Records _ _ s1 λ _ s2. state_found session s2

  pub execute_method-IsRecorded :
      (s : DorkWorkerRuntime)
      → Ensures Anything Meanwhile (IsRecorded input) (execute_method utf8 input) s
  unfolding execute_method Records
  execute_method-IsRecorded s = Ensures-state Anything Meanwhile _ _ s (in-Records s.session s)
