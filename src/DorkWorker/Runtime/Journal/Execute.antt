-- ===== src/DorkWorker/Runtime/Journal/Execute.antt =====
-- An execute request keeps the receipt journal within its limits.
use sttork.Base.{ℕ, ◌≡◌, refl, Option, none, some}
use sttork.Async.{◌>>=◌, state}
use sttork.Async.Rules.{Ensures, Ensures-lift, Ensures-put, Ensures-state, Ensures-ret}
use sttork.Async.Keeps.{Every, Leads, Leads-state}
use sttork.Contracts.Engine.{ExecuteRequest, ExecuteResult, PublicEngineState, Rejection}
use sttork.DorkWorker.Snapshot.Format.{Utf8, WorkerSnapshotReceipt}
use sttork.DorkWorker.Runtime.State.{
  DorkWorkerRuntime, Reply, RuntimeError, Method, Executed, turn, over_limit, threw,
}
use sttork.DorkWorker.Runtime.Receipts.{find, receipt_of, record_receipt}
use sttork.DorkWorker.Runtime.Execute.{
  execute_method, execute_in, execute_found, execute_new, run_command, after_execute, reject,
  record_result, repeated,
}
use sttork.DorkWorker.Runtime.Meanwhile.{Meanwhile}
use sttork.DorkWorker.Runtime.Sound.{
  IsWithin, record_receipt-IsWithin, Meanwhile-IsWithin, Meanwhile-find,
}
use sttork.DorkWorker.Runtime.Journal.{Keeps, keeps}

module _ (utf8 : Utf8) (m b : ℕ) (input : ExecuteRequest) where
  -- The request's identity has no receipt.
  abbrev IsFresh : DorkWorkerRuntime → Type 0
  IsFresh s = IsWithin utf8 m b s × (find input.request_id s.receipts ≡ none)

  IsFresh-stable : (s s' : DorkWorkerRuntime) → IsFresh s → Meanwhile s s' → IsFresh s'
  IsFresh-stable s s' (w, f) o =
      (Meanwhile-IsWithin utf8 m b s s' w o, Meanwhile-find utf8 input.request_id s s' f o)

  IsFresh-enough : (s : DorkWorkerRuntime) → IsFresh s → IsWithin utf8 m b s
  IsFresh-enough s (w, f) = w

  abbrev Fresh : {A : Type 0} → Method A → Type 0
  Fresh p = Keeps utf8 m b IsFresh IsFresh-stable IsFresh-enough p

  record_result-ends :
      (result : ExecuteResult) (s : DorkWorkerRuntime)
      → IsFresh s
      → Ensures Every Meanwhile (λ _ s'. IsWithin utf8 m b s') (record_result utf8 input result) s
  unfolding record_result
  record_result-ends result s (w, f) = Ensures-state Every Meanwhile _ _ s (
      Ensures-lift Every Meanwhile _ (record_receipt utf8 (receipt_of input result) s) _ s
        (λ next e. Ensures-put Every Meanwhile _ next _ s (
          Ensures-ret Reply Every Meanwhile _ _ next
            (record_receipt-IsWithin utf8 m b (receipt_of input result) s next w f e)))
        (λ _ _. w))

  record_result-Fresh : (result : ExecuteResult) → Fresh (record_result utf8 input result)
  unfolding Keeps Leads
  record_result-Fresh result = record_result-ends result

  reject-Fresh :
      (seen : PublicEngineState) (rejection : Rejection) → Fresh (reject utf8 input seen rejection)
  unfolding reject
  reject-Fresh seen rejection = search (keeps, record_result-Fresh) depth 20

  after_execute-Fresh :
      (session : ℕ) (seen : PublicEngineState) (executed : Executed)
      → Fresh (after_execute utf8 session input seen executed)
  unfolding after_execute
  after_execute-Fresh session seen threw = search keeps depth 20
  after_execute-Fresh session seen over_limit = search (keeps, record_result-Fresh) depth 20
  after_execute-Fresh session seen (turn t) = search (keeps, record_result-Fresh) depth 20

  run_command-Fresh :
      (session : ℕ) (seen : PublicEngineState) → Fresh (run_command utf8 session input seen)
  unfolding run_command
  run_command-Fresh session seen = search (keeps, after_execute-Fresh) depth 20

  execute_new-Fresh : (session : ℕ) → Fresh (execute_new utf8 session input)
  unfolding execute_new
  execute_new-Fresh session = search (keeps, run_command-Fresh, reject-Fresh) depth 30

  abbrev Within : {A : Type 0} → Method A → Type 0
  Within p = Keeps utf8 m b (IsWithin utf8 m b) (Meanwhile-IsWithin utf8 m b) (λ _ w. w) p

  repeated-Within :
      (session : ℕ) (existing : WorkerSnapshotReceipt)
      → Within (repeated utf8 session input existing)
  unfolding repeated
  repeated-Within session existing = search keeps depth 20

  found-Within :
      (session : ℕ) (o : Option WorkerSnapshotReceipt) (s : DorkWorkerRuntime)
      → find input.request_id s.receipts ≡ o
      → IsWithin utf8 m b s
      → Ensures Every Meanwhile
          (λ _ s'. IsWithin utf8 m b s')
          (execute_found utf8 session input o)
          s
  unfolding execute_found Keeps Leads
  found-Within session none s f w = execute_new-Fresh session s (w, f)
  found-Within session (some existing) s f w = repeated-Within session existing s w

  state_found-Within :
      (session : ℕ)
      → Within
          (state >>= λ now. execute_found utf8 session input (find input.request_id now.receipts))
  unfolding Keeps
  state_found-Within session =
      Leads-state RuntimeError Reply Meanwhile _ _ (Meanwhile-IsWithin utf8 m b) (λ _ w. w) _
        (λ s w. found-Within session (find input.request_id s.receipts) s refl w)

  in-Within : (o : Option ℕ) → Within (execute_in utf8 o input)
  unfolding execute_in
  in-Within none = search keeps depth 5
  in-Within (some session) = search (keeps, state_found-Within) depth 20

  pub execute_method-Within : Within (execute_method utf8 input)
  unfolding execute_method
  execute_method-Within = search (keeps, in-Within) depth 10
