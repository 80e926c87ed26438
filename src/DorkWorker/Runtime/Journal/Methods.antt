-- ===== src/DorkWorker/Runtime/Journal/Methods.antt =====
-- The other methods keep the receipt journal within its limits.
use sttork.Base.{ℕ, Option, none, some, Bool, true, not, ◌||◌, ◌==◌, List, if◌then◌else◌}
use sttork.Base.Text.{Text}
use sttork.Async.{◌>>=◌, state, ret, throw, put, ask, await, lift, catch}
use sttork.Async.Rules.{Ensures, Ensures-lift, Ensures-put, Ensures-if, Ensures-throw}
use sttork.Async.Keeps.{Every, Leads, Leads-state, Leads-catch}
use sttork.Contracts.Engine.{
  BootRequest, EngineSnapshot, Compatibility, PublicEngineState, restored,
}
use sttork.GameEngine.Protocol.{ResponseBody, boot_result}
use sttork.DorkWorker.Snapshot.Format.{Utf8, WorkerSnapshotReceipt, WorkerSnapshotEnvelope}
use sttork.DorkWorker.Runtime.State.{
  DorkWorkerRuntime, DorkTurn, Reply, RuntimeError, failure, Method, dispose_session,
  restore_session, or_failed,
}
use sttork.DorkWorker.Runtime.Operations.{
  create_compatibility, give_up, boot_candidate, boot_new, boot_in, boot_method, save, snapshot_in,
  snapshot_method, inspect_in, inspect_method,
}
use sttork.DorkWorker.Runtime.Restore.{
  take_over, restore_response, swap, stage, load, restore_from, restore_in, restore_method,
  check_snapshot,
}
use sttork.DorkWorker.Runtime.Receipts.{validate_restored_receipts}
use sttork.DorkWorker.Runtime.Meanwhile.{Meanwhile}
use sttork.DorkWorker.Runtime.Sound.{
  IsJournal, IsWithin, Meanwhile-IsWithin, validate_restored_receipts-IsJournal,
}
use sttork.DorkWorker.Runtime.Journal.{Keeps, Keeps-ret, keeps}

module _ (utf8 : Utf8) (m b : ℕ) where
  abbrev pub Within : {A : Type 0} → Method A → Type 0
  Within p = Keeps utf8 m b (IsWithin utf8 m b) (Meanwhile-IsWithin utf8 m b) (λ _ w. w) p

  -- A read of the state, then a part that is shown for each state.
  Within-state :
      {A : Type 0} (k : DorkWorkerRuntime → Method A)
      → ((s : DorkWorkerRuntime)
          → IsWithin utf8 m b s
          → Ensures Every Meanwhile (λ _ s'. IsWithin utf8 m b s') (k s) s)
      → Within (state >>= k)
  unfolding Keeps
  Within-state k h =
      Leads-state RuntimeError Reply Meanwhile _ _ (Meanwhile-IsWithin utf8 m b) (λ _ w. w) k h

  pub Within-catch :
      {A : Type 0} (p : Method A) (h : RuntimeError → Method A)
      → Within p
      → ((e : RuntimeError) → Within (h e))
      → Within (catch p h)
  unfolding Keeps
  Within-catch p h hp hh = Leads-catch RuntimeError Reply Meanwhile _ _ p h hp hh

  give_up-Within :
      (A : Type 0) (candidate : ℕ) (e : RuntimeError) → Within {A = A} (give_up candidate e)
  unfolding give_up
  give_up-Within A candidate e = search keeps depth 10

  pub run_Within :
      {A : Type 0} (p : Method A)
      → Within p
      → (s : DorkWorkerRuntime) → IsWithin utf8 m b s
      → Ensures Every Meanwhile (λ _ s'. IsWithin utf8 m b s') p s
  unfolding Keeps Leads
  run_Within p h s w = h s w

  -- The state is taken over, unless a test forbids it.
  Within-take :
      {A : Type 0} (test : DorkWorkerRuntime → Bool) (f : DorkWorkerRuntime → DorkWorkerRuntime)
      (rest : DorkWorkerRuntime → Method A)
      → ((s : DorkWorkerRuntime) → IsWithin utf8 m b s → IsWithin utf8 m b (f s))
      → ((s : DorkWorkerRuntime) → Within (rest s))
      → Within (state >>= λ now. if test now then throw failure else put (f now) (rest now))
  Within-take test f rest hf hr = Within-state _ λ s w.
      Ensures-if Every Meanwhile _ (test s) _ _ s
        (λ _. Ensures-throw Reply Every Meanwhile _ failure s w)
        (λ _. Ensures-put Every Meanwhile _ (f s) _ s (run_Within (rest s) (hr s) (f s) (hf s w)))

  boot_taken-Within :
      (epoch candidate : ℕ) (digest : Text) (turn : DorkTurn)
      → Within (
          state >>= λ now.
          if now.disposed || not (now.lifecycle_epoch == epoch)
          then throw failure
          else put
              (record now {
                session = some candidate;
                compatibility = some (create_compatibility now digest);
              })
              (ret (
                boot_result (record {
                  revision = 0;
                  output = turn.output;
                  turn_complete = true;
                  boundary = turn.boundary;
                  compatibility = create_compatibility now digest;
                }))))
  boot_taken-Within epoch candidate digest turn =
      Within-take _ _ _
        (λ s w. record {
          journal = w.journal;
          count_limit = w.count_limit;
          byte_limit = w.byte_limit;
        })
        (λ s. Keeps-ret utf8 m b _ _ _ _)

  boot_candidate-Within :
      (epoch : ℕ) (digest : Text) (candidate : ℕ) → Within (boot_candidate epoch digest candidate)
  unfolding boot_candidate
  boot_candidate-Within epoch digest candidate = search (keeps, boot_taken-Within) depth 10

  boot_new-Within : (input : BootRequest) → Within (boot_new utf8 input)
  unfolding boot_new
  boot_new-Within input =
      search (keeps, Within-catch, boot_candidate-Within, give_up-Within) depth 30

  boot_in-Within : (input : BootRequest) (o : Option ℕ) → Within (boot_in utf8 input o)
  unfolding boot_in
  boot_in-Within input none = boot_new-Within input
  boot_in-Within input (some session) = search keeps depth 5

  pub boot_method-Within : (input : BootRequest) → Within (boot_method utf8 input)
  unfolding boot_method
  boot_method-Within input = search (keeps, boot_in-Within) depth 10

  save-Within :
      (session : ℕ) (compatibility : Compatibility) → Within (save utf8 session compatibility)
  unfolding save
  save-Within session compatibility = search keeps depth 30

  snapshot_in-Within : (o : Option ℕ) (c : Option Compatibility) → Within (snapshot_in utf8 o c)
  unfolding snapshot_in
  snapshot_in-Within none c = search keeps depth 5
  snapshot_in-Within (some session) none = search keeps depth 5
  snapshot_in-Within (some session) (some compatibility) = save-Within session compatibility

  pub snapshot_method-Within : Within (snapshot_method utf8)
  unfolding snapshot_method
  snapshot_method-Within = search (keeps, snapshot_in-Within) depth 10

  inspect_in-Within : (o : Option ℕ) → Within (inspect_in o)
  unfolding inspect_in
  inspect_in-Within none = search keeps depth 5
  inspect_in-Within (some session) = search keeps depth 10

  pub inspect_method-Within : Within inspect_method
  unfolding inspect_method
  inspect_method-Within = search (keeps, inspect_in-Within) depth 10

  disposed_then :
      (session : ℕ) (body : ResponseBody)
      → Within (ask (dispose_session session) ret >>= λ _. ret body)
  disposed_then session body = search keeps depth 10

  take_over-Within :
      (epoch active : ℕ) (seen : PublicEngineState) (r : List WorkerSnapshotReceipt × ℕ)
      (candidate : ℕ)
      → IsJournal utf8 r.0 r.1 m b
      → Within (take_over epoch active seen r candidate)
  unfolding take_over
  take_over-Within epoch active seen r candidate j =
      Within-take _ _ _
        (λ s w. record { journal = j; count_limit = w.count_limit; byte_limit = w.byte_limit })
        (λ s. disposed_then active (restore_response restored seen.revision seen.boundary))

  swap-Within :
      (epoch active : ℕ) (envelope : WorkerSnapshotEnvelope) (r : List WorkerSnapshotReceipt × ℕ)
      (candidate : ℕ)
      → IsJournal utf8 r.0 r.1 m b
      → Within (swap epoch active envelope r candidate)
  unfolding swap
  swap-Within epoch active envelope r candidate j = search (keeps, take_over-Within, j) depth 10

  staged :
      (epoch active : ℕ) (envelope : WorkerSnapshotEnvelope) (r : List WorkerSnapshotReceipt × ℕ)
      → IsJournal utf8 r.0 r.1 m b
      → Within (
          await (restore_session envelope.inner_checkpoint) ret >>= λ reply.
          lift (or_failed reply) >>= λ candidate.
          catch (swap epoch active envelope r candidate) (give_up candidate))
  staged epoch active envelope r j =
      search (keeps, Within-catch, swap-Within, give_up-Within, j) depth 20

  stage-Within :
      (active : ℕ) (envelope : WorkerSnapshotEnvelope) → Within (stage utf8 active envelope)
  unfolding stage
  stage-Within active envelope = Within-state _ λ s w.
      Ensures-lift Every Meanwhile _ (validate_restored_receipts utf8 s envelope) _ s
        (λ r e.
          run_Within _
            (staged s.lifecycle_epoch active envelope r
              (validate_restored_receipts-IsJournal utf8 m b s envelope r w e))
            s w)
        (λ _ _. w)

  load-Within :
      (active : ℕ) (seen : PublicEngineState) (candidate : EngineSnapshot)
      → Within (load utf8 active seen candidate)
  unfolding load
  load-Within active seen candidate = search (keeps, stage-Within) depth 20

  restore_from-Within :
      (active : ℕ) (compatibility : Compatibility) (seen : PublicEngineState)
      (candidate : EngineSnapshot)
      → Within (restore_from utf8 active compatibility seen candidate)
  unfolding restore_from
  restore_from-Within active compatibility seen candidate =
      search (keeps, Within-catch, load-Within) depth 20

  restore_in-Within :
      (candidate : EngineSnapshot) (o : Option ℕ) (c : Option Compatibility)
      → Within (restore_in utf8 candidate o c)
  unfolding restore_in check_snapshot
  restore_in-Within candidate none c = search keeps depth 5
  restore_in-Within candidate (some active) none = search keeps depth 5
  restore_in-Within candidate (some active) (some compatibility) =
      search (keeps, restore_from-Within) depth 40

  pub restore_method-Within : (candidate : EngineSnapshot) → Within (restore_method utf8 candidate)
  unfolding restore_method
  restore_method-Within candidate = search (keeps, restore_in-Within) depth 10
