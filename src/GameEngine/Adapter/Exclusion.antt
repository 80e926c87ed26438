-- ===== src/GameEngine/Adapter/Exclusion.antt =====
-- One operation at a time: what a method does that is called while another one waits.
use sttork.Base.{◌≡◌, refl, some}
use sttork.Base.Outcome.{Outcome, ok, err}
use sttork.Async.{ret, ◌>>=◌, lift}
use sttork.Async.Rules.{Ensures, Ensures-bind, Ensures-mono, Next, Ensures-lift, Ensures-state}
use sttork.GameEngine.Protocol.{EngineWorkerRequest, RequestBody}
use sttork.GameEngine.Checks.{AdapterError}
use sttork.GameEngine.Adapter.State.{
  Operation, boot, execute, snapshot, restore, inspect_public_state, Adapter, Call, next_message_id,
  exchange, digest_sha256, Reply,
}
use sttork.GameEngine.Adapter.Guards.{
  admit_boot, admit_execute, admit_snapshot, admit_restore, admit_inspect,
}
use sttork.GameEngine.Adapter.Operations.{
  Method, new_message, begin_operation, boot_method, execute_method, snapshot_method,
  restore_method, inspect_method, Task, boots, executes, snapshots, restores, inspects, perform,
}
use sttork.GameEngine.Adapter.Steps.{Untouched, Meets-new_message, Meets-begin_busy}

-- A call that sends nothing to the worker and computes no digest.
abbrev pub IsLocal : Call → Adapter → Type 0
IsLocal next_message_id s = Unit
IsLocal (exchange _) s = ⊥
IsLocal (digest_sha256 _) s = ⊥

-- The method threw, and the adapter is as it was.
abbrev pub Refused : {A : Type 0} → Adapter → Outcome AdapterError A → Adapter → Type 0
Refused s (ok a) s' = ⊥
Refused s (err e) s' = s' ≡ s

module _ (s : Adapter) (o : Operation) (busy : s.operation_in_flight ≡ some o) where
  -- A message may be numbered before the method is refused, but it is not sent.
  send_busy :
      {A : Type 0} (body : RequestBody) (o' : Operation)
      (k : EngineWorkerRequest → Unit {0} → Method A)
      → Ensures IsLocal Untouched
          (Refused s)
          (new_message body >>= λ message. begin_operation o' >>= k message)
          s
  send_busy body o' k =
      Meets-new_message IsLocal _ body _ s tt
        (λ message _. Meets-begin_busy IsLocal _ o' o _ s busy refl) (λ e. refl)

  guarded_busy :
      {A G : Type 0} (guard : Outcome AdapterError G) (k : G → Method A)
      → ((g : G) → Ensures IsLocal Untouched (Refused s) (k g) s)
      → Ensures IsLocal Untouched (Refused s) (lift guard >>= k) s
  guarded_busy guard k h = Ensures-lift IsLocal Untouched _ guard k s (λ g _. h g) (λ e _. refl)

  discard_busy :
      {A : Type 0} (m : Method A)
      → Ensures IsLocal Untouched (Refused s) m s
      → Ensures IsLocal Untouched (Refused s) (m >>= λ _. ret tt) s
  discard_busy {A} m h =
      Ensures-bind IsLocal Untouched _ m _ s
        (Ensures-mono IsLocal Untouched (Refused s) _ passed m s h)
    where
      passed :
          (r : Outcome AdapterError A) (s' : Adapter)
          → Refused s r s'
          → Next {R = Reply} IsLocal Untouched (Refused s) (λ _. ret tt) r s'
      passed (ok a) s' h = absurd h
      passed (err e) s' same = same

  -- A method called while an operation is in flight throws, sends nothing to the worker, computes
  -- no digest and leaves the adapter as it was.
  pub perform_busy : (t : Task) → Ensures IsLocal Untouched (Refused s) (perform t) s
  unfolding perform boot_method execute_method snapshot_method restore_method inspect_method
  perform_busy (boots input) = discard_busy _ (
      Ensures-state IsLocal Untouched _ _ s
        (guarded_busy (admit_boot s input) _ λ _. send_busy (RequestBody.boot input) boot _))
  perform_busy (executes input aborted) = discard_busy _ (
      Ensures-state IsLocal Untouched _ _ s (
        guarded_busy (admit_execute s input aborted) _
          λ _. send_busy (RequestBody.execute input) execute _))
  perform_busy snapshots = discard_busy _ (
      Ensures-state IsLocal Untouched _ _ s
        (guarded_busy (admit_snapshot s) _ λ _. send_busy RequestBody.snapshot snapshot _))
  perform_busy (restores candidate) = discard_busy _ (
      Ensures-state IsLocal Untouched _ _ s
        (guarded_busy (admit_restore s) _ λ _. Meets-begin_busy IsLocal _ restore o _ s busy refl))
  perform_busy inspects = discard_busy _ (
      Ensures-state IsLocal Untouched _ _ s (
        guarded_busy (admit_inspect s) _
          λ _. send_busy RequestBody.inspect_public_state inspect_public_state _))
