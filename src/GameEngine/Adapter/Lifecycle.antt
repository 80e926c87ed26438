-- ===== src/GameEngine/Adapter/Lifecycle.antt =====
-- Every method releases the adapter and keeps what is known of the worker, however it ends.
use sttork.Base.{ℕ, ◌≡◌, refl, none, some, arith, Bool}
use sttork.Base.Outcome.{Outcome, ok, err}
use sttork.Async.{ret, ◌>>=◌, lift, finally}
use sttork.Async.Rules.{
  Ensures, Ensures-bind, Ensures-mono, Next, Ensures-lift, Ensures-state, Ensures-if,
  Ensures-lift_last,
}
use sttork.Contracts.Engine.{Boundary, Compatibility, BootRequest, ExecuteRequest, EngineSnapshot}
use sttork.GameEngine.Protocol.{EngineWorkerRequest, RequestBody}
use sttork.GameEngine.Checks.{AdapterError, validate_snapshot, same_compatibility}
use sttork.GameEngine.Adapter.State.{
  Operation, boot, execute, snapshot, restore, inspect_public_state, Recovery, Adapter, Call,
  digest_sha256, Reply,
}
use sttork.GameEngine.Adapter.Guards.{
  admit_boot, admit_execute, admit_snapshot, admit_restore, admit_inspect,
}
use sttork.GameEngine.Adapter.Replies.{digest_matches, accept_snapshot}
use sttork.GameEngine.Adapter.Operations.{
  Method, new_message, begin_operation, end_operation, boot_method, execute_method, snapshot_method,
  restore_method, inspect_method, take_snapshot, check_and_submit, submit_restore, Task, boots,
  executes, snapshots, restores, inspects, perform,
}
use sttork.GameEngine.Adapter.Booted.{
  IsBooted, accept_boot-IsBooted, accept_execute-IsBooted, accept_restore-IsBooted,
  accept_inspect-IsBooted,
}
use sttork.GameEngine.Adapter.Steps.{
  Untouched, Ending, Meets-ret, Meets-new_message, Meets-begin, Meets-ended, Meets-await,
  Meets-send, Meets-settle, Meets-submit,
}

pub record IsIdle (s : Adapter) : Type 0 where
  pub booted : IsBooted s
  pub released : s.operation_in_flight ≡ none

abbrev pub Anything : Call → Adapter → Type 0
Anything c s = Unit

abbrev pub Settled : {A : Type 0} → Outcome AdapterError A → Adapter → Type 0
Settled r s = IsIdle s

-- Admission reads the revision that the adapter knows.
pub execute-revision :
    (s : Adapter) (input : ExecuteRequest) (aborted : Bool) (g : ℕ × Boundary)
    → admit_execute s input aborted ≡ ok g
    → s.revision ≡ some g.0
unfolding admit_execute
execute-revision s input aborted g h = ground arith

restore-revision :
    (s : Adapter) (g : ℕ × Boundary × Compatibility)
    → admit_restore s ≡ ok g
    → s.revision ≡ some g.0
unfolding admit_restore
restore-revision s g h = ground arith

inspect-revision : (s : Adapter) (g : ℕ × Boundary) → admit_inspect s ≡ ok g → s.revision ≡ some g.0
unfolding admit_inspect
inspect-revision s g h = ground arith

module _ (s : Adapter) (h : IsIdle s) where
  abbrev Releases : {A : Type 0} → Operation → Method A → Type 0
  Releases o p =
      Ensures Anything Untouched (Ending Anything Settled o) p
        (record s { operation_in_flight = some o })

  accepted :
      {o : Operation} (next : Adapter)
      → IsBooted next × (next.operation_in_flight ≡ some o)
      → (next.operation_in_flight ≡ some o) × IsIdle (record next { operation_in_flight = none })
  accepted next (b, e) = (e, record { booted = b; released = refl })

  unchanged : (o : Operation) → (some o ≡ some o) × IsIdle (record s { operation_in_flight = none })
  unchanged o = (refl, record { booted = h.booted; released = refl })

  quarantined :
      (o : Operation) (recovery : Recovery)
      → (some o ≡ some o) × IsIdle (record s { operation_in_flight = none; recovery = recovery })
  quarantined o recovery = (refl, record { booted = h.booted; released = refl })

  begun :
      {A : Type 0} (o : Operation) (p : Method A)
      → Releases o p
      → Ensures Anything Untouched Settled
          (begin_operation o >>= λ _. finally p (end_operation o))
          s
  begun o p k = Meets-begin Anything _ o _ s h.released (Meets-ended Anything _ o p _ k)

  opened :
      {A G : Type 0} (guard : Outcome AdapterError G) (body : RequestBody) (o : Operation)
      (p : G → EngineWorkerRequest → Method A)
      → ((g : G) (m : EngineWorkerRequest) → guard ≡ ok g → Releases o (p g m))
      → Ensures Anything Untouched Settled
          (lift guard >>= λ g.
            new_message body >>= λ m. begin_operation o >>= λ _. finally (p g m) (end_operation o))
          s
  opened guard body o p k =
      Ensures-lift Anything Untouched _ guard _ s
        (λ g e.
          Meets-new_message Anything _ body _ s tt (λ m _. begun o (p g m) (k g m e)) (λ _. h))
        (λ _ _. h)

  boot-IsIdle : (input : BootRequest) → Ensures Anything Untouched Settled (boot_method input) s
  unfolding boot_method
  boot-IsIdle input = Ensures-state Anything Untouched _ _ s (
      opened (admit_boot s input) (RequestBody.boot input) boot _ λ _ m _.
        Meets-submit Anything _ m _ _ _ _ _ tt
          (λ result next e. accepted next (accept_boot-IsBooted _ input result next e))
          (λ _. quarantined boot _))

  execute-IsIdle :
      (input : ExecuteRequest) (aborted : Bool)
      → Ensures Anything Untouched Settled (execute_method input aborted) s
  unfolding execute_method
  execute-IsIdle input aborted = Ensures-state Anything Untouched _ _ s (
      opened (admit_execute s input aborted) (RequestBody.execute input) execute _ λ g m a.
        Meets-submit Anything _ m _ _ _ _ _ tt
          (λ result next e. accepted next (
            accept_execute-IsBooted _ input g.0 g.1 result next
              (execute-revision s input aborted g a) h.booted e))
          (λ _. quarantined execute _))

  snapshot-IsIdle : Ensures Anything Untouched Settled snapshot_method s
  unfolding snapshot_method take_snapshot
  snapshot-IsIdle = Ensures-state Anything Untouched _ _ s (
      opened (admit_snapshot s) RequestBody.snapshot snapshot _ λ g m _.
        Meets-send Anything _ m _ _ _ tt
          (λ taken.
            Ensures-lift Anything Untouched _ (validate_snapshot taken) _ _
              (λ _ _. Meets-await Anything _ (digest_sha256 taken.bytes) _ _ tt λ reply.
                Ensures-lift_last Reply Anything Untouched _ (accept_snapshot g.0 g.1 taken reply) _
                  (λ _ _. unchanged snapshot) (λ _ _. unchanged snapshot))
              (λ _ _. unchanged snapshot))
          (λ _. unchanged snapshot))

  restore-IsIdle :
      (candidate : EngineSnapshot) → Ensures Anything Untouched Settled (restore_method candidate) s
  unfolding restore_method check_and_submit submit_restore
  restore-IsIdle candidate = Ensures-state Anything Untouched _ _ s (
      Ensures-lift Anything Untouched _ (admit_restore s) _ s
        (λ g a. begun restore _ (
          Ensures-lift Anything Untouched _ (validate_snapshot candidate) _ _
            (λ _ _.
              Ensures-if Anything Untouched _ (same_compatibility candidate.compatibility g.2) _ _ _
                (λ _. Meets-await Anything _ (digest_sha256 candidate.bytes) _ _ tt λ reply.
                  Ensures-lift Anything Untouched _ (digest_matches candidate reply) _ _
                    (λ matches _.
                      Ensures-if Anything Untouched _ matches _ _ _
                        (λ _.
                          Meets-new_message Anything _ _ _ _ tt
                            (λ m _.
                              Meets-submit Anything _ m _ _ _ _ _ tt
                                (λ result next e. accepted next (
                                  accept_restore-IsBooted _ candidate g.0 g.1 result next
                                    (restore-revision s g a) h.booted e))
                                (λ _. quarantined restore _))
                            (λ _. unchanged restore))
                        (λ _. Meets-ret Anything _ _ _ (unchanged restore)))
                    (λ _ _. unchanged restore))
                (λ _. Meets-ret Anything _ _ _ (unchanged restore)))
            (λ _ _. unchanged restore)))
        (λ _ _. h))

  inspect-IsIdle : Ensures Anything Untouched Settled inspect_method s
  unfolding inspect_method
  inspect-IsIdle = Ensures-state Anything Untouched _ _ s (
      opened (admit_inspect s) RequestBody.inspect_public_state inspect_public_state _ λ g m a.
        Meets-send Anything _ m _ _ _ tt
          (λ seen.
            Meets-settle Anything _ _ _ _
              (λ next e. accepted next (
                accept_inspect-IsBooted _ s.recovery g.0 g.1 seen next (inspect-revision s g a)
                  h.booted e))
              (λ _. unchanged inspect_public_state))
          (λ _. unchanged inspect_public_state))

  discarded :
      {A : Type 0} (m : Method A)
      → Ensures Anything Untouched Settled m s
      → Ensures Anything Untouched Settled (m >>= λ _. ret tt) s
  discarded {A} m k =
      Ensures-bind Anything Untouched _ m _ s
        (Ensures-mono Anything Untouched Settled _ passed m s k)
    where
      passed :
          (r : Outcome AdapterError A) (s' : Adapter)
          → IsIdle s'
          → Next {R = Reply} Anything Untouched Settled (λ _. ret tt) r s'
      passed (ok a) s' i = Meets-ret Anything _ tt s' i
      passed (err e) s' i = i

  -- On an adapter with no operation in flight, and with the compatibility, the revision and the
  -- boundary known together and the revision a safe integer, every method ends in such a state
  -- again, however the worker answers and whether the method returns or throws.
  pub perform-IsIdle : (t : Task) → Ensures Anything Untouched Settled (perform t) s
  unfolding perform
  perform-IsIdle (boots input) = discarded _ (boot-IsIdle input)
  perform-IsIdle (executes input aborted) = discarded _ (execute-IsIdle input aborted)
  perform-IsIdle snapshots = discarded _ snapshot-IsIdle
  perform-IsIdle (restores candidate) = discarded _ (restore-IsIdle candidate)
  perform-IsIdle inspects = discarded _ inspect-IsIdle
