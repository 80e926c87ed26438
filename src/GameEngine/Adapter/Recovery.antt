-- ===== src/GameEngine/Adapter/Recovery.antt =====
-- No method sends a message that the recovery state forbids.
use sttork.Base.{ℕ, ◌≡◌, refl, sym, subst, none, some}
use sttork.Base.Outcome.{Outcome, ok, err}
use sttork.Async.{◌>>=◌, ret, lift, finally}
use sttork.Async.Rules.{
  Ensures, Ensures-bind, Ensures-mono, Next, Ensures-lift, Ensures-lift_last, Ensures-state,
  Ensures-if,
}
use sttork.Contracts.Engine.{Boundary, Compatibility, EngineSnapshot}
use sttork.GameEngine.Protocol.{EngineWorkerRequest, RequestBody}
use sttork.GameEngine.Checks.{AdapterError, validate_snapshot, same_compatibility}
use sttork.GameEngine.Adapter.State.{
  Operation, boot, execute, snapshot, restore, inspect_public_state, Recovery, Adapter, Call,
  digest_sha256, Reply,
}
use sttork.GameEngine.Adapter.Guards.{
  admit_boot, admit_execute, admit_snapshot, admit_restore, admit_inspect,
}
use sttork.GameEngine.Adapter.Replies.{digest_matches, accept_snapshot}
use sttork.GameEngine.Adapter.Operations.{
  Method, new_message, begin_operation, end_operation, boot_method, execute_method, snapshot_method,
  take_snapshot, restore_method, check_and_submit, submit_restore, inspect_method, Task, boots,
  executes, snapshots, restores, inspects, perform,
}
use sttork.GameEngine.Adapter.Booted.{
  accept_boot-operation, accept_execute-operation, accept_restore-operation,
  accept_inspect-operation,
}
use sttork.GameEngine.Adapter.Steps.{
  Untouched, Ending, Meets-new_message, Meets-begin, Meets-ended, Meets-await, Meets-send,
  Meets-settle, Meets-ret, Meets-submit,
}
use sttork.GameEngine.Adapter.Allowed.{
  IsConsistent, Allowed, MaySend, boot-Allowed, execute-Allowed, snapshot-Allowed, restore-Allowed,
  inspect-Allowed,
}

abbrev pub Whatever : {A : Type 0} → Outcome AdapterError A → Adapter → Type 0
Whatever r s = Unit

module _ (s : Adapter) (recovery : Recovery) (e : s.recovery ≡ recovery)
    (k : IsConsistent recovery s.compatibility s.revision)
    (idle : s.operation_in_flight ≡ none) where
  abbrev May : Call → Adapter → Type 0
  May = MaySend recovery

  opened :
      {A G : Type 0} (guard : Outcome AdapterError G) (body : RequestBody) (o : Operation)
      (p : G → EngineWorkerRequest → Method A)
      → ((g : G) (m : EngineWorkerRequest)
          → guard ≡ ok g
          → m.body ≡ body
          → Ensures May Untouched
              (Ending May Whatever o)
              (p g m)
              (record s { operation_in_flight = some o }))
      → Ensures May Untouched Whatever
          (lift guard >>= λ g.
            new_message body >>= λ m. begin_operation o >>= λ _. finally (p g m) (end_operation o))
          s
  opened guard body o p h =
      Ensures-lift May Untouched _ guard _ s
        (λ g a.
          Meets-new_message May _ body _ s tt
            (λ m same. Meets-begin May _ o _ s idle (Meets-ended May _ o (p g m) _ (h g m a same)))
            (λ _. tt))
        (λ _ _. tt)

  sendable :
      (m : EngineWorkerRequest) (body : RequestBody)
      → m.body ≡ body
      → Allowed recovery body
      → Allowed recovery m.body
  sendable m body same h = subst (Allowed recovery) (sym same) h

  discarded :
      {A : Type 0} (m : Method A)
      → Ensures May Untouched Whatever m s
      → Ensures May Untouched Whatever (m >>= λ _. ret tt) s
  discarded {A} m h =
      Ensures-bind May Untouched _ m _ s (Ensures-mono May Untouched Whatever _ passed m s h)
    where
      passed :
          (r : Outcome AdapterError A) (s' : Adapter)
          → Unit {0}
          → Next {R = Reply} May Untouched Whatever (λ _. ret tt) r s'
      passed (ok a) s' i = Meets-ret May _ tt s' tt
      passed (err x) s' i = tt

  snapshot-Sends : Ensures May Untouched Whatever snapshot_method s
  unfolding snapshot_method take_snapshot
  snapshot-Sends = Ensures-state May Untouched _ _ s (
      opened (admit_snapshot s) RequestBody.snapshot snapshot _ λ g m a same.
        Meets-send May _ m _ _ _ (snapshot-Allowed s recovery g m.body e k a)
          (λ taken.
            Ensures-lift May Untouched _ (validate_snapshot taken) _ _
              (λ _ _. Meets-await May _ (digest_sha256 taken.bytes) _ _ tt λ reply.
                Ensures-lift_last Reply May Untouched _ (accept_snapshot g.0 g.1 taken reply) _
                  (λ _ _. (refl, tt)) (λ _ _. (refl, tt)))
              (λ _ _. (refl, tt)))
          (λ _. (refl, tt)))

  submitted :
      (candidate : EngineSnapshot) (g : ℕ × Boundary × Compatibility) (m : EngineWorkerRequest)
      → admit_restore s ≡ ok g
      → Ensures May Untouched
          (Ending May Whatever restore)
          (submit_restore candidate g.0 g.1 m)
          (record s { operation_in_flight = some restore })
  unfolding submit_restore
  submitted candidate g m a =
      Meets-submit May _ m _ _ _ _ _ (restore-Allowed s recovery g m.body e k a)
        (λ result next h. (accept_restore-operation _ next candidate g.0 g.1 result h, tt))
        (λ _. (refl, tt))

  restore-Sends :
      (candidate : EngineSnapshot) → Ensures May Untouched Whatever (restore_method candidate) s
  unfolding restore_method check_and_submit
  restore-Sends candidate = Ensures-state May Untouched _ _ s (
      Ensures-lift May Untouched _ (admit_restore s) _ s
        (λ g a. Meets-begin May _ restore _ s idle (
          Meets-ended May _ restore _ _ (
            Ensures-lift May Untouched _ (validate_snapshot candidate) _ _
              (λ _ _.
                Ensures-if May Untouched _ (same_compatibility candidate.compatibility g.2) _ _ _
                  (λ _. Meets-await May _ (digest_sha256 candidate.bytes) _ _ tt λ reply.
                    Ensures-lift May Untouched _ (digest_matches candidate reply) _ _
                      (λ matches _.
                        Ensures-if May Untouched _ matches _ _ _
                          (λ _.
                            Meets-new_message May _ (RequestBody.restore candidate) _ _ tt
                              (λ m _. submitted candidate g m a) (λ _. (refl, tt)))
                          (λ _. Meets-ret May _ _ _ (refl, tt)))
                      (λ _ _. (refl, tt)))
                  (λ _. Meets-ret May _ _ _ (refl, tt)))
              (λ _ _. (refl, tt)))))
        (λ _ _. tt))

  -- On an idle adapter whose recovery state fits what it knows (an uncertain execute or restore
  -- goes with a known compatibility, a quarantined boot with no revision), each method sends only
  -- what the recovery state allows: after an uncertain execute, an inspection or the very same
  -- request; after an uncertain restore, an inspection; after an uncertain boot, nothing.
  pub perform-MaySend : (t : Task) → Ensures (MaySend recovery) Untouched Whatever (perform t) s
  unfolding perform boot_method execute_method inspect_method
  perform-MaySend (boots input) = discarded _ (
      Ensures-state May Untouched _ _ s (
        opened (admit_boot s input) (RequestBody.boot input) boot _ λ g m a same.
          Meets-submit May _ m _ _ _ _ _ (sendable m _ same (boot-Allowed s recovery input e k a))
            (λ result next h. (accept_boot-operation _ next input result h, tt)) (λ _. (refl, tt))))
  perform-MaySend (executes input aborted) = discarded _ (
      Ensures-state May Untouched _ _ s (
        opened (admit_execute s input aborted) (RequestBody.execute input) execute _ λ g m a same.
          Meets-submit May _ m _ _ _ _ _
            (sendable m _ same (execute-Allowed s recovery input aborted g e k a))
            (λ result next h. (accept_execute-operation _ next input g.0 g.1 result h, tt))
            (λ _. (refl, tt))))
  perform-MaySend snapshots = discarded _ snapshot-Sends
  perform-MaySend (restores candidate) = discarded _ (restore-Sends candidate)
  perform-MaySend inspects = discarded _ (
      Ensures-state May Untouched _ _ s (
        opened (admit_inspect s) RequestBody.inspect_public_state inspect_public_state _
          λ g m a same.
            Meets-send May _ m _ _ _ (sendable m _ same (inspect-Allowed s recovery g e k a))
              (λ seen.
                Meets-settle May _ _ _ _
                  (λ next h. (accept_inspect-operation _ next s.recovery g.0 g.1 seen h, tt))
                  (λ _. (refl, tt)))
              (λ _. (refl, tt))))
