-- ===== src/GameEngine/Adapter/Restore.antt =====
-- What a restore may send, and the state that each outcome leaves.
use sttork.Base.{ℕ, ◌≡◌, refl, ◌⊎◌, inl, inr, none, some, arith, []}
use sttork.Base.Outcome.{Outcome, ok, err}
use sttork.Async.Rules.{Ensures, Ensures-lift, Ensures-if}
use sttork.Contracts.Engine.{
  Boundary, Compatibility, EngineSnapshot, RestoreRejection, corrupt_snapshot, RestoreStatus,
  restored, RestoreResult,
}
use sttork.GameEngine.Protocol.{EngineWorkerRequest, RequestBody}
use sttork.GameEngine.Checks.{AdapterError, restore_uncertain}
use sttork.GameEngine.Adapter.State.{
  restore, restore_quarantined, Adapter, Call, next_message_id, exchange, digest_sha256,
}
use sttork.GameEngine.Adapter.Guards.{admit_restore, rejected_restore}
use sttork.GameEngine.Adapter.Replies.{digest_matches, accept_restore}
use sttork.GameEngine.Adapter.Operations.{check_and_submit, submit_restore}
use sttork.GameEngine.Adapter.Steps.{
  Untouched, Ending, Meets-new_message, Meets-await, Meets-ret, Meets-submit,
}

abbrev pub SubmitsRestore : EngineSnapshot → Call → Adapter → Type 0
SubmitsRestore candidate next_message_id s = Unit
SubmitsRestore candidate (exchange m) s = m.body ≡ RequestBody.restore candidate
SubmitsRestore candidate (digest_sha256 bytes) s = bytes ≡ candidate.bytes

-- The state that a restore leaves, by the status of its result.
abbrev pub RestoredTo : RestoreStatus → EngineSnapshot → RestoreResult → Adapter → Adapter → Type 0
RestoredTo restored candidate result s s' =
    (result.revision ≡ candidate.revision)
    × (result.output ≡ [])
    × (s'.revision ≡ some candidate.revision)
    × (s'.boundary ≡ some result.boundary)
    × (s'.compatibility ≡ s.compatibility)
RestoredTo (RestoreStatus.rejected _) candidate result s s' =
    (s' ≡ s)
    × (result.output ≡ [])
    × (s.revision ≡ some result.revision)
    × (s.boundary ≡ some result.boundary)

abbrev pub RestorePost :
    Adapter → EngineSnapshot → Outcome AdapterError RestoreResult → Adapter → Type 0
RestorePost s candidate (ok result) s' = RestoredTo result.status candidate result s s'
RestorePost s candidate (err e) s' =
    (s' ≡ s)
    ⊎ ((cause : AdapterError) × (e ≡ restore_uncertain candidate.revision cause)
        × (s' ≡ record s { recovery = restore_quarantined candidate.revision }))

restore-known :
    (s : Adapter) (g : ℕ × Boundary × Compatibility)
    → admit_restore s ≡ ok g
    → (s.revision ≡ some g.0) × (s.boundary ≡ some g.1)
unfolding admit_restore
restore-known s g h = ground arith

module _ (s next : Adapter) (candidate : EngineSnapshot) (r : ℕ) (b : Boundary)
    (result : RestoreResult) (idle : s.operation_in_flight ≡ none) (known : s.revision ≡ some r)
    (at : s.boundary ≡ some b)
    (taken : accept_restore (record s { operation_in_flight = some restore }) candidate r b result
      ≡ ok next) where
  accept_restore-flying : next.operation_in_flight ≡ some restore
  unfolding accept_restore
  accept_restore-flying = ground arith

  accept_restore-RestoredTo :
      (status : RestoreStatus)
      → result.status ≡ status
      → RestoredTo status candidate result s (record next { operation_in_flight = none })
  unfolding accept_restore
  accept_restore-RestoredTo restored st = ground arith
  accept_restore-RestoredTo (RestoreStatus.rejected why) st = ground arith

module _ (s : Adapter) (candidate : EngineSnapshot) (idle : s.operation_in_flight ≡ none) where
  abbrev After : Outcome AdapterError RestoreResult → Adapter → Type 0
  After = Ending (SubmitsRestore candidate) (RestorePost s candidate) restore

  fails-After : (e : AdapterError) → After (err e) (record s { operation_in_flight = some restore })
  fails-After e = (refl, inl (ground arith))

  throws-After :
      (e : AdapterError)
      → After (err (restore_uncertain candidate.revision e)) (record s {
        operation_in_flight = some restore;
        recovery = restore_quarantined candidate.revision;
      })
  throws-After e = (refl, inr (e, refl, ground arith))

  refused :
      (why : RestoreRejection) (g : ℕ × Boundary × Compatibility)
      → admit_restore s ≡ ok g
      → After (ok (rejected_restore why g.0 g.1)) (record s { operation_in_flight = some restore })
  unfolding rejected_restore
  refused why g a = let (known, at) = restore-known s g a in (refl, (ground arith, refl, known, at))

  submitted :
      (g : ℕ × Boundary × Compatibility) (m : EngineWorkerRequest)
      → admit_restore s ≡ ok g
      → m.body ≡ RequestBody.restore candidate
      → Ensures
          (SubmitsRestore candidate)
          Untouched
          After
          (submit_restore candidate g.0 g.1 m)
          (record s { operation_in_flight = some restore })
  unfolding submit_restore
  submitted g m a same =
      Meets-submit (SubmitsRestore candidate) _ m _ _ _ _ _ same
        (λ result next e.
          let (known, at) = restore-known s g a in
          (
            accept_restore-flying s next candidate g.0 g.1 result idle known at e,
            accept_restore-RestoredTo s next candidate g.0 g.1 result idle known at e result.status
                refl,
          ))
        throws-After

  checked :
      (g : ℕ × Boundary × Compatibility)
      → admit_restore s ≡ ok g
      → Ensures
          (SubmitsRestore candidate)
          Untouched
          After
          (check_and_submit candidate g.0 g.1)
          (record s { operation_in_flight = some restore })
  unfolding check_and_submit
  checked g a =
      Meets-await (SubmitsRestore candidate) _ (digest_sha256 candidate.bytes) _ _ refl λ reply.
        Ensures-lift (SubmitsRestore candidate) Untouched _ (digest_matches candidate reply) _ _
          (λ matches _.
            Ensures-if (SubmitsRestore candidate) Untouched _ matches _ _ _
              (λ _.
                Meets-new_message (SubmitsRestore candidate) _ (RequestBody.restore candidate) _ _
                  tt (λ m same. submitted g m a same) fails-After)
              (λ _. Meets-ret (SubmitsRestore candidate) _ _ _ (refused corrupt_snapshot g a)))
          (λ e _. fails-After e)
