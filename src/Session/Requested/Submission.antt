-- ===== src/Session/Requested/Submission.antt =====
-- `submitTurn` executes what it has logged, or what the journal holds as uncertain.
use sttork.Base.{◌≡◌, refl, inr, Bool, if◌then◌else◌, Option, none, some}
use sttork.Base.Text.{Text}
use sttork.Async.{ret, put, await, ◌>>=◌, finally}
use sttork.Async.Rules.{Ensures, Ensures-state, Ensures-lift, Ensures-if, Ensures-await}
use sttork.Session.State.{
  TurnInput, TurnResult, RecoveryRecord, Fingerprint, StoredTurn, pending, complete, uncertain,
  Executed, thrown, execute, settled, Coordinator, lookup, fingerprint, validate_turn_input,
}
use sttork.Session.Journal.{require_free, same_turn, or_rethrown}
use sttork.Session.Turn.{Method, is_aborted}
use sttork.Session.Run.{clear_active}
use sttork.Session.Submit.{after_recovery, recover, resume, begin_turn, submit_found, submit_turn}
use sttork.Session.Requested.Rules.{
  quiet, IsQuiet, Requested, KeepsLocal, Whatever, IsQuiet-ret, IsQuiet-finally, IsQuiet-lift,
}
use sttork.Session.Requested.Turns.{emit-IsQuiet}
use sttork.Session.Requested.Parts.{finish_engine_result-IsQuiet}
use sttork.Session.Requested.Execution.{run_new-IsQuiet}

module _ (canonical : Text → Bool) where
  after_recovery-IsQuiet :
      (id : Text) (fp : Fingerprint) (stored : TurnResult) (recovery : RecoveryRecord)
      (answer : Executed)
      → IsQuiet (after_recovery canonical id fp stored recovery answer)
  unfolding after_recovery
  after_recovery-IsQuiet id fp stored recovery (thrown b) = IsQuiet-ret stored
  after_recovery-IsQuiet id fp stored recovery (Executed.result r) =
      search (quiet, emit-IsQuiet, finish_engine_result-IsQuiet) depth 30

  clear_active-IsQuiet : IsQuiet (clear_active canonical)
  clear_active-IsQuiet = search (quiet) depth 10

  begin_turn-IsQuiet : (input : TurnInput) → IsQuiet (begin_turn canonical input)
  unfolding begin_turn
  begin_turn-IsQuiet input = search (quiet, run_new-IsQuiet) depth 30

  -- The engine is asked again for the request of the recovery.
  recovery-Requested :
      (id : Text) (fp : Fingerprint) (stored : TurnResult) (recovery : RecoveryRecord)
      (s : Coordinator)
      → lookup s.turns id ≡ some (uncertain fp stored recovery)
      → Ensures Requested KeepsLocal Whatever
          (finally
            (await (execute recovery.request) ret
              >>= after_recovery canonical id fp stored recovery)
            (clear_active canonical))
          s
  unfolding Ensures ◌>>=◌ finally IsQuiet
  recovery-Requested id fp stored recovery s known = (
    inr (id, fp, stored, recovery, known, refl),
    λ answer s' o.
        IsQuiet-finally (after_recovery canonical id fp stored recovery answer)
          (clear_active canonical) (after_recovery-IsQuiet id fp stored recovery answer)
          clear_active-IsQuiet s',
  )

  unless_aborted :
      (stored : TurnResult) (s' : Coordinator) (s : Coordinator) (p : Method TurnResult)
      → Ensures Requested KeepsLocal Whatever p s'
      → Ensures Requested KeepsLocal Whatever
          (is_aborted >>= λ stop. if stop then ret stored else (put s' (ret tt) >>= λ _. p))
          s
  unfolding Ensures ◌>>=◌
  unless_aborted stored s' s p h = (
    tt,
    λ stop.
        Ensures-if Requested KeepsLocal Whatever stop (ret stored) (put s' p) s (λ _. tt) (λ _. h),
  )

  -- The recovery of a turn that the journal holds as uncertain.
  recover-Requested :
      (id : Text) (fp : Fingerprint) (stored : TurnResult) (recovery : RecoveryRecord)
      (s : Coordinator)
      → lookup s.turns id ≡ some (uncertain fp stored recovery)
      → Ensures Requested KeepsLocal Whatever (recover canonical id fp stored recovery) s
  unfolding recover
  recover-Requested id fp stored recovery s known =
      Ensures-state Requested KeepsLocal Whatever _ s (
        Ensures-lift Requested KeepsLocal Whatever (require_free s) _ s
          (λ _ _. unless_aborted stored _ s _ (
            recovery-Requested id fp stored recovery
              (record s { active_interaction_id = some id; local = stored.events }) known))
          (λ _ _. tt))

  resume-Requested :
      (id : Text) (fp : Fingerprint) (t : StoredTurn) (s : Coordinator)
      → lookup s.turns id ≡ some t
      → Ensures Requested KeepsLocal Whatever (resume canonical id fp t) s
  unfolding resume IsQuiet
  resume-Requested id fp (complete fp' stored) s known =
      Ensures-lift Requested KeepsLocal Whatever (same_turn id fp' fp) _ s
        (λ _ _. IsQuiet-ret stored s) (λ _ _. tt)
  resume-Requested id fp (pending fp') s known =
      Ensures-lift Requested KeepsLocal Whatever (same_turn id fp' fp) _ s
        (λ _ _.
          Ensures-await Requested KeepsLocal Whatever (settled id) _ s tt
            λ reply s' o. IsQuiet-lift (or_rethrown reply) s')
        (λ _ _. tt)
  resume-Requested id fp (uncertain fp' stored recovery) s known =
      Ensures-lift Requested KeepsLocal Whatever (same_turn id fp' fp) _ s
        (λ _ _. recover-Requested id fp' stored recovery s known) (λ _ _. tt)

  found-Requested :
      (input : TurnInput) (found : Option StoredTurn) (s : Coordinator)
      → lookup s.turns input.interaction_id ≡ found
      → Ensures Requested KeepsLocal Whatever (submit_found canonical input found) s
  unfolding submit_found IsQuiet
  found-Requested input none s known = begin_turn-IsQuiet input s
  found-Requested input (some t) s known =
      resume-Requested input.interaction_id (fingerprint input) t s known

  -- Whatever the guide, the engine, the narrator and the callbacks answer, `submitTurn` asks the
  -- engine to execute a request only when the last event of the turn is that request's own
  -- `engine.command.requested`, or when the journal holds a turn of which that request's outcome is
  -- uncertain; the other tasks are taken to leave the turn's events alone.
  pub submit_turn-Requested :
      (input : TurnInput) (s : Coordinator)
      → Ensures Requested KeepsLocal Whatever (submit_turn canonical input) s
  unfolding submit_turn
  submit_turn-Requested input s =
      Ensures-lift Requested KeepsLocal Whatever (validate_turn_input input) _ s
        (λ _ _.
          Ensures-state Requested KeepsLocal Whatever _ s
            (found-Requested input (lookup s.turns input.interaction_id) s refl))
        (λ _ _. tt)
