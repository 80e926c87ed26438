-- ===== src/Session/Free.antt =====
-- The coordinator is free again after every turn: `#activeInteractionId`
-- (packages/session/src/semantic-turn-coordinator.ts).
use sttork.Base.{ℕ, ◌≡◌, refl, ◌∙◌, Bool, Option, none, some, if◌then◌else◌}
use sttork.Base.Text.{Text}
use sttork.Base.Outcome.{Outcome, ok, err}
use sttork.Async.{World, run, modify, ret, throw, put, await, ◌>>=◌, catch, finally}
use sttork.Async.Rules.{
  Ensures, Ensures-run, Next, Handled, Rethrow, Ensures-state, Ensures-lift, Ensures-lift_last,
  Ensures-bind, Ensures-catch, Ensures-finally, Ensures-any, Ensures-mono, Ensures-await,
  Ensures-if, Ensures-ret,
}
use sttork.Session.State.{
  TurnInput, TurnResult, Fingerprint, RecoveryRecord, StoredTurn, pending, complete, uncertain,
  CoordinatorError, Coordinator, Call, Reply, settled, run_ended, lookup, set, delete, fingerprint,
  validate_turn_input,
}
use sttork.Session.Journal.{or_rethrown, require_free, admit_turn, same_turn}
use sttork.Session.Turn.{Method, is_aborted}
use sttork.Session.Finish.{RunResult}
use sttork.Session.Run.{clear_active, run_new}
use sttork.Session.Submit.{submit_turn, submit_found, resume, recover, begin_turn, store, stored_as}

abbrev Anything : Call → Coordinator → Type 0
Anything c s = Unit

-- What the other tasks do meanwhile leaves the claim on the coordinator as it is.
abbrev pub KeepsActive : Coordinator → Coordinator → Type 0
KeepsActive s s' = s'.active_interaction_id ≡ s.active_interaction_id

abbrev pub IsFree : Coordinator → Type 0
IsFree s = s.active_interaction_id ≡ none

abbrev Free : {A : Type 0} → Outcome CoordinatorError A → Coordinator → Type 0
Free o s = IsFree s

module _ (canonical : Text → Bool) where
  cleared :
      {A : Type 0} (o : Outcome CoordinatorError A) (s : Coordinator)
      → Ensures Anything KeepsActive Free
          (clear_active canonical >>= λ _. Rethrow {R = Reply} Anything KeepsActive o)
          s
  unfolding Ensures ◌>>=◌
  cleared (ok a) s = refl
  cleared (err e) s = refl

  -- Whatever a guarded block does, the claim is given up when it ends.
  finally-clears :
      {A : Type 0} (p : Method A) (s : Coordinator)
      → Ensures Anything KeepsActive Free (finally p (clear_active canonical)) s
  finally-clears p s =
      Ensures-finally Anything KeepsActive Free p (clear_active canonical) s
        (Ensures-any Anything KeepsActive _ (λ _ _. tt) cleared p s)

  run_new-clears :
      (input : TurnInput) (s : Coordinator)
      → Ensures Anything KeepsActive Free (run_new canonical input) s
  unfolding run_new Ensures ◌>>=◌
  run_new-clears input s = finally-clears _ _

  -- The wait for the run's own promise.
  awaited :
      {A : Type 0} (Q : Outcome CoordinatorError A → Coordinator → Type 0) (id : Text)
      (p : Method A) (s : Coordinator)
      → IsFree s
      → ((s' : Coordinator) → IsFree s' → Ensures Anything KeepsActive Q p s')
      → Ensures Anything KeepsActive Q (await (run_ended id) ret >>= λ _. p) s
  unfolding Ensures ◌>>=◌
  awaited Q id p s free h = (tt, λ r s' keeps. h s' (keeps ∙ free))

  -- The end of a turn that ran: its result is stored.
  store-clears :
      (id : Text) (t : StoredTurn) (r : TurnResult) (s : Coordinator)
      → IsFree s
      → Ensures Anything KeepsActive Free (store id t >>= λ _. ret r) s
  unfolding Ensures ◌>>=◌
  store-clears id t r s free = free

  -- The end of a turn that threw: its entry is taken out.
  abbrev Rest : TurnInput → RunResult → Method TurnResult
  Rest input completed = await (run_ended input.interaction_id) ret >>= λ _.
      store input.interaction_id (stored_as (fingerprint input) completed) >>= λ _.
      ret completed.result

  abbrev forget : TurnInput → CoordinatorError → Method RunResult
  forget input e = await (run_ended input.interaction_id) ret >>= λ _.
      modify (λ now. record now { turns = delete input.interaction_id now.turns }) >>= λ _. throw e

  ran :
      (input : TurnInput) (o : Outcome CoordinatorError RunResult) (s : Coordinator)
      → IsFree s
      → Handled Anything KeepsActive
          (Next Anything KeepsActive Free (Rest input))
          (forget input)
          o
          s
  ran input (ok completed) s free =
      awaited _ input.interaction_id _ s free (
        store-clears input.interaction_id (stored_as (fingerprint input) completed)
          completed.result)
  ran input (err e) s free =
      awaited _ input.interaction_id _ s free λ s' free'. unfold Ensures in unfold ◌>>=◌ in free'

  run-clears :
      (input : TurnInput) (s : Coordinator)
      → Ensures Anything KeepsActive Free
          (catch (run_new canonical input) (forget input) >>= Rest input)
          s
  run-clears input s =
      Ensures-bind Anything KeepsActive Free (catch (run_new canonical input) (forget input))
        (Rest input) s
        (Ensures-catch Anything KeepsActive _ (run_new canonical input) (forget input) s (
          Ensures-mono Anything KeepsActive Free _ (ran input) (run_new canonical input) s
            (run_new-clears input s)))

  store-then :
      (id : Text) (t : StoredTurn) (p : Method TurnResult) (s : Coordinator)
      → ((s' : Coordinator) → Ensures Anything KeepsActive Free p s')
      → Ensures Anything KeepsActive Free (store id t >>= λ _. p) s
  unfolding Ensures ◌>>=◌
  store-then id t p s h = h (record s { turns = set id t s.turns })

  begin_turn-clears :
      (input : TurnInput) (s : Coordinator)
      → IsFree s
      → Ensures Anything KeepsActive Free (begin_turn canonical input) s
  unfolding begin_turn
  begin_turn-clears input s free = Ensures-state Anything KeepsActive Free _ s (
      Ensures-lift Anything KeepsActive Free (admit_turn s) _ s
        (λ _ _.
          store-then input.interaction_id (pending (fingerprint input)) _ s (run-clears input))
        (λ _ _. free))

  aborted-then :
      (p q : Method TurnResult) (s : Coordinator)
      → Ensures Anything KeepsActive Free p s
      → Ensures Anything KeepsActive Free q s
      → Ensures Anything KeepsActive Free (is_aborted >>= λ stop. if stop then p else q) s
  unfolding Ensures ◌>>=◌
  aborted-then p q s hp hq =
      (tt, λ stop. Ensures-if Anything KeepsActive Free stop p q s (λ _. hp) (λ _. hq))

  put-then :
      (s' : Coordinator) (p : Method TurnResult) (s : Coordinator)
      → Ensures Anything KeepsActive Free p s'
      → Ensures Anything KeepsActive Free (put s' (ret tt) >>= λ _. p) s
  unfolding Ensures ◌>>=◌
  put-then s' p s h = h

  recover-clears :
      (id : Text) (fp : Fingerprint) (stored : TurnResult) (recovery : RecoveryRecord)
      (s : Coordinator)
      → IsFree s
      → Ensures Anything KeepsActive Free (recover canonical id fp stored recovery) s
  unfolding recover
  recover-clears id fp stored recovery s free = Ensures-state Anything KeepsActive Free _ s (
      Ensures-lift Anything KeepsActive Free (require_free s) _ s
        (λ _ _. aborted-then _ _ s (Ensures-ret Reply Anything KeepsActive Free stored s free) (
          put-then (record s { active_interaction_id = some id; local = stored.events }) _ s
            (finally-clears _ _)))
        (λ _ _. free))

  resume-clears :
      (id : Text) (fp : Fingerprint) (t : StoredTurn) (s : Coordinator)
      → IsFree s
      → Ensures Anything KeepsActive Free (resume canonical id fp t) s
  unfolding resume
  resume-clears id fp (complete fp' stored) s free =
      Ensures-lift Anything KeepsActive Free (same_turn id fp' fp) _ s
        (λ _ _. Ensures-ret Reply Anything KeepsActive Free stored s free) (λ _ _. free)
  resume-clears id fp (pending fp') s free =
      Ensures-lift Anything KeepsActive Free (same_turn id fp' fp) _ s
        (λ _ _. Ensures-await Anything KeepsActive Free (settled id) _ s tt λ reply s' kept.
          Ensures-lift_last Reply Anything KeepsActive Free (or_rethrown reply) s'
            (λ _ _. kept ∙ free) (λ _ _. kept ∙ free))
        (λ _ _. free)
  resume-clears id fp (uncertain fp' stored recovery) s free =
      Ensures-lift Anything KeepsActive Free (same_turn id fp' fp) _ s
        (λ _ _. recover-clears id fp' stored recovery s free) (λ _ _. free)

  found-clears :
      (input : TurnInput) (found : Option StoredTurn) (s : Coordinator)
      → IsFree s
      → Ensures Anything KeepsActive Free (submit_found canonical input found) s
  unfolding submit_found
  found-clears input none s free = begin_turn-clears input s free
  found-clears input (some t) s free =
      resume-clears input.interaction_id (fingerprint input) t s free

  submit_turn-clears :
      (input : TurnInput) (s : Coordinator)
      → IsFree s
      → Ensures Anything KeepsActive Free (submit_turn canonical input) s
  unfolding submit_turn
  submit_turn-clears input s free =
      Ensures-lift Anything KeepsActive Free (validate_turn_input input) _ s
        (λ _ _.
          Ensures-state Anything KeepsActive Free _ s
            (found-clears input (lookup s.turns input.interaction_id) s free))
        (λ _ _. free)

  -- On a coordinator with no active interaction, in a world where the other tasks leave the claim as
  -- they find it, `submitTurn` ends with no active interaction, whether it returns or throws and
  -- whatever the guide, the engine, the narrator and the callbacks answer.
  pub submit_turn-IsFree :
      (w : World Coordinator Call Reply) (n : ℕ) (s : Coordinator) (input : TurnInput)
      → ((n : ℕ) (s : Coordinator) → KeepsActive s (w.meanwhile n s))
      → IsFree s
      → IsFree (run w n s (submit_turn canonical input)).final
  submit_turn-IsFree w n s input keeps free =
      Ensures-run Anything KeepsActive w keeps Free (submit_turn canonical input) n s
        (submit_turn-clears input s free)
