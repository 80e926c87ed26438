-- ===== src/Session/Once.antt =====
-- A turn is run once: what `submitTurn` returned, it returns again
-- (packages/session/src/semantic-turn-coordinator.ts).
use sttork.Base.{ℕ, ◌≡◌, refl, subst, sym, ap, ◌∙◌, Bool, Option, none, some, ◌⊎◌, inl, inr, arith}
use sttork.Base.Text.{Text}
use sttork.Base.Outcome.{Outcome, ok, err, Outcome-cases}
use sttork.Async.{ret, ◌>>=◌, World, run}
use sttork.Async.Rules.{Ensures, Ensures-after, Ensures-run}
use sttork.Session.State.{
  TurnInput, TurnResult, RecoveryRecord, complete, uncertain, CoordinatorError, Coordinator, Call,
  Reply, lookup, set, fingerprint, validate_turn_input,
}
use sttork.Session.Finish.{RunResult}
use sttork.Session.Submit.{submit_turn, submit_found, begin_turn, store, stored_turn, stored_as}
use sttork.Session.Replay.{
  at_once, lookup-set, run-submit, submit_turn-invalid, submit_turn-complete,
}

-- The journal holds the result of a turn, as final or with what a recovery needs.
abbrev pub IsStored : TurnInput → TurnResult → Coordinator → Type 0
IsStored input r s =
    (lookup s.turns input.interaction_id ≡ some (complete (fingerprint input) r))
    ⊎ ((recovery : RecoveryRecord) × (lookup s.turns input.interaction_id
          ≡ some (uncertain (fingerprint input) r recovery)))

abbrev Anything : Call → Coordinator → Type 0
Anything c s = Unit

abbrev Anyhow : Coordinator → Coordinator → Type 0
Anyhow s s' = Unit

abbrev Stores : TurnInput → Outcome CoordinatorError TurnResult → Coordinator → Type 0
Stores input (ok r) s = IsStored input r s
Stores input (err e) s = Unit

ok-err :
    {r : TurnResult} {e : CoordinatorError}
    → ◌≡◌ {A = Outcome CoordinatorError TurnResult} (ok r) (err e)
    → ⊥
ok-err h = ground arith

module _ (canonical : Text → Bool) where
  stored_turn-IsStored :
      (s : Coordinator) (input : TurnInput) (r : TurnResult) (recovery : Option RecoveryRecord)
      → lookup s.turns input.interaction_id ≡ some (stored_turn (fingerprint input) r recovery)
      → IsStored input r s
  stored_turn-IsStored s input r none h = inl h
  stored_turn-IsStored s input r (some recovery) h = inr (recovery, h)

  store-Stores :
      (input : TurnInput) (completed : RunResult) (s : Coordinator)
      → Ensures Anything Anyhow
          (Stores input)
          (store input.interaction_id (stored_as (fingerprint input) completed) >>= λ _.
            ret completed.result)
          s
  unfolding Ensures ◌>>=◌
  store-Stores input completed s =
      stored_turn-IsStored
        (record s {
          turns = set input.interaction_id (stored_as (fingerprint input) completed) s.turns;
        })
        input completed.result completed.recovery (lookup-set s.turns input.interaction_id _)

  begin_turn-Stores :
      (input : TurnInput) (s : Coordinator)
      → Ensures Anything Anyhow (Stores input) (begin_turn canonical input) s
  unfolding begin_turn
  begin_turn-Stores input s =
      Ensures-after _ _ (Stores input) (λ _ _. tt) (λ _ _. tt) _ _ s
        λ self s1.
          Ensures-after _ _ (Stores input) (λ _ _. tt) (λ _ _. tt) _ _ s1
            λ _ s2.
              Ensures-after _ _ (Stores input) (λ _ _. tt) (λ _ _. tt) _ _ s2
                λ _ s3.
                  Ensures-after _ _ (Stores input) (λ _ _. tt) (λ _ _. tt) _ _ s3
                    λ (completed : RunResult) s4.
                      Ensures-after _ _ (Stores input) (λ _ _. tt) (λ _ _. tt) _ _ s4
                        λ _ s5. store-Stores input completed s5

  submit_turn-Stores :
      (s : Coordinator) (input : TurnInput) (w : World Coordinator Call Reply) (n : ℕ)
      → validate_turn_input input ≡ ok tt
      → lookup s.turns input.interaction_id ≡ none
      → Stores input
          (run w n s (submit_turn canonical input)).outcome
          (run w n s (submit_turn canonical input)).final
  unfolding submit_found
  submit_turn-Stores s input w n v fresh =
      subst (λ x. Stores input x.outcome x.final)
        (sym (
          run-submit canonical w n s input v
          ∙ ap (λ o. run w n s (submit_found canonical input o)) fresh))
        (Ensures-run Anything Anyhow w (λ _ _. tt) (Stores input) (begin_turn canonical input) n s
          (begin_turn-Stores input s))

  -- When `submitTurn` has returned a result for an interaction that the journal did not hold,
  -- then either the journal keeps that result as uncertain, with what a recovery needs, or the
  -- same call made again from the state it left, whatever the guide, the engine and the narrator
  -- would do then, returns that same result, calls nothing and changes nothing.
  pub submit_turn-twice :
      (s : Coordinator) (input : TurnInput) (r : TurnResult) (w : World Coordinator Call Reply)
      (n : ℕ)
      → lookup s.turns input.interaction_id ≡ none
      → (run w n s (submit_turn canonical input)).outcome ≡ ok r
      → ((recovery : RecoveryRecord) × (lookup
              (run w n s (submit_turn canonical input)).final.turns
              input.interaction_id
            ≡ some (uncertain (fingerprint input) r recovery)))
        ⊎ ((w' : World Coordinator Call Reply) (n' : ℕ)
            → run w' n'
                (run w n s (submit_turn canonical input)).final
                (submit_turn canonical input)
              ≡ at_once (ok r) (run w n s (submit_turn canonical input)).final)
  submit_turn-twice s input r w n fresh returned =
      elim (Outcome-cases (validate_turn_input input)) [
        | inr (e, v) ↦ absurd (
            ok-err
              (sym returned ∙ ap (λ x. x.outcome) (submit_turn-invalid canonical w n s input e v)))
        | inl (u, v) ↦
            elim (subst (λ o. Stores input o (run w n s (submit_turn canonical input)).final)
              returned (submit_turn-Stores s input w n v fresh)) [
                | inr uncertain' ↦ inl uncertain'
                | inl h ↦ inr λ w' n'.
                    (submit_turn-complete canonical w' n'
                        (run w n s (submit_turn canonical input)).final input (fingerprint input) r
                        v h).0
                      refl
              ]
      ]
