-- ===== src/Session/Replay.antt =====
-- The journal of turns: a turn that has been stored is not run again
-- (`submitTurn` of packages/session/src/semantic-turn-coordinator.ts).
use sttork.Base.{
  ℕ, ◌≤◌, ◌<◌, ◌≡◌, ◌≢◌, refl, sym, ap, ◌∙◌, Bool, true, none, some, List, [], ◌∷◌, inl, inr,
  Bool-cases, holds-true, holds-false, length, arith,
}
use sttork.Base.Text.{Text, ◌===◌, Text-discrete}
use sttork.Base.Outcome.{Outcome, ok, err}
use sttork.Async.{ret, lift, ◌>>=◌, World, Run, run}
use sttork.Session.State.{
  TurnInput, TurnResult, Fingerprint, Fingerprint-discrete, StoredTurn, complete, CoordinatorError,
  conflict, busy, capacity, Coordinator, Call, Reply, lookup, set, fingerprint, validate_turn_input,
}
use sttork.Session.Journal.{admit_turn, same_turn}
use sttork.Session.Turn.{Method}
use sttork.Session.Submit.{submit_turn, submit_found, resume, begin_turn}

pub lookup-set :
    (l : List (Text × StoredTurn)) (id : Text) (t : StoredTurn) → lookup (set id t l) id ≡ some t
unfolding lookup set
lookup-set [] id t = rw (holds-true (Text-discrete id id) refl) refl
lookup-set ((k, u) ∷ rest) id t = elim (Bool-cases (k === id)) [
  | inl e ↦ rw (e, e) refl
  | inr e ↦ rw (e, e) (lookup-set rest id t)
]

-- A method that ends at once: its outcome, the state as it was, no call.
abbrev pub at_once :
    {A : Type 0}
    → Outcome CoordinatorError A
    → Coordinator
    → Run Coordinator CoordinatorError Call A
at_once o s = record { outcome = o; final = s; calls = [] }

-- Why a new turn is refused.
pub data Refuses (s : Coordinator) : CoordinatorError → Type 0 where
  full : s.max_turns ≤ length s.turns → Refuses s (capacity s.max_turns)
  active :
      (interaction_id : Text)
      → length s.turns < s.max_turns
      → s.active_interaction_id ≡ some interaction_id
      → Refuses s busy
  opening : length s.turns < s.max_turns → s.opening_pending ≡ true → Refuses s busy

Refuses-admit : (s : Coordinator) (e : CoordinatorError) → Refuses s e → admit_turn s ≡ err e
unfolding admit_turn
Refuses-admit s _ (full h) = ground arith
Refuses-admit s _ (active id h a) = ground (arith, a)
Refuses-admit s _ (opening h o) = ground (arith, o)

same_turn-same : (id : Text) (fp : Fingerprint) → same_turn id fp fp ≡ ok tt
unfolding same_turn
same_turn-same id fp = rw (holds-true (Fingerprint-discrete fp fp) refl) refl

same_turn-other :
    (id : Text) (fp fp' : Fingerprint) → fp ≢ fp' → same_turn id fp fp' ≡ err (conflict id)
unfolding same_turn
same_turn-other id fp fp' d = rw (holds-false (Fingerprint-discrete fp fp') d) refl

module _ (canonical : Text → Bool) (w : World Coordinator Call Reply) (n : ℕ) where
  run-lift :
      {A B : Type 0} (o : Outcome CoordinatorError A) (a : A) (k : A → Method B) (s : Coordinator)
      → o ≡ ok a
      → run w n s (lift o >>= k) ≡ run w n s (k a)
  unfolding ◌>>=◌
  run-lift o a k s h = ap (λ p. run w n s (lift p >>= k)) h

  run-lift_err :
      {A B : Type 0} (o : Outcome CoordinatorError A) (e : CoordinatorError) (k : A → Method B)
      (s : Coordinator)
      → o ≡ err e
      → run w n s (lift o >>= k) ≡ at_once (err e) s
  unfolding ◌>>=◌ run
  run-lift_err o e k s h = ap (λ p. run w n s (lift p >>= k)) h

  pub run-submit :
      (s : Coordinator) (input : TurnInput)
      → validate_turn_input input ≡ ok tt
      → run w n s (submit_turn canonical input)
        ≡ run w n s (submit_found canonical input (lookup s.turns input.interaction_id))
  unfolding submit_turn run ◌>>=◌
  run-submit s input h = rw h refl

  pub submit_turn-invalid :
      (s : Coordinator) (input : TurnInput) (e : CoordinatorError)
      → validate_turn_input input ≡ err e
      → run w n s (submit_turn canonical input) ≡ at_once (err e) s
  unfolding submit_turn submit_found
  submit_turn-invalid s input e h = run-lift_err (validate_turn_input input) e _ s h

  resume-same :
      (s : Coordinator) (id : Text) (fp : Fingerprint) (r : TurnResult)
      → run w n s (resume canonical id fp (complete fp r)) ≡ at_once (ok r) s
  unfolding resume run
  resume-same s id fp r = run-lift (same_turn id fp fp) tt (λ _. ret r) s (same_turn-same id fp)

  resume-other :
      (s : Coordinator) (id : Text) (fp fp' : Fingerprint) (r : TurnResult)
      → fp' ≢ fp
      → run w n s (resume canonical id fp (complete fp' r)) ≡ at_once (err (conflict id)) s
  unfolding resume
  resume-other s id fp fp' r d =
      run-lift_err (same_turn id fp' fp) (conflict id) (λ _. ret r) s (same_turn-other id fp' fp d)

  -- For a valid input whose interaction the journal holds as complete, `submitTurn` ends at once, with
  -- no call and the state as it was: it returns the stored result if the stored fingerprint is the
  -- input's, and throws a conflict if it is another one.
  pub submit_turn-complete :
      (s : Coordinator) (input : TurnInput) (fp : Fingerprint) (r : TurnResult)
      → validate_turn_input input ≡ ok tt
      → lookup s.turns input.interaction_id ≡ some (complete fp r)
      → (fp ≡ fingerprint input → run w n s (submit_turn canonical input) ≡ at_once (ok r) s)
        × (fp ≢ fingerprint input
            → run w n s (submit_turn canonical input)
              ≡ at_once (err (conflict input.interaction_id)) s)
  unfolding submit_found
  submit_turn-complete s input fp r v h =
      let found = run-submit s input v ∙ ap (λ o. run w n s (submit_found canonical input o)) h in
      (
        λ e.
            found
            ∙ ap (λ g. run w n s (resume canonical input.interaction_id g (complete fp r))) (sym e)
            ∙ resume-same s input.interaction_id fp r,
        λ d. found ∙ resume-other s input.interaction_id (fingerprint input) fp r d,
      )

  begin-refused :
      (s : Coordinator) (input : TurnInput) (e : CoordinatorError)
      → admit_turn s ≡ err e
      → run w n s (begin_turn canonical input) ≡ at_once (err e) s
  unfolding begin_turn run ◌>>=◌
  begin-refused s input e a = run-lift_err (admit_turn s) e _ s a

  -- For a valid input that the journal does not hold, `submitTurn` throws at once, with no call and
  -- the state as it was: the capacity error with the journal's limit when the journal holds at least
  -- so many turns, and the busy error when there is room but another interaction is active or the
  -- opening is pending.
  pub submit_turn-refused :
      (s : Coordinator) (input : TurnInput) (e : CoordinatorError)
      → validate_turn_input input ≡ ok tt
      → lookup s.turns input.interaction_id ≡ none
      → Refuses s e
      → run w n s (submit_turn canonical input) ≡ at_once (err e) s
  unfolding submit_found
  submit_turn-refused s input e v h a =
      run-submit s input v
      ∙ ap (λ o. run w n s (submit_found canonical input o)) h
      ∙ begin-refused s input e (Refuses-admit s e a)
