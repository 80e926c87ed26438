-- ===== src/GameEngine/Adapter/Execute.antt =====
-- What an execute call may send, and what the adapter believes of its result.
use sttork.Base.{
  ℕ, suc, ◌≤◌, ◌≡◌, refl, sym, subst, ◌⊎◌, inl, inr, Option, none, some, arith, Bool, leb,
  if◌then◌else◌,
}
use sttork.Base.Outcome.{Outcome, ok, err}
use sttork.Async.Rules.{Ensures, Ensures-lift, Ensures-state}
use sttork.Contracts.Engine.{Boundary, ExecuteRequest, ExecuteStatus, committed, ExecuteResult}
use sttork.GameEngine.Protocol.{RequestBody}
use sttork.GameEngine.Checks.{AdapterError, execution_uncertain, validate_execute_result}
use sttork.GameEngine.Adapter.State.{
  execute, ready, execute_uncertain, Adapter, Call, next_message_id, exchange, digest_sha256,
}
use sttork.GameEngine.Adapter.Guards.{admit_execute}
use sttork.GameEngine.Adapter.Replies.{accept_execute}
use sttork.GameEngine.Adapter.Operations.{execute_method}
use sttork.GameEngine.Adapter.Lifecycle.{execute-revision}
use sttork.GameEngine.Adapter.Steps.{
  Untouched, Meets-new_message, Meets-begin, Meets-ended, Meets-submit,
}

-- The only message is the request itself.
abbrev pub Submits : ExecuteRequest → Call → Adapter → Type 0
Submits input next_message_id s = Unit
Submits input (exchange m) s = m.body ≡ RequestBody.execute input
Submits input (digest_sha256 _) s = ⊥

abbrev larger : ℕ → ℕ → ℕ
larger a b = if leb a b then b else a

-- The revisions of a result, and the revision that the adapter then knows.
abbrev pub Transition : ExecuteStatus → ExecuteRequest → ExecuteResult → Option ℕ → Adapter → Type 0
Transition committed input result none s' = ⊥
Transition committed input result (some r) s' =
    (result.previous_revision ≡ input.expected_revision)
    × (result.revision ≡ suc input.expected_revision)
    × (s'.revision ≡ some (larger r result.revision))
    × ((r ≡ input.expected_revision) ⊎ (result.revision ≤ r))
Transition (ExecuteStatus.rejected _) input result r s' =
    (result.previous_revision ≡ result.revision) × (s'.revision ≡ r)

abbrev pub Executed :
    Adapter → ExecuteRequest → Outcome AdapterError ExecuteResult → Adapter → Type 0
Executed s input (ok result) s' =
    (result.request_id ≡ input.request_id)
    × (result.command ≡ input.command)
    × (s'.recovery ≡ ready)
    × Transition result.status input result s.revision s'
Executed s input (err e) s' =
    (s' ≡ s)
    ⊎ ((cause : AdapterError) × (e
          ≡ execution_uncertain input.request_id input.expected_revision cause)
        × (s' ≡ record s {
          recovery = execute_uncertain input.request_id input.expected_revision input.command;
        }))

module _ (s next : Adapter) (input : ExecuteRequest) (r : ℕ) (b : Boundary) (result : ExecuteResult)
    (known : s.revision ≡ some r) (taken : accept_execute s input r b result ≡ ok next) where
  accept_execute-Transition :
      (status : ExecuteStatus)
      → result.status ≡ status
      → Transition status input result (some r) (record next { operation_in_flight = none })
  unfolding accept_execute validate_execute_result
  accept_execute-Transition committed st = ground arith
  accept_execute-Transition (ExecuteStatus.rejected why) st = ground arith

  accept_execute-same :
      (result.request_id ≡ input.request_id)
      × (result.command ≡ input.command)
      × (next.recovery ≡ ready)
      × (next.operation_in_flight ≡ s.operation_in_flight)
  unfolding accept_execute validate_execute_result
  accept_execute-same = ground arith

-- An execute call on an idle adapter sends at most its own request. A result that it returns is
-- for that request and leaves the adapter ready; a committed one moves from the expected revision
-- to the next, and the adapter then knows the larger of that revision and the one it knew; a
-- rejected one leaves the known revision. If the call throws, the adapter is unchanged, or it
-- remembers exactly this request as uncertain.
pub execute_method-Executed :
    (s : Adapter) (input : ExecuteRequest) (aborted : Bool)
    → s.operation_in_flight ≡ none
    → Ensures (Submits input) Untouched (Executed s input) (execute_method input aborted) s
unfolding execute_method
execute_method-Executed s input aborted idle = Ensures-state (Submits input) Untouched _ _ s (
    Ensures-lift (Submits input) Untouched _ (admit_execute s input aborted) _ s
      (λ g a.
        Meets-new_message (Submits input) _ (RequestBody.execute input) _ s tt
          (λ m same. Meets-begin (Submits input) _ execute _ s idle (
            Meets-ended (Submits input) _ execute _ _ (
              Meets-submit (Submits input) _ m _ _ _ _ _ same
                (λ result next e.
                  let s' : Adapter = record s { operation_in_flight = some execute } in
                  let known = execute-revision s input aborted g a in
                  let (id, command, settled, flying) =
                    accept_execute-same s' next input g.0 g.1 result known e in
                  (
                    flying,
                    (
                      id,
                      command,
                      settled,
                      subst
                          (λ o.
                            Transition result.status input result o
                              (record next { operation_in_flight = none }))
                          (sym known)
                          (accept_execute-Transition s' next input g.0 g.1 result known e
                            result.status refl),
                    ),
                  ))
                (λ e. (refl, inr (e, refl, ground arith))))))
          (λ _. inl refl))
      (λ _ _. inl refl))
