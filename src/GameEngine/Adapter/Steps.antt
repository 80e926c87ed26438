-- ===== src/GameEngine/Adapter/Steps.antt =====
-- A rule for each step that the adapter's methods are made of.
use sttork.Base.{◌≡◌, refl, sym, subst, Option, none, some, arith}
use sttork.Base.Outcome.{Outcome, ok, err}
use sttork.Async.{ret, throw, get, put, await, ◌>>=◌, finally}
use sttork.Async.Rules.{
  Ensures, Ensures-ret, Ensures-throw, Ensures-ask, Ensures-await, Ensures-put, Ensures-state,
  Ensures-bind, Ensures-lift, Ensures-lift_last, Ensures-get, Handled, Ensures-finally,
  Ensures-catch, Ensures-mono, Rethrow,
}
use sttork.GameEngine.Protocol.{EngineWorkerRequest, RequestBody, ResponseBody}
use sttork.GameEngine.Adapter.Replies.{or_port, open_response}
use sttork.GameEngine.Checks.{require_nonempty_string, AdapterError, state_error}
use sttork.GameEngine.Adapter.State.{
  Operation, Recovery, Adapter, Call, next_message_id, exchange, Reply,
}
use sttork.GameEngine.Adapter.Operations.{
  Method, begin_operation, end_operation, new_message, send, settle, submit, require_idle,
  require_running,
}

-- While an operation waits, the other tasks leave the adapter alone: `Exclusion` proves it of the
-- adapter's own methods, the only code that writes its fields.
abbrev pub Untouched : Adapter → Adapter → Type 0
Untouched s s' = s' ≡ s

idle-ok : (o : Option Operation) (x : AdapterError) → o ≡ none → require_idle o ≡ err x → ⊥
unfolding require_idle
idle-ok o x e h = ground arith

busy-err : (o : Option Operation) (o' : Operation) → o ≡ some o' → require_idle o ≡ ok tt → ⊥
unfolding require_idle
busy-err o o' e h = ground arith

idle-state_error :
    (o : Option Operation) (x : AdapterError) → require_idle o ≡ err x → x ≡ state_error
unfolding require_idle
idle-state_error o x h = ground arith

running-ok :
    (o : Operation) (o' : Option Operation) (x : AdapterError)
    → o' ≡ some o
    → require_running o o' ≡ err x
    → ⊥
unfolding require_running
running-ok o o' x e h = ground arith

module _ (may : Call → Adapter → Type 0) {A : Type 0}
    (Q : Outcome AdapterError A → Adapter → Type 0) where
  abbrev pub Meets : Method A → Adapter → Type 0
  Meets p s = Ensures may Untouched Q p s

  pub Meets-ret : (a : A) (s : Adapter) → Q (ok a) s → Meets (ret a) s
  Meets-ret = Ensures-ret Reply may Untouched Q

  pub Meets-throw : (e : AdapterError) (s : Adapter) → Q (err e) s → Meets (throw e) s
  Meets-throw = Ensures-throw Reply may Untouched Q

  -- A reply to a call of `nextMessageId`, and its check.
  pub Meets-new_message :
      (body : RequestBody) (k : EngineWorkerRequest → Method A) (s : Adapter)
      → may next_message_id s
      → ((message : EngineWorkerRequest) → message.body ≡ body → Meets (k message) s)
      → ((e : AdapterError) → Q (err e) s)
      → Meets (new_message body >>= k) s
  unfolding new_message
  Meets-new_message body k s m good bad = Ensures-bind may Untouched Q _ k s (
      Ensures-bind may Untouched _ _ _ s (
        Ensures-ask may Untouched _ _ _ s m λ reply. Ensures-ret Reply may Untouched _ _ s (
          Ensures-lift may Untouched _ (or_port reply) _ s
            (λ id _.
              Ensures-lift may Untouched _ (require_nonempty_string id) _ s
                (λ _ _. Ensures-ret Reply may Untouched _ _ s (good _ refl)) (λ e _. bad e))
            (λ e _. bad e))))

  pub Meets-begin :
      (o : Operation) (k : Unit {0} → Method A) (s : Adapter)
      → s.operation_in_flight ≡ none
      → Meets (k tt) (record s { operation_in_flight = some o })
      → Meets (begin_operation o >>= k) s
  unfolding begin_operation
  Meets-begin o k s e h = Ensures-bind may Untouched Q _ k s (
      Ensures-state may Untouched _ _ s (
        Ensures-lift may Untouched _ (require_idle s.operation_in_flight) _ s
          (λ _ _. Ensures-put may Untouched _ _ _ s (Ensures-ret Reply may Untouched _ _ _ h))
          (λ x y. absurd (idle-ok s.operation_in_flight x e y))))

  pub Meets-begin_busy :
      (o o' : Operation) (k : Unit {0} → Method A) (s : Adapter)
      → s.operation_in_flight ≡ some o'
      → Q (err state_error) s
      → Meets (begin_operation o >>= k) s
  unfolding begin_operation
  Meets-begin_busy o o' k s e h = Ensures-bind may Untouched Q _ k s (
      Ensures-state may Untouched _ _ s (
        Ensures-lift may Untouched _ (require_idle s.operation_in_flight) _ s
          (λ _ y. absurd (busy-err s.operation_in_flight o' e y))
          (λ x y. subst (λ z. Q (err z) s) (sym (idle-state_error s.operation_in_flight x y)) h)))

  rethrown : (r : Outcome AdapterError A) (s : Adapter) → Q r s → Meets (Rethrow may Untouched r) s
  rethrown (ok a) s q = Meets-ret a s q
  rethrown (err e) s q = Meets-throw e s q

  abbrev pub Ending : Operation → Outcome AdapterError A → Adapter → Type 0
  Ending o r s = (s.operation_in_flight ≡ some o) × Q r (record s { operation_in_flight = none })

  -- The operation is still in flight when its block ends, and `Q` holds once it is released.
  pub Meets-ended :
      (o : Operation) (p : Method A) (s : Adapter)
      → Ensures may Untouched (Ending o) p s
      → Meets (finally p (end_operation o)) s
  unfolding end_operation
  Meets-ended o p s h = Ensures-finally may Untouched Q p (end_operation o) s (
      Ensures-mono may Untouched (Ending o) _
        (λ r s' q. Ensures-bind may Untouched Q _ _ s' (
          Ensures-state may Untouched _ _ s' (
            Ensures-lift may Untouched _ (require_running o s'.operation_in_flight) _ s'
              (λ _ _.
                Ensures-put may Untouched _ _ _ s'
                  (Ensures-ret Reply may Untouched _ _ _ (rethrown r _ q.1)))
              (λ x y. absurd (running-ok o s'.operation_in_flight x q.0 y)))))
        p s h)

  pub Meets-await :
      (c : Call) (k : Reply c → Method A) (s : Adapter)
      → may c s
      → ((reply : Reply c) → Meets (k reply) s)
      → Meets (await c ret >>= k) s
  Meets-await c k s m h = Ensures-bind may Untouched Q _ k s (
      Ensures-await may Untouched _ _ _ s m
        λ reply s' same. rw same (Ensures-ret Reply may Untouched _ reply s (h reply)))

  pub Meets-send :
      {B : Type 0} (message : EngineWorkerRequest) (expect : ResponseBody → Outcome AdapterError B)
      (k : B → Method A) (s : Adapter)
      → may (exchange message) s
      → ((result : B) → Meets (k result) s)
      → ((e : AdapterError) → Q (err e) s)
      → Meets (send message expect >>= k) s
  unfolding send
  Meets-send message expect k s m good bad = Ensures-bind may Untouched Q _ k s (
      Ensures-bind may Untouched _ _ _ s (
        Ensures-await may Untouched _ _ _ s m λ reply s' same. rw same (
          Ensures-ret Reply may Untouched _ _ s (
            Ensures-lift_last Reply may Untouched _ (open_response message expect reply) s
              (λ result _. good result) (λ e _. bad e)))))

  pub Meets-settle :
      (accept : Adapter → Outcome AdapterError Adapter) (result : A) (s : Adapter)
      → ((next : Adapter) → accept s ≡ ok next → Q (ok result) next)
      → ((e : AdapterError) → Q (err e) s)
      → Meets (settle accept result) s
  Meets-settle accept result s good bad = Ensures-state may Untouched Q _ s (
      Ensures-lift may Untouched Q (accept s) _ s
        (λ next e. Ensures-put may Untouched Q _ _ s (Meets-ret result next (good next e)))
        (λ e _. bad e))

  pub Meets-submit :
      (message : EngineWorkerRequest) (expect : ResponseBody → Outcome AdapterError A)
      (accept : A → Adapter → Outcome AdapterError Adapter) (recovery : Recovery)
      (wrap : AdapterError → AdapterError) (s : Adapter)
      → may (exchange message) s
      → ((result : A) (next : Adapter) → accept result s ≡ ok next → Q (ok result) next)
      → ((e : AdapterError) → Q (err (wrap e)) (record s { recovery = recovery }))
      → Meets (submit message expect accept recovery wrap) s
  unfolding submit send
  Meets-submit message expect accept recovery wrap s m good bad =
      Ensures-catch may Untouched Q _ _ s (
        Ensures-bind may Untouched _ _ _ s (
          Ensures-bind may Untouched _ _ _ s (
            Ensures-await may Untouched _ _ _ s m λ reply s' same. rw same (
              Ensures-ret Reply may Untouched _ _ s (
                Ensures-lift_last Reply may Untouched _ (open_response message expect reply) s
                  (λ result _. settled result) (λ e _. failed e))))))
    where
      failed :
          (e : AdapterError)
          → Meets (get λ self. put (record self { recovery = recovery }) (throw (wrap e))) s
      failed e =
          Ensures-get may Untouched Q _ s
            (Ensures-put may Untouched Q _ _ s (Meets-throw _ _ (bad e)))

      settled :
          (result : A)
          → Ensures may Untouched
              (Handled {R = Reply} may Untouched Q
                λ e. get λ self. put (record self { recovery = recovery }) (throw (wrap e)))
              (settle (accept result) result)
              s
      settled result = Ensures-state may Untouched _ _ s (
          Ensures-lift may Untouched _ (accept result s) _ s
            (λ next e.
              Ensures-put may Untouched _ _ _ s
                (Ensures-ret Reply may Untouched _ _ _ (good result next e)))
            (λ e _. failed e))
