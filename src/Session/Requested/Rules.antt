-- ===== src/Session/Requested/Rules.antt =====
-- Which calls a turn may make, and the rules that prove it of a part of a turn in every state.
use sttork.Base.Text.{Text}
use sttork.Contracts.Engine.{ExecuteRequest}
use sttork.Base.{◌⊎◌, ◌≡◌, Bool, true, false, if◌then◌else◌, List, [], ◌∷◌, ◌++◌, some}
use sttork.Base.Outcome.{Outcome, ok, err}
use sttork.Async.{ret, throw, get, put, ask, await, ◌>>=◌, catch, finally, lift}
use sttork.Async.Rules.{
  Ensures, Next, Handled, Rethrow, Ensures-bind, Ensures-catch, Ensures-finally, Ensures-mono,
}
use sttork.Session.Events.{SemanticEvent, engine_command_requested}
use sttork.Session.State.{
  Fingerprint, TurnResult, RecoveryRecord, uncertain, lookup, Call, next_stamp, next_request_id,
  next_narration_id, aborted, publish, decide, inspect_public_state, snapshot, execute, prepare,
  settled, run_ended, Reply, Coordinator, CoordinatorError,
}
use sttork.Session.Turn.{Method}

-- The last event of the run is the request's own.
abbrev pub IsLogged : ExecuteRequest → Coordinator → Type 0
IsLogged request s =
    (before : List SemanticEvent) × (e : SemanticEvent) × (s.local ≡ before ++ e ∷ [])
    × (e.payload ≡ engine_command_requested request)

-- The journal holds a turn of which the request's outcome is uncertain.
abbrev pub IsUncertain : ExecuteRequest → Coordinator → Type 0
IsUncertain request s =
    (id : Text) × (fp : Fingerprint) × (stored : TurnResult) × (recovery : RecoveryRecord) × (lookup
        s.turns id
      ≡ some (uncertain fp stored recovery))
    × (recovery.request ≡ request)

-- When a request may be executed; every other call may be made at any time.
abbrev pub Requested : Call → Coordinator → Type 0
Requested (execute request) s = IsLogged request s ⊎ IsUncertain request s
Requested next_stamp s = Unit
Requested next_request_id s = Unit
Requested next_narration_id s = Unit
Requested aborted s = Unit
Requested (publish e) s = Unit
Requested (decide input projected intent) s = Unit
Requested inspect_public_state s = Unit
Requested snapshot s = Unit
Requested (prepare request) s = Unit
Requested (settled id) s = Unit
Requested (run_ended id) s = Unit

-- The other tasks leave the run's array as it is.
abbrev pub KeepsLocal : Coordinator → Coordinator → Type 0
KeepsLocal s s' = s'.local ≡ s.local

abbrev pub Whatever : {A : Type 0} → Outcome CoordinatorError A → Coordinator → Type 0
Whatever r s = Unit

-- Whatever the state, each call of the method is one that may be made.
unfoldable pub IsQuiet : {A : Type 0} → Method A → Type 0
IsQuiet p = (s : Coordinator) → Ensures Requested KeepsLocal Whatever p s

-- A call that may be made in every state.
abbrev pub IsAlwaysMade : Call → Type 0
IsAlwaysMade c = (s : Coordinator) → Requested c s

pub IsQuiet-throw : (A : Type 0) (e : CoordinatorError) → IsQuiet {A = A} (throw e)
unfolding IsQuiet Ensures
IsQuiet-throw A e s = tt

module _ {A : Type 0} where
  pub IsQuiet-ret : (a : A) → IsQuiet (ret a)
  unfolding IsQuiet Ensures
  IsQuiet-ret a s = tt

  pub IsQuiet-get :
      (k : Coordinator → Method A) → ((s : Coordinator) → IsQuiet (k s)) → IsQuiet (get k)
  unfolding IsQuiet Ensures
  IsQuiet-get k h s = h s s

  pub IsQuiet-put : (s : Coordinator) (p : Method A) → IsQuiet p → IsQuiet (put s p)
  unfolding IsQuiet Ensures
  IsQuiet-put s p h s' = h s

  pub IsQuiet-ask :
      (c : Call) (k : Reply c → Method A)
      → IsAlwaysMade c
      → ((r : Reply c) → IsQuiet (k r))
      → IsQuiet (ask c k)
  unfolding IsQuiet Ensures
  IsQuiet-ask c k m h s = (m s, λ r. h r s)

  pub IsQuiet-await :
      (c : Call) (k : Reply c → Method A)
      → IsAlwaysMade c
      → ((r : Reply c) → IsQuiet (k r))
      → IsQuiet (await c k)
  unfolding IsQuiet Ensures
  IsQuiet-await c k m h s = (m s, λ r s' o. h r s')

  pub IsQuiet-lift : (o : Outcome CoordinatorError A) → IsQuiet (lift o)
  IsQuiet-lift (ok a) = IsQuiet-ret a
  IsQuiet-lift (err e) = IsQuiet-throw A e

  pub IsQuiet-if :
      (b : Bool) (p q : Method A) → IsQuiet p → IsQuiet q → IsQuiet (if b then p else q)
  IsQuiet-if true p q hp hq = hp
  IsQuiet-if false p q hp hq = hq

  pub IsQuiet-catch :
      (p : Method A) (h : CoordinatorError → Method A)
      → IsQuiet p
      → ((e : CoordinatorError) → IsQuiet (h e))
      → IsQuiet (catch p h)
  unfolding IsQuiet
  IsQuiet-catch p h hp hh s =
      Ensures-catch Requested KeepsLocal Whatever p h s
        (Ensures-mono Requested KeepsLocal Whatever _ passed p s (hp s))
    where
      passed :
          (o : Outcome CoordinatorError A) (s' : Coordinator)
          → Unit {0}
          → Handled {R = Reply} Requested KeepsLocal Whatever h o s'
      passed (ok a) s' i = tt
      passed (err e) s' i = hh e s'

  pub IsQuiet-bind :
      {B : Type 0} (p : Method A) (f : A → Method B)
      → IsQuiet p
      → ((a : A) → IsQuiet (f a))
      → IsQuiet (p >>= f)
  unfolding IsQuiet
  IsQuiet-bind {B} p f hp hf s =
      Ensures-bind Requested KeepsLocal Whatever p f s
        (Ensures-mono Requested KeepsLocal Whatever _ passed p s (hp s))
    where
      passed :
          (o : Outcome CoordinatorError A) (s' : Coordinator)
          → Unit {0}
          → Next {R = Reply} Requested KeepsLocal (Whatever {A = B}) f o s'
      passed (ok a) s' i = hf a s'
      passed (err e) s' i = tt

-- A block with a cleanup.
module _ {A : Type 0} (p : Method A) (c : Method (Unit {0})) where
  rethrow-IsQuiet :
      (o : Outcome CoordinatorError A) → IsQuiet (Rethrow {R = Reply} Requested KeepsLocal o)
  rethrow-IsQuiet (ok a) = IsQuiet-ret a
  rethrow-IsQuiet (err e) = IsQuiet-throw A e

  pub IsQuiet-finally : IsQuiet p → IsQuiet c → IsQuiet (finally p c)
  unfolding IsQuiet
  IsQuiet-finally hp hc s = Ensures-finally Requested KeepsLocal Whatever p c s (
      Ensures-mono Requested KeepsLocal Whatever _
        (λ o s' i.
          IsQuiet-bind c (λ _. Rethrow Requested KeepsLocal o) hc (λ _. rethrow-IsQuiet o) s')
        p s (hp s))

pub ruleset quiet = (
  IsQuiet-ret, IsQuiet-throw, IsQuiet-get, IsQuiet-put, IsQuiet-ask, IsQuiet-await, IsQuiet-lift,
  IsQuiet-if, IsQuiet-catch, IsQuiet-finally, IsQuiet-bind,
)
