-- ===== src/DorkWorker/Runtime/Journal.antt =====
-- Every method keeps the receipt journal sound.
pub mod Execute
pub mod Methods
pub mod Exchange
pub mod History
use sttork.Base.{
  ℕ, ◌≡◌, refl, Bool, true, false, not, ◌||◌, List, Option, none, some, if◌then◌else◌, ◌==◌, arith,
}
use sttork.Base.Text.{Text}
use sttork.Base.Outcome.{Outcome, ok, err}
use sttork.Async.{ret, throw, get, put, ask, await, ◌>>=◌, catch, finally, lift, state}
use sttork.Async.Rules.{Ensures, Ensures-lift, Ensures-put}
use sttork.Async.Keeps.{
  Leads, Leads-ret, Leads-throw, Leads-lift, Leads-ask, Leads-await, Leads-state, Leads-if,
  Leads-bind, Leads-catch, Every,
}
use sttork.Contracts.Engine.{ExecuteRequest, ExecuteResult, PublicEngineState, Rejection}
use sttork.GameEngine.Protocol.{ResponseBody}
use sttork.DorkWorker.Snapshot.Format.{Utf8, WorkerSnapshotReceipt}
use sttork.DorkWorker.Runtime.State.{
  DorkWorkerRuntime, Call, Reply, RuntimeError, Method, Executed, turn, over_limit, threw, inspect,
}
use sttork.DorkWorker.Runtime.Receipts.{find, receipt_of, record_receipt}
use sttork.DorkWorker.Runtime.Execute.{
  execute_method, execute_in, execute_found, execute_new, run_command, after_execute, reject,
  record_result, repeated,
}
use sttork.DorkWorker.Runtime.Meanwhile.{Meanwhile, nothing, disposes}
use sttork.DorkWorker.Runtime.Sound.{
  IsWithin, record_receipt-IsWithin, Meanwhile-IsWithin, Meanwhile-find,
}

-- A method that only reads or waits keeps whatever the other tasks keep.
unfoldable pub Reads : {A : Type 0} → Method A → Type 1
Reads p =
    (pre : DorkWorkerRuntime → Type 0)
    → ((s s' : DorkWorkerRuntime) → pre s → Meanwhile s s' → pre s')
    → Leads RuntimeError Reply Meanwhile pre pre p

pub Reads-ask : (c : Call) → Reads (ask c ret)
unfolding Reads
Reads-ask c pre stable = Leads-ask RuntimeError Reply Meanwhile pre pre stable (λ _ h. h) c

pub Reads-await : (c : Call) → Reads (await c ret)
unfolding Reads
Reads-await c pre stable = Leads-await RuntimeError Reply Meanwhile pre pre stable (λ _ h. h) c

pub Reads-lift : {A : Type 0} (o : Outcome RuntimeError A) → Reads (lift o)
unfolding Reads
Reads-lift o pre stable = Leads-lift RuntimeError Reply Meanwhile pre pre stable (λ _ h. h) o

pub Reads-state : Reads state
unfolding Reads Leads Ensures
Reads-state pre stable s h = h

pub Reads-bind :
    {A B : Type 0} (p : Method A) (f : A → Method B)
    → Reads p
    → ((a : A) → Reads (f a))
    → Reads (p >>= f)
unfolding Reads
Reads-bind p f hp hf pre stable =
    Leads-bind RuntimeError Reply Meanwhile pre pre stable (λ _ h. h) p f (hp pre stable)
      (λ a. hf a pre stable)

pub Reads-ret : {A : Type 0} (a : A) → Reads (ret a)
unfolding Reads
Reads-ret a pre stable = Leads-ret RuntimeError Reply Meanwhile pre pre stable (λ _ h. h) a

pub Reads-throw : (A : Type 0) (e : RuntimeError) → Reads {A = A} (throw e)
unfolding Reads
Reads-throw A e pre stable = Leads-throw RuntimeError Reply Meanwhile pre pre stable (λ _ h. h) A e

pub Reads-if :
    {A : Type 0} (c : Bool) (p q : Method A) → Reads p → Reads q → Reads (if c then p else q)
unfolding Reads
Reads-if c p q hp hq pre stable =
    Leads-if RuntimeError Reply Meanwhile pre pre stable (λ _ h. h) c p q (hp pre stable)
      (hq pre stable)

pub Reads-catch :
    {A : Type 0} (p : Method A) (h : RuntimeError → Method A)
    → Reads p
    → ((e : RuntimeError) → Reads (h e))
    → Reads (catch p h)
unfolding Reads
Reads-catch p h hp hh pre stable =
    Leads-catch RuntimeError Reply Meanwhile pre pre p h (hp pre stable) (λ e. hh e pre stable)

pub inspect-Reads : (session : ℕ) → Reads (inspect session)
unfolding inspect
inspect-Reads session = search (Reads-bind, Reads-ask, Reads-lift) depth 10

pub ruleset reads = (
  Reads-bind, Reads-ask, Reads-await, Reads-lift, Reads-state, Reads-ret, Reads-throw, Reads-if,
  Reads-catch, inspect-Reads,
)

module _ (utf8 : Utf8) (m b : ℕ) (pre : DorkWorkerRuntime → Type 0)
    (stable : (s s' : DorkWorkerRuntime) → pre s → Meanwhile s s' → pre s')
    (enough : (s : DorkWorkerRuntime) → pre s → IsWithin utf8 m b s) where
  -- A method that starts where `pre` holds ends within the limits.
  unfoldable pub Keeps : {A : Type 0} → Method A → Type 0
  Keeps p = Leads RuntimeError Reply Meanwhile pre (IsWithin utf8 m b) p

  pub Keeps-ret : {A : Type 0} (a : A) → Keeps (ret a)
  unfolding Keeps
  Keeps-ret a = Leads-ret RuntimeError Reply Meanwhile pre _ stable enough a

  pub Keeps-throw : (A : Type 0) (e : RuntimeError) → Keeps {A = A} (throw e)
  unfolding Keeps
  Keeps-throw A e = Leads-throw RuntimeError Reply Meanwhile pre _ stable enough A e

  pub Keeps-ask : (c : Call) → Keeps (ask c ret)
  unfolding Keeps
  Keeps-ask c = Leads-ask RuntimeError Reply Meanwhile pre _ stable enough c

  pub Keeps-after :
      {A B : Type 0} (p : Method A) (f : A → Method B)
      → Reads p
      → ((a : A) → Keeps (f a))
      → Keeps (p >>= f)
  unfolding Keeps Reads
  Keeps-after p f hp hf =
      Leads-bind RuntimeError Reply Meanwhile pre _ stable enough p f (hp pre stable) hf

  pub Keeps-if :
      {A : Type 0} (c : Bool) (p q : Method A) → Keeps p → Keeps q → Keeps (if c then p else q)
  unfolding Keeps
  Keeps-if c p q hp hq = Leads-if RuntimeError Reply Meanwhile pre _ stable enough c p q hp hq

pub ruleset keeps = (reads, Keeps-ret, Keeps-throw, Keeps-after, Keeps-if)
