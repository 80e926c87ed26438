-- ===== src/GameEngine/Adapter/History.antt =====
-- A whole life of an adapter: the constructor, then any calls, one after the other.
use sttork.Base.{ℕ, ◌≡◌, List, [], ◌∷◌, All, arith}
use sttork.Base.Outcome.{ok}
use sttork.Async.{World, run}
use sttork.Async.Rules.{Ensures-run}
use sttork.GameEngine.Adapter.State.{EngineWorkerBinding, Adapter, Call, Reply}
use sttork.GameEngine.Adapter.Guards.{create}
use sttork.GameEngine.Adapter.Operations.{Task, perform}
use sttork.GameEngine.Adapter.Steps.{Untouched}
use sttork.GameEngine.Adapter.Lifecycle.{IsIdle, Anything, Settled, perform-IsIdle}

-- A call, and the world that it runs in.
abbrev pub Episode : Type 0
Episode = Task × World Adapter Call Reply

-- While the call waits, the other tasks leave the adapter as it is.
abbrev pub IsUndisturbed : Episode → Type 0
IsUndisturbed (t, w) = (n : ℕ) (s : Adapter) → Untouched s (w.meanwhile n s)

-- The adapter after some calls, whether they return or throw.
unfoldable pub history : Adapter → List Episode → Adapter
history s [] = s
history s ((t, w) ∷ rest) = history (run w 0 s (perform t)).final rest

create-IsIdle : (b : EngineWorkerBinding) (s : Adapter) → create b ≡ ok s → IsIdle s
unfolding create
create-IsIdle b s h = record { booted = ground arith; released = ground arith }

history-IsIdle_from :
    (s : Adapter) (episodes : List Episode)
    → IsIdle s
    → All IsUndisturbed episodes
    → IsIdle (history s episodes)
unfolding history
history-IsIdle_from s [] h u = h
history-IsIdle_from s ((t, w) ∷ rest) h (calm, u) =
    history-IsIdle_from (run w 0 s (perform t)).final rest
      (Ensures-run Anything Untouched w calm Settled (perform t) 0 s (perform-IsIdle s h t)) u

-- After any history of calls on an adapter that the constructor made, each of which the other tasks
-- leave alone while it waits, whatever the worker answered and whichever calls threw, no operation is
-- in flight, and the compatibility, the revision and the boundary are known together, the revision
-- a safe integer.
pub history-IsIdle :
    (b : EngineWorkerBinding) (s : Adapter) (episodes : List Episode)
    → create b ≡ ok s
    → All IsUndisturbed episodes
    → IsIdle (history s episodes)
history-IsIdle b s episodes h u = history-IsIdle_from s episodes (create-IsIdle b s h) u
