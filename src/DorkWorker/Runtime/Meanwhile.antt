-- ===== src/DorkWorker/Runtime/Meanwhile.antt =====
-- What may happen to the runtime while one of its methods waits. Another `exchange` is refused at
-- once and changes nothing; `dispose` may be called at any time.
use sttork.Base.{◌≡◌}
use sttork.DorkWorker.Runtime.State.{DorkWorkerRuntime, Call, disposed_state}

pub data Meanwhile : DorkWorkerRuntime → DorkWorkerRuntime → Type 0 where
  nothing : {s : DorkWorkerRuntime} → Meanwhile s s
  disposes : {s s' : DorkWorkerRuntime} → s' ≡ disposed_state s → Meanwhile s s'

abbrev pub Anything : Call → DorkWorkerRuntime → Type 0
Anything c s = Unit
