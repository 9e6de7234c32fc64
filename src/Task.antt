-- ===== src/Task.antt =====
-- src/task.rs: `spawn`, a `JoinHandle`, whose poll and cancel are those of its task in
-- Runtime/Executor.antt, and `yield_now`, as the code of its polls.
pub mod Yields
pub mod Joins
mod Examples
use platoon.Base.{ℕ, Bool, true, false, Option, Outcome, ◌>>=◌, ok, Poll, Waker, ready, pending}
use platoon.Runtime.Park.{Park}
use platoon.Runtime.Context.{Runtime, unwrap_current}
use platoon.Runtime.Executor
use platoon.Runtime.Executor.{Code, returns, wakes, Executor, poll_output}

pub record JoinHandle : Type 0 where
  pub task : ℕ

module _ (P : Park) {F O : Type 0} where
  -- `Runtime::spawn`.
  pub spawn_on : Executor P F O → F → Executor P F O × JoinHandle
  spawn_on e f = let (e', n) = Executor.spawn P e f in (e', record { task = n })

  -- `spawn`, on the executors of the runtimes by their numbers.
  pub spawn :
      Option Runtime
      → (Runtime → Executor P F O)
      → F
      → Outcome (Runtime × (Executor P F O × JoinHandle))
  spawn rt executors f = do
    runtime ← unwrap_current rt
    ok (runtime, spawn_on (executors runtime) f)

  -- `impl Future for JoinHandle`.
  pub poll_handle : Executor P F O → JoinHandle → Waker → Outcome (Executor P F O × Poll O)
  poll_handle e handle cx = poll_output P e handle.task cx

  pub cancel : Executor P F O → JoinHandle → Outcome (Executor P F O × Option O)
  cancel e handle = Executor.cancel P e handle.task

-- `YieldNow::poll`: whether it has yielded, before and after.
unfoldable pub poll_yield : {X F O : Type 0} → Bool → Waker → Code X F O (Poll (Unit {0}) × Bool)
poll_yield true cx = returns (ready tt, true)
poll_yield false cx = wakes cx (returns (pending, true))
