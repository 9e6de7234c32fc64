-- ===== src/Runtime/Park.antt =====
-- src/runtime/park.rs: what parks the thread. The wakers that a call appends to its list are
-- returned.
use platoon.Base.{ℕ, List, Waker, IoResult}

pub record Park : Type 1 where
  pub State : Type 0
  pub park : State → State × List Waker × IoResult (Unit {0})
  -- The duration is in nanoseconds.
  pub park_timeout : State → ℕ → State × List Waker × IoResult (Unit {0})
