-- ===== src/Runtime/System.antt =====
-- src/runtime/mod.rs, `Runtime`: an executor over a clock over a reactor.
pub mod Parks
pub mod Woken
pub mod Wakes
pub mod Sleeps
mod Examples
use platoon.Base.{ℕ, ◌+◌, List, Waker, IoResult}
use platoon.Slab.{Slab}
use platoon.Sys.{Poller}
use platoon.Runtime.Park.{Park}
use platoon.Runtime.Clock
use platoon.Runtime.Clock.{Clock}
use platoon.Runtime.Reactor
use platoon.Runtime.Reactor.{Source, reactor_park}
use platoon.Runtime.Executor
use platoon.Runtime.Executor.{Executor}

-- A clock with the number of times that `Instant::now()` was read.
pub record Timed (P : Park) : Type 0 where
  pub clock : Clock P
  pub readings : ℕ

-- A call of the clock has read the time, once.
abbrev pub read_once :
    {P : Park}
    → ℕ
    → Clock P × List Waker × IoResult (Unit {0})
    → Timed P × List Waker × IoResult (Unit {0})
read_once n (c, ws, result) = (record { clock = c; readings = n + 1 }, ws, result)

-- `impl Park for Clock`, where `instants n` is what the reading n yields.
abbrev pub clock_park : Park → (ℕ → ℕ) → Park
clock_park P instants = record {
  State = Timed P;
  park = λ s. read_once s.readings (Clock.park P s.clock (instants s.readings));
  park_timeout = λ s duration.
      read_once s.readings (Clock.park_timeout P s.clock (instants s.readings) duration);
}

module _ (P : Poller) (S : Slab Source) (instants : ℕ → ℕ) where
  abbrev pub runtime_park : Park
  runtime_park = clock_park (reactor_park P S) instants

  -- `Runtime::new`, on a poller that the system gave.
  pub new : {F O : Type 0} → P.State → Executor runtime_park F O
  new poller =
      let reactor = Reactor.new P S poller in
      let clock = Clock.new (reactor_park P S) reactor in
      Executor.new runtime_park (record { clock = clock; readings = 0 })
