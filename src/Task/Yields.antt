-- ===== src/Task/Yields.antt =====
-- A future that yields to no other task.
use platoon.Base.{ℕ, suc, ◌≡◌, Bool, true, false, [], ◌>>=◌}
use platoon.Runtime.Park.{Park}
use platoon.Runtime.Executor.{Executor, wake, execute, poll_main, tick, after_tick, parked, rounds}
use platoon.Task.{poll_yield}

module _ (P : Park) where
  -- With an empty queue, a round of `block_on` whose future yields parks the thread with no
  -- timeout, although the yield has woken the future, and only then goes on to the next round.
  pub rounds_parks :
      (fuel : ℕ) (e : Executor P Bool (Unit {0}))
      → e.queue ≡ []
      → e.woke ≡ true
      → rounds P poll_yield (suc fuel) e false ≡ (
          parked P poll_yield (record e { woke = true }) (P.park e.parker) >>= λ e'.
          rounds P poll_yield fuel e' true)
  unfolding rounds poll_main execute wake tick after_tick poll_yield
  rounds_parks fuel e empty woken = rw (woken, empty)
