-- ===== src/Task/Examples.antt =====
-- `block_on` of a future that yields, with no task, over the parker of
-- Runtime/Clock/Examples.antt.
use platoon.Base.{◌≡◌, refl, Bool, true, false, none, some, [], ◌∷◌, ◌>>=◌, ok, ready}
use platoon.Runtime.Clock.Examples.{still}
use platoon.Runtime.Executor.{
  scheduled, idle, done, future, output, Task, Executor, get, set_task, wake, execute, run, parked,
  rounds,
}
use platoon.Runtime.Executor.Outputs.{unborrowed}
use platoon.Task.Joins.{polling, GivesOnce, run-GivesOnce}
use platoon.Task.{poll_yield}
use platoon.Task.Yields.{rounds_parks}

abbrev no_task : Executor still Bool (Unit {0})
no_task = record { queue = []; woke = true; parker = tt; tasks = [] }

rounds_parks_example :
    rounds still poll_yield 3 no_task false
    ≡ (parked still poll_yield no_task (still.park tt) >>= λ e. rounds still poll_yield 2 e true)
rounds_parks_example = rounds_parks still 2 no_task refl refl

-- A task that the main future awaits, and that is done at its next poll.
abbrev about_done : Task Bool (Unit {0})
about_done = record { awaiter = some 0; state = scheduled; payload = future true; borrowed = false }

abbrev one_task : Executor still Bool (Unit {0})
one_task = record { queue = []; woke = false; parker = tt; tasks = about_done ∷ [] }

polled :
    execute still (poll_yield true 1) (polling still poll_yield one_task 0 about_done)
    ≡ ok (polling still poll_yield one_task 0 about_done, (ready tt, true))
unfolding execute poll_yield
polled = refl

held :
    get (polling still poll_yield one_task 0 about_done).tasks 0
    ≡ some (record about_done { state = idle; borrowed = true })
unfolding set_task
held = refl

run-GivesOnce_example :
    (r : Executor still Bool (Unit {0})) × (run still poll_yield one_task 0 ≡ ok r)
    × (r
        ≡ wake still
            (set_task still
              (polling still poll_yield one_task 0 about_done)
              0
              (unborrowed still none done (output tt)))
            0)
    × GivesOnce still r (record { task = 0 }) tt 0
run-GivesOnce_example =
    run-GivesOnce still poll_yield one_task (polling still poll_yield one_task 0 about_done) 0
      about_done (record about_done { state = idle; borrowed = true }) true true tt 0 0 refl refl
      refl polled held refl
