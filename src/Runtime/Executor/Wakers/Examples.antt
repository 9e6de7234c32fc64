-- ===== src/Runtime/Executor/Wakers/Examples.antt =====
-- A task of thread 4, spawned and being polled, with one waker.
use platoon.Base.{◌+◌, ◌≡◌, refl, arith}
use platoon.Runtime.Executor.{idle}
use platoon.Runtime.Executor.Wakers.{
  panicked, clone, wake, wake_by_ref, drop, Held, spawned, clones_task, makes_waker, pops, settles,
  Reach, stays, steps,
}
use platoon.Runtime.Executor.Wakers.Counts.{
  references, AllReturn, Reach-IsCounted, off_thread-counts,
}

abbrev polled : Held
polled = record {
  task = record { strong = 3; queued = 0; state = idle; created_on = 4 };
  wakers = 1;
  owners = 2;
}

polled_reached : Reach 4 (spawned 4) polled
unfolding spawned
polled_reached =
    steps
      (steps (steps (steps stays (pops _ (omega arith))) (clones_task _ (omega arith)))
        (makes_waker _ (omega arith)))
      (settles _ idle (omega arith))

Reach-IsCounted_example : (polled.task.strong ≡ references polled) × AllReturn 4 polled.task
Reach-IsCounted_example = Reach-IsCounted 4 polled polled_reached

off_thread-counts_example :
    ((clone 5 polled.task).1 ≡ panicked)
    × ((clone 5 polled.task).0.strong + 1 ≡ references polled)
    × (wake_by_ref 5 polled.task ≡ (polled.task, panicked))
    × ((wake 5 polled.task).1 ≡ panicked)
    × ((wake 5 polled.task).0.strong + 1 ≡ references polled)
    × ((drop 5 polled.task).1 ≡ panicked)
    × ((drop 5 polled.task).0.strong + 1 ≡ references polled)
off_thread-counts_example = off_thread-counts 4 5 polled polled_reached refl (omega arith)
