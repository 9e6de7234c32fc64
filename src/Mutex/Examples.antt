-- ===== src/Mutex/Examples.antt =====
-- A mutex with one guard and a waiter, at the slab of Slab/Slots.antt.
use platoon.Base.{List, ℕ, refl, inr, true, false, none, some, [], ◌∷◌, arith, writing}
use platoon.Slab.Slots.{slots}
use platoon.Semaphore.{Waiter, waiting}
use platoon.Semaphore.Queue.{Queue}
use platoon.Semaphore.Refines.Add.{entry}
use platoon.Mutex.Users.Histories.{run, Locks, run-Locks}
use platoon.Mutex.Users.{locks, polls, tries, writes, start, Action, Users, unlocks, step}
use platoon.Mutex.Users.Excludes.{IsExclusive, Excludes}
use platoon.Mutex.Users.Exclusion.{step-IsExclusive}

abbrev locked : Users (slots Waiter) ℕ
locked = record {
  mutex = record {
    semaphore = record {
      permits = 0;
      waiters =
          some (record { waker = some 7; next = none; prev = none; required = 1; woke = false })
          ∷ [];
      head = some 0;
      tail = some 0;
    };
    value = record { value = 5; borrowed = writing };
  };
  futures = waiting 0 ∷ [];
  guards = 1;
}

abbrev queued : Queue
queued = record { permits = 0; entries = entry 0 7 1 ∷ [] }

locked-IsExclusive : IsExclusive (slots Waiter) ℕ locked queued
locked-IsExclusive = record {
  sound = record {
    represents = record {
      permits = refl;
      chain = (refl, tt);
      tail = refl;
      head = refl;
      distinct = (refl, tt);
      len = refl;
    };
    fair = record { covered = omega arith; ordered = inr (refl, tt); served = inr (omega arith) };
    matched = record { agrees = (refl, tt); distinct = (refl, tt); awaited = λ k h. h };
  };
  permits = refl;
  borrowed = refl;
}

step-IsExclusive_example : Excludes (slots Waiter) ℕ 5 (step (slots Waiter) true locked unlocks)
step-IsExclusive_example =
    step-IsExclusive (slots Waiter) ℕ locked queued locked-IsExclusive true unlocks

abbrev contention : List (Action ℕ)
contention = tries ∷ locks ∷ polls 0 7 ∷ writes 6 ∷ unlocks ∷ polls 0 7 ∷ []

run-Locks_example :
    Locks (slots Waiter) (run (slots Waiter) true (start (slots Waiter) 5) contention)
run-Locks_example = run-Locks (slots Waiter) true 5 contention
