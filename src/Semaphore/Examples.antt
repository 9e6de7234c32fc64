-- ===== src/Semaphore/Examples.antt =====
-- A semaphore with two waiters, at the slab of Slab/Slots.antt: the theorems at work on it.
use platoon.Base.{
  ℕ, ◌≡◌, refl, inr, true, false, none, some, List, [], ◌∷◌, arith, ok, Waker, ready,
}
use platoon.Slab.Slots.{slots}
use platoon.Semaphore.{Waiter, Inner, waiting, done, wake, poll_acquire, add_permits}
use platoon.Semaphore.Queue.{Entry, Queue, granted, grant}
use platoon.Semaphore.Refines.{Represents}
use platoon.Semaphore.Refines.Add.{entry}
use platoon.Semaphore.Refines.Wake.{wake-Represents}
use platoon.Semaphore.System.{
  System, Action, acquires, polls, cancels, releases, adds, start, step, try_take,
}
use platoon.Semaphore.System.Sound.{IsSound, Steps}
use platoon.Semaphore.System.Step.{step-Steps, run, run-Runs, Runs}
use platoon.Semaphore.System.Service.{add_permits-serves, try_take-queues}

abbrev older_waiter : Waiter
older_waiter = record { waker = some 7; next = none; prev = some 1; required = 2; woke = false }

abbrev newer_waiter : Waiter
newer_waiter = record { waker = some 8; next = some 0; prev = none; required = 1; woke = false }

abbrev two_waiters : ℕ → Inner (slots Waiter)
two_waiters n = record {
  permits = n;
  waiters = some older_waiter ∷ some newer_waiter ∷ [];
  head = some 1;
  tail = some 0;
}

abbrev older : Entry
older = entry 0 7 2

abbrev newer : Entry
newer = entry 1 8 1

abbrev two_entries : ℕ → Queue
two_entries n = record { permits = n; entries = older ∷ newer ∷ [] }

two_waiters-Represents : (n : ℕ) → Represents (slots Waiter) (two_waiters n) (two_entries n)
two_waiters-Represents n = record {
  permits = refl;
  chain = (refl, (refl, tt));
  tail = refl;
  head = refl;
  distinct = (refl, (refl, tt));
  len = refl;
}

abbrev two_futures : System (slots Waiter)
two_futures = record {
  inner = two_waiters 1;
  futures =
      record { permits = 2; state = waiting 0 } ∷ record { permits = 1; state = waiting 1 } ∷ [];
  held = 3 ∷ [];
}

two_futures-IsSound : IsSound (slots Waiter) two_futures (two_entries 1)
two_futures-IsSound = record {
  represents = two_waiters-Represents 1;
  fair = record {
    covered = omega arith;
    ordered = inr (refl, (refl, tt));
    served = inr (omega arith);
  };
  matched = record {
    agrees = (refl, (refl, tt));
    distinct = (refl, (refl, tt));
    awaited = λ k h. h;
  };
}

-- Two permits go to the older waiter alone.
two_permits : granted 2 (older ∷ newer ∷ []) ≡ 7 ∷ []
unfolding granted
two_permits = refl

wake-Represents_example :
    (i' : Inner (slots Waiter)) × (wake (slots Waiter) (two_waiters 2)
      ≡ ok (i', granted 2 (older ∷ newer ∷ [])))
    × Represents (slots Waiter) i' (record { permits = 2; entries = grant 2 (older ∷ newer ∷ []) })
wake-Represents_example =
    wake-Represents (slots Waiter) (two_waiters 2) (two_entries 2) (two_waiters-Represents 2)

step-Steps_example :
    Steps (slots Waiter) two_futures 0 0 (step (slots Waiter) true two_futures (cancels 0))
step-Steps_example =
    step-Steps (slots Waiter) true two_futures (two_entries 1) (cancels 0) two_futures-IsSound
      (omega arith)

abbrev history : List Action
history = acquires 2 ∷ polls 0 7 ∷ adds 1 ∷ polls 0 7 ∷ releases 0 ∷ []

run-Runs_example :
    Runs
      (slots Waiter)
      (start (slots Waiter) 1)
      2
      (run (slots Waiter) true (start (slots Waiter) 1) history)
run-Runs_example = run-Runs (slots Waiter) true 1 history (omega arith)

add_permits-serves_example :
    (i i' : Inner (slots Waiter)) × (ws ws' : List Waker) × (add_permits
        (slots Waiter)
        true
        (two_waiters 1)
        1
      ≡ ok (i, 7 ∷ ws))
    × (poll_acquire (slots Waiter) i 2 (waiting 0) 7
        ≡ ok (record { result = ready tt; state = done; inner = i'; woken = ws' }))
add_permits-serves_example =
    add_permits-serves (slots Waiter) true two_futures (two_entries 1) older (newer ∷ []) 1 7 7
      two_futures-IsSound refl refl refl (omega arith) (omega arith)

try_take-queues_example : try_take (slots Waiter) two_futures 1 ≡ ok (two_futures, [])
try_take-queues_example =
    try_take-queues (slots Waiter) two_futures (two_entries 1) 1 two_futures-IsSound (λ e. cc) refl
