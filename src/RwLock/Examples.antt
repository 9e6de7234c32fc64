-- ===== src/RwLock/Examples.antt =====
-- A lock with one reader and a writer that waits, at the slab of Slab/Slots.antt.
use platoon.Base.{List, ℕ, refl, inr, true, false, none, some, [], ◌∷◌, arith, reading}
use platoon.Slab.Slots.{slots}
use platoon.Semaphore.{Waiter, waiting}
use platoon.Semaphore.Queue.{Queue}
use platoon.Semaphore.Refines.Add.{entry}
use platoon.RwLock.{permits_max}
use platoon.RwLock.Users.Histories.{run, Shares, run-Shares}
use platoon.RwLock.Users.{
  locks, polls, tries, writes, start, Action, Users, shared, exclusive, unlocks, step,
}
use platoon.RwLock.Users.Excludes.{IsExclusive, Excludes}
use platoon.RwLock.Users.Exclusion.{step-IsCompatible}

abbrev read_locked : Users (slots Waiter) ℕ
read_locked = record {
  lock = record {
    semaphore = record {
      permits = 0xffff_ffff_ffff_fffe;
      waiters =
          some (record {
            waker = some 7;
            next = none;
            prev = none;
            required = permits_max;
            woke = false;
          })
          ∷ [];
      head = some 0;
      tail = some 0;
    };
    value = record { value = 5; borrowed = reading 0 };
  };
  futures = (exclusive, waiting 0) ∷ [];
  guards = shared ∷ [];
}

abbrev writer_queued : Queue
writer_queued = record { permits = 0xffff_ffff_ffff_fffe; entries = entry 0 7 permits_max ∷ [] }

read_locked-IsExclusive : IsExclusive (slots Waiter) ℕ read_locked writer_queued
read_locked-IsExclusive = record {
  sound = record {
    represents = record {
      permits = refl;
      chain = (refl, tt);
      tail = refl;
      head = refl;
      distinct = (refl, tt);
      len = refl;
    };
    fair = record { covered = omega arith; ordered = inr (refl, tt); served = inr (omega arith) };
    matched = record { agrees = (refl, tt); distinct = (refl, tt); awaited = λ k h. h };
  };
  permits = refl;
  borrowed = refl;
}

step-IsCompatible_example :
    Excludes (slots Waiter) ℕ 5 (step (slots Waiter) true read_locked (unlocks 0))
step-IsCompatible_example =
    step-IsCompatible (slots Waiter) ℕ read_locked writer_queued read_locked-IsExclusive true
      (unlocks 0)

abbrev readers_and_writer : List (Action ℕ)
readers_and_writer =
    tries shared
    ∷ locks exclusive
    ∷ polls 0 7
    ∷ tries shared
    ∷ unlocks 0
    ∷ polls 0 7
    ∷ writes 6
    ∷ []

run-Shares_example :
    Shares (slots Waiter) (run (slots Waiter) true (start (slots Waiter) 5) readers_and_writer)
run-Shares_example = run-Shares (slots Waiter) true 5 readers_and_writer
