-- ===== src/Semaphore/System/Sound.antt =====
-- When a semaphore and its clients are in step, and what a call of theirs may end in.
use platoon.Base.{ℕ, ◌+◌, ◌≡◌, List, ok, sum, Waker}
use platoon.Slab.{Slab}
use platoon.Semaphore.{Waiter}
use platoon.Semaphore.Queue.{Queue}
use platoon.Semaphore.Queue.Invariant.{IsFair}
use platoon.Semaphore.Refines.{Represents}
use platoon.Semaphore.System.{System, Result}
use platoon.Semaphore.System.Matched.{Matched}

pub record IsSound (S : Slab Waiter) (s : System S) (q : Queue) : Type 0 where
  pub represents : Represents S s.inner q
  pub fair : IsFair q
  pub matched : Matched q.entries s.futures

-- The permits that are free or held.
abbrev pub total : (S : Slab Waiter) → System S → ℕ
total S s = s.inner.permits + sum s.held

-- A call returns, in a sound state, with so many permits more and so many less.
abbrev pub Steps : (S : Slab Waiter) → System S → (added lost : ℕ) → Result S → Type 0
Steps S s added lost r =
    (s' : System S) × (woken : List Waker) × (q' : Queue) × (r ≡ ok (s', woken))
    × IsSound S s' q'
    × (total S s' + lost ≡ total S s + added)
