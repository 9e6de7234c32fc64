-- ===== src/Mutex/Users/Excludes.antt =====
-- What it is that a mutex excludes, and the state that it starts in.
use platoon.Base.{
  ℕ, zero, suc, ◌+◌, ◌≡◌, refl, List, [], arith, Outcome, ok, Borrow, unused, writing, Insert, sum,
  here, there, Waker,
}
use platoon.Slab.{Slab}
use platoon.Semaphore.{Waiter, AcquireState}
use platoon.Semaphore.Queue.{Queue}
use platoon.Semaphore.System.Joins.{future}
use platoon.Semaphore.System.Sound.{IsSound}
use platoon.Semaphore.System.Step.{fresh-IsSound}
use platoon.Mutex.{create}
use platoon.Mutex.Users.{
  Users, Action, locks, polls, cancels, tries, unlocks, writes, asking, ones, view, start,
}

-- The borrow that so many guards stand for.
abbrev pub borrow_of : ℕ → Borrow
borrow_of zero = unused
borrow_of (suc n) = writing

pub record IsExclusive (S : Slab Waiter) (T : Type 0) (u : Users S T) (q : Queue) : Type 0 where
  pub sound : IsSound S (view S u) q
  pub permits : u.mutex.semaphore.permits + u.guards ≡ 1
  pub borrowed : u.mutex.value.borrowed ≡ borrow_of u.guards

-- The value that a call leaves behind the mutex.
abbrev pub value_after : {T : Type 0} → T → ℕ → Action T → T
value_after old guards locks = old
value_after old guards (polls j cx) = old
value_after old guards (cancels j) = old
value_after old guards tries = old
value_after old guards unlocks = old
value_after old zero (writes v) = old
value_after old (suc n) (writes v) = v

-- A call returns, in a state where the mutex excludes, with that value.
abbrev pub Excludes : (S : Slab Waiter) (T : Type 0) → T → Outcome (Users S T × List Waker) → Type 0
Excludes S T v r =
    (u' : Users S T) × (woken : List Waker) × (q : Queue) × (r ≡ ok (u', woken))
    × IsExclusive S T u' q
    × (u'.mutex.value.value ≡ v)

pub sum-ones : (n : ℕ) → sum (ones n) ≡ n
sum-ones zero = refl
sum-ones (suc n) = omega (arith, sum-ones n)

pub Insert-asking :
    {s : AcquireState} {rest ss : List AcquireState}
    → Insert s rest ss
    → Insert (future 1 s) (asking rest) (asking ss)
Insert-asking here = here
Insert-asking (there i) = there (Insert-asking i)

module _ (S : Slab Waiter) (T : Type 0) where
  pub start-IsExclusive :
      (v : T) → IsExclusive S T (start S v) (record { permits = 1; entries = [] })
  unfolding start create
  start-IsExclusive v = record {
    sound = fresh-IsSound S 1;
    permits = omega (arith, (fresh-IsSound S 1).represents.permits);
    borrowed = refl;
  }
