-- ===== src/RwLock/Users/Excludes.antt =====
-- What it is that a readers-writer lock excludes, and the state that it starts in.
use platoon.Base.{◌≡◌, refl, List, [], ◌∷◌, arith, ok, Insert, here, there, Waker}
use platoon.Slab.{Slab}
use platoon.Semaphore.{Waiter, AcquireState}
use platoon.Semaphore.Queue.{Queue}
use platoon.Semaphore.System.Joins.{future}
use platoon.Semaphore.System.Sound.{IsSound, total}
use platoon.Semaphore.System.Step.{fresh-IsSound}
use platoon.RwLock.{permits_max, create}
use platoon.RwLock.Users.{
  Users, Mode, shared, exclusive, cost, Action, locks, polls, cancels, tries, unlocks, writes,
  asking, view, Result, start,
}
use platoon.RwLock.Users.Guards.{borrow_of, IsCompatible}

pub record IsExclusive (S : Slab Waiter) (T : Type 0) (u : Users S T) (q : Queue) : Type 0 where
  pub sound : IsSound S (view S u) q
  pub permits : total S (view S u) ≡ permits_max
  pub borrowed : u.lock.value.borrowed ≡ borrow_of u.guards

-- The value that a call leaves behind the lock: only a writer changes it.
abbrev pub value_after : {T : Type 0} → T → List Mode → Action T → T
value_after old ms (locks m) = old
value_after old ms (polls j cx) = old
value_after old ms (cancels j) = old
value_after old ms (tries m) = old
value_after old ms (unlocks j) = old
value_after old [] (writes v) = old
value_after old (shared ∷ ms) (writes v) = old
value_after old (exclusive ∷ ms) (writes v) = v

-- A call returns, in a state where the lock excludes, with that value.
abbrev pub Excludes : (S : Slab Waiter) (T : Type 0) → T → Result S T → Type 0
Excludes S T v r =
    (u' : Users S T) × (woken : List Waker) × (q : Queue) × (r ≡ ok (u', woken))
    × IsExclusive S T u' q
    × IsCompatible u'.guards
    × (u'.lock.value.value ≡ v)

pub Insert-asking :
    {m : Mode} {s : AcquireState} {rest ss : List (Mode × AcquireState)}
    → Insert (m, s) rest ss
    → Insert (future (cost m) s) (asking rest) (asking ss)
Insert-asking here = here
Insert-asking (there i) = there (Insert-asking i)

module _ (S : Slab Waiter) (T : Type 0) where
  pub start-IsExclusive :
      (v : T) → IsExclusive S T (start S v) (record { permits = permits_max; entries = [] })
  unfolding start create
  start-IsExclusive v = record {
    sound = fresh-IsSound S permits_max;
    permits = omega (arith, (fresh-IsSound S permits_max).represents.permits);
    borrowed = refl;
  }
