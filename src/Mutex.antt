-- ===== src/Mutex.antt =====
-- src/sync/mutex.rs: a mutex is a semaphore with one permit and a `RefCell`. A guard is a mutable
-- borrow and the permit, which are dropped in that order. The `async fn lock` is its poll: a
-- poll of the `Acquire` future, and the guard once that is ready.
pub mod Users
mod Examples
use platoon.Base.{
  ◌+◌, Bool, true, false, List, ◌++◌, if◌then◌else◌, Outcome, ◌>>=◌, ok, RefCell, one_writer,
  no_writer, unused, Poll, Waker, ready, pending,
}
use platoon.Slab.{Slab}
use platoon.Semaphore.{
  Waiter, Inner, AcquireState, Polled, new, try_acquire, poll_acquire, drop_acquire, drop_permit,
}

pub record Mutex (S : Slab Waiter) (T : Type 0) : Type 0 where
  pub semaphore : Inner S
  pub value : RefCell T

-- What a poll of `lock` leaves: a guard if the result is `ready`.
pub record LockPolled (S : Slab Waiter) (T : Type 0) : Type 0 where
  pub result : Poll (Unit {0})
  pub state : AcquireState
  pub mutex : Mutex S T
  pub woken : List Waker

module _ (S : Slab Waiter) {T : Type 0} where
  pub create : T → Mutex S T
  create value = record { semaphore = new S 1; value = record { value = value; borrowed = unused } }

  -- `self.value.borrow_mut()`, for a guard.
  pub borrow_value : Mutex S T → Outcome (Mutex S T)
  borrow_value m = do
    b ← one_writer m.value.borrowed
    ok (record m { value = record { value = m.value.value; borrowed = b } })

  pub poll_lock : Mutex S T → AcquireState → Waker → Outcome (LockPolled S T)
  poll_lock m state cx = do
    p ← poll_acquire S m.semaphore 1 state cx
    let pending_mutex : Mutex S T = record m { semaphore = p.inner }
    elim p.result [
      | ready _ ↦ (do
        (i, more) ← drop_acquire S p.inner p.state
        m' ← borrow_value (record m { semaphore = i })
        ok (record { result = ready tt; state = p.state; mutex = m'; woken = p.woken ++ more }))
      | pending ↦
          ok (record { result = pending; state = p.state; mutex = pending_mutex; woken = p.woken })
    ]

  -- The drop of a `lock` future that waits.
  pub drop_lock : Mutex S T → AcquireState → Outcome (Mutex S T × List Waker)
  drop_lock m state = do
    (i, woken) ← drop_acquire S m.semaphore state
    ok (record m { semaphore = i }, woken)

  pub try_lock : Mutex S T → Outcome (Mutex S T × Bool)
  try_lock m =
      let (i, acquired) = try_acquire S m.semaphore 1 in
      if acquired
      then (do m' ← borrow_value (record m { semaphore = i }); ok (m', true))
      else ok (record m { semaphore = i }, false)

  -- The drop of a `MutexGuard`: the borrow ends, then the permit is given back.
  pub drop_guard : Bool → Mutex S T → Outcome (Mutex S T × List Waker)
  drop_guard checks m = do
    let cell : RefCell T = record { value = m.value.value; borrowed = no_writer m.value.borrowed }
    (i, woken) ← drop_permit S checks m.semaphore 1
    ok (record { semaphore = i; value = cell }, woken)

  -- `Deref` and `DerefMut` of a guard, and the accesses with no guard.
  pub deref : Mutex S T → T
  deref m = m.value.value

  pub deref_mut : Mutex S T → T → Mutex S T
  deref_mut m v = record m { value = record { value = v; borrowed = m.value.borrowed } }

  pub get_mut : Mutex S T → T → Mutex S T
  get_mut m v = record m { value = record { value = v; borrowed = m.value.borrowed } }

  pub into_inner : Mutex S T → T
  into_inner m = m.value.value
