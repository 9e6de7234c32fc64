-- ===== src/RwLock.antt =====
-- src/sync/rwlock.rs: a readers-writer lock is a semaphore with `usize::MAX` permits and a
-- `RefCell`. A reader takes one permit and a shared borrow, a writer all permits and a mutable
-- borrow. The `async fn`s are their polls, as in Mutex.antt.
pub mod Users
mod Examples
use platoon.Base.{
  ℕ, ◌+◌, Bool, true, false, List, ◌++◌, if◌then◌else◌, Outcome, ◌>>=◌, ok, RefCell, more_readers,
  one_writer, less_readers, no_writer, unused, Poll, Waker, usize_max, ready, pending,
}
use platoon.Slab.{Slab}
use platoon.Semaphore.{
  Waiter, Inner, AcquireState, Polled, new, try_acquire, poll_acquire, drop_acquire, drop_permit,
}

-- `RwLock::PERMITS`.
abbrev pub permits_max : ℕ
permits_max = usize_max

pub record RwLock (S : Slab Waiter) (T : Type 0) : Type 0 where
  pub semaphore : Inner S
  pub value : RefCell T

-- What a poll of `read` or `write` leaves: a guard if the result is `ready`.
pub record LockPolled (S : Slab Waiter) (T : Type 0) : Type 0 where
  pub result : Poll (Unit {0})
  pub state : AcquireState
  pub lock : RwLock S T
  pub woken : List Waker

module _ (S : Slab Waiter) {T : Type 0} where
  pub create : T → RwLock S T
  create value = record {
    semaphore = new S permits_max;
    value = record { value = value; borrowed = unused };
  }

  -- `self.value.borrow()`.
  pub borrow_shared : RwLock S T → Outcome (RwLock S T)
  borrow_shared l = do
    b ← more_readers l.value.borrowed
    ok (record l { value = record { value = l.value.value; borrowed = b } })

  -- `self.value.borrow_mut()`.
  pub borrow_value : RwLock S T → Outcome (RwLock S T)
  borrow_value l = do
    b ← one_writer l.value.borrowed
    ok (record l { value = record { value = l.value.value; borrowed = b } })

  pub poll_read : RwLock S T → AcquireState → Waker → Outcome (LockPolled S T)
  poll_read l state cx = do
    p ← poll_acquire S l.semaphore 1 state cx
    let waiting_lock : RwLock S T = record l { semaphore = p.inner }
    elim p.result [
      | ready _ ↦ (do
        (i, more) ← drop_acquire S p.inner p.state
        l' ← borrow_shared (record l { semaphore = i })
        ok (record { result = ready tt; state = p.state; lock = l'; woken = p.woken ++ more }))
      | pending ↦
          ok (record { result = pending; state = p.state; lock = waiting_lock; woken = p.woken })
    ]

  pub poll_write : RwLock S T → AcquireState → Waker → Outcome (LockPolled S T)
  poll_write l state cx = do
    p ← poll_acquire S l.semaphore permits_max state cx
    let waiting_lock : RwLock S T = record l { semaphore = p.inner }
    elim p.result [
      | ready _ ↦ (do
        (i, more) ← drop_acquire S p.inner p.state
        l' ← borrow_value (record l { semaphore = i })
        ok (record { result = ready tt; state = p.state; lock = l'; woken = p.woken ++ more }))
      | pending ↦
          ok (record { result = pending; state = p.state; lock = waiting_lock; woken = p.woken })
    ]

  -- The drop of a `read` or `write` future that waits.
  pub drop_lock : RwLock S T → AcquireState → Outcome (RwLock S T × List Waker)
  drop_lock l state = do
    (i, woken) ← drop_acquire S l.semaphore state
    ok (record l { semaphore = i }, woken)

  pub try_read : RwLock S T → Outcome (RwLock S T × Bool)
  try_read l =
      let (i, acquired) = try_acquire S l.semaphore 1 in
      if acquired
      then (do l' ← borrow_shared (record l { semaphore = i }); ok (l', true))
      else ok (record l { semaphore = i }, false)

  pub try_write : RwLock S T → Outcome (RwLock S T × Bool)
  try_write l =
      let (i, acquired) = try_acquire S l.semaphore permits_max in
      if acquired
      then (do l' ← borrow_value (record l { semaphore = i }); ok (l', true))
      else ok (record l { semaphore = i }, false)

  -- The drop of a guard: the borrow ends, then the permits are given back.
  pub drop_read_guard : Bool → RwLock S T → Outcome (RwLock S T × List Waker)
  drop_read_guard checks l = do
    let cell : RefCell T = record {
      value = l.value.value;
      borrowed = less_readers l.value.borrowed;
    }
    (i, woken) ← drop_permit S checks l.semaphore 1
    ok (record { semaphore = i; value = cell }, woken)

  pub drop_write_guard : Bool → RwLock S T → Outcome (RwLock S T × List Waker)
  drop_write_guard checks l = do
    let cell : RefCell T = record { value = l.value.value; borrowed = no_writer l.value.borrowed }
    (i, woken) ← drop_permit S checks l.semaphore permits_max
    ok (record { semaphore = i; value = cell }, woken)

  -- `Deref` of a guard and `DerefMut` of a write guard, and the accesses with no guard.
  pub deref : RwLock S T → T
  deref l = l.value.value

  pub deref_mut : RwLock S T → T → RwLock S T
  deref_mut l v = record l { value = record { value = v; borrowed = l.value.borrowed } }

  pub get_mut : RwLock S T → T → RwLock S T
  get_mut l v = record l { value = record { value = v; borrowed = l.value.borrowed } }

  pub into_inner : RwLock S T → T
  into_inner l = l.value.value
