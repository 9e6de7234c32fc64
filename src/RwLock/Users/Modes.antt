-- ===== src/RwLock/Users/Modes.antt =====
-- The calls of a readers-writer lock in either mode, by what the semaphore answers.
use platoon.Base.{
  ◌+◌, ◌≤◌, ◌≡◌, Bool, true, false, List, ◌∷◌, ◌++◌, Outcome, ok, Borrow, more_readers, one_writer,
  less_readers, no_writer, Insert, sum, Waker, ready, pending,
}
use platoon.Slab.{Slab}
use platoon.Semaphore.{
  Waiter, Inner, AcquireState, Polled, poll_acquire, drop_acquire, drop_permit, try_acquire,
}
use platoon.RwLock.{
  RwLock, LockPolled, permits_max, borrow_value, borrow_shared, poll_read, poll_write, try_read,
  try_write, drop_read_guard, drop_write_guard,
}
use platoon.RwLock.Users.{Mode, shared, exclusive, cost, costs, poll_mode, try_mode, drop_mode}
use platoon.RwLock.Users.Guards.{borrow_of, reader_fits, writer_fits, reader_leaves, writer_leaves}

-- The borrow that a new guard makes.
abbrev pub borrow_for : Mode → Borrow → Outcome Borrow
borrow_for shared b = more_readers b
borrow_for exclusive b = one_writer b

abbrev pub unborrow_for : Mode → Borrow → Borrow
unborrow_for shared b = less_readers b
unborrow_for exclusive b = no_writer b

pub borrow_fits :
    (m : Mode) (ms : List Mode)
    → cost m + sum (costs ms) ≤ permits_max
    → borrow_for m (borrow_of ms) ≡ ok (borrow_of (m ∷ ms))
borrow_fits shared ms h = reader_fits ms h
borrow_fits exclusive ms h = writer_fits ms h

pub borrow_leaves :
    (m : Mode) {rest ms : List Mode}
    → Insert m rest ms
    → sum (costs ms) ≤ permits_max
    → unborrow_for m (borrow_of ms) ≡ borrow_of rest
borrow_leaves shared i h = reader_leaves i h
borrow_leaves exclusive i h = writer_leaves i h

module _ (S : Slab Waiter) (T : Type 0) where
  unfoldable pub readied :
      Mode → RwLock S T → Inner S → List Waker → AcquireState → Borrow → LockPolled S T
  readied m l i woken state b = record {
    result = ready tt;
    state = state;
    lock = record { semaphore = i; value = record { value = l.value.value; borrowed = b } };
    woken = woken;
  }

  pub poll_mode-ready :
      (m : Mode) (l : RwLock S T) (state : AcquireState) (cx : Waker) (p : Polled S) (i : Inner S)
      (more : List Waker) (b : Borrow)
      → poll_acquire S l.semaphore (cost m) state cx ≡ ok p
      → p.result ≡ ready tt
      → drop_acquire S p.inner p.state ≡ ok (i, more)
      → borrow_for m l.value.borrowed ≡ ok b
      → poll_mode S m l state cx ≡ ok (readied m l i (p.woken ++ more) p.state b)
  unfolding poll_mode poll_read poll_write borrow_shared borrow_value readied
  poll_mode-ready shared l state cx p i more b polled is_ready dropped borrows =
      rw (polled, is_ready, dropped, borrows)
  poll_mode-ready exclusive l state cx p i more b polled is_ready dropped borrows =
      rw (polled, is_ready, dropped, borrows)

  pub poll_mode-pending :
      (m : Mode) (l : RwLock S T) (state : AcquireState) (cx : Waker) (p : Polled S)
      → poll_acquire S l.semaphore (cost m) state cx ≡ ok p
      → p.result ≡ pending
      → poll_mode S m l state cx
        ≡ ok (record {
          result = pending;
          state = p.state;
          lock = record { semaphore = p.inner; value = l.value };
          woken = p.woken;
        })
  unfolding poll_mode poll_read poll_write
  poll_mode-pending shared l state cx p polled is_pending = rw (polled, is_pending)
  poll_mode-pending exclusive l state cx p polled is_pending = rw (polled, is_pending)

  pub try_mode-taken :
      (m : Mode) (l : RwLock S T) (i : Inner S) (b : Borrow)
      → try_acquire S l.semaphore (cost m) ≡ (i, true)
      → borrow_for m l.value.borrowed ≡ ok b
      → try_mode S m l
        ≡ ok
            (record { semaphore = i; value = record { value = l.value.value; borrowed = b } }, true)
  unfolding try_mode try_read try_write borrow_shared borrow_value
  try_mode-taken shared l i b got borrows = rw (got, borrows)
  try_mode-taken exclusive l i b got borrows = rw (got, borrows)

  pub try_mode-refused :
      (m : Mode) (l : RwLock S T) (i : Inner S)
      → try_acquire S l.semaphore (cost m) ≡ (i, false)
      → try_mode S m l ≡ ok (record { semaphore = i; value = l.value }, false)
  unfolding try_mode try_read try_write
  try_mode-refused shared l i refused = rw refused
  try_mode-refused exclusive l i refused = rw refused

  pub drop_mode_lem :
      (checks : Bool) (m : Mode) (l : RwLock S T) (i : Inner S) (woken : List Waker)
      → drop_permit S checks l.semaphore (cost m) ≡ ok (i, woken)
      → drop_mode S checks m l
        ≡ ok (
          record {
            semaphore = i;
            value = record { value = l.value.value; borrowed = unborrow_for m l.value.borrowed };
          },
          woken,
        )
  unfolding drop_mode drop_read_guard drop_write_guard
  drop_mode_lem checks shared l i woken dropped = rw dropped
  drop_mode_lem checks exclusive l i woken dropped = rw dropped
