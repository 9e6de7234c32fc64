-- ===== src/Semaphore.antt =====
-- src/sync/semaphore.rs: the counting semaphore, its slab of waiters linked into a queue, the
-- `Acquire` future and `Permit`. A call returns the wakers that it woke, oldest first. The queue
-- runs from `tail`, the oldest waiter, along `prev` to `head`, the newest.
pub mod System
pub mod Queue
pub mod Links
pub mod Refines
mod Examples
use platoon.Base.{
  add_usize, ℕ, zero, suc, ◌+◌, ◌-◌, Bool, true, false, ◌&&◌, ◌||◌, Option, none, some, List, [],
  ◌∷◌, ◌++◌, ltb, leb, ◌==◌, if◌then◌else◌, is_some, Outcome, ◌>>=◌, ◌>>◌, or_panic, assert, ok,
  panic, out_of_fuel, Poll, Waker, ready, pending,
}
use platoon.Slab.{Slab}

pub record Waiter : Type 0 where
  pub waker : Option Waker
  pub next : Option ℕ
  pub prev : Option ℕ
  pub required : ℕ
  pub woke : Bool

pub record Inner (S : Slab Waiter) : Type 0 where
  pub permits : ℕ
  pub waiters : S.Store
  pub head : Option ℕ
  pub tail : Option ℕ

pub data AcquireState : Type 0 where
  idle : AcquireState
  waiting : ℕ → AcquireState
  done : AcquireState

module _ (S : Slab Waiter) where
  -- `Semaphore::new`.
  pub new : ℕ → Inner S
  new permits = record { permits = permits; waiters = S.empty; head = none; tail = none }

  -- `self.waiters[key].prev = prev`, where there is a key.
  pub set_prev : S.Store → Option ℕ → Option ℕ → Outcome S.Store
  set_prev ws none prev = ok ws
  set_prev ws (some key) prev = do
    w ← or_panic (S.get ws key)
    ok (S.set ws key (record w { prev = prev }))

  -- `self.waiters[key].next = next`, where there is a key.
  pub set_next : S.Store → Option ℕ → Option ℕ → Outcome S.Store
  set_next ws none next = ok ws
  set_next ws (some key) next = do
    w ← or_panic (S.get ws key)
    ok (S.set ws key (record w { next = next }))

  pub add : Inner S → Waker → ℕ → Outcome (ℕ × Inner S)
  add i waker required = do
    let waiter : Waiter = record {
      waker = some waker;
      next = i.head;
      prev = none;
      required = required;
      woke = false;
    }
    let (key, ws) = S.insert i.waiters waiter
    ws' ← set_prev ws i.head (some key)
    ok (
      key,
      record i {
        waiters = ws';
        head = some key;
        tail = if is_some i.tail then i.tail else some key;
      },
    )

  pub remove : Inner S → ℕ → Outcome (Inner S)
  remove i key = do
    w ← or_panic (S.get i.waiters key)
    let ws = S.remove i.waiters key
    ws' ← set_next ws w.prev w.next
    ws'' ← set_prev ws' w.next w.prev
    ok (record i {
      waiters = ws'';
      head = if is_some w.prev then i.head else w.next;
      tail = if is_some w.next then i.tail else w.prev;
    })

  -- The body of the loop of `wake` on one waiter: it marks the waiter, and says whom it woke.
  pub notify : S.Store → ℕ → Waiter → S.Store × List Waker
  notify ws key w = if w.woke then (ws, []) else (
    S.set ws key (record w { woke = true }),
    elim w.waker [ none ↦ [] | some waker ↦ waker ∷ [] ],
  )

  pub wake_loop : ℕ → ℕ → Option ℕ → S.Store → Outcome (S.Store × List Waker)
  wake_loop zero permits tail ws = out_of_fuel
  wake_loop (suc fuel) permits none ws = ok (ws, [])
  wake_loop (suc fuel) permits (some key) ws = do
    w ← or_panic (S.get ws key)
    let (ws', first) = notify ws key w
    let rest = wake_loop fuel (permits - w.required) w.prev ws'
    if ltb permits w.required then ok (ws, []) else do (ws'', more) ← rest; ok (ws'', first ++ more)

  -- The fuel is the number of waiters and one more round, for the end of the queue.
  pub wake : Inner S → Outcome (Inner S × List Waker)
  wake i = do
    (ws, woken) ← wake_loop (S.len i.waiters + 1) i.permits i.tail i.waiters
    ok (record i { waiters = ws }, woken)

  -- `Inner::try_acquire`, which `Semaphore::try_acquire` calls.
  pub try_acquire : Inner S → ℕ → Inner S × Bool
  try_acquire i required =
      if leb required i.permits && ((S.len i.waiters == 0) || (required == 0))
      then (record i { permits = i.permits - required }, true)
      else (i, false)

-- What a poll of the `Acquire` future leaves: a `Permit` if the result is `ready`.
pub record Polled (S : Slab Waiter) : Type 0 where
  pub result : Poll (Unit {0})
  pub state : AcquireState
  pub inner : Inner S
  pub woken : List Waker

module _ (S : Slab Waiter) where
  -- `will_wake` keeps an equal waker, and another one is replaced.
  pub renew_waker : Waiter → Waker → Waiter
  renew_waker w cx = elim w.waker [
    | none ↦ record w { waker = some cx }
    | some old ↦ if old == cx then w else record w { waker = some cx }
  ]

  pub poll_idle : Inner S → ℕ → Waker → Outcome (Polled S)
  poll_idle i permits cx =
      let (i', acquired) = try_acquire S i permits in
      if acquired
      then ok (record { result = ready tt; state = idle; inner = i'; woken = [] })
      else (do
        (key, i'') ← add S i' cx permits
        ok (record { result = pending; state = waiting key; inner = i''; woken = [] }))

  -- The branch of a waiter that was woken: it takes its permits and leaves the queue.
  pub redeem : Inner S → ℕ → Waiter → Outcome (Polled S)
  redeem i key w = do
    assert (leb w.required i.permits)
    i' ← remove S (record i { permits = i.permits - w.required }) key
    (i'', woken) ← wake S i'
    ok (record { result = ready tt; state = done; inner = i''; woken = woken })

  pub poll_waiting : Inner S → ℕ → Waker → Outcome (Polled S)
  poll_waiting i key cx = do
    w ← or_panic (S.get i.waiters key)
    if w.woke
        then redeem i key w
        else ok (record {
          result = pending;
          state = waiting key;
          inner = record i { waiters = S.set i.waiters key (renew_waker w cx) };
          woken = [];
        })

  pub poll_acquire : Inner S → ℕ → AcquireState → Waker → Outcome (Polled S)
  poll_acquire i permits idle cx = poll_idle i permits cx
  poll_acquire i permits (waiting key) cx = poll_waiting i key cx
  poll_acquire i permits done cx = panic

  -- `impl Drop for Acquire`.
  pub drop_acquire : Inner S → AcquireState → Outcome (Inner S × List Waker)
  drop_acquire i idle = ok (i, [])
  drop_acquire i (waiting key) = do i' ← remove S i key; wake S i'
  drop_acquire i done = ok (i, [])

  pub add_permits : Bool → Inner S → ℕ → Outcome (Inner S × List Waker)
  add_permits checks i permits =
      if permits == 0
      then ok (i, [])
      else (do total ← add_usize checks i.permits permits; wake S (record i { permits = total }))

  -- `impl Drop for Permit`.
  pub drop_permit : Bool → Inner S → ℕ → Outcome (Inner S × List Waker)
  drop_permit checks i permits = add_permits checks i permits

  -- `Permit::forget`: the count is cleared, then the permit is dropped.
  pub forget : Bool → Inner S → ℕ → Outcome (Inner S × List Waker)
  forget checks i permits = drop_permit checks i 0
