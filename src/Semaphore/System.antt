-- ===== src/Semaphore/System.antt =====
-- A semaphore with its clients: the `Acquire` futures that are alive, with the permits each asks
-- for, the `Permit`s that are held, and the calls that the interface allows on them, in any
-- order. A future that is ready is dropped, as `.await` does.
pub mod Service
pub mod Inverse
pub mod Futures
pub mod Permits
pub mod Step
pub mod Sound
pub mod Joins
pub mod Matched
use platoon.Base.{
  ℕ, ◌+◌, Bool, none, some, List, [], ◌∷◌, ◌++◌, if◌then◌else◌, Outcome, ◌>>=◌, ok, pick, Waker,
  ready, pending,
}
use platoon.Slab.{Slab}
use platoon.Semaphore.{
  Waiter, Inner, AcquireState, idle, waiting, done, Polled, new, try_acquire, poll_acquire,
  drop_acquire, add_permits, drop_permit, forget,
}

pub record Future : Type 0 where
  pub permits : ℕ
  pub state : AcquireState

pub record System (S : Slab Waiter) : Type 0 where
  pub inner : Inner S
  pub futures : List Future
  pub held : List ℕ

-- Futures and permits are chosen by their place in their list; a place beyond it is no call.
pub data Action : Type 0 where
  acquires : ℕ → Action
  polls : ℕ → Waker → Action
  cancels : ℕ → Action
  tries : ℕ → Action
  releases : ℕ → Action
  forgets : ℕ → Action
  adds : ℕ → Action

module _ (S : Slab Waiter) where
  pub start : ℕ → System S
  start permits = record { inner = new S permits; futures = []; held = [] }

  abbrev Result : Type 0
  Result = Outcome (System S × List Waker)

  pub after_poll : System S → Future → List Future → Polled S → Result
  after_poll s u rest p = elim p.result [
    | ready _ ↦ (do
      (i, woken) ← drop_acquire S p.inner p.state
      ok (record s { inner = i; futures = rest; held = u.permits ∷ s.held }, p.woken ++ woken))
    | pending ↦
        ok (record s { inner = p.inner; futures = record u { state = p.state } ∷ rest }, p.woken)
  ]

  pub poll_future : System S → Future → List Future → Waker → Result
  poll_future s u rest cx = do
    p ← poll_acquire S s.inner u.permits u.state cx
    after_poll s u rest p

  pub cancel_future : System S → Future → List Future → Result
  cancel_future s u rest = do
    (i, woken) ← drop_acquire S s.inner u.state
    ok (record s { inner = i; futures = rest }, woken)

  pub try_take : System S → ℕ → Result
  try_take s n =
      let (i, acquired) = try_acquire S s.inner n in
      if acquired then ok (record s { inner = i; held = n ∷ s.held }, []) else ok (s, [])

  pub release_permit : Bool → System S → ℕ → List ℕ → Result
  release_permit checks s n rest = do
    (i, woken) ← drop_permit S checks s.inner n
    ok (record s { inner = i; held = rest }, woken)

  pub forget_permit : Bool → System S → ℕ → List ℕ → Result
  forget_permit checks s n rest = do
    (i, woken) ← forget S checks s.inner n
    ok (record s { inner = i; held = rest }, woken)

  pub add_more : Bool → System S → ℕ → Result
  add_more checks s n = do
    (i, woken) ← add_permits S checks s.inner n
    ok (record s { inner = i }, woken)

  pub step : Bool → System S → Action → Result
  step checks s (acquires n) =
      ok (record s { futures = record { permits = n; state = idle } ∷ s.futures }, [])
  step checks s (polls j cx) = elim (pick j s.futures) [
    | none ↦ ok (s, [])
    | some (u, rest) ↦ poll_future s u rest cx
  ]
  step checks s (cancels j) = elim (pick j s.futures) [
    | none ↦ ok (s, [])
    | some (u, rest) ↦ cancel_future s u rest
  ]
  step checks s (tries n) = try_take s n
  step checks s (releases j) = elim (pick j s.held) [
    | none ↦ ok (s, [])
    | some (n, rest) ↦ release_permit checks s n rest
  ]
  step checks s (forgets j) = elim (pick j s.held) [
    | none ↦ ok (s, [])
    | some (n, rest) ↦ forget_permit checks s n rest
  ]
  step checks s (adds n) = add_more checks s n
