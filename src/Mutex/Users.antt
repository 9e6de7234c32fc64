-- ===== src/Mutex/Users.antt =====
-- A mutex with its users: the `lock` futures that are alive, the guards that are held, and the
-- calls that the interface allows on them, in any order.
pub mod Histories
pub mod Excludes
pub mod Waits
pub mod Exclusion
use platoon.Base.{
  ℕ, zero, suc, Bool, none, some, List, [], ◌∷◌, if◌then◌else◌, Outcome, ◌>>=◌, ok, pick, Waker,
  ready, pending,
}
use platoon.Slab.{Slab}
use platoon.Semaphore.{Waiter, AcquireState, idle}
use platoon.Semaphore.System.{Future, System}
use platoon.Semaphore.System.Joins.{future}
use platoon.Mutex.{Mutex, LockPolled, create, poll_lock, drop_lock, try_lock, drop_guard, deref_mut}

pub record Users (S : Slab Waiter) (T : Type 0) : Type 0 where
  pub mutex : Mutex S T
  pub futures : List AcquireState
  pub guards : ℕ

-- Futures are chosen by their place in their list; a place beyond it is no call.
pub data Action (T : Type 0) : Type 0 where
  locks : Action T
  polls : ℕ → Waker → Action T
  cancels : ℕ → Action T
  tries : Action T
  unlocks : Action T
  writes : T → Action T

abbrev pub ones : ℕ → List ℕ
ones zero = []
ones (suc n) = 1 ∷ ones n

abbrev pub asking : List AcquireState → List Future
asking [] = []
asking (s ∷ ss) = future 1 s ∷ asking ss

-- The semaphore's part of it.
abbrev pub view : (S : Slab Waiter) {T : Type 0} → Users S T → System S
view S u = record { inner = u.mutex.semaphore; futures = asking u.futures; held = ones u.guards }

abbrev pub Result : Slab Waiter → Type 0 → Type 0
Result S T = Outcome (Users S T × List Waker)

module _ (S : Slab Waiter) {T : Type 0} where
  pub start : T → Users S T
  start v = record { mutex = create S v; futures = []; guards = 0 }

  pub after_lock : Users S T → List AcquireState → LockPolled S T → Result S T
  after_lock u rest p = elim p.result [
    | ready _ ↦ ok (record { mutex = p.mutex; futures = rest; guards = suc u.guards }, p.woken)
    | pending ↦ ok (record u { mutex = p.mutex; futures = p.state ∷ rest }, p.woken)
  ]

  pub poll_one : Users S T → AcquireState → List AcquireState → Waker → Result S T
  poll_one u state rest cx = do p ← poll_lock S u.mutex state cx; after_lock u rest p

  pub cancel_one : Users S T → AcquireState → List AcquireState → Result S T
  cancel_one u state rest = do
    (m, woken) ← drop_lock S u.mutex state
    ok (record u { mutex = m; futures = rest }, woken)

  pub try_one : Users S T → Result S T
  try_one u = do
    (m, locked) ← try_lock S u.mutex
    ok (record u { mutex = m; guards = if locked then suc u.guards else u.guards }, [])

  -- A guard is dropped, if there is one.
  pub unlock_one : Bool → Users S T → ℕ → Result S T
  unlock_one checks u zero = ok (u, [])
  unlock_one checks u (suc n) = do
    (m, woken) ← drop_guard S checks u.mutex
    ok (record u { mutex = m; guards = n }, woken)

  -- A write goes through a guard.
  pub write_one : Users S T → ℕ → T → Result S T
  write_one u zero v = ok (u, [])
  write_one u (suc n) v = ok (record u { mutex = deref_mut S u.mutex v }, [])

  pub step : Bool → Users S T → Action T → Result S T
  step checks u locks = ok (record u { futures = idle ∷ u.futures }, [])
  step checks u (polls j cx) = elim (pick j u.futures) [
    | none ↦ ok (u, [])
    | some (state, rest) ↦ poll_one u state rest cx
  ]
  step checks u (cancels j) = elim (pick j u.futures) [
    | none ↦ ok (u, [])
    | some (state, rest) ↦ cancel_one u state rest
  ]
  step checks u tries = try_one u
  step checks u unlocks = unlock_one checks u u.guards
  step checks u (writes v) = write_one u u.guards v
