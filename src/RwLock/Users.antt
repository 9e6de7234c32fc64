-- ===== src/RwLock/Users.antt =====
-- A readers-writer lock with its users: the `read` and `write` futures that are alive, the guards
-- that are held, and the calls that the interface allows on them, in any order.
pub mod Modes
pub mod Guards
pub mod Histories
pub mod Excludes
pub mod Exclusion
use platoon.Base.{
  ℕ, Bool, none, some, List, [], ◌∷◌, if◌then◌else◌, Outcome, ◌>>=◌, ok, pick, Waker, ready,
  pending,
}
use platoon.Slab.{Slab}
use platoon.Semaphore.{Waiter, AcquireState, idle}
use platoon.Semaphore.System.{Future, System}
use platoon.Semaphore.System.Joins.{future}
use platoon.RwLock.{
  RwLock, LockPolled, permits_max, create, poll_read, poll_write, drop_lock, try_read, try_write,
  drop_read_guard, drop_write_guard, deref_mut,
}

pub data Mode : Type 0 where
  shared : Mode
  exclusive : Mode

abbrev pub cost : Mode → ℕ
cost shared = 1
cost exclusive = permits_max

pub record Users (S : Slab Waiter) (T : Type 0) : Type 0 where
  pub lock : RwLock S T
  pub futures : List (Mode × AcquireState)
  pub guards : List Mode

-- Futures and guards are chosen by their place in their list; a place beyond it is no call.
pub data Action (T : Type 0) : Type 0 where
  locks : Mode → Action T
  polls : ℕ → Waker → Action T
  cancels : ℕ → Action T
  tries : Mode → Action T
  unlocks : ℕ → Action T
  writes : T → Action T

abbrev pub costs : List Mode → List ℕ
costs [] = []
costs (m ∷ ms) = cost m ∷ costs ms

abbrev pub asking : List (Mode × AcquireState) → List Future
asking [] = []
asking ((m, s) ∷ ss) = future (cost m) s ∷ asking ss

-- The semaphore's part of it.
abbrev pub view : (S : Slab Waiter) {T : Type 0} → Users S T → System S
view S u = record { inner = u.lock.semaphore; futures = asking u.futures; held = costs u.guards }

abbrev pub Result : Slab Waiter → Type 0 → Type 0
Result S T = Outcome (Users S T × List Waker)

module _ (S : Slab Waiter) {T : Type 0} where
  pub start : T → Users S T
  start v = record { lock = create S v; futures = []; guards = [] }

  pub poll_mode : Mode → RwLock S T → AcquireState → Waker → Outcome (LockPolled S T)
  poll_mode shared l state cx = poll_read S l state cx
  poll_mode exclusive l state cx = poll_write S l state cx

  pub after_lock : Users S T → Mode → List (Mode × AcquireState) → LockPolled S T → Result S T
  after_lock u m rest p = elim p.result [
    | ready _ ↦ ok (record { lock = p.lock; futures = rest; guards = m ∷ u.guards }, p.woken)
    | pending ↦ ok (record u { lock = p.lock; futures = (m, p.state) ∷ rest }, p.woken)
  ]

  pub poll_one : Users S T → Mode → AcquireState → List (Mode × AcquireState) → Waker → Result S T
  poll_one u m state rest cx = do p ← poll_mode m u.lock state cx; after_lock u m rest p

  pub cancel_one : Users S T → AcquireState → List (Mode × AcquireState) → Result S T
  cancel_one u state rest = do
    (l, woken) ← drop_lock S u.lock state
    ok (record u { lock = l; futures = rest }, woken)

  pub try_mode : Mode → RwLock S T → Outcome (RwLock S T × Bool)
  try_mode shared l = try_read S l
  try_mode exclusive l = try_write S l

  pub try_one : Users S T → Mode → Result S T
  try_one u m = do
    (l, locked) ← try_mode m u.lock
    ok (record u { lock = l; guards = if locked then m ∷ u.guards else u.guards }, [])

  pub drop_mode : Bool → Mode → RwLock S T → Outcome (RwLock S T × List Waker)
  drop_mode checks shared l = drop_read_guard S checks l
  drop_mode checks exclusive l = drop_write_guard S checks l

  pub unlock_one : Bool → Users S T → Mode → List Mode → Result S T
  unlock_one checks u m rest = do
    (l, woken) ← drop_mode checks m u.lock
    ok (record u { lock = l; guards = rest }, woken)

  -- A write goes through a write guard.
  pub write_one : Users S T → List Mode → T → Result S T
  write_one u [] v = ok (u, [])
  write_one u (shared ∷ ms) v = ok (u, [])
  write_one u (exclusive ∷ ms) v = ok (record u { lock = deref_mut S u.lock v }, [])

  pub step : Bool → Users S T → Action T → Result S T
  step checks u (locks m) = ok (record u { futures = (m, idle) ∷ u.futures }, [])
  step checks u (polls j cx) = elim (pick j u.futures) [
    | none ↦ ok (u, [])
    | some ((m, state), rest) ↦ poll_one u m state rest cx
  ]
  step checks u (cancels j) = elim (pick j u.futures) [
    | none ↦ ok (u, [])
    | some ((m, state), rest) ↦ cancel_one u state rest
  ]
  step checks u (tries m) = try_one u m
  step checks u (unlocks j) = elim (pick j u.guards) [
    | none ↦ ok (u, [])
    | some (m, rest) ↦ unlock_one checks u m rest
  ]
  step checks u (writes v) = write_one u u.guards v
