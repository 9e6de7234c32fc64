-- ===== src/Runtime/Executor/Wakers.antt =====
-- src/runtime/executor.rs, the trait `RcWake`: the table of a raw waker over an `Rc`, whose
-- reference count each function keeps by hand, with the check of the thread. A function that
-- panics drops what it owns on the way out.
pub mod Counts
mod Examples
use platoon.Base.{ℕ, ◌+◌, ◌-◌, ◌≤◌, ◌==◌, if◌then◌else◌}
use platoon.Runtime.Executor.{State, scheduled, idle, done}

-- The `Rc` of a task: its references, those of them that lie in the queue, and the thread.
pub record Counted : Type 0 where
  pub strong : ℕ
  pub queued : ℕ
  pub state : State
  pub created_on : ℕ

pub data Ended : Type 0 where
  returned : Ended
  panicked : Ended

-- `Rc::clone` and the drop of an `Rc`.
abbrev pub clone_rc : Counted → Counted
clone_rc b = record b { strong = b.strong + 1 }

abbrev pub drop_rc : Counted → Counted
drop_rc b = record b { strong = b.strong - 1 }

-- `TaskRepr::wake`, which owns a reference and drops it at its end.
pub wake_repr : Counted → Counted
wake_repr b = elim b.state [
  | idle ↦ drop_rc (clone_rc (record b { state = scheduled; queued = b.queued + 1 }))
  | scheduled ↦ drop_rc b
  | done ↦ drop_rc b
]

-- `assert_not_sent`, in a function that does so and so when it passes, or else when it unwinds.
pub assert_not_sent : ℕ → Counted → Counted → Counted → Counted × Ended
assert_not_sent thread b passed unwound =
    if thread == b.created_on then (passed, returned) else (unwound, panicked)

-- The `Rc` that was made from the raw pointer is forgotten by its clone, or dropped by a panic.
pub clone : ℕ → Counted → Counted × Ended
clone thread b = assert_not_sent thread b (clone_rc b) (drop_rc b)

pub wake : ℕ → Counted → Counted × Ended
wake thread b = assert_not_sent thread b (wake_repr b) (drop_rc b)

-- In a `ManuallyDrop`, which a panic does not drop.
pub wake_by_ref : ℕ → Counted → Counted × Ended
wake_by_ref thread b = assert_not_sent thread b (wake_repr (clone_rc b)) b

pub drop : ℕ → Counted → Counted × Ended
drop thread b = assert_not_sent thread b (drop_rc b) (drop_rc b)

-- A task with the wakers that are left of it, and the `Rc`s outside the queue: those of handles and
-- of calls under way.
pub record Held : Type 0 where
  pub task : Counted
  pub wakers : ℕ
  pub owners : ℕ

-- `Executor::spawn`.
pub spawned : ℕ → Held
spawned thread = record {
  task = record { strong = 2; queued = 1; state = scheduled; created_on = thread };
  wakers = 0;
  owners = 1;
}

-- A call that returned made a waker.
abbrev pub one_more : Ended → ℕ → ℕ
one_more returned n = n + 1
one_more panicked n = n

-- What the holders of a task do on a thread. `run` of the executor is `pops`, `clones_task`,
-- `makes_waker` and `settles`, then the drop of both.
pub data Step (thread : ℕ) : Held → Held → Type 0 where
  clones :
      (h : Held)
      → 1 ≤ h.wakers
      → Step thread h (record h {
        task = (clone thread h.task).0;
        wakers = one_more (clone thread h.task).1 h.wakers;
      })
  wakes :
      (h : Held)
      → 1 ≤ h.wakers
      → Step thread h (record h { task = (wake thread h.task).0; wakers = h.wakers - 1 })
  wakes_by_ref :
      (h : Held) → 1 ≤ h.wakers → Step thread h (record h { task = (wake_by_ref thread h.task).0 })
  drops :
      (h : Held)
      → 1 ≤ h.wakers
      → Step thread h (record h { task = (drop thread h.task).0; wakers = h.wakers - 1 })
  -- `into_waker` passes its reference on.
  makes_waker :
      (h : Held)
      → 1 ≤ h.owners
      → Step thread h (record h { wakers = h.wakers + 1; owners = h.owners - 1 })
  clones_task :
      (h : Held)
      → 1 ≤ h.owners
      → Step thread h (record h { task = clone_rc h.task; owners = h.owners + 1 })
  drops_task :
      (h : Held)
      → 1 ≤ h.owners
      → Step thread h (record h { task = drop_rc h.task; owners = h.owners - 1 })
  pops :
      (h : Held)
      → 1 ≤ h.task.queued
      → Step thread h (record h {
        task = record (h.task) { queued = h.task.queued - 1 };
        owners = h.owners + 1;
      })
  settles :
      (h : Held) (s : State)
      → 1 ≤ h.owners
      → Step thread h (record h { task = record (h.task) { state = s } })

pub data Reach (thread : ℕ) (h : Held) : Held → Type 0 where
  stays : Reach thread h h
  steps : {h' h'' : Held} → Reach thread h h' → Step thread h' h'' → Reach thread h h''
