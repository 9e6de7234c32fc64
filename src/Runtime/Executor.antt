-- ===== src/Runtime/Executor.antt =====
-- src/runtime/executor.rs: the queue of tasks, what a task is, and `block_on`. Tasks stand in a
-- list and are known by their place in it, as by their `Rc`; the waker 0 is the one of the
-- future of `block_on`, and the waker n + 1 the one of task n.
pub mod Queued
pub mod Effects
pub mod Ticks
pub mod Wakers
pub mod Keeps
pub mod Rounds
pub mod Outputs
pub mod Appends
pub mod Order
pub mod Woken
use platoon.Base.{
  ℕ, zero, suc, ◌+◌, Bool, true, false, Option, none, some, List, [], ◌∷◌, ◌++◌, if◌then◌else◌,
  length, Outcome, ◌>>=◌, or_panic, ok, panic, out_of_fuel, Poll, Waker, IoResult, ready, pending,
  success, failure,
}
use platoon.Runtime.Park.{Park}

pub data State : Type 0 where
  scheduled : State
  idle : State
  done : State

pub data Payload (F O : Type 0) : Type 0 where
  future : F → Payload F O
  output : O → Payload F O
  taken : Payload F O

-- `TaskRepr`; `borrowed` says whether its payload is, as it is while the task is polled.
pub record Task (F O : Type 0) : Type 0 where
  pub awaiter : Option Waker
  pub state : State
  pub payload : Payload F O
  pub borrowed : Bool

-- What the code of a future does to the runtime in one poll, one call after the other: it wakes,
-- spawns, polls or cancels a handle, or works on the clock or reactor behind the parker.
pub data Code (X F O R : Type 0) : Type 0 where
  returns : R → Code X F O R
  wakes : Waker → Code X F O R → Code X F O R
  spawns : F → (ℕ → Code X F O R) → Code X F O R
  joins : ℕ → Waker → (Poll O → Code X F O R) → Code X F O R
  cancels : ℕ → (Option O → Code X F O R) → Code X F O R
  visits : (X → X) → (X → Code X F O R) → Code X F O R

pub record Executor (P : Park) (F O : Type 0) : Type 0 where
  pub queue : List ℕ
  pub woke : Bool
  pub parker : P.State
  pub tasks : List (Task F O)

-- The task at a place, and a write to it.
abbrev pub get : {A : Type 0} → List A → ℕ → Option A
get [] n = none
get (t ∷ ts) zero = some t
get (t ∷ ts) (suc n) = get ts n

abbrev pub put : {A : Type 0} → List A → ℕ → A → List A
put [] n u = []
put (t ∷ ts) zero u = u ∷ ts
put (t ∷ ts) (suc n) u = t ∷ put ts n u

module _ (P : Park) {F O : Type 0} where
  -- `Executor::new`.
  unfoldable pub new : P.State → Executor P F O
  new parker = record { queue = []; woke = false; parker = parker; tasks = [] }

  unfoldable pub spawn : Executor P F O → F → Executor P F O × ℕ
  spawn e f =
      let task : Task F O = record {
        awaiter = none;
        state = scheduled;
        payload = future f;
        borrowed = false;
      } in
      let n = length e.tasks in
      (record e { queue = e.queue ++ n ∷ []; tasks = e.tasks ++ task ∷ [] }, n)

  unfoldable pub set_task : Executor P F O → ℕ → Task F O → Executor P F O
  set_task e n t = record e { tasks = put e.tasks n t }

  -- `RcWake for TaskRepr`.
  pub wake_task : Executor P F O → ℕ → Task F O → Executor P F O
  wake_task e n t = elim t.state [
    | idle ↦ record e {
      queue = e.queue ++ n ∷ [];
      tasks = put e.tasks n (record t { state = scheduled });
    }
    | scheduled ↦ e
    | done ↦ e
  ]

  -- A wake, by what the waker wakes.
  unfoldable pub wake : Executor P F O → Waker → Executor P F O
  wake e zero = record e { woke = true }
  wake e (suc n) = elim (get e.tasks n) [ none ↦ e | some t ↦ wake_task e n t ]

  pub wake_all : Executor P F O → List Waker → Executor P F O
  wake_all e [] = e
  wake_all e (w ∷ ws) = wake_all (wake e w) ws

  -- `RawTask::poll_output`.
  unfoldable pub poll_output : Executor P F O → ℕ → Waker → Outcome (Executor P F O × Poll O)
  poll_output e n cx = do
    t ← or_panic (get e.tasks n)
    if t.borrowed then panic else elim t.payload [
      | output o ↦ ok (set_task e n (record t { payload = taken }), ready o)
      | taken ↦ panic
      | future f ↦ ok (set_task e n (record t { awaiter = some cx }), pending)
    ]

  -- `RawTask::cancel`.
  unfoldable pub cancel : Executor P F O → ℕ → Outcome (Executor P F O × Option O)
  cancel e n = do
    t ← or_panic (get e.tasks n)
    if t.borrowed
        then panic
        else ok (
          set_task e n (record t { payload = taken }),
          elim t.payload [ output o ↦ some o | taken ↦ none | future f ↦ none ],
        )

  -- The code of one poll, on the executor.
  unfoldable pub execute :
      {R : Type 0} → Code P.State F O R → Executor P F O → Outcome (Executor P F O × R)
  execute (returns r) e = ok (e, r)
  execute (wakes w c) e = execute c (wake e w)
  execute (spawns f c) e = let (e', n) = spawn e f in execute (c n) e'
  execute (joins n cx c) e = do (e', polled) ← poll_output e n cx; execute (c polled) e'
  execute (cancels n c) e = do (e', o) ← cancel e n; execute (c o) e'
  execute (visits f c) e = execute (c e.parker) (record e { parker = f e.parker })

  module _ (poll : F → Waker → Code P.State F O (Poll O × F)) where
    -- `payload.take` of a finished task: its output, its state, and whoever awaits it is woken.
    unfoldable pub finish : Executor P F O → ℕ → O → Outcome (Executor P F O)
    finish e n o = do
      t ← or_panic (get e.tasks n)
      let e' =
          set_task e n
            (record { awaiter = none; state = done; payload = output o; borrowed = false })
      ok (elim t.awaiter [ none ↦ e' | some w ↦ wake e' w ])

    pub suspend : Executor P F O → ℕ → F → Outcome (Executor P F O)
    suspend e n f = do
      t ← or_panic (get e.tasks n)
      ok (set_task e n (record t { payload = future f; borrowed = false }))

    -- `RawTask::run`.
    unfoldable pub run : Executor P F O → ℕ → Outcome (Executor P F O)
    run e n = do
      t ← or_panic (get e.tasks n)
      if t.borrowed then panic else elim t.payload [
        | output o ↦ ok (set_task e n (record t { state = idle }))
        | taken ↦ ok (set_task e n (record t { state = idle }))
        | future f ↦ (do
          (e', (result, f')) ←
              execute (poll f (suc n)) (set_task e n (record t { state = idle; borrowed = true }))
          elim result [ ready o ↦ finish e' n o | pending ↦ suspend e' n f' ])
      ]

-- How the polls of one tick end: a task woke the future of `block_on`, or no task is left, or
-- their number is used up.
pub data Ticked : Type 0 where
  main_woken : Ticked
  no_tasks : Ticked
  all_polled : Ticked

abbrev pub polls_per_tick : ℕ
polls_per_tick = 61

module _ (P : Park) {F O : Type 0} (poll : F → Waker → Code P.State F O (Poll O × F)) where
  unfoldable pub tick : ℕ → Executor P F O → Outcome (Executor P F O × Ticked)
  tick zero e = ok (e, all_polled)
  tick (suc n) e = elim e.queue [
    | [] ↦ ok (e, no_tasks)
    | t ∷ ts ↦ (do
      e' ← run P poll (record e { queue = ts }) t
      let rest = tick n e'
      if e'.woke then ok (e', main_woken) else rest)
  ]

  -- The thread was parked: the wakers that this yields are woken, and an error panics.
  pub parked :
      Executor P F O → P.State × List Waker × IoResult (Unit {0}) → Outcome (Executor P F O)
  parked e (p, ws, success _) = ok (wake_all P (record e { parker = p }) ws)
  parked e (p, ws, failure err) = panic

  unfoldable pub after_tick : Executor P F O → Ticked → Outcome (Executor P F O)
  after_tick e main_woken = ok e
  after_tick e no_tasks = parked e (P.park e.parker)
  after_tick e all_polled = parked e (P.park_timeout e.parker 0)

  -- A poll of the future of `block_on`, if it was woken.
  unfoldable pub poll_main : Executor P F O → F → Outcome (Executor P F O × (Poll O × F))
  poll_main e f =
      if e.woke then execute P (poll f 0) (record e { woke = false }) else ok (e, (pending, f))

  -- The loop of `block_on`, which may go on for ever: the fuel is its rounds.
  unfoldable pub rounds : ℕ → Executor P F O → F → Outcome (Executor P F O × O)
  rounds zero e f = out_of_fuel
  rounds (suc fuel) e f = do
    (e', (result, f')) ← poll_main e f
    elim result [
      | ready o ↦ ok (e', o)
      | pending ↦ (do
        (e'', ticked) ← tick polls_per_tick e'
        e''' ← after_tick e'' ticked
        rounds fuel e''' f')
    ]

  pub block_on : ℕ → Executor P F O → F → Outcome (Executor P F O × O)
  block_on fuel e f = rounds fuel (record e { woke = true }) f
