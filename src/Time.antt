-- ===== src/Time.antt =====
-- src/time.rs: sleeping, intervals and timeouts over the runtime's clock, which the futures share
-- and which is passed through. Times and durations are counts of nanoseconds; `Instant::now()` is
-- an argument at each place that reads it.
pub mod Wakes
pub mod Ticks
pub mod Timeouts
mod Examples
use platoon.Base.{
  ℕ, ◌+◌, ◌⊎◌, inl, inr, Bool, Option, none, some, leb, ◌==◌, if◌then◌else◌, Outcome, ◌>>=◌, ok,
  Poll, Waker, ready, pending,
}
use platoon.Runtime.Park.{Park}
use platoon.Runtime.Clock.{Clock, insert_alarm, remove_alarm, reset_alarm, replace_alarm_waker}

pub record Sleep : Type 0 where
  pub deadline : ℕ
  pub alarm : Option (ℕ × Waker)

pub record Interval : Type 0 where
  pub sleep : Sleep
  pub interval : ℕ

pub record Timeout (F : Type 0) : Type 0 where
  pub future : F
  pub sleep : Sleep

pub data TimedOut : Type 0 where
  timed_out : TimedOut

pub sleep_until : ℕ → Sleep
sleep_until deadline = record { deadline = deadline; alarm = none }

pub sleep : ℕ → ℕ → Sleep
sleep now duration = sleep_until (now + duration)

pub interval_at : ℕ → ℕ → Interval
interval_at start interval = record { interval = interval; sleep = sleep_until start }

pub every : ℕ → ℕ → Interval
every now interval = interval_at now interval

pub timeout_at : {F : Type 0} → ℕ → F → Timeout F
timeout_at deadline future = record { future = future; sleep = sleep_until deadline }

pub timeout : {F : Type 0} → ℕ → ℕ → F → Timeout F
timeout now duration future = timeout_at (now + duration) future

module _ (P : Park) where
  -- `Sleep::reset`.
  pub reset : Clock P → Sleep → ℕ → Outcome (Clock P × Sleep)
  reset c s deadline = elim s.alarm [
    | none ↦ ok (c, record s { deadline = deadline })
    | some (id, _) ↦ (do
      c' ← reset_alarm P c id s.deadline deadline
      ok (c', record s { deadline = deadline }))
  ]

  -- The part of `Sleep::poll` behind the test of the deadline.
  unfoldable pub arm : Bool → Clock P → Sleep → Waker → Outcome (Clock P × Sleep)
  arm checks c s cx = elim s.alarm [
    | none ↦ (do
      (c', id) ← insert_alarm P checks c s.deadline cx
      ok (c', record s { alarm = some (id, cx) }))
    | some (id, waker) ↦ if waker == cx then ok (c, s) else (do
      c' ← replace_alarm_waker P c id s.deadline cx
      ok (c', record s { alarm = some (id, cx) }))
  ]

  -- `Future::poll` of `Sleep`.
  unfoldable pub poll : Bool → Clock P → Sleep → ℕ → Waker → Outcome (Clock P × Sleep × Poll ℕ)
  poll checks c s now cx =
      if leb s.deadline now
      then ok (c, s, ready s.deadline)
      else (do (c', s') ← arm checks c s cx; ok (c', s', pending))

  -- `impl Drop for Sleep`.
  pub drop_sleep : Clock P → Sleep → Clock P
  drop_sleep c s = elim s.alarm [ none ↦ c | some (id, _) ↦ remove_alarm P c id s.deadline ]

  -- A poll of `Interval::tick`, which reads the time in its `sleep` and once more to reset it.
  pub tick :
      Bool
      → Clock P
      → Interval
      → (now then_now : ℕ) → Waker
      → Outcome (Clock P × Interval × Poll (Option ℕ))
  tick checks c i now then_now cx = do
    (c', s, result) ← poll checks c i.sleep now cx
    elim result [
      | pending ↦ ok (c', record i { sleep = s }, pending)
      | ready _ ↦ (do
        (c'', s') ← reset c' s (then_now + i.interval)
        ok (c'', record i { sleep = s' }, ready (some s'.deadline)))
    ]

  -- `Future::poll` of `Timeout`, with the poll of the future inside, which may use the clock too.
  pub poll_timeout :
      {F A : Type 0}
      → (Clock P → F → Outcome (Clock P × F × Poll A))
      → Bool
      → Clock P
      → Timeout F
      → ℕ
      → Waker
      → Outcome (Clock P × Timeout F × Poll (A ⊎ TimedOut))
  poll_timeout {F} {A} poll_future checks c t now cx = do
    (c', f, result) ← poll_future c t.future
    elim result [
      | ready v ↦ ok (c', record t { future = f }, ready (inl v))
      | pending ↦ (do
        (c'', s, slept) ← poll checks c' t.sleep now cx
        let t' : Timeout F = record { future = f; sleep = s }
        let out : Poll (A ⊎ TimedOut) = elim slept [
          | ready _ ↦ ready (inr timed_out)
          | pending ↦ pending
        ]
        ok (c'', t', out))
    ]
