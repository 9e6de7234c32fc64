-- ===== src/Time/Timeouts.antt =====
-- A timeout yields what its future does, even at the deadline, or else that the time is over.
use platoon.Base.{
  ℕ, ◌+◌, ◌≤◌, ◌<◌, ◌≡◌, refl, ◌⊎◌, inl, inr, Bool, some, Outcome, ok, Poll, Waker, usize_max,
  ready, pending,
}
use platoon.Runtime.Park.{Park}
use platoon.Runtime.Clock.{Clock, lookup}
use platoon.Runtime.Clock.Setting.{IsSound}
use platoon.Time.{Sleep, Timeout, TimedOut, timed_out, poll_timeout}
use platoon.Time.Wakes.{IsArmed, poll-Polls}

module _ (P : Park) {F A : Type 0} where
  -- How a poll of a timeout ends, whose future was polled with this result, and left this clock.
  abbrev pub TimesOut :
      Clock P
      → F
      → Sleep
      → Poll A
      → ℕ
      → Waker
      → Outcome (Clock P × Timeout F × Poll (A ⊎ TimedOut))
      → Type 0
  TimesOut c f s result now cx r =
      ((v : A) × (result ≡ ready v) × (r ≡ ok (c, record { future = f; sleep = s }, ready (inl v))))
      ⊎ ((result ≡ pending)
          × (s.deadline ≤ now)
          × (r ≡ ok (c, record { future = f; sleep = s }, ready (inr timed_out))))
      ⊎ ((result ≡ pending)
          × (now < s.deadline)
          × (c' : Clock P) × (id : ℕ) × (r
              ≡ ok (c', record { future = f; sleep = record s { alarm = some (id, cx) } }, pending))
          × (lookup s.deadline id c'.alarms ≡ some cx)
          × IsSound P c')

  -- Where the poll of the future returns and leaves a sound clock with room for another number,
  -- which holds the alarm of the sleep if it has one, a poll of a timeout is ready with the value
  -- of the future if that is ready, even at the deadline; else it is ready with an error from the
  -- deadline on; else it is pending, and the clock, still sound, holds an alarm at the deadline
  -- with the waker of the poll.
  pub poll_timeout-TimesOut :
      (poll_future : Clock P → F → Outcome (Clock P × F × Poll A)) (checks : Bool) (c c' : Clock P)
      (t : Timeout F) (f : F) (result : Poll A) (now : ℕ) (cx : Waker)
      → poll_future c t.future ≡ ok (c', f, result)
      → IsSound P c'
      → c'.next_alarm + 1 ≤ usize_max
      → IsArmed P c' t.sleep
      → TimesOut c' f t.sleep result now cx (poll_timeout P poll_future checks c t now cx)
  unfolding poll_timeout
  poll_timeout-TimesOut poll_future checks c c' t f (ready v) now cx ran sound fits armed =
      inl (v, refl, rw ran)
  poll_timeout-TimesOut poll_future checks c c' t f pending now cx ran sound fits armed =
      elim (poll-Polls P checks c' t.sleep now cx sound fits armed) [
        | inl (over, slept) ↦ inr (inl (refl, over, rw (ran, slept)))
        | inr (early, c'', id, slept, look, sound') ↦
            inr (inr (refl, early, c'', id, rw (ran, slept), look, sound'))
      ]
