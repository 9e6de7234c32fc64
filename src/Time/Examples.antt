-- ===== src/Time/Examples.antt =====
-- Sleeps and an interval that wait on the clock of Runtime/Clock/Examples.antt.
use platoon.Base.{
  ℕ, ◌+◌, Outcome, Poll, add_usize, ◌≡◌, refl, true, none, some, [], ◌∷◌, arith, ok, panic, pending,
}
use platoon.Runtime.Clock.{Clock, key_eq, key_lt, insert, extend_with_expired, insert_alarm}
use platoon.Runtime.Clock.Examples.{still, two_alarms, two_alarms-IsSound}
use platoon.Time.{Sleep, Timeout, poll, arm, tick, poll_timeout}
use platoon.Time.Timeouts.{TimesOut, poll_timeout-TimesOut}
use platoon.Time.Ticks.{tick_panics}

abbrev new_sleep : Sleep
new_sleep = record { deadline = 20; alarm = none }

abbrev armed_sleep : Sleep
armed_sleep = record { deadline = 20; alarm = some (2, 9) }

abbrev three_alarms : Clock still
three_alarms = record {
  parker = tt;
  next_alarm = 3;
  alarms = (10, 1, 8) ∷ (20, 2, 9) ∷ (30, 0, 7) ∷ [];
}

poll-new_sleep : poll still true two_alarms new_sleep 15 9 ≡ ok (three_alarms, armed_sleep, pending)
unfolding poll arm insert_alarm insert key_lt key_eq add_usize
poll-new_sleep = refl

tick_new_interval :
    tick still true two_alarms (record { sleep = new_sleep; interval = 50 }) 15 15 9
    ≡ ok (three_alarms, record { sleep = armed_sleep; interval = 50 }, pending)
unfolding tick
tick_new_interval = rw poll-new_sleep

tick_panics_example :
    tick still true
      (extend_with_expired still three_alarms 25).0
      (record { sleep = armed_sleep; interval = 50 })
      26
      26
      9
    ≡ panic
tick_panics_example =
    tick_panics still true two_alarms three_alarms (record { sleep = new_sleep; interval = 50 })
      (record { sleep = armed_sleep; interval = 50 }) 15 15 25 26 26 9 9 two_alarms-IsSound
      (omega arith) tt tick_new_interval (omega arith) (omega arith)

-- A future that is not ready.
abbrev never : Clock still → ℕ → Outcome (Clock still × ℕ × Poll ℕ)
never c n = ok (c, n + 1, pending)

abbrev limited : Timeout ℕ
limited = record { future = 6; sleep = new_sleep }

poll_timeout-TimesOut_example :
    TimesOut still two_alarms 7 new_sleep pending 15 9
      (poll_timeout still never true two_alarms limited 15 9)
poll_timeout-TimesOut_example =
    poll_timeout-TimesOut still never true two_alarms two_alarms limited 7 pending 15 9 refl
      two_alarms-IsSound (omega arith) tt
