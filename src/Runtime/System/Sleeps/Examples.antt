-- ===== src/Runtime/System/Sleeps/Examples.antt =====
-- The task of Runtime/System/Examples.antt sleeps until 900, and the thread parks at 1_000.
use platoon.Base.{
  ℕ, Bool, true, false, ◌<◌, ◌≡◌, refl, some, none, [], ◌∷◌, ok, arith, Waker, ready, pending,
  success, ◌==◌, Bool-cases,
}
use platoon.Slab.Slots.{slots}
use platoon.Sys.Table.{table}
use platoon.Runtime.Clock
use platoon.Runtime.Clock.{Clock, lookup, extend_with_expired}
use platoon.Runtime.Clock.Setting.{IsSound}
use platoon.Runtime.Reactor.{Source, poll, dispatch, rearm, fire, take, has_poller}
use platoon.Runtime.Reactor.Examples.{one_source, one_source-IsWatched}
use platoon.Runtime.Executor.{Executor, all_polled, after_tick}
use platoon.Runtime.Executor.Woken.{Woken}
use platoon.Runtime.System.Parks.{park_within, IsSane}
use platoon.Runtime.System.Examples.{parker, whole, instants, yields, asleep, asleep-IsSane}
use platoon.Runtime.System.Sleeps.{sleep-Woken}
use platoon.Time
use platoon.Time.{Sleep}

abbrev before : Clock parker
before = record { parker = one_source; next_alarm = 1; alarms = (2_000_009, 0, 41) ∷ [] }

abbrev armed : Clock parker
armed = record {
  parker = one_source;
  next_alarm = 2;
  alarms = (900, 1, 1) ∷ (2_000_009, 0, 41) ∷ [];
}

abbrev new_sleep : Sleep
new_sleep = record { deadline = 900; alarm = none }

abbrev armed_sleep : Sleep
armed_sleep = record { deadline = 900; alarm = some (1, 1) }

before-IsSound : IsSound parker before
unfolding lookup platoon.Runtime.Clock.key_eq
before-IsSound = record { sorted = (tt, tt); numbered = numbered }
  where
    numbered : (t k : ℕ) (w : Waker) → lookup t k before.alarms ≡ some w → k < 1
    numbered t k w found = ground (arith, found)

poll_before : Time.poll parker true before new_sleep 500 1 ≡ ok (armed, armed_sleep, pending)
unfolding platoon.Time.poll platoon.Time.arm platoon.Runtime.Clock.insert_alarm
    platoon.Runtime.Clock.insert platoon.Runtime.Clock.key_lt platoon.Runtime.Clock.key_eq
    platoon.Base.add_usize
poll_before = refl

abbrev sleeping : Executor whole Bool (Unit {0})
sleeping = record asleep { parker = record { clock = armed; readings = 0 } }

sleeping-IsSane : IsSane table (slots Source) instants sleeping
unfolding platoon.Runtime.Clock.key_lt
sleeping-IsSane = (
  record { distinct = tt; known = asleep-IsSane.0.known; stands = asleep-IsSane.0.stands },
  record { sorted = (refl, (tt, tt)); watched = one_source-IsWatched },
)

served : (park_within table (slots Source) armed 1_000 (some 0)).2 ≡ success tt
unfolding platoon.Runtime.Clock.park_timeout poll dispatch extend_with_expired rearm has_poller fire
    take
served = refl

sleep-Woken_example :
    (e' : Executor whole Bool (Unit {0})) × (after_tick whole yields sleeping all_polled ≡ ok e')
    × Woken whole e' 1
    × (Time.poll parker true e'.parker.clock armed_sleep 1_001 1
        ≡ ok (e'.parker.clock, armed_sleep, ready 900))
sleep-Woken_example =
    sleep-Woken table (slots Source) instants yields sleeping false true before new_sleep
      armed_sleep 500 1_001 1 before-IsSound (ground arith) tt poll_before sleeping-IsSane
      (ground arith) (ground arith) served
