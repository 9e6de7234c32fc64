-- ===== src/Runtime/System/Examples.antt =====
-- A runtime on the table of Sys/Table.antt, and one whose alarm is due and whose source is ready.
use platoon.Base.{
  ℕ, List, zero, suc, ok, subst, arith, ◌+◌, ◌≡◌, refl, Bool, true, false, none, some, [], ◌∷◌,
  ◌>>=◌, Waker, Poll, success,
}
use platoon.Slab.Slots.{slots}
use platoon.Runtime.Park.{Park}
use platoon.Sys.Table.{Registry, table}
use platoon.Runtime.Clock
use platoon.Runtime.Clock.{
  Clock, lookup, below, from, extend_with_expired, park, park_timeout, sooner,
}
use platoon.Runtime.Reactor.{
  read, Source, reactor_park, poll, dispatch, rearm, fire, take, has_poller,
}
use platoon.Runtime.Reactor.Examples.{read_event, watched_source, one_source, one_source-IsWatched}
use platoon.Runtime.Reactor.Fires.{IsWoken}
use platoon.Runtime.Executor.{
  Code, Executor, tick, spawn, rounds, Task, idle, future, get, all_polled, after_tick,
}
use platoon.Runtime.Executor.Woken.{Woken}
use platoon.Runtime.System.Wakes.{alarm-Woken, report-Woken}
use platoon.Runtime.Executor.Queued.{Stands, spawn-IsQueued}
use platoon.Runtime.Executor.Effects.{Returns}
use platoon.Runtime.Executor.Order.{InOrder, tick-InOrder}
use platoon.Runtime.Executor.Keeps.{Spares}
use platoon.Runtime.Executor.Rounds.{round, go_on}
use platoon.Task.{poll_yield}
use platoon.Runtime.System.{runtime_park, new}
use platoon.Runtime.System.Parks.{
  IsServed, PollsOnce, park_within, park_within-PollsOnce, IsTimed, IsSane, new-IsSane,
  rounds-IsSane,
}

abbrev pub parker : Park
parker = reactor_park table (slots Source)

-- An alarm at 3 and one at 2_000_009, over a source that is ready.
abbrev busy_clock : Clock parker
busy_clock = record {
  parker = one_source;
  next_alarm = 2;
  alarms = (3, 0, 40) ∷ (2_000_009, 1, 41) ∷ [];
}

busy_clock-IsServed : IsServed table (slots Source) busy_clock
unfolding platoon.Runtime.Clock.key_lt
busy_clock-IsServed = record { sorted = (refl, (tt, tt)); watched = one_source-IsWatched }

fine : (park_within table (slots Source) busy_clock 5 (some 900)).2 ≡ success tt
unfolding park_timeout poll dispatch extend_with_expired rearm has_poller fire take
fine = refl

park_within-PollsOnce_example :
    PollsOnce table
      (slots Source)
      busy_clock
      5
      (some 900)
      (park_within table (slots Source) busy_clock 5 (some 900))
park_within-PollsOnce_example =
    park_within-PollsOnce table (slots Source) busy_clock 5 (some 900) busy_clock-IsServed fine

-- The future of `block_on` yields once.
abbrev pub instants : ℕ → ℕ
instants n = 1_000 + n

abbrev pub whole : Park
whole = runtime_park table (slots Source) instants

abbrev pub yields : Bool → Waker → Code whole.State Bool (Unit {0}) (Poll (Unit {0}) × Bool)
yields = poll_yield

yields-Spares :
    (yielded : Bool) (w : Waker)
    → Spares whole (IsTimed table (slots Source) instants) (yields yielded w)
unfolding poll_yield
yields-Spares true w = tt
yields-Spares false w = tt

abbrev no_events : Registry
no_events = record { registrations = λ k. none; reported = [] }

abbrev fresh : Executor whole Bool (Unit {0})
fresh = new table (slots Source) instants no_events

fresh-IsSane : IsSane table (slots Source) instants fresh
fresh-IsSane = new-IsSane table (slots Source) instants no_events

-- A task that has yielded is queued.
abbrev with_task : Executor whole Bool (Unit {0})
with_task = (spawn whole fresh true).0

with_task-IsSane : IsSane table (slots Source) instants with_task
unfolding spawn
with_task-IsSane = (spawn-IsQueued whole fresh true fresh-IsSane.0, fresh-IsSane.1)

-- Two tasks that yield.
abbrev with_tasks : Executor whole Bool (Unit {0})
with_tasks = (spawn whole with_task false).0

tick-InOrder_example :
    Returns (InOrder whole yields 61 with_tasks) (tick whole yields 61 with_tasks)
tick-InOrder_example = tick-InOrder whole yields 61 with_tasks

rounds-IsSane_example :
    (rounds whole yields 4 with_task false
      ≡ (round whole yields with_task false >>= go_on whole yields 3))
    × Returns (λ r. IsSane table (slots Source) instants r.0) (round whole yields with_task false)
rounds-IsSane_example =
    rounds-IsSane table (slots Source) instants yields 3 with_task false yields-Spares
      with_task-IsSane

-- Tasks that sleep: one behind the alarm at 3 of the busy clock, and one behind its source.
abbrev sleeper : Task Bool (Unit {0})
sleeper = record { awaiter = none; state = idle; payload = future true; borrowed = false }

abbrev sleepers : ℕ → List (Task Bool (Unit {0}))
sleepers zero = []
sleepers (suc n) = sleeper ∷ sleepers n

abbrev task_clock : Clock parker
task_clock = record busy_clock { alarms = (3, 0, 1) ∷ (2_000_009, 1, 41) ∷ [] }

abbrev pub asleep : Executor whole Bool (Unit {0})
asleep = record {
  queue = [];
  woke = false;
  parker = record { clock = task_clock; readings = 0 };
  tasks = sleepers 7;
}

pub asleep-IsSane : IsSane table (slots Source) instants asleep
unfolding platoon.Runtime.Clock.key_lt
asleep-IsSane = (
  record { distinct = tt; known = λ n gone. refl; stands = stands 7 },
  record { sorted = (refl, (tt, tt)); watched = one_source-IsWatched },
)
  where
    stands :
        (m n : ℕ) (t : Task Bool (Unit {0})) → get (sleepers m) n ≡ some t → Stands t.state false
    stands zero n t got = absurd (ground (arith, got))
    stands (suc m) zero t got =
        let is : sleeper ≡ t = ground (arith, got) in subst (λ u. Stands u.state false) is refl
    stands (suc m) (suc n) t got = stands m n t got

served : (park_within table (slots Source) task_clock 1_000 (some 0)).2 ≡ success tt
unfolding park_timeout poll dispatch extend_with_expired rearm has_poller fire take
served = refl

alarm-Woken_example :
    (e' : Executor whole Bool (Unit {0})) × (after_tick whole yields asleep all_polled ≡ ok e')
    × Woken whole e' 1
unfolding lookup platoon.Runtime.Clock.key_eq
alarm-Woken_example =
    alarm-Woken table (slots Source) instants yields asleep false 3 0 1 asleep-IsSane refl
      (ground arith) served

report-Woken_example :
    (e' : Executor whole Bool (Unit {0})) × (after_tick whole yields asleep all_polled ≡ ok e')
    × Woken whole e' 7
    × IsWoken table (slots Source) e'.parker.clock.parker 0 read
unfolding platoon.Runtime.Reactor.interest
report-Woken_example =
    report-Woken table (slots Source) instants yields asleep false read_event watched_source read 7
      asleep-IsSane refl refl refl (λ timeout. ([], [], refl)) served
