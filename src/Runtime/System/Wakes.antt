-- ===== src/Runtime/System/Wakes.antt =====
-- An alarm that is due wakes whoever set it, and a report of the system whoever waits for it,
-- through the clock, the reactor and the executor.
use platoon.Base.{
  ℕ, ◌≤◌, ◌≡◌, ◌++◌, ◌∙◌, subst, sym, Bool, true, Option, some, List, arith, has-append, ok, Poll,
  Waker, success, ◌∷◌,
}
use platoon.Slab.{Slab}
use platoon.Sys.{Event, Poller}
use platoon.Runtime.Clock.{lookup}
use platoon.Runtime.Clock.Expiry.{due, due-mem}
use platoon.Runtime.Reactor
use platoon.Runtime.Reactor.{Direction, Source, interest}
use platoon.Runtime.Reactor.Fires.{reports, IsWoken}
use platoon.Runtime.Reactor.Reports.{Wakes, poll-Wakes}
use platoon.Runtime.Executor.{Executor, Code, after_tick}
use platoon.Runtime.Executor.Woken.{Woken}
use platoon.Runtime.System.{runtime_park}
use platoon.Runtime.System.Parks.{IsSane}
use platoon.Runtime.System.Woken.{tick_end, IsFine, after_tick-Woken}

module _ (P : Poller) (S : Slab Source) (instants : ℕ → ℕ) {F O : Type 0} where
  -- In a runtime (executor over clock over reactor) whose state is in order, the park after a tick
  -- that did not wake the main future, ending without an error, at or after the time of an alarm
  -- that is set, wakes whoever set it: the main future will be polled, or the task is gone, done
  -- or queued.
  pub alarm-Woken :
      (poll : F → Waker → Code (runtime_park P S instants).State F O (Poll O × F))
      (e : Executor (runtime_park P S instants) F O) (emptied : Bool) (t k : ℕ) (w : Waker)
      → IsSane P S instants e
      → lookup t k e.parker.clock.alarms ≡ some w
      → t ≤ instants e.parker.readings
      → IsFine P S instants e emptied
      → (e' : Executor (runtime_park P S instants) F O) × (after_tick
            (runtime_park P S instants)
            poll
            e
            (tick_end emptied)
          ≡ ok e')
        × Woken (runtime_park P S instants) e' w
  alarm-Woken poll e emptied t k w sane set le fine =
      let (e', is, _, up) = after_tick-Woken P S instants poll e emptied w sane fine (λ timeout _.
        has-append w (due (instants e.parker.readings) e.parker.clock.alarms) _
        ∙ ground
            (arith, due-mem (instants e.parker.readings) t k w e.parker.clock.alarms set le)) in
      (e', is, up)

  -- In a runtime (executor over clock over reactor) whose state is in order, where someone waits
  -- for a direction of a source and the system, polled with any timeout, reports an event with the
  -- key of that source and that direction, the park after a tick that did not wake the main
  -- future, ending without an error, wakes them: the main future will be polled, or the task is
  -- gone, done or queued; and the source is marked, so that the next poll for its readiness in
  -- that direction is ready.
  pub report-Woken :
      (poll : F → Waker → Code (runtime_park P S instants).State F O (Poll O × F))
      (e : Executor (runtime_park P S instants) F O) (emptied : Bool) (event : Event) (s : Source)
      (d : Direction) (w : Waker)
      → IsSane P S instants e
      → S.get e.parker.clock.parker.sources event.key ≡ some s
      → (interest s d).poller ≡ some w
      → reports event d ≡ true
      → ((timeout : Option ℕ)
          → (xs : List Event) × (ys : List Event) × ((P.poll e.parker.clock.parker.poller timeout).1
              ≡ success (xs ++ event ∷ ys)))
      → IsFine P S instants e emptied
      → (e' : Executor (runtime_park P S instants) F O) × (after_tick
            (runtime_park P S instants)
            poll
            e
            (tick_end emptied)
          ≡ ok e')
        × Woken (runtime_park P S instants) e' w
        × IsWoken P S e'.parker.clock.parker event.key d
  report-Woken poll e emptied event s d w sane found waits told comes fine =
      let (e', is, (timeout, went, same), up) =
        after_tick-Woken P S instants poll e emptied w sane fine (λ timeout went.
          has-append w (due (instants e.parker.readings) e.parker.clock.alarms) _
          ∙ ground (arith, (wakes timeout went).0)) in
      (e', is, up, subst (λ r'. IsWoken P S r' event.key d) (sym same) (wakes timeout went).1)
    where
      wakes :
          (timeout : Option ℕ)
          → (Reactor.poll P S e.parker.clock.parker timeout).2 ≡ success tt
          → Wakes P S w event.key d (Reactor.poll P S e.parker.clock.parker timeout)
      wakes timeout went =
          let (xs, ys, polled) = comes timeout in
          poll-Wakes P S e.parker.clock.parker timeout xs ys event s d w polled told found waits
            went
