-- ===== src/Runtime/System/Woken.antt =====
-- A park of the runtime after a tick: whom it wakes, in the executor.
use platoon.Base.{
  ℕ, ◌≡◌, ap, ◌∙◌, Bool, true, false, ◌++◌, Option, none, some, has, ok, Poll, Waker, success,
}
use platoon.Slab.{Slab}
use platoon.Sys.{Poller}
use platoon.Runtime.Clock.Expiry.{due}
use platoon.Runtime.Reactor
use platoon.Runtime.Reactor.{Source}
use platoon.Runtime.Executor.{Executor, Code, Ticked, no_tasks, all_polled, after_tick}
use platoon.Runtime.Executor.Woken.{Woken, parked-Woken}
use platoon.Runtime.System.{runtime_park}
use platoon.Runtime.System.Parks.{park_within, park_within-PollsOnce, IsSane}

-- How a tick ends that did not wake the main future, and the limit of the park that follows.
abbrev pub tick_end : Bool → Ticked
tick_end true = no_tasks
tick_end false = all_polled

abbrev pub limit_of : Bool → Option ℕ
limit_of true = none
limit_of false = some 0

module _ (P : Poller) (S : Slab Source) (instants : ℕ → ℕ) {F O : Type 0} where
  -- The park ends without an error.
  abbrev pub IsFine : Executor (runtime_park P S instants) F O → Bool → Type 0
  IsFine e emptied =
      (park_within P S e.parker.clock (instants e.parker.readings) (limit_of emptied)).2
      ≡ success tt

  -- Whatever the timeout of the one poll, this waker is of an alarm that is due, or of those whom
  -- the poll wakes.
  abbrev pub IsAmong : Executor (runtime_park P S instants) F O → Waker → Type 0
  IsAmong e w =
      (timeout : Option ℕ)
      → (Reactor.poll P S e.parker.clock.parker timeout).2 ≡ success tt
      → has w (
          due (instants e.parker.readings) e.parker.clock.alarms
          ++ (Reactor.poll P S e.parker.clock.parker timeout).1)
        ≡ true

  -- The reactor is as one poll without an error left it.
  abbrev pub HasPolled :
      Executor (runtime_park P S instants) F O → Executor (runtime_park P S instants) F O → Type 0
  HasPolled e e' =
      (timeout : Option ℕ) × ((Reactor.poll P S e.parker.clock.parker timeout).2 ≡ success tt)
      × (e'.parker.clock.parker ≡ (Reactor.poll P S e.parker.clock.parker timeout).0)

  module _ (poll : F → Waker → Code (runtime_park P S instants).State F O (Poll O × F)) where
    pub after_tick-Woken :
        (e : Executor (runtime_park P S instants) F O) (emptied : Bool) (w : Waker)
        → IsSane P S instants e
        → IsFine e emptied
        → IsAmong e w
        → (e' : Executor (runtime_park P S instants) F O) × (after_tick
              (runtime_park P S instants)
              poll
              e
              (tick_end emptied)
            ≡ ok e')
          × HasPolled e e'
          × Woken (runtime_park P S instants) e' w
    unfolding after_tick
    after_tick-Woken e true w (queued, served) fine among =
        let (timeout, _, _, same, went, woken, _) =
          park_within-PollsOnce P S e.parker.clock (instants e.parker.readings) none served fine in
        let (e', is, parker, up) =
          parked-Woken (runtime_park P S instants) poll e
            ((runtime_park P S instants).park e.parker) w queued fine
            (ap (has w) woken ∙ among timeout went) in
        (e', is, (timeout, went, ap (λ p. p.clock.parker) parker ∙ same), up)
    after_tick-Woken e false w (queued, served) fine among =
        let (timeout, _, _, same, went, woken, _) =
          park_within-PollsOnce P S e.parker.clock (instants e.parker.readings) (some 0) served
            fine in
        let (e', is, parker, up) =
          parked-Woken (runtime_park P S instants) poll e
            ((runtime_park P S instants).park_timeout e.parker 0) w queued fine
            (ap (has w) woken ∙ among timeout went) in
        (e', is, (timeout, went, ap (λ p. p.clock.parker) parker ∙ same), up)
