-- ===== src/Runtime/System/Sleeps.antt =====
-- A sleep whose deadline has come wakes its task through the whole runtime, and is then ready.
mod Examples
use platoon.Base.{
  ℕ, ◌+◌, ◌≤◌, ◌≡◌, ◌∙◌, sym, subst, inl, inr, Bool, arith, leb, Option, some, ok, Poll, Waker,
  usize_max, ready, pending,
}
use platoon.Slab.{Slab}
use platoon.Sys.{Poller}
use platoon.Runtime.Clock.{Clock, lookup}
use platoon.Runtime.Clock.Setting.{IsSound}
use platoon.Runtime.Reactor.{Source, reactor_park}
use platoon.Runtime.Executor.{Executor, Code, after_tick}
use platoon.Runtime.Executor.Woken.{Woken}
use platoon.Runtime.System.{runtime_park}
use platoon.Runtime.System.Parks.{IsSane}
use platoon.Runtime.System.Woken.{tick_end, IsFine}
use platoon.Runtime.System.Wakes.{alarm-Woken}
use platoon.Time
use platoon.Time.{Sleep}
use platoon.Time.Wakes.{IsArmed, poll-Polls, poll_over}

module _ (P : Poller) (S : Slab Source) where
  -- A poll that leaves a sleep pending leaves its alarm, with the waker of the poll.
  pending_alarm :
      (checks : Bool) (c c' : Clock (reactor_park P S)) (s s' : Sleep) (now : ℕ) (cx : Waker)
      → IsSound (reactor_park P S) c
      → c.next_alarm + 1 ≤ usize_max
      → IsArmed (reactor_park P S) c s
      → Time.poll (reactor_park P S) checks c s now cx ≡ ok (c', s', pending)
      → (id : ℕ) × (lookup s'.deadline id c'.alarms ≡ some cx)
  pending_alarm checks c c' s s' now cx v fits a ran =
      elim (poll-Polls (reactor_park P S) checks c s now cx v fits a) [
        | inl (_, e) ↦ absurd (ground (arith, sym ran ∙ e))
        | inr (_, c'', id, e, look, _) ↦
            let same : c'' ≡ c' = ground (arith, sym e ∙ ran) in
            let deadline : s.deadline ≡ s'.deadline = ground (arith, sym e ∙ ran) in
            (
              id,
              subst (λ d. lookup d id c'.alarms ≡ some cx) deadline
                  (subst (λ k. lookup s.deadline id k.alarms ≡ some cx) same look),
            )
      ]

module _ (P : Poller) (S : Slab Source) (instants : ℕ → ℕ) {F O : Type 0} where
  -- Where a poll of a sleep, on a sound clock with room for another number that holds the alarm of
  -- the sleep if it has one, left the sleep pending and left the clock that a runtime in order
  -- has, the park after a tick that did not wake the main future, ending without an error, at or
  -- after the deadline, wakes the poller: the main future will be polled, or the task is gone,
  -- done or queued; and a poll of the sleep from then on is ready with its deadline.
  pub sleep-Woken :
      (poll : F → Waker → Code (runtime_park P S instants).State F O (Poll O × F))
      (e : Executor (runtime_park P S instants) F O) (emptied checks : Bool)
      (c : Clock (reactor_park P S)) (s s' : Sleep) (now later : ℕ) (cx : Waker)
      → IsSound (reactor_park P S) c
      → c.next_alarm + 1 ≤ usize_max
      → IsArmed (reactor_park P S) c s
      → Time.poll (reactor_park P S) checks c s now cx ≡ ok (e.parker.clock, s', pending)
      → IsSane P S instants e
      → s'.deadline ≤ instants e.parker.readings
      → instants e.parker.readings ≤ later
      → IsFine P S instants e emptied
      → (e' : Executor (runtime_park P S instants) F O) × (after_tick
            (runtime_park P S instants)
            poll
            e
            (tick_end emptied)
          ≡ ok e')
        × Woken (runtime_park P S instants) e' cx
        × (Time.poll (reactor_park P S) checks e'.parker.clock s' later cx
            ≡ ok (e'.parker.clock, s', ready s'.deadline))
  sleep-Woken poll e emptied checks c s s' now later cx v fits a ran sane due since fine =
      let (id, set) = pending_alarm P S checks c e.parker.clock s s' now cx v fits a ran in
      let (e', is, up) =
        alarm-Woken P S instants poll e emptied s'.deadline id cx sane set due fine in
      (
        e',
        is,
        up,
        poll_over (reactor_park P S) checks e'.parker.clock s' later cx (omega (arith, due, since)),
      )
