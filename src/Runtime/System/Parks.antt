-- ===== src/Runtime/System/Parks.antt =====
-- A park of the runtime: the clock's, which is one poll of the reactor.
use platoon.Base.{
  ℕ, suc, ◌≡◌, refl, sym, ◌∙◌, ap, subst, arith, Option, none, some, List, ◌++◌, ◌>>=◌, Poll, Waker,
  IoResult, success,
}
use platoon.Slab.{Slab}
use platoon.Sys.{Poller}
use platoon.Runtime.Clock.{Clock, lookup, park, park_timeout}
use platoon.Runtime.Clock.Alarms.{IsSorted}
use platoon.Runtime.Clock.Expiry.{due, IsPrompt}
use platoon.Runtime.Clock.Parks.{IsWithin, park_for, Parks, park-Parks, park_timeout-Parks}
use platoon.Runtime.Reactor.{Source, Reactor, poll, reactor_park}
use platoon.Runtime.Reactor.Watch.{IsWatched}
use platoon.Runtime.Reactor.Reports.{poll-IsWatched}
use platoon.Runtime.Executor.{Executor, Code, rounds}
use platoon.Runtime.Executor.Queued.{IsQueued}
use platoon.Runtime.Executor.Effects.{Returns}
use platoon.Runtime.Executor.Keeps.{Spares}
use platoon.Runtime.Executor.Rounds
use platoon.Runtime.Executor.Rounds.{round, go_on}
use platoon.Runtime.System.{Timed, runtime_park, new}

module _ (P : Poller) (S : Slab Source) where
  -- The alarms are in order, and everyone who waits for a source is registered.
  pub record IsServed (c : Clock (reactor_park P S)) : Type 0 where
    pub sorted : IsSorted c.alarms
    pub watched : IsWatched P S c.parker

  park_for-poll :
      (r : Reactor P S) (timeout : Option ℕ)
      → park_for (reactor_park P S) r timeout ≡ poll P S r timeout
  park_for-poll r none = refl
  park_for-poll r (some d) = refl

  -- One poll of the system, in time for the next alarm, after which all is as it should be.
  abbrev pub PollsOnce :
      Clock (reactor_park P S)
      → ℕ
      → Option ℕ
      → Clock (reactor_park P S) × List Waker × IoResult (Unit {0})
      → Type 0
  PollsOnce c now limit (c', ws, result) =
      (timeout : Option ℕ) × (IsWithin limit timeout)
      × IsPrompt now c'.alarms timeout
      × (c'.parker ≡ (poll P S c.parker timeout).0)
      × ((poll P S c.parker timeout).2 ≡ success tt)
      × (ws ≡ due now c.alarms ++ (poll P S c.parker timeout).1)
      × IsServed c'

  parks-PollsOnce :
      (c : Clock (reactor_park P S)) (now : ℕ) (limit : Option ℕ)
      (result : Clock (reactor_park P S) × List Waker × IoResult (Unit {0}))
      → IsServed c
      → Parks (reactor_park P S) c now limit result
      → result.2 ≡ success tt
      → PollsOnce c now limit result
  parks-PollsOnce c now limit (c', ws, result) v
        (timeout, within, prompt, parker, woken, is, s, left) fine =
      let one = park_for-poll c.parker timeout in
      let parker' : c'.parker ≡ (poll P S c.parker timeout).0 = parker ∙ ap (λ r. r.0) one in
      let fine' : (poll P S c.parker timeout).2 ≡ success tt =
        ap (λ r. r.2) (sym one) ∙ sym is ∙ fine in
      (
        timeout,
        within,
        prompt,
        parker',
        fine',
        woken ∙ ap (λ r. due now c.alarms ++ r.1) one,
        record {
          sorted = s;
          watched =
              subst (IsWatched P S) (sym parker')
                (poll-IsWatched P S c.parker timeout v.watched fine');
        },
      )

  -- The two ways to park the clock, by the limit of the time that it may take.
  abbrev pub park_within :
      Clock (reactor_park P S)
      → ℕ
      → Option ℕ
      → Clock (reactor_park P S) × List Waker × IoResult (Unit {0})
  park_within c now none = park (reactor_park P S) c now
  park_within c now (some duration) = park_timeout (reactor_park P S) c now duration

  -- Where the alarms are in order and everyone who waits for a source is registered, a park of the
  -- clock over the reactor, with a limit or without one, that ends without an error is one poll of
  -- the system, whose timeout is within the limit and outlasts no alarm left; it wakes those whose
  -- alarm is due and then those whom the poll woke, and leaves the alarms in order and everyone
  -- who waits registered.
  pub park_within-PollsOnce :
      (c : Clock (reactor_park P S)) (now : ℕ) (limit : Option ℕ)
      → IsServed c
      → (park_within c now limit).2 ≡ success tt
      → PollsOnce c now limit (park_within c now limit)
  park_within-PollsOnce c now none v fine =
      parks-PollsOnce c now none _ v (park-Parks (reactor_park P S) c now v.sorted) fine
  park_within-PollsOnce c now (some duration) v fine =
      parks-PollsOnce c now (some duration) _ v
        (park_timeout-Parks (reactor_park P S) c now duration v.sorted) fine

  module _ (instants : ℕ → ℕ) where
    -- The parker of the runtime, with its readings of the time.
    abbrev pub IsTimed : Timed (reactor_park P S) → Type 0
    IsTimed s = IsServed s.clock

    keeps_served : Rounds.Parks (runtime_park P S instants) IsTimed
    keeps_served = record {
      park_keeps = λ s v fine.
          let (_, _, _, _, _, _, v') =
            park_within-PollsOnce s.clock (instants s.readings) none v fine in
          v';
      timeout_keeps = λ s d v fine.
          let (_, _, _, _, _, _, v') =
            park_within-PollsOnce s.clock (instants s.readings) (some d) v fine in
          v';
    }

    module _ {F O : Type 0} where
      abbrev pub IsSane : Executor (runtime_park P S instants) F O → Type 0
      IsSane e = IsQueued (runtime_park P S instants) e × IsTimed e.parker

      pub new-IsSane : (p : P.State) → IsSane (new P S instants p)
      unfolding new platoon.Runtime.Executor.new platoon.Runtime.Clock.new
          platoon.Runtime.Reactor.new
      new-IsSane p = (
        record {
          distinct = tt;
          known = λ n gone. refl;
          stands = λ n t got. absurd (ground (arith, got));
        },
        record {
          sorted = tt;
          watched = record {
            served = λ key s got. absurd (ground (arith, sym (S.get-empty key) ∙ got));
          };
        },
      )

      module _ (poll : F → Waker → Code (runtime_park P S instants).State F O (Poll O × F)) where
        -- In a runtime (executor over clock over reactor) whose queue is in order, with the alarms
        -- in order and everyone who waits for a source registered, and where the code of the
        -- futures keeps the alarms in order and the waiters registered, a round of `block_on`
        -- panics or ends in such a state, in every case without running for ever, and `block_on`
        -- with fuel for one more round is that round and what follows it.
        pub rounds-IsSane :
            (fuel : ℕ) (e : Executor (runtime_park P S instants) F O) (f : F)
            → ((g : F) (w : Waker) → Spares (runtime_park P S instants) IsTimed (poll g w))
            → IsSane e
            → (rounds (runtime_park P S instants) poll (suc fuel) e f ≡ (
                round (runtime_park P S instants) poll e f
                >>= go_on (runtime_park P S instants) poll fuel))
              × Returns (λ r. IsSane r.0) (round (runtime_park P S instants) poll e f)
        rounds-IsSane fuel e f spares sane =
            Rounds.each_round-IsSane (runtime_park P S instants) IsTimed keeps_served poll spares
              fuel e f sane
