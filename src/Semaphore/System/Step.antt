-- ===== src/Semaphore/System/Step.antt =====
-- No call on a semaphore panics, whatever its clients do in whatever order.
use platoon.Base.{
  ℕ, ◌+◌, ◌≤◌, ◌≡◌, refl, inl, inr, Bool, none, some, List, [], ◌∷◌, ◌++◌, arith, ◌>>=◌, ok, pick,
  pick-Insert, Waker, usize_max,
}
use platoon.Slab.{Slab}
use platoon.Semaphore.{Waiter, idle, new}
use platoon.Semaphore.Queue.{Queue}
use platoon.Semaphore.Refines.Takes.{new-Represents}
use platoon.Semaphore.System.{
  System, Action, acquires, polls, cancels, tries, releases, forgets, adds, Result, start, step,
}
use platoon.Semaphore.System.Matched.{Matched-Insert}
use platoon.Semaphore.System.Joins.{future}
use platoon.Semaphore.System.Sound.{IsSound, total, Steps}
use platoon.Semaphore.System.Futures.{poll_future-Steps, cancel_future-Steps}
use platoon.Semaphore.System.Permits.{
  try_take-Steps, add_more-Steps, release_permit-Steps, forget_permit-Steps,
}

abbrev pub added : Action → ℕ
added (adds n) = n
added (acquires n) = 0
added (polls j cx) = 0
added (cancels j) = 0
added (tries n) = 0
added (releases j) = 0
added (forgets j) = 0

-- The permits of the permit that a call forgets.
abbrev pub lost : List ℕ → Action → ℕ
lost held (forgets j) = elim (pick j held) [ none ↦ 0 | some (n, rest) ↦ n ]
lost held (adds n) = 0
lost held (acquires n) = 0
lost held (polls j cx) = 0
lost held (cancels j) = 0
lost held (tries n) = 0
lost held (releases j) = 0

module _ (S : Slab Waiter) where
  -- Every call of a client on a sound semaphore (one that represents a queue, is fair, and whose
  -- waiting futures are the waiters of that queue) returns without a panic and leaves a sound
  -- semaphore, for either setting of overflow checks, provided that the free and held permits with
  -- those added stay within `usize`; the free and held permits change by exactly those added and
  -- those forgotten.
  pub step-Steps :
      (checks : Bool) (s : System S) (q : Queue) (a : Action)
      → IsSound S s q
      → total S s + added a ≤ usize_max
      → Steps S s (added a) (lost s.held a) (step S checks s a)
  unfolding step
  step-Steps checks s q (acquires n) v fits = (
    record s { futures = future n idle ∷ s.futures },
    [],
    q,
    refl,
    record {
      represents = v.represents;
      fair = v.fair;
      matched = record {
        agrees = (tt, v.matched.agrees);
        distinct = v.matched.distinct;
        awaited = v.matched.awaited;
      };
    },
    refl,
  )
  step-Steps checks s q (polls j cx) v fits = elim (pick-Insert j s.futures) [
    | inl e ↦ (s, [], q, rw (e, step), v, refl)
    | inr (u, rest, e, one) ↦
        rw (e, step)
          (poll_future-Steps S s rest q u.permits u.state cx v.represents v.fair
            (Matched-Insert one v.matched))
  ]
  step-Steps checks s q (cancels j) v fits = elim (pick-Insert j s.futures) [
    | inl e ↦ (s, [], q, rw (e, step), v, refl)
    | inr (u, rest, e, one) ↦
        rw (e, step)
          (cancel_future-Steps S s rest q u.permits u.state v.represents v.fair
            (Matched-Insert one v.matched))
  ]
  step-Steps checks s q (tries n) v fits = try_take-Steps S checks s q v n
  step-Steps checks s q (releases j) v fits = elim (pick-Insert j s.held) [
    | inl e ↦ (s, [], q, rw (e, step), v, refl)
    | inr (n, rest, e, one) ↦
        rw (e, step) (release_permit-Steps S checks s q v n rest one (omega arith))
  ]
  step-Steps checks s q (forgets j) v fits = elim (pick-Insert j s.held) [
    | inl e ↦ (s, [], q, rw (e, step), v, rw (e, lost) refl)
    | inr (n, rest, e, one) ↦
        rw (e, step, lost) (forget_permit-Steps S checks s q v n rest one (omega arith))
  ]
  step-Steps checks s q (adds n) v fits = add_more-Steps S checks s q v n fits

  pub fresh-IsSound :
      (permits : ℕ)
      → IsSound S
          (record { inner = new S permits; futures = []; held = [] })
          (record { permits = permits; entries = [] })
  fresh-IsSound permits = record {
    represents = new-Represents S permits;
    fair = record { covered = omega arith; ordered = tt; served = tt };
    matched = record { agrees = tt; distinct = tt; awaited = λ k h. h };
  }

  start-IsSound :
      (permits : ℕ) → IsSound S (start S permits) (record { permits = permits; entries = [] })
  unfolding start
  start-IsSound permits = fresh-IsSound permits

  -- The calls of a history, in order.
  pub run : Bool → System S → List Action → Result S
  run checks s [] = ok (s, [])
  run checks s (a ∷ as') = do
    (s', woken) ← step S checks s a
    (s'', more) ← run checks s' as'
    ok (s'', woken ++ more)

  abbrev pub all_added : List Action → ℕ
  all_added [] = 0
  all_added (a ∷ as') = added a + all_added as'

  -- What a history ends in.
  abbrev pub Runs : System S → ℕ → Result S → Type 0
  Runs s bound r =
      (s' : System S) × (woken : List Waker) × (q : Queue) × (r ≡ ok (s', woken))
      × IsSound S s' q
      × (total S s' ≤ bound)

  run_from :
      (checks : Bool) (s : System S) (q : Queue) (as' : List Action)
      → IsSound S s q
      → total S s + all_added as' ≤ usize_max
      → Runs s (total S s + all_added as') (run checks s as')
  unfolding run
  run_from checks s q [] v fits = (s, [], q, refl, v, omega arith)
  run_from checks s q (a ∷ as') v fits =
      let (s', woken, q', one, v', kept) = step-Steps checks s q a v (omega arith) in
      let (s'', more, q'', rest, v'', bound) = run_from checks s' q' as' v' (omega (arith, kept)) in
      (s'', woken ++ more, q'', rw (one, rest), v'', omega (arith, kept, bound))

  -- Any history of calls on a new semaphore returns without a panic and ends in a sound state,
  -- whose free and held permits are at most the first ones with all that were added, provided that
  -- that sum is within `usize`.
  pub run-Runs :
      (checks : Bool) (permits : ℕ) (as' : List Action)
      → permits + all_added as' ≤ usize_max
      → Runs (start S permits) (permits + all_added as') (run checks (start S permits) as')
  unfolding start
  run-Runs checks permits as' fits =
      let free = (new-Represents S permits).permits in
      let (s', woken, q, ran, v, bound) =
        run_from checks (start S permits) _ as' (start-IsSound permits) (omega (arith, free)) in
      (s', woken, q, ran, v, omega (arith, free, bound))
