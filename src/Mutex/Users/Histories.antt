-- ===== src/Mutex/Users/Histories.antt =====
-- Whatever the users of a new mutex do, there is at most one guard.
use platoon.Base.{◌≤◌, ◌≡◌, refl, Bool, List, [], ◌∷◌, ◌++◌, arith, ok, ◌>>=◌, Waker}
use platoon.Slab.{Slab}
use platoon.Semaphore.{Waiter}
use platoon.Semaphore.Queue.{Queue}
use platoon.Mutex.Users.{Users, Action, Result, start, step}
use platoon.Mutex.Users.Excludes.{IsExclusive, start-IsExclusive}
use platoon.Mutex.Users.Exclusion.{step-IsExclusive}

module _ (S : Slab Waiter) {T : Type 0} where
  -- The calls of a history, in order.
  pub run : Bool → Users S T → List (Action T) → Result S T
  run checks u [] = ok (u, [])
  run checks u (a ∷ as') = do
    (u', woken) ← step S checks u a
    (u'', more) ← run checks u' as'
    ok (u'', woken ++ more)

  -- A history returned, with a guard at most.
  abbrev pub Locks : Result S T → Type 0
  Locks r =
      (u : Users S T) × (woken : List Waker) × (q : Queue) × (r ≡ ok (u, woken))
      × IsExclusive S T u q
      × (u.guards ≤ 1)

  run_from :
      (checks : Bool) (u : Users S T) (q : Queue) (as' : List (Action T))
      → IsExclusive S T u q
      → Locks (run checks u as')
  unfolding run
  run_from checks u q [] v = (u, [], q, refl, v, omega (arith, v.permits))
  run_from checks u q (a ∷ as') v =
      let (u', woken, q', one, v', _) = step-IsExclusive S T u q v checks a in
      let (u'', more, q'', rest, v'', few) = run_from checks u' q' as' v' in
      (u'', woken ++ more, q'', rw (one, rest), v'', few)

  -- Any history of calls on a new mutex returns without a panic, in a state that excludes, with at
  -- most one guard.
  pub run-Locks :
      (checks : Bool) (v : T) (as' : List (Action T)) → Locks (run checks (start S v) as')
  run-Locks checks v as' = run_from checks (start S v) _ as' (start-IsExclusive S T v)
