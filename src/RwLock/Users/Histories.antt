-- ===== src/RwLock/Users/Histories.antt =====
-- Whatever the users of a new lock do, its guards are readers only or a single writer.
use platoon.Base.{◌≡◌, refl, Bool, List, [], ◌∷◌, ◌++◌, arith, ok, ◌>>=◌, Waker}
use platoon.Slab.{Slab}
use platoon.Semaphore.{Waiter}
use platoon.Semaphore.Queue.{Queue}
use platoon.RwLock.Users.{Users, Action, Result, start, step}
use platoon.RwLock.Users.Guards.{IsCompatible, IsCompatible-of_fit}
use platoon.RwLock.Users.Excludes.{IsExclusive, start-IsExclusive}
use platoon.RwLock.Users.Exclusion.{step-IsCompatible}

module _ (S : Slab Waiter) {T : Type 0} where
  -- The calls of a history, in order.
  pub run : Bool → Users S T → List (Action T) → Result S T
  run checks u [] = ok (u, [])
  run checks u (a ∷ as') = do
    (u', woken) ← step S checks u a
    (u'', more) ← run checks u' as'
    ok (u'', woken ++ more)

  -- A history returned, with compatible guards.
  abbrev pub Shares : Result S T → Type 0
  Shares r =
      (u : Users S T) × (woken : List Waker) × (q : Queue) × (r ≡ ok (u, woken))
      × IsExclusive S T u q
      × IsCompatible u.guards

  run_from :
      (checks : Bool) (u : Users S T) (q : Queue) (as' : List (Action T))
      → IsExclusive S T u q
      → Shares (run checks u as')
  unfolding run
  run_from checks u q [] v =
      (u, [], q, refl, v, IsCompatible-of_fit u.guards (omega (arith, v.permits)))
  run_from checks u q (a ∷ as') v =
      let (u', woken, q', one, v', _, _) = step-IsCompatible S T u q v checks a in
      let (u'', more, q'', rest, v'', few) = run_from checks u' q' as' v' in
      (u'', woken ++ more, q'', rw (one, rest), v'', few)

  -- Any history of calls on a new readers-writer lock returns without a panic, in a state that
  -- excludes, whose guards are readers only or a single writer.
  pub run-Shares :
      (checks : Bool) (v : T) (as' : List (Action T)) → Shares (run checks (start S v) as')
  run-Shares checks v as' = run_from checks (start S v) _ as' (start-IsExclusive S T v)
