-- ===== src/Runtime/Executor/Rounds.antt =====
-- A round of `block_on` keeps the queue in order and the parker as it should be.
use platoon.Base.{
  ℕ, suc, ◌≡◌, refl, sym, ◌∙◌, subst, Bool, true, false, List, Outcome, ◌>>=◌, ok, panic,
  out_of_fuel, Poll, Waker, IoResult, ready, pending, success, failure, if◌then◌else◌,
}
use platoon.Runtime.Park.{Park}
use platoon.Runtime.Executor.{
  Code, Executor, execute, tick, polls_per_tick, Ticked, main_woken, no_tasks, all_polled, parked,
  after_tick, poll_main, rounds,
}
use platoon.Runtime.Executor.Queued.{IsQueued, wake_all-IsQueued}
use platoon.Runtime.Executor.Effects.{Returns, then-Returns, execute-IsQueued}
use platoon.Runtime.Executor.Ticks.{tick-IsQueued}
use platoon.Runtime.Executor.Keeps.{Spares, execute-Keeps, tick-Keeps, wake_all-parker}

-- Two things that a call returns with, together.
both-Returns :
    {A : Type 0} (Q R : A → Type 0) (m : Outcome A)
    → Returns Q m
    → Returns R m
    → Returns (λ a. Q a × R a) m
both-Returns Q R (ok a) h k = (h, k)
both-Returns Q R panic h k = tt
both-Returns Q R out_of_fuel h k = h

-- Every way to park keeps it, where there is no error.
pub record Parks (P : Park) (I : P.State → Type 0) : Type 0 where
  pub park_keeps : (s : P.State) → I s → (P.park s).2 ≡ success tt → I (P.park s).0
  pub timeout_keeps :
      (s : P.State) (d : ℕ) → I s → (P.park_timeout s d).2 ≡ success tt → I (P.park_timeout s d).0

bind_assoc :
    {A B C : Type 0} (m : Outcome A) (f : A → Outcome B) (g : B → Outcome C)
    → (m >>= f >>= g) ≡ (m >>= (λ a. f a >>= g))
bind_assoc (ok a) f g = refl
bind_assoc panic f g = refl
bind_assoc out_of_fuel f g = refl

bind_cong :
    {A B : Type 0} (m : Outcome A) (f g : A → Outcome B)
    → ((a : A) → f a ≡ g a)
    → (m >>= f) ≡ (m >>= g)
bind_cong (ok a) f g h = h a
bind_cong panic f g h = refl
bind_cong out_of_fuel f g h = refl

module _ (P : Park) {F O : Type 0} (poll : F → Waker → Code P.State F O (Poll O × F)) where
  abbrev pub left_pending : F → Executor P F O → Outcome (Executor P F O × (Poll O × F))
  left_pending f e = ok (e, (pending, f))

  -- One round of the loop of `block_on`: the future is done, or the next round follows.
  abbrev pub round : Executor P F O → F → Outcome (Executor P F O × (Poll O × F))
  round e f = do
    (e', (result, f')) ← poll_main P poll e f
    elim result [
      | ready o ↦ ok (e', (ready o, f'))
      | pending ↦ (do
        (e'', ticked) ← tick P poll polls_per_tick e'
        e''' ← after_tick P poll e'' ticked
        left_pending f' e''')
    ]

  -- What follows a round.
  abbrev pub go_on : ℕ → Executor P F O × (Poll O × F) → Outcome (Executor P F O × O)
  go_on fuel (e, (ready o, f)) = ok (e, o)
  go_on fuel (e, (pending, f)) = rounds P poll fuel e f

  rounds-round :
      (fuel : ℕ) (e : Executor P F O) (f : F)
      → rounds P poll (suc fuel) e f ≡ (round e f >>= go_on fuel)
  unfolding rounds
  rounds-round fuel e f =
      bind_cong (poll_main P poll e f) _ _ rest
      ∙ sym (bind_assoc (poll_main P poll e f) _ (go_on fuel))
    where
      parks_then :
          (m : Outcome (Executor P F O)) (f' : F)
          → (m >>= (λ e'. rounds P poll fuel e' f')) ≡ (m >>= left_pending f' >>= go_on fuel)
      parks_then (ok e') f' = refl
      parks_then panic f' = refl
      parks_then out_of_fuel f' = refl

      rest :
          (r : Executor P F O × (Poll O × F))
          → (elim r.1.0 [
            | ready o ↦ ok (r.0, o)
            | pending ↦ (do
              (e'', ticked) ← tick P poll polls_per_tick r.0
              e''' ← after_tick P poll e'' ticked
              rounds P poll fuel e''' r.1.1)
          ])
            ≡ (elim r.1.0 [
              | ready o ↦ ok (r.0, (ready o, r.1.1))
              | pending ↦ (do
                (e'', ticked) ← tick P poll polls_per_tick r.0
                e''' ← after_tick P poll e'' ticked
                left_pending r.1.1 e''')
            ]
                >>= go_on fuel)
      rest (e', (ready o, f')) = refl
      rest (e', (pending, f')) =
          bind_cong (tick P poll polls_per_tick e') _ _
            (λ r. parks_then (after_tick P poll r.0 r.1) f')
          ∙ sym (bind_assoc (tick P poll polls_per_tick e') _ (go_on fuel))

module _ (P : Park) {F O : Type 0} (I : P.State → Type 0) (parks : Parks P I)
    (poll : F → Waker → Code P.State F O (Poll O × F))
    (spares : (f : F) (w : Waker) → Spares P I (poll f w)) where
  -- No task is queued twice, each stands where its state says, and the parker is as it should be.
  abbrev pub IsSane : Executor P F O → Type 0
  IsSane e = IsQueued P e × I e.parker

  parked-IsSane :
      (e : Executor P F O) (p : P.State × List Waker × IoResult (Unit {0}))
      → IsQueued P e
      → (p.2 ≡ success tt → I p.0)
      → Returns IsSane (parked P poll e p)
  unfolding parked
  parked-IsSane e (p, ws, success u) v kept = (
    wake_all-IsQueued P (record e { parker = p }) ws
        (record { distinct = v.distinct; known = v.known; stands = v.stands }),
    subst I (sym (wake_all-parker P (record e { parker = p }) ws)) (kept refl),
  )
  parked-IsSane e (p, ws, failure err) v kept = tt

  after_tick-IsSane :
      (e : Executor P F O) (ticked : Ticked)
      → IsSane e
      → Returns IsSane (after_tick P poll e ticked)
  unfolding after_tick
  after_tick-IsSane e main_woken (v, i) = (v, i)
  after_tick-IsSane e no_tasks (v, i) =
      parked-IsSane e (P.park e.parker) v (parks.park_keeps e.parker i)
  after_tick-IsSane e all_polled (v, i) =
      parked-IsSane e (P.park_timeout e.parker 0) v (parks.timeout_keeps e.parker 0 i)

  tick-IsSane :
      (polls : ℕ) (e : Executor P F O) → IsSane e → Returns (λ r. IsSane r.0) (tick P poll polls e)
  tick-IsSane polls e (v, i) =
      both-Returns (λ r. IsQueued P r.0) (λ r. I r.0.parker) (tick P poll polls e)
        (tick-IsQueued P poll polls e v) (tick-Keeps P I poll spares polls e i)

  poll_main-IsSane :
      (e : Executor P F O) (f : F) → IsSane e → Returns (λ r. IsSane r.0) (poll_main P poll e f)
  unfolding poll_main
  poll_main-IsSane e f (v, i) = polled e.woke
    where
      calm : Executor P F O
      calm = record e { woke = false }

      calm-IsQueued : IsQueued P calm
      calm-IsQueued = record { distinct = v.distinct; known = v.known; stands = v.stands }

      polled :
          (b : Bool)
          → Returns
              (λ r. IsSane r.0)
              (if b then execute P (poll f 0) calm else ok (e, (pending, f)))
      polled true =
          both-Returns (λ r. IsQueued P r.0) (λ r. I r.0.parker) (execute P (poll f 0) calm)
            (execute-IsQueued P (poll f 0) calm calm-IsQueued)
            (execute-Keeps P I (poll f 0) calm (spares f 0) i)
      polled false = (v, i)

  abbrev pub Sanely : Executor P F O × (Poll O × F) → Type 0
  Sanely r = IsSane r.0

  round-IsSane : (e : Executor P F O) (f : F) → IsSane e → Returns Sanely (round P poll e f)
  round-IsSane e f sane =
      then-Returns (λ r. IsSane r.0) Sanely (poll_main P poll e f) _ (poll_main-IsSane e f sane)
        polled
    where
      settled :
          (f' : F) (r : Executor P F O × Ticked)
          → IsSane r.0
          → Returns Sanely (after_tick P poll r.0 r.1 >>= left_pending P poll f')
      settled f' (e', ticked) sane' =
          then-Returns IsSane Sanely (after_tick P poll e' ticked) _
            (after_tick-IsSane e' ticked sane') (λ e'' sane''. sane'')

      polled :
          (r : Executor P F O × (Poll O × F))
          → IsSane r.0
          → Returns Sanely (elim r.1.0 [
            | ready o ↦ ok (r.0, (ready o, r.1.1))
            | pending ↦ (do
              (e'', ticked) ← tick P poll polls_per_tick r.0
              e''' ← after_tick P poll e'' ticked
              left_pending P poll r.1.1 e''')
          ])
      polled (e', (ready o, f')) sane' = sane'
      polled (e', (pending, f')) sane' =
          then-Returns (λ r. IsSane r.0) Sanely (tick P poll polls_per_tick e') _
            (tick-IsSane polls_per_tick e' sane') (settled f')

  -- c
  pub each_round-IsSane :
      (fuel : ℕ) (e : Executor P F O) (f : F)
      → IsSane e
      → (rounds P poll (suc fuel) e f ≡ (round P poll e f >>= go_on P poll fuel))
        × Returns Sanely (round P poll e f)
  each_round-IsSane fuel e f sane = (rounds-round P poll fuel e f, round-IsSane e f sane)
