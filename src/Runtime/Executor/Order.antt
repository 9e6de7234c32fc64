-- ===== src/Runtime/Executor/Order.antt =====
-- The polls of a tick run the tasks of the queue from its front.
use platoon.Base.{
  ℕ, zero, suc, ◌≡◌, refl, sym, ap, ◌∙◌, Bool, true, false, List, [], ◌∷◌, ◌++◌, append_assoc,
  append-nil, Outcome, out_of_fuel, if◌then◌else◌, arith, ok, panic, Poll, Waker, inl, inr, ◌⊎◌,
  ◌<◌,
}
use platoon.Runtime.Park.{Park}
use platoon.Runtime.Executor.{Code, Executor, run, Ticked, main_woken, no_tasks, all_polled, tick}
use platoon.Runtime.Executor.Effects.{Returns, then-Returns}
use platoon.Runtime.Executor.Ticks.{queue_cases}
use platoon.Runtime.Executor.Appends.{Appends, run-Appends}

-- A call that returns with something does so with what it returns.
with_end :
    {A : Type 0} (Q : A → Type 0) (m : Outcome A) → Returns Q m → Returns (λ a. (m ≡ ok a) × Q a) m
with_end Q (ok a) h = (refl, h)
with_end Q panic h = tt
with_end Q out_of_fuel h = h

map-Returns :
    {A : Type 0} {Q R : A → Type 0} (m : Outcome A)
    → ((a : A) → Q a → R a)
    → Returns Q m
    → Returns R m
map-Returns (ok a) f h = f a h
map-Returns panic f h = tt
map-Returns out_of_fuel f h = h

module _ (P : Park) {F O : Type 0} (poll : F → Waker → Code P.State F O (Poll O × F)) where
  -- The end of a tick where no run left the main future marked as woken, with so many runs left:
  -- the queue is empty before the runs are used up, or they are used up.
  abbrev pub RunsOut : ℕ → Executor P F O → Ticked → Type 0
  RunsOut polls e main_woken = ⊥
  RunsOut polls e no_tasks = (e.queue ≡ []) × (0 < polls)
  RunsOut polls e all_polled = polls ≡ 0

  -- These tasks were popped and run, one after the other, and a run is the last one exactly where
  -- it leaves the main future marked as woken, or where no task or no run is left.
  abbrev pub Runs : ℕ → Executor P F O → List ℕ → Executor P F O × Ticked → Type 0
  Runs polls e [] (e', ticked) = (e ≡ e') × RunsOut polls e ticked
  Runs zero e (n ∷ ns) (e', ticked) = ⊥
  Runs (suc polls) e (n ∷ ns) (e', ticked) =
      (ts : List ℕ) × (next : Executor P F O) × (e.queue ≡ n ∷ ts)
      × (run P poll (record e { queue = ts }) n ≡ ok next)
      × (((next.woke ≡ true) × (ns ≡ []) × (next ≡ e') × (ticked ≡ main_woken))
          ⊎ ((next.woke ≡ false) × Runs polls next ns (e', ticked)))

  -- The tasks that were run and those that are left are the ones that were queued and those that
  -- were queued since.
  abbrev pub InOrder : ℕ → Executor P F O → Executor P F O × Ticked → Type 0
  InOrder polls e (e', ticked) =
      (ns : List ℕ) × (more : List ℕ) × (Runs polls e ns (e', ticked))
      × (e.queue ++ more ≡ ns ++ e'.queue)

  -- The polls of a tick, whatever the code of the futures does, panic or return, and do not run
  -- for ever: they ran tasks one after the other, each popped from the front of the queue; the
  -- tick ends with `main_woken` right after the first run that leaves the main future marked as
  -- woken, whoever marked it, and no run before the last leaves it so; it ends with `no_tasks`
  -- where every run left it unmarked and the queue is empty with runs left, and with `all_polled`
  -- where every run left it unmarked and the runs are used up; the tasks that were run followed by
  -- those left in the queue are the tasks that were queued followed by those that were queued
  -- since.
  pub tick-InOrder :
      (polls : ℕ) (e : Executor P F O) → Returns (InOrder polls e) (tick P poll polls e)
  unfolding tick
  tick-InOrder zero e = ([], [], (refl, refl), append-nil e.queue)
  tick-InOrder (suc polls) e = elim (queue_cases e.queue) [
    | inl empty ↦ simp (empty, tick) ([], [], (refl, (empty, ground arith)), refl)
    | inr (n, ts, is) ↦
        simp (is, tick)
          (then-Returns (Next n ts) (InOrder (suc polls) e) (run P poll (record e { queue = ts }) n)
            _
            (with_end (Appends P ts) (run P poll (record e { queue = ts }) n)
              (run-Appends P poll ts (record e { queue = ts }) n ([], sym (append-nil ts))))
            (λ next (ran, a). goes_on n ts next is ran a (tick-InOrder polls next) next.woke refl))
  ]
    where
      Next : ℕ → List ℕ → Executor P F O → Type 0
      Next n ts next = (run P poll (record e { queue = ts }) n ≡ ok next) × Appends P ts next

      goes_on :
          (n : ℕ) (ts : List ℕ) (next : Executor P F O)
          → e.queue ≡ n ∷ ts
          → run P poll (record e { queue = ts }) n ≡ ok next
          → Appends P ts next
          → Returns (InOrder polls next) (tick P poll polls next)
          → (b : Bool) → next.woke ≡ b
          → Returns
              (InOrder (suc polls) e)
              (if b then ok (next, main_woken) else tick P poll polls next)
      goes_on n ts next is ran (more, grown) rest true woke = (
        n ∷ [],
        more,
        (ts, next, is, ran, inl (woke, refl, refl, refl)),
        ap (λ q. q ++ more) is ∙ ap (λ q. n ∷ q) (sym grown),
      )
      goes_on n ts next is ran (more, grown) rest false calm =
          map-Returns (tick P poll polls next)
            (λ (e', ticked) (ns, since, runs, order). (
              n ∷ ns,
              more ++ since,
              (ts, next, is, ran, inr (calm, runs)),
              ap (λ q. q ++ (more ++ since)) is
                  ∙ ap (λ q. n ∷ q)
                      (sym (append_assoc ts more since) ∙ ap (λ q. q ++ since) (sym grown) ∙ order),
            ))
            rest
