-- ===== src/Runtime/Executor/Ticks.antt =====
-- The queue stays in order through whatever the tasks do, and a wake is never lost.
use platoon.Base.{
  ℕ, zero, suc, ◌≡◌, refl, sym, ap, ◌∙◌, subst, ◌≢◌, ◌⊎◌, inl, inr, Bool, true, false, Option, none,
  some, List, [], ◌∷◌, arith, ◌==◌, if◌then◌else◌, ==_iff, Bool-cases, Option-cases, has, Distinct,
  has-append, ◌>>=◌, ok, panic, Poll, Waker, ready, pending,
}
use platoon.Runtime.Park.{Park}
use platoon.Runtime.Executor.{
  State, scheduled, idle, done, Payload, future, output, taken, Task, Code, Executor, get, set_task,
  wake_task, wake, execute, finish, suspend, run, main_woken, tick,
}
use platoon.Runtime.Executor.Queued.{Stands, get-put, IsQueued, set_task-IsQueued, wake-IsQueued}
use platoon.Runtime.Executor.Effects.{Returns, then-Returns, Keeps, execute-IsQueued}

pub queue_cases : (q : List ℕ) → (q ≡ []) ⊎ ((n : ℕ) × (ts : List ℕ) × (q ≡ n ∷ ts))
queue_cases [] = inl refl
queue_cases (n ∷ ts) = inr (n, ts, refl)

module _ (P : Park) {F O : Type 0} where
  -- A queued task is there.
  queued_there :
      (e : Executor P F O) (n : ℕ) (ts : List ℕ)
      → IsQueued P e
      → e.queue ≡ n ∷ ts
      → (t : Task F O) × (get e.tasks n ≡ some t)
  queued_there e n ts v is = elim (Option-cases (get e.tasks n)) [
    | inl gone ↦ absurd (ground (arith, subst (λ q. has n q ≡ false) is (v.known n gone)))
    | inr present ↦ present
  ]

  -- The first task is taken out of the queue and set idle, or done.
  popped-IsQueued :
      (e : Executor P F O) (n : ℕ) (ts : List ℕ) (t u : Task F O)
      → IsQueued P e
      → e.queue ≡ n ∷ ts
      → get e.tasks n ≡ some t
      → u.state ≡ idle
      → IsQueued P (set_task P (record e { queue = ts }) n u)
  unfolding set_task
  popped-IsQueued e n ts t u v is found calm =
      let (absent, distinct) = subst Distinct is v.distinct in
      record {
        distinct = distinct;
        known = λ k gone. known k (sym (get-put e.tasks n k t u found) ∙ gone);
        stands = λ k s got. stands absent k s (sym (get-put e.tasks n k t u found) ∙ got);
      }
    where
      known : (k : ℕ) → (if k == n then some u else get e.tasks k) ≡ none → has k ts ≡ false
      known k gone = elim (Bool-cases (k == n)) [
        | inl same ↦ absurd (ground (arith, rw same at gone))
        | inr differ ↦
            ground (arith, differ, subst (λ q. has k q ≡ false) is (v.known k (rw differ at gone)))
      ]

      stands :
          has n ts ≡ false
          → (k : ℕ) (s : Task F O) → (if k == n then some u else get e.tasks k) ≡ some s
          → Stands s.state (has k ts)
      stands absent k s got = elim (Bool-cases (k == n)) [
        | inl same ↦
            let us : idle ≡ s.state = ground (arith, rw same at got, calm) in
            subst (λ st. Stands st (has k ts)) us (rw ((==_iff k n).0 same) absent)
        | inr differ ↦
            let still : has k e.queue ≡ has k ts = ap (has k) is ∙ ground (arith, differ) in
            subst (Stands s.state) still (v.stands k s (rw differ at got))
      ]

  module _ (poll : F → Waker → Code P.State F O (Poll O × F)) where
    finish-IsQueued :
        (e : Executor P F O) (n : ℕ) (o : O)
        → IsQueued P e
        → Returns (IsQueued P) (finish P poll e n o)
    unfolding finish
    finish-IsQueued e n o v = elim (Option-cases (get e.tasks n)) [
      | inl gone ↦ rw (gone, finish) tt
      | inr (t, found) ↦ rw (found, finish) (woken t found t.awaiter)
    ]
      where
        woken :
            (t : Task F O)
            → get e.tasks n ≡ some t
            → (a : Option Waker)
            → IsQueued P (elim a [
              | none ↦
                  set_task P e n
                    (record { awaiter = none; state = done; payload = output o; borrowed = false })
              | some w ↦
                  wake P
                    (set_task P e n (record {
                      awaiter = none;
                      state = done;
                      payload = output o;
                      borrowed = false;
                    }))
                    w
            ])
        woken t found none = set_task-IsQueued P e n t _ v found tt
        woken t found (some w) = wake-IsQueued P _ w (set_task-IsQueued P e n t _ v found tt)

    suspend-IsQueued :
        (e : Executor P F O) (n : ℕ) (f : F)
        → IsQueued P e
        → Returns (IsQueued P) (suspend P poll e n f)
    unfolding suspend
    suspend-IsQueued e n f v = elim (Option-cases (get e.tasks n)) [
      | inl gone ↦ rw (gone, suspend) tt
      | inr (t, found) ↦
          rw (found, suspend) (set_task-IsQueued P e n t _ v found (v.stands n t found))
    ]

    run-IsQueued :
        (e : Executor P F O) (n : ℕ) (ts : List ℕ)
        → IsQueued P e
        → e.queue ≡ n ∷ ts
        → Returns (IsQueued P) (run P poll (record e { queue = ts }) n)
    unfolding run
    run-IsQueued e n ts v is =
        let (t, found) = queued_there e n ts v is in
        rw (found, run) (ran t found t.borrowed t.payload)
      where
        settled :
            (a : Executor P F O × (Poll O × F))
            → IsQueued P a.0
            → Returns (IsQueued P) (elim a.1.0 [
              | ready o ↦ finish P poll a.0 n o
              | pending ↦ suspend P poll a.0 n a.1.1
            ])
        settled (e', (ready o, f)) w = finish-IsQueued e' n o w
        settled (e', (pending, f)) w = suspend-IsQueued e' n f w

        ran :
            (t : Task F O)
            → get e.tasks n ≡ some t
            → (b : Bool) (p : Payload F O)
            → Returns (IsQueued P) (
                if b then panic else elim p [
                  | output o ↦
                      ok (set_task P (record e { queue = ts }) n (record t { state = idle }))
                  | taken ↦ ok (set_task P (record e { queue = ts }) n (record t { state = idle }))
                  | future f ↦
                      execute P (poll f (suc n)) (
                        set_task P
                          (record e { queue = ts })
                          n
                          (record t { state = idle; borrowed = true }))
                      >>= (λ a. elim a.1.0 [
                        | ready o ↦ finish P poll a.0 n o
                        | pending ↦ suspend P poll a.0 n a.1.1
                      ])
                ])
        ran t found true p = tt
        ran t found false (output o) = popped-IsQueued e n ts t _ v is found refl
        ran t found false taken = popped-IsQueued e n ts t _ v is found refl
        ran t found false (future f) =
            then-Returns (Keeps P) (IsQueued P) (execute P (poll f (suc n)) _) _
              (execute-IsQueued P (poll f (suc n)) _ (popped-IsQueued e n ts t _ v is found refl))
              settled

    -- Where no task is queued twice, only tasks are queued, scheduled tasks are queued and idle
    -- ones are not, the polls of a tick, whatever the code of the futures does, keep it so, or
    -- panic; they do not run for ever.
    pub tick-IsQueued :
        (polls : ℕ) (e : Executor P F O)
        → IsQueued P e
        → Returns (λ r. IsQueued P r.0) (tick P poll polls e)
    unfolding tick
    tick-IsQueued zero e v = v
    tick-IsQueued (suc polls) e v = elim (queue_cases e.queue) [
      | inl empty ↦ rw (empty, tick) v
      | inr (n, ts, is) ↦
          rw (is, tick)
            (then-Returns (IsQueued P) (λ r. IsQueued P r.0)
              (run P poll (record e { queue = ts }) n) _ (run-IsQueued e n ts v is)
              (λ e' v'. goes_on e' e'.woke v' (tick-IsQueued polls e' v')))
    ]
      where
        goes_on :
            (e' : Executor P F O) (b : Bool)
            → IsQueued P e'
            → Returns (λ r. IsQueued P r.0) (tick P poll polls e')
            → Returns
                (λ r. IsQueued P r.0)
                (if b then ok (e', main_woken) else tick P poll polls e')
        goes_on e' true v' rest = v'
        goes_on e' false v' rest = rest

  -- Where no task is queued twice, only tasks are queued, scheduled tasks are queued and idle ones
  -- are not, a wake of a task that is not done leaves it in the queue, and keeps it so.
  pub wake-has :
      (e : Executor P F O) (n : ℕ) (t : Task F O)
      → IsQueued P e
      → get e.tasks n ≡ some t
      → t.state ≢ done
      → (has n (wake P e (suc n)).queue ≡ true) × IsQueued P (wake P e (suc n))
  unfolding wake wake_task
  wake-has e n t v found alive = (queued t.state refl, wake-IsQueued P e (suc n) v)
    where
      queued : (s : State) → t.state ≡ s → has n (wake P e (suc n)).queue ≡ true
      queued scheduled is =
          rw (found, wake, is, wake_task)
            (subst (λ s. Stands s (has n e.queue)) is (v.stands n t found))
      queued idle is =
          rw (found, wake, is, wake_task) (has-append n e.queue (n ∷ []) ∙ ground arith)
      queued done is = absurd (alive is)
