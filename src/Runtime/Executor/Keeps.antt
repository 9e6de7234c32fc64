-- ===== src/Runtime/Executor/Keeps.antt =====
-- What holds of the parker, and is kept by its parks and by whatever the code of the futures does
-- to it, is kept by `block_on`, round by round.
use platoon.Base.{
  ℕ, zero, suc, ◌≡◌, refl, sym, ◌∙◌, subst, inl, inr, Bool, true, false, Option, none, some, List,
  [], ◌∷◌, if◌then◌else◌, Option-cases, ◌>>=◌, ok, panic, Poll, Waker, ready, pending,
}
use platoon.Runtime.Park.{Park}
use platoon.Runtime.Executor.{
  State, scheduled, idle, done, Payload, future, output, taken, Task, Code, returns, wakes, spawns,
  joins, cancels, visits, Executor, get, spawn, set_task, wake_task, wake, wake_all, poll_output,
  cancel, execute, finish, suspend, run, tick, main_woken,
}
use platoon.Runtime.Executor.Effects.{Returns, then-Returns}
use platoon.Runtime.Executor.Ticks.{queue_cases}

module _ (P : Park) {F O : Type 0} where
  -- The parker and the queue are as before.
  abbrev pub Same : {R : Type 0} → Executor P F O → Executor P F O × R → Type 0
  Same e r = (r.0.parker ≡ e.parker) × (r.0.queue ≡ e.queue)

  wake_task-parker :
      (e : Executor P F O) (n : ℕ) (t : Task F O) (s : State)
      → t.state ≡ s
      → (wake_task P e n t).parker ≡ e.parker
  unfolding wake_task
  wake_task-parker e n t scheduled is = rw (is, wake_task)
  wake_task-parker e n t idle is = rw (is, wake_task)
  wake_task-parker e n t done is = rw (is, wake_task)

  wake-parker : (e : Executor P F O) (w : Waker) → (wake P e w).parker ≡ e.parker
  unfolding wake
  wake-parker e zero = refl
  wake-parker e (suc n) = elim (Option-cases (get e.tasks n)) [
    | inl gone ↦ rw (gone, wake)
    | inr (t, found) ↦ rw (found, wake) (wake_task-parker e n t t.state refl)
  ]

  pub wake_all-parker : (e : Executor P F O) (ws : List Waker) → (wake_all P e ws).parker ≡ e.parker
  unfolding wake_all
  wake_all-parker e [] = refl
  wake_all-parker e (w ∷ ws) = wake_all-parker (wake P e w) ws ∙ wake-parker e w

  pub poll_output-Same :
      (e : Executor P F O) (n : ℕ) (cx : Waker) → Returns (Same e) (poll_output P e n cx)
  unfolding poll_output set_task
  poll_output-Same e n cx = elim (Option-cases (get e.tasks n)) [
    | inl gone ↦ rw (gone, poll_output) tt
    | inr (t, found) ↦ rw (found, poll_output) (answer t t.borrowed t.payload)
  ]
    where
      answer :
          (t : Task F O) (b : Bool) (p : Payload F O)
          → Returns (Same {R = Poll O} e) (
              if b then panic else elim p [
                | output o ↦ ok (set_task P e n (record t { payload = taken }), ready o)
                | taken ↦ panic
                | future f ↦ ok (set_task P e n (record t { awaiter = some cx }), pending)
              ])
      answer t true p = tt
      answer t false (output o) = (refl, refl)
      answer t false taken = tt
      answer t false (future f) = (refl, refl)

  pub cancel-Same : (e : Executor P F O) (n : ℕ) → Returns (Same e) (cancel P e n)
  unfolding cancel set_task
  cancel-Same e n = elim (Option-cases (get e.tasks n)) [
    | inl gone ↦ rw (gone, cancel) tt
    | inr (t, found) ↦ rw (found, cancel) (answer t t.borrowed _)
  ]
    where
      answer :
          (t : Task F O) (b : Bool) (o : Option O)
          → Returns
              (Same {R = Option O} e)
              (if b then panic else ok (set_task P e n (record t { payload = taken }), o))
      answer t true o = tt
      answer t false o = (refl, refl)

module _ (P : Park) {F O : Type 0} (I : P.State → Type 0) where
  -- What the code does to the parker keeps this.
  abbrev pub Spares : {R : Type 0} → Code P.State F O R → Type 0
  Spares (returns r) = Unit
  Spares (wakes w c) = Spares c
  Spares (spawns f c) = (n : ℕ) → Spares (c n)
  Spares (joins n cx c) = (polled : Poll O) → Spares (c polled)
  Spares (cancels n c) = (o : Option O) → Spares (c o)
  Spares (visits f c) = ((x : P.State) → I x → I (f x)) × ((x : P.State) → I x → Spares (c x))

  pub execute-Keeps :
      {R : Type 0} (c : Code P.State F O R) (e : Executor P F O)
      → Spares c
      → I e.parker
      → Returns (λ r. I r.0.parker) (execute P c e)
  unfolding execute spawn
  execute-Keeps (returns r) e spares i = i
  execute-Keeps (wakes w c) e spares i =
      execute-Keeps c (wake P e w) spares (subst I (sym (wake-parker P e w)) i)
  execute-Keeps (spawns f c) e spares i =
      execute-Keeps (c (spawn P e f).1) (spawn P e f).0 (spares (spawn P e f).1) i
  execute-Keeps (joins n cx c) e spares i =
      then-Returns (Same P e) (λ r. I r.0.parker) (poll_output P e n cx) _
        (poll_output-Same P e n cx)
        (λ a (same, _). execute-Keeps (c a.1) a.0 (spares a.1) (subst I (sym same) i))
  execute-Keeps (cancels n c) e spares i =
      then-Returns (Same P e) (λ r. I r.0.parker) (cancel P e n) _ (cancel-Same P e n)
        (λ a (same, _). execute-Keeps (c a.1) a.0 (spares a.1) (subst I (sym same) i))
  execute-Keeps (visits f c) e (kept, spares) i =
      execute-Keeps (c e.parker) (record e { parker = f e.parker }) (spares e.parker i)
        (kept e.parker i)

  module _ (poll : F → Waker → Code P.State F O (Poll O × F))
      (spares : (f : F) (w : Waker) → Spares (poll f w)) where
    finish-Keeps :
        (e : Executor P F O) (n : ℕ) (o : O)
        → I e.parker
        → Returns (λ e'. I e'.parker) (finish P poll e n o)
    unfolding finish set_task
    finish-Keeps e n o i = elim (Option-cases (get e.tasks n)) [
      | inl gone ↦ rw (gone, finish) tt
      | inr (t, found) ↦ rw (found, finish) (woken t.awaiter)
    ]
      where
        finished : Executor P F O
        finished =
            set_task P e n
              (record { awaiter = none; state = done; payload = output o; borrowed = false })

        woken :
            (a : Option Waker)
            → Returns
                (λ e'. I e'.parker)
                (ok (elim a [ none ↦ finished | some w ↦ wake P finished w ]))
        woken none = i
        woken (some w) = subst I (sym (wake-parker P finished w)) i

    suspend-Keeps :
        (e : Executor P F O) (n : ℕ) (f : F)
        → I e.parker
        → Returns (λ e'. I e'.parker) (suspend P poll e n f)
    unfolding suspend set_task
    suspend-Keeps e n f i = elim (Option-cases (get e.tasks n)) [
      | inl gone ↦ rw (gone, suspend) tt
      | inr (t, found) ↦ rw (found, suspend) i
    ]

    run-Keeps :
        (e : Executor P F O) (n : ℕ) → I e.parker → Returns (λ e'. I e'.parker) (run P poll e n)
    unfolding run set_task
    run-Keeps e n i = elim (Option-cases (get e.tasks n)) [
      | inl gone ↦ rw (gone, run) tt
      | inr (t, found) ↦ rw (found, run) (ran t t.borrowed t.payload)
    ]
      where
        settled :
            (a : Executor P F O × (Poll O × F))
            → I a.0.parker
            → Returns
                (λ e'. I e'.parker)
                (elim a.1.0 [
                  | ready o ↦ finish P poll a.0 n o
                  | pending ↦ suspend P poll a.0 n a.1.1
                ])
        settled (e', (ready o, f)) i' = finish-Keeps e' n o i'
        settled (e', (pending, f)) i' = suspend-Keeps e' n f i'

        ran :
            (t : Task F O) (b : Bool) (p : Payload F O)
            → Returns
                (λ e'. I e'.parker)
                (if b then panic else elim p [
                  | output o ↦ ok (set_task P e n (record t { state = idle }))
                  | taken ↦ ok (set_task P e n (record t { state = idle }))
                  | future f ↦
                      execute P
                        (poll f (suc n))
                        (set_task P e n (record t { state = idle; borrowed = true }))
                      >>= (λ a. elim a.1.0 [
                        | ready o ↦ finish P poll a.0 n o
                        | pending ↦ suspend P poll a.0 n a.1.1
                      ])
                ])
        ran t true p = tt
        ran t false (output o) = i
        ran t false taken = i
        ran t false (future f) =
            then-Returns (λ r. I r.0.parker) (λ e'. I e'.parker) (execute P (poll f (suc n)) _) _
              (execute-Keeps (poll f (suc n)) _ (spares f (suc n)) i) settled

    pub tick-Keeps :
        (polls : ℕ) (e : Executor P F O)
        → I e.parker
        → Returns (λ r. I r.0.parker) (tick P poll polls e)
    unfolding tick
    tick-Keeps zero e i = i
    tick-Keeps (suc polls) e i = elim (queue_cases e.queue) [
      | inl empty ↦ rw (empty, tick) i
      | inr (n, ts, is) ↦
          rw (is, tick)
            (then-Returns (λ e'. I e'.parker) (λ r. I r.0.parker)
              (run P poll (record e { queue = ts }) n) _ (run-Keeps (record e { queue = ts }) n i)
              (λ e' i'. goes_on e' e'.woke i' (tick-Keeps polls e' i')))
    ]
      where
        goes_on :
            (e' : Executor P F O) (b : Bool)
            → I e'.parker
            → Returns (λ r. I r.0.parker) (tick P poll polls e')
            → Returns (λ r. I r.0.parker) (if b then ok (e', main_woken) else tick P poll polls e')
        goes_on e' true i' rest = i'
        goes_on e' false i' rest = rest
