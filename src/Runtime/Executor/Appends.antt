-- ===== src/Runtime/Executor/Appends.antt =====
-- Whatever the code of a poll does, the queue grows at its back.
use platoon.Base.{
  ℕ, zero, suc, ◌≡◌, refl, ap, ◌∙◌, Bool, true, false, Option, none, some, List, [], ◌∷◌, ◌++◌,
  append_assoc, if◌then◌else◌, Option-cases, ◌>>=◌, ok, panic, Poll, Waker, ready, pending, inl,
  inr,
}
use platoon.Runtime.Park.{Park}
use platoon.Runtime.Executor.{
  State, scheduled, idle, done, Payload, future, output, taken, Task, Code, returns, wakes, spawns,
  joins, cancels, visits, Executor, get, spawn, set_task, wake_task, wake, poll_output, cancel,
  execute, finish, suspend, run,
}
use platoon.Runtime.Executor.Effects.{Returns, then-Returns}
use platoon.Runtime.Executor.Keeps.{Same, poll_output-Same, cancel-Same}

module _ (P : Park) {F O : Type 0} where
  -- The queue has grown at its back.
  abbrev pub Appends : List ℕ → Executor P F O → Type 0
  Appends q e = (more : List ℕ) × (e.queue ≡ q ++ more)

  wake_task-Appends :
      (q : List ℕ) (e : Executor P F O) (n : ℕ) (t : Task F O) (s : State)
      → t.state ≡ s
      → Appends q e
      → Appends q (wake_task P e n t)
  unfolding wake_task
  wake_task-Appends q e n t scheduled is a = rw (is, wake_task) a
  wake_task-Appends q e n t done is a = rw (is, wake_task) a
  wake_task-Appends q e n t idle is (more, grown) =
      rw (is, wake_task)
        (more ++ n ∷ [], ap (λ r. r ++ n ∷ []) grown ∙ append_assoc q more (n ∷ []))

  wake-Appends :
      (q : List ℕ) (e : Executor P F O) (w : Waker) → Appends q e → Appends q (wake P e w)
  unfolding wake
  wake-Appends q e zero a = a
  wake-Appends q e (suc n) a = elim (Option-cases (get e.tasks n)) [
    | inl gone ↦ rw (gone, wake) a
    | inr (t, found) ↦ rw (found, wake) (wake_task-Appends q e n t t.state refl a)
  ]

  still_grown :
      {R : Type 0} (q : List ℕ) (e : Executor P F O) (r : Executor P F O × R)
      → Same P e r
      → Appends q e
      → Appends q r.0
  still_grown q e r (_, same) (more, grown) = (more, same ∙ grown)

  execute-Appends :
      {R : Type 0} (q : List ℕ) (c : Code P.State F O R) (e : Executor P F O)
      → Appends q e
      → Returns (λ r. Appends q r.0) (execute P c e)
  unfolding execute spawn
  execute-Appends q (returns r) e a = a
  execute-Appends q (wakes w c) e a = execute-Appends q c (wake P e w) (wake-Appends q e w a)
  execute-Appends q (spawns f c) e (more, grown) =
      execute-Appends q (c (spawn P e f).1) (spawn P e f).0 (
        more ++ (spawn P e f).1 ∷ [],
        ap (λ r. r ++ (spawn P e f).1 ∷ []) grown ∙ append_assoc q more ((spawn P e f).1 ∷ []),
      )
  execute-Appends q (joins n cx c) e a =
      then-Returns (Same P e) (λ r. Appends q r.0) (poll_output P e n cx) _
        (poll_output-Same P e n cx)
        (λ r same. execute-Appends q (c r.1) r.0 (still_grown q e r same a))
  execute-Appends q (cancels n c) e a =
      then-Returns (Same P e) (λ r. Appends q r.0) (cancel P e n) _ (cancel-Same P e n)
        (λ r same. execute-Appends q (c r.1) r.0 (still_grown q e r same a))
  execute-Appends q (visits f c) e a =
      execute-Appends q (c e.parker) (record e { parker = f e.parker }) a

  module _ (poll : F → Waker → Code P.State F O (Poll O × F)) where
    finish-Appends :
        (q : List ℕ) (e : Executor P F O) (n : ℕ) (o : O)
        → Appends q e
        → Returns (Appends q) (finish P poll e n o)
    unfolding finish set_task
    finish-Appends q e n o a = elim (Option-cases (get e.tasks n)) [
      | inl gone ↦ rw (gone, finish) tt
      | inr (t, found) ↦ rw (found, finish) (woken t.awaiter)
    ]
      where
        finished : Executor P F O
        finished =
            set_task P e n
              (record { awaiter = none; state = done; payload = output o; borrowed = false })

        woken :
            (x : Option Waker)
            → Returns (Appends q) (ok (elim x [ none ↦ finished | some w ↦ wake P finished w ]))
        woken none = a
        woken (some w) = wake-Appends q finished w a

    suspend-Appends :
        (q : List ℕ) (e : Executor P F O) (n : ℕ) (f : F)
        → Appends q e
        → Returns (Appends q) (suspend P poll e n f)
    unfolding suspend set_task
    suspend-Appends q e n f a = elim (Option-cases (get e.tasks n)) [
      | inl gone ↦ rw (gone, suspend) tt
      | inr (t, found) ↦ rw (found, suspend) a
    ]

    pub run-Appends :
        (q : List ℕ) (e : Executor P F O) (n : ℕ)
        → Appends q e
        → Returns (Appends q) (run P poll e n)
    unfolding run set_task
    run-Appends q e n a = elim (Option-cases (get e.tasks n)) [
      | inl gone ↦ rw (gone, run) tt
      | inr (t, found) ↦ rw (found, run) (ran t t.borrowed t.payload)
    ]
      where
        settled :
            (r : Executor P F O × (Poll O × F))
            → Appends q r.0
            → Returns (Appends q) (elim r.1.0 [
              | ready o ↦ finish P poll r.0 n o
              | pending ↦ suspend P poll r.0 n r.1.1
            ])
        settled (e', (ready o, f)) b = finish-Appends q e' n o b
        settled (e', (pending, f)) b = suspend-Appends q e' n f b

        ran :
            (t : Task F O) (b : Bool) (p : Payload F O)
            → Returns (Appends q) (
                if b then panic else elim p [
                  | output o ↦ ok (set_task P e n (record t { state = idle }))
                  | taken ↦ ok (set_task P e n (record t { state = idle }))
                  | future f ↦
                      execute P
                        (poll f (suc n))
                        (set_task P e n (record t { state = idle; borrowed = true }))
                      >>= (λ r. elim r.1.0 [
                        | ready o ↦ finish P poll r.0 n o
                        | pending ↦ suspend P poll r.0 n r.1.1
                      ])
                ])
        ran t true p = tt
        ran t false (output o) = a
        ran t false taken = a
        ran t false (future f) =
            then-Returns (λ r. Appends q r.0) (Appends q) (execute P (poll f (suc n)) _) _
              (execute-Appends q (poll f (suc n)) _ a) settled
