-- ===== src/Runtime/Executor/Effects.antt =====
-- The code of a poll keeps the queue in order, call by call.
use platoon.Base.{
  ℕ, ◌≡◌, inl, inr, Bool, true, false, Option, some, if◌then◌else◌, Option-cases, Outcome, ◌>>=◌,
  ok, panic, out_of_fuel, Poll, Waker, ready, pending,
}
use platoon.Runtime.Park.{Park}
use platoon.Runtime.Executor.{
  Payload, future, output, taken, Task, Code, returns, wakes, spawns, joins, cancels, visits,
  Executor, get, spawn, set_task, wake, poll_output, cancel, execute,
}
use platoon.Runtime.Executor.Queued.{IsQueued, set_task-IsQueued, spawn-IsQueued, wake-IsQueued}

-- A call that returns does so with this, or it panics; it never runs for ever.
abbrev pub Returns : {A : Type 0} → (A → Type 0) → Outcome A → Type 0
Returns Q (ok a) = Q a
Returns Q panic = Unit
Returns Q out_of_fuel = ⊥

module _ {A B : Type 0} (Q : A → Type 0) (R : B → Type 0) where
  pub then-Returns :
      (m : Outcome A) (f : A → Outcome B)
      → Returns Q m
      → ((a : A) → Q a → Returns R (f a))
      → Returns R (m >>= f)
  then-Returns (ok a) f h k = k a h
  then-Returns panic f h k = tt
  then-Returns out_of_fuel f h k = elim h [ ]

module _ (P : Park) {F O : Type 0} where
  abbrev pub Keeps : {R : Type 0} → Executor P F O × R → Type 0
  Keeps r = IsQueued P r.0

  poll_output-IsQueued :
      (e : Executor P F O) (n : ℕ) (cx : Waker)
      → IsQueued P e
      → Returns Keeps (poll_output P e n cx)
  unfolding poll_output
  poll_output-IsQueued e n cx v = elim (Option-cases (get e.tasks n)) [
    | inl gone ↦ rw (gone, poll_output) tt
    | inr (t, found) ↦ rw (found, poll_output) (answer t found t.borrowed t.payload)
  ]
    where
      answer :
          (t : Task F O)
          → get e.tasks n ≡ some t
          → (b : Bool) (p : Payload F O)
          → Returns (Keeps {R = Poll O}) (
              if b then panic else elim p [
                | output o ↦ ok (set_task P e n (record t { payload = taken }), ready o)
                | taken ↦ panic
                | future f ↦ ok (set_task P e n (record t { awaiter = some cx }), pending)
              ])
      answer t found true p = tt
      answer t found false (output o) = set_task-IsQueued P e n t _ v found (v.stands n t found)
      answer t found false taken = tt
      answer t found false (future f) = set_task-IsQueued P e n t _ v found (v.stands n t found)

  cancel-IsQueued : (e : Executor P F O) (n : ℕ) → IsQueued P e → Returns Keeps (cancel P e n)
  unfolding cancel
  cancel-IsQueued e n v = elim (Option-cases (get e.tasks n)) [
    | inl gone ↦ rw (gone, cancel) tt
    | inr (t, found) ↦ rw (found, cancel) (answer t found t.borrowed _)
  ]
    where
      answer :
          (t : Task F O)
          → get e.tasks n ≡ some t
          → (b : Bool) (o : Option O)
          → Returns
              (Keeps {R = Option O})
              (if b then panic else ok (set_task P e n (record t { payload = taken }), o))
      answer t found true o = tt
      answer t found false o = set_task-IsQueued P e n t _ v found (v.stands n t found)

  pub execute-IsQueued :
      {R : Type 0} (c : Code P.State F O R) (e : Executor P F O)
      → IsQueued P e
      → Returns Keeps (execute P c e)
  unfolding execute
  execute-IsQueued (returns r) e v = v
  execute-IsQueued (wakes w c) e v = execute-IsQueued c (wake P e w) (wake-IsQueued P e w v)
  execute-IsQueued (spawns f c) e v =
      execute-IsQueued (c (spawn P e f).1) (spawn P e f).0 (spawn-IsQueued P e f v)
  execute-IsQueued (joins n cx c) e v =
      then-Returns Keeps Keeps (poll_output P e n cx) _ (poll_output-IsQueued e n cx v)
        (λ a h. execute-IsQueued (c a.1) a.0 h)
  execute-IsQueued (cancels n c) e v =
      then-Returns Keeps Keeps (cancel P e n) _ (cancel-IsQueued e n v)
        (λ a h. execute-IsQueued (c a.1) a.0 h)
  execute-IsQueued (visits f c) e v =
      execute-IsQueued (c e.parker) (record e { parker = f e.parker })
        (record { distinct = v.distinct; known = v.known; stands = v.stands })
