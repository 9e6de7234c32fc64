-- ===== src/Task/Joins.antt =====
-- The output of a task: stored where its handle finds it, before whoever awaits it is woken, and
-- given out once.
use platoon.Base.{ℕ, suc, ◌≡◌, refl, true, false, none, some, ok, panic, Poll, Waker, ready}
use platoon.Runtime.Park.{Park}
use platoon.Runtime.Executor
use platoon.Runtime.Executor.{
  State, idle, done, future, output, taken, Task, Code, Executor, get, set_task, wake, poll_output,
  execute, finish, run,
}
use platoon.Runtime.Executor.Outputs.{unborrowed, Carries, wake-Carries, set_task-Carries}
use platoon.Task.{JoinHandle, poll_handle, cancel}

module _ (P : Park) {F O : Type 0} where
  -- The handle gets the output once, and a poll after that panics; or a cancel gets it.
  abbrev pub GivesOnce : Executor P F O → JoinHandle → O → Waker → Type 0
  GivesOnce e handle o cx =
      (e' : Executor P F O) × (poll_handle P e handle cx ≡ ok (e', ready o))
      × (poll_handle P e' handle cx ≡ panic)
      × ((c : Executor P F O) × (cancel P e handle ≡ ok (c, some o)))
      × ((c : Executor P F O) × (cancel P e' handle ≡ ok (c, none)))

  Carries-GivesOnce :
      (e : Executor P F O) (n : ℕ) (o : O) (cx : Waker)
      → Carries P e n (output o)
      → GivesOnce e (record { task = n }) o cx
  unfolding poll_handle cancel poll_output platoon.Runtime.Executor.cancel
  Carries-GivesOnce e n o cx (a, s, found) =
      let e' = set_task P e n (unborrowed P a s taken) in
      let (a', s', found') = set_task-Carries P e n (unborrowed P a s (output o)) a s taken found in
      (
        e',
        rw (found, poll_output),
        rw (found', poll_output),
        (e', rw (found, Executor.cancel)),
        (set_task P e' n (unborrowed P a' s' taken), rw (found', Executor.cancel)),
      )

  module _ (poll : F → Waker → Code P.State F O (Poll O × F)) where
    -- The executor as the code of a poll of a task finds it.
    abbrev pub polling : Executor P F O → ℕ → Task F O → Executor P F O
    polling e n t = set_task P e n (record t { state = idle; borrowed = true })

    -- The run of a task that is not borrowed, whose poll is ready, and which is awaited when that
    -- poll ends, returns: the output is stored before the awaiter is woken, the handle then gets
    -- it at its next poll or by a cancel, and after that poll a poll panics and a cancel gets
    -- nothing.
    pub run-GivesOnce :
        (e e' : Executor P F O) (n : ℕ) (t t' : Task F O) (f f' : F) (o : O) (w cx : Waker)
        → get e.tasks n ≡ some t
        → t.borrowed ≡ false
        → t.payload ≡ future f
        → execute P (poll f (suc n)) (polling e n t) ≡ ok (e', (ready o, f'))
        → get e'.tasks n ≡ some t'
        → t'.awaiter ≡ some w
        → (r : Executor P F O) × (run P poll e n ≡ ok r)
          × (r ≡ wake P (set_task P e' n (unborrowed P none done (output o))) w)
          × GivesOnce r (record { task = n }) o cx
    unfolding run finish
    run-GivesOnce e e' n t t' f f' o w cx found free holds polled found' awaited =
        let stored = set_task P e' n (unborrowed P none done (output o)) in
        let c =
          wake-Carries P stored w n (output o)
            (set_task-Carries P e' n t' none done (output o) found') in
        (
          wake P stored w,
          rw (found, run, free, holds, polled, found', finish, awaited),
          refl,
          Carries-GivesOnce (wake P stored w) n o cx c,
        )
