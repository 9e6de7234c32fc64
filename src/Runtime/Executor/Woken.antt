-- ===== src/Runtime/Executor/Woken.antt =====
-- Whoever is among those that are woken is woken, and stays so through the wakes of the others.
use platoon.Base.{
  ℕ, zero, suc, ◌≡◌, refl, ◌∙◌, subst, ◌⊎◌, inl, inr, true, none, some, List, [], ◌∷◌, arith, ◌==◌,
  ==_iff, ==_self, Bool-cases, Option-cases, has, Waker, Poll, ok, IoResult, success, failure,
}
use platoon.Runtime.Park.{Park}
use platoon.Runtime.Executor.{
  State, scheduled, idle, done, Task, Code, parked, Executor, get, wake_task, wake, wake_all,
}
use platoon.Runtime.Executor.Keeps.{wake_all-parker}
use platoon.Runtime.Executor.Queued.{Stands, get-put, IsQueued, wake_all-IsQueued}

module _ (P : Park) {F O : Type 0} where
  -- What a waker wakes is not asleep: the future of `block_on` will be polled, and a task is gone,
  -- scheduled or done.
  abbrev pub Roused : Executor P F O → Waker → Type 0
  Roused e zero = e.woke ≡ true
  Roused e (suc n) =
      (get e.tasks n ≡ none)
      ⊎ ((t : Task F O) × (get e.tasks n ≡ some t) × ((t.state ≡ scheduled) ⊎ (t.state ≡ done)))

  -- As far as the queue goes: a task that is not done is queued.
  abbrev pub Woken : Executor P F O → Waker → Type 0
  Woken e zero = e.woke ≡ true
  Woken e (suc n) =
      (get e.tasks n ≡ none)
      ⊎ ((t : Task F O) × (get e.tasks n ≡ some t) × ((has n e.queue ≡ true) ⊎ (t.state ≡ done)))

  Roused-Woken : (e : Executor P F O) (w : Waker) → IsQueued P e → Roused e w → Woken e w
  Roused-Woken e zero v r = r
  Roused-Woken e (suc n) v (inl gone) = inl gone
  Roused-Woken e (suc n) v (inr (t, found, inr over)) = inr (t, found, inr over)
  Roused-Woken e (suc n) v (inr (t, found, inl is)) =
      inr (t, found, inl (subst (λ s. Stands s (has n e.queue)) is (v.stands n t found)))

  -- The wake of a task leaves no one asleep who was not.
  wake_task-Roused :
      (e : Executor P F O) (m : ℕ) (u : Task F O) (s : State) (w : Waker)
      → get e.tasks m ≡ some u
      → u.state ≡ s
      → Roused e w
      → Roused (wake_task P e m u) w
  unfolding wake_task
  wake_task-Roused e m u scheduled w found is r = rw (is, wake_task) r
  wake_task-Roused e m u done w found is r = rw (is, wake_task) r
  wake_task-Roused e m u idle zero found is r = rw (is, wake_task) r
  wake_task-Roused e m u idle (suc n) found is r =
      let look = get-put e.tasks m n u (record u { state = scheduled }) found in
      rw (is, wake_task)
        (elim (Bool-cases (n == m)) [
          | inl same ↦ inr (record u { state = scheduled }, look ∙ rw same, inl refl)
          | inr differ ↦ elim r [
            | inl gone ↦ inl (look ∙ rw (differ, gone))
            | inr (t, there_t, up) ↦ inr (t, look ∙ rw (differ, there_t), up)
          ]
        ])

  wake-Roused : (e : Executor P F O) (v w : Waker) → Roused e w → Roused (wake P e v) w
  unfolding wake
  wake-Roused e zero zero r = refl
  wake-Roused e zero (suc n) r = r
  wake-Roused e (suc m) w r = elim (Option-cases (get e.tasks m)) [
    | inl gone ↦ rw (gone, wake) r
    | inr (u, found) ↦ rw (found, wake) (wake_task-Roused e m u u.state w found refl r)
  ]

  -- And rouses its own.
  wake_task_own :
      (e : Executor P F O) (m : ℕ) (u : Task F O) (s : State)
      → get e.tasks m ≡ some u
      → u.state ≡ s
      → Roused (wake_task P e m u) (suc m)
  unfolding wake_task
  wake_task_own e m u scheduled found is = rw (is, wake_task) (inr (u, found, inl is))
  wake_task_own e m u done found is = rw (is, wake_task) (inr (u, found, inr is))
  wake_task_own e m u idle found is =
      rw (is, wake_task)
        (inr (
          record u { state = scheduled },
          get-put e.tasks m m u (record u { state = scheduled }) found ∙ rw (==_self m),
          inl refl,
        ))

  wake_own : (e : Executor P F O) (w : Waker) → Roused (wake P e w) w
  unfolding wake
  wake_own e zero = refl
  wake_own e (suc m) = elim (Option-cases (get e.tasks m)) [
    | inl gone ↦ rw (gone, wake) (inl gone)
    | inr (u, found) ↦ rw (found, wake) (wake_task_own e m u u.state found refl)
  ]

  wake_all-Roused :
      (e : Executor P F O) (ws : List Waker) (w : Waker) → Roused e w → Roused (wake_all P e ws) w
  unfolding wake_all
  wake_all-Roused e [] w r = r
  wake_all-Roused e (v ∷ ws) w r = wake_all-Roused (wake P e v) ws w (wake-Roused e v w r)

  wake_all_own :
      (e : Executor P F O) (ws : List Waker) (w : Waker)
      → has w ws ≡ true
      → Roused (wake_all P e ws) w
  unfolding wake_all
  wake_all_own e [] w h = absurd (ground (arith, h))
  wake_all_own e (v ∷ ws) w h = elim (Bool-cases (v == w)) [
    | inl same ↦
        wake_all-Roused (wake P e v) ws w
          (subst (λ x. Roused (wake P e v) x) ((==_iff v w).0 same) (wake_own e v))
    | inr other ↦ wake_all_own (wake P e v) ws w (ground (arith, h, other))
  ]

  pub wake_all-Woken :
      (e : Executor P F O) (ws : List Waker) (w : Waker)
      → IsQueued P e
      → has w ws ≡ true
      → Woken (wake_all P e ws) w
  wake_all-Woken e ws w v h =
      Roused-Woken (wake_all P e ws) w (wake_all-IsQueued P e ws v) (wake_all_own e ws w h)

  -- A park without an error wakes all that it yields.
  pub parked-Woken :
      (poll : F → Waker → Code P.State F O (Poll O × F)) (e : Executor P F O)
      (parked_with : P.State × List Waker × IoResult (Unit {0})) (w : Waker)
      → IsQueued P e
      → parked_with.2 ≡ success tt
      → has w parked_with.1 ≡ true
      → (e' : Executor P F O) × (parked P poll e parked_with ≡ ok e')
        × (e'.parker ≡ parked_with.0)
        × Woken e' w
  unfolding parked
  parked-Woken poll e (p, ws, success u) w v fine h =
      let e' : Executor P F O = record e { parker = p } in
      (
        wake_all P e' ws,
        refl,
        wake_all-parker P e' ws,
        wake_all-Woken e' ws w
            (record { distinct = v.distinct; known = v.known; stands = v.stands }) h,
      )
  parked-Woken poll e (p, ws, failure err) w v fine h = absurd (ground (arith, fine))
