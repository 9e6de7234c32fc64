-- ===== src/Runtime/Executor/Outputs.antt =====
-- A wake leaves what a task carries.
use platoon.Base.{
  ℕ, zero, suc, ◌≡◌, refl, sym, ap, ◌∙◌, inl, inr, false, Option, some, arith, ◌==◌, ==_iff,
  ==_self, Bool-cases, Option-cases, Waker,
}
use platoon.Runtime.Park.{Park}
use platoon.Runtime.Executor.{
  State, scheduled, idle, done, Payload, Task, Executor, get, set_task, wake_task, wake,
}
use platoon.Runtime.Executor.Queued.{get-put}

module _ (P : Park) {F O : Type 0} where
  abbrev pub unborrowed : Option Waker → State → Payload F O → Task F O
  unborrowed a s p = record { awaiter = a; state = s; payload = p; borrowed = false }

  -- A task with this payload, which no poll has borrowed.
  abbrev pub Carries : Executor P F O → ℕ → Payload F O → Type 0
  Carries e n p = (a : Option Waker) × (s : State) × (get e.tasks n ≡ some (unborrowed a s p))

  -- A wake leaves the payload of every task.
  wake_task-Carries :
      (e : Executor P F O) (n m : ℕ) (u : Task F O) (s : State) (p : Payload F O)
      → get e.tasks m ≡ some u
      → u.state ≡ s
      → Carries e n p
      → Carries (wake_task P e m u) n p
  unfolding wake_task
  wake_task-Carries e n m u scheduled p found_u is c = rw (is, wake_task) c
  wake_task-Carries e n m u done p found_u is c = rw (is, wake_task) c
  wake_task-Carries e n m u idle p found_u is (a, s, found) =
      let look = get-put e.tasks m n u (record u { state = scheduled }) found_u in
      rw (is, wake_task)
        (elim (Bool-cases (n == m)) [
          | inr differ ↦ (a, s, look ∙ rw (differ, found))
          | inl same ↦
              let ut : u ≡ unborrowed a s p =
                ground
                  (arith, sym found_u ∙ ap (get e.tasks) (sym ((==_iff n m).0 same)) ∙ found) in
              (a, scheduled, look ∙ rw (same, ut))
        ])

  pub wake-Carries :
      (e : Executor P F O) (w : Waker) (n : ℕ) (p : Payload F O)
      → Carries e n p
      → Carries (wake P e w) n p
  unfolding wake
  wake-Carries e zero n p c = c
  wake-Carries e (suc m) n p c = elim (Option-cases (get e.tasks m)) [
    | inl gone ↦ rw (gone, wake) c
    | inr (u, found_u) ↦ rw (found_u, wake) (wake_task-Carries e n m u u.state p found_u refl c)
  ]

  pub set_task-Carries :
      (e : Executor P F O) (n : ℕ) (t : Task F O) (a : Option Waker) (s : State) (p : Payload F O)
      → get e.tasks n ≡ some t
      → Carries (set_task P e n (unborrowed a s p)) n p
  unfolding set_task
  set_task-Carries e n t a s p found =
      (a, s, get-put e.tasks n n t (unborrowed a s p) found ∙ rw (==_self n))
