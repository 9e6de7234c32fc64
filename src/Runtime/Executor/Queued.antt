-- ===== src/Runtime/Executor/Queued.antt =====
-- A task stands in the queue once if it is scheduled, and not at all if it is idle.
use platoon.Base.{
  ℕ, zero, suc, ◌≡◌, refl, sym, ◌∙◌, subst, inl, inr, Bool, true, false, none, some, List, [], ◌∷◌,
  ◌++◌, arith, ◌==◌, if◌then◌else◌, ==_iff, Bool-cases, Option-cases, length, has, Distinct,
  has-append, has_ne, append-Distinct, Waker,
}
use platoon.Runtime.Park.{Park}
use platoon.Runtime.Executor.{
  State, scheduled, idle, done, future, Task, Executor, get, put, spawn, set_task, wake_task, wake,
  wake_all,
}

-- Where a task of this state stands.
abbrev pub Stands : State → Bool → Type 0
Stands scheduled queued = queued ≡ true
Stands idle queued = queued ≡ false
Stands done queued = Unit

module _ {A : Type 0} where
  pub get-put :
      (ts : List A) (n k : ℕ) (t u : A)
      → get ts n ≡ some t
      → get (put ts n u) k ≡ (if k == n then some u else get ts k)
  get-put [] n k t u e = ground arith
  get-put (x ∷ ts) zero zero t u e = ground arith
  get-put (x ∷ ts) zero (suc k) t u e = ground arith
  get-put (x ∷ ts) (suc n) zero t u e = ground arith
  get-put (x ∷ ts) (suc n) (suc k) t u e = ground (arith, get-put ts n k t u e)

  pub get-append :
      (ts : List A) (t : A) (k : ℕ)
      → get (ts ++ t ∷ []) k ≡ (if k == length ts then some t else get ts k)
  get-append [] t zero = ground arith
  get-append [] t (suc k) = ground arith
  get-append (x ∷ ts) t zero = ground arith
  get-append (x ∷ ts) t (suc k) = ground (arith, get-append ts t k)

  pub get-length : (ts : List A) → get ts (length ts) ≡ none
  get-length [] = refl
  get-length (x ∷ ts) = get-length ts

module _ (P : Park) {F O : Type 0} where
  -- No task is queued twice, only tasks are queued, and each stands where its state says.
  pub record IsQueued (e : Executor P F O) : Type 0 where
    pub distinct : Distinct e.queue
    pub known : (n : ℕ) → get e.tasks n ≡ none → has n e.queue ≡ false
    pub stands : (n : ℕ) (t : Task F O) → get e.tasks n ≡ some t → Stands t.state (has n e.queue)

  -- A write to a task that leaves its state.
  pub set_task-IsQueued :
      (e : Executor P F O) (n : ℕ) (t u : Task F O)
      → IsQueued e
      → get e.tasks n ≡ some t
      → Stands u.state (has n e.queue)
      → IsQueued (set_task P e n u)
  unfolding set_task
  set_task-IsQueued e n t u v found fits = record {
    distinct = v.distinct;
    known = λ k gone. known k (sym (get-put e.tasks n k t u found) ∙ gone);
    stands = λ k s got. stands k s (sym (get-put e.tasks n k t u found) ∙ got);
  }
    where
      known : (k : ℕ) → (if k == n then some u else get e.tasks k) ≡ none → has k e.queue ≡ false
      known k gone = elim (Bool-cases (k == n)) [
        | inl same ↦ absurd (ground (arith, rw same at gone))
        | inr differ ↦ v.known k (rw differ at gone)
      ]

      stands :
          (k : ℕ) (s : Task F O)
          → (if k == n then some u else get e.tasks k) ≡ some s
          → Stands s.state (has k e.queue)
      stands k s got = elim (Bool-cases (k == n)) [
        | inl same ↦
            let us : u ≡ s = ground (arith, rw same at got) in
            subst (λ x. Stands x.state (has k e.queue)) us (rw ((==_iff k n).0 same) fits)
        | inr differ ↦ v.stands k s (rw differ at got)
      ]

  -- A task that is not queued is queued last, and scheduled.
  push-IsQueued :
      (e : Executor P F O) (n : ℕ) (ts : List (Task F O)) (u : Task F O)
      → IsQueued e
      → has n e.queue ≡ false
      → u.state ≡ scheduled
      → ((k : ℕ) → get ts k ≡ (if k == n then some u else get e.tasks k))
      → IsQueued (record e { queue = e.queue ++ n ∷ []; tasks = ts })
  push-IsQueued e n ts u v absent now look = record {
    distinct =
        append-Distinct e.queue (n ∷ []) v.distinct (refl, tt)
          (λ k h. ground (arith, has_ne n k e.queue absent h));
    known = λ k gone. known k (sym (look k) ∙ gone);
    stands = λ k s got. stands k s (sym (look k) ∙ got);
  }
    where
      known :
          (k : ℕ)
          → (if k == n then some u else get e.tasks k) ≡ none
          → has k (e.queue ++ n ∷ []) ≡ false
      known k gone = elim (Bool-cases (k == n)) [
        | inl same ↦ absurd (ground (arith, rw same at gone))
        | inr differ ↦
            has-append k e.queue (n ∷ []) ∙ ground (arith, differ, v.known k (rw differ at gone))
      ]

      stands :
          (k : ℕ) (s : Task F O)
          → (if k == n then some u else get e.tasks k) ≡ some s
          → Stands s.state (has k (e.queue ++ n ∷ []))
      stands k s got = elim (Bool-cases (k == n)) [
        | inl same ↦
            let is : scheduled ≡ s.state = ground (arith, rw same at got, now) in
            subst (λ st. Stands st (has k (e.queue ++ n ∷ []))) is
              (has-append k e.queue (n ∷ []) ∙ ground (arith, same))
        | inr differ ↦
            let queued : has k e.queue ≡ has k (e.queue ++ n ∷ []) =
              ground (arith, differ, has-append k e.queue (n ∷ [])) in
            subst (Stands s.state) queued (v.stands k s (rw differ at got))
      ]

  pub spawn-IsQueued : (e : Executor P F O) (f : F) → IsQueued e → IsQueued (spawn P e f).0
  unfolding spawn
  spawn-IsQueued e f v =
      push-IsQueued e (length e.tasks) _ _ v (v.known (length e.tasks) (get-length e.tasks)) refl (
        get-append e.tasks
          (record { awaiter = none; state = scheduled; payload = future f; borrowed = false }))

  wake_task-IsQueued :
      (e : Executor P F O) (n : ℕ) (t : Task F O) (s : State)
      → IsQueued e
      → get e.tasks n ≡ some t
      → t.state ≡ s
      → IsQueued (wake_task P e n t)
  unfolding wake_task
  wake_task-IsQueued e n t scheduled v found is = rw (is, wake_task) v
  wake_task-IsQueued e n t done v found is = rw (is, wake_task) v
  wake_task-IsQueued e n t idle v found is =
      rw (is, wake_task)
        (push-IsQueued e n _ (record t { state = scheduled }) v
          (subst (λ s. Stands s (has n e.queue)) is (v.stands n t found)) refl
          (λ k. get-put e.tasks n k t _ found))

  pub wake-IsQueued : (e : Executor P F O) (w : Waker) → IsQueued e → IsQueued (wake P e w)
  unfolding wake
  wake-IsQueued e zero v = record { distinct = v.distinct; known = v.known; stands = v.stands }
  wake-IsQueued e (suc n) v = elim (Option-cases (get e.tasks n)) [
    | inl gone ↦ rw (gone, wake) v
    | inr (t, found) ↦ rw (found, wake) (wake_task-IsQueued e n t t.state v found refl)
  ]

  pub wake_all-IsQueued :
      (e : Executor P F O) (ws : List Waker) → IsQueued e → IsQueued (wake_all P e ws)
  unfolding wake_all
  wake_all-IsQueued e [] v = v
  wake_all-IsQueued e (w ∷ ws) v = wake_all-IsQueued (wake P e w) ws (wake-IsQueued e w v)
