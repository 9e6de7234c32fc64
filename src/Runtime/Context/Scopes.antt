-- ===== src/Runtime/Context/Scopes.antt =====
-- Guards that nest give each block the runtime of the innermost `enter` around it.
use platoon.Base.{
  ℕ, zero, suc, ◌≡◌, refl, sym, ap, ◌∙◌, Option, some, List, [], ◌∷◌, ◌++◌, append_assoc,
  append-nil, Poll, ready, pending,
}
use platoon.Runtime.Context.{
  Runtime, Guard, enter, drop_guard, current, Thread, Call, enters, reads, leaves, leave, call,
  calls, Entered, unstarted, entered, finished, await, poll_entered, polls, drop_entered,
}

-- A block of code: it ends, looks at the current runtime, or has a block under a guard.
pub data Block : Type 0 where
  ends : Block
  looks : Block → Block
  scopes : Runtime → Block → Block → Block

-- The calls that the block makes.
abbrev pub calls_of : Block → List Call
calls_of ends = []
calls_of (looks b) = reads ∷ calls_of b
calls_of (scopes runtime inner b) = enters runtime ∷ calls_of inner ++ leaves ∷ calls_of b

-- What lexical scoping says that it sees.
abbrev pub lexical : Option Runtime → Block → List (Option Runtime)
lexical rt ends = []
lexical rt (looks b) = rt ∷ lexical rt b
lexical rt (scopes runtime inner b) = lexical (some runtime) inner ++ lexical rt b

calls-append : (t : Thread) (xs ys : List Call) → calls t (xs ++ ys) ≡ calls (calls t xs) ys
unfolding calls
calls-append t [] ys = refl
calls-append t (x ∷ xs) ys = calls-append (call t x) xs ys

-- The calls of a block of code whose guards nest leave the current runtime and the guards as
-- before, and `current` returns in it what lexical scoping says: the runtime of the innermost
-- `enter` around.
pub calls-lexical :
    (b : Block) (t : Thread) → calls t (calls_of b) ≡ record t { seen = t.seen ++ lexical t.rt b }
unfolding calls call enter leave drop_guard current
calls-lexical ends t = ap (λ s. record t { seen = s }) (sym (append-nil t.seen))
calls-lexical (looks b) t =
    calls-lexical b (call t reads)
    ∙ ap (λ s. record t { seen = s }) (append_assoc t.seen (t.rt ∷ []) (lexical t.rt b))
calls-lexical (scopes runtime inner b) t =
    let within = call t (enters runtime) in
    let saw = t.seen ++ lexical (some runtime) inner in
    calls-append within (calls_of inner) (leaves ∷ calls_of b)
    ∙ ap (λ u. calls u (leaves ∷ calls_of b)) (calls-lexical inner within)
    ∙ calls-lexical b (record t { seen = saw })
    ∙ ap (λ s. record t { seen = s })
        (append_assoc t.seen (lexical (some runtime) inner) (lexical t.rt b))

-- How a future of `block_on` stands to the thread, where this was current before it.
abbrev pub Holds : {F : Type 0} → Runtime → Option Runtime → Entered F → Option Runtime → Type 0
Holds runtime before (unstarted f) rt = rt ≡ before
Holds runtime before (entered guard f) rt = (rt ≡ some runtime) × (guard.old ≡ before)
Holds runtime before finished rt = rt ≡ before

module _ {F O : Type 0} (poll : F → Option Runtime → Option Runtime × Poll O × F) where
  await-Holds :
      (runtime : Runtime) (before : Option Runtime) (guard : Guard) (f : F)
      → ((g : F) → (poll g (some runtime)).0 ≡ some runtime)
      → guard.old ≡ before
      → let (rt, result, e) = await poll guard f (some runtime) in Holds runtime before e rt
  unfolding await drop_guard
  await-Holds runtime before guard f kept is = ended ((poll f (some runtime)).1)
    where
      ended :
          (result : Poll O)
          → let (rt, result', e) : Option Runtime × Poll O × Entered F = (elim result [
            | ready o ↦ (drop_guard (poll f (some runtime)).0 guard, ready o, finished)
            | pending ↦
                ((poll f (some runtime)).0, pending, entered guard (poll f (some runtime)).2)
          ]) in
            Holds runtime before e rt
      ended (ready o) = is
      ended pending = (kept f, is)

  poll_entered-Holds :
      (runtime : Runtime) (before : Option Runtime) (e : Entered F) (rt : Option Runtime)
      → ((g : F) → (poll g (some runtime)).0 ≡ some runtime)
      → Holds runtime before e rt
      → let (rt', result, e') = poll_entered poll runtime e rt in Holds runtime before e' rt'
  unfolding poll_entered enter
  poll_entered-Holds runtime before (unstarted f) rt kept is =
      await-Holds runtime before (record { old = rt }) f kept is
  poll_entered-Holds runtime before (entered guard f) rt kept (is, old) =
      rw is (await-Holds runtime before guard f kept old)
  poll_entered-Holds runtime before finished rt kept is = is

  drop_entered-restores :
      (runtime : Runtime) (before : Option Runtime) (e : Entered F) (rt : Option Runtime)
      → Holds runtime before e rt
      → drop_entered e rt ≡ before
  unfolding drop_entered drop_guard
  drop_entered-restores runtime before (unstarted f) rt is = is
  drop_entered-restores runtime before (entered guard f) rt (is, old) = old
  drop_entered-restores runtime before finished rt is = is

  polls_hold :
      (n : ℕ) (runtime : Runtime) (before : Option Runtime) (e : Entered F) (rt : Option Runtime)
      → ((g : F) → (poll g (some runtime)).0 ≡ some runtime)
      → Holds runtime before e rt
      → Holds runtime before (polls poll n runtime e rt).1 (polls poll n runtime e rt).0
  unfolding polls
  polls_hold zero runtime before e rt kept is = is
  polls_hold (suc n) runtime before e rt kept is =
      let (rt', result, e') = poll_entered poll runtime e rt in
      polls_hold n runtime before e' rt' kept (poll_entered-Holds runtime before e rt kept is)

  -- After any number of polls of the future that `Runtime::block_on` runs, where the polls of the
  -- inner future leave the current runtime as they find it, the runtime is the current one if the
  -- future is under way, and the one from before is current if it is done; a drop puts the one
  -- from before back in every case.
  pub polls-Holds :
      (n : ℕ) (runtime : Runtime) (before : Option Runtime) (f : F)
      → ((g : F) → (poll g (some runtime)).0 ≡ some runtime)
      → let (rt, e) = polls poll n runtime (unstarted f) before in
        Holds runtime before e rt × (drop_entered e rt ≡ before)
  polls-Holds n runtime before f kept =
      let held = polls_hold n runtime before (unstarted f) before kept refl in
      let (rt, e) = polls poll n runtime (unstarted f) before in
      (held, drop_entered-restores runtime before e rt held)
