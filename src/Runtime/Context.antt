-- ===== src/Runtime/Context.antt =====
-- src/runtime/mod.rs, the current runtime of a thread: `enter`, whose guard puts the runtime
-- before it back, and the future that `Runtime::block_on` runs, which holds a guard while it is
-- under way. A runtime is a number, since its
-- clones share one state.
pub mod Scopes
mod Examples
use platoon.Base.{
  ℕ, zero, suc, Option, none, some, List, [], ◌∷◌, ◌++◌, Outcome, or_panic, Poll, ready, pending,
}

abbrev pub Runtime : Type 0
Runtime = ℕ

-- `Guard`.
pub record Guard : Type 0 where
  pub old : Option Runtime

-- On the thread-local `RUNTIME`.
pub enter : Option Runtime → Runtime → Option Runtime × Guard
enter rt runtime = (some runtime, record { old = rt })

-- `impl Drop for Guard`: what the thread-local is then.
pub drop_guard : Option Runtime → Guard → Option Runtime
drop_guard rt guard = guard.old

-- `Runtime::current`.
pub current : Option Runtime → Option Runtime
current rt = rt

pub unwrap_current : Option Runtime → Outcome Runtime
unwrap_current rt = or_panic (current rt)

-- The guards that a thread holds, the last one first, and what `current` returned, in order.
pub record Thread : Type 0 where
  pub rt : Option Runtime
  pub guards : List Guard
  pub seen : List (Option Runtime)

pub data Call : Type 0 where
  enters : Runtime → Call
  reads : Call
  leaves : Call

-- The drop of the last guard.
pub leave : Thread → List Guard → Thread
leave t [] = t
leave t (guard ∷ guards) = record t { rt = drop_guard t.rt guard; guards = guards }

pub call : Thread → Call → Thread
call t (enters runtime) =
    let (rt, guard) = enter t.rt runtime in record t { rt = rt; guards = guard ∷ t.guards }
call t reads = record t { seen = t.seen ++ current t.rt ∷ [] }
call t leaves = leave t t.guards

pub calls : Thread → List Call → Thread
calls t [] = t
calls t (c ∷ cs) = calls (call t c) cs

-- The future of `Runtime::block_on`: not polled yet, with its guard, or done.
pub data Entered (F : Type 0) : Type 0 where
  unstarted : F → Entered F
  entered : Guard → F → Entered F
  finished : Entered F

module _ {F O : Type 0} (poll : F → Option Runtime → Option Runtime × Poll O × F) where
  -- `future.await` under the guard, which the end of the block drops.
  pub await : Guard → F → Option Runtime → Option Runtime × Poll O × Entered F
  await guard f rt =
      let (rt', result, f') = poll f rt in
      elim result [
        | ready o ↦ (drop_guard rt' guard, ready o, finished)
        | pending ↦ (rt', pending, entered guard f')
      ]

  pub poll_entered : Runtime → Entered F → Option Runtime → Option Runtime × Poll O × Entered F
  poll_entered runtime (unstarted f) rt = let (rt', guard) = enter rt runtime in await guard f rt'
  poll_entered runtime (entered guard f) rt = await guard f rt
  -- It is not polled again.
  poll_entered runtime finished rt = (rt, pending, finished)

  -- So many polls.
  pub polls : ℕ → Runtime → Entered F → Option Runtime → Option Runtime × Entered F
  polls zero runtime e rt = (rt, e)
  polls (suc n) runtime e rt =
      let (rt', result, e') = poll_entered runtime e rt in polls n runtime e' rt'

-- The drop of the future, under way or not.
pub drop_entered : {F : Type 0} → Entered F → Option Runtime → Option Runtime
drop_entered (unstarted f) rt = rt
drop_entered (entered guard f) rt = drop_guard rt guard
drop_entered finished rt = rt
