-- ===== src/Net.antt =====
-- src/net/mod.rs: a source of the reactor with its socket, and the loops that try an operation
-- until it no longer blocks. The operation works on a state of the world, which it returns.
pub mod Loops
pub mod Stays
pub mod Tcp
mod Examples
use platoon.Base.{
  ℕ, zero, suc, ◌+◌, Bool, true, false, Option, none, some, List, [], ◌++◌, if◌then◌else◌, Outcome,
  ◌>>=◌, or_panic, ok, out_of_fuel, Poll, Waker, IoResult, ready, pending, interrupted, would_block,
  other_kind, success, failure,
}
use platoon.Slab.{Slab}
use platoon.Sys.{Poller}
use platoon.Runtime.Reactor.{Direction, Source, Reactor, insert_source, remove_source, poll_ready}

-- The socket is known by its descriptor.
pub record Async : Type 0 where
  pub id : ℕ
  pub sys : Option ℕ

-- `Err(err) if err.kind() == WouldBlock`.
abbrev pub is_blocked : {O : Type 0} → IoResult O → Bool
is_blocked (success o) = false
is_blocked (failure interrupted) = false
is_blocked (failure would_block) = true
is_blocked (failure (other_kind n)) = false

module _ (P : Poller) (S : Slab Source) where
  pub new : Reactor P S → ℕ → Reactor P S × IoResult Async
  new r sys =
      let (r', inserted) = insert_source P S r sys in
      (
        r',
        elim inserted [
          | success id ↦ success (record { id = id; sys = some sys })
          | failure err ↦ failure err
        ],
      )

  -- `impl Drop for Async`.
  pub drop_async : Reactor P S → Async → Outcome (Reactor P S)
  drop_async r a = elim a.sys [
    | none ↦ ok r
    | some _ ↦ (do (r', _) ← remove_source P S r a.id; ok r')
  ]

  -- The rest of the value is dropped on either end, without its socket.
  pub into_sys : Reactor P S → Async → Outcome (Reactor P S × IoResult ℕ)
  into_sys r a = do
    sys ← or_panic a.sys
    (r', removed) ← remove_source P S r a.id
    r'' ← drop_async r' (record a { sys = none })
    ok (r'', elim removed [ success _ ↦ success sys | failure err ↦ failure err ])

  module _ {W O : Type 0} (f : W → W × IoResult O) where
    abbrev pub Attempt : Type 0
    Attempt = Outcome (Reactor P S × W × List Waker × Poll (IoResult O))

    -- The wakers that were woken before come first.
    abbrev pub after_wakes : List Waker → Attempt → Attempt
    after_wakes ws rest = do (r, w, more, result) ← rest; ok (r, w, ws ++ more, result)

    -- What follows a poll for readiness, where `again` is the loop.
    pub on_ready :
        W
        → (Reactor P S → Attempt)
        → Reactor P S × List Waker × Poll (IoResult (Unit {0}))
        → Attempt
    on_ready w again (r, ws, pending) = ok (r, w, ws, pending)
    on_ready w again (r, ws, ready (failure err)) = ok (r, w, ws, ready (failure err))
    on_ready w again (r, ws, ready (success _)) = after_wakes ws (again r)

    pub poll_io : ℕ → Reactor P S → ℕ → Direction → W → Waker → Attempt
    poll_io zero r id d w cx = out_of_fuel
    poll_io (suc fuel) r id d w cx =
        let (w', result) = f w in
        let again : Reactor P S → Attempt = λ r'. poll_io fuel r' id d w' cx in
        if is_blocked result
        then (do polled ← poll_ready P S r id d cx; on_ready w' again polled)
        else ok (r, w', [], ready result)

    -- A poll of the `do_io` future: the first one starts with the operation, and a later one goes
    -- on where it waits, in `poll_fn`.
    pub poll_do_io : ℕ → Bool → Reactor P S → ℕ → Direction → W → Waker → Attempt
    poll_do_io fuel waits r id d w cx =
        if waits
        then (do
          polled ← poll_ready P S r id d cx
          on_ready w (λ r'. poll_io fuel r' id d w cx) polled)
        else poll_io fuel r id d w cx
