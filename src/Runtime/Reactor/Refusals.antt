-- ===== src/Runtime/Reactor/Refusals.antt =====
-- A poll for readiness that the poller refuses.
use platoon.Base.{
  ℕ, ◌≡◌, ap, ◌∙◌, false, none, some, [], ◌∷◌, ==_self, ok, Waker, IoError, ready, pending, failure,
}
use platoon.Slab.{Slab}
use platoon.Sys.{Poller}
use platoon.Runtime.Reactor.{
  Direction, Source, no_interest, interest, with_interest, Reactor, update_interest, register,
  poll_ready,
}
use platoon.Runtime.Reactor.Ready.{interest-with_interest}

module _ (P : Poller) (S : Slab Source) where
  open P use {registered}

  -- The source as it waits for this waker alone.
  abbrev pub awaited : Source → Direction → Waker → Source
  awaited s d cx = with_interest s d (record { poller = some cx; woke = false })

  refused_same :
      (p : P.State) (key : ℕ) (s : Source) (err : IoError) (k : ℕ)
      → (update_interest P S p key s).1 ≡ failure err
      → registered (update_interest P S p key s).0 k ≡ registered p k
  unfolding update_interest
  refused_same p key s err k refused = P.update-refused p s.raw _ err k refused

  -- On a source that nobody waits for in this direction and that was not reported, where the
  -- poller refuses the registration of a waiter, a poll for readiness fails with that error, and
  -- the next one is pending and wakes the waiter of the first, although the system has registered
  -- what it had before both.
  pub refused-repolled :
      (r : Reactor P S) (key : ℕ) (s : Source) (d : Direction) (cx cx' : Waker) (err : IoError)
      → S.get r.sources key ≡ some s
      → interest s d ≡ no_interest
      → (update_interest P S r.poller key (awaited s d cx)).1 ≡ failure err
      → (r' : Reactor P S) × (r'' : Reactor P S) × (poll_ready P S r key d cx
          ≡ ok (r', [], ready (failure err)))
        × (poll_ready P S r' key d cx' ≡ ok (r'', cx ∷ [], pending))
        × ((k : ℕ) → registered r''.poller k ≡ registered r.poller k)
  unfolding poll_ready register
  refused-repolled r key s d cx cx' err found idle refused =
      let got : S.get (S.set r.sources key (awaited s d cx)) key ≡ some (awaited s d cx) =
        S.get-set r.sources key s (awaited s d cx) key found ∙ rw (==_self key) in
      let kept = interest-with_interest P S s d (record { poller = some cx; woke = false }) in
      let r' : Reactor P S = record {
        poller = (update_interest P S r.poller key (awaited s d cx)).0;
        sources = S.set r.sources key (awaited s d cx);
      } in
      let registers : poll_ready P S r key d cx ≡ ok (register P S r key (awaited s d cx) none) =
        rw (found, idle) in
      let fails : register P S r key (awaited s d cx) none ≡ (r', [], ready (failure err)) =
        rw (refused, register) in
      (
        r',
        record {
          poller = (update_interest P S r.poller key (awaited s d cx)).0;
          sources =
              S.set (S.set r.sources key (awaited s d cx)) key (awaited (awaited s d cx) d cx');
        },
        registers ∙ ap ok fails,
        rw (got, kept),
        λ k. refused_same r.poller key (awaited s d cx) err k refused,
      )
