-- ===== src/Net/Tcp/Accepts.antt =====
-- A listener that accepts is pending with its waiter registered, or has a stream with its source.
use platoon.Base.{
  ℕ, suc, ◌≡◌, refl, ◌⊎◌, inl, inr, Bool, some, List, ok, Poll, Waker, IoError, IoResult, ready,
  pending, success, failure,
}
use platoon.Slab.{Slab}
use platoon.Sys.{Poller}
use platoon.Sys.Connect.{Sockets}
use platoon.Runtime.Reactor.{read, interest, Source, Reactor}
use platoon.Runtime.Reactor.Watch.{IsWatched}
use platoon.Net.{Async}
use platoon.Net.Loops.{poll_do_io-Finishes}
use platoon.Net.Tcp.{accepted, accept}
use platoon.Net.Tcp.Adopts.{IsOpen, unblocked_cases}

module _ (P : Poller) (S : Slab Source) (N : Sockets) where
  abbrev pub Accepted : Type 0
  Accepted = Reactor P S × N.World × List Waker × Poll (IoResult (Async × N.Address))

  -- How a poll of `accept` ends, on a listener with this key.
  abbrev pub Accepts : ℕ → Waker → Accepted → Type 0
  Accepts key cx (r, w, ws, res) =
      ((res ≡ pending)
        × IsWatched P S r
        × ((s : Source) × (S.get r.sources key ≡ some s) × ((interest s read).poller ≡ some cx)))
      ⊎ ((a : Async) × (addr : N.Address) × (res ≡ ready (success (a, addr))) × IsOpen P S N r a)
      ⊎ ((err : IoError) × (res ≡ ready (failure err)))

  accepted-Accepts :
      (key : ℕ) (cx : Waker) (r : Reactor P S) (w : N.World) (ws : List Waker)
      (x : IoResult (ℕ × N.Address))
      → Accepts key cx (accepted P S N (r, w, ws, ready x))
  unfolding accepted
  accepted-Accepts key cx r w ws (failure err) = inr (inr (err, refl))
  accepted-Accepts key cx r w ws (success (sys, addr)) = elim (unblocked_cases P S N r w sys) [
    | inl (err, failed) ↦ rw (failed, accepted) (inr (inr (err, refl)))
    | inr (a, made, open_now) ↦ rw (made, accepted) (inr (inl (a, addr, refl, open_now)))
  ]

  -- On a listener whose source is in a reactor where everyone who waits is registered, with fuel
  -- for two rounds or more, every poll of `accept`, the first one or a later one, returns: pending
  -- with the waker kept at the source and everyone who waits registered, or with a stream that has
  -- its socket and its source in the reactor, or with an error.
  pub accept-Accepts :
      (fuel : ℕ) (r : Reactor P S) (a : Async) (sys : ℕ) (w : N.World) (cx : Waker) (waits : Bool)
      (s : Source)
      → IsWatched P S r
      → S.get r.sources a.id ≡ some s
      → (result : Accepted) × (accept P S N (suc (suc fuel)) r a sys w cx waits ≡ ok result)
        × Accepts a.id cx result
  unfolding accept accepted
  accept-Accepts fuel r a sys w cx waits s v found =
      let (r', w', ws, res, is, ends) =
        poll_do_io-Finishes P S (N.accept sys) fuel waits r a.id read w cx s v found in
      elim ends [
        | inl (x, done) ↦ (
          accepted P S N (r', w', ws, ready x),
          rw (is, done),
          accepted-Accepts a.id cx r' w' ws x,
        )
        | inr (waiting_now, v', kept) ↦
            ((r', w', ws, pending), rw (is, waiting_now), inl (refl, v', kept))
      ]
