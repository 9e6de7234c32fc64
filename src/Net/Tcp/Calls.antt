-- ===== src/Net/Tcp/Calls.antt =====
-- The calls on a stream, among the polls of the reactor. Those of a listener for its address and
-- its time to live are the ones of the stream.
pub mod Histories
use platoon.Base.{
  ℕ, ◌+◌, Bool, Option, List, [], ◌∷◌, ◌++◌, Outcome, ◌>>=◌, or_panic, ok, Poll, Waker, IoResult,
  ready, pending, success, failure,
}
use platoon.Slab.{Slab}
use platoon.Sys.{Poller}
use platoon.Sys.Connect.{Sockets}
use platoon.Runtime.Reactor
use platoon.Runtime.Reactor.{Source, Reactor}
use platoon.Net.{Async}
use platoon.Net.Tcp.{
  peek, poll_peek, poll_read, poll_read_vectored, poll_write, poll_write_vectored, poll_flush,
  poll_close,
}

module _ (N : Sockets) where
  open N use {World, Address}

  -- The socket of the `Async` is asked.
  pub local_addr : World → Async → Outcome (World × IoResult Address)
  local_addr w a = do sys ← or_panic a.sys; ok (N.local_addr w sys)

  pub peer_addr : World → Async → Outcome (World × IoResult Address)
  peer_addr w a = do sys ← or_panic a.sys; ok (N.peer_addr w sys)

  pub nodelay : World → Async → Outcome (World × IoResult Bool)
  nodelay w a = do sys ← or_panic a.sys; ok (N.nodelay w sys)

  pub set_nodelay : World → Async → Bool → Outcome (World × IoResult (Unit {0}))
  set_nodelay w a on = do sys ← or_panic a.sys; ok (N.set_nodelay w sys on)

  pub ttl : World → Async → Outcome (World × IoResult ℕ)
  ttl w a = do sys ← or_panic a.sys; ok (N.ttl w sys)

  pub set_ttl : World → Async → ℕ → Outcome (World × IoResult (Unit {0}))
  set_ttl w a hops = do sys ← or_panic a.sys; ok (N.set_ttl w sys hops)

-- What may happen while a stream is there; a future of `peek` waits or is new.
pub data Call : Type 0 where
  peeks : Waker → Call
  peeks_future : Bool → Waker → Call
  reads : Waker → Call
  reads_vectored : Waker → Call
  writes : Waker → Call
  writes_vectored : Waker → Call
  flushes : Waker → Call
  closes : Call
  asks_local_addr : Call
  asks_peer_addr : Call
  asks_nodelay : Call
  sets_nodelay : Bool → Call
  asks_ttl : Call
  sets_ttl : ℕ → Call
  polls_system : Option ℕ → Call

module _ (P : Poller) (S : Slab Source) (N : Sockets) where
  open N use {World}

  abbrev pub After : Type 0
  After = Outcome (Reactor P S × World × List Waker)

  -- The state that a call leaves.
  abbrev pub moved :
      {R : Type 0} → Outcome (Reactor P S × World × List Waker × Poll (IoResult R)) → After
  moved called = do (r, w, ws, _) ← called; ok (r, w, ws)

  abbrev pub asked : {R : Type 0} → Reactor P S → Outcome (World × IoResult R) → After
  asked r called = do (w, _) ← called; ok (r, w, [])

  module _ (fuel : ℕ) (a : Async) where
    pub step : Reactor P S → World → ℕ → Call → After
    step r w sys (peeks cx) = moved (poll_peek P S N fuel r a sys w cx)
    step r w sys (peeks_future waits cx) = moved (peek P S N fuel r a sys w cx waits)
    step r w sys (reads cx) = moved (poll_read P S N fuel r a sys w cx)
    step r w sys (reads_vectored cx) = moved (poll_read_vectored P S N fuel r a sys w cx)
    step r w sys (writes cx) = moved (poll_write P S N fuel r a sys w cx)
    step r w sys (writes_vectored cx) = moved (poll_write_vectored P S N fuel r a sys w cx)
    step r w sys (flushes cx) = moved (poll_flush P S N fuel r a sys w cx)
    step r w sys closes = let (w', _) = poll_close P S N w sys in ok (r, w', [])
    step r w sys asks_local_addr = asked r (local_addr N w a)
    step r w sys asks_peer_addr = asked r (peer_addr N w a)
    step r w sys asks_nodelay = asked r (nodelay N w a)
    step r w sys (sets_nodelay on) = asked r (set_nodelay N w a on)
    step r w sys asks_ttl = asked r (ttl N w a)
    step r w sys (sets_ttl hops) = asked r (set_ttl N w a hops)
    step r w sys (polls_system timeout) =
        let (r', ws, _) = Reactor.poll P S r timeout in ok (r', w, ws)

    -- One call after the other, with those whom they wake in order.
    pub run : Reactor P S → World → ℕ → List Call → After
    run r w sys [] = ok (r, w, [])
    run r w sys (c ∷ cs) = do
      (r', w', ws) ← step r w sys c
      (r'', w'', more) ← run r' w' sys cs
      ok (r'', w'', ws ++ more)
