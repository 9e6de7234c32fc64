-- ===== src/Net/Tcp/Calls/Histories.antt =====
-- A stream through its calls and the polls of the reactor, and its drop.
use platoon.Base.{ℕ, suc, ◌≡◌, refl, none, some, List, [], ◌∷◌, ◌++◌, ok, Waker, IoResult}
use platoon.Slab.{Slab}
use platoon.Sys.{Poller}
use platoon.Sys.Connect.{Sockets}
use platoon.Runtime.Reactor.{Direction, read, write, Source, Reactor}
use platoon.Runtime.Reactor
use platoon.Runtime.Reactor.Stores.{IsThere, poll-IsThere}
use platoon.Runtime.Reactor.Keeps.{remove_source-gone}
use platoon.Net.{Async, drop_async, poll_io}
use platoon.Net.Stays.{poll_io-Stays, poll_do_io-Stays}
use platoon.Net.Tcp.{
  peek, poll_peek, poll_read, poll_read_vectored, poll_write, poll_write_vectored, poll_flush,
  poll_close, drop_stream,
}
use platoon.Net.Tcp.Calls.{
  local_addr, peer_addr, nodelay, set_nodelay, ttl, set_ttl, Call, peeks, peeks_future, reads,
  reads_vectored, writes, writes_vectored, flushes, closes, asks_local_addr, asks_peer_addr,
  asks_nodelay, sets_nodelay, asks_ttl, sets_ttl, polls_system, After, moved, step, run,
}

module _ (P : Poller) (S : Slab Source) (N : Sockets) where
  -- The calls returned, and the source is there.
  abbrev pub Leaves : ℕ → After P S N → Type 0
  Leaves key result =
      (r : Reactor P S) × (w : N.World) × (ws : List Waker) × (result ≡ ok (r, w, ws))
      × IsThere P S r key

  module _ (fuel : ℕ) (a : Async) (sys : ℕ) (has_sys : a.sys ≡ some sys) where
    poll_io-Leaves :
        {R : Type 0} (f : N.World → N.World × IoResult R) (r : Reactor P S) (w : N.World)
        (d : Direction) (cx : Waker)
        → IsThere P S r a.id
        → Leaves a.id (moved P S N (poll_io P S f (suc (suc fuel)) r a.id d w cx))
    poll_io-Leaves f r w d cx t =
        let (r', w', ws, res, is, t') = poll_io-Stays P S f fuel r a.id d w cx t in
        (r', w', ws, rw is, t')

    step-Leaves :
        (r : Reactor P S) (w : N.World) (c : Call)
        → IsThere P S r a.id
        → Leaves a.id (step P S N (suc (suc fuel)) a r w sys c)
    unfolding step peek poll_peek poll_read poll_read_vectored poll_write poll_write_vectored
        poll_flush poll_close local_addr peer_addr nodelay set_nodelay ttl set_ttl
    step-Leaves r w (peeks cx) t = poll_io-Leaves (N.peek sys) r w read cx t
    step-Leaves r w (peeks_future waits cx) t =
        let (r', w', ws, res, is, t') =
          poll_do_io-Stays P S (N.peek sys) fuel waits r a.id read w cx t in
        (r', w', ws, rw is, t')
    step-Leaves r w (reads cx) t = poll_io-Leaves (N.read_bytes sys) r w read cx t
    step-Leaves r w (reads_vectored cx) t = poll_io-Leaves (N.read_vectored sys) r w read cx t
    step-Leaves r w (writes cx) t = poll_io-Leaves (N.write_bytes sys) r w write cx t
    step-Leaves r w (writes_vectored cx) t = poll_io-Leaves (N.write_vectored sys) r w write cx t
    step-Leaves r w (flushes cx) t = poll_io-Leaves (N.flush sys) r w write cx t
    step-Leaves r w closes t = (r, (N.shutdown_write w sys).0, [], refl, t)
    step-Leaves r w asks_local_addr t = (r, (N.local_addr w sys).0, [], rw has_sys, t)
    step-Leaves r w asks_peer_addr t = (r, (N.peer_addr w sys).0, [], rw has_sys, t)
    step-Leaves r w asks_nodelay t = (r, (N.nodelay w sys).0, [], rw has_sys, t)
    step-Leaves r w (sets_nodelay on) t = (r, (N.set_nodelay w sys on).0, [], rw has_sys, t)
    step-Leaves r w asks_ttl t = (r, (N.ttl w sys).0, [], rw has_sys, t)
    step-Leaves r w (sets_ttl hops) t = (r, (N.set_ttl w sys hops).0, [], rw has_sys, t)
    step-Leaves r w (polls_system timeout) t =
        let (r', ws, _) = Reactor.poll P S r timeout in
        (r', w, ws, refl, poll-IsThere P S r timeout a.id t)

    run-Leaves :
        (r : Reactor P S) (w : N.World) (cs : List Call)
        → IsThere P S r a.id
        → Leaves a.id (run P S N (suc (suc fuel)) a r w sys cs)
    unfolding run
    run-Leaves r w [] t = (r, w, [], refl, t)
    run-Leaves r w (c ∷ cs) t =
        let (r', w', ws, is, t') = step-Leaves r w c t in
        let (r'', w'', more, after, t'') = run-Leaves r' w' cs t' in
        (r'', w'', ws ++ more, rw (is, after), t'')

  -- The calls returned with the source there, and a drop then removes it and closes the socket.
  abbrev pub Ends : Async → ℕ → After P S N → Type 0
  Ends a sys result =
      (r : Reactor P S) × (w : N.World) × (ws : List Waker) × (r' : Reactor P S) × (result
        ≡ ok (r, w, ws))
      × IsThere P S r a.id
      × (drop_stream P S N r w a ≡ ok (r', N.close w sys))
      × (S.get r'.sources a.id ≡ none)

  -- Any history of calls on a stream that has its socket and its source in the reactor, among
  -- polls of the system, returns without a panic, with fuel for two rounds or more in each call,
  -- whatever the sockets and the poller answer; the source is still there, and a drop of the
  -- stream then returns, with the source gone and the socket closed.
  pub run-Ends :
      (fuel : ℕ) (a : Async) (sys : ℕ) (r : Reactor P S) (w : N.World) (cs : List Call)
      → a.sys ≡ some sys
      → IsThere P S r a.id
      → Ends a sys (run P S N (suc (suc fuel)) a r w sys cs)
  unfolding drop_stream drop_async
  run-Ends fuel a sys r w cs has_sys t =
      let (r', w', ws, is, (s, found)) = run-Leaves fuel a sys has_sys r w cs t in
      let (r'', res, removed, gone) = remove_source-gone P S r' a.id s found in
      (r', w', ws, r'', is, (s, found), rw (has_sys, removed), gone)
