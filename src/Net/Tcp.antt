-- ===== src/Net/Tcp.antt =====
-- src/net/tcp.rs: the listener and the stream, each an `Async` of its socket. An `async fn` is the
-- polls of its future. All calls are made in a runtime, where `Runtime::unwrap_current` returns.
pub mod Adopts
pub mod Std
pub mod Connects
pub mod Accepts
pub mod Calls
mod Examples
use platoon.Base.{
  ℕ, Bool, true, false, Option, none, some, List, [], Outcome, ◌>>=◌, or_panic, ok, panic, Poll,
  Waker, IoError, IoResult, ready, pending, success, failure,
}
use platoon.Slab.{Slab}
use platoon.Sys.{Poller}
use platoon.Sys.Connect
use platoon.Sys.Connect.{Sockets}
use platoon.Runtime.Reactor.{read, write, Source, Reactor, poll_ready}
use platoon.Net
use platoon.Net.{Async, drop_async, into_sys, poll_io, poll_do_io}

-- The future of `TcpStream::connect`: not polled yet, waiting until the socket is writable, or over.
pub data Connecting (A : Type 0) : Type 0 where
  starting : A → Connecting A
  waiting : Async → Connecting A
  over : Connecting A

module _ (P : Poller) (S : Slab Source) (N : Sockets) where
  open N use {World, Address, set_nonblocking, take_error, close, shutdown_write}

  abbrev pub Polled : Type 0
  Polled = Reactor P S × World × List Waker × Poll (IoResult Async) × Connecting Address

  -- The drop of a stream or listener: its source goes, then its socket.
  pub drop_stream : Reactor P S → World → Async → Outcome (Reactor P S × World)
  drop_stream r w a = do sys ← or_panic a.sys; r' ← drop_async P S r a; ok (r', close w sys)

  -- The socket is dropped where the reactor refuses it.
  pub adopt : Reactor P S → World → ℕ → Reactor P S × World × IoResult Async
  adopt r w sys =
      let (r', made) = Net.new P S r sys in
      elim made [ success a ↦ (r', w, success a) | failure err ↦ (r', close w sys, failure err) ]

  -- `set_nonblocking` and `Async::new`.
  pub unblocked : Reactor P S → World → ℕ → Reactor P S × World × IoResult Async
  unblocked r w sys =
      let (w', set) = set_nonblocking w sys in
      elim set [ failure err ↦ (r, close w' sys, failure err) | success _ ↦ adopt r w' sys ]

  -- Of the macro `from_into_std`.
  pub from_std : Reactor P S → World → ℕ → Reactor P S × World × IoResult Async
  from_std r w listener = adopt r w listener

  -- A socket that the reactor does not give back is dropped.
  pub into_std : Reactor P S → World → Async → Outcome (Reactor P S × World × IoResult ℕ)
  into_std r w a = do
    sys ← or_panic a.sys
    (r', result) ← into_sys P S r a
    ok (elim result [
      | success socket ↦ (r', w, success socket)
      | failure err ↦ (r', close w sys, failure err)
    ])

  -- `TcpListener::bind`, which has nothing to wait for.
  pub bind : Reactor P S → World → Address → Reactor P S × World × IoResult Async
  bind r w addr =
      let (w', bound) = N.bind w addr in
      elim bound [ failure err ↦ (r, w', failure err) | success sys ↦ unblocked r w' sys ]

  -- What `accept` and `poll_accept` make of what the operation yields.
  pub accepted :
      Reactor P S × World × List Waker × Poll (IoResult (ℕ × Address))
      → Reactor P S × World × List Waker × Poll (IoResult (Async × Address))
  accepted (r, w, ws, pending) = (r, w, ws, pending)
  accepted (r, w, ws, ready (failure err)) = (r, w, ws, ready (failure err))
  accepted (r, w, ws, ready (success (sys, addr))) =
      let (r', w', made) = unblocked r w sys in
      elim made [
        | failure err ↦ (r', w', ws, ready (failure err))
        | success a ↦ (r', w', ws, ready (success (a, addr)))
      ]

  module _ (fuel : ℕ) (r : Reactor P S) (a : Async) (sys : ℕ) (w : World) (cx : Waker) where
    abbrev pub Listening : Type 0
    Listening = Outcome (Reactor P S × World × List Waker × Poll (IoResult (Async × Address)))

    pub poll_accept : Listening
    poll_accept = do polled ← poll_io P S (N.accept sys) fuel r a.id read w cx; ok (accepted polled)

    -- A poll of the future of `accept`, which waits or is new.
    pub accept : Bool → Listening
    accept waits = do
      polled ← poll_do_io P S (N.accept sys) fuel waits r a.id read w cx
      ok (accepted polled)

    abbrev pub Moving : Type 0
    Moving = Outcome (Reactor P S × World × List Waker × Poll (IoResult ℕ))

    pub poll_peek : Moving
    poll_peek = poll_io P S (N.peek sys) fuel r a.id read w cx

    pub peek : Bool → Moving
    peek waits = poll_do_io P S (N.peek sys) fuel waits r a.id read w cx

    -- `AsyncRead` and `AsyncWrite`.
    pub poll_read : Moving
    poll_read = poll_io P S (N.read_bytes sys) fuel r a.id read w cx

    pub poll_write : Moving
    poll_write = poll_io P S (N.write_bytes sys) fuel r a.id write w cx

    pub poll_read_vectored : Moving
    poll_read_vectored = poll_io P S (N.read_vectored sys) fuel r a.id read w cx

    pub poll_write_vectored : Moving
    poll_write_vectored = poll_io P S (N.write_vectored sys) fuel r a.id write w cx

    pub poll_flush : Outcome (Reactor P S × World × List Waker × Poll (IoResult (Unit {0})))
    poll_flush = poll_io P S (N.flush sys) fuel r a.id write w cx

  -- It shuts the socket down for writes, at once.
  pub poll_close : World → ℕ → World × Poll (IoResult (Unit {0}))
  poll_close w sys = let (w', result) = shutdown_write w sys in (w', ready result)

  -- The stream is dropped by an error.
  pub give_up : Reactor P S → World → List Waker → Async → IoError → Outcome Polled
  give_up r w ws a err = do (r', w') ← drop_stream r w a; ok (r', w', ws, ready (failure err), over)

  -- The socket is writable: it is connected, or has an error.
  pub check_error : Reactor P S → World → List Waker → Async → Outcome Polled
  check_error r w ws a = do
    sys ← or_panic a.sys
    let (w', taken) = take_error w sys
    elim taken [
      | failure err ↦ give_up r w' ws a err
      | success none ↦ ok (r, w', ws, ready (success a), over)
      | success (some err) ↦ give_up r w' ws a err
    ]

  pub await_writable : Reactor P S → World → Async → Waker → Outcome Polled
  await_writable r w a cx = do
    (r', ws, result) ← poll_ready P S r a.id write cx
    elim result [
      | pending ↦ ok (r', w, ws, pending, waiting a)
      | ready (failure err) ↦ give_up r' w ws a err
      | ready (success _) ↦ check_error r' w ws a
    ]

  -- A poll of the future of `TcpStream::connect`.
  pub poll_connect : Bool → Reactor P S → World → Connecting Address → Waker → Outcome Polled
  poll_connect typed r w (starting addr) cx =
      let (w', made) = Connect.connect N typed w addr in
      elim made [
        | failure err ↦ ok (r, w', [], ready (failure err), over)
        | success sys ↦
            (let (r', w'', adopted) = adopt r w' sys in
              elim adopted [
                | failure err ↦ ok (r', w'', [], ready (failure err), over)
                | success a ↦ await_writable r' w'' a cx
              ])
      ]
  poll_connect typed r w (waiting a) cx = await_writable r w a cx
  -- An `async fn` that is over panics.
  poll_connect typed r w over cx = panic
