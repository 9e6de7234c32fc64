-- ===== src/Runtime/Reactor.antt =====
-- src/runtime/reactor.rs: the sources of readiness events, their two interests, and the dispatch
-- of what the poller reports. A call returns the wakers that it woke, or that it appends to the
-- list of its caller, oldest first.
pub mod Watch
pub mod Keeps
pub mod Ready
pub mod Stores
pub mod Refusals
pub mod Fires
pub mod Reports
pub mod Examples
use platoon.Base.{
  ℕ, ◌+◌, Bool, true, false, ◌||◌, Option, none, some, List, [], ◌∷◌, ◌++◌, if◌then◌else◌, is_some,
  Outcome, ◌>>=◌, or_panic, ok, Poll, Waker, IoError, IoResult, ready, pending, interrupted,
  would_block, other_kind, success, failure,
}
use platoon.Slab.{Slab}
use platoon.Sys.{Event, Poller}
use platoon.Runtime.Park.{Park}

pub data Direction : Type 0 where
  read : Direction
  write : Direction

pub record Interest : Type 0 where
  pub poller : Option Waker
  pub woke : Bool

pub record Source : Type 0 where
  pub raw : ℕ
  pub reader : Interest
  pub writer : Interest

abbrev pub no_interest : Interest
no_interest = record { poller = none; woke = false }

unfoldable pub has_poller : Interest → Bool
has_poller i = is_some i.poller

-- `Interest::take`: the interest without its waker, and the waker.
unfoldable pub take : Interest → Interest × List Waker
take i =
    (record { poller = none; woke = true }, elim i.poller [ none ↦ [] | some waker ↦ waker ∷ [] ])

unfoldable pub interest : Source → Direction → Interest
interest s read = s.reader
interest s write = s.writer

-- A write through the reference that `Source::interest` returns.
unfoldable pub with_interest : Source → Direction → Interest → Source
with_interest s read i = record s { reader = i }
with_interest s write i = record s { writer = i }

pub record Reactor (P : Poller) (S : Slab Source) : Type 0 where
  pub poller : P.State
  pub sources : S.Store

module _ (P : Poller) (S : Slab Source) where
  -- `Reactor::new`, on a poller that the system gave.
  unfoldable pub new : P.State → Reactor P S
  new p = record { poller = p; sources = S.empty }

  pub insert_source : Reactor P S → ℕ → Reactor P S × IoResult ℕ
  insert_source r raw =
      let key = S.vacant_key r.sources in
      let (p, added) =
        P.add r.poller raw (record { key = key; readable = false; writable = false }) in
      elim added [
        | failure err ↦ (record r { poller = p }, failure err)
        | success _ ↦
            let source : Source = record {
              raw = raw;
              reader = no_interest;
              writer = no_interest;
            } in
            (record { poller = p; sources = (S.insert r.sources source).1 }, success key)
      ]

  pub remove_source : Reactor P S → ℕ → Outcome (Reactor P S × IoResult (Unit {0}))
  remove_source r key = do
    source ← or_panic (S.get r.sources key)
    let (p, deleted) = P.delete r.poller source.raw
    ok (record { poller = p; sources = S.remove r.sources key }, deleted)

  unfoldable pub update_interest : P.State → ℕ → Source → P.State × IoResult (Unit {0})
  update_interest p key s =
      P.update p s.raw
        (record { key = key; readable = has_poller s.reader; writable = has_poller s.writer })

  -- The part of `poll_ready` behind the test of `woke`, with the source that has the new waker.
  unfoldable pub register :
      Reactor P S
      → ℕ
      → Source
      → Option Waker
      → Reactor P S × List Waker × Poll (IoResult (Unit {0}))
  register r key s (some waker) =
      (record r { sources = S.set r.sources key s }, waker ∷ [], pending)
  register r key s none =
      let (p, updated) = update_interest r.poller key s in
      let r' : Reactor P S = record { poller = p; sources = S.set r.sources key s } in
      elim updated [ success _ ↦ (r', [], pending) | failure err ↦ (r', [], ready (failure err)) ]

  unfoldable pub poll_ready :
      Reactor P S
      → ℕ
      → Direction
      → Waker
      → Outcome (Reactor P S × List Waker × Poll (IoResult (Unit {0})))
  poll_ready r key direction cx = do
    s ← or_panic (S.get r.sources key)
    let i = interest s direction
    ok (
        if i.woke
        then (
          record r {
            sources = S.set r.sources key (with_interest s direction (record i { woke = false }));
          },
          [],
          ready (success tt),
        )
        else register r key (with_interest s direction (record i { poller = some cx })) i.poller)

  -- What an event does to its source, and whom it wakes.
  unfoldable pub fire : Event → Source → Source × List Waker
  fire e s =
      let (reader, readers) = if e.readable then take s.reader else (s.reader, []) in
      let (writer, writers) = if e.writable then take s.writer else (s.writer, []) in
      (record s { reader = reader; writer = writer }, readers ++ writers)

  -- A source that someone still waits for is armed again.
  unfoldable pub rearm : P.State → ℕ → Source → P.State × IoResult (Unit {0})
  rearm p key s =
      if has_poller s.reader || has_poller s.writer
      then update_interest p key s
      else (p, success tt)

  -- The loop over the events, which the first error ends.
  unfoldable pub dispatch :
      List Event → Reactor P S → Reactor P S × List Waker × IoResult (Unit {0})
  dispatch [] r = (r, [], success tt)
  dispatch (e ∷ es) r = elim (S.get r.sources e.key) [
    | none ↦ dispatch es r
    | some s ↦
        let (s', woken) = fire e s in
        let (p, armed) = rearm r.poller e.key s' in
        let r' : Reactor P S = record { poller = p; sources = S.set r.sources e.key s' } in
        let (r'', more, result) = dispatch es r' in
        elim armed [
          | failure err ↦ (r', woken, failure err)
          | success _ ↦ (r'', woken ++ more, result)
        ]
  ]

  -- An interrupted poll is no error.
  pub after_failure : IoError → IoResult (Unit {0})
  after_failure interrupted = success tt
  after_failure would_block = failure would_block
  after_failure (other_kind n) = failure (other_kind n)

  unfoldable pub poll : Reactor P S → Option ℕ → Reactor P S × List Waker × IoResult (Unit {0})
  poll r timeout =
      let (p, polled) = P.poll r.poller timeout in
      elim polled [
        | success events ↦ dispatch events (record r { poller = p })
        | failure err ↦ (record r { poller = p }, [], after_failure err)
      ]

-- `impl Park for Reactor`.
abbrev pub reactor_park : Poller → Slab Source → Park
reactor_park P S = record {
  State = Reactor P S;
  park = λ r. poll P S r none;
  park_timeout = λ r duration. poll P S r (some duration);
}
