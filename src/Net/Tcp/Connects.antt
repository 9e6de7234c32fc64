-- ===== src/Net/Tcp/Connects.antt =====
-- A stream that connects is pending with its waiter registered, or done with its source, or leaves
-- no source behind.
use platoon.Base.{
  ℕ, ◌≡◌, refl, ◌⊎◌, inl, inr, subst, Bool, Option, none, some, List, [], Outcome, ok, Poll, Waker,
  IoError, IoResult, ready, pending, success, failure,
}
use platoon.Slab.{Slab}
use platoon.Sys.{Poller}
use platoon.Sys.Connect
use platoon.Sys.Connect.{Sockets}
use platoon.Runtime.Reactor.{write, interest, Source, Reactor}
use platoon.Runtime.Reactor.Watch.{IsWatched}
use platoon.Runtime.Reactor.Keeps.{remove_source-gone}
use platoon.Runtime.Reactor.Ready.{poll_ready-Readies}
use platoon.Net.{Async, drop_async}
use platoon.Net.Tcp.Adopts.{result_cases, adopt_cases, adopt-IsWatched}
use platoon.Net.Tcp.{
  Connecting, starting, waiting, over, Polled, drop_stream, adopt, give_up, check_error,
  await_writable, poll_connect,
}

module _ (P : Poller) (S : Slab Source) (N : Sockets) where
  -- A source is there, whose writer has this waker.
  abbrev pub Awaits : Reactor P S → ℕ → Waker → Type 0
  Awaits r key cx =
      (s : Source) × (S.get r.sources key ≡ some s) × ((interest s write).poller ≡ some cx)

  -- How a poll of a connect ends, whose source has or would have this key.
  abbrev pub Connects : ℕ → Waker → Outcome (Polled P S N) → Type 0
  Connects key cx result =
      (r : Reactor P S) × (w : N.World) × (ws : List Waker) × (res : Poll (IoResult Async))
      × (next : Connecting N.Address) × (result ≡ ok (r, w, ws, res, next))
      × (((a : Async) × (res ≡ pending)
            × (next ≡ waiting a)
            × (a.id ≡ key)
            × IsWatched P S r
            × Awaits r key cx)
          ⊎ ((a : Async) × (res ≡ ready (success a))
              × (next ≡ over)
              × (a.id ≡ key)
              × IsWatched P S r
              × ((s : Source) × (S.get r.sources key ≡ some s)))
          ⊎ ((err : IoError) × (res ≡ ready (failure err))
              × (next ≡ over)
              × (S.get r.sources key ≡ none)))

  give_up-Connects :
      (r : Reactor P S) (w : N.World) (ws : List Waker) (a : Async) (err : IoError) (cx : Waker)
      (sys : ℕ) (s : Source)
      → a.sys ≡ some sys
      → S.get r.sources a.id ≡ some s
      → Connects a.id cx (give_up P S N r w ws a err)
  unfolding give_up drop_stream drop_async
  give_up-Connects r w ws a err cx sys s has_sys found =
      let (r', res, run, gone) = remove_source-gone P S r a.id s found in
      (
        r',
        N.close w sys,
        ws,
        ready (failure err),
        over,
        rw (has_sys, run),
        inr (inr (err, refl, refl, gone)),
      )

  check_error-Connects :
      (r : Reactor P S) (w : N.World) (ws : List Waker) (a : Async) (cx : Waker) (sys : ℕ)
      (s : Source)
      → a.sys ≡ some sys
      → IsWatched P S r
      → S.get r.sources a.id ≡ some s
      → Connects a.id cx (check_error P S N r w ws a)
  unfolding check_error
  check_error-Connects r w ws a cx sys s has_sys v found =
      rw has_sys (checked (N.take_error w sys).1)
    where
      w' : N.World
      w' = (N.take_error w sys).0

      checked :
          (taken : IoResult (Option IoError))
          → Connects a.id cx (elim taken [
            | failure err ↦ give_up P S N r w' ws a err
            | success none ↦ ok (r, w', ws, ready (success a), over)
            | success (some err) ↦ give_up P S N r w' ws a err
          ])
      checked (failure err) = give_up-Connects r w' ws a err cx sys s has_sys found
      checked (success none) =
          (r, w', ws, ready (success a), over, refl, inr (inl (a, refl, refl, refl, v, (s, found))))
      checked (success (some err)) = give_up-Connects r w' ws a err cx sys s has_sys found

  await_writable-Connects :
      (r : Reactor P S) (w : N.World) (a : Async) (cx : Waker) (sys : ℕ) (s : Source)
      → a.sys ≡ some sys
      → IsWatched P S r
      → S.get r.sources a.id ≡ some s
      → Connects a.id cx (await_writable P S N r w a cx)
  unfolding await_writable
  await_writable-Connects r w a cx sys s has_sys v found =
      let (r', ws, res, s', is, got, ends) = poll_ready-Readies P S r a.id s write cx v found in
      elim ends [
        | inl (done, _, _, v') ↦
            rw (is, done) (check_error-Connects r' w ws a cx sys s' has_sys v' got)
        | inr (inl (waits, _, kept, _, v')) ↦ (
          r',
          w,
          ws,
          pending,
          waiting a,
          rw (is, waits),
          inl (a, refl, refl, refl, v', (s', got, kept)),
        )
        | inr (inr (err, failed)) ↦
            rw (is, failed) (give_up-Connects r' w ws a err cx sys s' has_sys got)
      ]

  -- A future that is not over: the source that it has or will have has this key.
  abbrev pub IsUnder : Reactor P S → Connecting N.Address → ℕ → Type 0
  IsUnder r (starting addr) key = S.vacant_key r.sources ≡ key
  IsUnder r (waiting a) key =
      (a.id ≡ key)
      × ((sys : ℕ) × (a.sys ≡ some sys))
      × ((s : Source) × (S.get r.sources key ≡ some s))
  IsUnder r over key = ⊥

  -- In a reactor where everyone who waits is registered, a poll of the future of
  -- `TcpStream::connect`, new or waiting with its source in the reactor, returns: pending with its
  -- waker kept at its source and everyone who waits registered, or done with the stream whose
  -- source is there and everyone who waits registered, or with an error and no source under its
  -- key.
  pub poll_connect-Connects :
      (typed : Bool) (r : Reactor P S) (w : N.World) (future : Connecting N.Address) (cx : Waker)
      (key : ℕ)
      → IsWatched P S r
      → IsUnder r future key
      → Connects key cx (poll_connect P S N typed r w future cx)
  unfolding poll_connect
  poll_connect-Connects typed r w (starting addr) cx key v vacant =
      let (w', made) = Connect.connect N typed w addr in
      elim (result_cases made) [
        | inr (err, failed) ↦ (
          r,
          w',
          [],
          ready (failure err),
          over,
          rw (failed, poll_connect),
          inr (
              inr (
                err,
                refl,
                refl,
                subst (λ k. S.get r.sources k ≡ none) vacant (S.get-vacant_key r.sources),
              )),
        )
        | inl (sys, fine) ↦
            let (r', w'', adopted) = adopt P S N r w' sys in
            elim (adopt_cases P S N r w' sys) [
              | inl (err, refused, gone) ↦ (
                r',
                w'',
                [],
                ready (failure err),
                over,
                rw (fine, poll_connect, refused),
                inr (inr (err, refl, refl, subst (λ k. S.get r'.sources k ≡ none) vacant gone)),
              )
              | inr (taken_in, (s, found)) ↦
                  let v' = adopt-IsWatched P S N r w' sys v in
                  let a : Async = record { id = S.vacant_key r.sources; sys = some sys } in
                  rw (fine, poll_connect, taken_in)
                    (subst (λ k. Connects k cx (await_writable P S N r' w'' a cx)) vacant
                      (await_writable-Connects r' w'' a cx sys s refl v' found))
            ]
      ]
  poll_connect-Connects typed r w (waiting a) cx key v (same, (sys, has_sys), (s, found)) =
      subst (λ k. Connects k cx (await_writable P S N r w a cx)) same
        (await_writable-Connects r w a cx sys s has_sys v (rw same found))
  poll_connect-Connects typed r w over cx key v under = elim under [ ]
