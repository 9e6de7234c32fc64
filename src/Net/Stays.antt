-- ===== src/Net/Stays.antt =====
-- The loop around an operation that may block ends, and its source stays, whatever the poller
-- answers.
use platoon.Base.{
  ℕ, suc, ◌≡◌, inl, inr, Bool, true, false, some, List, [], ◌++◌, arith, Bool-cases, ◌>>=◌, ok,
  Poll, Waker, IoResult, ready, pending, failure,
}
use platoon.Slab.{Slab}
use platoon.Sys.{Poller}
use platoon.Runtime.Reactor.{Direction, Source, Reactor, interest, poll_ready}
use platoon.Runtime.Reactor.Stores.{IsThere, poll_ready_stores}
use platoon.Net.{is_blocked, Attempt, after_wakes, on_ready, poll_io, poll_do_io}

module _ (P : Poller) (S : Slab Source) {W O : Type 0} (f : W → W × IoResult O) where
  -- The call returned, and the source is there.
  abbrev pub Stays : ℕ → Attempt P S f → Type 0
  Stays id result =
      (r : Reactor P S) × (w : W) × (ws : List Waker) × (res : Poll (IoResult O)) × (result
        ≡ ok (r, w, ws, res))
      × IsThere P S r id

  after_wakes-Stays :
      (ws : List Waker) (id : ℕ) (a : Attempt P S f)
      → Stays id a
      → Stays id (after_wakes P S f ws a)
  after_wakes-Stays ws id a (r, w, more, res, is, t) = (r, w, ws ++ more, res, rw is, t)

  on_ready-Stays :
      (r : Reactor P S) (id : ℕ) (d : Direction) (cx : Waker) (s : Source) (w : W)
      (again : Reactor P S → Attempt P S f)
      → S.get r.sources id ≡ some s
      → ((r' : Reactor P S) (s' : Source)
          → (interest s d).woke ≡ true
          → S.get r'.sources id ≡ some s'
          → (interest s' d).woke ≡ false
          → Stays id (again r'))
      → Stays id (poll_ready P S r id d cx >>= on_ready P S f w again)
  unfolding on_ready
  on_ready-Stays r id d cx s w again found goes_on =
      let (r', ws, res, s', is, got, ends) = poll_ready_stores P S r id s d cx found in
      elim ends [
        | inl (done, woke, asleep) ↦
            rw (is, done) (after_wakes-Stays ws id (again r') (goes_on r' s' woke got asleep))
        | inr (inl waits) ↦ (r', w, ws, pending, rw (is, waits), (s', got))
        | inr (inr (err, failed)) ↦ (r', w, ws, ready (failure err), rw (is, failed), (s', got))
      ]

  -- A source that was not reported: one round.
  quiet-Stays :
      (fuel : ℕ) (r : Reactor P S) (id : ℕ) (d : Direction) (w : W) (cx : Waker) (s : Source)
      → S.get r.sources id ≡ some s
      → (interest s d).woke ≡ false
      → Stays id (poll_io P S f (suc fuel) r id d w cx)
  unfolding poll_io
  quiet-Stays fuel r id d w cx s found asleep = elim (Bool-cases (is_blocked (f w).1)) [
    | inl blocked ↦
        rw (blocked, poll_io)
          (on_ready-Stays r id d cx s (f w).0 _ found
            (λ r' s' woke got calm. absurd (ground (arith, asleep, woke))))
    | inr done ↦ (r, (f w).0, [], ready (f w).1, rw (done, poll_io), (s, found))
  ]

  pub poll_io-Stays :
      (fuel : ℕ) (r : Reactor P S) (id : ℕ) (d : Direction) (w : W) (cx : Waker)
      → IsThere P S r id
      → Stays id (poll_io P S f (suc (suc fuel)) r id d w cx)
  unfolding poll_io
  poll_io-Stays fuel r id d w cx (s, found) = elim (Bool-cases (is_blocked (f w).1)) [
    | inl blocked ↦
        rw (blocked, poll_io)
          (on_ready-Stays r id d cx s (f w).0 _ found
            (λ r' s' woke got calm. quiet-Stays fuel r' id d (f w).0 cx s' got calm))
    | inr done ↦ (r, (f w).0, [], ready (f w).1, rw (done, poll_io), (s, found))
  ]

  pub poll_do_io-Stays :
      (fuel : ℕ) (waits : Bool) (r : Reactor P S) (id : ℕ) (d : Direction) (w : W) (cx : Waker)
      → IsThere P S r id
      → Stays id (poll_do_io P S f (suc (suc fuel)) waits r id d w cx)
  unfolding poll_do_io
  poll_do_io-Stays fuel false r id d w cx t = poll_io-Stays fuel r id d w cx t
  poll_do_io-Stays fuel true r id d w cx (s, found) =
      on_ready-Stays r id d cx s w _ found
        (λ r' s' woke got calm. quiet-Stays (suc fuel) r' id d w cx s' got calm)
