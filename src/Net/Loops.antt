-- ===== src/Net/Loops.antt =====
-- The loop around an operation that may block ends, and a caller that is left pending is
-- registered.
use platoon.Base.{
  ℕ, suc, ◌≡◌, refl, ◌⊎◌, inl, inr, Bool, true, false, some, List, [], ◌++◌, arith, Bool-cases,
  ◌>>=◌, ok, Poll, Waker, IoResult, ready, pending, failure,
}
use platoon.Slab.{Slab}
use platoon.Sys.{Poller}
use platoon.Runtime.Reactor.{Direction, Source, Reactor, interest, poll_ready}
use platoon.Runtime.Reactor.Watch.{IsWatched}
use platoon.Runtime.Reactor.Ready.{poll_ready-Readies}
use platoon.Net.{is_blocked, Attempt, after_wakes, on_ready, poll_io, poll_do_io}

module _ (P : Poller) (S : Slab Source) {W O : Type 0} (f : W → W × IoResult O) where
  -- The call returned: with a result, or pending, with the waker kept and everyone registered.
  abbrev pub Finishes : ℕ → Direction → Waker → Attempt P S f → Type 0
  Finishes id d cx result =
      (r : Reactor P S) × (w : W) × (ws : List Waker) × (res : Poll (IoResult O)) × (result
        ≡ ok (r, w, ws, res))
      × (((x : IoResult O) × (res ≡ ready x))
          ⊎ ((res ≡ pending)
              × IsWatched P S r
              × ((s : Source) × (S.get r.sources id ≡ some s) × ((interest s d).poller ≡ some cx))))

  after_wakes-Finishes :
      (ws : List Waker) (id : ℕ) (d : Direction) (cx : Waker) (a : Attempt P S f)
      → Finishes id d cx a
      → Finishes id d cx (after_wakes P S f ws a)
  after_wakes-Finishes ws id d cx a (r, w, more, res, is, ends) =
      (r, w, ws ++ more, res, rw is, ends)

  -- A poll for readiness, where the loop finishes on a source whose report was taken.
  on_ready-Finishes :
      (r : Reactor P S) (id : ℕ) (d : Direction) (cx : Waker) (s : Source) (w : W)
      (again : Reactor P S → Attempt P S f)
      → IsWatched P S r
      → S.get r.sources id ≡ some s
      → ((r' : Reactor P S) (s' : Source)
          → (interest s d).woke ≡ true
          → IsWatched P S r'
          → S.get r'.sources id ≡ some s'
          → (interest s' d).woke ≡ false
          → Finishes id d cx (again r'))
      → Finishes id d cx (poll_ready P S r id d cx >>= on_ready P S f w again)
  unfolding on_ready
  on_ready-Finishes r id d cx s w again v found goes_on =
      let (r', ws, res, s', is, got, ends) = poll_ready-Readies P S r id s d cx v found in
      elim ends [
        | inl (done, woke, asleep, v') ↦
            rw (is, done)
              (after_wakes-Finishes ws id d cx (again r') (goes_on r' s' woke v' got asleep))
        | inr (inl (waits, _, kept, _, v')) ↦
            (r', w, ws, pending, rw (is, waits), inr (refl, v', (s', got, kept)))
        | inr (inr (err, failed)) ↦
            (r', w, ws, ready (failure err), rw (is, failed), inl (failure err, refl))
      ]

  -- A source that was not reported: one round.
  quiet-Finishes :
      (fuel : ℕ) (r : Reactor P S) (id : ℕ) (d : Direction) (w : W) (cx : Waker) (s : Source)
      → IsWatched P S r
      → S.get r.sources id ≡ some s
      → (interest s d).woke ≡ false
      → Finishes id d cx (poll_io P S f (suc fuel) r id d w cx)
  unfolding poll_io
  quiet-Finishes fuel r id d w cx s v found asleep = elim (Bool-cases (is_blocked (f w).1)) [
    | inl blocked ↦
        rw (blocked, poll_io)
          (on_ready-Finishes r id d cx s (f w).0 _ v found
            (λ r' s' woke v' got calm. absurd (ground (arith, asleep, woke))))
    | inr done ↦ (r, (f w).0, [], ready (f w).1, rw (done, poll_io), inl ((f w).1, refl))
  ]

  -- On a source of a reactor where everyone who waits is registered, with fuel for two rounds or
  -- more, `poll_io` returns: with a result, or pending, with the waker kept at the source and
  -- everyone who waits registered.
  pub poll_io-Finishes :
      (fuel : ℕ) (r : Reactor P S) (id : ℕ) (d : Direction) (w : W) (cx : Waker) (s : Source)
      → IsWatched P S r
      → S.get r.sources id ≡ some s
      → Finishes id d cx (poll_io P S f (suc (suc fuel)) r id d w cx)
  unfolding poll_io
  poll_io-Finishes fuel r id d w cx s v found = elim (Bool-cases (is_blocked (f w).1)) [
    | inl blocked ↦
        rw (blocked, poll_io)
          (on_ready-Finishes r id d cx s (f w).0 _ v found
            (λ r' s' woke v' got calm. quiet-Finishes fuel r' id d (f w).0 cx s' v' got calm))
    | inr done ↦ (r, (f w).0, [], ready (f w).1, rw (done, poll_io), inl ((f w).1, refl))
  ]

  -- On a source of a reactor where everyone who waits is registered, with fuel for two rounds or
  -- more, every poll of `do_io`, the first one or a later one, returns: with a result, or pending,
  -- with the waker kept at the source and everyone who waits registered.
  pub poll_do_io-Finishes :
      (fuel : ℕ) (waits : Bool) (r : Reactor P S) (id : ℕ) (d : Direction) (w : W) (cx : Waker)
      (s : Source)
      → IsWatched P S r
      → S.get r.sources id ≡ some s
      → Finishes id d cx (poll_do_io P S f (suc (suc fuel)) waits r id d w cx)
  unfolding poll_do_io
  poll_do_io-Finishes fuel false r id d w cx s v found = poll_io-Finishes fuel r id d w cx s v found
  poll_do_io-Finishes fuel true r id d w cx s v found =
      on_ready-Finishes r id d cx s w _ v found
        (λ r' s' woke v' got calm. quiet-Finishes (suc fuel) r' id d w cx s' v' got calm)
