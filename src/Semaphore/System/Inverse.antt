-- ===== src/Semaphore/System/Inverse.antt =====
-- What the calls inside a client's step end in, for components that are built on a semaphore:
-- they make the same calls, and something of their own behind them.
use platoon.Base.{
  ℕ, ◌+◌, ◌≡◌, refl, ap, subst, ◌⊎◌, inl, inr, Bool, true, false, List, ◌∷◌, ◌++◌, arith,
  Bool-cases, Outcome, ◌>>=◌, ok, panic, out_of_fuel, sum, Poll, Waker, ready, pending,
}
use platoon.Slab.{Slab}
use platoon.Semaphore.{Waiter, Inner, Polled, try_acquire, poll_acquire, drop_acquire, drop_permit}
use platoon.Semaphore.Queue.{Queue}
use platoon.Semaphore.System.{
  Future, System, Result, after_poll, poll_future, cancel_future, try_take, release_permit,
}
use platoon.Semaphore.System.Sound.{IsSound, total, Steps}

module _ (S : Slab Waiter) (s : System S) where
  -- The future became ready, and its permit is held.
  abbrev pub Readied : Future → List Future → Waker → Type 0
  Readied u rest cx =
      (p : Polled S) × (i : Inner S) × (more : List Waker) × (q : Queue) × (poll_acquire S s.inner
          u.permits u.state cx
        ≡ ok p)
      × (p.result ≡ ready tt)
      × (drop_acquire S p.inner p.state ≡ ok (i, more))
      × IsSound S (record s { inner = i; futures = rest; held = u.permits ∷ s.held }) q
      × (i.permits + (u.permits + sum s.held) ≡ total S s)

  -- The future waits on.
  abbrev pub Waited : Future → List Future → Waker → Type 0
  Waited u rest cx =
      (p : Polled S) × (q : Queue) × (poll_acquire S s.inner u.permits u.state cx ≡ ok p)
      × (p.result ≡ pending)
      × IsSound S (record s { inner = p.inner; futures = record u { state = p.state } ∷ rest }) q
      × (p.inner.permits + sum s.held ≡ total S s)

  polled-cases :
      (u : Future) (rest : List Future) (cx : Waker) (r : Outcome (Polled S))
      → poll_acquire S s.inner u.permits u.state cx ≡ r
      → Steps S s 0 0 (r >>= after_poll S s u rest)
      → Readied u rest cx ⊎ Waited u rest cx
  unfolding after_poll
  polled-cases u rest cx (ok p) e st = by_result p.result refl st
    where
      after : Poll (Unit {0}) → Result S
      after result = after_poll S s u rest (record p { result = result })

      by_drop :
          (d : Outcome (Inner S × List Waker))
          → p.result ≡ ready tt
          → drop_acquire S p.inner p.state ≡ d
          → Steps S s 0 0 (
              d >>= λ (i, woken).
              ok (
                record s { inner = i; futures = rest; held = u.permits ∷ s.held },
                p.woken ++ woken,
              ))
          → Readied u rest cx
      by_drop (ok (i, more)) result d (s', woken, q, ran, v, kept) =
          let same : s' ≡ record s { inner = i; futures = rest; held = u.permits ∷ s.held } = cc in
          (
            p,
            i,
            more,
            q,
            e,
            result,
            d,
            subst (λ t. IsSound S t q) same v,
            omega (arith, kept, ap (total S) same),
          )
      by_drop panic result d (s', woken, q, ran, v, kept) = cc
      by_drop out_of_fuel result d (s', woken, q, ran, v, kept) = cc

      by_result :
          (result : Poll (Unit {0}))
          → p.result ≡ result
          → Steps S s 0 0 (after result)
          → Readied u rest cx ⊎ Waited u rest cx
      by_result (ready tt) result st = inl (by_drop (drop_acquire S p.inner p.state) result refl st)
      by_result pending result (s', woken, q, ran, v, kept) =
          let waited = record s {
            inner = p.inner;
            futures = record u { state = p.state } ∷ rest;
          } in
          let same : s' ≡ waited = cc in
          inr (
            p,
            q,
            e,
            result,
            subst (λ t. IsSound S t q) same v,
            omega (arith, kept, ap (total S) same),
          )
  polled-cases u rest cx panic e (s', woken, q, ran, v, kept) = cc
  polled-cases u rest cx out_of_fuel e (s', woken, q, ran, v, kept) = cc

  pub poll_future-cases :
      (u : Future) (rest : List Future) (cx : Waker)
      → Steps S s 0 0 (poll_future S s u rest cx)
      → Readied u rest cx ⊎ Waited u rest cx
  unfolding poll_future
  poll_future-cases u rest cx st = polled-cases u rest cx _ refl st

  -- A dropped future leaves nothing behind.
  abbrev pub Dropped : Future → List Future → Type 0
  Dropped u rest =
      (i : Inner S) × (woken : List Waker) × (q : Queue) × (drop_acquire S s.inner u.state
        ≡ ok (i, woken))
      × IsSound S (record s { inner = i; futures = rest }) q
      × (i.permits + sum s.held ≡ total S s)

  dropped :
      (u : Future) (rest : List Future) (d : Outcome (Inner S × List Waker))
      → drop_acquire S s.inner u.state ≡ d
      → Steps S s 0 0 (d >>= λ (i, woken). ok (record s { inner = i; futures = rest }, woken))
      → Dropped u rest
  dropped u rest (ok (i, more)) e (s', woken, q, ran, v, kept) =
      let same : s' ≡ record s { inner = i; futures = rest } = cc in
      (i, more, q, e, subst (λ t. IsSound S t q) same v, omega (arith, kept, ap (total S) same))
  dropped u rest panic e (s', woken, q, ran, v, kept) = cc
  dropped u rest out_of_fuel e (s', woken, q, ran, v, kept) = cc

  pub cancel_future-cases :
      (u : Future) (rest : List Future) → Steps S s 0 0 (cancel_future S s u rest) → Dropped u rest
  unfolding cancel_future
  cancel_future-cases u rest st = dropped u rest _ refl st

  -- A permit comes back.
  abbrev pub Released : Bool → ℕ → List ℕ → Type 0
  Released checks n rest =
      (i : Inner S) × (woken : List Waker) × (q : Queue) × (drop_permit S checks s.inner n
        ≡ ok (i, woken))
      × IsSound S (record s { inner = i; held = rest }) q
      × (i.permits + sum rest ≡ total S s)

  released :
      (checks : Bool) (n : ℕ) (rest : List ℕ) (d : Outcome (Inner S × List Waker))
      → drop_permit S checks s.inner n ≡ d
      → Steps S s 0 0 (d >>= λ (i, woken). ok (record s { inner = i; held = rest }, woken))
      → Released checks n rest
  released checks n rest (ok (i, more)) e (s', woken, q, ran, v, kept) =
      let same : s' ≡ record s { inner = i; held = rest } = cc in
      (i, more, q, e, subst (λ t. IsSound S t q) same v, omega (arith, kept, ap (total S) same))
  released checks n rest panic e (s', woken, q, ran, v, kept) = cc
  released checks n rest out_of_fuel e (s', woken, q, ran, v, kept) = cc

  pub release_permit-cases :
      (checks : Bool) (n : ℕ) (rest : List ℕ)
      → Steps S s 0 0 (release_permit S checks s n rest)
      → Released checks n rest
  unfolding release_permit
  release_permit-cases checks n rest st = released checks n rest _ refl st

  -- The permits were taken at once, or nothing happened.
  abbrev pub Tried : ℕ → Type 0
  Tried n =
      (i : Inner S) × (q : Queue) × (((try_acquire S s.inner n ≡ (i, true))
          × IsSound S (record s { inner = i; held = n ∷ s.held }) q
          × (i.permits + (n + sum s.held) ≡ total S s))
        ⊎ ((try_acquire S s.inner n ≡ (i, false))
            × IsSound S (record s { inner = i }) q
            × (i.permits + sum s.held ≡ total S s)))

  try_acquire-refused :
      (n : ℕ) → (try_acquire S s.inner n).1 ≡ false → try_acquire S s.inner n ≡ (s.inner, false)
  unfolding try_acquire
  try_acquire-refused n refused = ground arith

  pub try_take-cases : (n : ℕ) → Steps S s 0 0 (try_take S s n) → Tried n
  unfolding try_take
  try_take-cases n (s', woken, q, ran, v, kept) = elim (Bool-cases (try_acquire S s.inner n).1) [
    | inl got ↦
        let taken = record s { inner = (try_acquire S s.inner n).0; held = n ∷ s.held } in
        let same : s' ≡ taken = landed got in
        (
          (try_acquire S s.inner n).0,
          q,
          inl (
            ground (arith, got),
            subst (λ t. IsSound S t q) same v,
            omega (arith, kept, ap (total S) same),
          ),
        )
    | inr refused ↦
        let same : s' ≡ s = stayed refused in
        (s.inner, q, inr (try_acquire-refused n refused, subst (λ t. IsSound S t q) same v, refl))
  ]
    where
      landed :
          (try_acquire S s.inner n).1 ≡ true
          → s' ≡ record s { inner = (try_acquire S s.inner n).0; held = n ∷ s.held }
      landed got = ground (arith, ran)

      stayed : (try_acquire S s.inner n).1 ≡ false → s' ≡ s
      stayed refused = ground (arith, ran)
