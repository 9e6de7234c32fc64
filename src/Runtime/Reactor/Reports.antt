-- ===== src/Runtime/Reactor/Reports.antt =====
-- A poll of the system: whoever is reported is woken, and whoever still waits is registered.
use platoon.Base.{
  ℕ, ◌≡◌, refl, sym, ap, ◌∙◌, subst, ◌⊎◌, inl, inr, true, Option, some, List, [], ◌∷◌, ◌++◌, arith,
  ◌==◌, ==_iff, ==_self, Bool-cases, Option-cases, has, has-append, Waker, IoError, IoResult,
  success, failure,
}
use platoon.Slab.{Slab}
use platoon.Sys.{Event, event_keys, IsKept, Poller}
use platoon.Runtime.Reactor.{Direction, Source, interest, Reactor, fire, rearm, dispatch, poll}
use platoon.Runtime.Reactor.Watch.{
  ServedBut, IsWatched, result_cases, dispatch-ServedBut, fired, dispatch_gone, dispatch-fired,
  dispatch_refused,
}
use platoon.Runtime.Reactor.Keeps.{all_served}
use platoon.Runtime.Reactor.Fires.{
  reports, fire-reports, fire-spares, fired-get, IsWoken, dispatch-IsWoken,
}

module _ (P : Poller) (S : Slab Source) where
  open P use {registered}

  events_cases :
      (x : IoResult (List Event))
      → ((es : List Event) × (x ≡ success es)) ⊎ ((err : IoError) × (x ≡ failure err))
  events_cases (success es) = inl (es, refl)
  events_cases (failure err) = inr (err, refl)

  -- A waiter was woken, and finds it when it polls.
  abbrev pub Wakes : Waker → ℕ → Direction → Reactor P S × List Waker × IoResult (Unit {0}) → Type 0
  Wakes w k d result = (has w result.1 ≡ true) × IsWoken P S result.0 k d

  -- One round before the report of a waiter: it wakes the waiter, or leaves it to the rest.
  round-Wakes :
      (x : Event) (es : List Event) (r : Reactor P S) (k : ℕ) (s t : Source) (d : Direction)
      (w : Waker)
      → S.get r.sources k ≡ some s
      → (interest s d).poller ≡ some w
      → S.get r.sources x.key ≡ some t
      → ((u : Source)
          → S.get (fired P S x r t).sources k ≡ some u
          → (interest u d).poller ≡ some w
          → Wakes w k d (dispatch P S es (fired P S x r t)))
      → Wakes w k d (
          let rest = dispatch P S es (fired P S x r t) in
          (rest.0, (fire P S x t).1 ++ rest.1, rest.2))
  round-Wakes x es r k s t d w found waits got rest = elim (Bool-cases (k == x.key)) [
    | inr differ ↦ later (rest s (fired-get P S x r t k got ∙ rw (differ, found)) waits)
    | inl same ↦
        let st : s ≡ t =
          ground (arith, sym found ∙ ap (S.get r.sources) ((==_iff k x.key).0 same) ∙ got) in
        let waits' = subst (λ u. (interest u d).poller ≡ some w) st waits in
        let back = fired-get P S x r t k got ∙ rw same in
        elim (Bool-cases (reports x d)) [
          | inl told ↦
              let (woken, woke) = fire-reports P S x t d w told waits' in
              (
                has-append w (fire P S x t).1 _ ∙ rw woken,
                dispatch-IsWoken P S es (fired P S x r t) k d ((fire P S x t).0, back, woke),
              )
          | inr untold ↦ later (
              rest (fire P S x t).0 back
                (ap (λ i. i.poller) (fire-spares P S x t d untold) ∙ waits'))
        ]
  ]
    where
      later :
          Wakes w k d (dispatch P S es (fired P S x r t))
          → Wakes w k d (
              let more = dispatch P S es (fired P S x r t) in
              (more.0, (fire P S x t).1 ++ more.1, more.2))
      later (h, v) = (has-append w (fire P S x t).1 _ ∙ ground (arith, h), v)

  no_error :
      {a b : Reactor P S × List Waker × IoResult (Unit {0})}
      → a ≡ b
      → a.2 ≡ success tt
      → b.2 ≡ success tt
  no_error same fine = ap (λ d. d.2) (sym same) ∙ fine

  -- Among the events is one that reports a waiter: it is woken, unless an error ends the loop.
  dispatch-Wakes :
      (xs ys : List Event) (e : Event) (r : Reactor P S) (s : Source) (d : Direction) (w : Waker)
      → reports e d ≡ true
      → S.get r.sources e.key ≡ some s
      → (interest s d).poller ≡ some w
      → (dispatch P S (xs ++ e ∷ ys) r).2 ≡ success tt
      → Wakes w e.key d (dispatch P S (xs ++ e ∷ ys) r)
  dispatch-Wakes [] ys e r s d w told found waits fine =
      elim (result_cases P S (rearm P S r.poller e.key (fire P S e s).0).1) [
        | inr (err, refused) ↦
            absurd (ground (arith, no_error (dispatch_refused P S e ys r s err found refused) fine))
        | inl armed ↦
            let (woken, woke) = fire-reports P S e s d w told waits in
            rw (dispatch-fired P S e ys r s found armed) (
              has-append w (fire P S e s).1 _ ∙ rw woken,
              dispatch-IsWoken P S ys (fired P S e r s) e.key d
                  ((fire P S e s).0, fired-get P S e r s e.key found ∙ rw (==_self e.key), woke),
            )
      ]
  dispatch-Wakes (x ∷ xs) ys e r s d w told found waits fine =
      elim (Option-cases (S.get r.sources x.key)) [
        | inl gone ↦
            let same = dispatch_gone P S x (xs ++ e ∷ ys) r gone in
            rw same (dispatch-Wakes xs ys e r s d w told found waits (no_error same fine))
        | inr (t, got) ↦ elim (result_cases P S (rearm P S r.poller x.key (fire P S x t).0).1) [
          | inr (err, refused) ↦ absurd (
              ground
                (arith, no_error (dispatch_refused P S x (xs ++ e ∷ ys) r t err got refused) fine))
          | inl armed ↦
              let same = dispatch-fired P S x (xs ++ e ∷ ys) r t got armed in
              let fine' : (dispatch P S (xs ++ e ∷ ys) (fired P S x r t)).2 ≡ success tt =
                no_error same fine in
              rw same (
                round-Wakes x (xs ++ e ∷ ys) r e.key s t d w found waits got (λ u there waits'.
                  dispatch-Wakes xs ys e (fired P S x r t) u d w told there waits' fine'))
        ]
      ]

  poll_success :
      (r : Reactor P S) (timeout : Option ℕ) (es : List Event)
      → (P.poll r.poller timeout).1 ≡ success es
      → poll P S r timeout ≡ dispatch P S es (record r { poller = (P.poll r.poller timeout).0 })
  unfolding poll
  poll_success r timeout es polled = rw (polled, poll)

  -- Where the system reports an event with the direction that a waiter waits for, and the poll
  -- ends without an error, the waiter is woken and its interest is marked, so that its next poll
  -- for readiness is ready.
  pub poll-Wakes :
      (r : Reactor P S) (timeout : Option ℕ) (xs ys : List Event) (e : Event) (s : Source)
      (d : Direction) (w : Waker)
      → (P.poll r.poller timeout).1 ≡ success (xs ++ e ∷ ys)
      → reports e d ≡ true
      → S.get r.sources e.key ≡ some s
      → (interest s d).poller ≡ some w
      → (poll P S r timeout).2 ≡ success tt
      → Wakes w e.key d (poll P S r timeout)
  poll-Wakes r timeout xs ys e s d w polled told found waits fine =
      let same = poll_success r timeout (xs ++ e ∷ ys) polled in
      rw same (
        dispatch-Wakes xs ys e (record r { poller = (P.poll r.poller timeout).0 }) s d w told found
          waits (no_error same fine))

  -- A poll of the system that ends without an error leaves every source registered under its key
  -- for whatever someone still waits for, where it was so before, although a report disarms a
  -- registration.
  pub poll-IsWatched :
      (r : Reactor P S) (timeout : Option ℕ)
      → IsWatched P S r
      → (poll P S r timeout).2 ≡ success tt
      → IsWatched P S (poll P S r timeout).0
  unfolding poll
  poll-IsWatched r timeout v fine = elim (events_cases (P.poll r.poller timeout).1) [
    | inl (es, polled) ↦
        let same = poll_success r timeout es polled in
        rw same (all_served P S (dispatch-ServedBut P S es _ (kept es polled) (no_error same fine)))
    | inr (err, failed) ↦
        rw (failed, poll)
          (record {
            served =
                λ k t got. rw (P.poll-refused r.poller timeout err t.raw failed) (v.served k t got);
          })
  ]
    where
      kept :
          (es : List Event)
          → (P.poll r.poller timeout).1 ≡ success es
          → ServedBut P S (event_keys es) (record r { poller = (P.poll r.poller timeout).0 })
      kept es polled k t got =
          let (e, reg, is, reads, writes) = v.served k t got in
          let (e', reg', is', same) =
            subst (λ o. IsKept es o (registered (P.poll r.poller timeout).0 t.raw)) reg
              (P.poll-IsKept r.poller timeout es t.raw polled) in
          (
            (e', reg', is' ∙ is),
            λ h.
                let e_same = same (rw is h) in
                (e', reg', is' ∙ is, rw e_same reads, rw e_same writes),
          )
