-- ===== src/Runtime/Reactor/Stores.antt =====
-- What the calls of the reactor do to its slab of sources, whatever the poller answers.
use platoon.Base.{
  ℕ, ◌≡◌, refl, ap, ◌∙◌, ◌⊎◌, inl, inr, true, false, Option, none, some, List, [], ◌∷◌, ◌==◌,
  if◌then◌else◌, ==_self, Bool-cases, Option-cases, ok, Poll, Waker, IoError, IoResult, ready,
  pending, success, failure,
}
use platoon.Slab.{Slab}
use platoon.Sys.{Event, Poller}
use platoon.Runtime.Reactor.{
  Direction, Source, Interest, no_interest, interest, with_interest, Reactor, insert_source,
  remove_source, register, poll_ready, update_interest, fire, rearm, dispatch, poll, after_failure,
}
use platoon.Runtime.Reactor.Watch.{result_cases}
use platoon.Runtime.Reactor.Ready.{interest-with_interest}

module _ (P : Poller) (S : Slab Source) where
  -- An insertion that is refused leaves the sources, and one that is accepted adds one.
  pub insert_source_stores :
      (r : Reactor P S) (raw : ℕ)
      → let (r', inserted) = insert_source P S r raw in
        ((err : IoError) × (inserted ≡ failure err)
          × ((k : ℕ) → S.get r'.sources k ≡ S.get r.sources k))
        ⊎ ((s : Source) × (inserted ≡ success (S.vacant_key r.sources))
            × ((k : ℕ)
                → S.get r'.sources k
                  ≡ (if k == S.vacant_key r.sources then some s else S.get r.sources k)))
  unfolding insert_source
  insert_source_stores r raw = elim (result_cases P S (P.add r.poller raw e).1) [
    | inl added ↦ inr (
      record { raw = raw; reader = no_interest; writer = no_interest },
      rw (added, insert_source),
      λ k. rw (added, insert_source) (S.get-insert r.sources _ k),
    )
    | inr (err, refused) ↦ inl (err, rw (refused, insert_source), λ k. rw (refused, insert_source))
  ]
    where
      e : Event
      e = record { key = S.vacant_key r.sources; readable = false; writable = false }

  pub remove_source_stores :
      (r : Reactor P S) (key : ℕ) (s : Source)
      → S.get r.sources key ≡ some s
      → (r' : Reactor P S) × (res : IoResult (Unit {0})) × (remove_source P S r key ≡ ok (r', res))
        × ((k : ℕ) → S.get r'.sources k ≡ (if k == key then none else S.get r.sources k))
  unfolding remove_source
  remove_source_stores r key s found = (
    record { poller = (P.delete r.poller s.raw).0; sources = S.remove r.sources key },
    (P.delete r.poller s.raw).1,
    rw found,
    λ k. S.get-remove r.sources key k,
  )

  -- A source that is there.
  abbrev pub IsThere : Reactor P S → ℕ → Type 0
  IsThere r key = (s : Source) × (S.get r.sources key ≡ some s)

  set-IsThere :
      (r : Reactor P S) (p : P.State) (j key : ℕ) (u v : Source)
      → S.get r.sources j ≡ some u
      → IsThere r key
      → IsThere (record { poller = p; sources = S.set r.sources j v }) key
  set-IsThere r p j key u v found (s, there_now) = elim (Bool-cases (key == j)) [
    | inl same ↦ (v, S.get-set r.sources j u v key found ∙ rw same)
    | inr differ ↦ (s, S.get-set r.sources j u v key found ∙ rw (differ, there_now))
  ]

  -- The part of `poll_ready` behind its test writes one source.
  register_stores :
      (r : Reactor P S) (key : ℕ) (s : Source) (before : Option Waker)
      → (r' : Reactor P S) × (ws : List Waker) × (res : Poll (IoResult (Unit {0}))) × (register P S
            r key s before
          ≡ (r', ws, res))
        × (r'.sources ≡ S.set r.sources key s)
        × ((res ≡ pending) ⊎ ((err : IoError) × (res ≡ ready (failure err))))
  unfolding register
  register_stores r key s (some waker) = (_, _, pending, refl, refl, inl refl)
  register_stores r key s none = elim (result_cases P S (update_interest P S r.poller key s).1) [
    | inl fine ↦ (after, [], pending, rw (fine, register), refl, inl refl)
    | inr (err, failed) ↦
        (after, [], ready (failure err), rw (failed, register), refl, inr (err, refl))
  ]
    where
      after : Reactor P S
      after = record {
        poller = (update_interest P S r.poller key s).0;
        sources = S.set r.sources key s;
      }

  -- A poll for readiness: the source stays, and if it was ready, its report is taken.
  pub poll_ready_stores :
      (r : Reactor P S) (key : ℕ) (s : Source) (d : Direction) (cx : Waker)
      → S.get r.sources key ≡ some s
      → (r' : Reactor P S) × (ws : List Waker) × (res : Poll (IoResult (Unit {0}))) × (s' : Source)
        × (poll_ready P S r key d cx ≡ ok (r', ws, res))
        × (S.get r'.sources key ≡ some s')
        × (((res ≡ ready (success tt))
              × ((interest s d).woke ≡ true)
              × ((interest s' d).woke ≡ false))
            ⊎ (res ≡ pending)
            ⊎ ((err : IoError) × (res ≡ ready (failure err))))
  unfolding poll_ready
  poll_ready_stores r key s d cx found = elim (Bool-cases (interest s d).woke) [
    | inl woke ↦ (
      record r { sources = S.set r.sources key calmed },
      [],
      ready (success tt),
      calmed,
      rw (found, woke),
      S.get-set r.sources key s calmed key found ∙ rw (==_self key),
      inl (refl, woke, ap (λ i. i.woke) (interest-with_interest P S s d calm)),
    )
    | inr asleep ↦
        let (r', ws, res, is, stored, ends) = register_stores r key waits (interest s d).poller in
        let registers : poll_ready P S r key d cx
            ≡ ok (register P S r key waits (interest s d).poller) =
          rw (found, asleep) in
        (
          r',
          ws,
          res,
          waits,
          registers ∙ ap ok is,
          rw stored (S.get-set r.sources key s waits key found ∙ rw (==_self key)),
          inr ends,
        )
  ]
    where
      calm : Interest
      calm = record (interest s d) { woke = false }

      calmed : Source
      calmed = with_interest s d calm

      waits : Source
      waits = with_interest s d (record { poller = some cx; woke = (interest s d).woke })

  -- The dispatch of events, which an error may end, and with it a poll of the system.
  dispatch-IsThere :
      (es : List Event) (r : Reactor P S) (key : ℕ)
      → IsThere r key
      → IsThere (dispatch P S es r).0 key
  unfolding dispatch
  dispatch-IsThere [] r key t = t
  dispatch-IsThere (e ∷ es) r key t = elim (Option-cases (S.get r.sources e.key)) [
    | inl gone ↦ rw (gone, dispatch) (dispatch-IsThere es r key t)
    | inr (s, found) ↦
        let s' = (fire P S e s).0 in
        let p = (rearm P S r.poller e.key s').0 in
        let t' = set-IsThere r p e.key key s s' found t in
        elim (result_cases P S (rearm P S r.poller e.key s').1) [
          | inl armed ↦ rw (found, dispatch, armed) (dispatch-IsThere es _ key t')
          | inr (err, failed) ↦ rw (found, dispatch, failed) t'
        ]
  ]

  pub poll-IsThere :
      (r : Reactor P S) (timeout : Option ℕ) (key : ℕ)
      → IsThere r key
      → IsThere (poll P S r timeout).0 key
  unfolding poll
  poll-IsThere r timeout key t = polled (P.poll r.poller timeout).1
    where
      r' : Reactor P S
      r' = record r { poller = (P.poll r.poller timeout).0 }

      polled :
          (result : IoResult (List Event))
          → IsThere
              (elim result as (λ x. Reactor P S × List Waker × IoResult (Unit {0})) [
                | success events ↦ dispatch P S events r'
                | failure err ↦ (r', [], after_failure P S err)
              ]).0
              key
      polled (success events) = dispatch-IsThere events r' key t
      polled (failure err) = t
