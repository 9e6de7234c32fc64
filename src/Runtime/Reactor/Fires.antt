-- ===== src/Runtime/Reactor/Fires.antt =====
-- What the report of an event does to its source, and leaves of the others.
use platoon.Base.{
  ℕ, ◌≡◌, sym, ap, ◌∙◌, subst, inl, inr, Bool, true, false, some, List, [], ◌∷◌, arith, ◌==◌,
  if◌then◌else◌, ==_iff, Bool-cases, Option-cases, has, has-append, Waker,
}
use platoon.Slab.{Slab}
use platoon.Sys.{Event, Poller}
use platoon.Runtime.Reactor.{
  Direction, read, write, Source, take, interest, Reactor, fire, rearm, dispatch,
}
use platoon.Runtime.Reactor.Watch.{
  result_cases, fired, dispatch_gone, dispatch-fired, dispatch_refused,
}

-- The event reports this direction.
abbrev pub reports : Event → Direction → Bool
reports e read = e.readable
reports e write = e.writable

module _ (P : Poller) (S : Slab Source) where
  open P use {registered}

  pub fire-reports :
      (e : Event) (s : Source) (d : Direction) (w : Waker)
      → reports e d ≡ true
      → (interest s d).poller ≡ some w
      → (has w (fire P S e s).1 ≡ true) × ((interest (fire P S e s).0 d).woke ≡ true)
  unfolding fire interest take
  fire-reports e s read w told waits = (ground (arith, told, waits), rw told)
  fire-reports e s write w told waits = (
    has-append w (if e.readable then take s.reader else (s.reader, [])).1 _
        ∙ ground (arith, told, waits),
    rw told,
  )

  pub fire-spares :
      (e : Event) (s : Source) (d : Direction)
      → reports e d ≡ false
      → interest (fire P S e s).0 d ≡ interest s d
  unfolding fire interest
  fire-spares e s read untold = rw untold
  fire-spares e s write untold = rw untold

  fire-woke :
      (e : Event) (s : Source) (d : Direction)
      → (interest s d).woke ≡ true
      → (interest (fire P S e s).0 d).woke ≡ true
  unfolding fire interest take
  fire-woke e s read woke = ground arith
  fire-woke e s write woke = ground arith

  pub fired-get :
      (e : Event) (r : Reactor P S) (s : Source) (k : ℕ)
      → S.get r.sources e.key ≡ some s
      → S.get (fired P S e r s).sources k
        ≡ (if k == e.key then some (fire P S e s).0 else S.get r.sources k)
  fired-get e r s k found = S.get-set r.sources e.key s (fire P S e s).0 k found

  -- The source is there, and its interest was woken.
  abbrev pub IsWoken : Reactor P S → ℕ → Direction → Type 0
  IsWoken r k d = (s : Source) × (S.get r.sources k ≡ some s) × ((interest s d).woke ≡ true)

  fired-IsWoken :
      (e : Event) (r : Reactor P S) (s : Source) (k : ℕ) (d : Direction)
      → S.get r.sources e.key ≡ some s
      → IsWoken r k d
      → IsWoken (fired P S e r s) k d
  fired-IsWoken e r s k d found (t, got, woke) = elim (Bool-cases (k == e.key)) [
    | inl same ↦
        let st : t ≡ s =
          ground (arith, sym got ∙ ap (S.get r.sources) ((==_iff k e.key).0 same) ∙ found) in
        (
          (fire P S e s).0,
          fired-get e r s k found ∙ rw same,
          fire-woke e s d (subst (λ u. (interest u d).woke ≡ true) st woke),
        )
    | inr differ ↦ (t, fired-get e r s k found ∙ rw (differ, got), woke)
  ]

  pub dispatch-IsWoken :
      (es : List Event) (r : Reactor P S) (k : ℕ) (d : Direction)
      → IsWoken r k d
      → IsWoken (dispatch P S es r).0 k d
  unfolding dispatch
  dispatch-IsWoken [] r k d v = v
  dispatch-IsWoken (e ∷ es) r k d v = elim (Option-cases (S.get r.sources e.key)) [
    | inl gone ↦ rw (dispatch_gone P S e es r gone) (dispatch-IsWoken es r k d v)
    | inr (s, found) ↦
        let v' = fired-IsWoken e r s k d found v in
        elim (result_cases P S (rearm P S r.poller e.key (fire P S e s).0).1) [
          | inl armed ↦ rw (dispatch-fired P S e es r s found armed) (dispatch-IsWoken es _ k d v')
          | inr (err, refused) ↦ rw (dispatch_refused P S e es r s err found refused) v'
        ]
  ]
