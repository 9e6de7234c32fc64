-- ===== src/Runtime/Reactor/Watch.antt =====
-- Whoever waits for a source is registered for it with the system.
use platoon.Base.{
  ℕ, ◌≡◌, refl, sym, ap, ◌∙◌, subst, ◌⊎◌, inl, inr, true, false, not, ◌||◌, Option, none, some,
  List, [], ◌∷◌, ◌++◌, arith, ◌==◌, ==_iff, ==_self, Bool-cases, Option-cases, has, IoError,
  IoResult, success, failure,
}
use platoon.Slab.{Slab}
use platoon.Sys.{Event, event_keys, Poller}
use platoon.Runtime.Reactor.{Source, has_poller, Reactor, update_interest, fire, rearm, dispatch}

-- A registration under this key.
abbrev pub IsKeyed : Option Event → ℕ → Type 0
IsKeyed reg key = (e : Event) × (reg ≡ some e) × (e.key ≡ key)

-- A registration under this key for whatever someone waits for.
abbrev pub Serves : Option Event → ℕ → Source → Type 0
Serves reg key s =
    (e : Event) × (reg ≡ some e)
    × (e.key ≡ key)
    × ((not (has_poller s.reader) || e.readable) ≡ true)
    × ((not (has_poller s.writer) || e.writable) ≡ true)

module _ (P : Poller) (S : Slab Source) where
  open P use {registered}

  -- Every source is registered under its key, and served, except for the keys listed.
  abbrev pub ServedBut : List ℕ → Reactor P S → Type 0
  ServedBut ks r =
      (key : ℕ) (s : Source)
      → S.get r.sources key ≡ some s
      → IsKeyed (registered r.poller s.raw) key
        × (has key ks ≡ false → Serves (registered r.poller s.raw) key s)

  -- Every source is registered under its key, for whatever someone waits for.
  pub record IsWatched (r : Reactor P S) : Type 0 where
    pub served :
        (key : ℕ) (s : Source)
        → S.get r.sources key ≡ some s
        → Serves (registered r.poller s.raw) key s

  -- Two sources never share a descriptor: it is registered under one key.
  pub apart :
      (p : P.State) (key key' : ℕ) (raw raw' : ℕ)
      → IsKeyed (registered p raw) key
      → IsKeyed (registered p raw') key'
      → (key' == key) ≡ false
      → (raw' == raw) ≡ false
  apart p key key' raw raw' (e, reg, k) (e', reg', k') differ = elim (Bool-cases (raw' == raw)) [
    | inr other ↦ other
    | inl same ↦
        let here_too : some e ≡ some e' =
          sym reg ∙ ap (registered p) (sym ((==_iff raw' raw).0 same)) ∙ reg' in
        absurd (ground (arith, here_too))
  ]

  -- One source is written and served again, and the registrations of the others stay.
  pub served_again :
      (ks : List ℕ) (r : Reactor P S) (p : P.State) (key : ℕ) (s s' : Source)
      → ServedBut (key ∷ ks) r
      → S.get r.sources key ≡ some s
      → s'.raw ≡ s.raw
      → Serves (registered p s.raw) key s'
      → ((k : ℕ) → (k == s.raw) ≡ false → registered p k ≡ registered r.poller k)
      → ServedBut ks (record { poller = p; sources = S.set r.sources key s' })
  served_again ks r p key s s' v found same_raw mine others key' t got =
      let look = sym (S.get-set r.sources key s s' key' found) ∙ got in
      elim (Bool-cases (key' == key)) [
        | inl same ↦
            let st : s' ≡ t = ground (arith, rw same at look) in
            let mine' : Serves (registered p s'.raw) key' s' =
              rw (same_raw, (==_iff key' key).0 same) mine in
            let (e, reg, k, _, _) = mine' in
            subst
              (λ u.
                IsKeyed (registered p u.raw) key'
                × (has key' ks ≡ false → Serves (registered p u.raw) key' u))
              st ((e, reg, k), λ h. mine')
        | inr differ ↦
            let (keyed, rest) = v key' t (rw differ at look) in
            let still =
              others t.raw (apart r.poller key key' s.raw t.raw (v key s found).0 keyed differ) in
            rw still (keyed, λ h. rest (ground (arith, differ)))
      ]

  pub result_cases :
      (x : IoResult (Unit {0})) → (x ≡ success tt) ⊎ ((err : IoError) × (x ≡ failure err))
  result_cases (success u) = inl refl
  result_cases (failure err) = inr (err, refl)

  -- What an update that succeeds leaves registered.
  pub updated :
      (p : P.State) (key : ℕ) (s : Source)
      → (update_interest P S p key s).1 ≡ success tt
      → Serves (registered (update_interest P S p key s).0 s.raw) key s
        × ((k : ℕ)
            → (k == s.raw) ≡ false
            → registered (update_interest P S p key s).0 k ≡ registered p k)
  unfolding update_interest
  updated p key s fine =
      let e : Event = record {
        key = key;
        readable = has_poller s.reader;
        writable = has_poller s.writer;
      } in
      (
        (
          e,
          P.update-registered p s.raw e s.raw fine ∙ rw (==_self s.raw),
          refl,
          ground arith,
          ground arith,
        ),
        λ k other. P.update-registered p s.raw e k fine ∙ rw other,
      )

  rearmed :
      (p : P.State) (key : ℕ) (s : Source)
      → IsKeyed (registered p s.raw) key
      → (rearm P S p key s).1 ≡ success tt
      → Serves (registered (rearm P S p key s).0 s.raw) key s
        × ((k : ℕ) → (k == s.raw) ≡ false → registered (rearm P S p key s).0 k ≡ registered p k)
  unfolding rearm
  rearmed p key s (e, reg, k) fine =
      elim (Bool-cases (has_poller s.reader || has_poller s.writer)) [
        | inl waits ↦ rw waits (updated p key s (rw waits at fine))
        | inr idle ↦ rw idle ((e, reg, k, ground arith, ground arith), λ k' other. refl)
      ]

  -- The reactor once a source was fired and armed again.
  abbrev pub fired : Event → Reactor P S → Source → Reactor P S
  fired e r s = record {
    poller = (rearm P S r.poller e.key (fire P S e s).0).0;
    sources = S.set r.sources e.key (fire P S e s).0;
  }

  -- The rounds of the loop.
  pub dispatch_gone :
      (e : Event) (es : List Event) (r : Reactor P S)
      → S.get r.sources e.key ≡ none
      → dispatch P S (e ∷ es) r ≡ dispatch P S es r
  unfolding dispatch
  dispatch_gone e es r gone = rw (gone, dispatch)

  pub dispatch-fired :
      (e : Event) (es : List Event) (r : Reactor P S) (s : Source)
      → S.get r.sources e.key ≡ some s
      → (rearm P S r.poller e.key (fire P S e s).0).1 ≡ success tt
      → dispatch P S (e ∷ es) r
        ≡ (let rest = dispatch P S es (fired e r s) in (rest.0, (fire P S e s).1 ++ rest.1, rest.2))
  unfolding dispatch
  dispatch-fired e es r s found armed = rw (found, armed, dispatch)

  pub dispatch_refused :
      (e : Event) (es : List Event) (r : Reactor P S) (s : Source) (err : IoError)
      → S.get r.sources e.key ≡ some s
      → (rearm P S r.poller e.key (fire P S e s).0).1 ≡ failure err
      → dispatch P S (e ∷ es) r ≡ (fired e r s, (fire P S e s).1, failure err)
  unfolding dispatch
  dispatch_refused e es r s err found refused = rw (found, refused, dispatch)

  fire-raw : (e : Event) (s : Source) → (fire P S e s).0.raw ≡ s.raw
  unfolding fire
  fire-raw e s = refl

  -- The loop serves whatever the events left unserved.
  pub dispatch-ServedBut :
      (es : List Event) (r : Reactor P S)
      → ServedBut (event_keys es) r
      → (dispatch P S es r).2 ≡ success tt
      → ServedBut [] (dispatch P S es r).0
  unfolding dispatch
  dispatch-ServedBut [] r v fine = v
  dispatch-ServedBut (e ∷ es) r v fine = elim (Option-cases (S.get r.sources e.key)) [
    | inl gone ↦
        let same = dispatch_gone e es r gone in
        subst (λ d. ServedBut [] d.0) (sym same)
          (dispatch-ServedBut es r (served_gone gone) (ap (λ d. d.2) (sym same) ∙ fine))
    | inr (s, found) ↦
        let keyed =
          subst (λ raw. IsKeyed (registered r.poller raw) e.key) (sym (fire-raw e s))
            (v e.key s found).0 in
        elim (result_cases (rearm P S r.poller e.key (fire P S e s).0).1) [
          | inl armed ↦
              let (mine, others) = rearmed r.poller e.key (fire P S e s).0 keyed armed in
              let same = dispatch-fired e es r s found armed in
              subst (λ d. ServedBut [] d.0) (sym same)
                (dispatch-ServedBut es (fired e r s)
                  (served_again (event_keys es) r _ e.key s (fire P S e s).0 v found (fire-raw e s)
                    (subst
                      (λ raw. Serves (registered (fired e r s).poller raw) e.key (fire P S e s).0)
                      (fire-raw e s) mine)
                    (subst
                      (λ raw.
                        (k : ℕ)
                        → (k == raw) ≡ false
                        → registered (fired e r s).poller k ≡ registered r.poller k)
                      (fire-raw e s) others))
                  (ap (λ d. d.2) (sym same) ∙ fine))
          | inr (err, refused) ↦ absurd (
              ground
                (arith, ap (λ d. d.2) (sym (dispatch_refused e es r s err found refused)) ∙ fine))
        ]
  ]
    where
      served_gone : S.get r.sources e.key ≡ none → ServedBut (event_keys es) r
      served_gone gone k t got =
          let (keyed, rest) = v k t got in
          (
            keyed,
            λ h. rest (elim (Bool-cases (k == e.key)) [
              | inl same ↦ absurd (
                  ground
                    (arith, sym gone ∙ ap (S.get r.sources) (sym ((==_iff k e.key).0 same)) ∙ got))
              | inr differ ↦ ground (arith, differ, h)
            ]),
          )
