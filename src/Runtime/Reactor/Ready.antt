-- ===== src/Runtime/Reactor/Ready.antt =====
-- A poll for readiness: ready once per report, or pending with the waiter registered.
use platoon.Base.{
  ℕ, ◌≡◌, refl, sym, ap, ◌∙◌, subst, ◌⊎◌, inl, inr, true, false, Option, none, some, List, [], ◌∷◌,
  arith, ◌==◌, ==_self, Bool-cases, Outcome, ok, Poll, Waker, IoError, IoResult, ready, pending,
  success, failure,
}
use platoon.Slab.{Slab}
use platoon.Sys.{Event, Poller}
use platoon.Runtime.Reactor.{
  Direction, read, write, Interest, Source, has_poller, interest, with_interest, Reactor,
  update_interest, register, poll_ready,
}
use platoon.Runtime.Reactor.Watch.{Serves, IsWatched, served_again, result_cases, updated}
use platoon.Runtime.Reactor.Keeps.{but_none, all_served}

module _ (P : Poller) (S : Slab Source) where
  open P use {registered}

  with_interest-raw :
      (s : Source) (d : Direction) (i : Interest) → (with_interest s d i).raw ≡ s.raw
  unfolding with_interest
  with_interest-raw s read i = refl
  with_interest-raw s write i = refl

  pub interest-with_interest :
      (s : Source) (d : Direction) (i : Interest) → interest (with_interest s d i) d ≡ i
  unfolding with_interest interest
  interest-with_interest s read i = refl
  interest-with_interest s write i = refl

  -- An interest that waits as the old one did is served as the old one was.
  with_interest-Serves :
      (reg : Option Event) (key : ℕ) (s : Source) (d : Direction) (i : Interest)
      → Serves reg key s
      → has_poller i ≡ has_poller (interest s d)
      → Serves reg key (with_interest s d i)
  unfolding with_interest interest
  with_interest-Serves reg key s read i (e, is, k, reads, writes) same =
      (e, is, k, rw same reads, writes)
  with_interest-Serves reg key s write i (e, is, k, reads, writes) same =
      (e, is, k, reads, rw same writes)

  -- A source written and served again, in a reactor where all are.
  written :
      (r : Reactor P S) (p : P.State) (key : ℕ) (s s' : Source)
      → IsWatched P S r
      → S.get r.sources key ≡ some s
      → s'.raw ≡ s.raw
      → Serves (registered p s.raw) key s'
      → ((k : ℕ) → (k == s.raw) ≡ false → registered p k ≡ registered r.poller k)
      → IsWatched P S (record { poller = p; sources = S.set r.sources key s' })
  written r p key s s' v found same_raw mine others = all_served P S (
      served_again P S [] r p key s s'
        (λ k t got. let (keyed, rest) = but_none P S v k t got in (keyed, λ h. rest refl)) found
        same_raw mine others)

  -- What a poll for readiness ends in: ready, if the source was reported since the last time; or
  -- pending, with the waker kept and registered; or the error of the poller.
  abbrev pub Readies :
      Reactor P S
      → ℕ
      → Source
      → Direction
      → Waker
      → Outcome (Reactor P S × List Waker × Poll (IoResult (Unit {0})))
      → Type 0
  Readies r key s d cx result =
      (r' : Reactor P S) × (ws : List Waker) × (res : Poll (IoResult (Unit {0}))) × (s' : Source)
      × (result ≡ ok (r', ws, res))
      × (S.get r'.sources key ≡ some s')
      × (((res ≡ ready (success tt))
            × ((interest s d).woke ≡ true)
            × ((interest s' d).woke ≡ false)
            × IsWatched P S r')
          ⊎ ((res ≡ pending)
              × ((interest s d).woke ≡ false)
              × ((interest s' d).poller ≡ some cx)
              × ((interest s' d).woke ≡ false)
              × IsWatched P S r')
          ⊎ ((err : IoError) × (res ≡ ready (failure err))))

  abbrev waits : Source → Direction → Waker → Interest
  waits s d cx = record { poller = some cx; woke = (interest s d).woke }

  get_back :
      (r : Reactor P S) (key : ℕ) (s s' : Source)
      → S.get r.sources key ≡ some s
      → S.get (S.set r.sources key s') key ≡ some s'
  get_back r key s s' found = S.get-set r.sources key s s' key found ∙ rw (==_self key)

  register-Readies :
      (r : Reactor P S) (key : ℕ) (s : Source) (d : Direction) (cx : Waker)
      → IsWatched P S r
      → S.get r.sources key ≡ some s
      → (interest s d).woke ≡ false
      → (before : Option Waker) → (interest s d).poller ≡ before
      → Readies r key s d cx (ok (register P S r key (with_interest s d (waits s d cx)) before))
  unfolding register has_poller
  register-Readies r key s d cx v found asleep (some w) old =
      let s' = with_interest s d (waits s d cx) in
      (
        record r { sources = S.set r.sources key s' },
        w ∷ [],
        pending,
        s',
        refl,
        get_back r key s s' found,
        inr (
            inl (
              refl,
              asleep,
              ap (λ i. i.poller) (interest-with_interest s d (waits s d cx)),
              ap (λ i. i.woke) (interest-with_interest s d (waits s d cx)) ∙ asleep,
              written r r.poller key s s' v found (with_interest-raw s d (waits s d cx))
                  (with_interest-Serves _ key s d (waits s d cx) (v.served key s found) (rw old))
                  (λ k h. refl),
            )),
      )
  register-Readies r key s d cx v found asleep none old =
      let s' = with_interest s d (waits s d cx) in
      let same = with_interest-raw s d (waits s d cx) in
      let p = (update_interest P S r.poller key s').0 in
      elim (result_cases P S (update_interest P S r.poller key s').1) [
        | inl fine ↦
            let (mine, others) = updated P S r.poller key s' fine in
            (
              record { poller = p; sources = S.set r.sources key s' },
              [],
              pending,
              s',
              rw (fine, register),
              get_back r key s s' found,
              inr (
                  inl (
                    refl,
                    asleep,
                    ap (λ i. i.poller) (interest-with_interest s d (waits s d cx)),
                    ap (λ i. i.woke) (interest-with_interest s d (waits s d cx)) ∙ asleep,
                    written r p key s s' v found same
                        (subst (λ raw. Serves (registered p raw) key s') same mine)
                        (subst
                          (λ raw.
                            (k : ℕ) → (k == raw) ≡ false → registered p k ≡ registered r.poller k)
                          same others),
                  )),
            )
        | inr (err, refused) ↦ (
          record { poller = p; sources = S.set r.sources key s' },
          [],
          ready (failure err),
          s',
          rw (refused, register),
          get_back r key s s' found,
          inr (inr (err, refl)),
        )
      ]

  -- On a source of a reactor where everyone who waits is registered, a poll for readiness returns:
  -- ready, with the report taken, if the source was reported; or else pending, with the waker kept
  -- and everyone who waits registered; or with an error of the poller.
  pub poll_ready-Readies :
      (r : Reactor P S) (key : ℕ) (s : Source) (d : Direction) (cx : Waker)
      → IsWatched P S r
      → S.get r.sources key ≡ some s
      → Readies r key s d cx (poll_ready P S r key d cx)
  unfolding poll_ready has_poller
  poll_ready-Readies r key s d cx v found = elim (Bool-cases (interest s d).woke) [
    | inl woke ↦ (
      record r { sources = S.set r.sources key (with_interest s d calm) },
      [],
      ready (success tt),
      with_interest s d calm,
      rw (found, woke),
      get_back r key s (with_interest s d calm) found,
      inl (
        refl,
        woke,
        ap (λ i. i.woke) (interest-with_interest s d calm),
        written r r.poller key s (with_interest s d calm) v found (with_interest-raw s d calm)
            (with_interest-Serves _ key s d calm (v.served key s found) refl) (λ k h. refl),
      ),
    )
    | inr asleep ↦
        let registers : poll_ready P S r key d cx
            ≡ ok (register P S r key (with_interest s d (waits s d cx)) (interest s d).poller) =
          rw (found, asleep) in
        subst (Readies r key s d cx) (sym registers)
          (register-Readies r key s d cx v found asleep _ refl)
  ]
    where
      calm : Interest
      calm = record { poller = (interest s d).poller; woke = false }

  -- In a reactor where everyone who waits is registered, a waiter that was left pending and polls
  -- again with no report in between is woken by its own poll.
  pub poll_ready-repolled :
      (r r' : Reactor P S) (ws : List Waker) (key : ℕ) (s : Source) (d : Direction) (cx : Waker)
      → IsWatched P S r
      → S.get r.sources key ≡ some s
      → poll_ready P S r key d cx ≡ ok (r', ws, pending)
      → (r'' : Reactor P S) × (poll_ready P S r' key d cx ≡ ok (r'', cx ∷ [], pending))
  unfolding poll_ready register
  poll_ready-repolled r r' ws key s d cx v found ran =
      let (t, ws', res, s', is, got, ends) = poll_ready-Readies r key s d cx v found in
      let same : ok (r', ws, pending) ≡ ok (t, ws', res) = sym ran ∙ is in
      elim ends [
        | inl (done, _, _, _) ↦ absurd (ground (arith, same, done))
        | inr (inr (err, failed)) ↦ absurd (ground (arith, same, failed))
        | inr (inl (_, _, kept, asleep, _)) ↦
            let rt : t ≡ r' = ground (arith, same) in
            let got' : S.get r'.sources key ≡ some s' =
              subst (λ u. S.get u.sources key ≡ some s') rt got in
            (
              record r' { sources = S.set r'.sources key (with_interest s' d (waits s' d cx)) },
              rw (got', asleep, kept),
            )
      ]
