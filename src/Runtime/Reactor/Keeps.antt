-- ===== src/Runtime/Reactor/Keeps.antt =====
-- The calls of the reactor keep every waiter registered.
use platoon.Base.{
  ℕ, ◌≡◌, refl, sym, ap, ◌∙◌, subst, ◌⊎◌, inl, inr, false, none, some, [], arith, ◌==◌,
  if◌then◌else◌, ==_iff, ==_self, Bool-cases, ok, IoError, IoResult, success, failure,
}
use platoon.Slab.{Slab}
use platoon.Sys.{Event, Poller}
use platoon.Runtime.Reactor.{
  Source, no_interest, has_poller, Reactor, new, insert_source, remove_source,
}
use platoon.Runtime.Reactor.Watch.{Serves, ServedBut, IsWatched, apart, result_cases}

module _ (P : Poller) (S : Slab Source) where
  open P use {registered}

  pub but_none : {r : Reactor P S} → IsWatched P S r → ServedBut P S [] r
  but_none v key s got =
      let (e, reg, k, reads, writes) = v.served key s got in
      ((e, reg, k), λ h. (e, reg, k, reads, writes))

  pub all_served : {r : Reactor P S} → ServedBut P S [] r → IsWatched P S r
  all_served v = record { served = λ key s got. (v key s got).1 refl }

  pub new-IsWatched : (p : P.State) → IsWatched P S (new P S p)
  unfolding new
  new-IsWatched p = record { served = λ key s got. absurd (ground (arith, S.get-empty key, got)) }

  source_added :
      (r : Reactor P S) (raw : ℕ) (e : Event) (s : Source)
      → e.key ≡ S.vacant_key r.sources
      → s ≡ record { raw = raw; reader = no_interest; writer = no_interest }
      → (P.add r.poller raw e).1 ≡ success tt
      → IsWatched P S r
      → IsWatched P S
          (record { poller = (P.add r.poller raw e).0; sources = (S.insert r.sources s).1 })
  unfolding has_poller
  source_added r raw e s key_is s_is added v = record { served = served }
    where
      after :
          (k : ℕ)
          → registered (P.add r.poller raw e).0 k
            ≡ (if k == raw then some e else registered r.poller k)
      after k = P.add-registered r.poller raw e k added

      served :
          (key : ℕ) (t : Source)
          → S.get (S.insert r.sources s).1 key ≡ some t
          → Serves (registered (P.add r.poller raw e).0 t.raw) key t
      served key t got =
          let look = sym (S.get-insert r.sources s key) ∙ got in
          elim (Bool-cases (key == S.vacant_key r.sources)) [
            | inl same ↦
                let st : record { raw = raw; reader = no_interest; writer = no_interest } ≡ t =
                  sym s_is ∙ ground (arith, rw same at look) in
                subst (λ u. Serves (registered (P.add r.poller raw e).0 u.raw) key u) st
                  (
                    e,
                    after raw ∙ rw (==_self raw),
                    key_is ∙ sym ((==_iff key _).0 same),
                    refl,
                    refl,
                  )
            | inr differ ↦
                let (e', reg, k', reads, writes) = v.served key t (rw differ at look) in
                elim (Bool-cases (t.raw == raw)) [
                  | inl same ↦ absurd (
                      ground (
                        arith,
                        sym (P.add-fresh r.poller raw e added)
                            ∙ ap (registered r.poller) (sym ((==_iff t.raw raw).0 same))
                            ∙ reg,
                      ))
                  | inr other ↦ (e', after t.raw ∙ rw (other, reg), k', reads, writes)
                ]
          ]

  -- The insertion of a source, accepted or refused by the poller, keeps everyone who waits
  -- registered.
  pub insert_source-IsWatched :
      (r : Reactor P S) (raw : ℕ) → IsWatched P S r → IsWatched P S (insert_source P S r raw).0
  unfolding insert_source
  insert_source-IsWatched r raw v = elim (result_cases P S (P.add r.poller raw e).1) [
    | inl added ↦ rw (added, insert_source) (source_added r raw e _ refl refl added v)
    | inr (err, refused) ↦
        rw (refused, insert_source)
          (record {
            served = λ key t got.
                rw (P.add-refused r.poller raw e err t.raw refused) (v.served key t got);
          })
  ]
    where
      e : Event
      e = record { key = S.vacant_key r.sources; readable = false; writable = false }

  -- The removal of a source that is there returns, whatever the poller answers; the source is
  -- gone, and everyone who waits for another one stays registered.
  pub remove_source-IsWatched :
      (r : Reactor P S) (key : ℕ) (s : Source)
      → IsWatched P S r
      → S.get r.sources key ≡ some s
      → (r' : Reactor P S) × (res : IoResult (Unit {0})) × (remove_source P S r key ≡ ok (r', res))
        × (S.get r'.sources key ≡ none)
        × IsWatched P S r'
  unfolding remove_source
  remove_source-IsWatched r key s v found = (
    record { poller = (P.delete r.poller s.raw).0; sources = S.remove r.sources key },
    (P.delete r.poller s.raw).1,
    rw found,
    S.get-remove r.sources key key ∙ rw (==_self key),
    record { served = served },
  )
    where
      served :
          (key' : ℕ) (t : Source)
          → S.get (S.remove r.sources key) key' ≡ some t
          → Serves (registered (P.delete r.poller s.raw).0 t.raw) key' t
      served key' t got =
          let look = sym (S.get-remove r.sources key key') ∙ got in
          elim (Bool-cases (key' == key)) [
            | inl same ↦ absurd (ground (arith, rw same at look))
            | inr differ ↦
                let old = rw differ at look in
                let other =
                  apart P S r.poller key key' s.raw t.raw (but_none v key s found).0
                    (but_none v key' t old).0 differ in
                rw (P.delete-others r.poller s.raw t.raw other) (v.served key' t old)
          ]

  -- An insertion is refused, and leaves the next key vacant, or has put the source there.
  pub insert_source_cases :
      (r : Reactor P S) (raw : ℕ)
      → let (r', inserted) = insert_source P S r raw in
        ((err : IoError) × (inserted ≡ failure err)
          × (S.get r'.sources (S.vacant_key r.sources) ≡ none))
        ⊎ ((inserted ≡ success (S.vacant_key r.sources))
            × ((s : Source) × (S.get r'.sources (S.vacant_key r.sources) ≡ some s)))
  unfolding insert_source
  insert_source_cases r raw = elim (result_cases P S (P.add r.poller raw e).1) [
    | inl added ↦ inr (
      rw (added, insert_source),
      (
        record { raw = raw; reader = no_interest; writer = no_interest },
        rw (added, insert_source)
            (S.get-insert r.sources _ _ ∙ rw (==_self (S.vacant_key r.sources))),
      ),
    )
    | inr (err, refused) ↦
        inl (
          err,
          rw (refused, insert_source),
          rw (refused, insert_source) (S.get-vacant_key r.sources),
        )
  ]
    where
      e : Event
      e = record { key = S.vacant_key r.sources; readable = false; writable = false }

  -- The removal of a source that is there returns, and it is gone.
  pub remove_source-gone :
      (r : Reactor P S) (key : ℕ) (s : Source)
      → S.get r.sources key ≡ some s
      → (r' : Reactor P S) × (res : IoResult (Unit {0})) × (remove_source P S r key ≡ ok (r', res))
        × (S.get r'.sources key ≡ none)
  unfolding remove_source
  remove_source-gone r key s found = (
    record { poller = (P.delete r.poller s.raw).0; sources = S.remove r.sources key },
    (P.delete r.poller s.raw).1,
    rw found,
    S.get-remove r.sources key key ∙ rw (==_self key),
  )
