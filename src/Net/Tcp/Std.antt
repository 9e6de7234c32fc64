-- ===== src/Net/Tcp/Std.antt =====
-- A socket of std that becomes a stream or listener, and back.
use platoon.Base.{
  ℕ, ◌≡◌, refl, sym, ap, subst, ◌∙◌, ◌⊎◌, inl, inr, none, some, ok, arith, ◌==◌, Bool-cases, ==_iff,
  ==_self, if◌then◌else◌, IoError, IoResult, success, failure,
}
use platoon.Slab.{Slab}
use platoon.Sys.{Poller}
use platoon.Sys.Connect.{Sockets}
use platoon.Runtime.Reactor.{Source, Reactor, insert_source}
use platoon.Runtime.Reactor.Stores.{insert_source_stores, remove_source_stores}
use platoon.Net.Tcp.Adopts.{result_cases, adopt-IsWatched}
use platoon.Runtime.Reactor.Watch.{IsWatched}
use platoon.Runtime.Reactor.Keeps.{remove_source-IsWatched}
use platoon.Net
use platoon.Net.{Async, into_sys, drop_async}
use platoon.Net.Tcp.{from_std, adopt, into_std}

module _ (P : Poller) (S : Slab Source) (N : Sockets) where
  abbrev socket : Reactor P S → ℕ → Async
  socket r sys = record { id = S.vacant_key r.sources; sys = some sys }

  -- The reactor refuses a socket, and it is closed, or gets one more source.
  from_std_stores :
      (r : Reactor P S) (w : N.World) (sys : ℕ)
      → (r' : Reactor P S) × (((err : IoError) × (from_std P S N r w sys
              ≡ (r', N.close w sys, failure err))
            × ((k : ℕ) → S.get r'.sources k ≡ S.get r.sources k))
          ⊎ ((s : Source) × (from_std P S N r w sys ≡ (r', w, success (socket r sys)))
              × ((k : ℕ)
                  → S.get r'.sources k
                    ≡ (if k == S.vacant_key r.sources then some s else S.get r.sources k))))
  unfolding from_std adopt platoon.Net.new
  from_std_stores r w sys = elim (insert_source_stores P S r sys) [
    | inl (err, refused, same) ↦
        ((insert_source P S r sys).0, inl (err, rw (refused, adopt, Net.new), same))
    | inr (s, inserted, more) ↦
        ((insert_source P S r sys).0, inr (s, rw (inserted, adopt, Net.new), more))
  ]

  unstored :
      (r : Reactor P S) (s : Source) (k : ℕ)
      → (if k == S.vacant_key r.sources
          then none
          else if k == S.vacant_key r.sources
          then some s
          else S.get r.sources k)
        ≡ S.get r.sources k
  unstored r s k = elim (Bool-cases (k == S.vacant_key r.sources)) [
    | inl same ↦
        rw same (sym (ap (S.get r.sources) ((==_iff k _).0 same) ∙ S.get-vacant_key r.sources))
    | inr differ ↦ rw differ
  ]

  -- The socket is given back, or was closed.
  abbrev pub IsBack : N.World → IoResult ℕ → ℕ → N.World → Type 0
  IsBack w' back sys w =
      ((back ≡ success sys) × (w' ≡ w))
      ⊎ ((err : IoError) × (back ≡ failure err) × (w' ≡ N.close w sys))

  -- The way back takes the source out; the socket is given back, or closed.
  into_std_stores :
      (r : Reactor P S) (w : N.World) (a : Async) (sys : ℕ) (s : Source)
      → a.sys ≡ some sys
      → IsWatched P S r
      → S.get r.sources a.id ≡ some s
      → (r' : Reactor P S) × (w' : N.World) × (back : IoResult ℕ) × (into_std P S N r w a
          ≡ ok (r', w', back))
        × IsBack w' back sys w
        × ((k : ℕ) → S.get r'.sources k ≡ (if k == a.id then none else S.get r.sources k))
        × IsWatched P S r'
  unfolding into_std into_sys drop_async
  into_std_stores r w a sys s has_sys v found =
      let (r', res, run, less) = remove_source_stores P S r a.id s found in
      let (r1, res1, run1, gone, v1) = remove_source-IsWatched P S r a.id s v found in
      let one : r1 ≡ r' = ground (arith, run, run1) in
      let v' = subst (IsWatched P S) one v1 in
      elim (result_cases res) [
        | inl (u, fine) ↦ (r', w, success sys, rw (has_sys, run, fine), inl (refl, refl), less, v')
        | inr (err, failed) ↦ (
          r',
          N.close w sys,
          failure err,
          rw (has_sys, run, failed),
          inr (err, refl, refl),
          less,
          v',
        )
      ]

  -- The reactor refused the socket, and it was closed, or the way back ends with the sources as
  -- before.
  abbrev pub Restores : Reactor P S → N.World → ℕ → Reactor P S × N.World × IoResult Async → Type 0
  Restores r w sys (r', w', made) =
      ((err : IoError) × (made ≡ failure err)
        × (w' ≡ N.close w sys)
        × ((k : ℕ) → S.get r'.sources k ≡ S.get r.sources k)
        × IsWatched P S r')
      ⊎ ((a : Async) × (r'' : Reactor P S) × (w'' : N.World) × (back : IoResult ℕ) × (made
            ≡ success a)
          × (w' ≡ w)
          × (into_std P S N r' w' a ≡ ok (r'', w'', back))
          × IsBack w'' back sys w
          × ((k : ℕ) → S.get r''.sources k ≡ S.get r.sources k)
          × IsWatched P S r'')

  -- In a reactor where everyone who waits is registered, `from_std` fails, with the socket closed,
  -- or `into_std` of what it makes returns, with the socket and the world as before or with an
  -- error and the socket closed; in every case the reactor has the sources that it had, and
  -- everyone who waits is registered.
  pub into_std-from_std :
      (r : Reactor P S) (w : N.World) (sys : ℕ)
      → IsWatched P S r
      → Restores r w sys (from_std P S N r w sys)
  unfolding from_std
  into_std-from_std r w sys v =
      let (r', either) = from_std_stores r w sys in
      let watched = adopt-IsWatched P S N r w sys v in
      elim either [
        | inl (err, is, same) ↦ inl (
          err,
          ap (λ x. x.2) is,
          ap (λ x. x.1) is,
          λ k. ap (λ x. S.get x.0.sources k) is ∙ same k,
          watched,
        )
        | inr (s, is, more) ↦
            let stored : (k : ℕ)
                → S.get (from_std P S N r w sys).0.sources k
                  ≡ (if k == S.vacant_key r.sources then some s else S.get r.sources k) =
              λ k. ap (λ x. S.get x.0.sources k) is ∙ more k in
            let same = ap (λ x. x.1) is in
            let (r'', w'', back, run, ends, less, v'') =
              into_std_stores (from_std P S N r w sys).0 (from_std P S N r w sys).1 (socket r sys)
                sys s refl watched
                (stored (S.vacant_key r.sources) ∙ rw (==_self (S.vacant_key r.sources))) in
            inr (
              socket r sys,
              r'',
              w'',
              back,
              ap (λ x. x.2) is,
              same,
              run,
              subst (IsBack w'' back sys) same ends,
              λ k. less k ∙ rw (stored k) (unstored r s k),
              v'',
            )
      ]
