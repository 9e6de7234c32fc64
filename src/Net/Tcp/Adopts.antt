-- ===== src/Net/Tcp/Adopts.antt =====
-- A socket that was made is taken in by the reactor, or dropped.
use platoon.Base.{ℕ, ◌≡◌, refl, ◌⊎◌, inl, inr, none, some, IoError, IoResult, success, failure}
use platoon.Slab.{Slab}
use platoon.Sys.{Poller}
use platoon.Sys.Connect.{Sockets}
use platoon.Runtime.Reactor.{Source, Reactor}
use platoon.Runtime.Reactor.Watch.{IsWatched}
use platoon.Runtime.Reactor.Keeps.{insert_source-IsWatched, insert_source_cases}
use platoon.Net
use platoon.Net.{Async}
use platoon.Net.Tcp.{adopt, unblocked}

pub result_cases :
    {A : Type 0} (x : IoResult A)
    → ((a : A) × (x ≡ success a)) ⊎ ((err : IoError) × (x ≡ failure err))
result_cases (success a) = inl (a, refl)
result_cases (failure err) = inr (err, refl)

module _ (P : Poller) (S : Slab Source) (N : Sockets) where
  -- A socket that the reactor refuses leaves the next key vacant; one that it takes has its source
  -- there.
  pub adopt_cases :
      (r : Reactor P S) (w : N.World) (sys : ℕ)
      → let (r', w', adopted) = adopt P S N r w sys in
        ((err : IoError) × (adopted ≡ failure err)
          × (S.get r'.sources (S.vacant_key r.sources) ≡ none))
        ⊎ ((adopted ≡ success (record { id = S.vacant_key r.sources; sys = some sys }))
            × ((s : Source) × (S.get r'.sources (S.vacant_key r.sources) ≡ some s)))
  unfolding adopt platoon.Net.new
  adopt_cases r w sys = elim (insert_source_cases P S r sys) [
    | inl (err, refused, vacant) ↦
        inl (err, rw (refused, adopt, Net.new), rw (refused, adopt, Net.new) vacant)
    | inr (inserted, (s, there_now)) ↦
        inr (rw (inserted, adopt, Net.new), (s, rw (inserted, adopt, Net.new) there_now))
  ]

  pub adopt-IsWatched :
      (r : Reactor P S) (w : N.World) (sys : ℕ)
      → IsWatched P S r
      → IsWatched P S (adopt P S N r w sys).0
  unfolding adopt platoon.Net.new
  adopt-IsWatched r w sys v = elim (insert_source_cases P S r sys) [
    | inl (err, refused, _) ↦ rw (refused, adopt, Net.new) (insert_source-IsWatched P S r sys v)
    | inr (inserted, _) ↦ rw (inserted, adopt, Net.new) (insert_source-IsWatched P S r sys v)
  ]

  -- The stream has a socket, and its source is there.
  abbrev pub IsOpen : Reactor P S → Async → Type 0
  IsOpen r a = ((sys : ℕ) × (a.sys ≡ some sys)) × ((s : Source) × (S.get r.sources a.id ≡ some s))

  pub unblocked_cases :
      (r : Reactor P S) (w : N.World) (sys : ℕ)
      → let (r', w', made) = unblocked P S N r w sys in
        ((err : IoError) × (made ≡ failure err)) ⊎ ((a : Async) × (made ≡ success a) × IsOpen r' a)
  unfolding unblocked
  unblocked_cases r w sys = elim (result_cases (N.set_nonblocking w sys).1) [
    | inr (err, failed) ↦ inl (err, rw (failed, unblocked))
    | inl (_, fine) ↦ elim (adopt_cases r (N.set_nonblocking w sys).0 sys) [
      | inl (err, refused, _) ↦ inl (err, rw (fine, unblocked, refused))
      | inr (taken_in, (s, found)) ↦ inr (
        record { id = S.vacant_key r.sources; sys = some sys },
        rw (fine, unblocked, taken_in),
        ((sys, refl), (s, rw (fine, unblocked) found)),
      )
    ]
  ]
