-- ===== src/Sys/Epoll/Reports.antt =====
-- The reactor over the poller of Linux: what the kernel waits for, and what its reports wake.
use platoon.Base.{
  ℕ, ◌≡◌, refl, sym, ap, ◌∙◌, subst, inl, inr, true, not, ◌||◌, Option, none, some, List, [], ◌∷◌,
  ◌++◌, arith, bit_or, has_flag, ok, Waker, pending, success,
}
use platoon.Slab.{Slab}
use platoon.Sys.{Event}
use platoon.Sys.Epoll.{SysEvent, Libc, timeout_ms, from_sys, from_all, poll}
use platoon.Sys.Epoll.Registers.{read_entry, epoll_poller}
use platoon.Runtime.Reactor
use platoon.Runtime.Reactor.{
  Direction, read, write, Source, interest, has_poller, Reactor, poll_ready,
}
use platoon.Runtime.Reactor.Watch.{IsWatched}
use platoon.Runtime.Reactor.Ready.{poll_ready-Readies}
use platoon.Runtime.Reactor.Fires.{reports}
use platoon.Runtime.Reactor.Reports.{Wakes, poll-Wakes}

module _ (L : Libc) (room : ℕ) (S : Slab Source) where
  -- The flags that say that a source is ready in a direction.
  abbrev pub flags_of : Direction → ℕ
  flags_of read = bit_or L.epollin L.epollpri
  flags_of write = L.epollout

  -- The kernel waits for a source, under its key, in a direction.
  abbrev pub Awaits : L.Kernel → ℕ → ℕ → Direction → Type 0
  Awaits k fd key d =
      (e : SysEvent) × (L.interest k fd ≡ some e)
      × (e.u64 ≡ key)
      × (has_flag e.events (flags_of d) ≡ true)

  -- What is registered under a key, in the kernel's terms.
  entry_inverse :
      (o : Option SysEvent) (e : Event)
      → read_entry L o ≡ some e
      → (sys : SysEvent) × (o ≡ some sys) × (from_sys L sys ≡ e)
  entry_inverse none e h = absurd (ground (arith, h))
  entry_inverse (some sys) e h = (sys, refl, ground (arith, h))

  wanted :
      (e : Event) (s : Source) (d : Direction) (w : Waker)
      → (not (has_poller s.reader) || e.readable) ≡ true
      → (not (has_poller s.writer) || e.writable) ≡ true
      → (interest s d).poller ≡ some w
      → reports e d ≡ true
  unfolding has_poller interest
  wanted e s read w reader writer waits = rw waits at reader
  wanted e s write w reader writer waits = rw waits at writer

  reports-flag :
      (sys : SysEvent) (d : Direction)
      → reports (from_sys L sys) d ≡ has_flag sys.events (flags_of d)
  unfolding from_sys
  reports-flag sys read = refl
  reports-flag sys write = refl

  from_sys-key : (sys : SysEvent) → (from_sys L sys).key ≡ sys.u64
  unfolding from_sys
  from_sys-key sys = refl

  -- Where everyone who waits is registered, the kernel waits with them.
  watched-Awaits :
      (r : Reactor (epoll_poller L room) S) (key : ℕ) (s : Source) (d : Direction) (w : Waker)
      → IsWatched (epoll_poller L room) S r
      → S.get r.sources key ≡ some s
      → (interest s d).poller ≡ some w
      → Awaits r.poller s.raw key d
  watched-Awaits r key s d w v found waits =
      let (e, reg, keyed, reader, writer) = v.served key s found in
      let (sys, entry, is) = entry_inverse (L.interest r.poller s.raw) e reg in
      (
        sys,
        entry,
        sym (from_sys-key sys) ∙ ap (λ x. x.key) is ∙ keyed,
        sym (reports-flag sys d) ∙ ap (λ x. reports x d) is ∙ wanted e s d w reader writer waits,
      )

  -- Over the poller of Linux, in a reactor where everyone who waits is registered, a poll for
  -- readiness of a source that is left pending leaves an entry in the interest list of the kernel
  -- for the descriptor of the source, with its key as the data and a flag of the direction, and
  -- the waker at the source.
  pub pending-Awaits :
      (r r' : Reactor (epoll_poller L room) S) (ws : List Waker) (key : ℕ) (s : Source)
      (d : Direction) (cx : Waker)
      → IsWatched (epoll_poller L room) S r
      → S.get r.sources key ≡ some s
      → poll_ready (epoll_poller L room) S r key d cx ≡ ok (r', ws, pending)
      → (s' : Source) × (S.get r'.sources key ≡ some s')
        × ((interest s' d).poller ≡ some cx)
        × Awaits r'.poller s'.raw key d
  pending-Awaits r r' ws key s d cx v found ran =
      let (t, ws', res, s', is, got, ends) =
        poll_ready-Readies (epoll_poller L room) S r key s d cx v found in
      let same : ok (r', ws, pending) ≡ ok (t, ws', res) = sym ran ∙ is in
      elim ends [
        | inl (done, _, _, _) ↦ absurd (ground (arith, same, done))
        | inr (inr (err, failed)) ↦ absurd (ground (arith, same, failed))
        | inr (inl (_, _, kept, _, v')) ↦
            let tr : t ≡ r' = ground (arith, same) in
            let got' : S.get r'.sources key ≡ some s' =
              subst (λ u. S.get u.sources key ≡ some s') tr got in
            let v'' : IsWatched (epoll_poller L room) S r' =
              subst (IsWatched (epoll_poller L room) S) tr v' in
            (s', got', kept, watched-Awaits r' key s' d cx v'' got' kept)
      ]

  from_all-append :
      (xs ys : List SysEvent) (e : SysEvent)
      → from_all L (xs ++ e ∷ ys) ≡ from_all L xs ++ from_sys L e ∷ from_all L ys
  unfolding from_all
  from_all-append [] ys e = refl
  from_all-append (x ∷ xs) ys e = rw (from_all-append xs ys e)

  polled :
      (k : L.Kernel) (timeout : Option ℕ) (es : List SysEvent)
      → (L.epoll_wait k room (timeout_ms timeout)).1 ≡ success es
      → (poll L room k timeout).1 ≡ success (from_all L es)
  unfolding poll
  polled k timeout es waited = rw waited

  -- Over the poller of Linux, where `epoll_wait` reports an event with the key of a source and a
  -- flag of the direction in which a waiter waits, and the poll of the reactor ends without an
  -- error, the waiter is woken and its interest is marked.
  pub epoll_wait-Wakes :
      (r : Reactor (epoll_poller L room) S) (timeout : Option ℕ) (xs ys : List SysEvent)
      (e : SysEvent) (s : Source) (d : Direction) (w : Waker)
      → (L.epoll_wait r.poller room (timeout_ms timeout)).1 ≡ success (xs ++ e ∷ ys)
      → has_flag e.events (flags_of d) ≡ true
      → S.get r.sources e.u64 ≡ some s
      → (interest s d).poller ≡ some w
      → (Reactor.poll (epoll_poller L room) S r timeout).2 ≡ success tt
      → Wakes (epoll_poller L room) S w e.u64 d (Reactor.poll (epoll_poller L room) S r timeout)
  epoll_wait-Wakes r timeout xs ys e s d w waited told found waits fine =
      let all = polled r.poller timeout (xs ++ e ∷ ys) waited ∙ rw (from_all-append xs ys e) in
      let key = from_sys-key e in
      subst
        (λ k. Wakes (epoll_poller L room) S w k d (Reactor.poll (epoll_poller L room) S r timeout))
        key
        (poll-Wakes (epoll_poller L room) S r timeout (from_all L xs) (from_all L ys) (from_sys L e)
          s d w all (reports-flag e d ∙ told) (rw key found) waits fine)
