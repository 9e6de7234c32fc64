-- ===== src/Sys/Kqueue/Changes.antt =====
-- What an update of the kqueue poller leaves registered.
use platoon.Base.{
  ℕ, ◌≡◌, refl, ◌∙◌, ◌⊎◌, inl, inr, Bool, true, false, not, ◌&&◌, Option, none, some, [], ◌∷◌, ◌==◌,
  ==_iff, arith, Bool-cases, if◌then◌else◌, has_flag, has_flag-bit_or, IoError, IoResult, success,
  failure,
}
use platoon.Sys.{Event}
use platoon.Sys.Kqueue.{Kevent, Libc, kchange, is_refused, first_error, update}

module _ (L : Libc) where
  kchange-deletes :
      (fd : ℕ) (interested : Bool) (filter key : ℕ)
      → has_flag (kchange L fd interested filter key).flags L.ev_delete ≡ not interested
  unfolding kchange
  kchange-deletes fd true filter key =
      simp (has_flag-bit_or, L.receipt-delete, L.add-delete, L.oneshot-delete)
  kchange-deletes fd false filter key = simp (has_flag-bit_or, L.receipt-delete, L.delete-set)

  -- What a filter of a descriptor is registered with after an update, by whether it is wanted: an
  -- error that the poller ignores may have kept it from being registered, or have left it.
  abbrev pub Follows : Bool → ℕ → ℕ → Option ℕ → Type 0
  Follows true key error after = (after ≡ some key) ⊎ (error ≡ L.enoent) ⊎ (error ≡ L.epipe)
  Follows false key error after = (after ≡ none) ⊎ (error ≡ L.epipe)

  ignored :
      (r : Kevent)
      → has_flag r.flags L.ev_error ≡ true
      → is_refused L r ≡ false
      → (r.datum ≡ 0) ⊎ (r.datum ≡ L.enoent) ⊎ (r.datum ≡ L.epipe)
  unfolding is_refused
  ignored r marked fine = elim (Bool-cases (r.datum == 0)) [
    | inl zero_is ↦ inl ((==_iff r.datum 0).0 zero_is)
    | inr some_error ↦ elim (Bool-cases (r.datum == L.enoent)) [
      | inl gone ↦ inr (inl ((==_iff r.datum L.enoent).0 gone))
      | inr found ↦ elim (Bool-cases (r.datum == L.epipe)) [
        | inl broken ↦ inr (inr ((==_iff r.datum L.epipe).0 broken))
        | inr whole ↦ absurd (ground (arith, rw (marked, some_error, found, whole) at fine))
      ]
    ]
  ]

  follows :
      (fd : ℕ) (interested : Bool) (filter key : ℕ) (r : Kevent) (before after : Option ℕ)
      → has_flag r.flags L.ev_error ≡ true
      → is_refused L r ≡ false
      → after ≡ (
          if r.datum == 0
          then (if has_flag (kchange L fd interested filter key).flags L.ev_delete
              then none
              else some key)
          else before)
      → ((has_flag (kchange L fd interested filter key).flags L.ev_delete && r.datum == L.enoent)
            ≡ true
          → before ≡ none)
      → Follows interested key r.datum after
  follows fd true filter key r before after marked fine is missing = elim (ignored r marked fine) [
    | inl made ↦ inl (is ∙ rw (made, kchange-deletes fd true filter key))
    | inr tolerated ↦ inr tolerated
  ]
  follows fd false filter key r before after marked fine is missing =
      let deletes = kchange-deletes fd false filter key in
      elim (ignored r marked fine) [
        | inl made ↦ inl (is ∙ rw (made, deletes))
        | inr (inr broken) ↦ inr broken
        | inr (inl gone) ↦
            let was_none : before ≡ none = missing (rw (deletes, gone) (ground arith)) in
            inl (is ∙ rw (deletes, was_none) (ground arith))
      ]

  first_error-none :
      (r q : Kevent)
      → first_error L (r ∷ q ∷ []) ≡ success tt
      → (is_refused L r ≡ false) × (is_refused L q ≡ false)
  unfolding first_error
  first_error-none r q fine = elim (Bool-cases (is_refused L r)) [
    | inl bad ↦ absurd (ground (arith, rw bad at fine))
    | inr good ↦ elim (Bool-cases (is_refused L q)) [
      | inl bad ↦ absurd (ground (arith, rw (good, bad) at fine))
      | inr also_good ↦ (good, also_good)
    ]
  ]

  submitted_cases :
      (x : IoResult (Kevent × Kevent))
      → ((r : Kevent) × (q : Kevent) × (x ≡ success (r, q))) ⊎ ((err : IoError) × (x ≡ failure err))
  submitted_cases (success (r, q)) = inl (r, q, refl)
  submitted_cases (failure err) = inr (err, refl)

  -- The change of a filter that an update makes.
  abbrev pub reads : ℕ → Event → Kevent
  reads fd event = kchange L fd event.readable L.evfilt_read event.key

  abbrev pub writes : ℕ → Event → Kevent
  writes fd event = kchange L fd event.writable L.evfilt_write event.key

  apart : (fd : ℕ) (event : Event) → ((writes fd event).filter == (reads fd event).filter) ≡ false
  unfolding kchange
  apart fd event = L.filters-apart

  -- After an update of the kqueue poller that succeeds, the kernel has answered both changes with
  -- a receipt, and each filter of the descriptor follows the event: a wanted direction is
  -- registered with the key unless its receipt has one of the two errors that are ignored, and an
  -- unwanted one is not registered unless its receipt has `EPIPE`.
  pub update-Follows :
      (k : L.Kernel) (fd : ℕ) (event : Event)
      → (update L k fd event).1 ≡ success tt
      → (r : Kevent) × (q : Kevent) × ((L.submit k (reads fd event) (writes fd event)).1
          ≡ success (r, q))
        × Follows event.readable event.key r.datum
            (L.entry (update L k fd event).0 fd L.evfilt_read)
        × Follows event.writable event.key q.datum
            (L.entry (update L k fd event).0 fd L.evfilt_write)
  unfolding update kchange
  update-Follows k fd event fine =
      let c = reads fd event in
      let d = writes fd event in
      elim (submitted_cases (L.submit k c d).1) [
        | inr (err, failed) ↦ absurd (ground (arith, rw failed at fine))
        | inl (r, q, done) ↦
            let (good, also_good) = first_error-none r q (rw done at fine) in
            let (marked, also_marked) = L.receipts k c d r q done in
            let (made_reads, made_writes) = L.made k c d r q (apart fd event) done in
            let (gone_reads, gone_writes) = L.missing k c d r q (apart fd event) done in
            (
              r,
              q,
              done,
              follows fd event.readable L.evfilt_read event.key r _ _ marked good made_reads
                  gone_reads,
              follows fd event.writable L.evfilt_write event.key q _ _ also_marked also_good
                  made_writes gone_writes,
            )
      ]
