-- ===== src/Sys/Kqueue/Examples.antt =====
-- A kernel as a table of filters, with the values of the constants on FreeBSD.
use platoon.Base.{
  ℕ, ◌≡◌, refl, sym, ap, ◌∙◌, inl, inr, true, false, ◌&&◌, Option, none, some, [], ◌==◌, arith,
  Bool-cases, Option-cases, if◌then◌else◌, has_flag, other_kind, IoResult, success,
}
use platoon.Sys.{Event}
use platoon.Sys.Kqueue.{Kevent, Libc, kchange, is_refused, first_error, update}
use platoon.Sys.Kqueue.Changes.{Follows, reads, writes, update-Follows}

abbrev Table : Type 0
Table = ℕ → ℕ → Option ℕ

abbrev put : Table → Kevent → Option ℕ → Table
put k c o = λ i f. if i == c.ident && f == c.filter then o else k i f

abbrev receipt : Kevent → ℕ → Kevent
receipt c error = record c { flags = 0x4000; datum = error }

-- One change, where 2 is `ENOENT`.
abbrev change : Table → Kevent → Table × Kevent
change k c =
    if has_flag c.flags 2
    then elim (k c.ident c.filter) [
      | none ↦ (k, receipt c 2)
      | some _ ↦ (put k c none, receipt c 0)
    ]
    else (put k c (some c.udata), receipt c 0)

abbrev submit : Table → Kevent → Kevent → Table × IoResult (Kevent × Kevent)
submit k c d = ((change (change k c).0 d).0, success ((change k c).1, (change (change k c).0 d).1))

-- What a change does to its own entry, and to one of another filter.
change-own :
    (k : Table) (c : Kevent)
    → (change k c).0 c.ident c.filter ≡ (
        if (change k c).1.datum == 0
        then (if has_flag c.flags 2 then none else some c.udata)
        else k c.ident c.filter)
change-own k c = elim (Bool-cases (has_flag c.flags 2)) [
  | inr adds ↦ ground (arith, adds)
  | inl deletes ↦ elim (Option-cases (k c.ident c.filter)) [
    | inl missing ↦ ground (arith, deletes, missing)
    | inr (v, held) ↦ ground (arith, deletes, held)
  ]
]

change-other :
    (k : Table) (c : Kevent) (i f : ℕ) → (f == c.filter) ≡ false → (change k c).0 i f ≡ k i f
change-other k c i f other = elim (Bool-cases (has_flag c.flags 2)) [
  | inr adds ↦ ground (arith, adds)
  | inl deletes ↦ elim (Option-cases (k c.ident c.filter)) [
    | inl missing ↦ ground (arith, deletes, missing)
    | inr (v, held) ↦ ground (arith, deletes, held)
  ]
]

change-missing :
    (k : Table) (c : Kevent)
    → (has_flag c.flags 2 && (change k c).1.datum == 2) ≡ true
    → k c.ident c.filter ≡ none
change-missing k c h = elim (Bool-cases (has_flag c.flags 2)) [
  | inr adds ↦ absurd (ground (arith, rw adds at h))
  | inl deletes ↦ elim (Option-cases (k c.ident c.filter)) [
    | inl missing ↦ missing
    | inr (v, held) ↦ absurd (ground (arith, rw (deletes, held) at h))
  ]
]

same_receipts :
    (k : Table) (c d r q : Kevent)
    → (submit k c d).1 ≡ success (r, q)
    → ((change k c).1 ≡ r) × ((change (change k c).0 d).1 ≡ q)
same_receipts k c d r q h = (ground (arith, h), ground (arith, h))

receipt-error : (k : Table) (c : Kevent) → (change k c).1.flags ≡ 0x4000
receipt-error k c = elim (Bool-cases (has_flag c.flags 2)) [
  | inr adds ↦ ground (arith, adds)
  | inl deletes ↦ elim (Option-cases (k c.ident c.filter)) [
    | inl missing ↦ ground (arith, deletes, missing)
    | inr (v, held) ↦ ground (arith, deletes, held)
  ]
]

bits :
    (has_flag 2 2 ≡ true)
    × (has_flag 0x40 2 ≡ false)
    × (has_flag 1 2 ≡ false)
    × (has_flag 0x10 2 ≡ false)
    × (has_flag 0x4000 0x4000 ≡ true)
unfolding has_flag
bits = (refl, refl, refl, refl, refl)

receipts :
    (k : Table) (c d r q : Kevent)
    → (submit k c d).1 ≡ success (r, q)
    → (has_flag r.flags 0x4000 ≡ true) × (has_flag q.flags 0x4000 ≡ true)
receipts k c d r q h =
    let (is, also) = same_receipts k c d r q h in
    (
      ap (λ f. has_flag f 0x4000) (sym (ap (λ x. x.flags) is) ∙ receipt-error k c) ∙ bits.4,
      ap (λ f. has_flag f 0x4000) (sym (ap (λ x. x.flags) also) ∙ receipt-error (change k c).0 d)
          ∙ bits.4,
    )

-- What a change leaves of an entry, by its receipt.
abbrev left_by : Kevent → Kevent → Option ℕ → Option ℕ
left_by c r before =
    if r.datum == 0 then (if has_flag c.flags 2 then none else some c.udata) else before

made :
    (k : Table) (c d r q : Kevent)
    → (d.filter == c.filter) ≡ false
    → (submit k c d).1 ≡ success (r, q)
    → ((submit k c d).0 c.ident c.filter ≡ left_by c r (k c.ident c.filter))
      × ((submit k c d).0 d.ident d.filter ≡ left_by d q (k d.ident d.filter))
made k c d r q apart h =
    let (is, also) = same_receipts k c d r q h in
    (
      change-other (change k c).0 d c.ident c.filter (ground (arith, apart))
          ∙ change-own k c
          ∙ ap (λ x. left_by c x (k c.ident c.filter)) is,
      change-own (change k c).0 d
          ∙ ap (λ o. left_by d (change (change k c).0 d).1 o)
              (change-other k c d.ident d.filter apart)
          ∙ ap (λ x. left_by d x (k d.ident d.filter)) also,
    )

missing :
    (k : Table) (c d r q : Kevent)
    → (d.filter == c.filter) ≡ false
    → (submit k c d).1 ≡ success (r, q)
    → ((has_flag c.flags 2 && r.datum == 2) ≡ true → k c.ident c.filter ≡ none)
      × ((has_flag d.flags 2 && q.datum == 2) ≡ true → k d.ident d.filter ≡ none)
missing k c d r q apart h =
    let (is, also) = same_receipts k c d r q h in
    (
      λ gone. change-missing k c (rw is gone),
      λ gone.
          sym (change-other k c d.ident d.filter apart)
          ∙ change-missing (change k c).0 d (rw also gone),
    )

abbrev freebsd : Libc
freebsd = record {
  evfilt_read = 1;
  evfilt_write = 2;
  ev_add = 1;
  ev_delete = 2;
  ev_oneshot = 0x10;
  ev_receipt = 0x40;
  ev_error = 0x4000;
  ev_eof = 0x8000;
  enoent = 2;
  epipe = 32;
  filters-apart = refl;
  delete-set = bits.0;
  receipt-delete = bits.1;
  add-delete = bits.2;
  oneshot-delete = bits.3;
  os_error = other_kind;
  Kernel = Table;
  submit = submit;
  wait = λ k room timeout. (k, success []);
  entry = λ k i f. k i f;
  receipts = receipts;
  made = made;
  missing = missing;
}

-- The writer of descriptor 5 is registered, and then the reader waits instead.
abbrev writer_only : Table
writer_only = λ i f. if i == 5 && f == 2 then some 9 else none

abbrev reader_waits : Event
reader_waits = record { key = 9; readable = true; writable = false }

updated : (update freebsd writer_only 5 reader_waits).1 ≡ success tt
unfolding update first_error is_refused kchange has_flag
updated = refl

update-Follows_example :
    (r : Kevent) × (q : Kevent) × ((submit writer_only
        (reads freebsd 5 reader_waits)
        (writes freebsd 5 reader_waits)).1
      ≡ success (r, q))
    × Follows freebsd true 9 r.datum ((update freebsd writer_only 5 reader_waits).0 5 1)
    × Follows freebsd false 9 q.datum ((update freebsd writer_only 5 reader_waits).0 5 2)
update-Follows_example = update-Follows freebsd writer_only 5 reader_waits updated
