-- ===== src/Sys/Kqueue.antt =====
-- src/sys.rs, the module `poller` for kqueue, over the calls of libc: each direction is a filter of
-- its own, and an update changes both at once. The kernel and the constants are an argument.
pub mod Changes
mod Examples
use platoon.Base.{
  ℕ, ◌≡◌, Bool, true, false, not, ◌&&◌, ◌||◌, Option, none, some, List, [], ◌∷◌, ◌==◌,
  if◌then◌else◌, bit_or, has_flag, IoError, IoResult, success, failure,
}
use platoon.Sys.{Event}

-- `libc::kevent`, where a filter is known by a number. `datum` is its `data`.
pub record Kevent : Type 0 where
  pub ident : ℕ
  pub filter : ℕ
  pub flags : ℕ
  pub fflags : ℕ
  pub datum : ℕ
  pub udata : ℕ

-- What the poller uses of the crate libc. `entry` is what a descriptor is registered with for a
-- filter: the user data.
pub record Libc : Type 1 where
  pub evfilt_read : ℕ
  pub evfilt_write : ℕ
  pub ev_add : ℕ
  pub ev_delete : ℕ
  pub ev_oneshot : ℕ
  pub ev_receipt : ℕ
  pub ev_error : ℕ
  pub ev_eof : ℕ
  pub enoent : ℕ
  pub epipe : ℕ
  pub filters-apart : (evfilt_write == evfilt_read) ≡ false
  pub delete-set : has_flag ev_delete ev_delete ≡ true
  pub receipt-delete : has_flag ev_receipt ev_delete ≡ false
  pub add-delete : has_flag ev_add ev_delete ≡ false
  pub oneshot-delete : has_flag ev_oneshot ev_delete ≡ false
  -- `io::Error::from_raw_os_error`.
  pub os_error : ℕ → IoError
  pub Kernel : Type 0
  -- `kevent` with two changes and room for their receipts, whose data is the number of an error
  -- or 0.
  pub submit : Kernel → Kevent → Kevent → Kernel × IoResult (Kevent × Kevent)
  -- `kevent` with no changes; the timeout is in nanoseconds.
  pub wait : Kernel → ℕ → Option ℕ → Kernel × IoResult (List Kevent)
  pub entry : Kernel → ℕ → ℕ → Option ℕ
  -- With `EV_RECEIPT`, every change yields a receipt that has `EV_ERROR`.
  pub receipts :
      (k : Kernel) (c d r q : Kevent)
      → (submit k c d).1 ≡ success (r, q)
      → (has_flag r.flags ev_error ≡ true) × (has_flag q.flags ev_error ≡ true)
  -- A change without an error is made, and one with an error is not; a deletion of what is not
  -- there has the error `ENOENT`.
  pub made :
      (k : Kernel) (c d r q : Kevent)
      → (d.filter == c.filter) ≡ false
      → (submit k c d).1 ≡ success (r, q)
      → (entry (submit k c d).0 c.ident c.filter ≡ (
          if r.datum == 0
          then (if has_flag c.flags ev_delete then none else some c.udata)
          else entry k c.ident c.filter))
        × (entry (submit k c d).0 d.ident d.filter ≡ (
            if q.datum == 0
            then (if has_flag d.flags ev_delete then none else some d.udata)
            else entry k d.ident d.filter))
  pub missing :
      (k : Kernel) (c d r q : Kevent)
      → (d.filter == c.filter) ≡ false
      → (submit k c d).1 ≡ success (r, q)
      → (has_flag c.flags ev_delete && r.datum == enoent ≡ true → entry k c.ident c.filter ≡ none)
        × (has_flag d.flags ev_delete && q.datum == enoent ≡ true → entry k d.ident d.filter ≡ none)

module _ (L : Libc) where
  open L use {
    Kernel, evfilt_read, evfilt_write, ev_add, ev_delete, ev_oneshot, ev_receipt, ev_error, ev_eof,
    enoent, epipe,
  }

  pub kchange : ℕ → Bool → ℕ → ℕ → Kevent
  kchange fd interested filter key = record {
    ident = fd;
    filter = filter;
    flags = bit_or ev_receipt (if interested then bit_or ev_add ev_oneshot else ev_delete);
    fflags = 0;
    datum = 0;
    udata = key;
  }

  -- `From<&SysEvent> for Event`.
  pub from_sys : Kevent → Event
  from_sys sys = record {
    key = sys.udata;
    readable = sys.filter == evfilt_read;
    writable =
        sys.filter == evfilt_write || (sys.filter == evfilt_read && has_flag sys.flags ev_eof);
  }

  pub from_all : List Kevent → List Event
  from_all [] = []
  from_all (e ∷ es) = from_sys e ∷ from_all es

  -- An error that is not ignored.
  pub is_refused : Kevent → Bool
  is_refused r =
      has_flag r.flags ev_error
      && not (r.datum == 0)
      && not (r.datum == enoent)
      && not (r.datum == epipe)

  -- The loop over the receipts, which the first error ends.
  pub first_error : List Kevent → IoResult (Unit {0})
  first_error [] = success tt
  first_error (r ∷ rs) = if is_refused r then failure (L.os_error r.datum) else first_error rs

  pub update : Kernel → ℕ → Event → Kernel × IoResult (Unit {0})
  update k fd event =
      let reads = kchange fd event.readable evfilt_read event.key in
      let writes = kchange fd event.writable evfilt_write event.key in
      let (k', submitted) = L.submit k reads writes in
      (k', elim submitted [ failure err ↦ failure err | success (r, q) ↦ first_error (r ∷ q ∷ []) ])

  pub add : Kernel → ℕ → Event → Kernel × IoResult (Unit {0})
  add k fd event = update k fd event

  -- `Event::default()`.
  pub delete : Kernel → ℕ → Kernel × IoResult (Unit {0})
  delete k fd = update k fd (record { key = 0; readable = false; writable = false })

  -- The room is the capacity of the buffer. The timeout is the one that the pointer of the source is
  -- meant to point to.
  pub poll : ℕ → Kernel → Option ℕ → Kernel × IoResult (List Event)
  poll room k timeout =
      let (k', waited) = L.wait k room timeout in
      (k', elim waited [ success es ↦ success (from_all es) | failure err ↦ failure err ])
