-- ===== src/Sys/Epoll/Registers.antt =====
-- The poller of Linux keeps what the reactor relies on.
use platoon.Base.{
  ℕ, ◌≡◌, refl, sym, ap, ◌∙◌, subst, ◌⊎◌, inl, inr, Bool, true, false, Option, none, some, List, [],
  ◌∷◌, ◌==◌, if◌then◌else◌, bit_or, has_flag, has_flag-bit_or, has_flag-mask, arith, IoError,
  IoResult, success, failure,
}
use platoon.Sys.{Event, event_keys, IsKept, Poller}
use platoon.Sys.Epoll.{
  SysEvent, Operation, ctl_add, ctl_mod, data_keys, IsLeft, Libc, timeout_ms, to_sys, from_sys,
  from_all, add, update, delete, poll,
}

module _ (L : Libc) where
  open L use {
    in-set, out-set, in-pri, in-out, out-in, out-pri, rdhup-in, rdhup-pri, rdhup-out, oneshot-in,
    oneshot-pri, oneshot-out,
  }

  -- The part of the flags that a readable event sets, and the one that a writable event sets.
  in_part : Bool → ℕ
  in_part r = if r then bit_or (bit_or L.epolloneshot L.epollin) L.epollrdhup else L.epolloneshot

  in_part-flags :
      (r : Bool)
      → (has_flag (in_part r) (bit_or L.epollin L.epollpri) ≡ r)
        × (has_flag (in_part r) L.epollout ≡ false)
  unfolding in_part
  in_part-flags true = (
    simp (has_flag-mask, has_flag-bit_or, in-set, oneshot-in),
    simp (has_flag-bit_or, oneshot-out, in-out, rdhup-out),
  )
  in_part-flags false = (simp (has_flag-mask, oneshot-in, oneshot-pri), oneshot-out)

  -- The flags of a writable event.
  out_part-flags :
      (r : Bool)
      → (has_flag (bit_or (in_part r) L.epollout) (bit_or L.epollin L.epollpri) ≡ r)
        × (has_flag (bit_or (in_part r) L.epollout) L.epollout ≡ true)
  out_part-flags r =
      let (reads, writes) = in_part-flags r in
      let quiet : has_flag L.epollout (bit_or L.epollin L.epollpri) ≡ false =
        simp (has_flag-mask, out-in, out-pri) in
      (
        has_flag-bit_or (in_part r) L.epollout (bit_or L.epollin L.epollpri)
            ∙ rw (reads, quiet) (ground arith),
        has_flag-bit_or (in_part r) L.epollout L.epollout ∙ rw (writes, out-set),
      )

  abbrev event_of : ℕ → Bool → Bool → Event
  event_of key r w = record { key = key; readable = r; writable = w }

  event_of-fields :
      (key : ℕ) {r r' w w' : Bool} → r ≡ r' → w ≡ w' → event_of key r w ≡ event_of key r' w'
  event_of-fields key p q = rw (p, q)

  read_back : (key : ℕ) (r w : Bool) → from_sys L (to_sys L (event_of key r w)) ≡ event_of key r w
  unfolding from_sys to_sys in_part
  read_back key r true = let (reads, writes) = out_part-flags r in event_of-fields key reads writes
  read_back key r false = let (reads, writes) = in_part-flags r in event_of-fields key reads writes

  -- An event that is converted to the flags of epoll and back is the same event.
  pub from_sys-to_sys : (e : Event) → from_sys L (to_sys L e) ≡ e
  from_sys-to_sys e = read_back e.key e.readable e.writable

  -- What the kernel has registered, read as events.
  abbrev pub read_entry : Option SysEvent → Option Event
  read_entry none = none
  read_entry (some e) = some (from_sys L e)

  abbrev pub registered : L.Kernel → ℕ → Option Event
  registered k fd = read_entry (L.interest k fd)

  read-none : (o : Option SysEvent) → o ≡ none → read_entry o ≡ none
  read-none o h = rw h

  read-if :
      (b : Bool) (e : Event) (o : Option SysEvent)
      → read_entry (if b then some (to_sys L e) else o) ≡ (if b then some e else read_entry o)
  read-if true e o = ap some (from_sys-to_sys e)
  read-if false e o = refl

  pub ctl-registers :
      (k : L.Kernel) (o : Operation) (fd : ℕ) (e : Event) (j : ℕ)
      → (L.epoll_ctl k o fd (to_sys L e)).1 ≡ success tt
      → registered (L.epoll_ctl k o fd (to_sys L e)).0 j
        ≡ (if j == fd then some e else registered k j)
  ctl-registers k o fd e j fine =
      ap read_entry (L.ctl-done k o fd (to_sys L e) j fine) ∙ read-if (j == fd) e (L.interest k j)

  pub added_fresh :
      (k : L.Kernel) (fd : ℕ) (e : Event) → (add L k fd e).1 ≡ success tt → registered k fd ≡ none
  unfolding add
  added_fresh k fd e fine = ap read_entry (L.add-fresh k fd (to_sys L e) fine)

  pub add-registered :
      (k : L.Kernel) (fd : ℕ) (e : Event) (j : ℕ)
      → (add L k fd e).1 ≡ success tt
      → registered (add L k fd e).0 j ≡ (if j == fd then some e else registered k j)
  unfolding add
  add-registered k fd e j fine = ctl-registers k ctl_add fd e j fine

  pub add-refused :
      (k : L.Kernel) (fd : ℕ) (e : Event) (err : IoError) (j : ℕ)
      → (add L k fd e).1 ≡ failure err
      → registered (add L k fd e).0 j ≡ registered k j
  unfolding add
  add-refused k fd e err j bad = ap read_entry (L.ctl-failed k ctl_add fd (to_sys L e) err j bad)

  pub update-registered :
      (k : L.Kernel) (fd : ℕ) (e : Event) (j : ℕ)
      → (update L k fd e).1 ≡ success tt
      → registered (update L k fd e).0 j ≡ (if j == fd then some e else registered k j)
  unfolding update
  update-registered k fd e j fine = ctl-registers k ctl_mod fd e j fine

  pub update-refused :
      (k : L.Kernel) (fd : ℕ) (e : Event) (err : IoError) (j : ℕ)
      → (update L k fd e).1 ≡ failure err
      → registered (update L k fd e).0 j ≡ registered k j
  unfolding update
  update-refused k fd e err j bad = ap read_entry (L.ctl-failed k ctl_mod fd (to_sys L e) err j bad)

  pub delete-others :
      (k : L.Kernel) (fd j : ℕ)
      → (j == fd) ≡ false
      → registered (delete L k fd).0 j ≡ registered k j
  unfolding delete
  delete-others k fd j other = ap read_entry (L.del-others k fd j other)

  -- The keys of the events are the data that the kernel reports.
  keys_are_data : (es : List SysEvent) → event_keys (from_all L es) ≡ data_keys es
  unfolding from_all from_sys
  keys_are_data [] = refl
  keys_are_data (e ∷ es) = ap (◌∷◌ e.u64) (keys_are_data es)

  IsLeft-IsKept :
      (es : List SysEvent) (before after : Option SysEvent)
      → IsLeft es before after
      → IsKept (from_all L es) (read_entry before) (read_entry after)
  unfolding from_sys
  IsLeft-IsKept es none after h = rw h
  IsLeft-IsKept es (some e) after (e', is, key, same) = (
    from_sys L e',
    ap read_entry is,
    key,
    λ untold. ap (from_sys L) (same (rw (sym (keys_are_data es)) untold)),
  )

  waited_cases :
      (x : IoResult (List SysEvent))
      → ((es : List SysEvent) × (x ≡ success es)) ⊎ ((err : IoError) × (x ≡ failure err))
  waited_cases (success es) = inl (es, refl)
  waited_cases (failure err) = inr (err, refl)

  module _ (room : ℕ) where
    pub poll-IsKept :
        (k : L.Kernel) (timeout : Option ℕ) (es : List Event) (j : ℕ)
        → (poll L room k timeout).1 ≡ success es
        → IsKept es (registered k j) (registered (poll L room k timeout).0 j)
    unfolding poll
    poll-IsKept k timeout es j fine =
        elim (waited_cases (L.epoll_wait k room (timeout_ms timeout)).1) [
          | inl (sys, waited) ↦
              let is : from_all L sys ≡ es = ground (arith, rw waited at fine) in
              subst (λ xs. IsKept xs (registered k j) (registered (poll L room k timeout).0 j)) is
                (IsLeft-IsKept sys _ _ (L.wait-IsLeft k room (timeout_ms timeout) sys j waited))
          | inr (err, failed) ↦ absurd (ground (arith, rw failed at fine))
        ]

    pub poll-refused :
        (k : L.Kernel) (timeout : Option ℕ) (err : IoError) (j : ℕ)
        → (poll L room k timeout).1 ≡ failure err
        → registered (poll L room k timeout).0 j ≡ registered k j
    unfolding poll
    poll-refused k timeout err j failed =
        elim (waited_cases (L.epoll_wait k room (timeout_ms timeout)).1) [
          | inl (sys, waited) ↦ absurd (ground (arith, rw waited at failed))
          | inr (err', failed') ↦
              ap read_entry (L.wait-failed k room (timeout_ms timeout) err' j failed')
        ]

-- The poller of Linux, with what the reactor relies on.
abbrev pub epoll_poller : Libc → ℕ → Poller
epoll_poller L room = record {
  State = L.Kernel;
  add = add L;
  update = update L;
  delete = delete L;
  poll = poll L room;
  registered = registered L;
  add-fresh = added_fresh L;
  add-registered = add-registered L;
  add-refused = add-refused L;
  update-registered = update-registered L;
  update-refused = update-refused L;
  delete-others = delete-others L;
  poll-IsKept = poll-IsKept L room;
  poll-refused = poll-refused L room;
}
