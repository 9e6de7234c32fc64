-- ===== src/RwLock/Users/Exclusion.antt =====
-- A readers-writer lock never panics, and its guards are many readers or one writer: the
-- `RefCell` is borrowed as they say.
use platoon.Base.{
  ◌+◌, ◌≤◌, ◌≡◌, refl, ap, ◌∙◌, inl, inr, Bool, List, [], ◌∷◌, ◌++◌, arith, ok, RefCell, Insert,
  pick-Insert, sum, Waker,
}
use platoon.Slab.{Slab}
use platoon.Semaphore.{Waiter, AcquireState, idle}
use platoon.Semaphore.Queue.{Queue}
use platoon.Semaphore.System.{poll_future, cancel_future, release_permit}
use platoon.Semaphore.System.Joins.{future}
use platoon.Semaphore.System.Matched.{Matched-Insert}
use platoon.Semaphore.System.Sound.{IsSound, total, Steps}
use platoon.Semaphore.System.Futures.{poll_future-Steps, cancel_future-Steps}
use platoon.Semaphore.System.Permits.{try_take-Steps, release_permit-Steps}
use platoon.Semaphore.System.Inverse.{
  poll_future-cases, cancel_future-cases, release_permit-cases, try_take-cases,
}
use platoon.RwLock.{permits_max, drop_lock, deref_mut}
use platoon.RwLock.Users.{
  Users, Mode, shared, exclusive, cost, costs, Action, locks, polls, cancels, tries, unlocks,
  writes, asking, view, Result, after_lock, poll_one, cancel_one, try_one, unlock_one, write_one,
  step,
}
use platoon.RwLock.Users.Guards.{borrow_of, IsCompatible-of_fit, Insert-costs}
use platoon.RwLock.Users.Modes.{
  borrow_for, unborrow_for, borrow_fits, borrow_leaves, readied, poll_mode-ready, poll_mode-pending,
  try_mode-taken, try_mode-refused, drop_mode_lem,
}
use platoon.RwLock.Users.Excludes.{IsExclusive, value_after, Excludes, Insert-asking}

module _ (S : Slab Waiter) (T : Type 0) (u : Users S T) (q : Queue) (v : IsExclusive S T u q) where
  -- In a state that the semaphore's part keeps sound, the guards are compatible.
  excludes :
      (u' : Users S T) (woken : List Waker) (q' : Queue) (r : Result S T) (old : T)
      → r ≡ ok (u', woken)
      → IsSound S (view S u') q'
      → total S (view S u') ≡ permits_max
      → u'.lock.value.borrowed ≡ borrow_of u'.guards
      → u'.lock.value.value ≡ old
      → Excludes S T old r
  excludes u' woken q' r old ran sound kept borrowed same = (
    u',
    woken,
    q',
    ran,
    record { sound = sound; permits = kept; borrowed = borrowed },
    IsCompatible-of_fit u'.guards (omega (arith, kept)),
    same,
  )

  poll_one-Excludes :
      (m : Mode) (state : AcquireState) (rest : List (Mode × AcquireState)) (cx : Waker)
      → Insert (m, state) rest u.futures
      → Excludes S T u.lock.value.value (poll_one S u m state rest cx)
  unfolding poll_one after_lock readied
  poll_one-Excludes m state rest cx one =
      elim (poll_future-cases S (view S u) (future (cost m) state) (asking rest) cx polled) [
        | inl (p, i, more, q', polled', is_ready, dropped, sound, kept) ↦
            let room : cost m + sum (costs u.guards) ≤ permits_max =
              omega (arith, kept, v.permits) in
            let borrows = ap (borrow_for m) v.borrowed ∙ borrow_fits m u.guards room in
            excludes
              (record {
                lock =
                    (readied S T m u.lock i (p.woken ++ more) p.state
                      (borrow_of (m ∷ u.guards))).lock;
                futures = rest;
                guards = m ∷ u.guards;
              })
              (p.woken ++ more) q' _ _
              (rw
                (poll_mode-ready S T m u.lock state cx p i more _ polled' is_ready dropped borrows))
              sound (omega (arith, kept, v.permits)) refl refl
        | inr (p, q', polled', is_pending, sound, kept) ↦
            excludes
              (record u {
                lock = record { semaphore = p.inner; value = u.lock.value };
                futures = (m, p.state) ∷ rest;
              })
              p.woken q' _ _ (rw (poll_mode-pending S T m u.lock state cx p polled' is_pending))
              sound (omega (arith, kept, v.permits)) v.borrowed refl
      ]
    where
      polled :
          Steps S (view S u) 0 0 (poll_future S (view S u) (future (cost m) state) (asking rest) cx)
      polled =
          poll_future-Steps S (view S u) (asking rest) q (cost m) state cx v.sound.represents
            v.sound.fair (Matched-Insert (Insert-asking one) v.sound.matched)

  cancel_one-Excludes :
      (m : Mode) (state : AcquireState) (rest : List (Mode × AcquireState))
      → Insert (m, state) rest u.futures
      → Excludes S T u.lock.value.value (cancel_one S u state rest)
  unfolding cancel_one drop_lock
  cancel_one-Excludes m state rest one =
      let (i, woken, q', dropped, sound, kept) =
        cancel_future-cases S (view S u) (future (cost m) state) (asking rest) cancelled in
      excludes (record u { lock = record { semaphore = i; value = u.lock.value }; futures = rest })
        woken q' _ _ (rw dropped) sound (omega (arith, kept, v.permits)) v.borrowed refl
    where
      cancelled :
          Steps S (view S u) 0 0 (cancel_future S (view S u) (future (cost m) state) (asking rest))
      cancelled =
          cancel_future-Steps S (view S u) (asking rest) q (cost m) state v.sound.represents
            v.sound.fair (Matched-Insert (Insert-asking one) v.sound.matched)

  try_one-Excludes : (checks : Bool) (m : Mode) → Excludes S T u.lock.value.value (try_one S u m)
  unfolding try_one
  try_one-Excludes checks m =
      let st = try_take-Steps S checks (view S u) q v.sound (cost m) in
      let (i, q', tried) = try_take-cases S (view S u) (cost m) st in
      elim tried [
        | inl (got, sound, kept) ↦
            let room : cost m + sum (costs u.guards) ≤ permits_max =
              omega (arith, kept, v.permits) in
            let borrows = ap (borrow_for m) v.borrowed ∙ borrow_fits m u.guards room in
            let cell : RefCell T = record {
              value = u.lock.value.value;
              borrowed = borrow_of (m ∷ u.guards);
            } in
            excludes
              (record u { lock = record { semaphore = i; value = cell }; guards = m ∷ u.guards }) []
              q' _ _ (rw (try_mode-taken S T m u.lock i _ got borrows)) sound
              (omega (arith, kept, v.permits)) refl refl
        | inr (refused, sound, kept) ↦
            excludes (record u { lock = record { semaphore = i; value = u.lock.value } }) [] q' _ _
              (rw (try_mode-refused S T m u.lock i refused)) sound (omega (arith, kept, v.permits))
              v.borrowed refl
      ]

  unlock_one-Excludes :
      (checks : Bool) (m : Mode) (rest : List Mode)
      → Insert m rest u.guards
      → Excludes S T u.lock.value.value (unlock_one S checks u m rest)
  unfolding unlock_one
  unlock_one-Excludes checks m rest one =
      let (i, woken, q', dropped, sound, kept) =
        release_permit-cases S (view S u) checks (cost m) (costs rest) released in
      let cell : RefCell T = record {
        value = u.lock.value.value;
        borrowed = unborrow_for m u.lock.value.borrowed;
      } in
      excludes (record u { lock = record { semaphore = i; value = cell }; guards = rest }) woken q'
        _ _ (rw (drop_mode_lem S T checks m u.lock i woken dropped)) sound
        (omega (arith, kept, v.permits))
        (ap (unborrow_for m) v.borrowed ∙ borrow_leaves m one (omega (arith, v.permits))) refl
    where
      released : Steps S (view S u) 0 0 (release_permit S checks (view S u) (cost m) (costs rest))
      released =
          release_permit-Steps S checks (view S u) q v.sound (cost m) (costs rest)
            (Insert-costs one) (omega (arith, v.permits))

  write_one-Excludes :
      (ms : List Mode) (w : T)
      → Excludes S T (value_after u.lock.value.value ms (writes w)) (write_one S u ms w)
  unfolding write_one deref_mut
  write_one-Excludes [] w = excludes u [] q _ _ refl v.sound v.permits v.borrowed refl
  write_one-Excludes (shared ∷ ms) w = excludes u [] q _ _ refl v.sound v.permits v.borrowed refl
  write_one-Excludes (exclusive ∷ ms) w =
      excludes (record u { lock = deref_mut S u.lock w }) [] q _ _ refl v.sound v.permits v.borrowed
        refl

  -- From a state with a sound semaphore, where the free and held permits make `usize::MAX` and the
  -- `RefCell` is borrowed as the guards say, every call returns without a panic into such a state,
  -- whose guards are readers only or a single writer; the value changes only by a write through a
  -- writer.
  pub step-IsCompatible :
      (checks : Bool) (a : Action T)
      → Excludes S T (value_after u.lock.value.value u.guards a) (step S checks u a)
  unfolding step
  step-IsCompatible checks (locks m) =
      excludes (record u { futures = (m, idle) ∷ u.futures }) [] q _ _ refl
        (record {
          represents = v.sound.represents;
          fair = v.sound.fair;
          matched = record {
            agrees = (tt, v.sound.matched.agrees);
            distinct = v.sound.matched.distinct;
            awaited = v.sound.matched.awaited;
          };
        })
        v.permits v.borrowed refl
  step-IsCompatible checks (polls j cx) = elim (pick-Insert j u.futures) [
    | inl e ↦ excludes u [] q _ _ (rw (e, step)) v.sound v.permits v.borrowed refl
    | inr ((m, state), rest, e, one) ↦ rw (e, step) (poll_one-Excludes m state rest cx one)
  ]
  step-IsCompatible checks (cancels j) = elim (pick-Insert j u.futures) [
    | inl e ↦ excludes u [] q _ _ (rw (e, step)) v.sound v.permits v.borrowed refl
    | inr ((m, state), rest, e, one) ↦ rw (e, step) (cancel_one-Excludes m state rest one)
  ]
  step-IsCompatible checks (tries m) = try_one-Excludes checks m
  step-IsCompatible checks (unlocks j) = elim (pick-Insert j u.guards) [
    | inl e ↦ excludes u [] q _ _ (rw (e, step)) v.sound v.permits v.borrowed refl
    | inr (m, rest, e, one) ↦ rw (e, step) (unlock_one-Excludes checks m rest one)
  ]
  step-IsCompatible checks (writes w) = write_one-Excludes u.guards w
