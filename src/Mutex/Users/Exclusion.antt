-- ===== src/Mutex/Users/Exclusion.antt =====
-- A mutex never has two guards, and never panics: the `RefCell` is borrowed exactly while its
-- guard is alive.
use platoon.Base.{
  ℕ, zero, suc, ◌≡◌, refl, sym, ap, ◌∙◌, inl, inr, Bool, [], ◌∷◌, arith, RefCell, no_writer,
  writing, Insert, pick-Insert, here,
}
use platoon.Slab.{Slab}
use platoon.Semaphore.{Waiter, idle}
use platoon.Semaphore.Queue.{Queue}
use platoon.Semaphore.System.{release_permit}
use platoon.Semaphore.System.Sound.{Steps}
use platoon.Semaphore.System.Permits.{try_take-Steps, release_permit-Steps}
use platoon.Semaphore.System.Inverse.{release_permit-cases, try_take-cases}
use platoon.Mutex.{borrow_value, try_lock, drop_guard, deref_mut}
use platoon.Mutex.Users.{
  Users, Action, locks, polls, cancels, tries, unlocks, writes, ones, view, try_one, unlock_one,
  write_one, step,
}
use platoon.Mutex.Users.Excludes.{IsExclusive, value_after, Excludes, borrow_of, sum-ones}
use platoon.Mutex.Users.Waits.{poll_one-Excludes, cancel_one-Excludes}

module _ (S : Slab Waiter) (T : Type 0) (u : Users S T) (q : Queue) (v : IsExclusive S T u q) where
  try_one-Excludes : (checks : Bool) → Excludes S T u.mutex.value.value (try_one S u)
  unfolding try_one try_lock borrow_value
  try_one-Excludes checks =
      let st = try_take-Steps S checks (view S u) q v.sound 1 in
      let (i, q', tried) = try_take-cases S (view S u) 1 st in
      elim tried [
        | inl (got, sound, kept) ↦
            let free : u.guards ≡ 0 = omega (arith, kept, sum-ones u.guards, v.permits) in
            let cell : RefCell T = record { value = u.mutex.value.value; borrowed = writing } in
            (
              record u { mutex = record { semaphore = i; value = cell }; guards = suc u.guards },
              [],
              q',
              rw (got, v.borrowed ∙ ap borrow_of free),
              record {
                sound = sound;
                permits = omega (arith, kept, sum-ones u.guards, v.permits);
                borrowed = refl;
              },
              refl,
            )
        | inr (refused, sound, kept) ↦ (
          record u { mutex = record { semaphore = i; value = u.mutex.value } },
          [],
          q',
          rw refused,
          record {
            sound = sound;
            permits = omega (arith, kept, sum-ones u.guards, v.permits);
            borrowed = v.borrowed;
          },
          refl,
        )
      ]

  unlock_one-Excludes :
      (checks : Bool) (n : ℕ)
      → u.guards ≡ n
      → Excludes S T u.mutex.value.value (unlock_one S checks u n)
  unfolding unlock_one drop_guard
  unlock_one-Excludes checks zero e = (u, [], q, refl, v, refl)
  unlock_one-Excludes checks (suc n) e =
      let (i, woken, q', dropped, sound, kept) =
        release_permit-cases S (view S u) checks 1 (ones n) released in
      let cell : RefCell T = record {
        value = u.mutex.value.value;
        borrowed = no_writer u.mutex.value.borrowed;
      } in
      (
        record u { mutex = record { semaphore = i; value = cell }; guards = n },
        woken,
        q',
        rw dropped,
        record {
          sound = sound;
          permits = omega (arith, kept, sum-ones n, sum-ones u.guards, v.permits, e);
          borrowed = ap no_writer (v.borrowed ∙ ap borrow_of e) ∙ sym (ap borrow_of last_guard);
        },
        refl,
      )
    where
      last_guard : n ≡ 0
      last_guard = omega (arith, v.permits, e)

      one : Insert 1 (ones n) (ones u.guards)
      one = rw e here

      released : Steps S (view S u) 0 0 (release_permit S checks (view S u) 1 (ones n))
      released =
          release_permit-Steps S checks (view S u) q v.sound 1 (ones n) one
            (omega (arith, sum-ones u.guards, v.permits))

  write_one-Excludes :
      (n : ℕ) (w : T)
      → u.guards ≡ n
      → Excludes S T (value_after u.mutex.value.value n (writes w)) (write_one S u n w)
  unfolding write_one deref_mut
  write_one-Excludes zero w e = (u, [], q, refl, v, refl)
  write_one-Excludes (suc n) w e =
      (_, [], q, refl, record { sound = v.sound; permits = v.permits; borrowed = v.borrowed }, refl)

  -- From a state with a sound semaphore, where the free permits and the guards make one and the
  -- `RefCell` is borrowed exactly for a guard, every call returns without a panic into such a
  -- state, so that there is never a second guard; the value changes only by a write through a
  -- guard.
  pub step-IsExclusive :
      (checks : Bool) (a : Action T)
      → Excludes S T (value_after u.mutex.value.value u.guards a) (step S checks u a)
  unfolding step
  step-IsExclusive checks locks = (
    record u { futures = idle ∷ u.futures },
    [],
    q,
    refl,
    record {
      sound = record {
        represents = v.sound.represents;
        fair = v.sound.fair;
        matched = record {
          agrees = (tt, v.sound.matched.agrees);
          distinct = v.sound.matched.distinct;
          awaited = v.sound.matched.awaited;
        };
      };
      permits = v.permits;
      borrowed = v.borrowed;
    },
    refl,
  )
  step-IsExclusive checks (polls j cx) = elim (pick-Insert j u.futures) [
    | inl e ↦ (u, [], q, rw (e, step), v, refl)
    | inr (state, rest, e, one) ↦ rw (e, step) (poll_one-Excludes S T u q v state rest cx one)
  ]
  step-IsExclusive checks (cancels j) = elim (pick-Insert j u.futures) [
    | inl e ↦ (u, [], q, rw (e, step), v, refl)
    | inr (state, rest, e, one) ↦ rw (e, step) (cancel_one-Excludes S T u q v state rest one)
  ]
  step-IsExclusive checks tries = try_one-Excludes checks
  step-IsExclusive checks unlocks = unlock_one-Excludes checks u.guards refl
  step-IsExclusive checks (writes w) = write_one-Excludes u.guards w refl
