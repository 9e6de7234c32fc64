-- ===== src/Mutex/Users/Waits.antt =====
-- A mutex excludes through the polls and drops of the futures that wait for it.
use platoon.Base.{
  suc, ◌≡◌, refl, ap, ◌∙◌, inl, inr, List, ◌∷◌, ◌++◌, arith, RefCell, writing, Insert, Waker,
}
use platoon.Slab.{Slab}
use platoon.Semaphore.{Waiter, AcquireState}
use platoon.Semaphore.Queue.{Queue}
use platoon.Semaphore.System.{poll_future, cancel_future}
use platoon.Semaphore.System.Joins.{future}
use platoon.Semaphore.System.Matched.{Matched-Insert}
use platoon.Semaphore.System.Sound.{Steps}
use platoon.Semaphore.System.Futures.{poll_future-Steps, cancel_future-Steps}
use platoon.Semaphore.System.Inverse.{poll_future-cases, cancel_future-cases}
use platoon.Mutex.{borrow_value, poll_lock, drop_lock}
use platoon.Mutex.Users.{Users, asking, view, after_lock, poll_one, cancel_one}
use platoon.Mutex.Users.Excludes.{IsExclusive, Excludes, Insert-asking, borrow_of, sum-ones}

module _ (S : Slab Waiter) (T : Type 0) (u : Users S T) (q : Queue) (v : IsExclusive S T u q) where
  pub poll_one-Excludes :
      (state : AcquireState) (rest : List AcquireState) (cx : Waker)
      → Insert state rest u.futures
      → Excludes S T u.mutex.value.value (poll_one S u state rest cx)
  unfolding poll_one poll_lock after_lock borrow_value
  poll_one-Excludes state rest cx one =
      elim (poll_future-cases S (view S u) (future 1 state) (asking rest) cx polled) [
        | inl (p, i, more, q', polled', is_ready, dropped, sound, kept) ↦
            let free : u.guards ≡ 0 = omega (arith, kept, sum-ones u.guards, v.permits) in
            let cell : RefCell T = record { value = u.mutex.value.value; borrowed = writing } in
            (
              record {
                mutex = record { semaphore = i; value = cell };
                futures = rest;
                guards = suc u.guards;
              },
              p.woken ++ more,
              q',
              rw (polled', is_ready, dropped, v.borrowed ∙ ap borrow_of free),
              record {
                sound = sound;
                permits = omega (arith, kept, sum-ones u.guards, v.permits);
                borrowed = refl;
              },
              refl,
            )
        | inr (p, q', polled', is_pending, sound, kept) ↦ (
          record u {
            mutex = record { semaphore = p.inner; value = u.mutex.value };
            futures = p.state ∷ rest;
          },
          p.woken,
          q',
          rw (polled', is_pending),
          record {
            sound = sound;
            permits = omega (arith, kept, sum-ones u.guards, v.permits);
            borrowed = v.borrowed;
          },
          refl,
        )
      ]
    where
      polled : Steps S (view S u) 0 0 (poll_future S (view S u) (future 1 state) (asking rest) cx)
      polled =
          poll_future-Steps S (view S u) (asking rest) q 1 state cx v.sound.represents v.sound.fair
            (Matched-Insert (Insert-asking one) v.sound.matched)

  pub cancel_one-Excludes :
      (state : AcquireState) (rest : List AcquireState)
      → Insert state rest u.futures
      → Excludes S T u.mutex.value.value (cancel_one S u state rest)
  unfolding cancel_one drop_lock
  cancel_one-Excludes state rest one =
      let (i, woken, q', dropped, sound, kept) =
        cancel_future-cases S (view S u) (future 1 state) (asking rest) cancelled in
      (
        record u { mutex = record { semaphore = i; value = u.mutex.value }; futures = rest },
        woken,
        q',
        rw dropped,
        record {
          sound = sound;
          permits = omega (arith, kept, sum-ones u.guards, v.permits);
          borrowed = v.borrowed;
        },
        refl,
      )
    where
      cancelled : Steps S (view S u) 0 0 (cancel_future S (view S u) (future 1 state) (asking rest))
      cancelled =
          cancel_future-Steps S (view S u) (asking rest) q 1 state v.sound.represents v.sound.fair
            (Matched-Insert (Insert-asking one) v.sound.matched)
