-- ===== src/Semaphore/System/Futures.antt =====
-- Polling and dropping an `Acquire` future never panics, and keeps queue and futures in step.
use platoon.Base.{
  ℕ, ◌+◌, ◌-◌, ◌≤◌, ◌≡◌, refl, sym, subst, inl, inr, some, List, [], ◌∷◌, ◌++◌, arith,
  if◌then◌else◌, Bool-cases, Waker,
}
use platoon.Slab.{Slab}
use platoon.Semaphore.{Waiter, AcquireState, idle, waiting, done, poll_acquire, drop_acquire}
use platoon.Semaphore.Queue.{Entry, Queue, granted, promised, take, settle, can_take}
use platoon.Semaphore.Queue.Invariant.{
  IsFair, IsOrdered-drop, promised-append, settle-IsFair, append-IsFair, take-IsFair, renew-IsFair,
}
use platoon.Semaphore.Refines.{Represents}
use platoon.Semaphore.Refines.Add.{entry}
use platoon.Semaphore.Refines.Takes.{poll_idle-acquires, poll_idle-waits}
use platoon.Semaphore.Refines.Calls.{poll_waiting-asleep, poll_waiting-woken, drop_acquire-waiting}
use platoon.Semaphore.System.{Future, System, after_poll, poll_future, cancel_future}
use platoon.Semaphore.System.Matched.{Matched}
use platoon.Semaphore.System.Joins.{
  future, required_of-split, Matched-renew, Matched-grant, Matched-join, Matched-leave,
}
use platoon.Semaphore.System.Sound.{Steps}

promised-drop :
    (xs : List Entry) (e : Entry) (ys : List Entry)
    → promised (xs ++ e ∷ ys) ≡ (if e.woke then e.required else 0) + promised (xs ++ ys)
promised-drop xs e ys = omega (arith, promised-append xs (e ∷ ys), promised-append xs ys)

-- Taking an entry out of a fair queue leaves one that `wake` makes fair.
leave-IsFair :
    (p : ℕ) (xs : List Entry) (e : Entry) (ys : List Entry) (p' : ℕ)
    → IsFair (record { permits = p; entries = xs ++ e ∷ ys })
    → promised (xs ++ ys) ≤ p'
    → IsFair (settle (record { permits = p'; entries = xs ++ ys }))
leave-IsFair p xs e ys p' f h = settle-IsFair _ (IsOrdered-drop xs e ys f.ordered) h

module _ (S : Slab Waiter) where
  module _ (s : System S) (rest : List Future) where
    poll_idle-Steps :
        (q : Queue) (n : ℕ) (cx : Waker)
        → Represents S s.inner q
        → IsFair q
        → Matched q.entries (future n idle ∷ rest)
        → Steps S s 0 0 (poll_future S s (future n idle) rest cx)
    unfolding poll_future after_poll poll_acquire drop_acquire
    poll_idle-Steps q n cx r f m = elim (Bool-cases (can_take q n)) [
      | inl fits ↦
          let (i, run, r') = poll_idle-acquires S s.inner q n cx r fits in
          (
            record s { inner = i; futures = rest; held = n ∷ s.held },
            [],
            take q n,
            rw run,
            record {
              represents = r';
              fair = take-IsFair q n fits f;
              matched = record { agrees = m.agrees.1; distinct = m.distinct; awaited = m.awaited };
            },
            ground (arith, r.permits, r'.permits, fits),
          )
      | inr full ↦
          let (key, i, run, fresh, r') = poll_idle-waits S s.inner q n cx r full in
          (
            record s { inner = i; futures = future n (waiting key) ∷ rest },
            [],
            record q { entries = q.entries ++ entry key cx n ∷ [] },
            rw run,
            record {
              represents = r';
              fair = append-IsFair q (entry key cx n) refl full f;
              matched = Matched-join q.entries key cx n rest fresh m;
            },
            omega (arith, r.permits, r'.permits),
          )
    ]

    module _ (p : ℕ) (xs : List Entry) (e : Entry) (ys : List Entry) (n : ℕ)
        (asked : e.required ≡ n)
        (r : Represents S s.inner (record { permits = p; entries = xs ++ e ∷ ys }))
        (f : IsFair (record { permits = p; entries = xs ++ e ∷ ys }))
        (m : Matched (xs ++ e ∷ ys) (future n (waiting e.key) ∷ rest)) where
      poll_entry-Steps :
          (cx : Waker) → Steps S s 0 0 (poll_future S s (future n (waiting e.key)) rest cx)
      unfolding poll_future after_poll poll_acquire drop_acquire
      poll_entry-Steps cx = elim (Bool-cases e.woke) [
        | inl woke ↦
            let covered : e.required + promised (xs ++ ys) ≤ p =
              ground (arith, f.covered, promised-drop xs e ys) in
            let (i, run, r') = poll_waiting-woken S s.inner p xs e ys cx r woke (omega arith) in
            (
              record s { inner = i; futures = rest; held = n ∷ s.held },
              granted (p - e.required) (xs ++ ys) ++ [],
              settle (record { permits = p - e.required; entries = xs ++ ys }),
              rw run,
              record {
                represents = r';
                fair = leave-IsFair p xs e ys (p - e.required) f (omega arith);
                matched =
                    Matched-grant _ (xs ++ ys) rest (Matched-leave xs e ys n rest r.distinct m);
              },
              omega (arith, r.permits, r'.permits, asked),
            )
        | inr asleep ↦
            let (i, run, r') = poll_waiting-asleep S s.inner p xs e ys cx r asleep in
            (
              record s { inner = i; futures = future n (waiting e.key) ∷ rest },
              [],
              record { permits = p; entries = xs ++ record e { waker = some cx } ∷ ys },
              rw run,
              record {
                represents = r';
                fair = renew-IsFair p xs e cx ys f;
                matched = Matched-renew xs e cx ys _ m;
              },
              omega (arith, r.permits, r'.permits),
            )
      ]

      cancel_entry-Steps : Steps S s 0 0 (cancel_future S s (future n (waiting e.key)) rest)
      unfolding cancel_future
      cancel_entry-Steps =
          let (i, run, r') = drop_acquire-waiting S s.inner p xs e ys r in
          (
            record s { inner = i; futures = rest },
            granted p (xs ++ ys),
            settle (record { permits = p; entries = xs ++ ys }),
            rw run,
            record {
              represents = r';
              fair = leave-IsFair p xs e ys p f (omega (arith, f.covered, promised-drop xs e ys));
              matched = Matched-grant _ (xs ++ ys) rest (Matched-leave xs e ys n rest r.distinct m);
            },
            omega (arith, r.permits, r'.permits),
          )

    -- What holds of the entries while a future waits under a key.
    abbrev Waiting : Queue → ℕ → ℕ → Type 0
    Waiting q n k =
        (xs : List Entry) × (e : Entry) × (ys : List Entry) × (e.key ≡ k)
        × (e.required ≡ n)
        × Represents S s.inner (record q { entries = xs ++ e ∷ ys })
        × IsFair (record q { entries = xs ++ e ∷ ys })
        × Matched (xs ++ e ∷ ys) (future n (waiting e.key) ∷ rest)

    find-Waiting :
        (q : Queue) (n k : ℕ)
        → Represents S s.inner q
        → IsFair q
        → Matched q.entries (future n (waiting k) ∷ rest)
        → Waiting q n k
    find-Waiting q n k r f m =
        let (xs, e, ys, split, key, asked) = required_of-split k n q.entries m.agrees.0 in
        (
          xs,
          e,
          ys,
          key,
          asked,
          subst (λ es. Represents S s.inner (record q { entries = es })) split r,
          subst (λ es. IsFair (record q { entries = es })) split f,
          subst (λ j. Matched (xs ++ e ∷ ys) (future n (waiting j) ∷ rest)) (sym key)
              (subst (λ es. Matched es (future n (waiting k) ∷ rest)) split m),
        )

    pub poll_future-Steps :
        (q : Queue) (n : ℕ) (state : AcquireState) (cx : Waker)
        → Represents S s.inner q
        → IsFair q
        → Matched q.entries (future n state ∷ rest)
        → Steps S s 0 0 (poll_future S s (future n state) rest cx)
    poll_future-Steps q n idle cx r f m = poll_idle-Steps q n cx r f m
    poll_future-Steps q n (waiting k) cx r f m =
        let (xs, e, ys, key, asked, r', f', m') = find-Waiting q n k r f m in
        subst (λ j. Steps S s 0 0 (poll_future S s (future n (waiting j)) rest cx)) key
          (poll_entry-Steps q.permits xs e ys n asked r' f' m' cx)
    poll_future-Steps q n done cx r f m = absurd m.agrees.0

    pub cancel_future-Steps :
        (q : Queue) (n : ℕ) (state : AcquireState)
        → Represents S s.inner q
        → IsFair q
        → Matched q.entries (future n state ∷ rest)
        → Steps S s 0 0 (cancel_future S s (future n state) rest)
    unfolding cancel_future drop_acquire
    cancel_future-Steps q n idle r f m = (
      record s { futures = rest },
      [],
      q,
      refl,
      record {
        represents = r;
        fair = f;
        matched = record { agrees = m.agrees.1; distinct = m.distinct; awaited = m.awaited };
      },
      refl,
    )
    cancel_future-Steps q n (waiting k) r f m =
        let (xs, e, ys, key, asked, r', f', m') = find-Waiting q n k r f m in
        subst (λ j. Steps S s 0 0 (cancel_future S s (future n (waiting j)) rest)) key
          (cancel_entry-Steps q.permits xs e ys n asked r' f' m')
    cancel_future-Steps q n done r f m = absurd m.agrees.0
