-- ===== src/Semaphore/System/Permits.antt =====
-- Taking, dropping, forgetting and adding permits never panics, and keeps the queue in step.
use platoon.Base.{
  ℕ, ◌+◌, ◌-◌, ◌≤◌, ◌≡◌, refl, inl, inr, Bool, List, [], ◌∷◌, arith, ◌==◌, Bool-cases, Outcome, ok,
  Insert, sum-Insert, Waker, usize_max,
}
use platoon.Slab.{Slab}
use platoon.Semaphore.{Waiter, Inner, add_permits, drop_permit, forget}
use platoon.Semaphore.Queue.{Queue, granted, take, settle, can_take}
use platoon.Semaphore.Queue.Invariant.{IsFair, settle-IsFair, take-IsFair}
use platoon.Semaphore.Refines.{Represents}
use platoon.Semaphore.Refines.Takes.{try_acquire-Represents}
use platoon.Semaphore.Refines.Calls.{add_permits-settles}
use platoon.Semaphore.System.{System, try_take, release_permit, forget_permit, add_more}
use platoon.Semaphore.System.Matched.{Matched}
use platoon.Semaphore.System.Joins.{Matched-grant}
use platoon.Semaphore.System.Sound.{IsSound, total, Steps}

module _ (S : Slab Waiter) where
  module _ (checks : Bool) (s : System S) (q : Queue) (v : IsSound S s q) where
    -- Permits come back, or are added.
    Grown : ℕ → Outcome (Inner S × List Waker) → Type 0
    Grown n r =
        (i : Inner S) × (woken : List Waker) × (q' : Queue) × (r ≡ ok (i, woken))
        × Represents S i q'
        × IsFair q'
        × Matched q'.entries s.futures
        × (i.permits ≡ s.inner.permits + n)

    add_permits-Grown :
        (n : ℕ) → s.inner.permits + n ≤ usize_max → Grown n (add_permits S checks s.inner n)
    unfolding Grown add_permits
    add_permits-Grown n fits = elim (Bool-cases (n == 0)) [
      | inl none_more ↦
          (s.inner, [], q, rw none_more, v.represents, v.fair, v.matched, ground arith)
      | inr more ↦
          let h : q.permits + n ≤ usize_max = omega (arith, v.represents.permits) in
          let (i, run, r') = add_permits-settles S checks s.inner q n v.represents more h in
          (
            i,
            granted (q.permits + n) q.entries,
            settle (record q { permits = q.permits + n }),
            run,
            r',
            settle-IsFair _ v.fair.ordered (omega (arith, v.fair.covered)),
            Matched-grant _ q.entries s.futures v.matched,
            omega (arith, r'.permits, v.represents.permits),
          )
    ]

    pub try_take-Steps : (n : ℕ) → Steps S s 0 0 (try_take S s n)
    unfolding try_take
    try_take-Steps n =
        let (run, r') = try_acquire-Represents S s.inner q n v.represents in
        elim (Bool-cases (can_take q n)) [
          | inl fits ↦ (
            record s {
              inner = record s.inner { permits = s.inner.permits - n };
              held = n ∷ s.held;
            },
            [],
            take q n,
            rw (run, fits),
            record { represents = r'; fair = take-IsFair q n fits v.fair; matched = v.matched },
            ground (arith, v.represents.permits, fits),
          )
          | inr full ↦ (s, [], q, rw (run, full), v, refl)
        ]

    pub add_more-Steps : (n : ℕ) → total S s + n ≤ usize_max → Steps S s n 0 (add_more S checks s n)
    unfolding add_more Grown
    add_more-Steps n fits =
        let (i, woken, q', run, r', f', m', p) = add_permits-Grown n (omega arith) in
        (
          record s { inner = i },
          woken,
          q',
          rw run,
          record { represents = r'; fair = f'; matched = m' },
          omega (arith, p),
        )

    module _ (n : ℕ) (rest : List ℕ) (one : Insert n rest s.held) where
      pub release_permit-Steps :
          total S s ≤ usize_max → Steps S s 0 0 (release_permit S checks s n rest)
      unfolding release_permit drop_permit Grown
      release_permit-Steps fits =
          let (i, woken, q', run, r', f', m', p) =
            add_permits-Grown n (omega (arith, sum-Insert one)) in
          (
            record s { inner = i; held = rest },
            woken,
            q',
            rw run,
            record { represents = r'; fair = f'; matched = m' },
            omega (arith, p, sum-Insert one),
          )

      pub forget_permit-Steps :
          total S s ≤ usize_max → Steps S s 0 n (forget_permit S checks s n rest)
      unfolding forget_permit forget drop_permit Grown
      forget_permit-Steps fits =
          let (i, woken, q', run, r', f', m', p) = add_permits-Grown 0 (omega arith) in
          (
            record s { inner = i; held = rest },
            woken,
            q',
            rw run,
            record { represents = r'; fair = f'; matched = m' },
            omega (arith, p, sum-Insert one),
          )
