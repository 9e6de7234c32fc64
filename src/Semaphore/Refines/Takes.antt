-- ===== src/Semaphore/Refines/Takes.antt =====
-- The calls of semaphore.rs that take permits at once or start to wait, on a represented queue.
use platoon.Base.{
  ℕ, ◌-◌, ◌≡◌, refl, ap, true, false, List, [], ◌∷◌, ◌++◌, arith, ◌==◌, if◌then◌else◌, length, has,
  ok, Waker, ready, pending,
}
use platoon.Slab.{Slab}
use platoon.Semaphore.{Waiter, Inner, idle, waiting, new, try_acquire, poll_idle}
use platoon.Semaphore.Queue.{Queue, Entry, keys, can_take, take, is_empty}
use platoon.Semaphore.Refines.{Represents}
use platoon.Semaphore.Refines.Add.{entry, add-Represents}

module _ (S : Slab Waiter) where
  open S use {get, get-set, len-set, get-empty, len-empty}

  pub new-Represents :
      (permits : ℕ) → Represents S (new S permits) (record { permits = permits; entries = [] })
  unfolding new
  new-Represents permits = record {
    permits = refl;
    chain = tt;
    tail = refl;
    head = refl;
    distinct = tt;
    len = len-empty;
  }

  pub try_acquire-Represents :
      (i : Inner S) (q : Queue) (n : ℕ)
      → Represents S i q
      → (try_acquire S i n
          ≡ (if can_take q n then (record i { permits = i.permits - n }, true) else (i, false)))
        × Represents S (record i { permits = i.permits - n }) (take q n)
  unfolding try_acquire
  try_acquire-Represents i q n r = (
    rw (r.permits, r.len) (rw (empty_test q.entries) refl),
    record {
      permits = ap (λ p. p - n) r.permits;
      chain = r.chain;
      tail = r.tail;
      head = r.head;
      distinct = r.distinct;
      len = r.len;
    },
  )
    where
      empty_test : (es : List Entry) → (length es == 0) ≡ is_empty es
      empty_test [] = refl
      empty_test (e ∷ es) = ground arith

  pub poll_idle-acquires :
      (i : Inner S) (q : Queue) (n : ℕ) (cx : Waker)
      → Represents S i q
      → can_take q n ≡ true
      → (i' : Inner S) × (poll_idle S i n cx
          ≡ ok (record { result = ready tt; state = idle; inner = i'; woken = [] }))
        × Represents S i' (take q n)
  unfolding poll_idle
  poll_idle-acquires i q n cx r fits =
      let (run, r') = try_acquire-Represents i q n r in
      (record i { permits = i.permits - n }, rw (run, fits), r')

  pub poll_idle-waits :
      (i : Inner S) (q : Queue) (n : ℕ) (cx : Waker)
      → Represents S i q
      → can_take q n ≡ false
      → (key : ℕ) × (i' : Inner S) × (poll_idle S i n cx
          ≡ ok (record { result = pending; state = waiting key; inner = i'; woken = [] }))
        × (has key (keys q.entries) ≡ false)
        × Represents S i' (record q { entries = q.entries ++ entry key cx n ∷ [] })
  unfolding poll_idle
  poll_idle-waits i q n cx r full =
      let (run, _) = try_acquire-Represents i q n r in
      let (key, i', added, fresh, r') = add-Represents S i q cx n r in
      (key, i', rw (run, full, added), fresh, r')

  pub Represents-permits :
      (i : Inner S) (q : Queue) (n : ℕ)
      → Represents S i q
      → Represents S (record i { permits = n }) (record q { permits = n })
  Represents-permits i q n r = record {
    permits = refl;
    chain = r.chain;
    tail = r.tail;
    head = r.head;
    distinct = r.distinct;
    len = r.len;
  }
