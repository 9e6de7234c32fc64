-- ===== src/Semaphore/Refines/Calls.antt =====
-- The calls of semaphore.rs of those who wait or have permits, on a represented queue.
use platoon.Base.{
  add_usize, ℕ, ◌+◌, ◌-◌, ◌≤◌, ◌≡◌, refl, ◌∙◌, subst, Bool, true, false, Option, none, some, List,
  [], ◌∷◌, ◌++◌, arith, ltb, leb, ◌==◌, if◌then◌else◌, ==_self, le→leb, le→ltb, length-append, has,
  Distinct, has_ne, Distinct-append, ok, Waker, usize_max, ready, pending,
}
use platoon.Slab.{Slab}
use platoon.Semaphore.{
  Waiter, Inner, waiting, done, renew_waker, redeem, poll_waiting, drop_acquire, add_permits,
}
use platoon.Semaphore.Queue.{Queue, Entry, keys, settle, granted}
use platoon.Semaphore.Links.{
  Cells, cell, first, last, Seg, Seg-split, Seg-append, frame, keys-append, last-append,
}
use platoon.Semaphore.Refines.{Represents}
use platoon.Semaphore.Refines.Remove.{remove-Represents}
use platoon.Semaphore.Refines.Wake.{wake-Represents}
use platoon.Semaphore.Refines.Takes.{Represents-permits}

-- One entry in a segment gets another waker.
replace-Seg :
    (f g : Cells) (xs : List Entry) (e : Entry) (cx : Waker) (ys : List Entry)
    → ((k : ℕ)
        → g k ≡ (
            if k == e.key
            then some (cell (record e { waker = some cx }) (last none xs) (first ys none))
            else f k))
    → Distinct (keys (xs ++ e ∷ ys))
    → Seg f none none (xs ++ e ∷ ys)
    → Seg g none none (xs ++ record e { waker = some cx } ∷ ys)
replace-Seg f g xs e cx ys change d s =
    let (older, newer) = Seg-split f none none xs (e ∷ ys) s in
    Seg-append g none none xs (record e { waker = some cx } ∷ ys)
      (frame f g none (some e.key) xs (λ k h. change k ∙ rw (not_here k h)) older)
      (
        change e.key ∙ rw (==_self e.key),
        frame f g (some e.key) none ys (λ k h. change k ∙ rw (not_there k h)) newer.1,
      )
  where
    apart :
        Distinct (keys xs)
        × Distinct (keys (e ∷ ys))
        × ((k : ℕ) → has k (keys xs) ≡ true → has k (keys (e ∷ ys)) ≡ false)
    apart = Distinct-append (keys xs) (keys (e ∷ ys)) (rw keys-append at d)

    not_here : (k : ℕ) → has k (keys xs) ≡ true → (k == e.key) ≡ false
    not_here k h = ground (arith, apart.2 k h)

    not_there : (k : ℕ) → has k (keys ys) ≡ true → (k == e.key) ≡ false
    not_there k h = ground (arith, has_ne e.key k (keys ys) apart.1.0 h)

renewed : Entry → Waker → Entry
renewed e cx = record e { waker = some cx }

module _ (S : Slab Waiter) where
  open S use {get, get-set, len-set}

  pub poll_waiting-asleep :
      (i : Inner S) (p : ℕ) (xs : List Entry) (e : Entry) (ys : List Entry) (cx : Waker)
      → Represents S i (record { permits = p; entries = xs ++ e ∷ ys })
      → e.woke ≡ false
      → (i' : Inner S) × (poll_waiting S i e.key cx
          ≡ ok (record { result = pending; state = waiting e.key; inner = i'; woken = [] }))
        × Represents S i'
            (record { permits = p; entries = xs ++ record e { waker = some cx } ∷ ys })
  unfolding poll_waiting renew_waker
  poll_waiting-asleep i p xs e ys cx r asleep = (
    result,
    rw (found, renew, asleep),
    record {
      permits = r.permits;
      chain =
          replace-Seg (get i.waiters) _ xs e cx ys (λ k. get-set i.waiters e.key w w' k found)
            r.distinct r.chain;
      tail = r.tail ∙ same_first xs;
      head = r.head ∙ same_last none xs;
      distinct = rw same_keys r.distinct;
      len = omega (
        arith,
        len-set i.waiters e.key w w' found,
        r.len,
        length-append xs (e ∷ ys),
        length-append xs (e' ∷ ys),
      );
    },
  )
    where
      e' : Entry
      e' = record e { waker = some cx }

      w : Waiter
      w = cell e (last none xs) (first ys none)

      w' : Waiter
      w' = cell e' (last none xs) (first ys none)

      renew : renew_waker S w cx ≡ w'
      renew = ground arith

      found : get i.waiters e.key ≡ some w
      found = (Seg-split (get i.waiters) none none xs (e ∷ ys) r.chain).1.0

      same_first : (zs : List Entry) → first (zs ++ e ∷ ys) none ≡ first (zs ++ e' ∷ ys) none
      same_first [] = refl
      same_first (z ∷ zs) = refl

      same_last : (o : Option ℕ) (zs : List Entry) → last o (zs ++ e ∷ ys) ≡ last o (zs ++ e' ∷ ys)
      same_last o zs = rw (last-append o zs (e ∷ ys), last-append o zs (e' ∷ ys))

      same_keys : keys (xs ++ e' ∷ ys) ≡ keys (xs ++ e ∷ ys)
      same_keys = rw (keys-append xs (e ∷ ys), keys-append xs (e' ∷ ys))

      result : Inner S
      result = record i { waiters = S.set i.waiters e.key w' }

  pub poll_waiting-woken :
      (i : Inner S) (p : ℕ) (xs : List Entry) (e : Entry) (ys : List Entry) (cx : Waker)
      → Represents S i (record { permits = p; entries = xs ++ e ∷ ys })
      → e.woke ≡ true
      → e.required ≤ p
      → (i' : Inner S) × (poll_waiting S i e.key cx
          ≡ ok (record {
            result = ready tt;
            state = done;
            inner = i';
            woken = granted (p - e.required) (xs ++ ys);
          }))
        × Represents S i' (settle (record { permits = p - e.required; entries = xs ++ ys }))
  unfolding poll_waiting redeem
  poll_waiting-woken i p xs e ys cx r woke fits =
      let found = (Seg-split (get i.waiters) none none xs (e ∷ ys) r.chain).1.0 in
      let covered : leb e.required i.permits ≡ true = rw r.permits (le→leb e.required p fits) in
      let r-paid = Represents-permits S i _ (i.permits - e.required) r in
      let (i', removed, r') = remove-Represents S _ (i.permits - e.required) xs e ys r-paid in
      let (i'', wake_run, r'') = wake-Represents S i' _ r' in
      (
        i'',
        rw (found, woke, covered, removed, wake_run, r.permits),
        subst
            (λ n.
              Represents S i'' (settle (record { permits = n - e.required; entries = xs ++ ys })))
            r.permits r'',
      )

  -- The drop of an `Acquire` that waits for an entry of the represented queue returns, takes that
  -- entry out, and wakes those of the others that the permits now suffice for.
  pub drop_acquire-waiting :
      (i : Inner S) (p : ℕ) (xs : List Entry) (e : Entry) (ys : List Entry)
      → Represents S i (record { permits = p; entries = xs ++ e ∷ ys })
      → (i' : Inner S) × (drop_acquire S i (waiting e.key) ≡ ok (i', granted p (xs ++ ys)))
        × Represents S i' (settle (record { permits = p; entries = xs ++ ys }))
  unfolding drop_acquire
  drop_acquire-waiting i p xs e ys r =
      let (i', removed, r') = remove-Represents S i p xs e ys r in
      let (i'', wake_run, r'') = wake-Represents S i' _ r' in (i'', rw (removed, wake_run), r'')

  pub add_permits-settles :
      (checks : Bool) (i : Inner S) (q : Queue) (n : ℕ)
      → Represents S i q
      → (n == 0) ≡ false
      → q.permits + n ≤ usize_max
      → (i' : Inner S) × (add_permits S checks i n ≡ ok (i', granted (q.permits + n) q.entries))
        × Represents S i' (settle (record q { permits = q.permits + n }))
  unfolding add_permits add_usize
  add_permits-settles checks i q n r some_permits fits =
      let no_overflow : ltb usize_max (q.permits + n) ≡ false =
        le→ltb usize_max (q.permits + n) fits in
      let r' = Represents-permits S i q (q.permits + n) r in
      let (i', wake_run, r'') = wake-Represents S _ _ r' in
      (i', rw (some_permits, r.permits, no_overflow, wake_run), r'')
