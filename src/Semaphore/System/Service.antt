-- ===== src/Semaphore/System/Service.antt =====
-- Whom a semaphore serves, and when: in the order of arrival, and as soon as there are permits.
use platoon.Base.{
  ℕ, ◌+◌, ◌-◌, ◌≤◌, ◌≡◌, refl, ◌∙◌, subst, ◌≢◌, Bool, false, some, List, [], ◌∷◌, arith, ◌==◌,
  le→ltb, ok, Waker, usize_max, ready,
}
use platoon.Slab.{Slab}
use platoon.Semaphore.{Waiter, Inner, waiting, done, poll_acquire, add_permits}
use platoon.Semaphore.Queue.{Entry, Queue, grant, granted, mark, can_take}
use platoon.Semaphore.Refines.{Represents}
use platoon.Semaphore.Refines.Takes.{try_acquire-Represents}
use platoon.Semaphore.Refines.Calls.{add_permits-settles, poll_waiting-woken}
use platoon.Semaphore.System.{System, try_take}
use platoon.Semaphore.System.Sound.{IsSound}

module _ (S : Slab Waiter) where
  granted-oldest :
      (p : ℕ) (e : Entry) (es : List Entry) (w : Waker)
      → e.woke ≡ false
      → e.waker ≡ some w
      → e.required ≤ p
      → (ws : List Waker) × (granted p (e ∷ es) ≡ w ∷ ws)
        × (grant p (e ∷ es) ≡ mark e ∷ grant (p - e.required) es)
  unfolding granted grant
  granted-oldest p e es w asleep left fits = (
    granted (p - e.required) es,
    rw (le→ltb p e.required fits, asleep, left),
    rw (le→ltb p e.required fits),
  )

  -- On a sound semaphore whose oldest waiter sleeps with a waker, adding permits that suffice for
  -- it, within `usize`, wakes it before any other, and its next poll is then ready.
  pub add_permits-serves :
      (checks : Bool) (s : System S) (q : Queue) (e : Entry) (es : List Entry) (n : ℕ)
      (w cx : Waker)
      → IsSound S s (record q { entries = e ∷ es })
      → e.woke ≡ false
      → e.waker ≡ some w
      → (n == 0) ≡ false
      → q.permits + n ≤ usize_max
      → e.required ≤ q.permits + n
      → (i i' : Inner S) × (ws ws' : List Waker) × (add_permits S checks s.inner n ≡ ok (i, w ∷ ws))
        × (poll_acquire S i e.required (waiting e.key) cx
            ≡ ok (record { result = ready tt; state = done; inner = i'; woken = ws' }))
  unfolding poll_acquire
  add_permits-serves checks s q e es n w cx v asleep left some_permits fits enough =
      let (i, added, r) = add_permits-settles S checks s.inner _ n v.represents some_permits fits in
      let (ws, woke_first, marked) = granted-oldest (q.permits + n) e es w asleep left enough in
      let r' =
        subst (λ xs. Represents S i (record { permits = q.permits + n; entries = xs })) marked r in
      let (i', polled, _) =
        poll_waiting-woken S i (q.permits + n) [] (mark e) (grant (q.permits + n - e.required) es)
          cx r' refl enough in
      (i, i', ws, _, added ∙ rw woke_first, polled)

  -- On a sound semaphore with waiters, an attempt to take one or more permits at once takes none,
  -- even where there are enough.
  pub try_take-queues :
      (s : System S) (q : Queue) (n : ℕ)
      → IsSound S s q
      → q.entries ≢ []
      → (n == 0) ≡ false
      → try_take S s n ≡ ok (s, [])
  unfolding try_take
  try_take-queues s q n v someone asks =
      let (run, _) = try_acquire-Represents S s.inner q n v.represents in
      rw (run, refused q.entries someone)
    where
      refused : (es : List Entry) → es ≢ [] → can_take (record q { entries = es }) n ≡ false
      refused [] h = absurd (h refl)
      refused (x ∷ xs) h = ground arith
