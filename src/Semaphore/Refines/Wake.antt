-- ===== src/Semaphore/Refines/Wake.antt =====
-- `Inner::wake` of semaphore.rs wakes the waiters that the queue grants permits to, and its loop
-- ends within its fuel.
use platoon.Base.{
  ℕ, zero, suc, ◌+◌, ◌-◌, ◌<◌, ◌≡◌, refl, sym, ◌∙◌, inl, inr, true, false, Option, none, some, List,
  [], ◌∷◌, arith, ltb, ◌==◌, if◌then◌else◌, ==_iff, ==_self, Bool-cases, length, has, Distinct,
  has_ne, Outcome, ok, Waker,
}
use platoon.Slab.{Slab}
use platoon.Semaphore.{Inner, wake, Waiter, notify, wake_loop}
use platoon.Semaphore.Queue.{Queue, Entry, keys, news, mark, grant, granted}
use platoon.Semaphore.Links.{last, cell, first, last, Seg, frame}
use platoon.Semaphore.Refines.{Represents}

pub keys-grant : (permits : ℕ) (es : List Entry) → keys (grant permits es) ≡ keys es
unfolding grant
keys-grant permits [] = refl
keys-grant permits (e ∷ es) = ground (arith, keys-grant (permits - e.required) es)

first-grant : (permits : ℕ) (es : List Entry) → first (grant permits es) none ≡ first es none
unfolding grant
first-grant permits [] = refl
first-grant permits (e ∷ es) = ground arith

last-grant : (o : Option ℕ) (permits : ℕ) (es : List Entry) → last o (grant permits es) ≡ last o es
unfolding grant
last-grant o permits [] = refl
last-grant o permits (e ∷ es) = ground (arith, last-grant (some e.key) (permits - e.required) es)

pub length-grant : (permits : ℕ) (es : List Entry) → length (grant permits es) ≡ length es
unfolding grant
length-grant permits [] = refl
length-grant permits (e ∷ es) = ground (arith, length-grant (permits - e.required) es)

module _ (S : Slab Waiter) where
  open S use {get, get-set, len-set}

  -- What a round of the loop leaves in the slab.
  notify_lem :
      (ws : S.Store) (e : Entry) (next prev : Option ℕ)
      → get ws e.key ≡ some (cell e next prev)
      → ((notify S ws e.key (cell e next prev)).1 ≡ news e)
        × ((k : ℕ)
            → get (notify S ws e.key (cell e next prev)).0 k
              ≡ (if k == e.key then some (cell (mark e) next prev) else get ws k))
        × (S.len (notify S ws e.key (cell e next prev)).0 ≡ S.len ws)
  unfolding notify
  notify_lem ws e next prev found = (
    ground arith,
    λ k. ground (
      arith,
      get-set ws e.key (cell e next prev) (cell (mark e) next prev) k found,
      ==_iff k e.key,
    ),
    ground (arith, len-set ws e.key (cell e next prev) (cell (mark e) next prev) found),
  )

  Woken : ℕ → Option ℕ → List Entry → S.Store → Outcome (S.Store × List Waker) → Type 0
  Woken permits before es ws r =
      (ws' : S.Store) × (r ≡ ok (ws', granted permits es))
      × Seg (get ws') before none (grant permits es)
      × ((k : ℕ) → has k (keys es) ≡ false → get ws' k ≡ get ws k)
      × (S.len ws' ≡ S.len ws)

  notified : S.Store → Option ℕ → Entry → List Entry → S.Store
  notified ws before e es = (notify S ws e.key (cell e before (first es none))).0

  notify-Seg :
      (ws : S.Store) (before : Option ℕ) (e : Entry) (es : List Entry)
      → Distinct (keys (e ∷ es))
      → Seg (get ws) before none (e ∷ es)
      → Seg (get (notified ws before e es)) (some e.key) none es
  unfolding notified
  notify-Seg ws before e es d s =
      let (_, cells, _) = notify_lem ws e before (first es none) s.0 in
      frame (get ws) _ (some e.key) none es (λ k h. cells k ∙ rw (has_ne' k h)) s.1
    where
      has_ne' : (k : ℕ) → has k (keys es) ≡ true → (k == e.key) ≡ false
      has_ne' k h = ground (arith, has_ne e.key k (keys es) d.0 h)

  wake_more :
      (fuel permits : ℕ) (before : Option ℕ) (e : Entry) (es : List Entry) (ws : S.Store)
      → ltb permits e.required ≡ false
      → Distinct (keys (e ∷ es))
      → Seg (get ws) before none (e ∷ es)
      → Woken
          (permits - e.required)
          (some e.key)
          es
          (notified ws before e es)
          (wake_loop S fuel (permits - e.required) (first es none) (notified ws before e es))
      → Woken permits before (e ∷ es) ws (wake_loop S (suc fuel) permits (some e.key) ws)
  unfolding wake_loop grant granted Woken notified
  wake_more fuel permits before e es ws more d s (ws', run, seg, same, len) =
      let (n, cells, len_first) = notify_lem ws e before (first es none) s.0 in
      (
        ws',
        rw (s.0, more, run, n),
        rw more (same e.key d.0 ∙ cells e.key ∙ rw (==_self e.key, first-grant), seg),
        λ k h. same k (ground arith) ∙ cells k ∙ rw (head_ne k h),
        len ∙ len_first,
      )
    where
      head_ne : (k : ℕ) → has k (keys (e ∷ es)) ≡ false → (k == e.key) ≡ false
      head_ne k h = ground arith

  wake_loop-Woken :
      (fuel permits : ℕ) (before : Option ℕ) (es : List Entry) (ws : S.Store)
      → length es < fuel
      → Distinct (keys es)
      → Seg (get ws) before none es
      → Woken permits before es ws (wake_loop S fuel permits (first es none) ws)
  unfolding wake_loop grant granted Woken
  wake_loop-Woken zero permits before es ws h d s = absurd (omega arith)
  wake_loop-Woken (suc fuel) permits before [] ws h d s = (ws, refl, tt, λ k h. refl, refl)
  wake_loop-Woken (suc fuel) permits before (e ∷ es) ws h d s =
      elim (Bool-cases (ltb permits e.required)) [
        | inl stop ↦ (ws, rw (s.0, stop), rw stop s, λ k h. refl, refl)
        | inr more ↦ wake_more fuel permits before e es ws more d s (
            wake_loop-Woken fuel (permits - e.required) (some e.key) es (notified ws before e es)
              (omega arith) d.1 (notify-Seg ws before e es d s))
      ]

  -- On a semaphore that represents a queue, `wake` returns within its fuel, wakes the sleeping
  -- ones of the longest run of oldest waiters that the permits suffice for together, oldest first,
  -- and represents the queue with that run marked.
  pub wake-Represents :
      (i : Inner S) (q : Queue)
      → Represents S i q
      → (i' : Inner S) × (wake S i ≡ ok (i', granted q.permits q.entries))
        × Represents S i' (record q { entries = grant q.permits q.entries })
  unfolding wake Woken
  wake-Represents i q r =
      let (ws, run, seg, same, len) = walk in
      (
        record i { waiters = ws },
        rw (r.tail, r.permits, run),
        record {
          permits = r.permits;
          chain = seg;
          tail = r.tail ∙ sym (first-grant q.permits q.entries);
          head = r.head ∙ sym (last-grant none q.permits q.entries);
          distinct = rw keys-grant r.distinct;
          len = omega (arith, len, r.len, length-grant q.permits q.entries);
        },
      )
    where
      walk :
          Woken q.permits none q.entries i.waiters
            (wake_loop S (S.len i.waiters + 1) q.permits (first q.entries none) i.waiters)
      walk =
          wake_loop-Woken (S.len i.waiters + 1) q.permits none q.entries i.waiters
            (omega (arith, r.len)) r.distinct r.chain
