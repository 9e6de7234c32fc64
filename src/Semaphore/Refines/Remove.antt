-- ===== src/Semaphore/Refines/Remove.antt =====
-- `Inner::remove` of semaphore.rs takes one entry out of the queue.
use platoon.Base.{
  ℕ, ◌≡◌, refl, ◌∙◌, fun_ext, Option, none, some, List, [], ◌∷◌, ◌++◌, arith, if◌then◌else◌,
  is_some, length, length-append, Distinct, Distinct-append, append-Distinct, ok,
}
use platoon.Slab.{Slab}
use platoon.Semaphore.{Waiter, Inner, set_prev, set_next, remove}
use platoon.Semaphore.Queue.{Entry, keys}
use platoon.Semaphore.Links.{Cells, cell, first, last, Seg, Seg-split, keys-append}
use platoon.Semaphore.Links.Relink.{
  with_prev, with_next, without, Occupied, unlink, unlinked, last-mem,
}
use platoon.Semaphore.Refines.{Represents, set_prev_lem, set_next_lem}

tail_after :
    (xs : List Entry) (e : Entry) (ys : List Entry)
    → (if is_some (last none xs) then first (xs ++ e ∷ ys) none else first ys none)
      ≡ first (xs ++ ys) none
tail_after [] e ys = refl
tail_after (x ∷ xs) e ys = let (l, q, m) = last-mem x xs in rw q

head_after :
    (o : Option ℕ) (xs : List Entry) (e : Entry) (ys : List Entry)
    → (if is_some (first ys none) then last o (xs ++ e ∷ ys) else last o xs) ≡ last o (xs ++ ys)
head_after o [] e [] = refl
head_after o [] e (y ∷ ys) = refl
head_after o (x ∷ xs) e ys = head_after (some x.key) xs e ys

Distinct-drop :
    (xs : List Entry) (e : Entry) (ys : List Entry)
    → Distinct (keys (xs ++ e ∷ ys))
    → Distinct (keys (xs ++ ys))
Distinct-drop xs e ys d =
    let (dx, dy, apart) = Distinct-append (keys xs) (keys (e ∷ ys)) (rw keys-append at d) in
    rw keys-append (append-Distinct (keys xs) (keys ys) dx dy.1 (λ k h. ground (arith, apart k h)))

module _ (S : Slab Waiter) where
  open S use {get, get-remove, len-remove}

  -- On a semaphore that represents a queue, the removal of any waiter of it returns, and
  -- represents the queue without it, the others in their order.
  pub remove-Represents :
      (i : Inner S) (permits : ℕ) (xs : List Entry) (e : Entry) (ys : List Entry)
      → Represents S i (record { permits = permits; entries = xs ++ e ∷ ys })
      → (i' : Inner S) × (remove S i e.key ≡ ok i')
        × Represents S i' (record { permits = permits; entries = xs ++ ys })
  unfolding remove
  remove-Represents i permits xs e ys r = (
    result,
    rw (found, next_set, prev_set),
    record {
      permits = r.permits;
      chain = rw cells (links.2);
      tail = rw r.tail (tail_after xs e ys);
      head = rw r.head (head_after none xs e ys);
      distinct = Distinct-drop xs e ys r.distinct;
      len = length_after;
    },
  )
    where
      f : Cells
      f = get i.waiters

      w : Waiter
      w = cell e (last none xs) (first ys none)

      found : get i.waiters e.key ≡ some w
      found = (Seg-split f none none xs (e ∷ ys) r.chain).1.0

      links :
          Occupied (without e.key f) (first ys none)
          × Occupied (with_next (first ys none) (last none xs) (without e.key f)) (last none xs)
          × Seg (unlinked e.key (last none xs) (first ys none) f) none none (xs ++ ys)
      links = unlink f xs e ys r.distinct r.chain

      removed : S.Store
      removed = S.remove i.waiters e.key

      removed_cells : get removed ≡ without e.key f
      removed_cells = fun_ext λ k. get-remove i.waiters e.key k

      after_next :
          (ws : S.Store) × (set_next S removed w.prev w.next ≡ ok ws)
          × (get ws ≡ with_next w.prev w.next (get removed))
          × (S.len ws ≡ S.len removed)
      after_next = set_next_lem S removed w.prev w.next (rw removed_cells links.0)

      after_prev :
          (ws : S.Store) × (set_prev S after_next.0 w.next w.prev ≡ ok ws)
          × (get ws ≡ with_prev w.next w.prev (get after_next.0))
          × (S.len ws ≡ S.len after_next.0)
      after_prev =
          set_prev_lem S after_next.0 w.next w.prev (rw (after_next.2, removed_cells) links.1)

      next_set : set_next S removed w.prev w.next ≡ ok after_next.0
      next_set = after_next.1

      prev_set : set_prev S after_next.0 w.next w.prev ≡ ok after_prev.0
      prev_set = after_prev.1

      cells : get after_prev.0 ≡ unlinked e.key (last none xs) (first ys none) f
      cells = after_prev.2 ∙ rw (after_next.2, removed_cells)

      result : Inner S
      result = record i {
        waiters = after_prev.0;
        head = if is_some w.prev then i.head else w.next;
        tail = if is_some w.next then i.tail else w.prev;
      }

      length_after : S.len after_prev.0 ≡ length (xs ++ ys)
      length_after = omega (
        arith,
        r.len,
        length-append xs (e ∷ ys),
        length-append xs ys,
        len-remove i.waiters e.key w found,
        after_next.3,
        after_prev.3,
      )
