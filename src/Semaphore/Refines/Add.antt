-- ===== src/Semaphore/Refines/Add.antt =====
-- `Inner::add` of semaphore.rs puts a new entry at the end of the queue, under a fresh key.
use platoon.Base.{
  ℕ, ◌≡◌, refl, sym, ◌∙◌, subst, false, Option, none, some, List, [], ◌∷◌, ◌++◌, arith, ◌==◌,
  if◌then◌else◌, ==_iff, is_some, length-append, has, append-Distinct, ok, Waker,
}
use platoon.Slab.{Slab}
use platoon.Semaphore.{Waiter, Inner, set_prev, add}
use platoon.Semaphore.Queue.{Entry, Queue, keys}
use platoon.Semaphore.Links.{Cells, first, Seg, frame, Seg-append, keys-append, last-append}
use platoon.Semaphore.Links.Relink.{with_prev, Occupied, Occupied-last, relink_last, with_prev-last}
use platoon.Semaphore.Refines.{Represents, set_prev_lem}

vacant-not-mem :
    (f : Cells) (before after : Option ℕ) (es : List Entry) (key : ℕ)
    → Seg f before after es
    → f key ≡ none
    → has key (keys es) ≡ false
vacant-not-mem f before after [] key s vacant = refl
vacant-not-mem f before after (e ∷ es) key s vacant =
    ground (arith, vacant-not-mem f (some e.key) after es key s.1, ==_iff key e.key)

tail_of_new :
    (es : List Entry) (e : Entry)
    → (if is_some (first es none) then first es none else some e.key) ≡ first (es ++ e ∷ []) none
tail_of_new [] e = refl
tail_of_new (x ∷ es) e = refl

abbrev pub entry : ℕ → Waker → ℕ → Entry
entry key cx required = record { key = key; waker = some cx; required = required; woke = false }

module _ (S : Slab Waiter) where
  open S use {get, get-insert, len-insert, insert-key, get-vacant_key}

  -- On a semaphore that represents a queue, `add` returns a key that no waiter has, and represents
  -- the queue with the new waiter behind the others.
  pub add-Represents :
      (i : Inner S) (q : Queue) (cx : Waker) (required : ℕ)
      → Represents S i q
      → (key : ℕ) × (i' : Inner S) × (add S i cx required ≡ ok (key, i'))
        × (has key (keys q.entries) ≡ false)
        × Represents S i' (record q { entries = q.entries ++ entry key cx required ∷ [] })
  unfolding add
  add-Represents i q cx required r = (
    key,
    result,
    rw (prev_set.1),
    fresh,
    record {
      permits = r.permits;
      chain = rw prev_set.2 linked;
      tail = rw r.tail (tail_of_new q.entries new);
      head = sym (last-append none q.entries (new ∷ []));
      distinct = rw keys-append (
          append-Distinct (keys q.entries) (key ∷ []) r.distinct (refl, tt)
            (λ k h. ground (arith, fresh, ==_iff k key)));
      len = omega (
        arith,
        prev_set.3,
        len-insert i.waiters waiter,
        r.len,
        length-append q.entries (new ∷ []),
      );
    },
  )
    where
      waiter : Waiter
      waiter = record {
        waker = some cx;
        next = i.head;
        prev = none;
        required = required;
        woke = false;
      }

      key : ℕ
      key = (S.insert i.waiters waiter).0

      inserted : S.Store
      inserted = (S.insert i.waiters waiter).1

      new : Entry
      new = entry key cx required

      vacant : get i.waiters key ≡ none
      vacant = rw (insert-key i.waiters waiter) (get-vacant_key i.waiters)

      fresh : has key (keys q.entries) ≡ false
      fresh = vacant-not-mem (get i.waiters) none none q.entries key r.chain vacant

      inserted_cells :
          (k : ℕ) → get inserted k ≡ (if k == key then some waiter else get i.waiters k)
      inserted_cells k = rw (insert-key i.waiters waiter) (get-insert i.waiters waiter k)

      kept : Seg (get inserted) none none q.entries
      kept =
          frame (get i.waiters) _ none none q.entries
            (λ k h. ground (arith, inserted_cells k, fresh, h, ==_iff k key)) r.chain

      prev_set :
          (ws : S.Store) × (set_prev S inserted i.head (some key) ≡ ok ws)
          × (get ws ≡ with_prev i.head (some key) (get inserted))
          × (S.len ws ≡ S.len inserted)
      prev_set = set_prev_lem S inserted i.head (some key) (
          subst (Occupied (get inserted)) (sym r.head)
            (Occupied-last (get inserted) none none q.entries tt kept))

      linked : Seg (with_prev i.head (some key) (get inserted)) none none (q.entries ++ new ∷ [])
      linked =
          subst (λ o. Seg (with_prev o (some key) (get inserted)) none none (q.entries ++ new ∷ []))
            (sym r.head)
            (Seg-append _ none none q.entries (new ∷ [])
              (relink_last (get inserted) none none (some key) q.entries r.distinct kept)
              (
                with_prev-last q.entries (some key) (get inserted) key fresh
                    ∙ ground (arith, inserted_cells key, r.head),
                tt,
              ))

      result : Inner S
      result = record i {
        waiters = prev_set.0;
        head = some key;
        tail = if is_some i.tail then i.tail else some key;
      }
