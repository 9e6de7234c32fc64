-- ===== src/Semaphore/Refines.antt =====
-- The semaphore's slab and links represent a queue of entries, and each operation does on them
-- what the queue promises.
use platoon.Base.{ℕ, ◌≡◌, refl, fun_ext, Option, none, some, arith, length, Distinct, ok}
pub mod Remove
pub mod Takes
pub mod Calls
pub mod Wake
pub mod Add
use platoon.Slab.{Slab}
use platoon.Semaphore.{Waiter, Inner, set_prev, set_next}
use platoon.Semaphore.Queue.{Queue, keys}
use platoon.Semaphore.Links.{first, last, Seg}
use platoon.Semaphore.Links.Relink.{with_prev, with_next, Occupied}

pub record Represents (S : Slab Waiter) (i : Inner S) (q : Queue) : Type 0 where
  pub permits : i.permits ≡ q.permits
  pub chain : Seg (S.get i.waiters) none none q.entries
  pub tail : i.tail ≡ first q.entries none
  pub head : i.head ≡ last none q.entries
  pub distinct : Distinct (keys q.entries)
  pub len : S.len i.waiters ≡ length q.entries

module _ (S : Slab Waiter) where
  open S use {
    get, get-set, len-set, get-remove, len-remove, get-insert, len-insert, insert-key,
    get-vacant_key, get-empty, len-empty,
  }

  -- A write to `prev` through the slab.
  pub set_prev_lem :
      (ws : S.Store) (o prev : Option ℕ)
      → Occupied (get ws) o
      → (ws' : S.Store) × (set_prev S ws o prev ≡ ok ws')
        × (get ws' ≡ with_prev o prev (get ws))
        × (S.len ws' ≡ S.len ws)
  unfolding set_prev
  set_prev_lem ws none prev occ = (ws, refl, refl, refl)
  set_prev_lem ws (some key) prev (w, e) = (
    S.set ws key (record w { prev = prev }),
    rw e,
    fun_ext λ k. ground (arith, get-set ws key w (record w { prev = prev }) k e),
    len-set ws key w _ e,
  )

  pub set_next_lem :
      (ws : S.Store) (o next : Option ℕ)
      → Occupied (get ws) o
      → (ws' : S.Store) × (set_next S ws o next ≡ ok ws')
        × (get ws' ≡ with_next o next (get ws))
        × (S.len ws' ≡ S.len ws)
  unfolding set_next
  set_next_lem ws none next occ = (ws, refl, refl, refl)
  set_next_lem ws (some key) next (w, e) = (
    S.set ws key (record w { next = next }),
    rw e,
    fun_ext λ k. ground (arith, get-set ws key w (record w { next = next }) k e),
    len-set ws key w _ e,
  )
