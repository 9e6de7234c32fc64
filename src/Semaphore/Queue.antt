-- ===== src/Semaphore/Queue.antt =====
-- What a semaphore promises, with no slab and no links: a count of permits and the waiters in
-- the order of their arrival, oldest first.
pub mod Invariant
use platoon.Base.{
  ℕ, ◌+◌, ◌-◌, Bool, true, false, ◌&&◌, ◌||◌, Option, none, some, List, [], ◌∷◌, ◌++◌, ltb, leb,
  ◌==◌, if◌then◌else◌, Waker,
}

pub record Entry : Type 0 where
  pub key : ℕ
  pub waker : Option Waker
  pub required : ℕ
  pub woke : Bool

pub record Queue : Type 0 where
  pub permits : ℕ
  pub entries : List Entry

abbrev pub keys : List Entry → List ℕ
keys [] = []
keys (e ∷ es) = e.key ∷ keys es

-- Whom a waiter's turn wakes: nobody, if it was woken before.
abbrev pub news : Entry → List Waker
news e = if e.woke then [] else elim e.waker [ none ↦ [] | some waker ↦ waker ∷ [] ]

abbrev pub mark : Entry → Entry
mark e = record e { woke = true }

-- The oldest waiters that the permits suffice for, together, are woken: none is passed over.
unfoldable pub grant : ℕ → List Entry → List Entry
grant permits [] = []
grant permits (e ∷ es) =
    if ltb permits e.required then e ∷ es else mark e ∷ grant (permits - e.required) es

unfoldable pub granted : ℕ → List Entry → List Waker
granted permits [] = []
granted permits (e ∷ es) =
    if ltb permits e.required then [] else news e ++ granted (permits - e.required) es

-- The permits that were promised to waiters and not taken yet.
abbrev pub promised : List Entry → ℕ
promised [] = 0
promised (e ∷ es) = (if e.woke then e.required else 0) + promised es

abbrev pub is_empty : List Entry → Bool
is_empty [] = true
is_empty (e ∷ es) = false

-- Permits are taken at once only if nobody waits, or if none are asked for.
abbrev pub can_take : Queue → ℕ → Bool
can_take q n = leb n q.permits && (is_empty q.entries || (n == 0))

abbrev pub take : Queue → ℕ → Queue
take q n = record q { permits = q.permits - n }

abbrev pub settle : Queue → Queue
settle q = record q { entries = grant q.permits q.entries }
