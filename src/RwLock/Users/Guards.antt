-- ===== src/RwLock/Users/Guards.antt =====
-- Which guards can be alive at once, and the borrow that they stand for.
use platoon.Base.{
  ℕ, zero, suc, ◌+◌, ◌≤◌, ◌<◌, ◌≡◌, refl, sym, ap, ◌∙◌, ◌⊎◌, inl, inr, List, [], ◌∷◌, arith, length,
  ok, Borrow, more_readers, one_writer, less_readers, no_writer, unused, reading, writing, Insert,
  sum, sum-Insert, here, there,
}
use platoon.RwLock.{permits_max}
use platoon.RwLock.Users.{Mode, shared, exclusive, cost, costs}

-- The borrow that these guards stand for.
abbrev pub borrow_of : List Mode → Borrow
borrow_of [] = unused
borrow_of (exclusive ∷ ms) = writing
borrow_of (shared ∷ ms) = reading (length ms)

abbrev pub AllShared : List Mode → Type 0
AllShared [] = Unit
AllShared (m ∷ ms) = (m ≡ shared) × AllShared ms

-- Many readers, or one writer.
abbrev pub IsCompatible : List Mode → Type 0
IsCompatible ms = AllShared ms ⊎ (ms ≡ exclusive ∷ [])

AllShared-of_room : (ms : List Mode) → sum (costs ms) < permits_max → AllShared ms
AllShared-of_room [] h = tt
AllShared-of_room (shared ∷ ms) h = (refl, AllShared-of_room ms (omega arith))
AllShared-of_room (exclusive ∷ ms) h = absurd (omega arith)

nil_of_no_cost : (ms : List Mode) → sum (costs ms) ≡ 0 → ms ≡ []
nil_of_no_cost [] h = refl
nil_of_no_cost (shared ∷ ms) h = absurd (omega arith)
nil_of_no_cost (exclusive ∷ ms) h = absurd (omega arith)

-- Guards whose permits fit the lock are many readers or one writer.
pub IsCompatible-of_fit : (ms : List Mode) → sum (costs ms) ≤ permits_max → IsCompatible ms
IsCompatible-of_fit [] h = inl tt
IsCompatible-of_fit (shared ∷ ms) h = inl (refl, AllShared-of_room ms (omega arith))
IsCompatible-of_fit (exclusive ∷ ms) h = inr (ap (◌∷◌ exclusive) (nil_of_no_cost ms (omega arith)))

pub reader_fits :
    (ms : List Mode)
    → 1 + sum (costs ms) ≤ permits_max
    → more_readers (borrow_of ms) ≡ ok (borrow_of (shared ∷ ms))
reader_fits [] h = refl
reader_fits (shared ∷ ms) h = refl
reader_fits (exclusive ∷ ms) h = absurd (omega arith)

pub writer_fits :
    (ms : List Mode)
    → permits_max + sum (costs ms) ≤ permits_max
    → one_writer (borrow_of ms) ≡ ok (borrow_of (exclusive ∷ ms))
writer_fits [] h = refl
writer_fits (shared ∷ ms) h = absurd (omega arith)
writer_fits (exclusive ∷ ms) h = absurd (omega arith)

pub Insert-costs :
    {m : Mode} {rest ms : List Mode} → Insert m rest ms → Insert (cost m) (costs rest) (costs ms)
Insert-costs here = here
Insert-costs (there i) = there (Insert-costs i)

readers : ℕ → Borrow
readers zero = unused
readers (suc n) = reading n

borrow_of-readers : (ms : List Mode) → AllShared ms → borrow_of ms ≡ readers (length ms)
unfolding readers
borrow_of-readers [] a = refl
borrow_of-readers (shared ∷ ms) a = refl
borrow_of-readers (exclusive ∷ ms) a = cc a.0

less_readers-readers : (n : ℕ) → less_readers (readers (suc n)) ≡ readers n
unfolding readers
less_readers-readers zero = refl
less_readers-readers (suc n) = refl

length-Insert : {m : Mode} {rest ms : List Mode} → Insert m rest ms → length ms ≡ suc (length rest)
length-Insert here = refl
length-Insert (there i) = ap suc (length-Insert i)

AllShared-Insert : {rest ms : List Mode} → Insert shared rest ms → AllShared rest → AllShared ms
AllShared-Insert here a = (refl, a)
AllShared-Insert (there i) a = (a.0, AllShared-Insert i a.1)

pub reader_leaves :
    {rest ms : List Mode}
    → Insert shared rest ms
    → sum (costs ms) ≤ permits_max
    → less_readers (borrow_of ms) ≡ borrow_of rest
reader_leaves {rest} {ms} i h =
    ap less_readers
      (borrow_of-readers ms (AllShared-Insert i others) ∙ ap readers (length-Insert i))
    ∙ less_readers-readers (length rest)
    ∙ sym (borrow_of-readers rest others)
  where
    others : AllShared rest
    others = AllShared-of_room rest (omega (arith, sum-Insert (Insert-costs i)))

cost-pos : (m : Mode) → 1 ≤ cost m
cost-pos shared = omega arith
cost-pos exclusive = omega arith

pub writer_leaves :
    {rest ms : List Mode}
    → Insert exclusive rest ms
    → sum (costs ms) ≤ permits_max
    → no_writer (borrow_of ms) ≡ borrow_of rest
writer_leaves (here {rest}) h = sym (ap borrow_of (nil_of_no_cost rest (omega arith)))
writer_leaves (there {x} i) h = absurd (omega (arith, sum-Insert (Insert-costs i), cost-pos x))
