-- ===== src/Semaphore/Links.antt =====
-- The doubly linked list inside the slab, as segments: along `prev`, from an older waiter to a
-- newer one, the slab holds the waiters of a list of entries.
pub mod Relink
use platoon.Base.{ℕ, ◌+◌, ◌≡◌, refl, true, Option, some, List, [], ◌∷◌, ◌++◌, arith, has}
use platoon.Semaphore.{Waiter}
use platoon.Semaphore.Queue.{Entry, keys}

-- What the slab holds.
abbrev pub Cells : Type 0
Cells = ℕ → Option Waiter

abbrev pub cell : Entry → (next prev : Option ℕ) → Waiter
cell e next prev = record {
  waker = e.waker;
  next = next;
  prev = prev;
  required = e.required;
  woke = e.woke;
}

-- The key of the first entry, or what follows the segment.
abbrev pub first : List Entry → Option ℕ → Option ℕ
first [] after = after
first (e ∷ es) after = some e.key

-- The key of the last entry, or what stands before the segment.
abbrev pub last : Option ℕ → List Entry → Option ℕ
last before [] = before
last before (e ∷ es) = last (some e.key) es

-- `next` of the first entry is `before`, and `prev` of the last one is `after`.
abbrev pub Seg : Cells → Option ℕ → Option ℕ → List Entry → Type 0
Seg f before after [] = Unit
Seg f before after (e ∷ es) =
    (f e.key ≡ some (cell e before (first es after))) × Seg f (some e.key) after es

pub keys-append : (xs ys : List Entry) → keys (xs ++ ys) ≡ keys xs ++ keys ys
keys-append [] ys = refl
keys-append (x ∷ xs) ys = ground (arith, keys-append xs ys)

pub first-append : (xs ys : List Entry) (o : Option ℕ) → first (xs ++ ys) o ≡ first xs (first ys o)
first-append [] ys o = refl
first-append (x ∷ xs) ys o = refl

pub last-append : (o : Option ℕ) (xs ys : List Entry) → last o (xs ++ ys) ≡ last (last o xs) ys
last-append o [] ys = refl
last-append o (x ∷ xs) ys = last-append (some x.key) xs ys

-- A segment depends on its own keys only.
pub frame :
    (f g : Cells) (before after : Option ℕ) (es : List Entry)
    → ((k : ℕ) → has k (keys es) ≡ true → g k ≡ f k)
    → Seg f before after es
    → Seg g before after es
frame f g before after [] same s = tt
frame f g before after (e ∷ es) same s =
    (ground (arith, same e.key), frame f g (some e.key) after es (λ k h. same k (ground arith)) s.1)

pub Seg-append :
    (f : Cells) (before after : Option ℕ) (xs ys : List Entry)
    → Seg f before (first ys after) xs
    → Seg f (last before xs) after ys
    → Seg f before after (xs ++ ys)
Seg-append f before after [] ys s t = t
Seg-append f before after (x ∷ xs) ys s t =
    (ground (arith, first-append xs ys after), Seg-append f (some x.key) after xs ys s.1 t)

pub Seg-split :
    (f : Cells) (before after : Option ℕ) (xs ys : List Entry)
    → Seg f before after (xs ++ ys)
    → Seg f before (first ys after) xs × Seg f (last before xs) after ys
Seg-split f before after [] ys s = (tt, s)
Seg-split f before after (x ∷ xs) ys s =
    let rest = Seg-split f (some x.key) after xs ys s.1 in
    ((ground (arith, first-append xs ys after), rest.0), rest.1)
