-- ===== src/Semaphore/Links/Relink.antt =====
-- Cutting an entry out of a segment, and hanging one on at its end: what the writes to `prev`
-- and `next` in `Inner::add` and `Inner::remove` do to the links.
use platoon.Base.{
  ℕ, ◌≡◌, refl, ◌∙◌, true, false, Option, none, some, List, [], ◌∷◌, ◌++◌, arith, ◌==◌,
  if◌then◌else◌, has, Distinct, has_ne, Distinct-append,
}
use platoon.Semaphore.{Waiter}
use platoon.Semaphore.Queue.{Entry, keys}
use platoon.Semaphore.Links.{
  Cells, cell, first, last, Seg, frame, Seg-split, Seg-append, keys-append,
}

abbrev pub with_prev : Option ℕ → Option ℕ → Cells → Cells
with_prev none prev f k = f k
with_prev (some key) prev f k =
    if k == key then elim (f k) [ none ↦ none | some w ↦ some (record w { prev = prev }) ] else f k

abbrev pub with_next : Option ℕ → Option ℕ → Cells → Cells
with_next none next f k = f k
with_next (some key) next f k =
    if k == key then elim (f k) [ none ↦ none | some w ↦ some (record w { next = next }) ] else f k

abbrev pub without : ℕ → Cells → Cells
without key f k = if k == key then none else f k

pub last-mem :
    (y : Entry) (ys : List Entry)
    → (l : ℕ) × (last (some y.key) ys ≡ some l) × (has l (keys (y ∷ ys)) ≡ true)
last-mem y [] = (y.key, refl, ground arith)
last-mem y (z ∷ zs) = let (l, e, m) = last-mem z zs in (l, e, ground arith)

pub relink_first :
    (f : Cells) (before after next : Option ℕ) (es : List Entry)
    → Distinct (keys es)
    → Seg f before after es
    → Seg (with_next (first es after) next f) next after es
relink_first f before after next [] d s = tt
relink_first f before after next (e ∷ es) d s =
    (ground arith, frame f _ (some e.key) after es (λ k h. ground arith) s.1)

pub relink_last :
    (f : Cells) (before after prev : Option ℕ) (es : List Entry)
    → Distinct (keys es)
    → Seg f before after es
    → Seg (with_prev (last before es) prev f) before prev es
relink_last f before after prev [] d s = tt
relink_last f before after prev (e ∷ []) d s = (ground arith, tt)
relink_last f before after prev (e ∷ y ∷ ys) d s =
    let (l, q, m) = last-mem y ys in
    let ne = has_ne e.key l (keys (y ∷ ys)) d.0 m in
    (rw (q, ne) s.0, relink_last f (some e.key) after prev (y ∷ ys) d.1 s.1)

pub with_prev-last :
    (xs : List Entry) (prev : Option ℕ) (f : Cells) (k : ℕ)
    → has k (keys xs) ≡ false
    → with_prev (last none xs) prev f k ≡ f k
with_prev-last [] prev f k out = refl
with_prev-last (x ∷ xs) prev f k out =
    let (l, q, m) = last-mem x xs in let ne = has_ne k l (keys (x ∷ xs)) out m in rw (q, ne)

with_next-first :
    (ys : List Entry) (next : Option ℕ) (f : Cells) (k : ℕ)
    → has k (keys ys) ≡ false
    → with_next (first ys none) next f k ≡ f k
with_next-first [] next f k out = refl
with_next-first (y ∷ ys) next f k out = ground arith

abbrev pub unlinked : (key : ℕ) (next prev : Option ℕ) → Cells → Cells
unlinked key next prev f = with_prev next prev (with_next prev next (without key f))

-- The slab holds a waiter under the key, if there is a key.
abbrev pub Occupied : Cells → Option ℕ → Type 0
Occupied f none = Unit
Occupied f (some key) = (w : Waiter) × (f key ≡ some w)

pub Occupied-first :
    (f : Cells) (before : Option ℕ) (es : List Entry)
    → Seg f before none es
    → Occupied f (first es none)
Occupied-first f before [] s = tt
Occupied-first f before (e ∷ es) s = (cell e before (first es none), s.0)

pub Occupied-last :
    (f : Cells) (before after : Option ℕ) (es : List Entry)
    → Occupied f before
    → Seg f before after es
    → Occupied f (last before es)
Occupied-last f before after [] o s = o
Occupied-last f before after (e ∷ es) o s =
    Occupied-last f (some e.key) after es (cell e before (first es after), s.0) s.1

-- An entry is cut out by pointing its neighbours at each other, which are there.
pub unlink :
    (f : Cells) (xs : List Entry) (e : Entry) (ys : List Entry)
    → Distinct (keys (xs ++ e ∷ ys))
    → Seg f none none (xs ++ e ∷ ys)
    → Occupied (without e.key f) (first ys none)
      × Occupied (with_next (first ys none) (last none xs) (without e.key f)) (last none xs)
      × Seg (unlinked e.key (last none xs) (first ys none) f) none none (xs ++ ys)
unlink f xs e ys d s = (
  Occupied-first (without e.key f) (some e.key) ys kept-newer,
  Occupied-last cut none (some e.key) xs tt kept-older,
  Seg-append _ none none xs ys older newer,
)
  where
    parts : Seg f none (some e.key) xs × Seg f (last none xs) none (e ∷ ys)
    parts = Seg-split f none none xs (e ∷ ys) s

    apart :
        Distinct (keys xs)
        × Distinct (keys (e ∷ ys))
        × ((k : ℕ) → has k (keys xs) ≡ true → has k (keys (e ∷ ys)) ≡ false)
    apart = Distinct-append (keys xs) (keys (e ∷ ys)) (rw keys-append at d)

    cut : Cells
    cut = with_next (first ys none) (last none xs) (without e.key f)

    cut-older : (k : ℕ) → has k (keys xs) ≡ true → cut k ≡ f k
    cut-older k h =
        let out : has k (keys (e ∷ ys)) ≡ false = apart.2 k h in
        with_next-first ys (last none xs) (without e.key f) k (ground arith) ∙ ground arith

    kept-newer : Seg (without e.key f) (some e.key) none ys
    kept-newer =
        frame f _ (some e.key) none ys (λ k h. ground (arith, has_ne e.key k (keys ys) apart.1.0 h))
          parts.1.1

    kept-older : Seg cut none (some e.key) xs
    kept-older = frame f cut none (some e.key) xs cut-older parts.0

    older : Seg (unlinked e.key (last none xs) (first ys none) f) none (first ys none) xs
    older = relink_last cut none (some e.key) (first ys none) xs apart.0 kept-older

    not_older : (k : ℕ) → has k (keys ys) ≡ true → has k (keys xs) ≡ false
    not_older k h = ground (arith, apart.2 k)

    newer : Seg (unlinked e.key (last none xs) (first ys none) f) (last none xs) none ys
    newer =
        frame cut _ (last none xs) none ys
          (λ k h. with_prev-last xs (first ys none) cut k (not_older k h))
          (relink_first (without e.key f) (some e.key) none (last none xs) ys apart.1.1 kept-newer)
