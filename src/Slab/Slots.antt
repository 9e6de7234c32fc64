-- ===== src/Slab/Slots.antt =====
-- A slab as a list of slots, where an insertion takes the first vacant one: the instance at
-- which theorems about an arbitrary slab are applied.
use platoon.Base.{
  ℕ, zero, suc, ◌+◌, ◌≡◌, refl, ap, Option, none, some, List, [], ◌∷◌, arith, ◌==◌, if◌then◌else◌,
}
use platoon.Slab.{Slab}

module _ {V : Type 0} where
  abbrev get : List (Option V) → ℕ → Option V
  get [] k = none
  get (o ∷ s) zero = o
  get (o ∷ s) (suc k) = get s k

  abbrev vacant_key : List (Option V) → ℕ
  vacant_key [] = 0
  vacant_key (none ∷ s) = 0
  vacant_key (some v ∷ s) = suc (vacant_key s)

  abbrev put : List (Option V) → V → List (Option V)
  put [] v = some v ∷ []
  put (none ∷ s) v = some v ∷ s
  put (some u ∷ s) v = some u ∷ put s v

  abbrev set : List (Option V) → ℕ → Option V → List (Option V)
  set [] k o = []
  set (u ∷ s) zero o = o ∷ s
  set (u ∷ s) (suc k) o = u ∷ set s k o

  abbrev occupied : List (Option V) → ℕ
  occupied [] = 0
  occupied (none ∷ s) = occupied s
  occupied (some v ∷ s) = suc (occupied s)

  pub get-vacant_key : (s : List (Option V)) → get s (vacant_key s) ≡ none
  get-vacant_key [] = refl
  get-vacant_key (none ∷ s) = refl
  get-vacant_key (some v ∷ s) = get-vacant_key s

  pub get-put :
      (s : List (Option V)) (v : V) (k : ℕ)
      → get (put s v) k ≡ (if k == vacant_key s then some v else get s k)
  get-put [] v zero = refl
  get-put [] v (suc k) = ground arith
  get-put (none ∷ s) v zero = refl
  get-put (none ∷ s) v (suc k) = ground arith
  get-put (some u ∷ s) v zero = ground arith
  get-put (some u ∷ s) v (suc k) = ground (arith, get-put s v k)

  pub occupied-put : (s : List (Option V)) (v : V) → occupied (put s v) ≡ occupied s + 1
  occupied-put [] v = omega arith
  occupied-put (none ∷ s) v = omega arith
  occupied-put (some u ∷ s) v = omega (arith, occupied-put s v)

  pub get-set :
      (s : List (Option V)) (j : ℕ) (u v : V) (k : ℕ)
      → get s j ≡ some u
      → get (set s j (some v)) k ≡ (if k == j then some v else get s k)
  get-set [] j u v k e = ground arith
  get-set (o ∷ s) zero u v zero e = ground arith
  get-set (o ∷ s) zero u v (suc k) e = ground arith
  get-set (o ∷ s) (suc j) u v zero e = ground arith
  get-set (o ∷ s) (suc j) u v (suc k) e = ground (arith, get-set s j u v k e)

  pub get-clear :
      (s : List (Option V)) (j k : ℕ) → get (set s j none) k ≡ (if k == j then none else get s k)
  get-clear [] j k = ground arith
  get-clear (o ∷ s) zero zero = ground arith
  get-clear (o ∷ s) zero (suc k) = ground arith
  get-clear (o ∷ s) (suc j) zero = ground arith
  get-clear (o ∷ s) (suc j) (suc k) = ground (arith, get-clear s j k)

  pub occupied-set :
      (s : List (Option V)) (j : ℕ) (u v : V)
      → get s j ≡ some u
      → occupied (set s j (some v)) ≡ occupied s
  occupied-set [] j u v e = ground arith
  occupied-set (none ∷ s) zero u v e = ground arith
  occupied-set (some w ∷ s) zero u v e = ground arith
  occupied-set (none ∷ s) (suc j) u v e = occupied-set s j u v e
  occupied-set (some w ∷ s) (suc j) u v e = ap suc (occupied-set s j u v e)

  pub occupied-clear :
      (s : List (Option V)) (j : ℕ) (u : V)
      → get s j ≡ some u
      → occupied s ≡ occupied (set s j none) + 1
  occupied-clear [] j u e = ground arith
  occupied-clear (none ∷ s) zero u e = ground arith
  occupied-clear (some w ∷ s) zero u e = omega arith
  occupied-clear (none ∷ s) (suc j) u e = occupied-clear s j u e
  occupied-clear (some w ∷ s) (suc j) u e = omega (arith, occupied-clear s j u e)

abbrev pub slots : (V : Type 0) → Slab V
slots V = record {
  Store = List (Option V);
  empty = [];
  get = get;
  insert = λ s v. (vacant_key s, put s v);
  vacant_key = vacant_key;
  set = λ s k v. set s k (some v);
  remove = λ s k. set s k none;
  len = occupied;
  get-empty = λ k. refl;
  len-empty = refl;
  insert-key = λ s v. refl;
  get-vacant_key = get-vacant_key;
  get-insert = get-put;
  len-insert = occupied-put;
  get-set = get-set;
  len-set = occupied-set;
  get-remove = get-clear;
  len-remove = occupied-clear;
}
