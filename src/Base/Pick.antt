-- ===== src/Base/Pick.antt =====
-- Taking one element out of a list, where the order of the rest does not matter.
use Prim.Native.Nat.{ℕ, zero, suc, ◌+◌}
use mathlib.Core.Path.{◌≡◌, refl}
use mathlib.Core.List.{List, [], ◌∷◌}
use mathlib.Core.Logic.{◌⊎◌, inl, inr}
use mathlib.Core.Option.{Option, none, some}
use native.Mathlib.Omega.{arith}

module _ {ℓ} {A : Type ℓ} where
  abbrev pub pick : ℕ → List A → Option (A × List A)
  pick j [] = none
  pick zero (x ∷ xs) = some (x, xs)
  pick (suc j) (x ∷ xs) = elim (pick j xs) [ none ↦ none | some (u, rest) ↦ some (u, x ∷ rest) ]

-- The third argument is the second one with the first put in somewhere.
pub data Insert {ℓ} {A : Type ℓ} (u : A) : List A → List A → Type ℓ where
  here : {rest : List A} → Insert u rest (u ∷ rest)
  there : {x : A} {rest xs : List A} → Insert u rest xs → Insert u (x ∷ rest) (x ∷ xs)

module _ {ℓ} {A : Type ℓ} where
  pub pick-Insert :
      (j : ℕ) (xs : List A)
      → (pick j xs ≡ none)
        ⊎ ((u : A) × (rest : List A) × (pick j xs ≡ some (u, rest)) × Insert u rest xs)
  pick-Insert j [] = inl refl
  pick-Insert zero (x ∷ xs) = inr (x, xs, refl, here)
  pick-Insert (suc j) (x ∷ xs) = elim (pick-Insert j xs) [
    | inl e ↦ inl (rw e)
    | inr (u, rest, e, i) ↦ inr (u, x ∷ rest, rw e, there i)
  ]

abbrev pub sum : List ℕ → ℕ
sum [] = 0
sum (x ∷ xs) = x + sum xs

pub sum-Insert : {n : ℕ} {rest xs : List ℕ} → Insert n rest xs → sum xs ≡ n + sum rest
sum-Insert here = refl
sum-Insert (there i) = omega (arith, sum-Insert i)
