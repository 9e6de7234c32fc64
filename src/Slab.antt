-- ===== src/Slab.antt =====
-- The crate `slab`, a dependency that is not part of the repository: the operations that the
-- program calls, with the documented behaviour that it relies on. Indexing by a vacant key and
-- removing one panic, which the callers write out.
pub mod Slots
use platoon.Base.{ℕ, ◌+◌, ◌≡◌, Option, none, some, ◌==◌, if◌then◌else◌}

pub record Slab (V : Type 0) : Type 1 where
  pub Store : Type 0
  -- `Slab::new` and `Slab::with_capacity`.
  pub empty : Store
  -- `get` and `get_mut`, read.
  pub get : Store → ℕ → Option V
  -- `insert`, or `vacant_entry` followed by `VacantEntry::insert`: the key and the new contents.
  pub insert : Store → V → ℕ × Store
  -- `vacant_entry().key()`.
  pub vacant_key : Store → ℕ
  -- A write through `get_mut` or `index_mut`.
  pub set : Store → ℕ → V → Store
  pub remove : Store → ℕ → Store
  pub len : Store → ℕ
  pub get-empty : (k : ℕ) → get empty k ≡ none
  pub len-empty : len empty ≡ 0
  pub insert-key : (s : Store) (v : V) → (insert s v).0 ≡ vacant_key s
  pub get-vacant_key : (s : Store) → get s (vacant_key s) ≡ none
  pub get-insert :
      (s : Store) (v : V) (k : ℕ)
      → get (insert s v).1 k ≡ (if k == vacant_key s then some v else get s k)
  pub len-insert : (s : Store) (v : V) → len (insert s v).1 ≡ len s + 1
  pub get-set :
      (s : Store) (j : ℕ) (u v : V) (k : ℕ)
      → get s j ≡ some u
      → get (set s j v) k ≡ (if k == j then some v else get s k)
  pub len-set : (s : Store) (j : ℕ) (u v : V) → get s j ≡ some u → len (set s j v) ≡ len s
  pub get-remove : (s : Store) (j k : ℕ) → get (remove s j) k ≡ (if k == j then none else get s k)
  pub len-remove : (s : Store) (j : ℕ) (u : V) → get s j ≡ some u → len s ≡ len (remove s j) + 1
