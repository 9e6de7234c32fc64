-- ===== src/Runtime/Clock/Alarms.antt =====
-- The laws of the ordered map of alarms.
use platoon.Base.{
  ℕ, ◌≤◌, ◌≡◌, refl, inl, inr, true, false, Option, none, some, [], ◌∷◌, arith, if◌then◌else◌,
  Bool-cases, Waker,
}
use platoon.Runtime.Clock.{AlarmMap, key_lt, key_eq, lookup, insert, remove, from}

-- The key is below the first one.
abbrev pub IsBelow : ℕ → ℕ → AlarmMap → Type 0
IsBelow at id [] = Unit
IsBelow at id ((a, i, w) ∷ m) = key_lt at id a i ≡ true

-- The keys rise strictly.
abbrev pub IsSorted : AlarmMap → Type 0
IsSorted [] = Unit
IsSorted ((a, i, w) ∷ m) = IsBelow a i m × IsSorted m

pub key_eq_lem : (t k a i : ℕ) → key_eq t k a i ≡ true → (t ≡ a) × (k ≡ i)
unfolding key_eq
key_eq_lem t k a i h = (ground arith, ground arith)

key_lt_trans :
    (t k a i b j : ℕ) → key_lt t k a i ≡ true → key_lt a i b j ≡ true → key_lt t k b j ≡ true
unfolding key_lt
key_lt_trans t k a i b j h g = ground arith

key_lt-ne : (t k a i : ℕ) → key_lt t k a i ≡ true → key_eq t k a i ≡ false
unfolding key_lt key_eq
key_lt-ne t k a i h = ground arith

key_total : (t k a i : ℕ) → key_lt t k a i ≡ false → key_eq t k a i ≡ false → key_lt a i t k ≡ true
unfolding key_lt key_eq
key_total t k a i h g = ground arith

key_ne : (t k a i b j : ℕ) → key_eq t k a i ≡ true → key_eq t k b j ≡ false → key_eq a i b j ≡ false
unfolding key_eq
key_ne t k a i b j h g = ground arith

lookup-insert_head :
    (t k at id a i : ℕ) (w v : Waker) (r : Option Waker)
    → key_eq at id a i ≡ false
    → (if key_eq t k a i then some v else if key_eq t k at id then some w else r)
      ≡ (if key_eq t k at id then some w else if key_eq t k a i then some v else r)
unfolding key_eq
lookup-insert_head t k at id a i w v r h = ground arith

pub lookup-insert :
    (t k at id : ℕ) (w : Waker) (m : AlarmMap)
    → lookup t k (insert at id w m) ≡ (if key_eq t k at id then some w else lookup t k m)
unfolding lookup insert
lookup-insert t k at id w [] = refl
lookup-insert t k at id w ((a, i, v) ∷ m) = elim (Bool-cases (key_lt at id a i)) [
  | inl lower ↦ rw lower
  | inr not_lower ↦ elim (Bool-cases (key_eq at id a i)) [
    | inl same ↦
        let (e, f) = key_eq_lem at id a i same in rw (not_lower, same) (ground (arith, e, f))
    | inr other ↦
        rw (not_lower, other, lookup-insert t k at id w m)
          (lookup-insert_head t k at id a i w v (lookup t k m) other)
  ]
]

IsBelow-trans : (t k a i : ℕ) (m : AlarmMap) → key_lt t k a i ≡ true → IsBelow a i m → IsBelow t k m
IsBelow-trans t k a i [] h b = tt
IsBelow-trans t k a i ((a', i', w) ∷ m) h b = key_lt_trans t k a i a' i' h b

lookup-IsBelow : (t k : ℕ) (m : AlarmMap) → IsBelow t k m → IsSorted m → lookup t k m ≡ none
unfolding lookup
lookup-IsBelow t k [] b s = refl
lookup-IsBelow t k ((a, i, w) ∷ m) b s =
    rw (key_lt-ne t k a i b) (lookup-IsBelow t k m (IsBelow-trans t k a i m b s.0) s.1)

pub lookup-remove :
    (t k at id : ℕ) (m : AlarmMap)
    → IsSorted m
    → lookup t k (remove at id m) ≡ (if key_eq t k at id then none else lookup t k m)
unfolding lookup remove
lookup-remove t k at id [] s = ground arith
lookup-remove t k at id ((a, i, w) ∷ m) s = elim (Bool-cases (key_eq at id a i)) [
  | inl same ↦ rw same (removed (key_eq_lem at id a i same) (lookup-IsBelow a i m s.0 s.1))
  | inr other ↦ rw (other, lookup-remove t k at id m s.1) (swap_tests other)
]
  where
    removed :
        (at ≡ a) × (id ≡ i)
        → lookup a i m ≡ none
        → lookup t k m
          ≡ (if key_eq t k at id then none else if key_eq t k a i then some w else lookup t k m)
    removed (e, f) gone = elim (Bool-cases (key_eq t k a i)) [
      | inl hit ↦ let (g, h) = key_eq_lem t k a i hit in rw (e, f, hit) (rw (g, h) gone)
      | inr miss ↦ rw (e, f, miss)
    ]

    swap_tests :
        key_eq at id a i ≡ false
        → (if key_eq t k a i then some w else if key_eq t k at id then none else lookup t k m)
          ≡ (if key_eq t k at id then none else if key_eq t k a i then some w else lookup t k m)
    swap_tests other = elim (Bool-cases (key_eq t k at id)) [
      | inl hit ↦ rw (hit, key_ne' hit other)
      | inr miss ↦ rw miss
    ]
      where
        key_ne' : key_eq t k at id ≡ true → key_eq at id a i ≡ false → key_eq t k a i ≡ false
        key_ne' hit other = let (g, h) = key_eq_lem t k at id hit in rw (g, h) other

IsBelow-insert :
    (t k at id : ℕ) (w : Waker) (m : AlarmMap)
    → key_lt t k at id ≡ true
    → IsBelow t k m
    → IsBelow t k (insert at id w m)
unfolding insert
IsBelow-insert t k at id w [] h b = h
IsBelow-insert t k at id w ((a, i, v) ∷ m) h b = elim (Bool-cases (key_lt at id a i)) [
  | inl lower ↦ rw lower h
  | inr not_lower ↦ elim (Bool-cases (key_eq at id a i)) [
    | inl same ↦ rw (not_lower, same) h
    | inr other ↦ rw (not_lower, other) b
  ]
]

pub insert-IsSorted :
    (at id : ℕ) (w : Waker) (m : AlarmMap) → IsSorted m → IsSorted (insert at id w m)
unfolding insert
insert-IsSorted at id w [] s = (tt, tt)
insert-IsSorted at id w ((a, i, v) ∷ m) s = elim (Bool-cases (key_lt at id a i)) [
  | inl lower ↦ rw lower (lower, s)
  | inr not_lower ↦ elim (Bool-cases (key_eq at id a i)) [
    | inl same ↦ let (e, f) = key_eq_lem at id a i same in rw (not_lower, same) (rw (e, f) s)
    | inr other ↦
        rw (not_lower, other)
          (
            IsBelow-insert a i at id w m (key_total at id a i not_lower other) s.0,
            insert-IsSorted at id w m s.1,
          )
  ]
]

IsBelow-remove :
    (t k at id : ℕ) (m : AlarmMap) → IsSorted m → IsBelow t k m → IsBelow t k (remove at id m)
unfolding remove
IsBelow-remove t k at id [] s b = tt
IsBelow-remove t k at id ((a, i, v) ∷ m) s b = elim (Bool-cases (key_eq at id a i)) [
  | inl same ↦ rw same (IsBelow-trans t k a i m b s.0)
  | inr other ↦ rw other b
]

pub remove-IsSorted : (at id : ℕ) (m : AlarmMap) → IsSorted m → IsSorted (remove at id m)
unfolding remove
remove-IsSorted at id [] s = tt
remove-IsSorted at id ((a, i, v) ∷ m) s = elim (Bool-cases (key_eq at id a i)) [
  | inl same ↦ rw same s.1
  | inr other ↦ rw other (IsBelow-remove a i at id m s.1 s.0, remove-IsSorted at id m s.1)
]

pub lookup-from :
    (t k at id : ℕ) (m : AlarmMap)
    → lookup t k (from at id m) ≡ (if key_lt t k at id then none else lookup t k m)
unfolding lookup from
lookup-from t k at id [] = ground arith
lookup-from t k at id ((a, i, w) ∷ m) = elim (Bool-cases (key_lt a i at id)) [
  | inl lower ↦ rw (lower, lookup-from t k at id m) (dropped lower)
  | inr kept ↦ rw (kept, lookup-from t k at id m) (stays kept)
]
  where
    dropped :
        key_lt a i at id ≡ true
        → (if key_lt t k at id then none else lookup t k m)
          ≡ (if key_lt t k at id then none else if key_eq t k a i then some w else lookup t k m)
    dropped lower = elim (Bool-cases (key_eq t k a i)) [
      | inl hit ↦ let (g, h) = key_eq_lem t k a i hit in rw (g, h, lower)
      | inr miss ↦ rw miss
    ]

    stays :
        key_lt a i at id ≡ false
        → (if key_eq t k a i then some w else if key_lt t k at id then none else lookup t k m)
          ≡ (if key_lt t k at id then none else if key_eq t k a i then some w else lookup t k m)
    stays kept = elim (Bool-cases (key_eq t k a i)) [
      | inl hit ↦ let (g, h) = key_eq_lem t k a i hit in rw (g, h, kept)
      | inr miss ↦ rw miss
    ]

IsBelow-from :
    (t k at id : ℕ) (m : AlarmMap) → IsSorted m → IsBelow t k m → IsBelow t k (from at id m)
unfolding from
IsBelow-from t k at id [] s b = tt
IsBelow-from t k at id ((a, i, v) ∷ m) s b = elim (Bool-cases (key_lt a i at id)) [
  | inl lower ↦ rw lower (IsBelow-from t k at id m s.1 (IsBelow-trans t k a i m b s.0))
  | inr kept ↦ rw kept b
]

pub from-IsSorted : (at id : ℕ) (m : AlarmMap) → IsSorted m → IsSorted (from at id m)
unfolding from
from-IsSorted at id [] s = tt
from-IsSorted at id ((a, i, v) ∷ m) s = elim (Bool-cases (key_lt a i at id)) [
  | inl lower ↦ rw lower (from-IsSorted at id m s.1)
  | inr kept ↦ rw kept (IsBelow-from a i at id m s.1 s.0, from-IsSorted at id m s.1)
]

pub key_lt-le : (t k a i : ℕ) → key_lt t k a i ≡ true → t ≤ a
unfolding key_lt
key_lt-le t k a i h = ground arith

-- The first alarm is the soonest.
pub first-soonest :
    (a i : ℕ) (w : Waker) (m : AlarmMap) (t k : ℕ) (v : Waker)
    → IsSorted ((a, i, w) ∷ m)
    → lookup t k ((a, i, w) ∷ m) ≡ some v
    → a ≤ t
unfolding lookup
first-soonest a i w [] t k v s h = elim (Bool-cases (key_eq t k a i)) [
  | inl hit ↦ omega (arith, key_eq_lem t k a i hit)
  | inr miss ↦ cc (rw miss at h)
]
first-soonest a i w ((a', i', w') ∷ m) t k v s h = elim (Bool-cases (key_eq t k a i)) [
  | inl hit ↦ omega (arith, key_eq_lem t k a i hit)
  | inr miss ↦
      omega (arith, key_lt-le a i a' i' s.0, first-soonest a' i' w' m t k v s.1 (rw miss at h))
]

pub key_eq_self : (t k : ℕ) → key_eq t k t k ≡ true
unfolding key_eq
key_eq_self t k = ground arith
