-- ===== src/Base/Bits.antt =====
-- `|` and `&` on numbers, digit by digit: a test finds in a union of flags what it finds in one
-- of them.
use Prim.Native.Nat.{
  ℕ, zero, suc, ◌+◌, ◌*◌, ◌/◌, ◌%◌, ◌≤◌, min, max, bit_and, bit_or, digits, bit_and-bitwise,
  bit_or-bitwise,
}
use mathlib.Core.Path.{◌≡◌, refl, sym, ◌∙◌, ap}
use mathlib.Core.Bool.{Bool, not, ◌||◌}
use native.Mathlib.Omega.{arith}
use platoon.Base.Tests.{◌==◌}

-- The digits of the first number that there are not change nothing.
digits_enough :
    (rest : ℕ → ℕ) (digit : ℕ → ℕ → ℕ) (n m a b : ℕ)
    → a ≤ n
    → a ≤ m
    → digits rest digit n a b ≡ digits rest digit m a b
digits_enough rest digit zero zero zero b h k = refl
digits_enough rest digit zero zero (suc a) b h k = absurd (omega arith)
digits_enough rest digit zero (suc m) zero b h k = refl
digits_enough rest digit zero (suc m) (suc a) b h k = absurd (omega arith)
digits_enough rest digit (suc n) zero zero b h k = refl
digits_enough rest digit (suc n) zero (suc a) b h k = absurd (omega arith)
digits_enough rest digit (suc n) (suc m) zero b h k = refl
digits_enough rest digit (suc n) (suc m) (suc a) b h k =
    ap (λ d. d * 2 + digit (suc a % 2) (b % 2))
      (digits_enough rest digit n m (suc a / 2) (b / 2) (omega arith) (omega arith))

zero-bit_or : (b : ℕ) → bit_or 0 b ≡ b
zero-bit_or b = bit_or-bitwise 0 b

zero-bit_and : (b : ℕ) → bit_and 0 b ≡ 0
zero-bit_and b = bit_and-bitwise 0 b

-- The last digit of a union and of an intersection, and the ones before it.
bit_or-halves : (a b : ℕ) → bit_or a b ≡ bit_or (a / 2) (b / 2) * 2 + max (a % 2) (b % 2)
bit_or-halves zero b = omega (arith, zero-bit_or b, zero-bit_or (b / 2))
bit_or-halves (suc a) b = omega (
  arith,
  bit_or-bitwise (suc a) b,
  bit_or-bitwise (suc a / 2) (b / 2),
  digits_enough (λ c. c) max a (suc a / 2) (suc a / 2) (b / 2) (omega arith) (omega arith),
)

bit_and-halves : (a b : ℕ) → bit_and a b ≡ bit_and (a / 2) (b / 2) * 2 + min (a % 2) (b % 2)
bit_and-halves zero b = omega (arith, zero-bit_and b, zero-bit_and (b / 2))
bit_and-halves (suc a) b = omega (
  arith,
  bit_and-bitwise (suc a) b,
  bit_and-bitwise (suc a / 2) (b / 2),
  digits_enough (λ c. 0) min a (suc a / 2) (suc a / 2) (b / 2) (omega arith) (omega arith),
)

-- The fuel is the sum, which halving brings down.
bit_and_comm_to : (n a b : ℕ) → a + b ≤ n → bit_and a b ≡ bit_and b a
bit_and_comm_to zero zero zero h = refl
bit_and_comm_to zero zero (suc b) h = absurd (omega arith)
bit_and_comm_to zero (suc a) b h = absurd (omega arith)
bit_and_comm_to (suc n) a b h =
    omega (
      arith,
      bit_and-halves a b,
      bit_and-halves b a,
      bit_and_comm_to n (a / 2) (b / 2) (omega arith),
    )

pub bit_and_comm : (a b : ℕ) → bit_and a b ≡ bit_and b a
bit_and_comm a b = bit_and_comm_to (a + b) a b (omega arith)

bit_or-parts :
    (a b : ℕ) → (bit_or a b / 2 ≡ bit_or (a / 2) (b / 2)) × (bit_or a b % 2 ≡ max (a % 2) (b % 2))
bit_or-parts a b = (omega (arith, bit_or-halves a b), omega (arith, bit_or-halves a b))

bit_and-parts :
    (a b : ℕ)
    → (bit_and a b / 2 ≡ bit_and (a / 2) (b / 2)) × (bit_and a b % 2 ≡ min (a % 2) (b % 2))
bit_and-parts a b = (omega (arith, bit_and-halves a b), omega (arith, bit_and-halves a b))

and-or_to : (n a b c : ℕ) → a + b ≤ n → bit_and (bit_or a b) c ≡ bit_or (bit_and a c) (bit_and b c)
and-or_to zero zero zero c h = rw (zero-bit_or, zero-bit_and, zero-bit_or)
and-or_to zero zero (suc b) c h = absurd (omega arith)
and-or_to zero (suc a) b c h = absurd (omega arith)
and-or_to (suc n) a b c h =
    let (or_rest, or_last) = bit_or-parts a b in
    let (ac_rest, ac_last) = bit_and-parts a c in
    let (bc_rest, bc_last) = bit_and-parts b c in
    bit_and-halves (bit_or a b) c
    ∙ rw (or_rest, or_last, and-or_to n (a / 2) (b / 2) (c / 2) (omega arith))
        (sym (
          bit_or-halves (bit_and a c) (bit_and b c)
          ∙ rw (ac_rest, bc_rest) (omega (arith, ac_last, bc_last))))

-- `(a | b) & c` is `(a & c) | (b & c)`.
pub bit_and-bit_or : (a b c : ℕ) → bit_and (bit_or a b) c ≡ bit_or (bit_and a c) (bit_and b c)
bit_and-bit_or a b c = and-or_to (a + b) a b c (omega arith)

-- A union is no less than either part, and no more than both.
bit_or_bounds_to :
    (n a b : ℕ) → a + b ≤ n → (a ≤ bit_or a b) × (b ≤ bit_or a b) × (bit_or a b ≤ a + b)
bit_or_bounds_to zero zero zero h = (omega arith, omega arith, omega arith)
bit_or_bounds_to zero zero (suc b) h = absurd (omega arith)
bit_or_bounds_to zero (suc a) b h = absurd (omega arith)
bit_or_bounds_to (suc n) a b h =
    let (left, right, both) = bit_or_bounds_to n (a / 2) (b / 2) (omega arith) in
    let halves = bit_or-halves a b in
    (omega (arith, left, halves), omega (arith, right, halves), omega (arith, both, halves))

pub bit_or_bounds : (a b : ℕ) → (a ≤ bit_or a b) × (b ≤ bit_or a b) × (bit_or a b ≤ a + b)
bit_or_bounds a b = bit_or_bounds_to (a + b) a b (omega arith)

-- `flags & mask != 0`.
unfoldable pub has_flag : (flags mask : ℕ) → Bool
has_flag flags mask = not (bit_and flags mask == 0)

-- A test of a union finds what a test of either part finds.
pub has_flag-bit_or :
    (a b mask : ℕ) → has_flag (bit_or a b) mask ≡ (has_flag a mask || has_flag b mask)
unfolding has_flag
has_flag-bit_or a b mask =
    let same = bit_and-bit_or a b mask in
    let bounds = bit_or_bounds (bit_and a mask) (bit_and b mask) in rw same (ground (arith, bounds))

has_flag_comm : (a b : ℕ) → has_flag a b ≡ has_flag b a
unfolding has_flag
has_flag_comm a b = rw (bit_and_comm a b)

-- So does a test for a union.
pub has_flag-mask :
    (flags a b : ℕ) → has_flag flags (bit_or a b) ≡ (has_flag flags a || has_flag flags b)
has_flag-mask flags a b =
    has_flag_comm flags (bit_or a b)
    ∙ has_flag-bit_or a b flags
    ∙ rw (has_flag_comm a flags, has_flag_comm b flags)
