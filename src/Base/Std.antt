-- ===== src/Base/Std.antt =====
-- What the program uses of Rust's standard library: `Poll`, `Waker`, `usize` addition and `as c_int`.
use Prim.Native.Nat.{ℕ, ◌+◌, ◌-◌, ◌%◌, ◌^◌}
use mathlib.Core.Bool.{Bool}
use platoon.Base.Tests.{ltb, if◌then◌else◌}
use platoon.Base.Errors.{Outcome, ok, panic}

pub data Poll {ℓ} (A : Type ℓ) : Type ℓ where
  ready : A → Poll A
  pending : Poll A

-- A waker is known by what it wakes. A call of `wake` is an entry of a list that the caller
-- returns, oldest first, and `will_wake` is equality.
abbrev pub Waker : Type 0
Waker = ℕ

abbrev pub usize_max : ℕ
usize_max = 0xffff_ffff_ffff_ffff

-- `a + b` on `usize`, where `checks` says whether the build has overflow checks.
unfoldable pub add_usize : Bool → ℕ → ℕ → Outcome ℕ
add_usize checks a b =
    if ltb usize_max (a + b) then (if checks then panic else ok ((a + b) % 2 ^ 64)) else ok (a + b)

-- Signed integers, where `negsuc n` is -1 - n.
pub data ℤ : Type 0 where
  pos : ℕ → ℤ
  negsuc : ℕ → ℤ

-- `n as c_int`: 32 bits, read as a signed number.
unfoldable pub as_c_int : ℕ → ℤ
as_c_int n =
    let word = n % 2 ^ 32 in if ltb word (2 ^ 31) then pos word else negsuc (2 ^ 32 - 1 - word)

-- `io::Error`, by the kinds that the program tells apart.
pub data IoError : Type 0 where
  interrupted : IoError
  would_block : IoError
  other_kind : ℕ → IoError

-- `io::Result`.
pub data IoResult {ℓ} (A : Type ℓ) : Type ℓ where
  success : A → IoResult A
  failure : IoError → IoResult A
