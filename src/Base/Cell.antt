-- ===== src/Base/Cell.antt =====
-- What the program uses of Rust's `RefCell`: a value with a count of its borrows, where a borrow
-- that the ones alive forbid panics.
use Prim.Native.Nat.{ℕ, zero, suc}
use platoon.Base.Errors.{Outcome, ok, panic}

-- `reading n` has n + 1 shared borrows alive.
pub data Borrow : Type 0 where
  unused : Borrow
  reading : ℕ → Borrow
  writing : Borrow

pub record RefCell (T : Type 0) : Type 0 where
  pub value : T
  pub borrowed : Borrow

abbrev pub more_readers : Borrow → Outcome Borrow
more_readers unused = ok (reading 0)
more_readers (reading n) = ok (reading (suc n))
more_readers writing = panic

abbrev pub one_writer : Borrow → Outcome Borrow
one_writer unused = ok writing
one_writer (reading n) = panic
one_writer writing = panic

-- The drop of a `Ref`, and of a `RefMut`.
abbrev pub less_readers : Borrow → Borrow
less_readers unused = unused
less_readers (reading zero) = unused
less_readers (reading (suc n)) = reading n
less_readers writing = writing

abbrev pub no_writer : Borrow → Borrow
no_writer unused = unused
no_writer (reading n) = reading n
no_writer writing = unused
