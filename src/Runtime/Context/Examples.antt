-- ===== src/Runtime/Context/Examples.antt =====
-- Runtime 2 inside runtime 1, and a future that counts its polls down.
use platoon.Base.{ℕ, zero, suc, ◌≡◌, refl, Option, none, some, [], ◌++◌, Poll, ready, pending}
use platoon.Runtime.Context.{Runtime, Thread, calls}
use platoon.Runtime.Context.Scopes.{Block, ends, looks, scopes, calls_of, lexical, calls-lexical}

abbrev nested : Block
nested = looks (scopes 1 (looks (scopes 2 (looks ends) (looks ends))) (looks ends))

abbrev fresh_thread : Thread
fresh_thread = record { rt = none; guards = []; seen = [] }

calls-lexical_example :
    calls fresh_thread (calls_of nested)
    ≡ record fresh_thread { seen = fresh_thread.seen ++ lexical none nested }
calls-lexical_example = calls-lexical nested fresh_thread

abbrev counts_down : ℕ → Option Runtime → Option Runtime × Poll ℕ × ℕ
counts_down zero rt = (rt, ready 7, zero)
counts_down (suc n) rt = (rt, pending, n)

counts_down-keeps : (n : ℕ) → (counts_down n (some 2)).0 ≡ some 2
counts_down-keeps zero = refl
counts_down-keeps (suc n) = refl
