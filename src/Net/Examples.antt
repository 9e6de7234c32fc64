-- ===== src/Net/Examples.antt =====
-- An operation that blocks as often as its world says, on the reactor of
-- Runtime/Reactor/Examples.antt.
use platoon.Base.{ℕ, zero, suc, refl, true, some, IoResult, would_block, success, failure}
use platoon.Slab.Slots.{slots}
use platoon.Sys.Table.{table}
use platoon.Runtime.Reactor.{write, Source}
use platoon.Runtime.Reactor.Examples.{one_source, watched_source, one_source-IsWatched}
use platoon.Net.{Async, poll_do_io}
use platoon.Net.Loops.{Finishes, poll_do_io-Finishes}

abbrev blocks_first : ℕ → ℕ × IoResult ℕ
blocks_first zero = (zero, success 3)
blocks_first (suc n) = (n, failure would_block)

poll_do_io-Finishes_example :
    Finishes table
      (slots Source)
      blocks_first
      0
      write
      8
      (poll_do_io table (slots Source) blocks_first 2 true one_source 0 write 1 8)
poll_do_io-Finishes_example =
    poll_do_io-Finishes table (slots Source) blocks_first 0 true one_source 0 write 1 8
      watched_source one_source-IsWatched refl

abbrev socket : Async
socket = record { id = 0; sys = some 5 }
