-- ===== src/Net/Tcp/Examples.antt =====
-- Sockets that connect at once or later, and a stream that waits, on the reactor of
-- Runtime/Reactor/Examples.antt.
use platoon.Base.{
  ℕ, List, [], ◌∷◌, ◌+◌, ◌==◌, ◌≡◌, refl, true, false, Bool, none, some, ok, IoError, other_kind,
  would_block, interrupted, success, failure,
}
use platoon.Slab.Slots.{slots}
use platoon.Sys.Table.{table}
use platoon.Sys.Connect.{Sockets}
use platoon.Runtime.Reactor.{Source}
use platoon.Runtime.Reactor.Examples.{one_source, watched_source, one_source-IsWatched}
use platoon.Net.{Async}
use platoon.Net.Tcp.Calls.{Call, run, reads_vectored, polls_system, sets_ttl, peeks_future, closes}
use platoon.Net.Tcp.Calls.Histories.{Ends, run-Ends}
use platoon.Net.Tcp.Std.{Restores, into_std-from_std}
use platoon.Net.Tcp.{from_std, starting, poll_connect, accept}
use platoon.Net.Tcp.Accepts.{Accepted, Accepts, accept-Accepts}
use platoon.Net.Tcp.Connects.{Connects, poll_connect-Connects}

-- 115 is `EINPROGRESS`.
abbrev in_progress : IoError → Bool
in_progress interrupted = false
in_progress would_block = false
in_progress (other_kind n) = n == 115

-- The world counts the sockets; what connects is under way, and has no error.
abbrev counted : Sockets
counted = record {
  World = ℕ;
  Address = ℕ;
  new_socket = λ w addr typed. (w + 1, success w);
  set_nonblocking = λ w sys. (w, success tt);
  start_connect = λ w sys addr. (w, failure (other_kind 115));
  take_error = λ w sys. (w, success none);
  bind = λ w addr. (w + 1, success w);
  accept = λ sys w. (w + 1, success (w, 80));
  peek = λ sys w. (w, success 0);
  read_bytes = λ sys w. (w, success 0);
  write_bytes = λ sys w. (w, success 0);
  read_vectored = λ sys w. (w, failure would_block);
  write_vectored = λ sys w. (w, success 0);
  flush = λ sys w. (w, success tt);
  local_addr = λ w sys. (w, success 80);
  peer_addr = λ w sys. (w, success 81);
  nodelay = λ w sys. (w, success false);
  set_nodelay = λ w sys on. (w, success tt);
  ttl = λ w sys. (w, success 64);
  set_ttl = λ w sys hops. (w, success tt);
  shutdown_write = λ w sys. (w, success tt);
  close = λ w sys. w;
  is_in_progress = in_progress;
}

poll_connect-Connects_example :
    Connects table
      (slots Source)
      counted
      1
      4
      (poll_connect table (slots Source) counted true one_source 9 (starting 80) 4)
poll_connect-Connects_example =
    poll_connect-Connects table (slots Source) counted true one_source 9 (starting 80) 4 1
      one_source-IsWatched refl

abbrev listener : Async
listener = record { id = 0; sys = some 5 }

accept-Accepts_example :
    (result : Accepted table (slots Source) counted) × (accept table
        (slots Source)
        counted
        2
        one_source
        listener
        5
        9
        4
        false
      ≡ ok result)
    × Accepts table (slots Source) counted 0 4 result
accept-Accepts_example =
    accept-Accepts table (slots Source) counted 0 one_source listener 5 9 4 false watched_source
      one_source-IsWatched refl

into_std-from_std_example :
    Restores table
      (slots Source)
      counted
      one_source
      9
      6
      (from_std table (slots Source) counted one_source 9 6)
into_std-from_std_example =
    into_std-from_std table (slots Source) counted one_source 9 6 one_source-IsWatched

-- A vectored read blocks, at first and after the system reported that the source is readable.
abbrev calls : List Call
calls =
    reads_vectored 4
    ∷ polls_system none
    ∷ reads_vectored 4
    ∷ sets_ttl 12
    ∷ peeks_future true 4
    ∷ closes
    ∷ []

run-Ends_example :
    Ends table
      (slots Source)
      counted
      listener
      5
      (run table (slots Source) counted 2 listener one_source 9 5 calls)
run-Ends_example =
    run-Ends table (slots Source) counted 0 listener 5 one_source 9 calls refl
      (watched_source, refl)
