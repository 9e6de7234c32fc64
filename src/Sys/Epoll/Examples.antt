-- ===== src/Sys/Epoll/Examples.antt =====
-- A reactor over the kernel of Kernel.antt, with a source that a reader waits for.
use platoon.Base.{
  ℕ, zero, suc, ◌<◌, ◌/◌, ◌^◌, ◌≡◌, ◌≤◌, ◌⊎◌, refl, subst, true, false, none, some, [], ◌∷◌, arith,
  ◌==◌, if◌then◌else◌, ok, has_flag, pos, negsuc, pending, success,
}
use platoon.Slab.Slots.{slots}
use platoon.Sys.{Event, Poller}
use platoon.Sys.Epoll.{SysEvent, timeout_ms, to_sys, from_sys}
use platoon.Sys.Epoll.Registers.{epoll_poller, from_sys-to_sys}
use platoon.Sys.Epoll.Timeouts.{timeout_ms-as_c_int}
use platoon.Sys.Epoll.Kernel.{linux}
use platoon.Sys.Epoll.Reports.{Awaits, pending-Awaits, epoll_wait-Wakes}
use platoon.Runtime.Reactor.{
  read, Source, Reactor, no_interest, has_poller, interest, with_interest, register, poll_ready,
  poll, dispatch, rearm, fire, take,
}
use platoon.Runtime.Reactor.Watch.{IsWatched, Serves}
use platoon.Runtime.Reactor.Reports.{Wakes}

abbrev both_ways : Event
both_ways = record { key = 9; readable = true; writable = true }

from_sys-to_sys_example : from_sys linux (to_sys linux both_ways) ≡ both_ways
from_sys-to_sys_example = from_sys-to_sys linux both_ways

-- Thirty days.
abbrev long_sleep : ℕ
long_sleep = 2_592_000_000_000_000

timeout_ms-as_c_int_example :
    ((long_sleep / 1_000_000 < 2 ^ 31)
      × (timeout_ms (some long_sleep) ≡ pos (long_sleep / 1_000_000)))
    ⊎ ((2 ^ 31 ≤ long_sleep / 1_000_000) × ((n : ℕ) × (timeout_ms (some long_sleep) ≡ negsuc n)))
timeout_ms-as_c_int_example = timeout_ms-as_c_int long_sleep (omega arith)

abbrev linux_poller : Poller
linux_poller = epoll_poller linux 256

abbrev reader_entry : SysEvent
reader_entry = record { events = 0x4000_2001; u64 = 0 }

abbrev readable_report : SysEvent
readable_report = record { events = 0x1; u64 = 0 }

abbrev waiting_source : Source
waiting_source = record {
  raw = 5;
  reader = record { poller = some 7; woke = false };
  writer = no_interest;
}

abbrev one_source : Reactor linux_poller (slots Source)
one_source = record {
  poller = record {
    entries = λ k. if k == 5 then some reader_entry else none;
    ready_list = readable_report ∷ [];
  };
  sources = some waiting_source ∷ [];
}

one_source-IsWatched : IsWatched linux_poller (slots Source) one_source
unfolding has_poller from_sys has_flag
one_source-IsWatched = record { served = served }
  where
    served :
        (key : ℕ) (s : Source)
        → (slots Source).get one_source.sources key ≡ some s
        → Serves (linux_poller.registered one_source.poller s.raw) key s
    served zero s got =
        let is : waiting_source ≡ s = ground (arith, got) in
        subst (λ u. Serves (linux_poller.registered one_source.poller u.raw) 0 u) is
          (from_sys linux reader_entry, refl, refl, refl, refl)
    served (suc key) s got = absurd (ground (arith, got))

reader_waits : (interest waiting_source read).poller ≡ some 7
unfolding interest
reader_waits = refl

-- The reader polls again, with another waker.
abbrev repolled : Reactor linux_poller (slots Source)
repolled = record one_source {
  sources = some (record waiting_source { reader = record { poller = some 8; woke = false } }) ∷ [];
}

polls_again :
    poll_ready linux_poller (slots Source) one_source 0 read 8 ≡ ok (repolled, 7 ∷ [], pending)
unfolding poll_ready interest with_interest register
polls_again = refl

pending-Awaits_example :
    (s' : Source) × ((slots Source).get repolled.sources 0 ≡ some s')
    × ((interest s' read).poller ≡ some 8)
    × Awaits linux 256 (slots Source) repolled.poller s'.raw 0 read
pending-Awaits_example =
    pending-Awaits linux 256 (slots Source) one_source repolled (7 ∷ []) 0 waiting_source read 8
      one_source-IsWatched refl polls_again

told : has_flag 1 3 ≡ true
unfolding has_flag
told = refl

no_error : (poll linux_poller (slots Source) one_source none).2 ≡ success tt
unfolding poll dispatch rearm fire take has_poller platoon.Sys.Epoll.poll platoon.Sys.Epoll.from_all
    from_sys has_flag
no_error = refl

epoll_wait-Wakes_example :
    Wakes linux_poller (slots Source) 7 0 read (poll linux_poller (slots Source) one_source none)
epoll_wait-Wakes_example =
    epoll_wait-Wakes linux 256 (slots Source) one_source none [] [] readable_report waiting_source
      read 7 refl told refl reader_waits no_error
