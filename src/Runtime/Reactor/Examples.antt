-- ===== src/Runtime/Reactor/Examples.antt =====
-- A reactor with one source that a reader waits for, at the instances of Slab/Slots.antt and
-- Sys/Table.antt.
use platoon.Base.{
  ℕ, zero, suc, ◌≡◌, refl, subst, true, false, not, ◌||◌, none, some, [], ◌∷◌, arith, ◌==◌,
  if◌then◌else◌, ok, ready, pending, success, failure, other_kind,
}
use platoon.Slab.Slots.{slots}
use platoon.Sys.{Event}
use platoon.Sys.Table.{table}
use platoon.Runtime.Reactor.{
  read, write, Source, Reactor, no_interest, has_poller, interest, with_interest, register,
  update_interest, poll_ready, poll, dispatch, rearm, fire, take,
}
use platoon.Runtime.Reactor.Refusals.{refused-repolled}
use platoon.Runtime.Reactor.Watch.{IsWatched, Serves}
use platoon.Runtime.Reactor.Ready.{Readies, poll_ready-Readies, poll_ready-repolled}

abbrev pub read_event : Event
read_event = record { key = 0; readable = true; writable = false }

abbrev pub watched_source : Source
watched_source = record {
  raw = 5;
  reader = record { poller = some 7; woke = false };
  writer = no_interest;
}

abbrev pub one_source : Reactor table (slots Source)
one_source = record {
  poller = record {
    registrations = λ k. if k == 5 then some read_event else none;
    reported = read_event ∷ [];
  };
  sources = some watched_source ∷ [];
}

pub one_source-IsWatched : IsWatched table (slots Source) one_source
unfolding has_poller
one_source-IsWatched = record { served = served }
  where
    served :
        (key : ℕ) (s : Source)
        → (slots Source).get one_source.sources key ≡ some s
        → (e : Event) × (table.registered one_source.poller s.raw ≡ some e)
          × (e.key ≡ key)
          × ((not (has_poller s.reader) || e.readable) ≡ true)
          × ((not (has_poller s.writer) || e.writable) ≡ true)
    served zero s got =
        let is : watched_source ≡ s = ground (arith, got) in
        subst (λ u. Serves (table.registered one_source.poller u.raw) 0 u) is
          (read_event, refl, refl, refl, refl)
    served (suc key) s got = absurd (ground (arith, got))

reader_waits : (interest watched_source read).poller ≡ some 7
unfolding interest
reader_waits = refl

-- The report ends without an error.
poll_reported : (poll table (slots Source) one_source none).2 ≡ success tt
unfolding poll dispatch rearm fire take has_poller
poll_reported = refl

poll_ready-Readies_example :
    Readies table
      (slots Source)
      one_source
      0
      watched_source
      write
      8
      (poll_ready table (slots Source) one_source 0 write 8)
poll_ready-Readies_example =
    poll_ready-Readies table (slots Source) one_source 0 watched_source write 8 one_source-IsWatched
      refl

-- What the reader's second poll leaves is what it was.
reader_polls :
    poll_ready table (slots Source) one_source 0 read 7 ≡ ok (one_source, 7 ∷ [], pending)
unfolding poll_ready register interest with_interest
reader_polls = refl

poll_ready-repolled_example :
    (r : Reactor table (slots Source)) × (poll_ready table (slots Source) one_source 0 read 7
      ≡ ok (r, 7 ∷ [], pending))
poll_ready-repolled_example =
    poll_ready-repolled table (slots Source) one_source one_source (7 ∷ []) 0 watched_source read 7
      one_source-IsWatched refl reader_polls

-- The descriptor of the source is no longer registered, so that an update fails.
abbrev closed_source : Reactor table (slots Source)
closed_source = record one_source { poller = record { registrations = λ k. none; reported = [] } }

refused-repolled_example :
    (r' : Reactor table (slots Source)) × (r'' : Reactor table (slots Source)) × (poll_ready table
        (slots Source)
        closed_source
        0
        write
        8
      ≡ ok (r', [], ready (failure (other_kind 2))))
    × (poll_ready table (slots Source) r' 0 write 9 ≡ ok (r'', 8 ∷ [], pending))
    × ((k : ℕ) → table.registered r''.poller k ≡ none)
unfolding update_interest with_interest interest
refused-repolled_example =
    refused-repolled table (slots Source) closed_source 0 watched_source write 8 9 (other_kind 2)
      refl refl refl
