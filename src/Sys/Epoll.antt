-- ===== src/Sys/Epoll.antt =====
-- src/sys.rs, the module `poller` for Linux and Android, over the calls of libc: events as flags,
-- and each call of the poller as a system call. The kernel and the constants are an argument.
pub mod Registers
pub mod Timeouts
pub mod Reports
pub mod Kernel
mod Examples
use platoon.Base.{
  ℕ, ◌/◌, ◌≡◌, Bool, true, false, Option, none, some, List, [], ◌∷◌, ◌==◌, if◌then◌else◌, has,
  bit_and, bit_or, has_flag, ℤ, pos, negsuc, as_c_int, IoError, IoResult, success, failure,
}
use platoon.Sys.{Event}

-- `libc::epoll_event`.
pub record SysEvent : Type 0 where
  pub events : ℕ
  pub u64 : ℕ

-- The operations of `epoll_ctl`.
pub data Operation : Type 0 where
  ctl_add : Operation
  ctl_mod : Operation

abbrev pub data_keys : List SysEvent → List ℕ
data_keys [] = []
data_keys (e ∷ es) = e.u64 ∷ data_keys es

-- What a wait leaves of an entry of the interest list: one that is reported, and set for one
-- event only, is disarmed and stays, with its data.
abbrev pub IsLeft : List SysEvent → Option SysEvent → Option SysEvent → Type 0
IsLeft es none after = after ≡ none
IsLeft es (some e) after =
    (e' : SysEvent) × (after ≡ some e')
    × (e'.u64 ≡ e.u64)
    × (has e.u64 (data_keys es) ≡ false → e' ≡ e)

-- Two flags have no bit in common.
abbrev pub IsApart : ℕ → ℕ → Type 0
IsApart a b = has_flag a b ≡ false

-- What the poller uses of the crate libc: its constants, each a bit of its own, and three calls,
-- whose error is the one of `last_os_error`. `interest` is the interest list of the kernel.
pub record Libc : Type 1 where
  pub epollin : ℕ
  pub epollpri : ℕ
  pub epollout : ℕ
  pub epollrdhup : ℕ
  pub epolloneshot : ℕ
  pub in-set : has_flag epollin epollin ≡ true
  pub out-set : has_flag epollout epollout ≡ true
  pub in-pri : IsApart epollin epollpri
  pub in-out : IsApart epollin epollout
  pub out-in : IsApart epollout epollin
  pub out-pri : IsApart epollout epollpri
  pub rdhup-in : IsApart epollrdhup epollin
  pub rdhup-pri : IsApart epollrdhup epollpri
  pub rdhup-out : IsApart epollrdhup epollout
  pub oneshot-in : IsApart epolloneshot epollin
  pub oneshot-pri : IsApart epolloneshot epollpri
  pub oneshot-out : IsApart epolloneshot epollout
  pub Kernel : Type 0
  pub epoll_ctl : Kernel → Operation → ℕ → SysEvent → Kernel × IoResult (Unit {0})
  -- `EPOLL_CTL_DEL`, with a null event.
  pub epoll_del : Kernel → ℕ → Kernel × IoResult (Unit {0})
  -- The room for events and the timeout in milliseconds, where a negative one is none.
  pub epoll_wait : Kernel → ℕ → ℤ → Kernel × IoResult (List SysEvent)
  pub interest : Kernel → ℕ → Option SysEvent
  -- `EEXIST`.
  pub add-fresh :
      (k : Kernel) (fd : ℕ) (e : SysEvent)
      → (epoll_ctl k ctl_add fd e).1 ≡ success tt
      → interest k fd ≡ none
  pub ctl-done :
      (k : Kernel) (o : Operation) (fd : ℕ) (e : SysEvent) (j : ℕ)
      → (epoll_ctl k o fd e).1 ≡ success tt
      → interest (epoll_ctl k o fd e).0 j ≡ (if j == fd then some e else interest k j)
  pub ctl-failed :
      (k : Kernel) (o : Operation) (fd : ℕ) (e : SysEvent) (err : IoError) (j : ℕ)
      → (epoll_ctl k o fd e).1 ≡ failure err
      → interest (epoll_ctl k o fd e).0 j ≡ interest k j
  pub del-others :
      (k : Kernel) (fd j : ℕ) → (j == fd) ≡ false → interest (epoll_del k fd).0 j ≡ interest k j
  pub wait-IsLeft :
      (k : Kernel) (room : ℕ) (timeout : ℤ) (es : List SysEvent) (j : ℕ)
      → (epoll_wait k room timeout).1 ≡ success es
      → IsLeft es (interest k j) (interest (epoll_wait k room timeout).0 j)
  pub wait-failed :
      (k : Kernel) (room : ℕ) (timeout : ℤ) (err : IoError) (j : ℕ)
      → (epoll_wait k room timeout).1 ≡ failure err
      → interest (epoll_wait k room timeout).0 j ≡ interest k j

-- `timeout.map(|to| to.as_millis() as c_int).unwrap_or(-1)`.
pub timeout_ms : Option ℕ → ℤ
timeout_ms none = negsuc 0
timeout_ms (some duration) = as_c_int (duration / 1_000_000)

module _ (L : Libc) where
  -- `From<Event> for SysEvent`.
  pub to_sys : Event → SysEvent
  to_sys event =
      let flags = L.epolloneshot in
      let flags' = if event.readable then bit_or (bit_or flags L.epollin) L.epollrdhup else flags in
      let flags'' = if event.writable then bit_or flags' L.epollout else flags' in
      record { events = flags''; u64 = event.key }

  -- `From<&SysEvent> for Event`.
  pub from_sys : SysEvent → Event
  from_sys sys = record {
    key = sys.u64;
    readable = has_flag sys.events (bit_or L.epollin L.epollpri);
    writable = has_flag sys.events L.epollout;
  }

  -- `events.iter().map(Event::from)`.
  pub from_all : List SysEvent → List Event
  from_all [] = []
  from_all (e ∷ es) = from_sys e ∷ from_all es

  pub add : L.Kernel → ℕ → Event → L.Kernel × IoResult (Unit {0})
  add k fd event = L.epoll_ctl k ctl_add fd (to_sys event)

  pub update : L.Kernel → ℕ → Event → L.Kernel × IoResult (Unit {0})
  update k fd event = L.epoll_ctl k ctl_mod fd (to_sys event)

  pub delete : L.Kernel → ℕ → L.Kernel × IoResult (Unit {0})
  delete k fd = L.epoll_del k fd

  -- The room is the capacity of the buffer, which the reactor makes once.
  pub poll : ℕ → L.Kernel → Option ℕ → L.Kernel × IoResult (List Event)
  poll room k timeout =
      let (k', waited) = L.epoll_wait k room (timeout_ms timeout) in
      (k', elim waited [ success es ↦ success (from_all es) | failure err ↦ failure err ])
