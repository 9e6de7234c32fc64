-- ===== src/Sys/Epoll/Kernel.antt =====
-- A kernel as an interest list and the entries that it finds ready, each reported once, with the
-- values of the constants on Linux: the instance at which theorems about an arbitrary one apply.
use platoon.Base.{
  ℕ, ◌≡◌, refl, subst, inl, inr, true, false, Option, none, some, List, [], arith, ◌==◌,
  if◌then◌else◌, Bool-cases, has, has_flag, ℤ, IoError, IoResult, other_kind, success, failure,
}
use platoon.Sys.Epoll.{SysEvent, Operation, ctl_add, ctl_mod, data_keys, IsLeft, Libc}

pub record Kernel : Type 0 where
  pub entries : ℕ → Option SysEvent
  pub ready_list : List SysEvent

abbrev put : Kernel → ℕ → Option SysEvent → Kernel
put k fd o = record k { entries = λ j. if j == fd then o else k.entries j }

-- `EPOLLONESHOT`: an entry that is reported waits for nothing.
abbrev disarm : List SysEvent → Option SysEvent → Option SysEvent
disarm es none = none
disarm es (some e) =
    if has e.u64 (data_keys es) then some (record { events = 0; u64 = e.u64 }) else some e

abbrev epoll_ctl : Kernel → Operation → ℕ → SysEvent → Kernel × IoResult (Unit {0})
epoll_ctl k ctl_add fd e = elim (k.entries fd) [
  | none ↦ (put k fd (some e), success tt)
  | some _ ↦ (k, failure (other_kind 17))
]
epoll_ctl k ctl_mod fd e = elim (k.entries fd) [
  | none ↦ (k, failure (other_kind 2))
  | some _ ↦ (put k fd (some e), success tt)
]

abbrev epoll_wait : Kernel → ℕ → ℤ → Kernel × IoResult (List SysEvent)
epoll_wait k room timeout = (
  record { entries = λ j. disarm k.ready_list (k.entries j); ready_list = [] },
  success k.ready_list,
)

pub add-fresh :
    (k : Kernel) (fd : ℕ) (e : SysEvent)
    → (epoll_ctl k ctl_add fd e).1 ≡ success tt
    → k.entries fd ≡ none
add-fresh k fd e fine = ground arith

pub ctl-done :
    (k : Kernel) (o : Operation) (fd : ℕ) (e : SysEvent) (j : ℕ)
    → (epoll_ctl k o fd e).1 ≡ success tt
    → (epoll_ctl k o fd e).0.entries j ≡ (if j == fd then some e else k.entries j)
ctl-done k ctl_add fd e j fine = ground arith
ctl-done k ctl_mod fd e j fine = ground arith

pub ctl-failed :
    (k : Kernel) (o : Operation) (fd : ℕ) (e : SysEvent) (err : IoError) (j : ℕ)
    → (epoll_ctl k o fd e).1 ≡ failure err
    → (epoll_ctl k o fd e).0.entries j ≡ k.entries j
ctl-failed k ctl_add fd e err j bad = ground arith
ctl-failed k ctl_mod fd e err j bad = ground arith

disarm-IsLeft : (es : List SysEvent) (o : Option SysEvent) → IsLeft es o (disarm es o)
disarm-IsLeft es none = refl
disarm-IsLeft es (some e) = elim (Bool-cases (has e.u64 (data_keys es))) [
  | inl told ↦
      (record { events = 0; u64 = e.u64 }, rw told, refl, λ h. absurd (ground (arith, told)))
  | inr untold ↦ (e, rw untold, refl, λ h. refl)
]

pub wait-IsLeft :
    (k : Kernel) (room : ℕ) (timeout : ℤ) (es : List SysEvent) (j : ℕ)
    → (epoll_wait k room timeout).1 ≡ success es
    → IsLeft es (k.entries j) ((epoll_wait k room timeout).0.entries j)
wait-IsLeft k room timeout es j fine =
    subst (λ xs. IsLeft xs (k.entries j) (disarm k.ready_list (k.entries j))) (ground (arith, fine))
      (disarm-IsLeft k.ready_list (k.entries j))

pub wait-failed :
    (k : Kernel) (room : ℕ) (timeout : ℤ) (err : IoError) (j : ℕ)
    → (epoll_wait k room timeout).1 ≡ failure err
    → (epoll_wait k room timeout).0.entries j ≡ k.entries j
wait-failed k room timeout err j bad = absurd (ground (arith, bad))

-- Each constant is a bit of its own.
pub bits :
    (has_flag 1 1 ≡ true)
    × (has_flag 4 4 ≡ true)
    × (has_flag 1 2 ≡ false)
    × (has_flag 1 4 ≡ false)
    × (has_flag 4 1 ≡ false)
    × (has_flag 4 2 ≡ false)
    × (has_flag 0x2000 1 ≡ false)
    × (has_flag 0x2000 2 ≡ false)
    × (has_flag 0x2000 4 ≡ false)
    × (has_flag 0x4000_0000 1 ≡ false)
    × (has_flag 0x4000_0000 2 ≡ false)
    × (has_flag 0x4000_0000 4 ≡ false)
unfolding has_flag
bits = (refl, refl, refl, refl, refl, refl, refl, refl, refl, refl, refl, refl)

abbrev pub linux : Libc
linux = record {
  epollin = 1;
  epollpri = 2;
  epollout = 4;
  epollrdhup = 0x2000;
  epolloneshot = 0x4000_0000;
  in-set = bits.0;
  out-set = bits.1;
  in-pri = bits.2;
  in-out = bits.3;
  out-in = bits.4;
  out-pri = bits.5;
  rdhup-in = bits.6;
  rdhup-pri = bits.7;
  rdhup-out = bits.8;
  oneshot-in = bits.9;
  oneshot-pri = bits.10;
  oneshot-out = bits.11;
  Kernel = Kernel;
  epoll_ctl = epoll_ctl;
  epoll_del = λ k fd. (put k fd none, success tt);
  epoll_wait = epoll_wait;
  interest = λ k fd. k.entries fd;
  add-fresh = add-fresh;
  ctl-done = ctl-done;
  ctl-failed = ctl-failed;
  del-others = λ k fd j other. rw other;
  wait-IsLeft = wait-IsLeft;
  wait-failed = wait-failed;
}
