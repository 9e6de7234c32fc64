-- ===== src/Sys.antt =====
-- src/sys.rs: an event, and what the reactor relies on of a poller. The epoll and kqueue pollers
-- pass each call on to the system, which is an argument here.
pub mod Table
pub mod Epoll
pub mod Connect
pub mod Kqueue
use platoon.Base.{
  ℕ, ◌≡◌, Bool, false, Option, none, some, List, [], ◌∷◌, ◌==◌, if◌then◌else◌, has, IoError,
  IoResult, success, failure,
}

-- `key` names a source of the reactor.
pub record Event : Type 0 where
  pub key : ℕ
  pub readable : Bool
  pub writable : Bool

abbrev pub event_keys : List Event → List ℕ
event_keys [] = []
event_keys (e ∷ es) = e.key ∷ event_keys es

-- What a poll leaves of a registration: one that is reported may be disarmed, for it is set for
-- one event only, and stays under its key.
abbrev pub IsKept : List Event → Option Event → Option Event → Type 0
IsKept es none after = after ≡ none
IsKept es (some e) after =
    (e' : Event) × (after ≡ some e')
    × (e'.key ≡ e.key)
    × (has e.key (event_keys es) ≡ false → e' ≡ e)

pub record Poller : Type 1 where
  pub State : Type 0
  -- A file descriptor or socket is a number.
  pub add : State → ℕ → Event → State × IoResult (Unit {0})
  pub update : State → ℕ → Event → State × IoResult (Unit {0})
  pub delete : State → ℕ → State × IoResult (Unit {0})
  -- The timeout is in nanoseconds. The events are those of the buffer, converted.
  pub poll : State → Option ℕ → State × IoResult (List Event)
  -- What is registered with the system, and will be reported.
  pub registered : State → ℕ → Option Event
  pub add-fresh :
      (s : State) (raw : ℕ) (e : Event) → (add s raw e).1 ≡ success tt → registered s raw ≡ none
  pub add-registered :
      (s : State) (raw : ℕ) (e : Event) (k : ℕ)
      → (add s raw e).1 ≡ success tt
      → registered (add s raw e).0 k ≡ (if k == raw then some e else registered s k)
  pub add-refused :
      (s : State) (raw : ℕ) (e : Event) (err : IoError) (k : ℕ)
      → (add s raw e).1 ≡ failure err
      → registered (add s raw e).0 k ≡ registered s k
  pub update-registered :
      (s : State) (raw : ℕ) (e : Event) (k : ℕ)
      → (update s raw e).1 ≡ success tt
      → registered (update s raw e).0 k ≡ (if k == raw then some e else registered s k)
  pub update-refused :
      (s : State) (raw : ℕ) (e : Event) (err : IoError) (k : ℕ)
      → (update s raw e).1 ≡ failure err
      → registered (update s raw e).0 k ≡ registered s k
  pub delete-others :
      (s : State) (raw k : ℕ) → (k == raw) ≡ false → registered (delete s raw).0 k ≡ registered s k
  pub poll-IsKept :
      (s : State) (timeout : Option ℕ) (es : List Event) (k : ℕ)
      → (poll s timeout).1 ≡ success es
      → IsKept es (registered s k) (registered (poll s timeout).0 k)
  pub poll-refused :
      (s : State) (timeout : Option ℕ) (err : IoError) (k : ℕ)
      → (poll s timeout).1 ≡ failure err
      → registered (poll s timeout).0 k ≡ registered s k
