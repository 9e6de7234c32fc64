-- ===== src/Sys/Connect.antt =====
-- src/sys.rs, `connect`: a socket that starts to connect. The sockets of std and of the crate
-- socket2 are an argument.
use platoon.Base.{
  ℕ, Bool, ◌||◌, Option, if◌then◌else◌, IoError, IoResult, success, failure, interrupted,
  would_block, other_kind, true, false,
}

-- The calls on sockets, which are numbers, with the world that they change.
pub record Sockets : Type 1 where
  pub World : Type 0
  pub Address : Type 0
  -- A stream socket for the domain of an address, non-blocking or not.
  pub new_socket : World → Address → Bool → World × IoResult ℕ
  pub set_nonblocking : World → ℕ → World × IoResult (Unit {0})
  pub start_connect : World → ℕ → Address → World × IoResult (Unit {0})
  pub take_error : World → ℕ → World × IoResult (Option IoError)
  pub bind : World → Address → World × IoResult ℕ
  pub accept : ℕ → World → World × IoResult (ℕ × Address)
  -- The number of bytes; the buffers are part of the world.
  pub peek : ℕ → World → World × IoResult ℕ
  pub read_bytes : ℕ → World → World × IoResult ℕ
  pub write_bytes : ℕ → World → World × IoResult ℕ
  pub read_vectored : ℕ → World → World × IoResult ℕ
  pub write_vectored : ℕ → World → World × IoResult ℕ
  pub flush : ℕ → World → World × IoResult (Unit {0})
  pub local_addr : World → ℕ → World × IoResult Address
  pub peer_addr : World → ℕ → World × IoResult Address
  pub nodelay : World → ℕ → World × IoResult Bool
  pub set_nodelay : World → ℕ → Bool → World × IoResult (Unit {0})
  pub ttl : World → ℕ → World × IoResult ℕ
  pub set_ttl : World → ℕ → ℕ → World × IoResult (Unit {0})
  pub shutdown_write : World → ℕ → World × IoResult (Unit {0})
  -- The drop of a socket.
  pub close : World → ℕ → World
  -- `err.raw_os_error() == Some(libc::EINPROGRESS)`.
  pub is_in_progress : IoError → Bool

-- `err.kind() == ErrorKind::WouldBlock`.
abbrev pub is_would_block : IoError → Bool
is_would_block interrupted = false
is_would_block would_block = true
is_would_block (other_kind n) = false

module _ (N : Sockets) where
  open N use {World, Address, new_socket, set_nonblocking, start_connect, close, is_in_progress}

  -- A socket that the caller does not get is closed.
  pub connect_socket : World → ℕ → Address → World × IoResult ℕ
  connect_socket w socket addr =
      let (w', started) = start_connect w socket addr in
      elim started [
        | success _ ↦ (w', success socket)
        | failure err ↦
            if is_in_progress err || is_would_block err
            then (w', success socket)
            else (close w' socket, failure err)
      ]

  -- `typed` says whether the target has a type of non-blocking sockets.
  pub connect : Bool → World → Address → World × IoResult ℕ
  connect typed w addr =
      let (w', made) = new_socket w addr typed in
      elim made [
        | failure err ↦ (w', failure err)
        | success socket ↦
            if typed
            then connect_socket w' socket addr
            else (let (w'', unblocked) = set_nonblocking w' socket in
                elim unblocked [
                  | failure err ↦ (close w'' socket, failure err)
                  | success _ ↦ connect_socket w'' socket addr
                ])
      ]
