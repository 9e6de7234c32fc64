-- ===== src/Oneshot.antt =====
-- src/sync/oneshot.rs: a channel for one message. The two halves share cells; a call returns the
-- wakers that it woke. `send` takes the sender by value, so its drop ends the call.
pub mod Ends
mod Examples
use platoon.Base.{
  Bool, true, false, Option, none, some, List, [], ◌∷◌, if◌then◌else◌, Poll, Waker, ready, pending,
}

pub record Shared (T : Type 0) : Type 0 where
  pub complete : Bool
  pub message : Option T
  pub sender : Option Waker
  pub receiver : Option Waker

-- `Result<T, Closed>`.
pub data Received (T : Type 0) : Type 0 where
  message : T → Received T
  closed : Received T

-- `Result<(), T>`: a refused message comes back.
pub data Sent (T : Type 0) : Type 0 where
  accepted : Sent T
  refused : T → Sent T

-- A waker that is taken out of its cell and woken.
abbrev pub woken_of : Option Waker → List Waker
woken_of none = []
woken_of (some w) = w ∷ []

module _ {T : Type 0} where
  pub channel : Shared T
  channel = record { complete = false; message = none; sender = none; receiver = none }

  -- `impl Drop for Sender`.
  pub drop_sender : Shared T → Shared T × List Waker
  drop_sender c =
      (record c { complete = true; sender = none; receiver = none }, woken_of c.receiver)

  pub put : Shared T → T → Shared T × Sent T
  put c m = if c.complete then (c, refused m) else (record c { message = some m }, accepted)

  -- `Sender::send`.
  pub send : Shared T → T → Shared T × Sent T × List Waker
  send c m = let (c', result) = put c m in let (c'', woken) = drop_sender c' in (c'', result, woken)

  -- `Sender::poll_closed`, and so `closed`, which polls it.
  pub poll_closed : Shared T → Waker → Shared T × Poll (Unit {0})
  poll_closed c cx = if c.complete then (c, ready tt) else (record c { sender = some cx }, pending)

  pub is_closed : Shared T → Bool
  is_closed c = c.complete

  -- `Receiver::close`.
  pub close : Shared T → Shared T × List Waker
  close c = (record c { complete = true; sender = none }, woken_of c.sender)

  -- `self.0.message.take()`, as the result of a receive.
  abbrev pub take_message : Option T → Received T
  take_message none = closed
  take_message (some m) = message m

  -- `Receiver::try_recv`; `none` if there is no message yet.
  pub try_recv : Shared T → Shared T × Option (Received T)
  try_recv c =
      if c.complete then (record c { message = none }, some (take_message c.message)) else (c, none)

  -- `Future::poll` of the receiver.
  pub poll : Shared T → Waker → Shared T × Poll (Received T)
  poll c cx =
      if c.complete
      then (record c { message = none }, ready (take_message c.message))
      else (record c { receiver = some cx }, pending)

  -- `impl Drop for Receiver`.
  pub drop_receiver : Shared T → Shared T × List Waker
  drop_receiver c =
      (record c { complete = true; receiver = none; sender = none }, woken_of c.sender)
