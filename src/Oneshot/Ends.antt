-- ===== src/Oneshot/Ends.antt =====
-- A channel with its two ends, which are dropped or used up at some time, and the calls that the
-- interface allows on them, in any order.
pub mod Delivery
use platoon.Base.{
  ◌+◌, Bool, true, false, Option, none, some, List, [], ◌∷◌, ◌++◌, if◌then◌else◌, Poll, Waker,
  ready, pending,
}
use platoon.Oneshot.{
  Shared, Received, message, closed, Sent, accepted, refused, channel, drop_sender, send,
  poll_closed, close, try_recv, poll, drop_receiver,
}

pub record Ends (T : Type 0) : Type 0 where
  pub shared : Shared T
  pub sender_alive : Bool
  pub receiver_alive : Bool
  -- What `send` accepted, and what a receive returned, so far.
  pub sent : List T
  pub got : List T

pub data Action (T : Type 0) : Type 0 where
  sends : T → Action T
  polls_closed : Waker → Action T
  drops_sender : Action T
  closes : Action T
  tries : Action T
  polls : Waker → Action T
  drops_receiver : Action T

module _ {T : Type 0} where
  pub start : Ends T
  start = record {
    shared = channel;
    sender_alive = true;
    receiver_alive = true;
    sent = [];
    got = [];
  }

  abbrev pub accepted_of : Sent T → T → List T
  accepted_of accepted m = m ∷ []
  accepted_of (refused m') m = []

  abbrev pub messages_of : Received T → List T
  messages_of (message m) = m ∷ []
  messages_of closed = []

  abbrev pub tried : Option (Received T) → List T
  tried none = []
  tried (some r) = messages_of r

  abbrev pub polled : Poll (Received T) → List T
  polled (ready r) = messages_of r
  polled pending = []

  -- A call of an end that is gone is no call.
  pub step : Ends T → Action T → Ends T × List Waker
  step e (sends m) = if e.sender_alive then sent_by (send e.shared m) else (e, [])
    where
      sent_by : Shared T × Sent T × List Waker → Ends T × List Waker
      sent_by (c, r, woken) =
          (record e { shared = c; sender_alive = false; sent = e.sent ++ accepted_of r m }, woken)
  step e (polls_closed cx) =
      if e.sender_alive then (record e { shared = (poll_closed e.shared cx).0 }, []) else (e, [])
  step e drops_sender =
      if e.sender_alive
      then (
        record e { shared = (drop_sender e.shared).0; sender_alive = false },
        (drop_sender e.shared).1,
      )
      else (e, [])
  step e closes =
      if e.receiver_alive
      then (record e { shared = (close e.shared).0 }, (close e.shared).1)
      else (e, [])
  step e tries =
      if e.receiver_alive
      then (
        record e { shared = (try_recv e.shared).0; got = e.got ++ tried (try_recv e.shared).1 },
        [],
      )
      else (e, [])
  step e (polls cx) =
      if e.receiver_alive
      then (
        record e { shared = (poll e.shared cx).0; got = e.got ++ polled (poll e.shared cx).1 },
        [],
      )
      else (e, [])
  step e drops_receiver =
      if e.receiver_alive
      then (
        record e { shared = (drop_receiver e.shared).0; receiver_alive = false },
        (drop_receiver e.shared).1,
      )
      else (e, [])

  pub run : Ends T → List (Action T) → Ends T
  run e [] = e
  run e (a ∷ as') = run (step e a).0 as'
