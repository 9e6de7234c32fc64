-- ===== src/Oneshot/Ends/Delivery.antt =====
-- A message that is accepted is delivered at most once, and is still there or was received.
use platoon.Base.{
  ◌≤◌, ◌≡◌, refl, sym, ◌∙◌, true, false, Option, none, some, List, [], ◌∷◌, ◌++◌, append-nil, arith,
  is_some, length, Waker, ready,
}
use platoon.Oneshot.{
  message, closed, refused, channel, drop_sender, put, send, poll_closed, close, try_recv, poll,
  drop_receiver,
}
use platoon.Oneshot.Ends.{
  Ends, Action, sends, polls_closed, drops_sender, closes, tries, polls, drops_receiver, start,
  step, run,
}

module _ {T : Type 0} where
  abbrev pub held : Option T → List T
  held none = []
  held (some m) = m ∷ []

  -- A live sender has sent nothing; what was sent was received or lies in the cell; an open
  -- channel has both its ends; and a waker waits only where it can still be woken.
  pub record IsSound (e : Ends T) : Type 0 where
    pub delivered : e.sent ≡ e.got ++ held e.shared.message
    pub unsent : e.sender_alive ≡ true → e.sent ≡ []
    pub once : length e.sent ≤ 1
    pub open_sender : e.shared.complete ≡ false → e.sender_alive ≡ true
    pub open_receiver : e.shared.complete ≡ false → e.receiver_alive ≡ true
    pub watched : is_some e.shared.sender ≡ true → e.shared.complete ≡ false
    pub awaited : is_some e.shared.receiver ≡ true → e.sender_alive ≡ true

  append-eq-nil : (xs ys : List T) → xs ++ ys ≡ [] → (xs ≡ []) × (ys ≡ [])
  append-eq-nil [] ys h = (refl, h)
  append-eq-nil (x ∷ xs) ys h = cc

  unheld : (o : Option T) → held o ≡ [] → o ≡ none
  unheld none h = refl
  unheld (some m) h = cc

  step-sends : (e : Ends T) (m : T) → IsSound e → IsSound (step e (sends m)).0
  unfolding step send put drop_sender
  step-sends e m v = grind (arith, v.unsent, v.delivered, append-eq-nil)

  step-receives :
      (e : Ends T) (got : List T)
      → IsSound e
      → (e.got ++ held e.shared.message) ≡ (e.got ++ got) ++ []
      → IsSound (record e { shared = record e.shared { message = none }; got = e.got ++ got })
  step-receives e got v h = record {
    delivered = v.delivered ∙ h;
    unsent = v.unsent;
    once = v.once;
    open_sender = v.open_sender;
    open_receiver = v.open_receiver;
    watched = v.watched;
    awaited = v.awaited;
  }

  step-tries : (e : Ends T) → IsSound e → IsSound (step e tries).0
  unfolding step try_recv
  step-tries e v = grind (arith, v.delivered, append-nil)

  step-polls : (e : Ends T) (cx : Waker) → IsSound e → IsSound (step e (polls cx)).0
  unfolding step poll
  step-polls e cx v = grind (arith, v.delivered, v.open_sender, append-nil)

  step-others :
      (e : Ends T) (cx : Waker)
      → IsSound e
      → IsSound (step e (polls_closed cx)).0
        × IsSound (step e drops_sender).0
        × IsSound (step e closes).0
        × IsSound (step e drops_receiver).0
  unfolding step poll_closed drop_sender close drop_receiver
  step-others e cx v = (
    grind (arith, v.unsent),
    grind (arith, v.unsent),
    grind (arith, v.unsent),
    grind (arith, v.unsent),
  )

  step-IsSound : (e : Ends T) (a : Action T) → IsSound e → IsSound (step e a).0
  step-IsSound e (sends m) v = step-sends e m v
  step-IsSound e (polls_closed cx) v = (step-others e cx v).0
  step-IsSound e drops_sender v = (step-others e 0 v).1
  step-IsSound e closes v = (step-others e 0 v).2
  step-IsSound e tries v = step-tries e v
  step-IsSound e (polls cx) v = step-polls e cx v
  step-IsSound e drops_receiver v = (step-others e 0 v).3

  start-IsSound : IsSound (start {T = T})
  unfolding start channel
  start-IsSound = record {
    delivered = refl;
    unsent = λ h. refl;
    once = omega arith;
    open_sender = λ h. refl;
    open_receiver = λ h. refl;
    watched = λ h. refl;
    awaited = λ h. refl;
  }

  run_from : (e : Ends T) (as' : List (Action T)) → IsSound e → IsSound (run e as')
  unfolding run
  run_from e [] v = v
  run_from e (a ∷ as') v = run_from (step e a).0 as' (step-IsSound e a v)

  -- After any history of a new channel, at most one message was accepted, what was accepted is
  -- what was received with what lies in the channel, a channel that is not complete has both ends,
  -- and a waker lies only in a channel whose other end can still wake it.
  pub run-IsSound : (as' : List (Action T)) → IsSound (run start as')
  run-IsSound as' = run_from start as' start-IsSound

  -- On a sound channel that is not complete and holds the waker of a receiver, a send or a drop of
  -- the sender wakes exactly that waker, and the next poll is ready: with the message after a
  -- send, closed after a drop.
  pub sender_wakes :
      (e : Ends T) (m : T) (w cx : Waker)
      → IsSound e
      → e.shared.complete ≡ false
      → e.shared.receiver ≡ some w
      → ((step e (sends m)).1 ≡ w ∷ [])
        × ((step e drops_sender).1 ≡ w ∷ [])
        × ((poll (step e (sends m)).0.shared cx).1 ≡ ready (message m))
        × ((poll (step e drops_sender).0.shared cx).1 ≡ ready closed)
  unfolding step send put drop_sender poll
  sender_wakes e m w cx v opened left = (
    ground (arith, v.open_sender opened),
    ground (arith, v.open_sender opened),
    ground (arith, v.open_sender opened),
    ground (arith, v.open_sender opened, empty),
  )
    where
      empty : e.shared.message ≡ none
      empty =
          unheld e.shared.message
            (append-eq-nil e.got _ (sym v.delivered ∙ v.unsent (v.open_sender opened))).1

  -- On a sound channel that holds the waker of a sender, a close or a drop of the receiver wakes
  -- exactly that waker, and a message that is sent afterwards comes back.
  pub receiver_wakes :
      (e : Ends T) (m : T) (w : Waker)
      → IsSound e
      → e.shared.sender ≡ some w
      → ((step e closes).1 ≡ w ∷ [])
        × ((step e drops_receiver).1 ≡ w ∷ [])
        × ((send (step e closes).0.shared m).1 ≡ refused m)
        × ((send (step e drops_receiver).0.shared m).1 ≡ refused m)
  unfolding step send put close drop_receiver
  receiver_wakes e m w v left =
      let opened : e.shared.complete ≡ false = v.watched (rw left) in
      (
        ground (arith, v.open_receiver opened),
        ground (arith, v.open_receiver opened),
        ground (arith, v.open_receiver opened),
        ground (arith, v.open_receiver opened),
      )
