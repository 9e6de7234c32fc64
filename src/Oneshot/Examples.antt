-- ===== src/Oneshot/Examples.antt =====
-- A channel whose receiver waits, and one whose sender watches it.
use platoon.Base.{ℕ, ◌≡◌, refl, true, false, none, some, List, [], ◌∷◌, arith, ready}
use platoon.Oneshot.{message, closed, refused, send, poll}
use platoon.Oneshot.Ends.{
  Ends, Action, sends, polls, tries, drops_sender, drops_receiver, closes, start, run, step,
}
use platoon.Oneshot.Ends.Delivery.{IsSound, run-IsSound, sender_wakes, receiver_wakes}

abbrev delivery : List (Action ℕ)
delivery = polls 7 ∷ sends 5 ∷ polls 7 ∷ tries ∷ []

run-IsSound_example : IsSound (run (start {T = ℕ}) delivery)
run-IsSound_example = run-IsSound delivery

abbrev waiting_ends : Ends ℕ
waiting_ends = record {
  shared = record { complete = false; message = none; sender = some 8; receiver = some 7 };
  sender_alive = true;
  receiver_alive = true;
  sent = [];
  got = [];
}

waiting_ends-IsSound : IsSound waiting_ends
waiting_ends-IsSound = record {
  delivered = refl;
  unsent = λ h. refl;
  once = omega arith;
  open_sender = λ h. refl;
  open_receiver = λ h. refl;
  watched = λ h. refl;
  awaited = λ h. refl;
}

sender_wakes_example :
    ((step waiting_ends (sends 5)).1 ≡ 7 ∷ [])
    × ((step waiting_ends drops_sender).1 ≡ 7 ∷ [])
    × ((poll (step waiting_ends (sends 5)).0.shared 7).1 ≡ ready (message 5))
    × ((poll (step waiting_ends drops_sender).0.shared 7).1 ≡ ready closed)
sender_wakes_example = sender_wakes waiting_ends 5 7 7 waiting_ends-IsSound refl refl

receiver_wakes_example :
    ((step waiting_ends closes).1 ≡ 8 ∷ [])
    × ((step waiting_ends drops_receiver).1 ≡ 8 ∷ [])
    × ((send (step waiting_ends closes).0.shared 5).1 ≡ refused 5)
    × ((send (step waiting_ends drops_receiver).0.shared 5).1 ≡ refused 5)
receiver_wakes_example = receiver_wakes waiting_ends 5 8 waiting_ends-IsSound refl
