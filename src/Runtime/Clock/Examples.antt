-- ===== src/Runtime/Clock/Examples.antt =====
-- A clock with two alarms, over a parker that does nothing.
use platoon.Base.{
  ℕ, ◌+◌, ◌%◌, ◌≤◌, ◌<◌, ◌≡◌, refl, none, some, [], ◌∷◌, arith, leb, if◌then◌else◌, Waker, success,
}
use platoon.Runtime.Park.{Park}
use platoon.Runtime.Clock.{Clock, lookup, whole_millis, key_eq, key_lt, extend_with_expired}
use platoon.Runtime.Clock.Alarms.{IsSorted}
use platoon.Runtime.Clock.Expiry.{expired-due, IsPrompt, whole_millis-truncates}
use platoon.Runtime.Clock.Setting.{IsSound}

abbrev pub still : Park
still = record {
  State = Unit {0};
  park = λ s. (s, [], success tt);
  park_timeout = λ s d. (s, [], success tt);
}

abbrev pub two_alarms : Clock still
two_alarms = record { parker = tt; next_alarm = 2; alarms = (10, 1, 8) ∷ (30, 0, 7) ∷ [] }

two_alarms-IsSorted : IsSorted two_alarms.alarms
unfolding key_lt
two_alarms-IsSorted = (refl, (tt, tt))

pub two_alarms-IsSound : IsSound still two_alarms
unfolding lookup key_eq
two_alarms-IsSound = record { sorted = two_alarms-IsSorted; numbered = numbered }
  where
    numbered : (t k : ℕ) (w : Waker) → lookup t k two_alarms.alarms ≡ some w → k < 2
    numbered t k w h = ground arith

whole_millis-truncates_example :
    (whole_millis 2_900_000 ≤ 2_900_000)
    × (2_900_000 < whole_millis 2_900_000 + 1_000_000)
    × (whole_millis 2_900_000 % 1_000_000 ≡ 0)
whole_millis-truncates_example = whole_millis-truncates 2_900_000 (omega arith)

expired-due_example :
    let (c', woken, next) = extend_with_expired still two_alarms 20 in
    (woken ≡ 8 ∷ [])
    × ((t k : ℕ) → lookup t k c'.alarms ≡ (if leb t 20 then none else lookup t k two_alarms.alarms))
    × IsSorted c'.alarms
    × IsPrompt 20 c'.alarms next
expired-due_example = expired-due still two_alarms 20 two_alarms-IsSorted
