-- ===== src/Runtime/Clock/Expiry.antt =====
-- What setting, moving and expiring alarms does: an alarm fires once it is due, never before, and
-- the thread is not parked beyond the next one.
use platoon.Base.{
  ℕ, ◌+◌, ◌-◌, ◌*◌, ◌%◌, ◌^◌, ◌≤◌, ◌<◌, ◌≡◌, refl, inl, inr, true, Option, none, some, List, [],
  ◌∷◌, arith, leb, if◌then◌else◌, Bool-cases, has, Waker,
}
use platoon.Runtime.Park.{Park}
use platoon.Runtime.Clock.{
  AlarmMap, Clock, key_lt, key_eq, lookup, below, from, values, whole_millis, next_timeout,
  extend_with_expired,
}
use platoon.Runtime.Clock.Alarms.{IsSorted, lookup-from, from-IsSorted, first-soonest, key_eq_lem}

-- The wakers of the alarms that are due, in the order of the map.
abbrev pub due : ℕ → AlarmMap → List Waker
due now [] = []
due now ((a, i, w) ∷ m) = if leb a now then w ∷ due now m else due now m

key_lt-due : (a i now : ℕ) → key_lt a i (now + 1) 0 ≡ leb a now
unfolding key_lt
key_lt-due a i now = ground arith

values-below : (now : ℕ) (m : AlarmMap) → values (below (now + 1) 0 m) ≡ due now m
unfolding values below
values-below now [] = refl
values-below now ((a, i, w) ∷ m) = elim (Bool-cases (leb a now)) [
  | inl ripe ↦ rw (key_lt-due a i now, ripe, values-below now m)
  | inr early ↦ rw (key_lt-due a i now, early, values-below now m)
]

whole_millis-le : (d : ℕ) → whole_millis d ≤ d
unfolding whole_millis
whole_millis-le d = omega arith

-- A duration whose milliseconds fit in 64 bits is rounded down to whole milliseconds, so that one
-- under a millisecond becomes 0.
pub whole_millis-truncates :
    (d : ℕ)
    → d < 2 ^ 64 * 1_000_000
    → (whole_millis d ≤ d) × (d < whole_millis d + 1_000_000) × (whole_millis d % 1_000_000 ≡ 0)
unfolding whole_millis
whole_millis-truncates d h = (omega arith, omega arith, omega arith)

-- A timeout that does not outlast any alarm of the map.
abbrev pub IsPrompt : ℕ → AlarmMap → Option ℕ → Type 0
IsPrompt now m none = m ≡ []
IsPrompt now m (some d) = (t k : ℕ) (w : Waker) → lookup t k m ≡ some w → d ≤ t - now

next_timeout-IsPrompt : (now : ℕ) (m : AlarmMap) → IsSorted m → IsPrompt now m (next_timeout now m)
unfolding next_timeout
next_timeout-IsPrompt now [] s = refl
next_timeout-IsPrompt now ((a, i, w) ∷ m) s =
    λ t k v h. omega (arith, first-soonest a i w m t k v s h, whole_millis-le (a - now))

pub due-mem :
    (now t k : ℕ) (w : Waker) (m : AlarmMap)
    → lookup t k m ≡ some w
    → t ≤ now
    → has w (due now m) ≡ true
unfolding lookup
due-mem now t k w [] h le = cc
due-mem now t k w ((a, i, u) ∷ m) h le = elim (Bool-cases (key_eq t k a i)) [
  | inl hit ↦
      let (e, _) = key_eq_lem t k a i hit in
      let same : u ≡ w = ground (arith, rw hit at h) in ground (arith, e, same)
  | inr miss ↦ ground (arith, due-mem now t k w m (rw miss at h) le)
]

module _ (P : Park) where
  -- On a clock whose alarms are in order, expiry wakes exactly the alarms at or before the
  -- present, in their order, keeps exactly the others, in order, and yields no timeout only if no
  -- alarm is left, or else one that ends no later than any alarm left.
  pub expired-due :
      (c : Clock P) (now : ℕ)
      → IsSorted c.alarms
      → let (c', woken, next) = extend_with_expired P c now in
        (woken ≡ due now c.alarms)
        × ((t k : ℕ) → lookup t k c'.alarms ≡ (if leb t now then none else lookup t k c.alarms))
        × IsSorted c'.alarms
        × IsPrompt now c'.alarms next
  unfolding extend_with_expired
  expired-due c now s = (
    values-below now c.alarms,
    λ t k. rw (lookup-from, key_lt-due),
    from-IsSorted (now + 1) 0 c.alarms s,
    prompt (below (now + 1) 0 c.alarms),
  )
    where
      later : AlarmMap
      later = from (now + 1) 0 c.alarms

      prompt :
          (ready_alarms : AlarmMap)
          → IsPrompt now later (elim ready_alarms [ [] ↦ next_timeout now later | _ ∷ _ ↦ some 0 ])
      prompt [] = next_timeout-IsPrompt now later (from-IsSorted (now + 1) 0 c.alarms s)
      prompt (x ∷ xs) = λ t k v h. omega arith
