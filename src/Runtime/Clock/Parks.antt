-- ===== src/Runtime/Clock/Parks.antt =====
-- A park of the clock is one park of its parker, in time for the next alarm.
use platoon.Base.{
  ℕ, ◌≤◌, ◌≡◌, refl, sym, ap, subst, Option, none, some, List, ◌++◌, arith, leb, if◌then◌else◌,
  Waker, IoResult,
}
use platoon.Runtime.Park.{Park}
use platoon.Runtime.Clock.{
  AlarmMap, Clock, lookup, extend_with_expired, parked, park, sooner, park_timeout,
}
use platoon.Runtime.Clock.Alarms.{IsSorted}
use platoon.Runtime.Clock.Expiry.{due, IsPrompt, expired-due}

-- A timeout that is no later than the limit.
abbrev pub IsWithin : Option ℕ → Option ℕ → Type 0
IsWithin none timeout = Unit
IsWithin (some limit) none = ⊥
IsWithin (some limit) (some d) = d ≤ limit

module _ (P : Park) where
  -- The two ways to park, as one.
  abbrev pub park_for : P.State → Option ℕ → P.State × List Waker × IoResult (Unit {0})
  park_for s none = P.park s
  park_for s (some d) = P.park_timeout s d

  -- What a park of the clock is, in terms of its parker.
  abbrev pub Parks : Clock P → ℕ → Option ℕ → Clock P × List Waker × IoResult (Unit {0}) → Type 0
  Parks c now limit (c', ws, result) =
      (timeout : Option ℕ) × (IsWithin limit timeout)
      × IsPrompt now c'.alarms timeout
      × (c'.parker ≡ (park_for c.parker timeout).0)
      × (ws ≡ due now c.alarms ++ (park_for c.parker timeout).1)
      × (result ≡ (park_for c.parker timeout).2)
      × IsSorted c'.alarms
      × ((t k : ℕ) → lookup t k c'.alarms ≡ (if leb t now then none else lookup t k c.alarms))

  parked-Parks :
      (c c' : Clock P) (now : ℕ) (limit timeout : Option ℕ) (ws : List Waker)
      → IsWithin limit timeout
      → IsPrompt now c'.alarms timeout
      → c'.parker ≡ c.parker
      → ws ≡ due now c.alarms
      → IsSorted c'.alarms
      → ((t k : ℕ) → lookup t k c'.alarms ≡ (if leb t now then none else lookup t k c.alarms))
      → Parks c now limit (parked P c' ws (park_for c'.parker timeout))
  parked-Parks c c' now limit timeout ws within prompt same woken s left = (
    timeout,
    within,
    prompt,
    ap (λ p. (park_for p timeout).0) same,
    rw (woken, same),
    ap (λ p. (park_for p timeout).2) same,
    s,
    left,
  )

  park-park_for :
      (c : Clock P) (now : ℕ)
      → let (c', ws, next) = extend_with_expired P c now in
        park P c now ≡ parked P c' ws (park_for c'.parker next)
  unfolding park
  park-park_for c now = let (c', ws, next) = extend_with_expired P c now in by_case c' ws next
    where
      by_case :
          (c' : Clock P) (ws : List Waker) (next : Option ℕ)
          → (elim next [
            | some d ↦ parked P c' ws (P.park_timeout c'.parker d)
            | none ↦ parked P c' ws (P.park c'.parker)
          ])
            ≡ parked P c' ws (park_for c'.parker next)
      by_case c' ws none = refl
      by_case c' ws (some d) = refl

  -- c
  pub park-Parks : (c : Clock P) (now : ℕ) → IsSorted c.alarms → Parks c now none (park P c now)
  unfolding extend_with_expired
  park-Parks c now s =
      let (woken, left, s', prompt) = expired-due P c now s in
      let (c', ws, next) = extend_with_expired P c now in
      subst (Parks c now none) (sym (park-park_for c now))
        (parked-Parks c c' now none next ws tt prompt refl woken s' left)

  sooner-IsPrompt :
      (now duration : ℕ) (next : Option ℕ) (m : AlarmMap)
      → IsPrompt now m next
      → IsPrompt now m (some (sooner P duration next))
  unfolding sooner lookup
  sooner-IsPrompt now duration none m empty = λ t k w h. absurd (ground (arith, rw empty at h))
  sooner-IsPrompt now duration (some d) m prompt = λ t k w h. omega (arith, prompt t k w h)

  sooner-le : (duration : ℕ) (next : Option ℕ) → sooner P duration next ≤ duration
  unfolding sooner
  sooner-le duration none = omega arith
  sooner-le duration (some d) = omega arith

  -- c
  pub park_timeout-Parks :
      (c : Clock P) (now duration : ℕ)
      → IsSorted c.alarms
      → Parks c now (some duration) (park_timeout P c now duration)
  unfolding park_timeout extend_with_expired
  park_timeout-Parks c now duration s =
      let (woken, left, s', prompt) = expired-due P c now s in
      let (c', ws, next) = extend_with_expired P c now in
      parked-Parks c c' now (some duration) (some (sooner P duration next)) ws
        (sooner-le duration next) (sooner-IsPrompt now duration next c'.alarms prompt) refl woken s'
        left
