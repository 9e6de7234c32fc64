-- ===== src/Time/Wakes.antt =====
-- A sleep is ready exactly from its deadline on, and until then the clock holds its waker.
use platoon.Base.{
  ℕ, ◌+◌, ◌≤◌, ◌<◌, ◌≡◌, ap, ◌∙◌, ◌⊎◌, inl, inr, Bool, true, Option, none, some, arith, leb, ◌==◌,
  if◌then◌else◌, ==_iff, Bool-cases, Outcome, ok, Poll, Waker, usize_max, ready, pending,
}
use platoon.Runtime.Park.{Park}
use platoon.Runtime.Clock.{Clock, key_eq, lookup}
use platoon.Runtime.Clock.Alarms.{key_eq_self}
use platoon.Runtime.Clock.Setting.{
  IsSound, insert_alarm-fresh, replace_alarm_waker-replaces, remove_alarm-removes,
}
use platoon.Time.{Sleep, arm, poll, drop_sleep}

module _ (P : Park) where
  -- The alarm of the sleep, if it has one, is set, and holds its waker.
  abbrev pub IsArmed : Clock P → Sleep → Type 0
  IsArmed c s = elim s.alarm [
    | none ↦ Unit {0}
    | some (id, w) ↦ lookup s.deadline id c.alarms ≡ some w
  ]

  -- A poll before the deadline leaves the sleep pending, with the clock to wake the poller.
  abbrev pub Arms : Clock P → Sleep → Waker → Outcome (Clock P × Sleep) → Type 0
  Arms c s cx r =
      (c' : Clock P) × (id : ℕ) × (r ≡ ok (c', record s { alarm = some (id, cx) }))
      × (lookup s.deadline id c'.alarms ≡ some cx)
      × IsSound P c'

  arm_alarm :
      (checks : Bool) (c : Clock P) (d : ℕ) (alarm : Option (ℕ × Waker)) (cx : Waker)
      → IsSound P c
      → c.next_alarm + 1 ≤ usize_max
      → IsArmed c (record { deadline = d; alarm = alarm })
      → Arms c
          (record { deadline = d; alarm = alarm })
          cx
          (arm P checks c (record { deadline = d; alarm = alarm }) cx)
  unfolding arm
  arm_alarm checks c d none cx v fits a =
      let (c', run, v', _, look) = insert_alarm-fresh P checks c d cx v fits in
      (c', c.next_alarm, rw run, look d c.next_alarm ∙ rw (key_eq_self d c.next_alarm), v')
  arm_alarm checks c d (some (id, w)) cx v fits a = elim (Bool-cases (w == cx)) [
    | inl same ↦ let e : w ≡ cx = (==_iff w cx).0 same in (c, id, rw same (rw e), a ∙ ap some e, v)
    | inr changed ↦
        let (c', run, v', look) = replace_alarm_waker-replaces P c id d cx w v a in
        (c', id, rw (changed, run), look d id ∙ rw (key_eq_self d id), v')
  ]

  -- What a poll of a sleep ends in: before its deadline it is pending, and the clock holds an
  -- alarm for it at the deadline with the poller's waker; from its deadline on it is ready, and
  -- nothing changes.
  abbrev pub Polls : Clock P → Sleep → ℕ → Waker → Outcome (Clock P × Sleep × Poll ℕ) → Type 0
  Polls c s now cx r =
      ((s.deadline ≤ now) × (r ≡ ok (c, s, ready s.deadline)))
      ⊎ ((now < s.deadline)
          × (c' : Clock P) × (id : ℕ) × (r ≡ ok (c', record s { alarm = some (id, cx) }, pending))
          × (lookup s.deadline id c'.alarms ≡ some cx)
          × IsSound P c')

  -- On a sound clock with room for another number that holds the alarm of the sleep if it has one,
  -- a poll of the sleep is ready with the deadline and changes nothing from the deadline on;
  -- before it, the poll is pending, and the clock, still sound, holds an alarm at the deadline
  -- with the waker of the poll.
  pub poll-Polls :
      (checks : Bool) (c : Clock P) (s : Sleep) (now : ℕ) (cx : Waker)
      → IsSound P c
      → c.next_alarm + 1 ≤ usize_max
      → IsArmed c s
      → Polls c s now cx (poll P checks c s now cx)
  unfolding poll
  poll-Polls checks c s now cx v fits a = elim (Bool-cases (leb s.deadline now)) [
    | inl over ↦ inl (ground arith, rw over)
    | inr early ↦
        let (c', id, run, look, v') = arm_alarm checks c s.deadline s.alarm cx v fits a in
        inr (ground arith, c', id, rw (early, run), look, v')
  ]

  pub poll_over :
      (checks : Bool) (c : Clock P) (s : Sleep) (now : ℕ) (cx : Waker)
      → s.deadline ≤ now
      → poll P checks c s now cx ≡ ok (c, s, ready s.deadline)
  unfolding poll
  poll_over checks c s now cx le = let over : leb s.deadline now ≡ true = ground arith in rw over

  -- On a sound clock, the drop of a sleep with an alarm takes that alarm out of the clock and
  -- leaves every other as it was.
  pub drop_sleep-removes :
      (c : Clock P) (d id : ℕ) (w : Waker) (t k : ℕ)
      → IsSound P c
      → lookup t k (drop_sleep P c (record { deadline = d; alarm = some (id, w) })).alarms
        ≡ (if key_eq t k d id then none else lookup t k c.alarms)
  unfolding drop_sleep
  drop_sleep-removes c d id w t k v = remove_alarm-removes P c id d t k v
