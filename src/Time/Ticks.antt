-- ===== src/Time/Ticks.antt =====
-- An interval that had to wait for a tick, and an interval that did not.
use platoon.Base.{
  ℕ, ◌+◌, ◌≤◌, ◌≡◌, ◌∙◌, subst, ◌≢◌, inl, inr, Bool, Option, none, some, arith, le→leb, Outcome,
  ◌>>=◌, ok, panic, out_of_fuel, Poll, Waker, usize_max, ready, pending,
}
use platoon.Runtime.Park.{Park}
use platoon.Runtime.Clock.{Clock, lookup, extend_with_expired}
use platoon.Runtime.Clock.Expiry.{expired-due}
use platoon.Runtime.Clock.Setting.{IsSound, reset_alarm-none}
use platoon.Time.{Sleep, Interval, reset, poll, tick}
use platoon.Time.Wakes.{IsArmed, poll-Polls}

module _ (P : Park) where
  -- A tick whose sleep has no alarm and is over is ready at once, and its sleep now ends one
  -- interval after the time that the tick read for it.
  pub tick-immediate :
      (checks : Bool) (c : Clock P) (deadline interval now then_now : ℕ) (cx : Waker)
      → deadline ≤ now
      → tick P checks c
          (record { sleep = record { deadline = deadline; alarm = none }; interval = interval })
          now
          then_now
          cx
        ≡ ok (
          c,
          record {
            sleep = record { deadline = then_now + interval; alarm = none };
            interval = interval;
          },
          ready (some (then_now + interval)),
        )
  unfolding tick poll reset
  tick-immediate checks c deadline interval now then_now cx over = rw (le→leb deadline now over)

  -- A reset of an alarm that has fired panics.
  tick-fired :
      (checks : Bool) (c : Clock P) (i : Interval) (id : ℕ) (w : Waker) (now then_now : ℕ)
      (cx : Waker)
      → i.sleep.alarm ≡ some (id, w)
      → i.sleep.deadline ≤ now
      → lookup i.sleep.deadline id c.alarms ≡ none
      → tick P checks c i now then_now cx ≡ panic
  unfolding tick poll reset
  tick-fired checks c i id w now then_now cx armed over fired = rw (
    le→leb i.sleep.deadline now over,
    armed,
    reset_alarm-none P c id i.sleep.deadline (then_now + i.interval) fired,
  )

  abbrev moved : Interval → Clock P × Sleep → Outcome (Clock P × Interval × Poll (Option ℕ))
  moved i m = ok (m.0, record i { sleep = m.1 }, ready (some m.1.deadline))

  -- A reset is followed by a ready result.
  not_pending :
      (r : Outcome (Clock P × Sleep)) (i i' : Interval) (c' : Clock P)
      → (r >>= moved i) ≢ ok (c', i', pending)
  not_pending (ok (c'', s')) i i' c' h = cc
  not_pending panic i i' c' h = cc
  not_pending out_of_fuel i i' c' h = cc

  -- A tick that is pending has set an alarm at its deadline.
  pending_alarm :
      (checks : Bool) (c c' : Clock P) (i i' : Interval) (now then_now : ℕ) (cx : Waker)
      → IsSound P c
      → c.next_alarm + 1 ≤ usize_max
      → IsArmed P c i.sleep
      → tick P checks c i now then_now cx ≡ ok (c', i', pending)
      → (id : ℕ) × (i'.sleep.alarm ≡ some (id, cx)) × IsSound P c'
  unfolding tick
  pending_alarm checks c c' i i' now then_now cx v fits a ran =
      elim (poll-Polls P checks c i.sleep now cx v fits a) [
        | inl (_, e) ↦
            absurd (not_pending (reset P c i.sleep (then_now + i.interval)) i i' c' (rw e at ran))
        | inr (_, c'', id, e, look, v') ↦
            let landed : ok
                  (c'', record i { sleep = record (i.sleep) { alarm = some (id, cx) } }, pending)
                ≡ ok (c', i', pending) =
              rw e at ran in
            (id, ground (arith, landed), subst (IsSound P) (ground (arith, landed)) v')
      ]

  -- An interval whose tick was left pending, on a sound clock with room for another number that
  -- holds the alarm of its sleep if it has one, and whose alarm then fired panics when the tick is
  -- polled again at or after that time: the sleep still names the fired alarm and moves it.
  pub tick_panics :
      (checks : Bool) (c c' : Clock P) (i i' : Interval) (now then_now fired later then_later : ℕ)
      (cx cx' : Waker)
      → IsSound P c
      → c.next_alarm + 1 ≤ usize_max
      → IsArmed P c i.sleep
      → tick P checks c i now then_now cx ≡ ok (c', i', pending)
      → i'.sleep.deadline ≤ fired
      → fired ≤ later
      → tick P checks (extend_with_expired P c' fired).0 i' later then_later cx' ≡ panic
  tick_panics checks c c' i i' now then_now fired later then_later cx cx' v fits a ran le le' =
      let (id, armed, v') = pending_alarm checks c c' i i' now then_now cx v fits a ran in
      let gone = (expired-due P c' fired v'.sorted).1 i'.sleep.deadline id in
      tick-fired checks (extend_with_expired P c' fired).0 i' id cx later then_later cx' armed
        (omega arith) (gone ∙ rw (le→leb i'.sleep.deadline fired le))
