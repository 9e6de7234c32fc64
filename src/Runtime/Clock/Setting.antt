-- ===== src/Runtime/Clock/Setting.antt =====
-- What setting, moving, replacing and removing an alarm does, and to which alarms it does nothing.
use platoon.Base.{
  add_usize, ℕ, ◌+◌, ◌≤◌, ◌<◌, ◌≡◌, sym, ◌∙◌, ◌⊎◌, inl, inr, Bool, none, some, arith, if◌then◌else◌,
  Bool-cases, Option-cases, le→ltb, ok, panic, Waker, usize_max,
}
use platoon.Runtime.Park.{Park}
use platoon.Runtime.Clock.{
  Clock, key_eq, lookup, insert, remove, insert_alarm, remove_alarm, reset_alarm,
  replace_alarm_waker,
}
use platoon.Runtime.Clock.Alarms.{
  IsSorted, lookup-insert, lookup-remove, insert-IsSorted, remove-IsSorted, key_eq_lem,
}

module _ (P : Park) where
  -- The keys rise, and every number that was given out is below the next one.
  pub record IsSound (c : Clock P) : Type 0 where
    pub sorted : IsSorted c.alarms
    pub numbered : (t k : ℕ) (w : Waker) → lookup t k c.alarms ≡ some w → k < c.next_alarm

  numbered_none : (c : Clock P) (t : ℕ) → IsSound c → lookup t c.next_alarm c.alarms ≡ none
  numbered_none c t v = elim (Option-cases (lookup t c.next_alarm c.alarms)) [
    | inl none_there ↦ none_there
    | inr (w, e) ↦ absurd (omega (arith, v.numbered t c.next_alarm w e))
  ]

  -- On a sound clock with room for another number, a new alarm gets a number under which nothing
  -- is set at that time, the clock stays sound, and every other alarm is as before.
  pub insert_alarm-fresh :
      (checks : Bool) (c : Clock P) (at : ℕ) (w : Waker)
      → IsSound c
      → c.next_alarm + 1 ≤ usize_max
      → (c' : Clock P) × (insert_alarm P checks c at w ≡ ok (c', c.next_alarm))
        × IsSound c'
        × (lookup at c.next_alarm c.alarms ≡ none)
        × ((t k : ℕ)
            → lookup t k c'.alarms
              ≡ (if key_eq t k at c.next_alarm then some w else lookup t k c.alarms))
  unfolding insert_alarm add_usize
  insert_alarm-fresh checks c at w v fits = (
    record c { alarms = insert at c.next_alarm w c.alarms; next_alarm = c.next_alarm + 1 },
    rw (le→ltb usize_max (c.next_alarm + 1) fits),
    record {
      sorted = insert-IsSorted at c.next_alarm w c.alarms v.sorted;
      numbered = λ t k u h. numbered t k u (sym (lookup-insert t k at c.next_alarm w c.alarms) ∙ h);
    },
    numbered_none c at v,
    λ t k. lookup-insert t k at c.next_alarm w c.alarms,
  )
    where
      numbered :
          (t k : ℕ) (u : Waker)
          → (if key_eq t k at c.next_alarm then some w else lookup t k c.alarms) ≡ some u
          → k < c.next_alarm + 1
      numbered t k u h = elim (Bool-cases (key_eq t k at c.next_alarm)) [
        | inl hit ↦ omega (arith, key_eq_lem t k at c.next_alarm hit)
        | inr miss ↦ omega (arith, v.numbered t k u (rw miss at h))
      ]

  -- On a clock whose alarms are in order, moving an alarm panics if it is not set; or else it is
  -- at the new time with its waker and at the old time no more, unless the two are the same, and
  -- every other alarm is as before.
  pub reset_alarm-moves :
      (c : Clock P) (id old new_at : ℕ)
      → IsSorted c.alarms
      → ((lookup old id c.alarms ≡ none) × (reset_alarm P c id old new_at ≡ panic))
        ⊎ ((w : Waker) × (c' : Clock P) × (lookup old id c.alarms ≡ some w)
            × (reset_alarm P c id old new_at ≡ ok c')
            × IsSorted c'.alarms
            × ((t k : ℕ)
                → lookup t k c'.alarms ≡ (
                    if key_eq t k new_at id
                    then some w
                    else if key_eq t k old id
                    then none
                    else lookup t k c.alarms)))
  unfolding reset_alarm
  reset_alarm-moves c id old new_at s = elim (Option-cases (lookup old id c.alarms)) [
    | inl e ↦ inl (e, rw e)
    | inr (w, e) ↦ inr (
      w,
      record c { alarms = insert new_at id w (remove old id c.alarms) },
      e,
      rw e,
      insert-IsSorted new_at id w _ (remove-IsSorted old id c.alarms s),
      λ t k.
          lookup-insert t k new_at id w (remove old id c.alarms)
          ∙ rw (lookup-remove t k old id c.alarms s),
    )
  ]

  -- Another waker is put in the place of the old one.
  pub replace_alarm_waker-replaces :
      (c : Clock P) (id deadline : ℕ) (new_waker w : Waker)
      → IsSound c
      → lookup deadline id c.alarms ≡ some w
      → (c' : Clock P) × (replace_alarm_waker P c id deadline new_waker ≡ ok c')
        × IsSound c'
        × ((t k : ℕ)
            → lookup t k c'.alarms
              ≡ (if key_eq t k deadline id then some new_waker else lookup t k c.alarms))
  unfolding replace_alarm_waker
  replace_alarm_waker-replaces c id deadline new_waker w v there_is = (
    record c { alarms = insert deadline id new_waker c.alarms },
    rw there_is,
    record {
      sorted = insert-IsSorted deadline id new_waker c.alarms v.sorted;
      numbered =
          λ t k u h. numbered t k u (sym (lookup-insert t k deadline id new_waker c.alarms) ∙ h);
    },
    λ t k. lookup-insert t k deadline id new_waker c.alarms,
  )
    where
      numbered :
          (t k : ℕ) (u : Waker)
          → (if key_eq t k deadline id then some new_waker else lookup t k c.alarms) ≡ some u
          → k < c.next_alarm
      numbered t k u h = elim (Bool-cases (key_eq t k deadline id)) [
        | inl hit ↦ omega (arith, key_eq_lem t k deadline id hit, v.numbered deadline id w there_is)
        | inr miss ↦ v.numbered t k u (rw miss at h)
      ]

  pub remove_alarm-removes :
      (c : Clock P) (id at t k : ℕ)
      → IsSound c
      → lookup t k (remove_alarm P c id at).alarms
        ≡ (if key_eq t k at id then none else lookup t k c.alarms)
  unfolding remove_alarm
  remove_alarm-removes c id at t k v = lookup-remove t k at id c.alarms v.sorted

  pub reset_alarm-none :
      (c : Clock P) (id old new_at : ℕ)
      → lookup old id c.alarms ≡ none
      → reset_alarm P c id old new_at ≡ panic
  unfolding reset_alarm
  reset_alarm-none c id old new_at e = rw e
