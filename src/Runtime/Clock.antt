-- ===== src/Runtime/Clock.antt =====
-- src/runtime/clock.rs: the alarms that are set, in a map ordered by their time and number. A
-- time is a count of nanoseconds; `Instant::now()` is an argument.
pub mod Alarms
pub mod Expiry
pub mod Setting
pub mod Parks
pub mod Examples
use platoon.Base.{
  add_usize, min, ℕ, ◌+◌, ◌-◌, ◌*◌, ◌/◌, ◌%◌, ◌^◌, Bool, ◌&&◌, ◌||◌, Option, none, some, List, [],
  ◌∷◌, ◌++◌, ltb, ◌==◌, if◌then◌else◌, Outcome, ◌>>=◌, or_panic, ok, Waker, IoResult,
}
use platoon.Runtime.Park.{Park}

-- `BTreeMap<(Instant, usize), Waker>`, as its entries.
abbrev pub AlarmMap : Type 0
AlarmMap = List (ℕ × ℕ × Waker)

-- The order of the keys, and their equality.
unfoldable pub key_lt : (at id at' id' : ℕ) → Bool
key_lt at id at' id' = ltb at at' || (at == at' && ltb id id')

unfoldable pub key_eq : (at id at' id' : ℕ) → Bool
key_eq at id at' id' = at == at' && id == id'

-- What the clock uses of `BTreeMap`.
unfoldable pub lookup : ℕ → ℕ → AlarmMap → Option Waker
lookup at id [] = none
lookup at id ((a, i, w) ∷ m) = if key_eq at id a i then some w else lookup at id m

unfoldable pub insert : ℕ → ℕ → Waker → AlarmMap → AlarmMap
insert at id w [] = (at, id, w) ∷ []
insert at id w ((a, i, v) ∷ m) =
    if key_lt at id a i
    then (at, id, w) ∷ (a, i, v) ∷ m
    else if key_eq at id a i
    then (at, id, w) ∷ m
    else (a, i, v) ∷ insert at id w m

pub remove : ℕ → ℕ → AlarmMap → AlarmMap
remove at id [] = []
remove at id ((a, i, v) ∷ m) = if key_eq at id a i then m else (a, i, v) ∷ remove at id m

-- `split_off`: the entries below the key stay, and the others are returned.
pub below : ℕ → ℕ → AlarmMap → AlarmMap
below at id [] = []
below at id ((a, i, v) ∷ m) = if key_lt a i at id then (a, i, v) ∷ below at id m else below at id m

pub from : ℕ → ℕ → AlarmMap → AlarmMap
from at id [] = []
from at id ((a, i, v) ∷ m) = if key_lt a i at id then from at id m else (a, i, v) ∷ from at id m

pub values : AlarmMap → List Waker
values [] = []
values ((a, i, w) ∷ m) = w ∷ values m

pub record Clock (P : Park) : Type 0 where
  pub parker : P.State
  pub next_alarm : ℕ
  pub alarms : AlarmMap

-- `Duration::from_millis(d.as_millis() as u64)`.
pub whole_millis : ℕ → ℕ
whole_millis d = (d / 1_000_000) % 2 ^ 64 * 1_000_000

-- How long until the first alarm, if there is one.
pub next_timeout : ℕ → AlarmMap → Option ℕ
next_timeout now [] = none
next_timeout now ((a, i, w) ∷ m) = some (whole_millis (a - now))

module _ (P : Park) where
  unfoldable pub new : P.State → Clock P
  new parker = record { parker = parker; next_alarm = 0; alarms = [] }

  unfoldable pub insert_alarm : Bool → Clock P → ℕ → Waker → Outcome (Clock P × ℕ)
  insert_alarm checks c at waker = do
    next ← add_usize checks c.next_alarm 1
    ok (
      record c { alarms = insert at c.next_alarm waker c.alarms; next_alarm = next },
      c.next_alarm,
    )

  pub remove_alarm : Clock P → ℕ → ℕ → Clock P
  remove_alarm c id at = record c { alarms = remove at id c.alarms }

  pub reset_alarm : Clock P → ℕ → ℕ → ℕ → Outcome (Clock P)
  reset_alarm c id old new_at = do
    waker ← or_panic (lookup old id c.alarms)
    ok (record c { alarms = insert new_at id waker (remove old id c.alarms) })

  pub replace_alarm_waker : Clock P → ℕ → ℕ → Waker → Outcome (Clock P)
  replace_alarm_waker c id deadline waker = do
    _ ← or_panic (lookup deadline id c.alarms)
    ok (record c { alarms = insert deadline id waker c.alarms })

  -- The clock with its later alarms, the wakers that are due, and the timeout.
  unfoldable pub extend_with_expired : Clock P → ℕ → Clock P × List Waker × Option ℕ
  extend_with_expired c now =
      let ready_alarms = below (now + 1) 0 c.alarms in
      let later = from (now + 1) 0 c.alarms in
      (
        record c { alarms = later },
        values ready_alarms,
        elim ready_alarms [ [] ↦ next_timeout now later | _ ∷ _ ↦ some 0 ],
      )

  abbrev pub parked :
      Clock P
      → List Waker
      → P.State × List Waker × IoResult (Unit {0})
      → Clock P × List Waker × IoResult (Unit {0})
  parked c due (s, more, result) = (record c { parker = s }, due ++ more, result)

  pub park : Clock P → ℕ → Clock P × List Waker × IoResult (Unit {0})
  park c now =
      let (c', due, next) = extend_with_expired c now in
      elim next [
        | some d ↦ parked c' due (P.park_timeout c'.parker d)
        | none ↦ parked c' due (P.park c'.parker)
      ]

  -- The timeout that is passed on: the sooner of the two.
  pub sooner : ℕ → Option ℕ → ℕ
  sooner duration none = duration
  sooner duration (some d) = min duration d

  unfoldable pub park_timeout : Clock P → ℕ → ℕ → Clock P × List Waker × IoResult (Unit {0})
  park_timeout c now duration =
      let (c', due, next) = extend_with_expired c now in
      parked c' due (P.park_timeout c'.parker (sooner duration next))
