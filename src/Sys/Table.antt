-- ===== src/Sys/Table.antt =====
-- A poller as a table of registrations and the events to report, where a report disarms: the
-- instance at which theorems about an arbitrary poller are applied.
use platoon.Base.{
  ℕ, ◌≡◌, refl, subst, inl, inr, false, Option, none, some, List, [], arith, ◌==◌, if◌then◌else◌,
  Bool-cases, has, IoError, IoResult, other_kind, success, failure,
}
use platoon.Sys.{Event, event_keys, IsKept, Poller}

pub record Registry : Type 0 where
  pub registrations : ℕ → Option Event
  pub reported : List Event

abbrev put : Registry → ℕ → Option Event → Registry
put t raw o = record t { registrations = λ k. if k == raw then o else t.registrations k }

abbrev disarm : List Event → Option Event → Option Event
disarm es none = none
disarm es (some e) =
    if has e.key (event_keys es)
    then some (record { key = e.key; readable = false; writable = false })
    else some e

abbrev add : Registry → ℕ → Event → Registry × IoResult (Unit {0})
add t raw e = elim (t.registrations raw) [
  | none ↦ (put t raw (some e), success tt)
  | some _ ↦ (t, failure (other_kind 17))
]

abbrev update : Registry → ℕ → Event → Registry × IoResult (Unit {0})
update t raw e = elim (t.registrations raw) [
  | none ↦ (t, failure (other_kind 2))
  | some _ ↦ (put t raw (some e), success tt)
]

abbrev poll : Registry → Option ℕ → Registry × IoResult (List Event)
poll t timeout = (
  record { registrations = λ k. disarm t.reported (t.registrations k); reported = [] },
  success t.reported,
)

disarm-IsKept : (es : List Event) (o : Option Event) → IsKept es o (disarm es o)
disarm-IsKept es none = refl
disarm-IsKept es (some e) = elim (Bool-cases (has e.key (event_keys es))) [
  | inl told ↦ (
    record { key = e.key; readable = false; writable = false },
    rw told,
    refl,
    λ h. absurd (ground (arith, told)),
  )
  | inr untold ↦ (e, rw untold, refl, λ h. refl)
]

pub add-fresh :
    (t : Registry) (raw : ℕ) (e : Event) → (add t raw e).1 ≡ success tt → t.registrations raw ≡ none
add-fresh t raw e fine = ground arith

pub add-registered :
    (t : Registry) (raw : ℕ) (e : Event) (k : ℕ)
    → (add t raw e).1 ≡ success tt
    → (add t raw e).0.registrations k ≡ (if k == raw then some e else t.registrations k)
add-registered t raw e k fine = ground arith

pub add-refused :
    (t : Registry) (raw : ℕ) (e : Event) (err : IoError) (k : ℕ)
    → (add t raw e).1 ≡ failure err
    → (add t raw e).0.registrations k ≡ t.registrations k
add-refused t raw e err k bad = ground arith

pub update-registered :
    (t : Registry) (raw : ℕ) (e : Event) (k : ℕ)
    → (update t raw e).1 ≡ success tt
    → (update t raw e).0.registrations k ≡ (if k == raw then some e else t.registrations k)
update-registered t raw e k fine = ground arith

pub update-refused :
    (t : Registry) (raw : ℕ) (e : Event) (err : IoError) (k : ℕ)
    → (update t raw e).1 ≡ failure err
    → (update t raw e).0.registrations k ≡ t.registrations k
update-refused t raw e err k bad = ground arith

pub poll-IsKept :
    (t : Registry) (timeout : Option ℕ) (es : List Event) (k : ℕ)
    → (poll t timeout).1 ≡ success es
    → IsKept es (t.registrations k) ((poll t timeout).0.registrations k)
poll-IsKept t timeout es k fine =
    subst (λ xs. IsKept xs (t.registrations k) (disarm t.reported (t.registrations k)))
      (ground (arith, fine)) (disarm-IsKept t.reported (t.registrations k))

pub poll-refused :
    (t : Registry) (timeout : Option ℕ) (err : IoError) (k : ℕ)
    → (poll t timeout).1 ≡ failure err
    → (poll t timeout).0.registrations k ≡ t.registrations k
poll-refused t timeout err k bad = absurd (ground (arith, bad))

abbrev pub table : Poller
table = record {
  State = Registry;
  add = add;
  update = update;
  delete = λ t raw. (put t raw none, success tt);
  poll = poll;
  registered = λ t k. t.registrations k;
  add-fresh = add-fresh;
  add-registered = add-registered;
  add-refused = add-refused;
  update-registered = update-registered;
  update-refused = update-refused;
  delete-others = λ t raw k other. rw other;
  poll-IsKept = poll-IsKept;
  poll-refused = poll-refused;
}
