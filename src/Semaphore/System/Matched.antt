-- ===== src/Semaphore/System/Matched.antt =====
-- Every waiting future has its entry in the queue, with the permits that it asks for, and every
-- entry has its future.
use platoon.Base.{
  ℕ, ◌≡◌, refl, sym, ◌∙◌, true, Option, none, some, List, [], ◌∷◌, arith, ◌==◌, if◌then◌else◌, has,
  Distinct, Insert, here, there,
}
use platoon.Semaphore.{AcquireState, idle, waiting, done}
use platoon.Semaphore.Queue.{Entry, keys}
use platoon.Semaphore.System.{Future}

abbrev pub required_of : ℕ → List Entry → Option ℕ
required_of k [] = none
required_of k (e ∷ es) = if e.key == k then some e.required else required_of k es

abbrev pub wait_keys : AcquireState → List ℕ → List ℕ
wait_keys idle ks = ks
wait_keys (waiting k) ks = k ∷ ks
wait_keys done ks = ks

-- The keys under which futures wait.
abbrev pub waits : List Future → List ℕ
waits [] = []
waits (u ∷ us) = wait_keys u.state (waits us)

abbrev pub AgreesAt : List Entry → ℕ → AcquireState → Type 0
AgreesAt es n idle = Unit
AgreesAt es n (waiting k) = required_of k es ≡ some n
AgreesAt es n done = ⊥

abbrev pub Agrees : List Entry → List Future → Type 0
Agrees es [] = Unit
Agrees es (u ∷ us) = AgreesAt es u.permits u.state × Agrees es us

pub record Matched (es : List Entry) (us : List Future) : Type 0 where
  pub agrees : Agrees es us
  pub distinct : Distinct (waits us)
  pub awaited : (k : ℕ) → has k (keys es) ≡ true → has k (waits us) ≡ true

has-wait_keys :
    (k : ℕ) (s : AcquireState) (ks ls : List ℕ)
    → has k ks ≡ has k ls
    → has k (wait_keys s ks) ≡ has k (wait_keys s ls)
has-wait_keys k idle ks ls h = h
has-wait_keys k (waiting j) ks ls h = ground arith
has-wait_keys k done ks ls h = h

has-wait_keys_swap :
    (k : ℕ) (s t : AcquireState) (ks : List ℕ)
    → has k (wait_keys s (wait_keys t ks)) ≡ has k (wait_keys t (wait_keys s ks))
has-wait_keys_swap k idle t ks = refl
has-wait_keys_swap k done t ks = refl
has-wait_keys_swap k (waiting i) idle ks = refl
has-wait_keys_swap k (waiting i) done ks = refl
has-wait_keys_swap k (waiting i) (waiting j) ks = ground arith

pub has-waits :
    {u : Future} {rest us : List Future} (k : ℕ)
    → Insert u rest us
    → has k (waits us) ≡ has k (waits (u ∷ rest))
has-waits k here = refl
has-waits {u} k (there {x} {rest} i) =
    has-wait_keys k x.state _ _ (has-waits k i) ∙ has-wait_keys_swap k x.state u.state (waits rest)

Distinct-swap :
    (s t : AcquireState) (ks : List ℕ)
    → Distinct (wait_keys s (wait_keys t ks))
    → Distinct (wait_keys t (wait_keys s ks))
Distinct-swap idle t ks d = d
Distinct-swap done t ks d = d
Distinct-swap (waiting i) idle ks d = d
Distinct-swap (waiting i) done ks d = d
Distinct-swap (waiting i) (waiting j) ks d = ground arith

Distinct-replace :
    (s : AcquireState) (ks ls : List ℕ)
    → ((k : ℕ) → has k ks ≡ has k ls)
    → Distinct ls
    → Distinct (wait_keys s ks)
    → Distinct (wait_keys s ls)
Distinct-replace idle ks ls h d e = d
Distinct-replace (waiting k) ks ls h d e = (ground (arith, h k), d)
Distinct-replace done ks ls h d e = d

Distinct-tail : (s : AcquireState) (ks : List ℕ) → Distinct (wait_keys s ks) → Distinct ks
Distinct-tail idle ks d = d
Distinct-tail (waiting k) ks d = d.1
Distinct-tail done ks d = d

Distinct-waits :
    {u : Future} {rest us : List Future}
    → Insert u rest us
    → Distinct (waits us)
    → Distinct (waits (u ∷ rest))
Distinct-waits here d = d
Distinct-waits {u} (there {x} {rest} {xs} i) d = Distinct-swap x.state u.state (waits rest) (
    Distinct-replace x.state (waits xs) (waits (u ∷ rest)) (λ k. has-waits k i)
      (Distinct-waits i (Distinct-tail x.state (waits xs) d)) d)

Agrees-Insert :
    (es : List Entry) {u : Future} {rest us : List Future}
    → Insert u rest us
    → Agrees es us
    → Agrees es (u ∷ rest)
Agrees-Insert es here a = a
Agrees-Insert es (there i) a = let b = Agrees-Insert es i a.1 in (b.0, (a.0, b.1))

-- The order of the futures does not matter.
pub Matched-Insert :
    {es : List Entry} {u : Future} {rest us : List Future}
    → Insert u rest us
    → Matched es us
    → Matched es (u ∷ rest)
Matched-Insert i m = record {
  agrees = Agrees-Insert _ i m.agrees;
  distinct = Distinct-waits i m.distinct;
  awaited = λ k h. sym (has-waits k i) ∙ m.awaited k h;
}
