-- ===== src/Semaphore/System/Joins.antt =====
-- How futures stay matched to entries when a future joins the queue, leaves it, or waits on.
use platoon.Base.{
  ℕ, ◌-◌, ◌≡◌, refl, sym, ap, ◌∙◌, subst, inl, inr, true, false, none, some, List, [], ◌∷◌, ◌++◌,
  arith, ◌==◌, if◌then◌else◌, ==_iff, ==_self, Bool-cases, has, Distinct, has-append, has_ne, Waker,
}
use platoon.Semaphore.{AcquireState, idle, waiting, done}
use platoon.Semaphore.Queue.{Entry, keys, grant}
use platoon.Semaphore.Links.{keys-append}
use platoon.Semaphore.Refines.Add.{entry}
use platoon.Semaphore.Refines.Wake.{keys-grant}
use platoon.Semaphore.System.{Future}
use platoon.Semaphore.System.Matched.{wait_keys, required_of, waits, Agrees, AgreesAt, Matched}

abbrev pub future : ℕ → AcquireState → Future
future n s = record { permits = n; state = s }

-- An entry that is required is found in the queue.
pub required_of-split :
    (k n : ℕ) (es : List Entry)
    → required_of k es ≡ some n
    → (xs : List Entry) × (e : Entry) × (ys : List Entry) × (es ≡ xs ++ e ∷ ys)
      × (e.key ≡ k)
      × (e.required ≡ n)
required_of-split k n [] h = cc
required_of-split k n (e ∷ es) h = elim (Bool-cases (e.key == k)) [
  | inl hit ↦ ([], e, es, refl, ground arith, ground arith)
  | inr miss ↦
      let (xs, d, ys, split, key, required) = required_of-split k n es (ground arith) in
      (e ∷ xs, d, ys, ap (◌∷◌ e) split, key, required)
]

required_of-mem : (k n : ℕ) (es : List Entry) → required_of k es ≡ some n → has k (keys es) ≡ true
required_of-mem k n [] h = cc
required_of-mem k n (e ∷ es) h = ground (arith, required_of-mem k n es, ==_iff k e.key)

required_of-append :
    (k : ℕ) (es : List Entry) (e : Entry)
    → required_of k (es ++ e ∷ [])
      ≡ (if has k (keys es) then required_of k es else if e.key == k then some e.required else none)
required_of-append k [] e = refl
required_of-append k (x ∷ es) e = ground (arith, required_of-append k es e, ==_iff k x.key)

required_of-drop :
    (k : ℕ) (xs : List Entry) (e : Entry) (ys : List Entry)
    → (k == e.key) ≡ false
    → required_of k (xs ++ e ∷ ys) ≡ required_of k (xs ++ ys)
required_of-drop k [] e ys h = ground arith
required_of-drop k (x ∷ xs) e ys h = ground (arith, required_of-drop k xs e ys h)

required_of-grant : (k p : ℕ) (es : List Entry) → required_of k (grant p es) ≡ required_of k es
unfolding grant
required_of-grant k p [] = refl
required_of-grant k p (e ∷ es) = ground (arith, required_of-grant k (p - e.required) es)

has-wait_keys-tail :
    (k : ℕ) (s : AcquireState) (ks : List ℕ) → has k ks ≡ true → has k (wait_keys s ks) ≡ true
has-wait_keys-tail k idle ks h = h
has-wait_keys-tail k (waiting j) ks h = ground arith
has-wait_keys-tail k done ks h = h

AgreesAt-mono :
    (es fs : List Entry) (m : ℕ) (s : AcquireState) (ks : List ℕ)
    → ((k n : ℕ)
        → has k (wait_keys s ks) ≡ true
        → required_of k es ≡ some n
        → required_of k fs ≡ some n)
    → AgreesAt es m s
    → AgreesAt fs m s
AgreesAt-mono es fs m idle ks h a = tt
AgreesAt-mono es fs m (waiting k) ks h a = h k m (ground arith) a
AgreesAt-mono es fs m done ks h a = a

Agrees-mono :
    (es fs : List Entry) (us : List Future)
    → ((k n : ℕ) → has k (waits us) ≡ true → required_of k es ≡ some n → required_of k fs ≡ some n)
    → Agrees es us
    → Agrees fs us
Agrees-mono es fs [] h a = tt
Agrees-mono es fs (u ∷ us) h a = (
  AgreesAt-mono es fs u.permits u.state (waits us) h a.0,
  Agrees-mono es fs us (λ k n m. h k n (has-wait_keys-tail k u.state (waits us) m)) a.1,
)

AgreesAt-mem :
    (es : List Entry) (k n : ℕ) (s : AcquireState) (ks : List ℕ)
    → AgreesAt es n s
    → (has k ks ≡ true → has k (keys es) ≡ true)
    → has k (wait_keys s ks) ≡ true
    → has k (keys es) ≡ true
AgreesAt-mem es k n idle ks a h m = h m
AgreesAt-mem es k n (waiting j) ks a h m = ground (arith, h, required_of-mem j n es a, ==_iff k j)
AgreesAt-mem es k n done ks a h m = absurd a

Agrees-mem :
    (es : List Entry) (us : List Future) (k : ℕ)
    → Agrees es us
    → has k (waits us) ≡ true
    → has k (keys es) ≡ true
Agrees-mem es [] k a h = cc
Agrees-mem es (u ∷ us) k a h =
    AgreesAt-mem es k u.permits u.state (waits us) a.0 (Agrees-mem es us k a.1) h

-- Only the keys and the permits asked for matter.
pub Matched-same :
    (es fs : List Entry) (us : List Future)
    → keys fs ≡ keys es
    → ((k : ℕ) → required_of k fs ≡ required_of k es)
    → Matched es us
    → Matched fs us
Matched-same es fs us same same_required m = record {
  agrees = Agrees-mono es fs us (λ k n _ e. same_required k ∙ e) m.agrees;
  distinct = m.distinct;
  awaited = λ k h. m.awaited k (subst (λ ks. has k ks ≡ true) same h);
}

pub Matched-grant :
    (p : ℕ) (es : List Entry) (us : List Future) → Matched es us → Matched (grant p es) us
Matched-grant p es us m =
    Matched-same es (grant p es) us (keys-grant p es) (λ k. required_of-grant k p es) m

-- A future whose request was refused joins under a fresh key.
pub Matched-join :
    (es : List Entry) (key : ℕ) (cx : Waker) (n : ℕ) (us : List Future)
    → has key (keys es) ≡ false
    → Matched es (future n idle ∷ us)
    → Matched (es ++ entry key cx n ∷ []) (future n (waiting key) ∷ us)
Matched-join es key cx n us fresh m = record {
  agrees = (
    required_of-append key es (entry key cx n) ∙ rw (fresh, ==_self key),
    Agrees-mono es _ us
        (λ k j _ e. required_of-append k es (entry key cx n) ∙ rw (required_of-mem k j es e) e)
        m.agrees.1,
  );
  distinct = (unawaited, m.distinct);
  awaited = λ k h.
      ground (
        arith,
        m.awaited k,
        keys-append es (entry key cx n ∷ []),
        has-append k (keys es) (key ∷ []),
      );
}
  where
    unawaited : has key (waits us) ≡ false
    unawaited = elim (Bool-cases (has key (waits us))) [
      | inl there_is ↦ ground (arith, Agrees-mem es us key m.agrees.1 there_is)
      | inr none_is ↦ none_is
    ]

has-drop :
    (k : ℕ) (xs : List Entry) (e : Entry) (ys : List Entry)
    → has k (keys (xs ++ ys)) ≡ true
    → has k (keys (xs ++ e ∷ ys)) ≡ true
has-drop k [] e ys h = ground arith
has-drop k (x ∷ xs) e ys h = ground (arith, has-drop k xs e ys)

not-has-drop :
    (k : ℕ) (xs : List Entry) (e : Entry) (ys : List Entry)
    → has k (keys (xs ++ e ∷ ys)) ≡ false
    → (has k (keys (xs ++ ys)) ≡ false) × ((k == e.key) ≡ false)
not-has-drop k [] e ys h = (ground arith, ground arith)
not-has-drop k (x ∷ xs) e ys h =
    let (out, ne) = not-has-drop k xs e ys (ground arith) in (ground arith, ne)

-- A key that was cut out is gone.
key-gone :
    (xs : List Entry) (e : Entry) (ys : List Entry)
    → Distinct (keys (xs ++ e ∷ ys))
    → has e.key (keys (xs ++ ys)) ≡ false
key-gone [] e ys d = d.0
key-gone (x ∷ xs) e ys d =
    let (_, ne) = not-has-drop x.key xs e ys d.0 in ground (arith, key-gone xs e ys d.1, ne)

-- A future leaves with its entry.
pub Matched-leave :
    (xs : List Entry) (e : Entry) (ys : List Entry) (n : ℕ) (us : List Future)
    → Distinct (keys (xs ++ e ∷ ys))
    → Matched (xs ++ e ∷ ys) (future n (waiting e.key) ∷ us)
    → Matched (xs ++ ys) us
Matched-leave xs e ys n us d m = record {
  agrees =
      Agrees-mono (xs ++ e ∷ ys) (xs ++ ys) us
        (λ k j h r. sym (required_of-drop k xs e ys (other k h)) ∙ r) m.agrees.1;
  distinct = m.distinct.1;
  awaited = λ k h. ground (
    arith,
    m.awaited k (has-drop k xs e ys h),
    has_ne e.key k (keys (xs ++ ys)) (key-gone xs e ys d) h,
    ==_iff k e.key,
  );
}
  where
    other : (k : ℕ) → has k (waits us) ≡ true → (k == e.key) ≡ false
    other k h = ground (arith, has_ne e.key k (waits us) m.distinct.0 h)

required_of-renew :
    (k : ℕ) (xs : List Entry) (e : Entry) (cx : Waker) (ys : List Entry)
    → required_of k (xs ++ record e { waker = some cx } ∷ ys) ≡ required_of k (xs ++ e ∷ ys)
required_of-renew k [] e cx ys = refl
required_of-renew k (x ∷ xs) e cx ys = ground (arith, required_of-renew k xs e cx ys)

pub Matched-renew :
    (xs : List Entry) (e : Entry) (cx : Waker) (ys : List Entry) (us : List Future)
    → Matched (xs ++ e ∷ ys) us
    → Matched (xs ++ record e { waker = some cx } ∷ ys) us
Matched-renew xs e cx ys us m =
    Matched-same _ _ us (keys-append xs _ ∙ sym (keys-append xs _))
      (λ k. required_of-renew k xs e cx ys) m
