-- ===== src/Semaphore/Queue/Invariant.antt =====
-- The order in which waiters are woken, what is promised to them, and that nobody who could be
-- served is left asleep for good.
use platoon.Base.{
  ℕ, ◌+◌, ◌-◌, ◌≤◌, ◌<◌, ◌≡◌, refl, ◌⊎◌, inl, inr, true, false, some, List, [], ◌∷◌, ◌++◌, arith,
  Waker,
}
use platoon.Semaphore.Queue.{Queue, Entry, grant, promised, settle, can_take, take}

abbrev pub AllAsleep : List Entry → Type 0
AllAsleep [] = Unit
AllAsleep (e ∷ es) = (e.woke ≡ false) × AllAsleep es

-- Whoever was woken stands before whoever was not.
abbrev pub IsOrdered : List Entry → Type 0
IsOrdered [] = Unit
IsOrdered (e ∷ es) = ((e.woke ≡ true) × IsOrdered es) ⊎ ((e.woke ≡ false) × AllAsleep es)

-- The oldest waiter was woken, or asks for more than there is.
abbrev pub IsServed : ℕ → List Entry → Type 0
IsServed permits [] = Unit
IsServed permits (e ∷ es) = (e.woke ≡ true) ⊎ (permits < e.required)

pub record IsFair (q : Queue) : Type 0 where
  pub covered : promised q.entries ≤ q.permits
  pub ordered : IsOrdered q.entries
  pub served : IsServed q.permits q.entries

IsOrdered-asleep : (es : List Entry) → AllAsleep es → IsOrdered es
IsOrdered-asleep [] a = tt
IsOrdered-asleep (e ∷ es) a = inr (a.0, a.1)

promised_asleep : (es : List Entry) → AllAsleep es → promised es ≡ 0
promised_asleep [] a = refl
promised_asleep (e ∷ es) a = ground (arith, promised_asleep es a.1)

pub promised-append : (xs ys : List Entry) → promised (xs ++ ys) ≡ promised xs + promised ys
promised-append [] ys = omega arith
promised-append (x ∷ xs) ys = omega (arith, promised-append xs ys)

grant-promised :
    (p : ℕ) (es : List Entry) → IsOrdered es → promised es ≤ p → promised (grant p es) ≤ p
unfolding grant
grant-promised p [] o h = h
grant-promised p (e ∷ es) (inl (woke, o)) h = ground (arith, grant-promised (p - e.required) es o)
grant-promised p (e ∷ es) (inr (asleep, a)) h =
    ground (arith, promised_asleep es a, grant-promised (p - e.required) es (IsOrdered-asleep es a))

grant-IsOrdered :
    (p : ℕ) (es : List Entry) → IsOrdered es → promised es ≤ p → IsOrdered (grant p es)
unfolding grant
grant-IsOrdered p [] o h = tt
grant-IsOrdered p (e ∷ es) (inl (woke, o)) h = ground (arith, grant-IsOrdered (p - e.required) es o)
grant-IsOrdered p (e ∷ es) (inr (asleep, a)) h =
    ground
      (arith, promised_asleep es a, grant-IsOrdered (p - e.required) es (IsOrdered-asleep es a))

grant-IsServed : (p : ℕ) (es : List Entry) → IsServed p (grant p es)
unfolding grant
grant-IsServed p [] = tt
grant-IsServed p (e ∷ es) = ground arith

pub settle-IsFair :
    (q : Queue) → IsOrdered q.entries → promised q.entries ≤ q.permits → IsFair (settle q)
settle-IsFair q o h = record {
  covered = grant-promised q.permits q.entries o h;
  ordered = grant-IsOrdered q.permits q.entries o h;
  served = grant-IsServed q.permits q.entries;
}

AllAsleep-drop :
    (xs : List Entry) (e : Entry) (ys : List Entry)
    → AllAsleep (xs ++ e ∷ ys)
    → AllAsleep (xs ++ ys)
AllAsleep-drop [] e ys a = a.1
AllAsleep-drop (x ∷ xs) e ys a = (a.0, AllAsleep-drop xs e ys a.1)

pub IsOrdered-drop :
    (xs : List Entry) (e : Entry) (ys : List Entry)
    → IsOrdered (xs ++ e ∷ ys)
    → IsOrdered (xs ++ ys)
IsOrdered-drop [] e ys (inl (_, o)) = o
IsOrdered-drop [] e ys (inr (_, a)) = IsOrdered-asleep ys a
IsOrdered-drop (x ∷ xs) e ys (inl (woke, o)) = inl (woke, IsOrdered-drop xs e ys o)
IsOrdered-drop (x ∷ xs) e ys (inr (asleep, a)) = inr (asleep, AllAsleep-drop xs e ys a)

AllAsleep-append :
    (es : List Entry) (e : Entry) → e.woke ≡ false → AllAsleep es → AllAsleep (es ++ e ∷ [])
AllAsleep-append [] e h a = (h, tt)
AllAsleep-append (x ∷ es) e h a = (a.0, AllAsleep-append es e h a.1)

IsOrdered-append :
    (es : List Entry) (e : Entry) → e.woke ≡ false → IsOrdered es → IsOrdered (es ++ e ∷ [])
IsOrdered-append [] e h o = inr (h, tt)
IsOrdered-append (x ∷ es) e h (inl (woke, o)) = inl (woke, IsOrdered-append es e h o)
IsOrdered-append (x ∷ es) e h (inr (asleep, a)) = inr (asleep, AllAsleep-append es e h a)

-- A waiter joins when its request was refused.
pub append-IsFair :
    (q : Queue) (e : Entry)
    → e.woke ≡ false
    → can_take q e.required ≡ false
    → IsFair q
    → IsFair (record q { entries = q.entries ++ e ∷ [] })
append-IsFair q e asleep refused f = record {
  covered = ground (arith, promised-append q.entries (e ∷ []), f.covered);
  ordered = IsOrdered-append q.entries e asleep f.ordered;
  served = still_served q.entries refused f.served;
}
  where
    still_served :
        (es : List Entry)
        → can_take (record q { entries = es }) e.required ≡ false
        → IsServed q.permits es
        → IsServed q.permits (es ++ e ∷ [])
    still_served [] h s = ground arith
    still_served (x ∷ es) h s = s

pub take-IsFair : (q : Queue) (n : ℕ) → can_take q n ≡ true → IsFair q → IsFair (take q n)
take-IsFair q n fits f = taken q.entries fits f.covered f.ordered f.served
  where
    taken :
        (es : List Entry)
        → can_take (record q { entries = es }) n ≡ true
        → promised es ≤ q.permits
        → IsOrdered es
        → IsServed q.permits es
        → IsFair (take (record q { entries = es }) n)
    taken [] h c o s = record { covered = omega arith; ordered = tt; served = tt }
    taken (x ∷ es) h c o s =
        let none_asked : n ≡ 0 = ground arith in
        record { covered = omega arith; ordered = o; served = ground arith }

-- A change of one waiter's waker concerns neither order nor permits.
pub renew-IsFair :
    (p : ℕ) (xs : List Entry) (e : Entry) (cx : Waker) (ys : List Entry)
    → IsFair (record { permits = p; entries = xs ++ e ∷ ys })
    → IsFair (record { permits = p; entries = xs ++ record e { waker = some cx } ∷ ys })
renew-IsFair p xs e cx ys f = record {
  covered =
      rw (promised-append xs (record e { waker = some cx } ∷ ys), ← promised-append xs (e ∷ ys))
        f.covered;
  ordered = ordered xs f.ordered;
  served = served xs f.served;
}
  where
    e' : Entry
    e' = record e { waker = some cx }

    asleep : (zs : List Entry) → AllAsleep (zs ++ e ∷ ys) → AllAsleep (zs ++ e' ∷ ys)
    asleep [] a = a
    asleep (z ∷ zs) a = (a.0, asleep zs a.1)

    ordered : (zs : List Entry) → IsOrdered (zs ++ e ∷ ys) → IsOrdered (zs ++ e' ∷ ys)
    ordered [] o = o
    ordered (z ∷ zs) (inl (w, o)) = inl (w, ordered zs o)
    ordered (z ∷ zs) (inr (w, a)) = inr (w, asleep zs a)

    served : (zs : List Entry) → IsServed p (zs ++ e ∷ ys) → IsServed p (zs ++ e' ∷ ys)
    served [] s = s
    served (z ∷ zs) s = s
