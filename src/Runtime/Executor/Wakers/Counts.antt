-- ===== src/Runtime/Executor/Wakers/Counts.antt =====
-- The reference count of a task is the number of those that refer to it, on the thread of the
-- task; a clone elsewhere breaks it.
use platoon.Base.{ℕ, suc, ap, ◌+◌, ◌-◌, ◌≤◌, ◌≡◌, refl, ◌∙◌, true, false, arith, ◌==◌, ==_self}
use platoon.Runtime.Executor.Wakers.{
  Counted, returned, panicked, clone_rc, drop_rc, wake_repr, assert_not_sent, clone, wake,
  wake_by_ref, drop, Held, spawned, Step, clones, wakes, wakes_by_ref, drops, makes_waker,
  clones_task, drops_task, pops, settles, Reach, stays, steps,
}

abbrev pub references : Held → ℕ
references h = h.wakers + h.owners + h.task.queued

-- The count is right, on a task of this thread.
abbrev IsCounted : ℕ → Held → Type 0
IsCounted thread h = (h.task.strong ≡ references h) × (h.task.created_on ≡ thread)

-- Every function of the table returns.
abbrev pub AllReturn : ℕ → Counted → Type 0
AllReturn thread b =
    ((clone thread b).1 ≡ returned)
    × ((wake thread b).1 ≡ returned)
    × ((wake_by_ref thread b).1 ≡ returned)
    × ((drop thread b).1 ≡ returned)

on_thread :
    (thread : ℕ) (b passed unwound : Counted)
    → b.created_on ≡ thread
    → assert_not_sent thread b passed unwound ≡ (passed, returned)
unfolding assert_not_sent
on_thread thread b passed unwound home =
    let same : (thread == b.created_on) ≡ true = rw home (==_self thread) in rw same

off_thread :
    (thread : ℕ) (b passed unwound : Counted)
    → (thread == b.created_on) ≡ false
    → assert_not_sent thread b passed unwound ≡ (unwound, panicked)
unfolding assert_not_sent
off_thread thread b passed unwound away = rw away

home-AllReturn : (thread : ℕ) (b : Counted) → b.created_on ≡ thread → AllReturn thread b
unfolding clone wake wake_by_ref drop
home-AllReturn thread b home = (
  ap (λ r. r.1) (on_thread thread b _ _ home),
  ap (λ r. r.1) (on_thread thread b _ _ home),
  ap (λ r. r.1) (on_thread thread b _ _ home),
  ap (λ r. r.1) (on_thread thread b _ _ home),
)

-- A wake gives up one reference, and may queue another.
wake_repr-count :
    (b : Counted) (rest : ℕ)
    → b.strong ≡ suc (rest + b.queued)
    → ((wake_repr b).strong ≡ rest + (wake_repr b).queued)
      × ((wake_repr b).created_on ≡ b.created_on)
unfolding wake_repr
wake_repr-count b rest count = (ground arith, ground arith)

Step-IsCounted :
    {thread : ℕ} {h h' : Held} → Step thread h h' → IsCounted thread h → IsCounted thread h'
unfolding clone wake wake_by_ref drop
Step-IsCounted {thread} (clones h held) (count, home) =
    rw (on_thread thread h.task (clone_rc h.task) (drop_rc h.task) home) (omega arith, home)
Step-IsCounted {thread} (wakes h held) (count, home) =
    let (less, same) = wake_repr-count h.task (h.wakers - 1 + h.owners) (omega arith) in
    rw (on_thread thread h.task (wake_repr h.task) (drop_rc h.task) home) (less, same ∙ home)
Step-IsCounted {thread} (wakes_by_ref h held) (count, home) =
    let (less, same) = wake_repr-count (clone_rc h.task) (h.wakers + h.owners) (omega arith) in
    rw (on_thread thread h.task (wake_repr (clone_rc h.task)) h.task home) (less, same ∙ home)
Step-IsCounted {thread} (drops h held) (count, home) =
    rw (on_thread thread h.task (drop_rc h.task) (drop_rc h.task) home) (omega arith, home)
Step-IsCounted (makes_waker h held) (count, home) = (omega arith, home)
Step-IsCounted (clones_task h held) (count, home) = (omega arith, home)
Step-IsCounted (drops_task h held) (count, home) = (omega arith, home)
Step-IsCounted (pops h held) (count, home) = (omega arith, home)
Step-IsCounted (settles h s held) (count, home) = (count, home)

spawned-IsCounted : (thread : ℕ) → IsCounted thread (spawned thread)
unfolding spawned
spawned-IsCounted thread = (refl, refl)

counted : {thread : ℕ} {h : Held} → Reach thread (spawned thread) h → IsCounted thread h
counted {thread} stays = spawned-IsCounted thread
counted (steps r st) = Step-IsCounted st (counted r)

-- After any history on the thread of a task, from its spawn, of clones, wakes and drops of its
-- wakers, and of the makes, clones and drops of its `Rc`s and pops of the queue, its reference
-- count is the number of its wakers, of its `Rc`s and of its places in the queue, and each
-- function of the waker table returns.
pub Reach-IsCounted :
    (thread : ℕ) (h : Held)
    → Reach thread (spawned thread) h
    → (h.task.strong ≡ references h) × AllReturn thread h.task
Reach-IsCounted thread h r =
    let (count, home) = counted r in (count, home-AllReturn thread h.task home)

-- After any history on the thread of a task, a use of one of its wakers on another thread panics:
-- a clone leaves the count one less than the number of references, although all of them are left;
-- a wake by reference leaves everything; a wake and a drop give up the one reference that they
-- own.
pub off_thread-counts :
    (thread away : ℕ) (h : Held)
    → Reach thread (spawned thread) h
    → (away == thread) ≡ false
    → 1 ≤ h.wakers
    → ((clone away h.task).1 ≡ panicked)
      × ((clone away h.task).0.strong + 1 ≡ references h)
      × (wake_by_ref away h.task ≡ (h.task, panicked))
      × ((wake away h.task).1 ≡ panicked)
      × ((wake away h.task).0.strong + 1 ≡ references h)
      × ((drop away h.task).1 ≡ panicked)
      × ((drop away h.task).0.strong + 1 ≡ references h)
unfolding clone wake wake_by_ref drop
off_thread-counts thread away h r differ held =
    let (count, home) = counted r in
    let off : (away == h.task.created_on) ≡ false = rw home differ in
    let clone_off = off_thread away h.task (clone_rc h.task) (drop_rc h.task) off in
    let wake_off = off_thread away h.task (wake_repr h.task) (drop_rc h.task) off in
    let by_ref_off = off_thread away h.task (wake_repr (clone_rc h.task)) h.task off in
    let drop_off = off_thread away h.task (drop_rc h.task) (drop_rc h.task) off in
    let fewer : h.task.strong - 1 + 1 ≡ references h = omega arith in
    (
      ap (λ r. r.1) clone_off,
      rw clone_off fewer,
      by_ref_off,
      ap (λ r. r.1) wake_off,
      rw wake_off fewer,
      ap (λ r. r.1) drop_off,
      rw drop_off fewer,
    )
