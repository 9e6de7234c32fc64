-- ===== src/Sys/Epoll/Timeouts.antt =====
-- The timeout that epoll_wait gets: whole milliseconds in a signed word.
use platoon.Base.{
  ℕ, ◌-◌, ◌/◌, ◌%◌, ◌^◌, ◌≤◌, ◌<◌, ◌≡◌, ◌⊎◌, inl, inr, some, arith, ltb, Bool-cases, pos, negsuc,
  as_c_int,
}
use platoon.Sys.Epoll.{timeout_ms}

-- A timeout of less than 2^32 ms is passed to epoll as its whole milliseconds if these are less
-- than 2^31, and as a negative number, which is no timeout, if they are not.
pub timeout_ms-as_c_int :
    (duration : ℕ)
    → duration / 1_000_000 < 2 ^ 32
    → ((duration / 1_000_000 < 2 ^ 31) × (timeout_ms (some duration) ≡ pos (duration / 1_000_000)))
      ⊎ ((2 ^ 31 ≤ duration / 1_000_000) × ((n : ℕ) × (timeout_ms (some duration) ≡ negsuc n)))
unfolding timeout_ms as_c_int
timeout_ms-as_c_int duration fits =
    let ms = duration / 1_000_000 in
    let word : ms % 2 ^ 32 ≡ ms = omega (arith, fits) in
    elim (Bool-cases (ltb ms (2 ^ 31))) [
      | inl small ↦ inl (ground (arith, small), rw (word, small))
      | inr large ↦ inr (ground (arith, large), (2 ^ 32 - 1 - ms, rw (word, large)))
    ]
