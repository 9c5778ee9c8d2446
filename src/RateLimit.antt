-- ===== src/RateLimit.antt =====
-- backend/app/services/vertex/rate_limit.py: the sliding-window limiter in front of each provider model.
-- Instants and spans of the monotonic clock are whole ticks; the source's floats are taken as exact.
pub mod Window
pub mod Progress
mod Tests
use ai_multimodal_platform.Prelude.{
  ℕ, ◌+◌, ◌-◌, Bool, Option, none, some, List, [], ◌∷◌, ◌++◌, length, ltb, leb, ◌==◌, if◌then◌else◌,
}

pub data RateLimitError : Type 0 where
  bad_capacity bad_window : RateLimitError

-- `_events` is a deque, oldest first.
pub record SlidingWindowLimiter : Type 0 where
  pub capacity : ℕ
  pub window_seconds : ℕ
  pub events : List ℕ

pub data Created : Type 0 where
  created : SlidingWindowLimiter → Created
  refused : RateLimitError → Created

-- `__init__`
pub new : ℕ → ℕ → Created
new capacity window_seconds =
    if ltb capacity 1
    then refused bad_capacity
    else if leb window_seconds 0
    then refused bad_window
    else created (record { capacity = capacity; window_seconds = window_seconds; events = [] })

-- The loop of `_prune`. `events[0] <= now - window` is written without the difference.
pub drop_expired : ℕ → ℕ → List ℕ → List ℕ
drop_expired window now [] = []
drop_expired window now (e ∷ es) =
    if leb (e + window) now then drop_expired window now es else e ∷ es

pub prune : ℕ → SlidingWindowLimiter → SlidingWindowLimiter
unfolding drop_expired
prune now l = record l { events = drop_expired l.window_seconds now l.events }

-- `events[0] + window - now` of a full deque; the difference stops at 0 like `max(0.0, ...)`.
pub wait_for_oldest : ℕ → ℕ → List ℕ → ℕ
wait_for_oldest window now [] = 0
wait_for_oldest window now (oldest ∷ es) = (oldest + window) - now

-- `_estimate_wait`
pub wait_at : ℕ → SlidingWindowLimiter → ℕ
unfolding wait_for_oldest
wait_at now l =
    if ltb (length l.events) l.capacity then 0 else wait_for_oldest l.window_seconds now l.events

pub current_size : ℕ → SlidingWindowLimiter → ℕ × SlidingWindowLimiter
unfolding prune
current_size now l = let l' = prune now l in (length l'.events, l')

pub estimate_wait : ℕ → SlidingWindowLimiter → ℕ × SlidingWindowLimiter
unfolding prune wait_at
estimate_wait now l = let l' = prune now l in (wait_at now l', l')

pub data Attempt : Type 0 where
  admitted : SlidingWindowLimiter → Attempt
  must_wait : ℕ → SlidingWindowLimiter → Attempt

-- One round of `acquire`, under the lock, at the clock reading `now`.
unfoldable pub attempt : ℕ → SlidingWindowLimiter → Attempt
unfolding prune wait_at
attempt now l =
    let l' = prune now l in
    let wait_seconds = wait_at now l' in
    if wait_seconds == 0
    then admitted (record l' { events = l'.events ++ now ∷ [] })
    else must_wait wait_seconds l'

-- `acquire`, over the clock readings of its rounds: the seconds waited and the limiter, or `none`
-- if every round had to wait.
pub acquire : List ℕ → ℕ → SlidingWindowLimiter → Option (ℕ × SlidingWindowLimiter)
unfolding attempt
acquire [] waited l = none
acquire (now ∷ later) waited l = elim (attempt now l) [
  | admitted l' ↦ some (waited, l')
  | must_wait s l' ↦ acquire later (waited + s) l'
]
