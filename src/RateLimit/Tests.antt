-- ===== src/RateLimit/Tests.antt =====
-- Runs and instances of the limiter's theorems.
use ai_multimodal_platform.Prelude.{ℕ, ◌+◌, ◌≤◌, ◌≡◌, refl, List, [], ◌∷◌, arith, some}
use ai_multimodal_platform.RateLimit.{SlidingWindowLimiter, new, attempt, acquire, estimate_wait}
use ai_multimodal_platform.RateLimit.Window.{within, serve, serve-within_capacity}
use ai_multimodal_platform.RateLimit.Progress.{IsValid, acquire_sleeps_once}

abbrev imagen : SlidingWindowLimiter
imagen = record { capacity = 2; window_seconds = 60; events = [] }

abbrev busy : List ℕ
busy = 1 ∷ 5 ∷ 20 ∷ 61 ∷ 62 ∷ 70 ∷ []

busy_admissions : (serve busy imagen []).1 ≡ 70 ∷ 61 ∷ 5 ∷ 1 ∷ []
unfolding serve attempt
busy_admissions = refl

serve-within_capacity_example : within 60 64 (serve busy imagen []).1 ≤ 2
unfolding new
serve-within_capacity_example = serve-within_capacity imagen 2 60 64 busy refl (omega arith)

abbrev full : SlidingWindowLimiter
full = record { capacity = 2; window_seconds = 60; events = 1 ∷ 5 ∷ [] }

acquire_sleeps_once_example :
    (l' : SlidingWindowLimiter) × (acquire (20 ∷ 61 ∷ []) 0 full
      ≡ some (0 + (estimate_wait 20 full).0, l'))
    × IsValid l'
unfolding estimate_wait
acquire_sleeps_once_example =
    acquire_sleeps_once 20 61 0 full (record { bounded = omega arith; positive = omega arith })
      (omega arith)
