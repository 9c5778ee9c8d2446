-- ===== src/Credit/Policy/Cycles.antt =====
-- The billing cycles of `cycle_bounds` in backend/app/credit_policy.py.
use ai_multimodal_platform.Prelude.{ℕ, ◌+◌, ◌*◌, ◌≤◌, ◌<◌, ◌≡◌, arith}
use ai_multimodal_platform.Prelude.Result.{ok}
use ai_multimodal_platform.Credit.Policy.{CycleBounds, cycle_bounds, cycle_length, max_datetime}

-- The bounds that are returned are those of the one cycle that holds `now`: they start a whole
-- number `index` of cycle lengths after the signup, end one length later, and `now` is not before
-- the start and before the end, which `datetime` can represent.
pub cycle_bounds_hold :
    (signed_up_at now : ℕ) (b : CycleBounds)
    → cycle_bounds signed_up_at now ≡ ok b
    → (b.starts_at ≡ signed_up_at + b.index * cycle_length)
      × (b.ends_at ≡ b.starts_at + cycle_length)
      × (b.starts_at ≤ now)
      × (now < b.ends_at)
      × (b.ends_at ≤ max_datetime)
unfolding cycle_bounds
cycle_bounds_hold signed_up_at now b h = ground arith

-- Every instant inside a cycle has that cycle's bounds: cycles do not overlap.
pub cycle_bounds_stable :
    (signed_up_at now later : ℕ) (b : CycleBounds)
    → cycle_bounds signed_up_at now ≡ ok b
    → b.starts_at ≤ later
    → later < b.ends_at
    → cycle_bounds signed_up_at later ≡ ok b
unfolding cycle_bounds
cycle_bounds_stable signed_up_at now later b h p q = ground arith

-- The cycle after one that ends before the last representable cycle has the next index, and starts
-- where the one before ends: cycles leave no gap.
pub cycle_bounds_next :
    (signed_up_at now : ℕ) (b : CycleBounds)
    → cycle_bounds signed_up_at now ≡ ok b
    → b.ends_at + cycle_length ≤ max_datetime
    → (c : CycleBounds) × (cycle_bounds signed_up_at b.ends_at ≡ ok c)
      × (c.index ≡ b.index + 1)
      × (c.starts_at ≡ b.ends_at)
unfolding cycle_bounds
cycle_bounds_next signed_up_at now b h p = (
  record { index = b.index + 1; starts_at = b.ends_at; ends_at = b.ends_at + cycle_length },
  ground arith,
  ground arith,
  ground arith,
)
