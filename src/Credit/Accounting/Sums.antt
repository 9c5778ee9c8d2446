-- ===== src/Credit/Accounting/Sums.antt =====
-- The checked sums of `_sum_amounts` in backend/app/credit_accounting.py.
use ai_multimodal_platform.Prelude.{ℕ, ◌+◌, ◌≤◌, ◌<◌, ◌≡◌, List, [], ◌∷◌, arith, inl, inr}
use ai_multimodal_platform.Prelude.Result.{ok, Result-cases}
use ai_multimodal_platform.Credit.Policy.{max_bigint}
use ai_multimodal_platform.Credit.Accounting.{sum_from, sum_amounts, sum_positive}

unfoldable pub sum : List ℕ → ℕ
sum [] = 0
sum (v ∷ vs) = v + sum vs

sum_from-exact :
    (total n : ℕ) (vs : List ℕ)
    → total ≤ max_bigint
    → sum_from total vs ≡ ok n
    → (n ≡ total + sum vs) × (n ≤ max_bigint)
unfolding sum_from sum
sum_from-exact total n [] b h = ground arith
sum_from-exact total n (v ∷ vs) b h = ground (arith, sum_from-exact (total + v) n vs)

-- A sum that is returned is the sum, and fits a 64-bit column.
pub sum_amounts-exact :
    (n : ℕ) (vs : List ℕ) → sum_amounts vs ≡ ok n → (n ≡ sum vs) × (n ≤ max_bigint)
unfolding sum_amounts
sum_amounts-exact n vs h = ground (arith, sum_from-exact 0 n vs)

pub sum_positive-exact :
    (n : ℕ) (vs : List ℕ) → sum_positive vs ≡ ok n → (n ≡ sum vs) × (n ≤ max_bigint) × (0 < n)
unfolding sum_positive
sum_positive-exact n vs h = elim (Result-cases (sum_amounts vs)) [
  | inr (c, e) ↦ absurd (ground (arith, e))
  | inl (m, e) ↦ ground (arith, e, sum_amounts-exact m vs e)
]
