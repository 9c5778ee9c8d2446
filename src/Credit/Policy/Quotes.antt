-- ===== src/Credit/Policy/Quotes.antt =====
-- The prices of `quote_usage` in backend/app/credit_policy.py.
use ai_multimodal_platform.Prelude.{
  refl, inl, inr, Option-cases, ℕ, ◌*◌, ◌≤◌, ◌≡◌, arith, some, eq_iff, String, ◌↔◌,
}
use ai_multimodal_platform.Prelude.Int.{ℤ, pos, negsuc}
use ai_multimodal_platform.Prelude.Result.{ok}
use ai_multimodal_platform.Credit.Policy.{
  Meter, rate?, quote_usage, max_bigint, rate_card_version, meter_rank,
}

-- A quote is the units times the rate of the meter, fits the ledger's 64-bit column, and is given
-- only for the current rate card and for a number of units from 0 on.
pub quote_usage_exact :
    (version : String) (meter : Meter) (units : ℤ) (amount : ℕ)
    → quote_usage version meter units ≡ ok amount
    → (n : ℕ) × (rate : ℕ) × (version ≡ rate_card_version)
      × (units ≡ pos n)
      × (rate? meter ≡ some rate)
      × (amount ≡ n * rate)
      × (amount ≤ max_bigint)
unfolding quote_usage
quote_usage_exact version meter (negsuc n) amount h = ground arith
quote_usage_exact version meter (pos n) amount h = elim (Option-cases (rate? meter)) [
  | inl e ↦ ground arith
  | inr (rate, e) ↦ (
    n,
    rate,
    ground (arith, eq_iff version rate_card_version),
    refl,
    e,
    ground arith,
    ground arith,
  )
]

-- The other direction: at the current version, for a known meter, every number of units whose price
-- fits is quoted.
pub quote_usage_complete :
    (meter : Meter) (n rate : ℕ)
    → rate? meter ≡ some rate
    → n ≤ max_bigint
    → n * rate ≤ max_bigint
    → quote_usage rate_card_version meter (pos n) ≡ ok (n * rate)
unfolding quote_usage
quote_usage_complete meter n rate e fits price =
    ground (arith, eq_iff rate_card_version rate_card_version)

-- Equal ranks are equal meters, so sorting by rank is sorting by name.
pub meter_rank-injective : (a b : Meter) → meter_rank a ≡ meter_rank b → a ≡ b
meter_rank-injective a b h = ground arith

rate?-positive : (m : Meter) (r : ℕ) → rate? m ≡ some r → 1000 ≤ r
rate?-positive m r h = ground arith

-- A quote that is given for `n` units is zero exactly when `n` is zero.
pub quote_usage_zero :
    (version : String) (meter : Meter) (n amount : ℕ)
    → quote_usage version meter (pos n) ≡ ok amount
    → (amount ≡ 0) ↔ (n ≡ 0)
quote_usage_zero version meter n amount h =
    let (m, rate, v, same, r, exact, fits) = quote_usage_exact version meter (pos n) amount h in
    let big = rate?-positive meter rate r in
    let eq : amount ≡ n * rate = ground arith in (λ z. grind arith, λ z. ground arith)
