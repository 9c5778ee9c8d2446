-- ===== src/Credit/Policy.antt =====
-- backend/app/credit_policy.py: plans, rates and cycles.
-- A text that is compared with a fixed set of names is an enumeration with one more constructor for
-- any other text. An instant is the number of microseconds since `datetime.min` in UTC.
pub mod Quotes
pub mod Cycles
use ai_multimodal_platform.Prelude.{
  ℕ, ◌+◌, ◌*◌, ◌-◌, ◌/◌, String, Bool, true, false, not, Option, none, some, ltb, leb, ◌==◌, str_eq,
  ◌||◌, if◌then◌else◌,
}
use ai_multimodal_platform.Prelude.Int.{ℤ, pos, negsuc}
use ai_multimodal_platform.Prelude.Result.{Result, ok, err, ◌>>=◌, ◌>>◌, fail_if, or_fail}
use ai_multimodal_platform.Credit.Code.{
  Code, credit_plan_unknown, credit_version_unknown, credit_meter_unknown, credit_units_invalid,
  credit_amount_overflow, credit_time_before_signup, credit_time_overflow,
}

abbrev pub microcredits_per_credit : ℕ
microcredits_per_credit = 1_000_000

abbrev pub rate_card_version : String
rate_card_version = "v1"

-- 2 ** 63 - 1
abbrev pub max_bigint : ℕ
max_bigint = 9_223_372_036_854_775_807

-- 2_592_000 seconds
abbrev pub cycle_length : ℕ
cycle_length = 2_592_000_000_000

-- `datetime.max`
abbrev pub max_datetime : ℕ
max_datetime = 315_537_897_599_999_999

-- The meters, in the order of their names.
pub data Meter : Type 0 where
  gemini_input_token gemini_output_token imagen_fast_image imagen_standard_image : Meter
  imagen_ultra_image veo_fast_ms veo_standard_ms : Meter
  other : ℕ → Meter

-- Where a meter's name sorts.
abbrev pub meter_rank : Meter → ℕ
meter_rank gemini_input_token = 0
meter_rank gemini_output_token = 1
meter_rank imagen_fast_image = 2
meter_rank imagen_standard_image = 3
meter_rank imagen_ultra_image = 4
meter_rank veo_fast_ms = 5
meter_rank veo_standard_ms = 6
meter_rank (other n) = 7 + n

abbrev pub meter_eq : Meter → Meter → Bool
meter_eq a b = meter_rank a == meter_rank b

-- `_RATES`
abbrev pub rate? : Meter → Option ℕ
rate? gemini_input_token = some 1000
rate? gemini_output_token = some 4000
rate? imagen_fast_image = some 50_000_000
rate? imagen_standard_image = some 100_000_000
rate? imagen_ultra_image = some 200_000_000
rate? veo_fast_ms = some 60_000
rate? veo_standard_ms = some 120_000
rate? (other n) = none

-- `meter in _METERS`
abbrev pub is_meter : Meter → Bool
is_meter m = elim (rate? m) [ none ↦ false | some r ↦ true ]

pub data Plan : Type 0 where
  free pro max : Plan
  unknown : ℕ → Plan

pub record PlanPolicy : Type 0 where
  pub allowance_microcredits : ℕ
  pub permits : Meter → Bool
  pub max_images : ℕ
  pub max_video_seconds : ℕ
  pub max_concurrent_requests : ℕ

abbrev permits_free : Meter → Bool
permits_free imagen_standard_image = false
permits_free imagen_ultra_image = false
permits_free veo_standard_ms = false
permits_free m = is_meter m

abbrev permits_pro : Meter → Bool
permits_pro imagen_ultra_image = false
permits_pro veo_standard_ms = false
permits_pro m = is_meter m

unfoldable pub plan_policy : Plan → Result Code PlanPolicy
plan_policy free = ok (record {
  allowance_microcredits = 1000 * microcredits_per_credit;
  permits = permits_free;
  max_images = 1;
  max_video_seconds = 4;
  max_concurrent_requests = 1;
})
plan_policy pro = ok (record {
  allowance_microcredits = 10000 * microcredits_per_credit;
  permits = permits_pro;
  max_images = 4;
  max_video_seconds = 8;
  max_concurrent_requests = 3;
})
plan_policy max = ok (record {
  allowance_microcredits = 50000 * microcredits_per_credit;
  permits = is_meter;
  max_images = 4;
  max_video_seconds = 8;
  max_concurrent_requests = 5;
})
plan_policy (unknown n) = err credit_plan_unknown

-- `0 <= units <= _MAX_BIGINT`
abbrev pub units_of : ℤ → Option ℕ
units_of (pos n) = if leb n max_bigint then some n else none
units_of (negsuc n) = none

unfoldable pub quote_usage : String → Meter → ℤ → Result Code ℕ
quote_usage version meter units = do
  fail_if (not (str_eq version rate_card_version)) credit_version_unknown
  rate ← or_fail (rate? meter) credit_meter_unknown
  n ← or_fail (units_of units) credit_units_invalid
  fail_if (ltb max_bigint (n * rate)) credit_amount_overflow
  ok (n * rate)

pub record CycleBounds : Type 0 where
  pub index : ℕ
  pub starts_at : ℕ
  pub ends_at : ℕ

unfoldable pub cycle_bounds : ℕ → ℕ → Result Code CycleBounds
cycle_bounds signed_up_at now = do
  fail_if (ltb now signed_up_at) credit_time_before_signup
  let index = (now - signed_up_at) / cycle_length
  let start = signed_up_at + index * cycle_length
  fail_if (ltb max_datetime (start + cycle_length)) credit_time_overflow
  ok (record { index = index; starts_at = start; ends_at = start + cycle_length })
