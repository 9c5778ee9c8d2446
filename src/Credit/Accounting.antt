-- ===== src/Credit/Accounting.antt =====
-- backend/app/credit_accounting.py: holds on a user's grants and their settlement. This file has the checked
-- inputs, the sums and the queries; the children have the checks and the operations.
pub mod Check
pub mod Coherence
pub mod Sums
pub mod Reserve
pub mod Terminal
use ai_multimodal_platform.Prelude.{
  ℕ, zero, suc, ◌+◌, String, Bool, true, false, not, Option, none, some, List, [], ◌∷◌, ◌++◌,
  length, filter, find, any, sort_by, ltb, leb, ◌==◌, str_eq, ◌&&◌, ◌||◌, if◌then◌else◌,
}
use ai_multimodal_platform.Prelude.Int.{ℤ, pos, negsuc}
use ai_multimodal_platform.Prelude.Result.{Result, ok, err, ◌>>=◌, ◌>>◌, fail_if, or_fail}
use ai_multimodal_platform.Credit.Code.{
  Code, credit_input_invalid, credit_account_inconsistent, credit_amount_overflow,
  credit_transaction_required, credit_busy, credit_user_missing, credit_plan_refused,
  credit_clock_regressed, credit_idempotency_conflict,
}
use ai_multimodal_platform.Credit.Policy.{Meter, meter_rank, meter_eq, is_meter, max_bigint}
use ai_multimodal_platform.Credit.Tables.{
  Session, CreditReservation, CreditReservationItem, CreditReservationAllocation, CreditUsageRecord,
  ReservationStatus, held,
}

-- `UsageEstimate` and `UsageLine` as a caller gives them: the number of units is any integer.
pub record RawEstimate : Type 0 where
  pub meter : Meter
  pub maximum_units : ℤ

pub record RawLine : Type 0 where
  pub meter : Meter
  pub actual_units : ℤ
  pub source : String

-- The same after the checks.
pub record UsageEstimate : Type 0 where
  pub meter : Meter
  pub maximum_units : ℕ

pub record UsageLine : Type 0 where
  pub meter : Meter
  pub actual_units : ℕ
  pub source : String

-- `len(_METERS)`
abbrev pub meter_count : ℕ
meter_count = 7

abbrev pub is_source : String → Bool
is_source s =
    str_eq s "provider_reported"
    || str_eq s "platform_measured"
    || str_eq s "mock_estimate"
    || str_eq s "estimated"

abbrev pub is_delivery : String → Bool
is_delivery s = str_eq s "delivered" || str_eq s "partial"

abbrev pub is_reason : String → Bool
is_reason s =
    str_eq s "provider_failed"
    || str_eq s "provider_timeout"
    || str_eq s "provider_rate_limited"
    || str_eq s "cancelled_before_delivery"
    || str_eq s "delivery_failed"

-- `_units`
unfoldable pub units : ℕ → ℤ → Result Code ℕ
units least (negsuc n) = err credit_input_invalid
units least (pos n) = do fail_if (ltb n least || ltb max_bigint n) credit_input_invalid; ok n

-- The loop of `_estimates`; `seen` holds the meters so far.
unfoldable pub check_estimates : List RawEstimate → List Meter → Result Code (List UsageEstimate)
unfolding units
check_estimates [] seen = ok []
check_estimates (l ∷ ls) seen = do
  fail_if (not (is_meter l.meter)) credit_input_invalid
  fail_if (any (meter_eq l.meter) seen) credit_input_invalid
  n ← units 1 l.maximum_units
  rest ← check_estimates ls (l.meter ∷ seen)
  ok (record { meter = l.meter; maximum_units = n } ∷ rest)

abbrev pub estimate_before : UsageEstimate → UsageEstimate → Bool
estimate_before a b = leb (meter_rank a.meter) (meter_rank b.meter)

-- `_estimates`
unfoldable pub estimates : List RawEstimate → Result Code (List UsageEstimate)
unfolding check_estimates
estimates ls = do
  fail_if (ltb (length ls) 1 || ltb meter_count (length ls)) credit_input_invalid
  es ← check_estimates ls []
  ok (sort_by estimate_before es)

unfoldable pub check_lines : List RawLine → List Meter → Result Code (List UsageLine)
unfolding units
check_lines [] seen = ok []
check_lines (l ∷ ls) seen = do
  fail_if (not (is_meter l.meter)) credit_input_invalid
  fail_if (not (is_source l.source)) credit_input_invalid
  fail_if (any (meter_eq l.meter) seen) credit_input_invalid
  n ← units 0 l.actual_units
  rest ← check_lines ls (l.meter ∷ seen)
  ok (record { meter = l.meter; actual_units = n; source = l.source } ∷ rest)

abbrev pub line_before : UsageLine → UsageLine → Bool
line_before a b = leb (meter_rank a.meter) (meter_rank b.meter)

-- `_usage`
unfoldable pub usage : Bool → List RawLine → Result Code (List UsageLine)
unfolding check_lines
usage allow_empty ls = do
  fail_if (not allow_empty && ltb (length ls) 1 || ltb meter_count (length ls)) credit_input_invalid
  us ← check_lines ls []
  ok (sort_by line_before us)

-- `_amount` of a column that is not negative.
abbrev pub amount : ℕ → Result Code ℕ
amount n = fail_if (ltb max_bigint n) credit_account_inconsistent >> ok n

-- The loop of `_sum_amounts`.
unfoldable pub sum_from : ℕ → List ℕ → Result Code ℕ
sum_from total [] = ok total
sum_from total (v ∷ vs) = do
  n ← amount v
  fail_if (ltb max_bigint (total + n)) credit_amount_overflow
  sum_from (total + n) vs

unfoldable pub sum_amounts : List ℕ → Result Code ℕ
unfolding sum_from
sum_amounts vs = sum_from 0 vs

-- `_sum_amounts(..., positive=True)`
unfoldable pub sum_positive : List ℕ → Result Code ℕ
unfolding sum_amounts
sum_positive vs = do total ← sum_amounts vs; fail_if (ltb total 1) credit_input_invalid; ok total

-- `_lifecycle_error`. A plain ValueError or KeyError is not caught there.
abbrev pub lifecycle_code : Code → Code
lifecycle_code credit_clock_regressed = credit_account_inconsistent
lifecycle_code credit_idempotency_conflict = credit_account_inconsistent
lifecycle_code c = c

abbrev pub or_lifecycle : {A : Type 0} → Result Code A → Result Code A
or_lifecycle (ok a) = ok a
or_lifecycle (err e) = err (lifecycle_code e)

-- Queries.
abbrev item_before : CreditReservationItem → CreditReservationItem → Bool
item_before a b = leb (meter_rank a.meter) (meter_rank b.meter)

-- `_reservation_items`
unfoldable pub items_of : ℕ → Session → List CreditReservationItem
items_of rid s = sort_by item_before (filter (λ i. i.reservation_id == rid) s.items)

abbrev allocation_before : CreditReservationAllocation → CreditReservationAllocation → Bool
allocation_before a b = leb a.ordinal b.ordinal

unfoldable pub allocations_of : ℕ → Session → List CreditReservationAllocation
allocations_of rid s =
    sort_by allocation_before (filter (λ a. a.reservation_id == rid) s.allocations)

abbrev record_before : CreditUsageRecord → CreditUsageRecord → Bool
record_before a b = leb (meter_rank a.meter) (meter_rank b.meter)

unfoldable pub records_of : ℕ → Session → List CreditUsageRecord
records_of rid s = sort_by record_before (filter (λ r. r.reservation_id == rid) s.usage_records)

abbrev pub is_held : ReservationStatus → Bool
is_held held = true
is_held _ = false

-- The user's live holds; the order in which the source lists them is not used.
unfoldable pub held_of : ℕ → Session → List CreditReservation
held_of uid s = filter (λ r. r.user_id == uid && is_held r.status) s.reservations
