-- ===== src/Usage.antt =====
-- backend/app/personal_usage.py: a user's plan, credits, live requests and usage, read in one savepoint
-- after the cycle that holds `now` was opened. A dictionary by meter is a function; instants and the
-- columns are naturals, so that `_integer` tests the upper bound alone.
pub mod Totals
pub mod Meters
pub mod View
mod Tests
use ai_multimodal_platform.Prelude.{
  ℕ, ◌+◌, ◌-◌, String, Bool, true, false, not, Option, none, some, List, [], ◌∷◌, length, map,
  filter, sort_by, ltb, leb, ◌==◌, ◌&&◌, ◌||◌, str_eq, if◌then◌else◌,
}
use ai_multimodal_platform.Prelude.Result.{Result, ok, err, ◌>>=◌, ◌>>◌, fail_if}
use ai_multimodal_platform.Credit.Code.{Code, credit_busy}
use ai_multimodal_platform.Credit.Policy.{
  Plan, PlanPolicy, plan_policy, Meter, gemini_input_token, gemini_output_token, imagen_fast_image,
  imagen_standard_image, imagen_ultra_image, veo_fast_ms, veo_standard_ms, meter_eq, meter_rank,
  is_meter, max_bigint, rate_card_version,
}
use ai_multimodal_platform.Credit.Tables.{
  Session, CreditGrant, CreditReservation, CreditUsageRecord, grants_of,
}
use ai_multimodal_platform.Credit.Lifecycle.Ensure.{CycleView, ensure_cycle}
use ai_multimodal_platform.Credit.Accounting.{is_held, held_of}

pub data PersonalUsageError : Type 0 where
  usage_transaction_required usage_unavailable usage_busy : PersonalUsageError

-- METER_UNITS
abbrev pub meter_units : List (Meter × String)
meter_units =
    (gemini_input_token, "token")
    ∷ (gemini_output_token, "token")
    ∷ (imagen_fast_image, "image")
    ∷ (imagen_standard_image, "image")
    ∷ (imagen_ultra_image, "image")
    ∷ (veo_fast_ms, "millisecond")
    ∷ (veo_standard_ms, "millisecond")
    ∷ []

pub record MeterUsageView : Type 0 where
  pub meter : Meter
  pub unit : String
  pub observed_units : ℕ
  pub charged_microcredits : ℕ

pub record CycleUsageView : Type 0 where
  pub index : ℕ
  pub starts_at : ℕ
  pub renews_at : ℕ
  pub allowance_microcredits : ℕ
  pub charged_microcredits : ℕ

pub record CreditBalanceView : Type 0 where
  pub available_microcredits : ℕ
  pub held_microcredits : ℕ

pub record ConcurrencyView : Type 0 where
  pub active_requests : ℕ
  pub limit : ℕ

pub record PersonalUsageView : Type 0 where
  pub plan : Plan
  pub pending_plan : Option Plan
  pub rate_card_version : String
  pub cycle : CycleUsageView
  pub credit : CreditBalanceView
  pub concurrency : ConcurrencyView
  pub usage : List MeterUsageView

-- `_integer`
unfoldable pub integer : ℕ → Result PersonalUsageError ℕ
integer value = fail_if (ltb max_bigint value) usage_unavailable >> ok value

-- `_add`
unfoldable pub add : ℕ → ℕ → Result PersonalUsageError ℕ
unfolding integer
add total value = do
  v ← integer value
  fail_if (ltb (max_bigint - v) total) usage_unavailable
  ok (total + v)

-- The columns of one grant: what is available of it, and what it holds.
unfoldable pub grant_parts : CreditGrant → Result PersonalUsageError (ℕ × ℕ)
unfolding integer add
grant_parts g = do
  granted ← integer g.granted_microcredits
  reserved ← integer g.reserved_microcredits
  consumed ← integer g.consumed_microcredits
  expired ← integer g.expired_microcredits
  used ← add reserved consumed
  spent ← add used expired
  fail_if (ltb granted spent) usage_unavailable
  ok (granted - spent, reserved)

-- The loop of `_grant_totals`
unfoldable pub grant_totals_from : ℕ → ℕ → List CreditGrant → Result PersonalUsageError (ℕ × ℕ)
unfolding add grant_parts
grant_totals_from available held [] = ok (available, held)
grant_totals_from available held (g ∷ grants) = do
  parts ← grant_parts g
  available' ← add available parts.0
  held' ← add held parts.1
  grant_totals_from available' held' grants

abbrev pub grant_totals : List CreditGrant → Result PersonalUsageError (ℕ × ℕ)
grant_totals grants = grant_totals_from 0 0 grants

-- `_reservation_totals`
unfoldable pub reservation_totals_from : ℕ → List CreditReservation → Result PersonalUsageError ℕ
unfolding add
reservation_totals_from held [] = ok held
reservation_totals_from held (r ∷ reservations) = do
  fail_if (not (is_held r.status)) usage_unavailable
  held' ← add held r.reserved_microcredits
  reservation_totals_from held' reservations

unfoldable pub reservation_totals : List CreditReservation → Result PersonalUsageError (ℕ × ℕ)
unfolding reservation_totals_from
reservation_totals reservations = do
  held ← reservation_totals_from 0 reservations
  ok (length reservations, held)

-- `totals`: the observed units and the charge of each meter.
abbrev pub Totals : Type 0
Totals = Meter → ℕ × ℕ

abbrev pub no_totals : Totals
no_totals meter = (0, 0)

abbrev pub put_total : Meter → ℕ × ℕ → Totals → Totals
put_total meter total totals m = if meter_eq m meter then total else totals m

abbrev pub is_known_delivery : String → Bool
is_known_delivery d = str_eq d "delivered" || str_eq d "partial" || str_eq d "no_deliverable"

-- The checks of one record: its units and its charge.
unfoldable pub record_parts : CreditUsageRecord → Result PersonalUsageError (ℕ × ℕ)
unfolding integer
record_parts r = do
  fail_if
      (not (is_meter r.meter)
        || not (str_eq r.rate_card_version rate_card_version)
        || not (is_known_delivery r.delivery))
      usage_unavailable
  observed ← integer r.actual_units
  charged ← integer r.charged_microcredits
  fail_if (str_eq r.delivery "no_deliverable" && not (charged == 0)) usage_unavailable
  ok (observed, charged)

-- The loop of `_usage_totals`
unfoldable pub usage_totals_from :
    Totals → ℕ → List CreditUsageRecord → Result PersonalUsageError (Totals × ℕ)
unfolding add record_parts
usage_totals_from totals charged_total [] = ok (totals, charged_total)
usage_totals_from totals charged_total (r ∷ records) = do
  parts ← record_parts r
  observed ← add (totals r.meter).0 parts.0
  charged ← add (totals r.meter).1 parts.1
  charged_total' ← add charged_total parts.1
  usage_totals_from (put_total r.meter (observed, charged) totals) charged_total' records

-- The views of `_usage_totals`
abbrev pub meter_view : Totals → Meter × String → MeterUsageView
meter_view totals row = record {
  meter = row.0;
  unit = row.1;
  observed_units = (totals row.0).0;
  charged_microcredits = (totals row.0).1;
}

unfoldable pub usage_totals :
    List CreditUsageRecord → Result PersonalUsageError (List MeterUsageView × ℕ)
unfolding usage_totals_from
usage_totals records = do
  (totals, charged_total) ← usage_totals_from no_totals 0 records
  ok (map (meter_view totals) meter_units, charged_total)

-- `except CreditLifecycleError`. The code of a missing key is of `change_plan`, which is not called.
abbrev pub lifecycle_error : Code → PersonalUsageError
lifecycle_error credit_busy = usage_busy
lifecycle_error _ = usage_unavailable

abbrev pub or_usage : {A : Type 0} → Result Code A → Result PersonalUsageError A
or_usage (ok a) = ok a
or_usage (err e) = err (lifecycle_error e)

-- `except ValueError` of `plan_policy`
abbrev pub or_unavailable : {A : Type 0} → Result Code A → Result PersonalUsageError A
or_unavailable (ok a) = ok a
or_unavailable (err e) = err usage_unavailable

-- ORDER BY created_at, id
abbrev pub reservation_before : CreditReservation → CreditReservation → Bool
reservation_before a b =
    ltb a.created_at b.created_at || (a.created_at == b.created_at && leb a.id b.id)

abbrev pub reservations_of : ℕ → Session → List CreditReservation
reservations_of uid s = sort_by reservation_before (held_of uid s)

-- ORDER BY meter, reservation_id
abbrev pub record_before : CreditUsageRecord → CreditUsageRecord → Bool
record_before a b =
    ltb (meter_rank a.meter) (meter_rank b.meter)
    || (meter_eq a.meter b.meter && leb a.reservation_id b.reservation_id)

-- The user's records since the start of the cycle.
unfoldable pub records_since : ℕ → ℕ → ℕ → Session → List CreditUsageRecord
records_since uid starts_at now s = sort_by record_before (
    filter (λ r. r.user_id == uid && leb starts_at r.recorded_at && leb r.recorded_at now)
      s.usage_records)

-- The value that `read_personal_usage` returns.
abbrev pub view_of :
    CycleView → PlanPolicy → ℕ × ℕ → ℕ × ℕ → List MeterUsageView × ℕ → ℕ → PersonalUsageView
view_of cycle policy grants reservations totals allowance = record {
  plan = cycle.plan;
  pending_plan = cycle.pending_plan;
  rate_card_version = rate_card_version;
  cycle = record {
    index = cycle.cycle_index;
    starts_at = cycle.starts_at;
    renews_at = cycle.ends_at;
    allowance_microcredits = allowance;
    charged_microcredits = totals.1;
  };
  credit = record { available_microcredits = grants.0; held_microcredits = grants.1 };
  concurrency = record { active_requests = reservations.0; limit = policy.max_concurrent_requests };
  usage = totals.0;
}

-- The checks, on the rows of the session in which the cycle was opened.
unfoldable pub read_view : ℕ → ℕ → CycleView → Session → Result PersonalUsageError PersonalUsageView
unfolding integer grant_totals_from reservation_totals usage_totals held_of
read_view uid now cycle s = do
  policy ← or_unavailable (plan_policy cycle.plan)
  grants ← grant_totals (grants_of uid s)
  reservations ← reservation_totals (reservations_of uid s)
  fail_if (not (grants.1 == reservations.1) || ltb policy.max_concurrent_requests reservations.0)
      usage_unavailable
  totals ← usage_totals (records_since uid cycle.starts_at now s)
  fail_if (ltb now cycle.starts_at || leb cycle.ends_at now) usage_unavailable
  allowance ← integer cycle.allowance_microcredits
  ok (view_of cycle policy grants reservations totals allowance)

-- `read_personal_usage`
unfoldable pub read_personal_usage :
    ℕ → ℕ → Session → Result PersonalUsageError (PersonalUsageView × Session)
unfolding read_view
read_personal_usage uid now s = do
  fail_if (not s.in_transaction) usage_transaction_required
  (cycle, s') ← or_usage (ensure_cycle uid now s)
  v ← read_view uid now cycle s'
  ok (v, s')
