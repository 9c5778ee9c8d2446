-- ===== src/Credit/Code.antt =====
-- The codes that credit_policy.py, credit_lifecycle.py and credit_accounting.py raise. The three
-- exception classes carry nothing else; `key_error` is Python's own, of a missing dictionary key.
use ai_multimodal_platform.Prelude.Result.{Result, ok, err}

pub data Code : Type 0 where
  credit_plan_unknown credit_version_unknown credit_meter_unknown credit_units_invalid : Code
  credit_time_before_signup credit_time_overflow : Code
  credit_input_invalid credit_account_inconsistent credit_amount_overflow : Code
  credit_transaction_required credit_busy credit_user_missing credit_plan_refused : Code
  credit_clock_regressed credit_idempotency_conflict user_concurrency_limit : Code
  monthly_credit_exhausted credit_reservation_missing credit_reservation_state_conflict : Code
  credit_usage_exceeds_reservation key_error : Code

-- `except ValueError: raise ... code`
abbrev pub or_code : {A : Type 0} → Code → Result Code A → Result Code A
or_code code (ok a) = ok a
or_code code (err e) = err code

-- `"credit_amount_overflow" if str(error) == "credit_amount_overflow" else code`
abbrev pub keep_overflow : Code → Code → Code
keep_overflow code credit_amount_overflow = credit_amount_overflow
keep_overflow code _ = code

abbrev pub or_overflow : {A : Type 0} → Code → Result Code A → Result Code A
or_overflow code (ok a) = ok a
or_overflow code (err e) = err (keep_overflow code e)
