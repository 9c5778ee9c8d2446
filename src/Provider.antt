-- ===== src/Provider.antt =====
-- The retries of provider calls: backend/app/services/vertex/retry.py. Seconds are exact ticks. The
-- calls that `awaitable_factory` makes are their outcomes, in order, by the number of the attempt.
pub mod Retries
pub mod Errors
use ai_multimodal_platform.Prelude.{
  ℕ, zero, suc, ◌+◌, ◌-◌, ◌*◌, ◌^◌, min, Bool, true, false, Option, none, some, List, [], ◌∷◌, any,
  ltb, leb, ◌==◌, if◌then◌else◌, not,
}
use ai_multimodal_platform.Prelude.Int.{ℤ, pos, negsuc}
use ai_multimodal_platform.Prelude.Result.{Result, ok, err, ◌>>=◌, ◌>>◌, fail_if}

pub record RetryPolicy : Type 0 where
  pub max_attempts : ℤ
  pub base_delay_sec : ℤ
  pub max_delay_sec : ℤ

abbrev pub default_retryable_status_codes : List ℕ
default_retryable_status_codes = 429 ∷ 500 ∷ 502 ∷ 503 ∷ 504 ∷ 408 ∷ []

-- What the code reads of an exception: whether `retryable` is True, and the integers among its
-- attributes.
pub record Exc : Type 0 where
  pub retryable : Bool
  pub status_code : Option ℕ
  pub code : Option ℕ
  pub status : Option ℕ
  pub response_status_code : Option ℕ

abbrev pub first_of : Option ℕ → Option ℕ → Option ℕ
first_of none b = b
first_of (some a) b = some a

-- `_extract_status_code`
abbrev pub extract_status_code : Exc → Option ℕ
extract_status_code e =
    first_of e.status_code (first_of e.code (first_of e.status e.response_status_code))

-- `_is_retryable`
abbrev pub is_retryable : List ℕ → Exc → Bool
is_retryable retryable_statuses e = if e.retryable then true else elim (extract_status_code e) [
  | none ↦ false
  | some code ↦ any (λ c. c == code) retryable_statuses
]

-- `_delay_for_attempt`
abbrev pub delay_for_attempt : ℕ → ℕ → ℕ → ℕ
delay_for_attempt attempt base max_delay = min max_delay (base * 2 ^ (attempt - 1))

-- The end of `with_retry`: the last outcome, the calls made and the sleeps between them.
pub record Ended (A : Type 0) : Type 0 where
  pub outcome : Result Exc A
  pub calls : ℕ
  pub sleeps : List ℕ

abbrev pub after_sleep : {A : Type 0} → ℕ → Ended A → Ended A
after_sleep delay r = record { outcome = r.outcome; calls = suc r.calls; sleeps = delay ∷ r.sleeps }

abbrev pub at_once : {A : Type 0} → Result Exc A → Ended A
at_once o = record { outcome = o; calls = 1; sleeps = [] }

pub data RetryConfigError : Type 0 where
  max_attempts_low base_negative max_delay_negative : RetryConfigError

module _ {A : Type 0} (retryable : List ℕ) (base max_delay : ℕ) (call : ℕ → Result Exc A) where
  -- What follows the outcome of one attempt, given what further attempts would give.
  abbrev pub after_call : ℕ → Result Exc A → Ended A → Ended A
  after_call attempt (ok a) later = at_once (ok a)
  after_call attempt (err e) later =
      if is_retryable retryable e
      then after_sleep (delay_for_attempt attempt base max_delay) later
      else at_once (err e)

  -- The loop, by the number of attempts that are left after this one.
  unfoldable pub retry_from : ℕ → ℕ → Ended A
  retry_from zero attempt = at_once (call attempt)
  retry_from (suc left) attempt =
      let later = retry_from left (suc attempt) in after_call attempt (call attempt) later

abbrev pub positive_part : ℤ → ℕ
positive_part (pos n) = n
positive_part (negsuc n) = 0

abbrev pub is_negative : ℤ → Bool
is_negative (pos n) = false
is_negative (negsuc n) = true

unfoldable pub with_retry :
    {A : Type 0} → RetryPolicy → List ℕ → (ℕ → Result Exc A) → Result RetryConfigError (Ended A)
with_retry p retryable call =
    fail_if (ltb (positive_part p.max_attempts) 1) max_attempts_low
    >> (fail_if (is_negative p.base_delay_sec) base_negative
        >> (fail_if (is_negative p.max_delay_sec) max_delay_negative
            >> ok (
                retry_from retryable (positive_part p.base_delay_sec)
                  (positive_part p.max_delay_sec) call (positive_part p.max_attempts - 1) 1)))
