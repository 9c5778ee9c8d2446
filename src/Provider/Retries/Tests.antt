-- ===== src/Provider/Retries/Tests.antt =====
-- A call that is rate limited once and then succeeds, under the default policy.
use ai_multimodal_platform.Prelude.{
  ℕ, ◌≤◌, ◌≡◌, refl, false, none, some, [], ◌∷◌, ◌⊎◌, ◌==◌, if◌then◌else◌,
}
use ai_multimodal_platform.Prelude.Int.{pos}
use ai_multimodal_platform.Prelude.Result.{Result, ok, err}
use ai_multimodal_platform.Provider.{
  RetryPolicy, Exc, Ended, retry_from, with_retry, RetryConfigError, default_retryable_status_codes,
}
use ai_multimodal_platform.Provider.Retries.{IsEnded, with_retry-IsEnded}

abbrev policy : RetryPolicy
policy = record { max_attempts = pos 3; base_delay_sec = pos 1; max_delay_sec = pos 20 }

abbrev rate_limited : Exc
rate_limited = record {
  retryable = false;
  status_code = none;
  code = some 429;
  status = none;
  response_status_code = none;
}

abbrev provider : ℕ → Result Exc ℕ
provider attempt = if attempt == 1 then err rate_limited else ok 5

retried :
    with_retry policy default_retryable_status_codes provider
    ≡ ok (record { outcome = ok 5; calls = 2; sleeps = 1 ∷ [] })
unfolding with_retry retry_from
retried = refl

with_retry-IsEnded_example :
    ((c : RetryConfigError) × (with_retry policy default_retryable_status_codes provider ≡ err c))
    ⊎ ((r : Ended ℕ) × (with_retry policy default_retryable_status_codes provider ≡ ok r)
        × IsEnded default_retryable_status_codes 20 provider 2 1 r
        × (r.calls ≤ 3))
with_retry-IsEnded_example = with_retry-IsEnded policy default_retryable_status_codes provider
