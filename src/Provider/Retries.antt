-- ===== src/Provider/Retries.antt =====
-- How often backend/app/services/vertex/retry.py calls, how long it sleeps, and what it returns.
mod Tests
use ai_multimodal_platform.Prelude.{
  ap, sym, ◌∙◌, ℕ, zero, suc, ◌+◌, ◌-◌, ◌≤◌, ◌≡◌, refl, Bool, true, false, List, [], ◌∷◌, length,
  All, arith, Bool-cases, ltb, not, inl, inr, ◌⊎◌, min,
}
use ai_multimodal_platform.Prelude.Int.{pos}
use ai_multimodal_platform.Prelude.Result.{Result, ok, err, Result-cases}
use ai_multimodal_platform.Provider.{
  RetryPolicy, max_attempts_low, base_negative, max_delay_negative, Exc, is_retryable,
  delay_for_attempt, Ended, retry_from, with_retry, RetryConfigError, after_call, at_once,
  after_sleep, is_negative, positive_part,
}

-- What `with_retry` promises: from the attempt `attempt` on, at most `left` + 1 calls and one sleep
-- between two calls, none longer than `max_delay`. The outcome is that of the last call, and an
-- error comes out only if it is not retryable or the attempts are used up.
pub record IsEnded {A : Type 0} (retryable : List ℕ) (max_delay : ℕ) (call : ℕ → Result Exc A)
    (left attempt : ℕ) (r : Ended A) : Type 0 where
  pub bounded : r.calls ≤ left + 1
  pub called : 1 ≤ r.calls
  pub slept : length r.sleeps + 1 ≡ r.calls
  pub short : All (λ s. s ≤ max_delay) r.sleeps
  pub last : r.outcome ≡ call (attempt + r.calls - 1)
  pub gave_up :
      (e : Exc) → r.outcome ≡ err e → (is_retryable retryable e ≡ false) ⊎ (r.calls ≡ left + 1)

retry_from-IsEnded :
    {A : Type 0} (retryable : List ℕ) (base max_delay : ℕ) (call : ℕ → Result Exc A)
    (left attempt : ℕ)
    → 1 ≤ attempt
    → IsEnded retryable max_delay call left attempt
        (retry_from retryable base max_delay call left attempt)
unfolding retry_from
retry_from-IsEnded retryable base max_delay call zero attempt h = record {
  bounded = omega arith;
  called = omega arith;
  slept = refl;
  short = tt;
  last = ap call (omega arith);
  gave_up = λ e q. inr refl;
}
retry_from-IsEnded retryable base max_delay call (suc left) attempt h =
    elim (Result-cases (call attempt)) [
      | inl (a, e1) ↦ rw e1 (record {
        bounded = omega arith;
        called = omega arith;
        slept = refl;
        short = tt;
        last = sym e1 ∙ ap call (omega arith);
        gave_up = λ e q. cc;
      })
      | inr (x, e1) ↦ elim (Bool-cases (is_retryable retryable x)) [
        | inr e2 ↦
            rw (e1, e2)
              (record {
                bounded = omega arith;
                called = omega arith;
                slept = refl;
                short = tt;
                last = sym e1 ∙ ap call (omega arith);
                gave_up = λ e q. inl (let same : x ≡ e = cc in rw (← same) e2);
              })
        | inl e2 ↦
            let rest =
              retry_from-IsEnded retryable base max_delay call left (suc attempt) (omega arith) in
            let bounded = rest.bounded in
            let called = rest.called in
            let slept = rest.slept in
            rw (e1, e2)
              (record {
                bounded = omega arith;
                called = omega arith;
                slept = omega arith;
                short = (omega arith, rest.short);
                last = rest.last ∙ ap call (omega arith);
                gave_up =
                    λ e q. elim (rest.gave_up e q) [ inl f ↦ inl f | inr g ↦ inr (omega arith) ];
              })
      ]
    ]

-- `with_retry` refuses its configuration, or it ends: after at most `max_attempts` calls, as
-- `IsEnded` says for the attempts from the first on.
pub with_retry-IsEnded :
    {A : Type 0} (p : RetryPolicy) (retryable : List ℕ) (call : ℕ → Result Exc A)
    → ((c : RetryConfigError) × (with_retry p retryable call ≡ err c))
      ⊎ ((r : Ended A) × (with_retry p retryable call ≡ ok r)
          × IsEnded retryable
              (positive_part p.max_delay_sec)
              call
              (positive_part p.max_attempts - 1)
              1
              r
          × (r.calls ≤ positive_part p.max_attempts))
unfolding with_retry
with_retry-IsEnded p retryable call =
    let base = positive_part p.base_delay_sec in
    let most = positive_part p.max_delay_sec in
    let left = positive_part p.max_attempts - 1 in
    let r = retry_from retryable base most call left 1 in
    let ended = retry_from-IsEnded retryable base most call left 1 (omega arith) in
    elim (Bool-cases (ltb (positive_part p.max_attempts) 1)) [
      | inl e1 ↦ inl (max_attempts_low, ground (arith, e1))
      | inr e1 ↦ elim (Bool-cases (is_negative p.base_delay_sec)) [
        | inl e2 ↦ inl (base_negative, ground (arith, e1, e2))
        | inr e2 ↦ elim (Bool-cases (is_negative p.max_delay_sec)) [
          | inl e3 ↦ inl (max_delay_negative, ground (arith, e1, e2, e3))
          | inr e3 ↦
              let bounded = ended.bounded in
              inr (r, ground (arith, e1, e2, e3), ended, ground (arith, e1, bounded))
        ]
      ]
    ]
