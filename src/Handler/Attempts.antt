-- ===== src/Handler/Attempts.antt =====
-- How often a job of backend/app/services/jobs/handlers.py asks the provider.
use mathlib.Core.Path.{subst}
use ai_multimodal_platform.Prelude.{
  ℕ, zero, suc, ◌+◌, ◌-◌, ◌≤◌, ◌<◌, ◌≡◌, ◌⊎◌, refl, Option, arith, inl, inr, Bool-cases, ltb,
}
use ai_multimodal_platform.Prelude.Result.{Result, ok, err}
use ai_multimodal_platform.Provider.{
  RetryPolicy, RetryConfigError, positive_part, is_retryable, default_retryable_status_codes,
}
use ai_multimodal_platform.Job.{Job, Asset}
use ai_multimodal_platform.Pipeline.{Rows, validate_execution_references}
use ai_multimodal_platform.Handler.{HandlerError, or_raised, World, Run, exc_of}
use ai_multimodal_platform.Handler.Steps.{
  after_check, attempt, last_attempt, after_attempt, attempt_from, checked_policy, after_policy,
  with_attempts,
}

-- The counter of a job that an attempt succeeded for, from before the first attempt.
abbrev pub WithinAttempts : ℕ → Job → Job → Type 0
WithinAttempts limit before after =
    (before.attempts < after.attempts) × (after.attempts ≤ before.attempts + limit)

-- One attempt counts itself if it succeeds, and at most once.
IsCounted : {A : Type 0} → Job → Job × Rows × Result HandlerError A → Type 0
IsCounted {A} job (job', rows', r) =
    ((a : A) → r ≡ ok a → job'.attempts ≡ suc job.attempts)
    × (job'.attempts ≤ suc job.attempts)
    × (job.attempts ≤ job'.attempts)

after_check-IsCounted :
    {A : Type 0} (job : Job) (rows : Rows) (answer : Result HandlerError A)
    (check : Result HandlerError (Option Asset))
    → IsCounted job (after_check job rows answer check)
unfolding IsCounted
after_check-IsCounted job rows answer (err e) = ((λ a r. cc), omega arith, omega arith)
after_check-IsCounted job rows answer (ok asset) = ((λ a r. refl), omega arith, omega arith)

attempt-IsCounted :
    {A : Type 0} (job : Job) (rows : Rows) (answer : Result HandlerError A)
    → IsCounted job (attempt job rows answer)
unfolding attempt
attempt-IsCounted job rows answer =
    after_check-IsCounted job rows answer (or_raised (validate_execution_references job rows))

pub last_attempt-ok :
    {A : Type 0} (world : World) (job : Job) (rows : Rows) (answer : Result HandlerError A)
    (out : Rows × Job × A)
    → last_attempt world job rows answer ≡ (out.0, ok (out.1, out.2))
    → (answer ≡ ok out.2) × (job ≡ out.1)
last_attempt-ok world job rows (ok a) out h = (cc, cc)
last_attempt-ok world job rows (err e) out h = absurd cc

pub after_attempt-ok :
    {A : Type 0} (world : World) (job : Job) (rows : Rows) (answer : Result HandlerError A)
    (later : Run (Job × A)) (out : Rows × Job × A)
    → after_attempt world job rows answer later ≡ (out.0, ok (out.1, out.2))
    → ((answer ≡ ok out.2) × (job ≡ out.1)) ⊎ (later ≡ (out.0, ok (out.1, out.2)))
after_attempt-ok world job rows (ok a) later out h = inl (cc, cc)
after_attempt-ok world job rows (err e) later out h =
    elim (Bool-cases (is_retryable default_retryable_status_codes (exc_of world e))) [
      | inl t ↦ inr (rw t at h)
      | inr f ↦ let stopped = rw f at h in absurd cc
    ]

attempt_from-WithinAttempts :
    {A : Type 0} (world : World) (call : ℕ → Result HandlerError A) (left n : ℕ) (job : Job)
    (rows : Rows) (out : Rows × Job × A)
    → attempt_from world call left n job rows ≡ (out.0, ok (out.1, out.2))
    → WithinAttempts (suc left) job out.1
unfolding attempt_from IsCounted
attempt_from-WithinAttempts world call zero n job rows out h =
    let t = attempt job rows (call n) in
    let c = attempt-IsCounted job rows (call n) in
    let (answered, same) = last_attempt-ok world t.0 t.1 t.2 out h in
    let one = c.0 out.2 answered in
    subst (WithinAttempts 1 job) same (omega (arith, one), omega (arith, one))
attempt_from-WithinAttempts world call (suc left) n job rows out h =
    let t = attempt job rows (call n) in
    let c = attempt-IsCounted job rows (call n) in
    let later = attempt_from world call left (suc n) t.0 t.1 in
    elim (after_attempt-ok world t.0 t.1 t.2 later out h) [
      | inl (answered, same) ↦
          let one = c.0 out.2 answered in
          subst (WithinAttempts (suc (suc left)) job) same (omega (arith, one), omega (arith, one))
      | inr rest ↦
          let ih = attempt_from-WithinAttempts world call left (suc n) t.0 t.1 out rest in
          (omega (arith, ih.0, c.2), omega (arith, ih.1, c.1))
    ]

pub after_policy-ok :
    {A : Type 0} (rows : Rows) (check : Result RetryConfigError (Unit {0})) (run : Run (Job × A))
    (out : Rows × Job × A)
    → after_policy rows check run ≡ (out.0, ok (out.1, out.2))
    → (check ≡ ok tt) × (run ≡ (out.0, ok (out.1, out.2)))
after_policy-ok rows (err e) run out h = absurd cc
after_policy-ok rows (ok tt) run out h = (refl, h)

checked_policy-positive :
    (p : RetryPolicy) → checked_policy p ≡ ok tt → 0 < positive_part p.max_attempts
checked_policy-positive p h = elim (Bool-cases (ltb (positive_part p.max_attempts) 1)) [
  | inl e ↦ let refused = rw e at h in absurd cc
  | inr e ↦ ground (arith, e)
]

-- A provider call with retries that succeeds has counted at least one attempt on the job, and at
-- most as many as the policy allows, whatever the provider answers.
pub with_attempts-WithinAttempts :
    {A : Type 0} (world : World) (call : ℕ → Result HandlerError A) (job : Job) (rows : Rows)
    (out : Rows × Job × A)
    → with_attempts world call job rows ≡ (out.0, ok (out.1, out.2))
    → WithinAttempts (positive_part world.policy.max_attempts) job out.1
unfolding with_attempts
with_attempts-WithinAttempts world call job rows out h =
    let limit = positive_part world.policy.max_attempts in
    let run = attempt_from world call (limit - 1) 1 job rows in
    let (checked, done) = after_policy-ok rows (checked_policy world.policy) run out h in
    let within = attempt_from-WithinAttempts world call (limit - 1) 1 job rows out done in
    let positive = checked_policy-positive world.policy checked in
    (within.0, omega (arith, within.1, positive))
