-- ===== src/Handler/Steps.antt =====
-- The transactions that the handlers of backend/app/services/jobs/handlers.py share, and with_retry
-- around an attempt that writes rows. The sleeps between attempts are not modelled.
use ai_multimodal_platform.Prelude.{
  ℕ, zero, suc, ◌-◌, true, Option, none, some, List, [], ◌∷◌, ◌++◌, ltb, if◌then◌else◌,
}
use ai_multimodal_platform.Prelude.Result.{Result, ok, err, ◌>>=◌, ◌>>◌, fail_if}
use ai_multimodal_platform.Provider.{
  RetryPolicy, RetryConfigError, max_attempts_low, base_negative, max_delay_negative, is_retryable,
  default_retryable_status_codes, positive_part, is_negative,
}
use ai_multimodal_platform.Job.{
  Job, JobState, pending, queued, completed, Detail, text, Asset, member, transition,
}
use ai_multimodal_platform.Job.Claim.{state_eq}
use ai_multimodal_platform.Pipeline.{
  Rows, or_state, save_job, terminalize_rows, validate_execution_references,
}
use ai_multimodal_platform.Handler.{
  HandlerError, bad_policy, or_raised, World, Run, commit, ask, exc_of,
}

-- `transition(job, ...)` and the commit.
unfoldable pub move_to : ℕ → JobState → Option Detail → Job → Rows → Run Job
move_to now target detail job rows = commit rows (do
  moved_job ← or_raised (or_state (transition now job (member target) detail none))
  ok (moved_job, save_job moved_job rows))

-- A job that no worker queued is queued.
unfoldable pub queue_pending : ℕ → Job → Rows → Run Job
unfolding move_to
queue_pending now job rows =
    if state_eq job.state pending
    then move_to now queued (some (("runner", text "direct-handler") ∷ [])) job rows
    else (rows, ok job)

-- `validate_execution_references` of a handler
abbrev pub validated : Job → Rows → Run (Option Asset)
validated job rows = ask rows (or_raised (validate_execution_references job rows))

-- An attempt: the references, the counter and its commit, and the provider's answer. A failed
-- attempt keeps the counter that it committed.
abbrev pub after_check :
    {A : Type 0}
    → Job
    → Rows
    → Result HandlerError A
    → Result HandlerError (Option Asset)
    → Job × Rows × Result HandlerError A
after_check job rows answer (err e) = (job, rows, err e)
after_check job rows answer (ok asset) =
    let counted : Job = record job { attempts = suc job.attempts } in
    (counted, save_job counted rows, answer)

unfoldable pub attempt :
    {A : Type 0} → Job → Rows → Result HandlerError A → Job × Rows × Result HandlerError A
attempt job rows answer =
    after_check job rows answer (or_raised (validate_execution_references job rows))

-- The checks of the policy.
abbrev pub checked_policy : RetryPolicy → Result RetryConfigError (Unit {0})
checked_policy p =
    fail_if (ltb (positive_part p.max_attempts) 1) max_attempts_low
    >> (fail_if (is_negative p.base_delay_sec) base_negative
        >> fail_if (is_negative p.max_delay_sec) max_delay_negative)

abbrev pub after_policy : {A : Type 0} → Rows → Result RetryConfigError (Unit {0}) → Run A → Run A
after_policy rows (err e) run = (rows, err (bad_policy e))
after_policy rows (ok checked) run = run

module _ (world : World) where
  -- What follows an attempt, given what further attempts would give.
  abbrev pub after_attempt :
      {A : Type 0} → Job → Rows → Result HandlerError A → Run (Job × A) → Run (Job × A)
  after_attempt job rows (ok a) later = (rows, ok (job, a))
  after_attempt job rows (err e) later =
      if is_retryable default_retryable_status_codes (exc_of world e) then later else (rows, err e)

  abbrev pub last_attempt : {A : Type 0} → Job → Rows → Result HandlerError A → Run (Job × A)
  last_attempt job rows (ok a) = (rows, ok (job, a))
  last_attempt job rows (err e) = (rows, err e)

  -- The loop of `with_retry`: `left` attempts may follow number `n`.
  unfoldable pub attempt_from :
      {A : Type 0} → (ℕ → Result HandlerError A) → ℕ → ℕ → Job → Rows → Run (Job × A)
  unfolding attempt
  attempt_from call zero n job rows =
      let (job', rows', answer) = attempt job rows (call n) in last_attempt job' rows' answer
  attempt_from call (suc left) n job rows =
      let (job', rows', answer) = attempt job rows (call n) in
      let later = attempt_from call left (suc n) job' rows' in after_attempt job' rows' answer later

  unfoldable pub with_attempts :
      {A : Type 0} → (ℕ → Result HandlerError A) → Job → Rows → Run (Job × A)
  unfolding attempt_from
  with_attempts call job rows =
      let run = attempt_from call (positive_part world.policy.max_attempts - 1) 1 job rows in
      after_policy rows (checked_policy world.policy) run

  -- The last transaction: the assets, the end of the hold, and the job's completion.
  unfoldable pub complete : ℕ → List Asset → Job → Rows → Run Job
  complete now new_assets job rows = commit rows (do
    (result, rows') ← or_raised (
        terminalize_rows world.uuid job true none now
          (record rows { assets = rows.assets ++ new_assets }))
    done ← or_raised (or_state (transition now job (member completed) none none))
    ok (done, save_job done rows'))
