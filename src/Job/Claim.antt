-- ===== src/Job/Claim.antt =====
-- How a worker takes a job: backend/app/services/jobs/tasks.py. The table is a list of rows.
-- `locked` says which rows another transaction holds (SKIP LOCKED).
use ai_multimodal_platform.Prelude.{
  ap, sym, ◌∙◌, ℕ, suc, ◌+◌, ◌≤◌, ◌≡◌, refl, Bool, true, false, Option, none, some, List, [], ◌∷◌,
  ◌++◌, any, String, str_eq, if◌then◌else◌, not, Bool-cases, arith, length, ◌⊎◌, inl, inr, filter,
  map, find, ltb, ◌==◌, ◌&&◌, ◌||◌, All,
}
use ai_multimodal_platform.Prelude.Result.{Result, ok, err, ◌>>=◌, ◌>>◌, fail_if, Result-cases}
use ai_multimodal_platform.Job.State.{
  JobState, pending, enhancing, queued, generating, polling, downloading, completed, failed,
  cancelled, Job, HistoryEntry, Detail, Json, text, number, GenerationMode, t2i, t2v, i2v,
}
use ai_multimodal_platform.Job.Machine.{
  value, states, is_terminal, allows, InvalidTransitionError, StateArg, member, named, transition,
  moved, at_or,
}
pub mod Once

-- The `reason` of a ProcessJobResult.
pub data Reason : Type 0 where
  invalid_job_id : Reason
  missing : Reason
  terminal : Reason
  blocked : Reason
  not_pending : Reason
  resumed_polling : Reason
  claimed : Reason

pub record ProcessJobResult : Type 0 where
  pub job_id : Option ℕ
  pub executed : Bool
  pub reason : Reason
  pub previous_state : Option JobState
  pub claimed_state : Option JobState

abbrev pub state_eq : JobState → JobState → Bool
state_eq s t = str_eq (value s) (value t)

abbrev pub is_video : GenerationMode → Bool
is_video t2i = false
is_video t2v = true
is_video i2v = true

-- `bool(name)` of an optional text
abbrev pub is_nonempty : Option String → Bool
is_nonempty none = false
is_nonempty (some name) = not (str_eq name "")

-- `_is_resumable_polling_job`
abbrev pub is_resumable_polling_job : Job → Bool
is_resumable_polling_job job =
    is_video job.mode && state_eq job.state polling && is_nonempty job.vertex_operation_name

-- The row that `with_for_update(skip_locked=True)` selects, and the write of the row on commit.
abbrev pub claim_row : (ℕ → Bool) → ℕ → List Job → Option Job
claim_row locked id jobs = if locked id then none else find (λ j. j.id == id) jobs

abbrev pub save : Job → List Job → List Job
save job jobs = map (λ j. if j.id == job.id then job else j) jobs

abbrev pub refusal : ℕ → Reason → Option JobState → ProcessJobResult
refusal id why previous = record {
  job_id = some id;
  executed = false;
  reason = why;
  previous_state = previous;
  claimed_state = none;
}

abbrev pub execution : Job → Reason → JobState → ProcessJobResult
execution job why claimed_state = record {
  job_id = some job.id;
  executed = true;
  reason = why;
  previous_state = some job.state;
  claimed_state = some claimed_state;
}

-- The transaction on the row that was found: its result and the table that it commits.
unfoldable pub claim_job :
    ℕ → Job → List Job → Result InvalidTransitionError (ProcessJobResult × List Job)
claim_job now job jobs =
    if is_terminal job.state
    then ok (refusal job.id terminal (some job.state), jobs)
    else if job.blocked
    then ok (refusal job.id blocked (some job.state), jobs)
    else if is_resumable_polling_job job
    then ok (execution job resumed_polling polling, jobs)
    else if not (state_eq job.state pending)
    then ok (refusal job.id not_pending (some job.state), jobs)
    else (transition now job (member queued) (some (("runner", text "celery") ∷ [])) none
        >>= λ job'. ok (execution job claimed queued, save job' jobs))

abbrev pub claim_found :
    ℕ → ℕ → Option Job → List Job → Result InvalidTransitionError (ProcessJobResult × List Job)
claim_found now id none jobs = ok (refusal id missing none, jobs)
claim_found now id (some job) jobs = claim_job now job jobs

unfoldable pub claim :
    (ℕ → Bool) → ℕ → ℕ → List Job → Result InvalidTransitionError (ProcessJobResult × List Job)
claim locked now id jobs = claim_found now id (claim_row locked id jobs) jobs

-- `parse` is `uuid.UUID`. `handler` is the handler of the job, which runs after the commit: it
-- returns the exception that it raises, if any, and the table that it leaves. `raised` says which
-- exception of the handler's type an InvalidTransitionError is.
module _ {E : Type 0} (parse : String → Option ℕ) (handler : ℕ → List Job → Option E × List Job)
    (raised : InvalidTransitionError → E) where
  abbrev pub handled : ProcessJobResult → Option E × List Job → Result E ProcessJobResult × List Job
  handled result (none, jobs) = (ok result, jobs)
  handled result (some e, jobs) = (err e, jobs)

  abbrev pub after_claim :
      List Job
      → ℕ
      → Result InvalidTransitionError (ProcessJobResult × List Job)
      → Result E ProcessJobResult × List Job
  after_claim before id (err e) = (err (raised e), before)
  after_claim before id (ok (result, jobs)) =
      if result.executed then handled result (handler id jobs) else (ok result, jobs)

  abbrev pub process_parsed :
      (ℕ → Bool) → ℕ → Option ℕ → List Job → Result E ProcessJobResult × List Job
  process_parsed locked now none jobs = (
    ok (record {
      job_id = none;
      executed = false;
      reason = invalid_job_id;
      previous_state = none;
      claimed_state = none;
    }),
    jobs,
  )
  process_parsed locked now (some id) jobs = after_claim jobs id (claim locked now id jobs)

  unfoldable pub process_job_async :
      (ℕ → Bool) → ℕ → String → List Job → Result E ProcessJobResult × List Job
  process_job_async locked now job_id jobs = process_parsed locked now (parse job_id) jobs
