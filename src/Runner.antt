-- ===== src/Runner.antt =====
-- backend/app/services/jobs/runner.py: the runner that polls the job table and runs jobs as tasks, and
-- its sweep of the jobs that an earlier process left. A task is the id of its job and whether it is
-- done. `locked` says which rows another transaction holds; the exceptions' texts are parameters.
pub mod Slots
pub mod Sweep
mod Tests
use ai_multimodal_platform.Prelude.{
  ℕ, zero, suc, ◌+◌, ◌-◌, String, Bool, true, false, not, Option, none, some, List, [], ◌∷◌, ◌++◌,
  length, filter, find, map, take, sort_by, ltb, leb, ◌==◌, ◌&&◌, ◌||◌, if◌then◌else◌,
}
use ai_multimodal_platform.Prelude.Int.{ℤ, pos, ltb_ℤ}
use ai_multimodal_platform.Prelude.Result.{Result, ok, err, ◌>>=◌, ◌>>◌, fail_if}
use ai_multimodal_platform.Provider.{positive_part}
use ai_multimodal_platform.Job.{
  Job, JobState, pending, queued, polling, failed, Detail, Json, text, number, is_terminal, member,
  transition, InvalidTransitionError,
}
use ai_multimodal_platform.Job.Claim.{state_eq, save}
use ai_multimodal_platform.Pipeline.{Rows}

-- The messages of JobRunnerConfigError, and an exception of the state machine.
pub data RunnerError : Type 0 where
  concurrency_low poll_interval_negative shutdown_timeout_negative limit_low : RunnerError
  state : InvalidTransitionError → RunnerError

-- The fields of InProcessJobRunner that decide what it runs. `sweep_after` is in the clock's ticks.
pub record InProcessJobRunner : Type 0 where
  pub concurrency : ℕ
  pub sweep_after : ℕ
  pub active_tasks : List (ℕ × Bool)
  pub stopping : Bool

-- `__init__`, with the resolved concurrency and the three durations.
unfoldable pub new_runner : ℤ → ℤ → ℤ → ℕ → Result RunnerError InProcessJobRunner
new_runner concurrency poll_interval shutdown_timeout sweep_after = do
  fail_if (ltb_ℤ concurrency (pos 1)) concurrency_low
  fail_if (ltb_ℤ poll_interval (pos 0)) poll_interval_negative
  fail_if (ltb_ℤ shutdown_timeout (pos 0)) shutdown_timeout_negative
  ok (record {
    concurrency = positive_part concurrency;
    sweep_after = sweep_after;
    active_tasks = [];
    stopping = false;
  })

abbrev pub is_running : ℕ × Bool → Bool
is_running (id, done) = not done

-- `_discard_finished_tasks`
abbrev pub discard_finished_tasks : InProcessJobRunner → InProcessJobRunner
discard_finished_tasks runner = record runner {
  active_tasks = filter is_running runner.active_tasks;
}

-- A task ends, for whatever reason.
unfoldable pub finish_task : ℕ → InProcessJobRunner → InProcessJobRunner
finish_task id runner = record runner {
  active_tasks = map (λ t. if t.0 == id then (id, true) else t) runner.active_tasks;
}

-- `_spawn_job` of each id
abbrev pub spawn_jobs : List Job → List (ℕ × Bool) → List (ℕ × Bool)
spawn_jobs [] tasks = tasks
spawn_jobs (job ∷ jobs) tasks = spawn_jobs jobs ((job.id, false) ∷ tasks)

-- SELECT ... WHERE ... ORDER BY ... LIMIT limit FOR UPDATE SKIP LOCKED
abbrev pub select_jobs : (Job → Bool) → (Job → ℕ) → (ℕ → Bool) → ℕ → List Job → List Job
select_jobs asked key locked limit jobs =
    take limit
      (filter (λ j. not (locked j.id)) (sort_by (λ a b. leb (key a) (key b)) (filter asked jobs)))

abbrev pub is_waiting : Job → Bool
is_waiting job = state_eq job.state pending && not job.blocked

-- `_pick_pending_jobs` of `_pending_jobs_statement`
unfoldable pub pick_pending_jobs : (ℕ → Bool) → ℕ → List Job → Result RunnerError (List Job)
pick_pending_jobs locked limit jobs = do
  fail_if (ltb limit 1) limit_low
  ok (select_jobs is_waiting (λ j. j.created_at) locked limit jobs)

-- `vertex_operation_name is not None`
abbrev pub is_named : Option String → Bool
is_named none = false
is_named (some name) = true

-- `_is_resumable_polling_job`, and the condition of the query
abbrev pub is_resumable_polling_job : Job → Bool
is_resumable_polling_job job = state_eq job.state polling && is_named job.vertex_operation_name

-- `_pick_resumable_polling_jobs` of `_resumable_polling_jobs_statement`
unfoldable pub pick_resumable_polling_jobs :
    (ℕ → Bool) → ℕ → List Job → Result RunnerError (List Job)
pick_resumable_polling_jobs locked limit jobs = do
  fail_if (ltb limit 1) limit_low
  ok (select_jobs is_resumable_polling_job (λ j. j.updated_at) locked limit jobs)

-- The transaction of `poll_once`: each picked row is queued.
unfoldable pub queue_jobs : ℕ → List Job → List Job → Result RunnerError (List Job)
queue_jobs now [] jobs = ok jobs
queue_jobs now (job ∷ picked) jobs =
    elim (transition now job (member queued) (some (("runner", text "in-process") ∷ [])) none) [
      | err e ↦ err (state e)
      | ok queued_job ↦ queue_jobs now picked (save queued_job jobs)
    ]

-- A poll that has room: its transaction, and then its tasks.
abbrev pub after_queue :
    InProcessJobRunner
    → List Job
    → Result RunnerError (List Job)
    → InProcessJobRunner × Result RunnerError (ℕ × List Job)
after_queue runner picked (err e) = (runner, err e)
after_queue runner picked (ok jobs) = (
  record runner { active_tasks = spawn_jobs picked runner.active_tasks },
  ok (length picked, jobs),
)

abbrev pub after_pick :
    ℕ
    → InProcessJobRunner
    → List Job
    → Result RunnerError (List Job)
    → InProcessJobRunner × Result RunnerError (ℕ × List Job)
after_pick now runner jobs (err e) = (runner, err e)
after_pick now runner jobs (ok picked) = after_queue runner picked (queue_jobs now picked jobs)

-- `poll_once`: the runner, and the number of jobs with the table, or an exception.
unfoldable pub poll_once :
    (ℕ → Bool)
    → ℕ
    → List Job
    → InProcessJobRunner
    → InProcessJobRunner × Result RunnerError (ℕ × List Job)
unfolding pick_pending_jobs queue_jobs
poll_once locked now jobs runner =
    let active = discard_finished_tasks runner in
    let room = active.concurrency - length active.active_tasks in
    if runner.stopping
    then (runner, ok (0, jobs))
    else if room == 0
    then (active, ok (0, jobs))
    else after_pick now active jobs (pick_pending_jobs locked room jobs)

abbrev pub after_resumable :
    InProcessJobRunner → Result RunnerError (List Job) → InProcessJobRunner × Result RunnerError ℕ
after_resumable runner (err e) = (runner, err e)
after_resumable runner (ok picked) =
    (record runner { active_tasks = spawn_jobs picked runner.active_tasks }, ok (length picked))

-- `_schedule_resumable_polling_jobs`
unfoldable pub schedule_resumable_polling_jobs :
    (ℕ → Bool) → List Job → InProcessJobRunner → InProcessJobRunner × Result RunnerError ℕ
unfolding pick_resumable_polling_jobs
schedule_resumable_polling_jobs locked jobs runner =
    let active = discard_finished_tasks runner in
    let room = active.concurrency - length active.active_tasks in
    if runner.stopping
    then (runner, ok 0)
    else if room == 0
    then (active, ok 0)
    else after_resumable active (pick_resumable_polling_jobs locked room jobs)

-- `resume_polling_jobs`: an exception is logged, and counts as no job.
unfoldable pub resume_polling_jobs :
    (ℕ → Bool) → List Job → InProcessJobRunner → InProcessJobRunner × ℕ
unfolding schedule_resumable_polling_jobs
resume_polling_jobs locked jobs runner =
    let (runner', result) = schedule_resumable_polling_jobs locked jobs runner in
    (runner', elim result [ err e ↦ 0 | ok n ↦ n ])

-- `shutdown`: no later poll picks a job. The tasks that are left are awaited or cancelled.
unfoldable pub shutdown : InProcessJobRunner → InProcessJobRunner
shutdown runner = record runner { active_tasks = []; stopping = true }

module _ (isoformat : ℕ → String) where
  abbrev pub runner_error : String → String → ℕ → ℕ → Detail
  runner_error code message retry_count now =
      ("code", text code)
      ∷ ("message", text message)
      ∷ ("retry_count", number retry_count)
      ∷ ("last_attempt_at", text (isoformat now))
      ∷ []

  abbrev pub with_error : Detail → Job → Job
  with_error error job = record job { error = some error }

  abbrev pub orphan_error : ℕ → Job → Detail
  orphan_error now job =
      runner_error "orphaned_job" "Job was left in a non-terminal state after runner restart."
        job.attempts now

  -- `_orphaned_jobs_statement`, with `stale_before` the time less `older_than`.
  abbrev pub is_orphaned : ℕ → ℕ → Job → Bool
  is_orphaned now older_than job =
      not (is_terminal job.state)
      && ltb (job.updated_at + older_than) now
      && not (is_resumable_polling_job job)

  -- The loop's body for one row.
  unfoldable pub sweep_job : ℕ → Job → Result InvalidTransitionError (ℕ × Job)
  sweep_job now job =
      if is_terminal job.state
      then ok (0, job)
      else if is_resumable_polling_job job
      then ok (0, job)
      else (transition now (with_error (orphan_error now job) job) (member failed)
            (some (("reason", text "runner_startup_sweep") ∷ [])) (some now)
          >>= λ swept. ok (1, swept))

  -- The rows of the query are written on their own, so the order in which the loop meets them does not
  -- matter: it is the table's here.
  unfoldable pub sweep_jobs :
      (ℕ → Bool) → ℕ → ℕ → List Job → Result InvalidTransitionError (ℕ × List Job)
  unfolding sweep_job
  sweep_jobs locked now older_than [] = ok (0, [])
  sweep_jobs locked now older_than (job ∷ jobs) = do
    (n, job') ←
        (if is_orphaned now older_than job && not (locked job.id)
          then sweep_job now job
          else ok (0, job))
    (k, jobs') ← sweep_jobs locked now older_than jobs
    ok (n + k, job' ∷ jobs')

  -- `_sweep_orphaned_jobs`, on all the rows that its session could write.
  unfoldable pub sweep_orphaned_jobs :
      (ℕ → Bool) → ℕ → ℕ → Rows → Result InvalidTransitionError (ℕ × Rows)
  unfolding sweep_jobs
  sweep_orphaned_jobs locked now older_than rows = do
    (n, jobs) ← sweep_jobs locked now older_than rows.jobs
    ok (n, record rows { jobs = jobs })

  -- `_mark_job_failed` for the row that was read; `code` and `message` are the exception's.
  unfoldable pub mark_found_failed :
      String → String → ℕ → Option Job → List Job → Result InvalidTransitionError (List Job)
  mark_found_failed code message now none jobs = ok jobs
  mark_found_failed code message now (some job) jobs =
      if is_terminal job.state
      then ok jobs
      else (transition now (with_error (runner_error code message job.attempts now) job)
            (member failed) (some (("error", text code) ∷ [])) (some now)
          >>= λ job'. ok (save job' jobs))

  unfoldable pub mark_job_failed :
      String → String → ℕ → ℕ → List Job → Result InvalidTransitionError (List Job)
  unfolding mark_found_failed
  mark_job_failed code message now job_id jobs =
      mark_found_failed code message now (find (λ j. j.id == job_id) jobs) jobs
