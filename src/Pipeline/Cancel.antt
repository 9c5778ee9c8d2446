-- ===== src/Pipeline/Cancel.antt =====
-- backend/app/master_work.py: the work of a suspended user that no worker has seen.
pub mod Scan
pub mod Selection
pub mod Outcome
use ai_multimodal_platform.Prelude.{
  ℕ, String, Bool, true, false, not, Option, none, some, List, [], ◌∷◌, length, filter, find, any,
  map, take, sort_by, ltb, leb, ◌==◌, ◌&&◌, ◌||◌, if◌then◌else◌,
}
use ai_multimodal_platform.Prelude.Result.{Result, ok, err, ◌>>=◌, ◌>>◌, fail_if, or_fail}
use ai_multimodal_platform.Credit.Tables.{User, UserStatus, user_of}
use ai_multimodal_platform.Outbox.{OutboxEvent, OutboxEventStatus, is_published}
use ai_multimodal_platform.Outbox
use ai_multimodal_platform.Job.{
  Job, JobState, pending, completed, failed, cancelled, Json, text, boolean, Detail,
  InvalidTransitionError, member, transition, is_terminal,
}
use ai_multimodal_platform.Job.Claim.{state_eq}
use ai_multimodal_platform.Generation.{UuidText, is_id}
use ai_multimodal_platform.Pipeline.{
  Rows, PipelineError, master, or_state, save_job, terminalize_rows,
}

abbrev pub max_pending_scan : ℕ
max_pending_scan = 500

-- `lock_owner_status`
unfoldable pub lock_owner_status : ℕ → Rows → Result PipelineError UserStatus
lock_owner_status uid rows =
    or_fail (user_of uid rows.credit) (master "master_unavailable") >>= λ u. ok u.status

abbrev pub suspended_error : Detail
suspended_error =
    ("code", text "user_suspended")
    ∷ ("message", text "Account suspended before dispatch.")
    ∷ ("retryable", boolean false)
    ∷ []

-- `mark_cancelled`
unfoldable pub mark_cancelled : ℕ → Job → Result InvalidTransitionError Job
mark_cancelled now job = do
  cancelled_job ←
      transition now (record job { error = some suspended_error }) (member cancelled)
        (some (("error", text "user_suspended") ∷ [])) (some now)
  ok (record cancelled_job { blocked = false })

abbrev pub is_pending_of : ℕ → Job → Bool
is_pending_of uid job = job.owner_user_id == uid && state_eq job.state pending

abbrev event_before : OutboxEvent → OutboxEvent → Bool
event_before a b = leb a.id b.id

abbrev job_before : Job → Job → Bool
job_before a b = leb a.id b.id

-- The two scans, of at most `max_pending_scan + 1` rows.
abbrev pub scanned_events : ℕ → Rows → List OutboxEvent
scanned_events uid rows = take 501 (
    sort_by event_before (
      filter (λ e. any (λ j. j.id == e.aggregate_id && is_pending_of uid j) rows.jobs) rows.events))

abbrev pub scanned_jobs : ℕ → Rows → List Job
scanned_jobs uid rows = take 501 (sort_by job_before (filter (is_pending_of uid) rows.jobs))

-- `job_id in published`
abbrev pub was_published : List OutboxEvent → ℕ → Bool
was_published events id =
    any
      (λ e.
        e.aggregate_id == id
        && (is_published e.status || (elim e.published_at [ none ↦ false | some at ↦ true ])))
      events

abbrev pub has_id : ℕ → List Job → Bool
has_id id jobs = any (λ j. j.id == id) jobs

-- `parents.get(job.parent_job_id)`
abbrev pub parent_of : Job → Rows → Option Job
parent_of job rows = elim job.parent_job_id [
  | none ↦ none
  | some id ↦ find (λ j. j.id == id) rows.jobs
]

-- Whether a job that no worker has seen is cancelled: a child only if its parent is undispatched
-- or at its end.
unfoldable pub is_cancelled :
    ℕ → List OutboxEvent → List Job → Rows → Job → Result PipelineError Bool
is_cancelled uid events jobs rows job =
    if was_published events job.id then ok false else elim job.parent_job_id [
      | none ↦ ok true
      | some id ↦ do
        parent ← or_fail (parent_of job rows) (master "master_unavailable")
        fail_if (not (parent.owner_user_id == uid)) (master "master_unavailable")
        ok (
            (has_id parent.id jobs && not (was_published events parent.id))
            || is_terminal parent.state)
    ]

-- The first loop: the jobs to cancel.
unfoldable pub select_cancelled :
    ℕ → List OutboxEvent → List Job → Rows → List Job → Result PipelineError (List Job)
unfolding is_cancelled
select_cancelled uid events jobs rows [] = ok []
select_cancelled uid events jobs rows (job ∷ rest) = do
  chosen ← is_cancelled uid events jobs rows job
  others ← select_cancelled uid events jobs rows rest
  ok (if chosen then job ∷ others else others)

-- The second loop.
unfoldable pub cancel_jobs : ℕ → List Job → Rows → Result PipelineError (List Job × Rows)
unfolding mark_cancelled
cancel_jobs now [] rows = ok ([], rows)
cancel_jobs now (job ∷ rest) rows = do
  job' ← or_state (mark_cancelled now job)
  (others, rows') ← cancel_jobs now rest (save_job job' rows)
  ok (job' ∷ others, rows')

-- The parent's hold is the child's: it ends once, with the parent.
abbrev pub is_parents_hold : List Job → Rows → Job → Bool
is_parents_hold chosen rows job = elim (parent_of job rows) [
  | none ↦ false
  | some parent ↦
      has_id parent.id chosen || state_eq parent.state failed || state_eq parent.state cancelled
]

-- The third loop.
unfoldable pub return_holds : UuidText → ℕ → List Job → List Job → Rows → Result PipelineError Rows
unfolding terminalize_rows
return_holds uuid now chosen [] rows = ok rows
return_holds uuid now chosen (job ∷ rest) rows =
    if is_parents_hold chosen rows job
    then return_holds uuid now chosen rest rows
    else (terminalize_rows uuid job false (some "cancelled_before_delivery") now rows >>= λ out.
        return_holds uuid now chosen rest out.1)

abbrev pub withdraw : ℕ → OutboxEvent → OutboxEvent
withdraw now e = record e {
  status = Outbox.failed;
  last_error = some (record { code = "user_suspended"; message = none; retryable = false });
  updated_at = now;
}

-- The last loop: the scanned events of the cancelled jobs.
abbrev pub withdraw_events : ℕ → List OutboxEvent → List Job → List OutboxEvent → List OutboxEvent
withdraw_events now scanned chosen events =
    map
      (λ e.
        if any (λ o. o.id == e.id) scanned && has_id e.aggregate_id chosen
        then withdraw now e
        else e)
      events

-- `cancel_unpublished`
unfoldable pub cancel_unpublished : UuidText → ℕ → ℕ → Rows → Result PipelineError (ℕ × Rows)
unfolding select_cancelled cancel_jobs return_holds
cancel_unpublished uuid uid now rows = do
  let events = scanned_events uid rows
  let jobs = scanned_jobs uid rows
  fail_if (ltb max_pending_scan (length events) || ltb max_pending_scan (length jobs))
      (master "master_busy")
  chosen ← select_cancelled uid events jobs rows jobs
  (marked, rows1) ← cancel_jobs now chosen rows
  rows2 ← return_holds uuid now chosen marked rows1
  ok (length chosen, record rows2 { events = withdraw_events now events chosen rows2.events })
