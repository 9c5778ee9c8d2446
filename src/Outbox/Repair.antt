-- ===== src/Outbox/Repair.antt =====
-- backend/app/services/jobs/repair.py, with dispatch_job of enqueue.py: jobs that are waiting or can be
-- resumed are dispatched again. Celery's `apply_async` is an argument, and so is any other dispatcher.
pub mod Counts
mod Tests
use ai_multimodal_platform.Prelude.{
  ℕ, zero, suc, ◌+◌, ◌≤◌, ◌≡◌, refl, String, Bool, true, false, not, Option, none, some, List, [],
  ◌∷◌, length, filter, take, sort_by, leb, ◌&&◌, ◌||◌, str_eq, if◌then◌else◌, arith, inl, inr,
  Bool-cases, All, All-take, filter_holds, sort_by-All, filter-All, All-map, length-take,
}
use Prim.Native.String.{◌++◌}
use ai_multimodal_platform.Job.{Job, pending, polling, GenerationMode, t2i, t2v, i2v}
use ai_multimodal_platform.Job.Claim.{state_eq}
use ai_multimodal_platform.Outbox.{or_text, snake_case}

pub record DispatchResult : Type 0 where
  pub job_id : ℕ
  pub reason : String
  pub mode : String
  pub enqueued : Bool
  pub queue : Option String
  pub task_id : Option String
  pub error : Option String
  pub error_code : Option String

-- `ok`
abbrev pub is_ok : DispatchResult → Bool
is_ok result = no_error result.error
  where
    no_error : Option String → Bool
    no_error none = true
    no_error (some e) = false

-- What a dispatcher does: it returns, or raises an exception of a class with a text.
pub data Dispatched : Type 0 where
  result : DispatchResult → Dispatched
  exception : String → String → Dispatched

-- `apply_async`: the id of the task, or an exception.
pub data Applied : Type 0 where
  task : Option String → Applied
  not_applied : String → String → Applied

pub record RepairResult : Type 0 where
  pub selected : ℕ
  pub dispatched : ℕ
  pub failed : ℕ
  pub dispatch_results : List DispatchResult

-- `str(task_id) if task_id else None`
abbrev pub nonempty_text : Option String → Option String
nonempty_text none = none
nonempty_text (some t) = if str_eq t "" then none else some t

abbrev pub is_nonempty_text : Option String → Bool
is_nonempty_text none = false
is_nonempty_text (some t) = not (str_eq t "")

abbrev pub is_missing : Option String → Bool
is_missing none = true
is_missing (some t) = false

module _ (re_sub : String → String → String → String)
    (strip_underscores lower : String → String) where
  -- `exception_code`, of the class of an exception or of a text. The two other parameters of the outbox
  -- are not used.
  abbrev pub exception_code : String → String
  exception_code = snake_case (λ t. none) re_sub (λ t. t) strip_underscores lower

  -- What `dispatch_job` returns after the call of Celery.
  abbrev pub applied_result : ℕ → String → String → String → Applied → DispatchResult
  applied_result job_id reason mode queue (task id) = record {
    job_id = job_id;
    reason = reason;
    mode = mode;
    enqueued = true;
    queue = some queue;
    task_id = nonempty_text id;
    error = none;
    error_code = none;
  }
  applied_result job_id reason mode queue (not_applied class_name message) = record {
    job_id = job_id;
    reason = reason;
    mode = mode;
    enqueued = false;
    queue = some queue;
    task_id = none;
    error = some (or_text (some message) class_name);
    error_code = some (exception_code class_name);
  }

  -- `dispatch_job`, with the two settings that it reads
  unfoldable pub dispatch_job :
      String → String → (ℕ → String → Applied) → ℕ → String → DispatchResult
  dispatch_job job_dispatch_mode queue apply_async job_id reason =
      let mode = lower job_dispatch_mode in
      if str_eq mode "polling"
      then record {
        job_id = job_id;
        reason = reason;
        mode = mode;
        enqueued = false;
        queue = none;
        task_id = none;
        error = none;
        error_code = none;
      }
      else if not (str_eq mode "celery")
      then record {
        job_id = job_id;
        reason = reason;
        mode = mode;
        enqueued = false;
        queue = none;
        task_id = none;
        error = some ("Unsupported job dispatch mode: " ++ job_dispatch_mode);
        error_code = some "unsupported_dispatch_mode";
      }
      else applied_result job_id reason mode queue (apply_async job_id queue)

  -- The result that is kept for a job: an exception becomes one, and an error without a code gets one.
  abbrev pub kept_result : ℕ → String → Dispatched → DispatchResult
  kept_result job_id reason (exception class_name message) = record {
    job_id = job_id;
    reason = reason;
    mode = "unknown";
    enqueued = false;
    queue = none;
    task_id = none;
    error = some (or_text (some message) class_name);
    error_code = some (exception_code class_name);
  }
  kept_result job_id reason (result r) =
      if is_nonempty_text r.error && is_missing r.error_code
      then record r { error_code = some (exception_code (or_text r.error "")) }
      else r

  -- The loop of `_reenqueue_jobs`, with the numbers so far.
  unfoldable pub reenqueue_from :
      (ℕ → String → Dispatched) → String → ℕ → ℕ → List Job → ℕ × ℕ × List DispatchResult
  reenqueue_from dispatcher reason dispatched failed [] = (dispatched, failed, [])
  reenqueue_from dispatcher reason dispatched failed (job ∷ jobs) =
      let r = kept_result job.id reason (dispatcher job.id reason) in
      let rest =
        reenqueue_from dispatcher reason (if is_ok r then suc dispatched else dispatched)
          (if is_ok r then failed else suc failed) jobs in
      (rest.0, rest.1, r ∷ rest.2)

  -- `_reenqueue_jobs` of the rows that its statement selects
  unfoldable pub reenqueue_jobs : (ℕ → String → Dispatched) → String → List Job → RepairResult
  unfolding reenqueue_from
  reenqueue_jobs dispatcher reason jobs =
      let done = reenqueue_from dispatcher reason 0 0 jobs in
      record {
        selected = length jobs;
        dispatched = done.0;
        failed = done.1;
        dispatch_results = done.2;
      }

-- `_pending_unblocked_jobs_statement`
abbrev pub is_pending_unblocked : Job → Bool
is_pending_unblocked job = state_eq job.state pending && not job.blocked

abbrev pub pending_unblocked_jobs : ℕ → List Job → List Job
pending_unblocked_jobs limit jobs =
    take limit (sort_by (λ a b. leb a.created_at b.created_at) (filter is_pending_unblocked jobs))

abbrev pub is_video_mode : GenerationMode → Bool
is_video_mode t2i = false
is_video_mode t2v = true
is_video_mode i2v = true

-- `_resumable_polling_jobs_statement`
abbrev pub is_resumable : Job → Bool
is_resumable job =
    is_video_mode job.mode
    && state_eq job.state polling
    && not (is_missing job.vertex_operation_name)
    && not job.blocked

abbrev pub resumable_polling_jobs : ℕ → List Job → List Job
resumable_polling_jobs limit jobs =
    take limit (sort_by (λ a b. leb a.updated_at b.updated_at) (filter is_resumable jobs))

module _ (re_sub : String → String → String → String)
    (strip_underscores lower : String → String) where
  unfoldable pub reenqueue_pending_jobs :
      (ℕ → String → Dispatched) → ℕ → String → List Job → RepairResult
  unfolding reenqueue_jobs
  reenqueue_pending_jobs dispatcher limit reason jobs =
      reenqueue_jobs re_sub strip_underscores lower dispatcher reason
        (pending_unblocked_jobs limit jobs)

  unfoldable pub reenqueue_resumable_polling_jobs :
      (ℕ → String → Dispatched) → ℕ → String → List Job → RepairResult
  unfolding reenqueue_jobs
  reenqueue_resumable_polling_jobs dispatcher limit reason jobs =
      reenqueue_jobs re_sub strip_underscores lower dispatcher reason
        (resumable_polling_jobs limit jobs)
