-- ===== src/Handler.antt =====
-- backend/app/services/jobs/handlers.py: the work of a job, and what a failed one leaves. This file
-- has the exceptions, the public error and the mark of a failed job; the children have the handlers.
-- A handler runs alone on its rows: what it returns is the rows that it committed.
pub mod Errors
pub mod Steps
pub mod Over
pub mod Ids
pub mod Completes
pub mod Ends
pub mod Attempts
pub mod Image
pub mod Video
mod Tests
use ai_multimodal_platform.Prelude.{
  ℕ, String, Bool, true, false, not, Option, none, some, List, [], ◌∷◌, ◌++◌, max, find, leb, ◌==◌,
  ◌&&◌, ◌||◌, str_eq, if◌then◌else◌,
}
use ai_multimodal_platform.Prelude.Int.{ℤ, pos}
use ai_multimodal_platform.Prelude.Result.{Result, ok, err, ◌>>=◌}
use ai_multimodal_platform.Provider.{Exc, RetryPolicy, RetryConfigError, positive_part}
use ai_multimodal_platform.Provider.Errors.{
  VertexServiceError, ForeignError, foreign, to_public_dict, exc_of_vertex, exc_of_foreign,
  map_vertex_error,
}
use ai_multimodal_platform.Job.{
  Job, Detail, Json, null, boolean, number, text, failed, member, transition, is_terminal,
}
use ai_multimodal_platform.Generation.{UuidText}
use ai_multimodal_platform.Pipeline.{
  Rows, PipelineError, or_state, save_job, terminalize_rows, validate_execution_references,
}
use ai_multimodal_platform.Pipeline

-- The exceptions that a handler tells apart; `other` is the number of any other exception.
pub data HandlerError : Type 0 where
  mismatch source_not_found source_not_image : HandlerError
  veo_timeout : Option String → HandlerError
  vertex : VertexServiceError → HandlerError
  internal : PipelineError → HandlerError
  bad_policy : RetryConfigError → HandlerError
  other : ℕ → HandlerError

-- What a call raises inside the rows' functions.
abbrev pub raised : PipelineError → HandlerError
raised Pipeline.ownership_reference_mismatch = mismatch
raised e = internal e

abbrev pub or_raised : {A : Type 0} → Result PipelineError A → Result HandlerError A
or_raised (ok a) = ok a
or_raised (err e) = err (raised e)

-- What Python shows of an exception, the settings, and the texts of ids and times.
pub record World : Type 0 where
  pub uuid : UuidText
  pub exception_code : HandlerError → String
  pub class_name : HandlerError → String
  pub str : HandlerError → String
  pub attributes : HandlerError → ForeignError
  pub strip : String → String
  pub upper : String → String
  pub replace : String → String → String → String
  pub isoformat : ℕ → String
  pub policy : RetryPolicy

-- A value that is committed with the rows, or an exception and the rows of the last commit.
abbrev pub Run : Type 0 → Type 0
Run A = Rows × Result HandlerError A

unfoldable pub and_then : {A B : Type 0} → Run A → (A → Rows → Run B) → Run B
and_then (rows, ok a) next = next a rows
and_then (rows, err e) next = (rows, err e)

-- A transaction: its writes are committed, or rolled back.
abbrev pub commit : {A : Type 0} → Rows → Result HandlerError (A × Rows) → Run A
commit rows (ok (a, rows')) = (rows', ok a)
commit rows (err e) = (rows, err e)

-- A call that writes no row.
abbrev pub ask : {A : Type 0} → Rows → Result HandlerError A → Run A
ask rows r = (rows, r)

-- An `except` clause around a call.
abbrev pub or_map : {A : Type 0} → (HandlerError → HandlerError) → Run A → Run A
or_map f (rows, ok a) = (rows, ok a)
or_map f (rows, err e) = (rows, err (f e))

abbrev pub optional_text : Option String → Json
optional_text none = null
optional_text (some t) = text t

abbrev pub status_entry : Option ℕ → Detail
status_entry none = []
status_entry (some code) = ("status_code", number code) ∷ []

abbrev pub is_429 : Option ℕ → Bool
is_429 none = false
is_429 (some code) = code == 429

-- The reason of an exception, once an attempt was made.
abbrev pub attempted_reason : HandlerError → Bool → String
attempted_reason mismatch charged = "cancelled_before_delivery"
attempted_reason (veo_timeout name) charged = "provider_timeout"
attempted_reason (vertex e) charged =
    if is_429 e.status_code then "provider_rate_limited" else "provider_failed"
attempted_reason e charged = if charged then "delivery_failed" else "provider_failed"

-- `_credit_failure_reason`
unfoldable pub credit_failure_reason : HandlerError → Job → String
credit_failure_reason e job =
    if job.attempts == 0 then "cancelled_before_delivery" else attempted_reason e job.vertex_charged

module _ (world : World) where
  -- `_with_dead_letter_metadata`, where the error's `retryable` is given.
  unfoldable pub with_dead_letter_metadata : Bool → ℕ → Detail → Detail
  with_dead_letter_metadata retryable retry_count error =
      if retryable && leb (max 1 (positive_part world.policy.max_attempts)) retry_count
      then error
        ++ ("dead_letter", boolean true)
          ∷ ("dead_letter_reason", text "retry_exhausted")
          ∷ ("repair_action", text "manual_retry_or_inspect")
          ∷ []
      else error

  abbrev pub attempted : ℕ → ℕ → Detail
  attempted retry_count at =
      ("retry_count", number retry_count) ∷ ("last_attempt_at", text (world.isoformat at)) ∷ []

  -- `str(exc) or exc.__class__.__name__`
  abbrev pub shown : HandlerError → String
  shown e = if str_eq (world.str e) "" then world.class_name e else world.str e

  -- The code of the error that is shown to the user.
  abbrev pub public_code : HandlerError → String
  public_code mismatch = "ownership_reference_mismatch"
  public_code source_not_found = "i2v_source_asset_not_found"
  public_code source_not_image = "i2v_source_asset_not_image"
  public_code (veo_timeout name) = "veo_timeout"
  public_code (vertex e) = (to_public_dict e).code
  public_code (internal e) = world.exception_code (internal e)
  public_code (bad_policy e) = world.exception_code (bad_policy e)
  public_code (other n) = world.exception_code (other n)

  -- The fallback of `_public_error`, which says nothing of retrying.
  abbrev pub unknown_error : HandlerError → ℕ → ℕ → Detail
  unknown_error e retry_count at =
      with_dead_letter_metadata false retry_count
        (("code", text (public_code e)) ∷ ("message", text (shown e)) ∷ attempted retry_count at)

  -- `_public_error`
  unfoldable pub public_error : HandlerError → ℕ → ℕ → Detail
  unfolding with_dead_letter_metadata
  public_error mismatch retry_count at =
      ("code", text (public_code mismatch))
      ∷ ("message", text "Content ownership reference validation failed.")
      ∷ ("retryable", boolean false)
      ∷ []
  public_error source_not_found retry_count at = with_dead_letter_metadata false retry_count (
      ("code", text (public_code source_not_found))
      ∷ ("message", text "I2V source asset was not found.")
      ∷ ("retryable", boolean false)
      ∷ attempted retry_count at)
  public_error source_not_image retry_count at = with_dead_letter_metadata false retry_count (
      ("code", text (public_code source_not_image))
      ∷ ("message", text "I2V source asset must be an image.")
      ∷ ("retryable", boolean false)
      ∷ attempted retry_count at)
  public_error (veo_timeout name) retry_count at = with_dead_letter_metadata true retry_count (
      ("code", text "veo_timeout")
      ∷ ("message", text "Veo generation timed out while polling.")
      ∷ ("retryable", boolean true)
      ∷ ("operation_name", optional_text name)
      ∷ attempted retry_count at)
  public_error (vertex e) retry_count at =
      let public = to_public_dict e in
      with_dead_letter_metadata public.retryable retry_count (
        (("code", text public.code)
          ∷ ("message", text public.message)
          ∷ ("retryable", boolean public.retryable)
          ∷ attempted retry_count at)
        ++ status_entry public.status_code)
  public_error (internal e) retry_count at = unknown_error (internal e) retry_count at
  public_error (bad_policy e) retry_count at = unknown_error (bad_policy e) retry_count at
  public_error (other n) retry_count at = unknown_error (other n) retry_count at

  -- The transaction of `_mark_failed` for a job that is not at its end.
  unfoldable pub failing : ℕ → Job → HandlerError → Rows → Result HandlerError (Job × Rows)
  unfolding public_error credit_failure_reason
  failing now job e rows = do
    failed_job ← or_raised (
        or_state (
          transition now (record job { error = some (public_error e job.attempts now) })
            (member failed) (some (("error", text (public_code e)) ∷ [])) (some now)))
    (result, rows') ← or_raised (
        terminalize_rows world.uuid failed_job false (some (credit_failure_reason e failed_job)) now
          (save_job failed_job rows))
    ok (failed_job, rows')

  -- `_mark_failed`
  unfoldable pub mark_failed : ℕ → Job → HandlerError → Rows → Run Job
  unfolding failing
  mark_failed now job e rows =
      if is_terminal job.state then (rows, ok job) else commit rows (failing now job e rows)

  -- `session.get(Job, job_id)` after the rollback, and the mark.
  abbrev pub kept_job : Run Job → Run (Option Job)
  kept_job (rows, ok job) = (rows, ok (some job))
  kept_job (rows, err e) = (rows, err e)

  unfoldable pub mark_found : ℕ → HandlerError → Rows → Option Job → Run (Option Job)
  unfolding mark_failed
  mark_found now e rows none = (rows, ok none)
  mark_found now e rows (some job) = kept_job (mark_failed now job e rows)

  unfoldable pub recover : ℕ → ℕ → HandlerError → Rows → Run (Option Job)
  unfolding mark_found
  recover now job_id e rows = mark_found now e rows (find (λ j. j.id == job_id) rows.jobs)

  -- What `with_retry` reads of an exception.
  abbrev pub exc_of : HandlerError → Exc
  exc_of (vertex e) = exc_of_vertex e
  exc_of e = exc_of_foreign (world.attributes e)

  -- `raise map_vertex_error(exc) from exc`, for the exceptions that are not passed on.
  abbrev pub mapped : HandlerError → HandlerError
  mapped e =
      vertex (map_vertex_error world.strip world.upper world.replace (foreign (world.attributes e)))

  -- The `except` clauses around a submission, and around a poll.
  abbrev pub submit_error : HandlerError → HandlerError
  submit_error (vertex e) = vertex e
  submit_error mismatch = mismatch
  submit_error e = mapped e

  abbrev pub poll_error : HandlerError → HandlerError
  poll_error (veo_timeout name) = veo_timeout name
  poll_error (vertex e) = vertex e
  poll_error mismatch = mismatch
  poll_error e = mapped e
