-- ===== src/Handler/Video.antt =====
-- `handle_t2v`, `handle_i2v` and `handle` of backend/app/services/jobs/handlers.py. The rate
-- limiter, the provider and the storage answer as the argument `Videos` says; the size of a file
-- stands for its bytes.
use ai_multimodal_platform.Prelude.{
  ℕ, String, Bool, true, false, Option, none, some, [], ◌∷◌, find, ◌==◌, ◌&&◌, if◌then◌else◌,
}
use ai_multimodal_platform.Prelude.Int.{ℤ, pos}
use ai_multimodal_platform.Prelude.Result.{Result, ok, err, ◌>>=◌, ◌>>◌, fail_if, or_fail}
use ai_multimodal_platform.Job.{
  Job, GenerationMode, t2i, t2v, i2v, generating, polling, downloading, number, text, Asset, video,
  is_terminal, Parameter, integer, get,
}
use ai_multimodal_platform.Job.Claim.{state_eq, is_nonempty}
use ai_multimodal_platform.Pipeline.{Rows, validate_execution_references}
use ai_multimodal_platform.Pipeline.Link.{is_image}
use ai_multimodal_platform.Handler.{
  HandlerError, mismatch, source_not_image, or_raised, World, Run, and_then, ask, recover,
  submit_error, poll_error, or_map,
}
use ai_multimodal_platform.Handler.Steps.{
  move_to, queue_pending, validated, with_attempts, complete,
}
use ai_multimodal_platform.Handler.Image.{Images, charge, handle_t2i}

-- What the calls of the handlers answer: the wait for the rate limiter, the name of the operation
-- that each attempt submits, the video of a poll, the path of the saved file and the bytes of the
-- source. `int_of` is `int` of a parameter that is no integer.
pub record Videos : Type 0 where
  pub acquire : Result HandlerError ℕ
  pub read_bytes : String → Result HandlerError ℕ
  pub submit_video : Option (ℕ × String) → ℕ → Result HandlerError String
  pub poll_operation : String → Result HandlerError ℕ
  pub poll_operation_name : String → Result HandlerError ℕ
  pub save_bytes : Result HandlerError String
  pub int_of : Parameter → Result HandlerError ℤ
  pub asset_id : ℕ

-- `int(params.get("duration_sec", 4))`
abbrev pub int_or : Videos → Option Parameter → Result HandlerError ℤ
int_or calls none = ok (pos 4)
int_or calls (some (integer n)) = ok n
int_or calls (some p) = calls.int_of p

abbrev pub duration_sec : Videos → Job → Result HandlerError ℤ
duration_sec calls job = int_or calls (get "duration_sec" job.parameters)

abbrev pub video_asset : ℕ → Videos → Job → ℤ → ℕ → String → Asset
video_asset now calls job duration size local_path = record {
  id = calls.asset_id;
  job_id = job.id;
  kind = video;
  local_path = local_path;
  mime = "video/mp4";
  size_bytes = size;
  duration_sec = some duration;
  created_at = now;
}

-- The operation's name, or the empty text.
abbrev pub name_or_empty : Option String → String
name_or_empty none = ""
name_or_empty (some name) = name

module _ (world : World) (now : ℕ) (calls : Videos) where
  -- The poll, with the references checked before it.
  unfoldable pub polled : Result HandlerError ℕ → Job → Rows → Run ℕ
  polled answer job rows =
      or_map (poll_error world) (and_then (validated job rows) λ source rows0. ask rows0 answer)

  -- From the video to the end: the charge, the file, the asset and the completion.
  unfoldable pub deliver : ℤ → ℕ → Job → Rows → Run Job
  unfolding move_to complete
  deliver duration size job rows =
      and_then (move_to now downloading (some (("size_bytes", number size) ∷ [])) (charge job) rows)
        λ charged rows1. and_then (ask rows1 calls.save_bytes) λ local_path rows2.
          complete world now (video_asset now calls charged duration size local_path ∷ []) charged
            rows2

  -- `job.state == POLLING and job.vertex_operation_name`
  abbrev pub is_resumed : Job → Bool
  is_resumed job = state_eq job.state polling && is_nonempty job.vertex_operation_name

  unfoldable pub resume : ℤ → Job → Rows → Run Job
  unfolding polled deliver
  resume duration job rows =
      and_then
        (polled (calls.poll_operation_name (name_or_empty job.vertex_operation_name)) job rows)
        λ size rows1. deliver duration size job rows1

  -- A fresh job up to the submission.
  unfoldable pub prepare : Job → Rows → Run Job
  unfolding queue_pending move_to
  prepare job rows = and_then (queue_pending now job rows) λ ready rows1.
      and_then (ask rows1 calls.acquire) λ wait rows2.
        move_to now generating (some (("rate_limit_wait_sec", number wait) ∷ [])) ready rows2

  -- The submission with its retries, the poll and the delivery.
  unfoldable pub submit : Option (ℕ × String) → ℤ → Job → Rows → Run Job
  unfolding with_attempts move_to polled deliver
  submit source duration job rows =
      and_then
        (or_map (submit_error world) (with_attempts world (calls.submit_video source) job rows))
        λ made rows1.
          let named : Job = made.0 in
          and_then
            (move_to now polling (some (("operation_name", text made.1) ∷ []))
              (record named { vertex_operation_name = some made.1 }) rows1)
            λ waiting rows2.
              and_then (polled (calls.poll_operation made.1) waiting rows2)
                λ size rows3. deliver duration size waiting rows3

  -- The source of a video: the image's bytes and its type.
  unfoldable pub source_image : Job → Rows → Result HandlerError (ℕ × String)
  source_image job rows = do
    found ← or_raised (validate_execution_references job rows)
    asset ← or_fail found mismatch
    fail_if (if is_image asset.kind then false else true) source_not_image
    bytes ← calls.read_bytes asset.local_path
    ok (bytes, asset.mime)

  -- The body of the `try` of `handle_t2v`.
  unfoldable pub generate_t2v : Job → Rows → Run Job
  unfolding resume prepare submit
  generate_t2v job rows = and_then (validated job rows) λ source rows0.
      and_then (ask rows0 (duration_sec calls job)) λ duration rows1.
        if is_resumed job
        then resume duration job rows1
        else (and_then (prepare job rows1) λ started rows2. submit none duration started rows2)

  -- The body of the `try` of `handle_i2v`.
  unfoldable pub generate_i2v : Job → Rows → Run Job
  unfolding resume prepare source_image submit
  generate_i2v job rows = and_then (validated job rows) λ source rows0.
      and_then (ask rows0 (duration_sec calls job)) λ duration rows1.
        if is_resumed job
        then resume duration job rows1
        else (and_then (prepare job rows1) λ started rows2.
            and_then (ask rows2 (source_image started rows2))
              λ bytes rows3. submit (some bytes) duration started rows3)

  -- The `except` clause: the job is marked.
  abbrev pub after_video : ℕ → Run Job → Run (Option Job)
  after_video job_id (rows, ok job) = (rows, ok (some job))
  after_video job_id (rows, err e) = recover world now job_id e rows

  unfoldable pub handle_t2v : Job → Rows → Run (Option Job)
  unfolding generate_t2v recover
  handle_t2v job rows =
      if is_terminal job.state
      then (rows, ok (some job))
      else after_video job.id (generate_t2v job rows)

  unfoldable pub handle_i2v : Job → Rows → Run (Option Job)
  unfolding generate_i2v recover
  handle_i2v job rows =
      if is_terminal job.state
      then (rows, ok (some job))
      else after_video job.id (generate_i2v job rows)

  -- `handle`, by the mode of the job. `missing` is the exception of a job that is not there.
  abbrev pub handle_mode : Images → GenerationMode → Job → Rows → Run (Option Job)
  handle_mode images t2i job rows = handle_t2i world now images job rows
  handle_mode images t2v job rows = handle_t2v job rows
  handle_mode images i2v job rows = handle_i2v job rows

  abbrev pub handle_found : Images → HandlerError → Option Job → Rows → Run (Option Job)
  handle_found images missing none rows = (rows, err missing)
  handle_found images missing (some job) rows = handle_mode images job.mode job rows

  unfoldable pub handle : Images → HandlerError → ℕ → Rows → Run (Option Job)
  unfolding handle_t2v handle_i2v
  handle images missing job_id rows =
      handle_found images missing (find (λ j. j.id == job_id) rows.jobs) rows
