-- ===== src/Handler/Image.antt =====
-- `handle_t2i` of backend/app/services/jobs/handlers.py. The rate limiter, the provider and the
-- storage answer as the argument `Images` says; the size of an image stands for its bytes.
-- The conversions of the count and the ratio of the images are part of the provider's answer.
use ai_multimodal_platform.Prelude.{
  ℕ, suc, String, Bool, true, false, not, ◌&&◌, Option, none, some, List, [], ◌∷◌, length,
  if◌then◌else◌,
}
use ai_multimodal_platform.Prelude.Result.{Result, ok, err, ◌>>=◌}
use ai_multimodal_platform.Job.{
  Job, generating, downloading, failed, number, Asset, image, is_terminal,
}
use ai_multimodal_platform.Job.Claim.{state_eq}
use ai_multimodal_platform.Pipeline.{Rows}
use ai_multimodal_platform.Pipeline.Link.{link_completed_parent, fail_blocked_children_for_parent}
use ai_multimodal_platform.Handler.{HandlerError, mismatch, World, Run, and_then, ask, recover}
use ai_multimodal_platform.Handler.Steps.{
  move_to, queue_pending, validated, with_attempts, complete,
}

-- What the calls of the handler answer: the wait for the rate limiter, the images of each attempt,
-- the path of each saved file, the ids of the new assets, and the id of an outbox event.
pub record Images : Type 0 where
  pub acquire : Result HandlerError ℕ
  pub generate_image : ℕ → Result HandlerError (List ℕ)
  pub save_bytes : ℕ → Result HandlerError String
  pub asset_id : ℕ → ℕ
  pub event_id : ℕ

-- The loop over the images.
unfoldable pub image_assets : ℕ → ℕ → Images → ℕ → List ℕ → Result HandlerError (List Asset)
image_assets now job_id calls index [] = ok []
image_assets now job_id calls index (size ∷ sizes) = do
  local_path ← calls.save_bytes index
  rest ← image_assets now job_id calls (suc index) sizes
  ok (
      record {
        id = calls.asset_id index;
        job_id = job_id;
        kind = image;
        local_path = local_path;
        mime = "image/png";
        size_bytes = size;
        duration_sec = none;
        created_at = now;
      }
      ∷ rest)

-- `job.vertex_charged = True`
abbrev pub charge : Job → Job
charge job = record job { vertex_charged = true }

-- `isinstance(exc, OwnershipReferenceMismatch)`
abbrev pub is_mismatch : HandlerError → Bool
is_mismatch mismatch = true
is_mismatch _ = false

module _ (world : World) (now : ℕ) (calls : Images) where
  -- The body of the `try`.
  unfoldable pub generate_images : Job → Rows → Run Job
  unfolding image_assets queue_pending move_to with_attempts complete
  generate_images job rows = and_then (validated job rows) λ source rows0.
      and_then (queue_pending now job rows0) λ ready rows1.
        and_then (ask rows1 calls.acquire) λ wait rows2.
          and_then
            (move_to now generating (some (("rate_limit_wait_sec", number wait) ∷ [])) ready rows2)
            λ started rows3.
              and_then (with_attempts world calls.generate_image started rows3) λ made rows4.
                and_then
                  (move_to now downloading (some (("image_count", number (length made.1)) ∷ []))
                    (charge made.0) rows4)
                  λ charged rows5.
                    and_then (ask rows5 (image_assets now job.id calls 0 made.1))
                      λ assets rows6. complete world now assets charged rows6

  -- The `except` clause: the job is marked, and the children that wait for it are failed.
  unfoldable pub fail_children_of : HandlerError → Option Job → Rows → Run (Option Job)
  fail_children_of e none rows = (rows, ok none)
  fail_children_of e (some job) rows =
      if state_eq job.state failed && not (is_mismatch e)
      then ((fail_blocked_children_for_parent now job rows).1, ok (some job))
      else (rows, ok (some job))

  unfoldable pub after_failure : ℕ → HandlerError → Rows → Run (Option Job)
  unfolding recover fail_children_of
  after_failure job_id e rows =
      and_then (recover world now job_id e rows) λ marked rows'. fail_children_of e marked rows'

  abbrev pub after_generation : ℕ → Run Job → Run (Option Job)
  after_generation job_id (rows, ok job) =
      ((link_completed_parent world.uuid now calls.event_id job rows).1, ok (some job))
  after_generation job_id (rows, err e) = after_failure job_id e rows

  -- `handle_t2i`: the job as it was left, unless its row is gone.
  unfoldable pub handle_t2i : Job → Rows → Run (Option Job)
  unfolding generate_images after_failure
  handle_t2i job rows =
      if is_terminal job.state
      then (rows, ok (some job))
      else after_generation job.id (generate_images job rows)
