-- ===== src/Pipeline/Link.antt =====
-- backend/app/services/jobs/pipeline_link.py: what the end of a pipeline's first job does to the
-- second. A call that raises rolls back to the rows before it.
pub mod Kept
pub mod Written
pub mod Outcome
use ai_multimodal_platform.Prelude.{
  ℕ, suc, String, Bool, true, false, not, Option, none, some, List, [], ◌∷◌, filter, sort_by, head?,
  ltb, leb, ◌+◌, ◌==◌, ◌&&◌, ◌||◌, if◌then◌else◌,
}
use ai_multimodal_platform.Prelude.Result.{Result, ok, err, ◌>>=◌, ◌>>◌, fail_if, or_fail}
use ai_multimodal_platform.Credit.Tables.{UserStatus, active, suspended}
use ai_multimodal_platform.Outbox.{OutboxEvent, add_job_dispatch_event}
use ai_multimodal_platform.Job.{
  Job, JobState, pending, completed, failed, Asset, AssetKind, image, video, Json, text, boolean,
  Detail, member, transition, is_terminal,
}
use ai_multimodal_platform.Job.Claim.{state_eq}
use ai_multimodal_platform.Generation.{UuidText, is_id, is_t2i, is_i2v}
use ai_multimodal_platform.Pipeline.{
  Rows, PipelineError, or_state, save_job, terminalize_rows, owned_child,
}
use ai_multimodal_platform.Pipeline.Cancel.{lock_owner_status, mark_cancelled}

pub record PipelineLinkResult : Type 0 where
  pub linked : Bool
  pub reason : Option String
  pub child_id : Option ℕ
  pub source_asset_id : Option ℕ

abbrev pub unlinked : String → Option ℕ → PipelineLinkResult
unlinked reason child_id = record {
  linked = false;
  reason = some reason;
  child_id = child_id;
  source_asset_id = none;
}

abbrev is_suspended : UserStatus → Bool
is_suspended suspended = true
is_suspended active = false

abbrev pub is_image : AssetKind → Bool
is_image image = true
is_image video = false

-- `ORDER BY created_at, id`
abbrev pub before_in_time : ℕ → ℕ → ℕ → ℕ → Bool
before_in_time at id at' id' = ltb at at' || (at == at' && leb id id')

-- `_pipeline_children`
abbrev pub pipeline_children : ℕ → Rows → List Job
pipeline_children parent_id rows =
    sort_by (λ a b. before_in_time a.created_at a.id b.created_at b.id)
      (filter (λ j. is_id parent_id j.parent_job_id && is_i2v j.mode) rows.jobs)

-- `_first_parent_asset`
abbrev pub first_parent_asset : ℕ → Rows → Option Asset
first_parent_asset parent_id rows = head? (
    sort_by (λ a b. before_in_time a.created_at a.id b.created_at b.id)
      (filter (λ a. a.job_id == parent_id) rows.assets))

-- `_fail_child`
unfoldable pub fail_child : UuidText → ℕ → Job → String → String → Rows → Result PipelineError Rows
fail_child uuid now child code message rows = do
  let child' : Job = record child {
    error =
        some (("code", text code) ∷ ("message", text message) ∷ ("retryable", boolean false) ∷ []);
  }
  (result, rows') ←
      terminalize_rows uuid child' false (some "delivery_failed") now (save_job child' rows)
  failed_child ←
      or_state (transition now child' (member failed) (some (("error", text code) ∷ [])) none)
  ok (save_job failed_child rows')

-- The writes of a link: the child takes the asset and is handed to the outbox.
abbrev pub linked_rows : UuidText → ℕ → ℕ → Job → Asset → Rows → Rows
linked_rows uuid now event_id child a rows = record rows {
  jobs = (save_job (record child { source_asset_id = some a.id; blocked = false }) rows).jobs;
  events =
      add_job_dispatch_event now event_id child.id (uuid.str child.id) "pipeline_child_unblocked"
        rows.events;
}

-- The part of `_link_completed_parent` for a blocked child. `event_id` is the id of the new event.
unfoldable pub link_child :
    UuidText
    → ℕ
    → ℕ
    → UserStatus
    → Job
    → Job
    → Option Asset
    → Rows
    → Result PipelineError (PipelineLinkResult × Rows)
unfolding fail_child
link_child uuid now event_id owner_status parent child asset rows =
    if is_suspended owner_status
    then (do
      child' ← or_state (mark_cancelled now child)
      (result, rows') ←
          terminalize_rows uuid child' false (some "cancelled_before_delivery") now
            (save_job child' rows)
      ok (unlinked "user_suspended" (some child.id), rows'))
    else elim asset [
      | none ↦ do
        rows' ←
            fail_child uuid now child "pipeline_source_asset_missing"
              "Pipeline parent completed without an image asset." rows
        ok (unlinked "source_asset_missing" (some child.id), rows')
      | some a ↦
          if not (is_image a.kind)
          then (do
            rows' ←
                fail_child uuid now child "pipeline_source_asset_not_image"
                  "Pipeline parent output asset must be an image." rows
            ok (unlinked "source_asset_not_image" (some child.id), rows'))
          else ok (
            record {
              linked = true;
              reason = none;
              child_id = some child.id;
              source_asset_id = some a.id;
            },
            linked_rows uuid now event_id child a rows,
          )
    ]

-- `asset is not None and asset.job_id != parent.id`
abbrev pub is_foreign : ℕ → Option Asset → Bool
is_foreign parent_id none = false
is_foreign parent_id (some a) = not (a.job_id == parent_id)

-- The part for the first child, if there is one.
unfoldable pub link_first_child :
    UuidText
    → ℕ
    → ℕ
    → UserStatus
    → Job
    → Option Job
    → Rows
    → Result PipelineError (PipelineLinkResult × Rows)
unfolding link_child
link_first_child uuid now event_id owner_status parent none rows =
    ok (unlinked "child_missing" none, rows)
link_first_child uuid now event_id owner_status parent (some child) rows =
    if not (owned_child parent child)
    then ok (unlinked "ownership_reference_mismatch" none, rows)
    else if is_terminal child.state
    then ok (unlinked "child_terminal" (some child.id), rows)
    else if not (state_eq child.state pending)
    then ok (unlinked "child_not_pending" (some child.id), rows)
    else if not child.blocked
    then ok (unlinked "child_already_unblocked" none, rows)
    else if is_foreign parent.id (first_parent_asset parent.id rows)
    then ok (unlinked "ownership_reference_mismatch" none, rows)
    else link_child uuid now event_id owner_status parent child (first_parent_asset parent.id rows)
        rows

-- `_link_completed_parent`
unfoldable pub try_link :
    UuidText → ℕ → ℕ → Job → Rows → Result PipelineError (PipelineLinkResult × Rows)
unfolding link_first_child
try_link uuid now event_id parent rows =
    if not (is_t2i parent.mode)
    then ok (unlinked "parent_not_t2i" none, rows)
    else if not (state_eq parent.state completed)
    then ok (unlinked "parent_not_completed" none, rows)
    else (do
      owner_status ← lock_owner_status parent.owner_user_id rows
      link_first_child uuid now event_id owner_status parent
          (head? (pipeline_children parent.id rows)) rows)

abbrev rolled_back :
    Rows → Result PipelineError (PipelineLinkResult × Rows) → PipelineLinkResult × Rows
rolled_back rows (ok out) = out
rolled_back rows (err e) = (unlinked "pipeline_link_failed" none, rows)

-- `link_completed_parent`
unfoldable pub link_completed_parent : UuidText → ℕ → ℕ → Job → Rows → PipelineLinkResult × Rows
unfolding try_link
link_completed_parent uuid now event_id parent rows =
    rolled_back rows (try_link uuid now event_id parent rows)

pub record PipelineFailureResult : Type 0 where
  pub failed_count : ℕ
  pub skipped_count : ℕ
  pub cancelled_count : ℕ
  pub reason : Option String

abbrev pub parent_failed : Detail
parent_failed =
    ("code", text "pipeline_parent_failed")
    ∷ ("message", text "Pipeline parent generation failed.")
    ∷ ("retryable", boolean false)
    ∷ ("cause", text "parent_failed")
    ∷ []

-- What the loop does to one child: it skips a foreign one and leaves one that does not wait.
pub data ChildFate : Type 0 where
  skipped left : ChildFate
  failed_child cancelled_child : Job → ChildFate

unfoldable pub child_fate : ℕ → UserStatus → Job → Job → Result PipelineError ChildFate
unfolding mark_cancelled
child_fate now owner_status parent child =
    if not (owned_child parent child)
    then ok skipped
    else if not child.blocked || is_terminal child.state
    then ok left
    else if is_suspended owner_status
    then (or_state (mark_cancelled now child) >>= λ c. ok (cancelled_child c))
    else (or_state (
          transition now (record child { error = some parent_failed }) (member failed)
            (some (("error", text "pipeline_parent_failed") ∷ ("cause", text "parent_failed") ∷ []))
            none)
        >>= λ c. ok (failed_child c))

abbrev count_of : String → ChildFate → PipelineFailureResult → PipelineFailureResult
count_of reason skipped r = record r { skipped_count = suc r.skipped_count; reason = some reason }
count_of reason left r = r
count_of reason (failed_child c) r = record r { failed_count = suc r.failed_count }
count_of reason (cancelled_child c) r = record r { cancelled_count = suc r.cancelled_count }

abbrev pub apply_fate : ChildFate → Rows → Rows
apply_fate skipped rows = rows
apply_fate left rows = rows
apply_fate (failed_child c) rows = save_job c rows
apply_fate (cancelled_child c) rows = save_job c rows

-- The loop, with what came of each child, and the commit of what it changed.
unfoldable pub fail_children :
    ℕ → UserStatus → Job → List Job → Rows → Result PipelineError (PipelineFailureResult × Rows)
unfolding child_fate
fail_children now owner_status parent [] rows =
    ok (record { failed_count = 0; skipped_count = 0; cancelled_count = 0; reason = none }, rows)
fail_children now owner_status parent (child ∷ children) rows = do
  fate ← child_fate now owner_status parent child
  (result, rows') ← fail_children now owner_status parent children (apply_fate fate rows)
  ok (count_of "ownership_reference_mismatch" fate result, rows')

abbrev failure_rolled_back :
    Rows → Result PipelineError (PipelineFailureResult × Rows) → PipelineFailureResult × Rows
failure_rolled_back rows (ok out) = out
failure_rolled_back rows (err e) = (
  record {
    failed_count = 0;
    skipped_count = 0;
    cancelled_count = 0;
    reason = some "pipeline_link_failed";
  },
  rows,
)

-- `fail_blocked_children_for_parent`
unfoldable pub fail_blocked_children_for_parent : ℕ → Job → Rows → PipelineFailureResult × Rows
unfolding fail_children
fail_blocked_children_for_parent now parent rows = failure_rolled_back rows (
    lock_owner_status parent.owner_user_id rows >>= λ owner_status.
    fail_children now owner_status parent (pipeline_children parent.id rows) rows)
