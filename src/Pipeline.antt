-- ===== src/Pipeline.antt =====
-- The rows that the jobs of a pipeline share, and the references between them:
-- backend/app/ownership.py. Reading a row of a table is a search in a list; a write of an object is a
-- write of the row with its id. The clock is read once in each call.
pub mod Cancel
pub mod Link
mod Tests
use ai_multimodal_platform.Prelude.{
  ℕ, String, Bool, true, false, not, Option, none, some, List, find, any, ◌==◌, ◌&&◌, str_eq,
  if◌then◌else◌,
}
use ai_multimodal_platform.Prelude.Result.{Result, ok, err, ◌>>=◌, ◌>>◌, fail_if, or_fail}
use ai_multimodal_platform.Credit.Tables.{Session}
use ai_multimodal_platform.Outbox.{OutboxEvent}
use ai_multimodal_platform.Job.{Job, Asset, i2v, polling, InvalidTransitionError}
use ai_multimodal_platform.Job.Claim.{state_eq, is_nonempty, save}
use ai_multimodal_platform.Generation.{UuidText, GenerationCreditError, is_id, is_i2v}
use ai_multimodal_platform.Generation.Terminal.{TerminalResult, terminalize_generation}

-- The tables. Of a prompt enhancement only its id and its owner are read.
pub record Rows : Type 0 where
  pub jobs : List Job
  pub assets : List Asset
  pub enhancements : List (ℕ × ℕ)
  pub events : List OutboxEvent
  pub credit : Session

-- What the calls raise. `master` carries the code of a MasterWorkError.
pub data PipelineError : Type 0 where
  generation : GenerationCreditError → PipelineError
  state : InvalidTransitionError → PipelineError
  master : String → PipelineError
  ownership_reference_mismatch : PipelineError

abbrev pub or_generation : {A : Type 0} → Result GenerationCreditError A → Result PipelineError A
or_generation (ok a) = ok a
or_generation (err e) = err (generation e)

abbrev pub or_state : {A : Type 0} → Result InvalidTransitionError A → Result PipelineError A
or_state (ok a) = ok a
or_state (err e) = err (state e)

abbrev pub save_job : Job → Rows → Rows
save_job job rows = record rows { jobs = save job rows.jobs }

-- `generation_credit.terminalize_generation` on the rows.
unfoldable pub terminalize_rows :
    UuidText → Job → Bool → Option String → ℕ → Rows → Result PipelineError (TerminalResult × Rows)
terminalize_rows uuid job succeeded reason now rows = do
  (result, credit) ←
      or_generation
        (terminalize_generation uuid rows.jobs rows.assets job succeeded reason now rows.credit)
  ok (result, record rows { credit = credit })

-- The query of `validate_execution_references` for one reference, and its check of the row found.
abbrev pub enhancement_owned : ℕ → Option ℕ → Rows → Bool
enhancement_owned owner none rows = true
enhancement_owned owner (some id) rows = any (λ e. e.0 == id && e.1 == owner) rows.enhancements

abbrev pub job_owned : ℕ → Option ℕ → Rows → Bool
job_owned owner none rows = true
job_owned owner (some id) rows = any (λ j. j.id == id && j.owner_user_id == owner) rows.jobs

-- The asset joined with its job.
abbrev pub asset_owned : ℕ → ℕ → Rows → Option Asset
asset_owned owner id rows =
    find (λ a. a.id == id && job_owned owner (some a.job_id) rows) rows.assets

-- `job.mode == I2V and not (job.state == POLLING and job.vertex_operation_name)`
abbrev pub needs_source : Job → Bool
needs_source job =
    is_i2v job.mode && not (state_eq job.state polling && is_nonempty job.vertex_operation_name)

abbrev pub source_asset : Option ℕ → Job → Rows → Result PipelineError (Option Asset)
source_asset none job rows = fail_if (needs_source job) ownership_reference_mismatch >> ok none
source_asset (some id) job rows =
    or_fail (asset_owned job.owner_user_id id rows) ownership_reference_mismatch >>= λ a.
    ok (some a)

-- `validate_execution_references`
unfoldable pub validate_execution_references : Job → Rows → Result PipelineError (Option Asset)
validate_execution_references job rows = do
  let owner = job.owner_user_id
  fail_if (not (enhancement_owned owner job.enhancement_id rows)) ownership_reference_mismatch
  fail_if (not (job_owned owner job.parent_job_id rows)) ownership_reference_mismatch
  fail_if (not (job_owned owner job.retry_of_job_id rows)) ownership_reference_mismatch
  source_asset job.source_asset_id job rows

-- `assert_same_owner` does not raise.
abbrev pub is_same_owner : Job → Job → Bool
is_same_owner job related = job.owner_user_id == related.owner_user_id

-- `_owned_child` of services/jobs/pipeline_link.py
abbrev pub owned_child : Job → Job → Bool
owned_child parent child = is_same_owner parent child && is_id parent.id child.parent_job_id
