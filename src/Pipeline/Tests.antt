-- ===== src/Pipeline/Tests.antt =====
-- Runs of the link of a pipeline and of the cancellation of a suspended user's work.
use ai_multimodal_platform.Prelude.{
  ℕ, ◌≡◌, ◌⊎◌, refl, true, false, Bool, Option, none, some, [], ◌∷◌,
}
use ai_multimodal_platform.Prelude.Result.{Result, ok, err}
use ai_multimodal_platform.Credit.Tables.{Session, user, active, suspended, UserStatus}
use ai_multimodal_platform.Outbox.{OutboxEvent, OutboxEventStatus, add_job_dispatch_event}
use ai_multimodal_platform.Outbox
use ai_multimodal_platform.Job.{
  Job, JobState, GenerationMode, t2i, i2v, pending, completed, Asset, image, transition,
  normalize_state,
}
use ai_multimodal_platform.Generation.Letters.{unary}
use ai_multimodal_platform.Generation.Terminal.{parse_value, parse, terminalize_generation}
use ai_multimodal_platform.Pipeline.{Rows, PipelineError, terminalize_rows}
use ai_multimodal_platform.Pipeline.Cancel.{
  lock_owner_status, mark_cancelled, is_cancelled, select_cancelled, cancel_jobs, return_holds,
  cancel_unpublished,
}
use ai_multimodal_platform.Pipeline.Cancel.Outcome.{
  IsCancellation, cancel_unpublished-IsCancellation,
}
use ai_multimodal_platform.Pipeline.Link.{
  PipelineLinkResult, fail_child, link_child, link_first_child, try_link, link_completed_parent,
}
use ai_multimodal_platform.Pipeline.Link.Outcome.{IsUnlinked, IsLinked, link_completed_parent-cases}

abbrev session : UserStatus → Session
session status = record {
  in_transaction = true;
  uuid4 = λ n. n;
  users = record { id = 1; role = user; status = status; signed_up_at = 10 } ∷ [];
  accounts = [];
  cycles = [];
  grants = [];
  operations = [];
  reservations = [];
  items = [];
  allocations = [];
  usage_records = [];
  ledger_events = [];
}

abbrev new_job : ℕ → GenerationMode → JobState → Option ℕ → Bool → Job
new_job id mode state parent blocked = record {
  id = id;
  owner_user_id = 1;
  mode = mode;
  model = "imagen-4.0-fast-generate-001";
  state = state;
  enhancement_id = none;
  parent_job_id = parent;
  retry_of_job_id = none;
  source_asset_id = none;
  blocked = blocked;
  vertex_operation_name = none;
  attempts = 0;
  parameters = [];
  state_history = [];
  error = none;
  vertex_charged = false;
  created_at = 100;
  updated_at = 100;
}

abbrev parent : Job
parent = new_job 7 t2i completed none false

abbrev output : Asset
output = record {
  id = 30;
  job_id = 7;
  kind = image;
  local_path = "output.png";
  mime = "image/png";
  size_bytes = 10;
  duration_sec = none;
  created_at = 300;
}

abbrev rows : Rows
rows = record {
  jobs = parent ∷ new_job 8 i2v pending (some 7) true ∷ [];
  assets = output ∷ [];
  enhancements = [];
  events = [];
  credit = session active;
}

abbrev linked : PipelineLinkResult × Rows
linked = link_completed_parent unary 3000 40 parent rows

linked-eq :
    linked.0 ≡ record { linked = true; reason = none; child_id = some 8; source_asset_id = some 30 }
unfolding lock_owner_status mark_cancelled fail_child link_child link_first_child try_link
    link_completed_parent
linked-eq = refl

link_completed_parent-cases_example : IsUnlinked rows linked ⊎ IsLinked unary 40 parent rows linked
link_completed_parent-cases_example = link_completed_parent-cases unary 3000 40 parent rows

-- Job 9 was published and job 11 waits for it; job 10 waits in the outbox.
abbrev new_event : ℕ → ℕ → OutboxEventStatus → OutboxEvent
new_event id job status = record {
  id = id;
  event_type = "job.dispatch_requested";
  aggregate_type = "job";
  aggregate_id = job;
  payload = record { job_id = none; reason = none };
  status = status;
  attempts = 0;
  last_error = none;
  published_at = none;
  created_at = 100;
  updated_at = 100;
}

abbrev waiting : Rows
waiting = record {
  jobs =
      new_job 9 t2i pending none false
      ∷ new_job 10 t2i pending none false
      ∷ new_job 11 i2v pending (some 9) true
      ∷ [];
  assets = [];
  enhancements = [];
  events = new_event 1 9 Outbox.published ∷ new_event 2 10 Outbox.pending ∷ [];
  credit = session suspended;
}

abbrev or_none : Result PipelineError (ℕ × Rows) → ℕ × Rows
or_none (ok out) = out
or_none (err e) = (0, waiting)

abbrev cancellation : ℕ × Rows
cancellation = or_none (cancel_unpublished unary 1 3000 waiting)

cancellation-eq : cancel_unpublished unary 1 3000 waiting ≡ ok cancellation
unfolding transition normalize_state parse_value parse terminalize_generation terminalize_rows
    mark_cancelled is_cancelled select_cancelled cancel_jobs return_holds cancel_unpublished
cancellation-eq = refl

cancelled_count : cancellation.0 ≡ 1
unfolding transition normalize_state parse_value parse terminalize_generation terminalize_rows
    mark_cancelled is_cancelled select_cancelled cancel_jobs return_holds cancel_unpublished
cancelled_count = refl

cancel_unpublished-IsCancellation_example : IsCancellation 1 waiting cancellation
cancel_unpublished-IsCancellation_example =
    cancel_unpublished-IsCancellation unary 1 3000 waiting cancellation cancellation-eq
