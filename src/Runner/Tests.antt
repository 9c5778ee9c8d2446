-- ===== src/Runner/Tests.antt =====
-- A runner on a table of two jobs, and the instances of the runner's theorems.
use ai_multimodal_platform.Prelude.{
  ℕ, ◌≡◌, refl, ◌==◌, String, Bool, true, false, none, List, [], ◌∷◌, find, arith, All,
}
use ai_multimodal_platform.Prelude.Result.{ok}
use ai_multimodal_platform.Job.{
  Job, JobState, pending, generating, t2i, transition, normalize_state,
}
use ai_multimodal_platform.Pipeline.{Rows}
use ai_multimodal_platform.Handler.Over.{IsOver}
use ai_multimodal_platform.Runner.{
  InProcessJobRunner, sweep_orphaned_jobs, mark_job_failed, poll_once, pick_pending_jobs,
  queue_jobs,
}
use ai_multimodal_platform.Runner.Slots.{
  Action, polls, finishes, shuts_down, act_all, HasRoom, act_all-HasRoom,
}
use ai_multimodal_platform.Runner.Sweep.{
  swept_jobs, is_swept, sweep_orphaned_jobs-swept_jobs, mark_job_failed-IsOver,
}

abbrev row : ℕ → JobState → Job
row id state = record {
  id = id;
  owner_user_id = 1;
  mode = t2i;
  model = "imagen-4.0-fast-generate-001";
  state = state;
  enhancement_id = none;
  parent_job_id = none;
  retry_of_job_id = none;
  source_asset_id = none;
  blocked = false;
  vertex_operation_name = none;
  attempts = 0;
  parameters = [];
  state_history = [];
  error = none;
  vertex_charged = false;
  created_at = 100;
  updated_at = 100;
}

abbrev jobs : List Job
jobs = row 7 pending ∷ row 8 generating ∷ row 9 pending ∷ []

abbrev rows : Rows
rows = record {
  jobs = jobs;
  assets = [];
  enhancements = [];
  events = [];
  credit = record {
    in_transaction = true;
    uuid4 = λ n. n;
    users = [];
    accounts = [];
    cycles = [];
    grants = [];
    operations = [];
    reservations = [];
    items = [];
    allocations = [];
    usage_records = [];
    ledger_events = [];
  };
}

abbrev runner : InProcessJobRunner
runner = record { concurrency = 1; sweep_after = 300; active_tasks = []; stopping = false }

abbrev nobody : ℕ → Bool
nobody id = false

abbrev instant : ℕ → String
instant now = "2026"

-- One slot: of the two pending jobs the first is queued and run.
poll_once_run : (poll_once nobody 200 jobs runner).0 ≡ record {
  concurrency = 1;
  sweep_after = 300;
  active_tasks = (7, false) ∷ [];
  stopping = false;
}
unfolding poll_once pick_pending_jobs queue_jobs transition normalize_state
poll_once_run = refl

abbrev actions : List Action
actions =
    polls nobody 200 jobs
    ∷ polls nobody 201 jobs
    ∷ finishes 7
    ∷ polls nobody 202 jobs
    ∷ shuts_down
    ∷ []

act_all-HasRoom_example :
    HasRoom (act_all actions runner) × ((act_all actions runner).concurrency ≡ 1)
act_all-HasRoom_example = act_all-HasRoom actions runner (omega arith)

sweep_orphaned_jobs-swept_jobs_example :
    (sweep_orphaned_jobs instant nobody 500 300 rows
      ≡ ok (3, record rows { jobs = swept_jobs instant nobody 500 300 jobs }))
    × All (λ j. is_swept instant nobody 500 300 j ≡ false) (swept_jobs instant nobody 500 300 jobs)
sweep_orphaned_jobs-swept_jobs_example = sweep_orphaned_jobs-swept_jobs instant nobody 500 300 rows

mark_job_failed-IsOver_example :
    (jobs' : List Job) × (mark_job_failed instant "runtime_error" "out of memory" 500 8 jobs
      ≡ ok jobs')
    × IsOver (find (λ j. j.id == 8) jobs')
mark_job_failed-IsOver_example =
    mark_job_failed-IsOver instant "runtime_error" "out of memory" 500 8 jobs
