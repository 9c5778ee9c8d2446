-- ===== src/Outbox/Repair/Tests.antt =====
-- A repair of two waiting jobs, one of which Celery refuses, and the instance of the theorem.
use ai_multimodal_platform.Prelude.{
  ℕ, ◌≡◌, ◌≤◌, refl, ◌==◌, String, true, false, none, some, List, [], ◌∷◌, length, All,
  if◌then◌else◌,
}
use ai_multimodal_platform.Job.{Job, JobState, pending, generating, t2i}
use ai_multimodal_platform.Outbox.Repair.{
  Applied, task, not_applied, Dispatched, result, dispatch_job, is_pending_unblocked,
  pending_unblocked_jobs, RepairResult, reenqueue_from, reenqueue_jobs, reenqueue_pending_jobs,
}
use ai_multimodal_platform.Outbox.Repair.Counts.{IsRepair, reenqueue_pending_jobs-IsRepair}

abbrev row : ℕ → JobState → Job
row id state = record {
  id = id;
  owner_user_id = 1;
  mode = t2i;
  model = "imagen-4.0-fast-generate-001";
  state = state;
  enhancement_id = none;
  parent_job_id = none;
  retry_of_job_id = none;
  source_asset_id = none;
  blocked = false;
  vertex_operation_name = none;
  attempts = 0;
  parameters = [];
  state_history = [];
  error = none;
  vertex_charged = false;
  created_at = 100;
  updated_at = 100;
}

abbrev table : List Job
table = row 7 pending ∷ row 8 generating ∷ row 9 pending ∷ row 10 pending ∷ []

abbrev same : String → String
same s = s

abbrev re_sub : String → String → String → String
re_sub pattern replacement value = value

abbrev apply_async : ℕ → String → Applied
apply_async id queue = if id == 9 then not_applied "OperationalError" "" else task (some "t")

abbrev dispatcher : ℕ → String → Dispatched
dispatcher id reason = result (dispatch_job re_sub same same "celery" "jobs" apply_async id reason)

abbrev repair : RepairResult
repair = reenqueue_pending_jobs re_sub same same dispatcher 2 "repair_pending" table

repair-dispatched : repair.dispatched ≡ 1
unfolding dispatch_job reenqueue_from reenqueue_jobs reenqueue_pending_jobs
repair-dispatched = refl

reenqueue_pending_jobs-IsRepair_example :
    (length (pending_unblocked_jobs 2 table) ≤ 2)
    × All (λ j. is_pending_unblocked j ≡ true) (pending_unblocked_jobs 2 table)
    × IsRepair (pending_unblocked_jobs 2 table) repair
reenqueue_pending_jobs-IsRepair_example =
    reenqueue_pending_jobs-IsRepair re_sub same same dispatcher "repair_pending" 2 table
