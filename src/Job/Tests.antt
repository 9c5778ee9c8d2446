-- ===== src/Job/Tests.antt =====
-- Runs and instances of the job theorems on a text-to-video job.
use ai_multimodal_platform.Prelude.{
  ℕ, ◌≡◌, refl, String, Bool, true, false, none, some, List, [], ◌∷◌, ◌++◌, length, ◌≤◌, ◌+◌, find,
  ◌↔◌, ◌==◌,
}
use ai_multimodal_platform.Prelude.Result.{ok}
use ai_multimodal_platform.Job.State.{
  pending, generating, polling, downloading, completed, queued, Job, HistoryEntry, t2v,
}
use ai_multimodal_platform.Job.Machine.{StateArg, member, named, transition, normalize_state}
use ai_multimodal_platform.Job.History.{Call, run, run-history, Follows}
use ai_multimodal_platform.Job.Runs.{run_bounded, polls, can_complete}
use ai_multimodal_platform.Job.Claim.{claim, claim_job, ProcessJobResult, claimed, execution}
use ai_multimodal_platform.Job.Claim.Once.{claim_once, claim_total, claimed_table, is_claimable}

abbrev new_job : Job
new_job = record {
  id = 7;
  owner_user_id = 1;
  model = "veo-3.0-fast-generate-001";
  enhancement_id = none;
  parent_job_id = none;
  retry_of_job_id = none;
  source_asset_id = none;
  parameters = [];
  mode = t2v;
  state = pending;
  blocked = false;
  vertex_operation_name = none;
  attempts = 0;
  state_history = [];
  error = none;
  vertex_charged = false;
  created_at = 100;
  updated_at = 100;
}

abbrev call : ℕ → StateArg → Call
call at target = record { now = at; new_state = target; detail = none; at = none }

abbrev calls : List Call
calls =
    call 101 (named "queued")
    ∷ call 102 (member generating)
    ∷ call 103 (member polling)
    ∷ call 104 (named "polling")
    ∷ call 105 (member downloading)
    ∷ call 106 (member completed)
    ∷ []

abbrev entry : ℕ → String → HistoryEntry
entry at state = record { state = state; at = at; detail = none }

abbrev history : List HistoryEntry
history =
    entry 101 "queued"
    ∷ entry 102 "generating"
    ∷ entry 103 "polling"
    ∷ entry 104 "polling"
    ∷ entry 105 "downloading"
    ∷ entry 106 "completed"
    ∷ []

abbrev done_job : Job
done_job = record new_job { state = completed; state_history = history; updated_at = 106 }

full_run : run calls new_job ≡ ok done_job
unfolding run transition normalize_state
full_run = refl

run-history_example :
    (rest : List HistoryEntry) × (history ≡ [] ++ rest)
    × Follows pending rest completed
    × (length rest ≡ 6)
run-history_example = run-history calls new_job full_run

run_bounded_example : (rest : List HistoryEntry) × (history ≡ [] ++ rest) × (6 ≤ 5 + polls rest)
run_bounded_example = run_bounded calls new_job full_run

abbrev no_calls : List Call
no_calls = []

can_complete_example :
    (cs : List Call) × (job' : Job) × (run cs new_job ≡ ok job') × (job'.state ≡ completed)
can_complete_example = can_complete 100 new_job refl

abbrev unlocked : ℕ → Bool
unlocked id = false

claim_total_example :
    (r : ProcessJobResult) × (jobs' : List Job) × (claim unlocked 101 7 (new_job ∷ [])
      ≡ ok (r, jobs'))
    × ((r.executed ≡ true) ↔ (
        (job : Job) × (unlocked 7 ≡ false)
        × (find (λ j. j.id == 7) (new_job ∷ []) ≡ some job)
        × (is_claimable job ≡ true)))
claim_total_example = claim_total unlocked 101 7 (new_job ∷ [])

first_claim :
    claim unlocked 101 7 (new_job ∷ [])
    ≡ ok (execution new_job claimed queued, claimed_table 101 new_job (new_job ∷ []))
unfolding claim claim_job transition normalize_state
first_claim = refl

-- Another job came in after the first claim.
abbrev later_table : List Job
later_table = record new_job { id = 8 } ∷ claimed_table 101 new_job (new_job ∷ [])

claim_once_example :
    (r' : ProcessJobResult) × (row : Job) × (find
        (λ j. j.id == 7)
        (claimed_table 101 new_job (new_job ∷ []))
      ≡ some row)
    × (row.state ≡ queued)
    × (claim unlocked 102 7 later_table ≡ ok (r', later_table))
    × (r'.executed ≡ false)
claim_once_example =
    claim_once unlocked unlocked 101 102 7 (new_job ∷ []) later_table first_claim refl refl
