-- ===== src/Runner/Sweep.antt =====
-- What the sweep and the mark of backend/app/services/jobs/runner.py write.

use ai_multimodal_platform.Prelude.{
  ℕ, ◌+◌, ◌≡◌, refl, ap, ◌∙◌, String, Bool, true, false, not, some, List, [], ◌∷◌, All, then_eq,
  else_eq, ==_iff, find-holds, length, filter, map, find, ◌==◌, ◌&&◌, if◌then◌else◌, arith, inl,
  inr, Bool-cases, Option-cases,
}
use ai_multimodal_platform.Prelude.Result.{ok, ◌>>=◌}
use ai_multimodal_platform.Job.{
  Job, failed, is_terminal, text, member, moved, transition, normalize_state, Detail,
}
use ai_multimodal_platform.Job.Runs.{fails_allowed}
use ai_multimodal_platform.Job.Claim.{save}
use ai_multimodal_platform.Pipeline.{Rows}
use ai_multimodal_platform.Handler.Over.{IsOver}
use ai_multimodal_platform.Job.Claim.Once.{find-save}
use ai_multimodal_platform.Runner.{
  with_error, orphan_error, runner_error, is_orphaned, is_resumable_polling_job, sweep_job,
  sweep_jobs, sweep_orphaned_jobs, mark_found_failed, mark_job_failed,
}

-- A job that is not at its end can be failed.
transition-failed :
    (now : ℕ) (job : Job) (detail : Detail)
    → is_terminal job.state ≡ false
    → transition now job (member failed) (some detail) (some now)
      ≡ ok (moved failed (some detail) now job)
unfolding transition normalize_state
transition-failed now job detail h = let edge = fails_allowed job.state h in rw edge refl

module _ (isoformat : ℕ → String) where
  -- The row that a swept job becomes.
  abbrev pub swept : ℕ → Job → Job
  swept now job =
      moved failed (some (("reason", text "runner_startup_sweep") ∷ [])) now
        (with_error isoformat (orphan_error isoformat now job) job)

  abbrev pub is_swept : (ℕ → Bool) → ℕ → ℕ → Job → Bool
  is_swept locked now older_than job =
      is_orphaned isoformat now older_than job && not (locked job.id)

  -- A sweep by its result: each orphaned row that no one holds is failed, and every other is left.
  abbrev pub swept_jobs : (ℕ → Bool) → ℕ → ℕ → List Job → List Job
  swept_jobs locked now older_than jobs =
      map (λ j. if is_swept locked now older_than j then swept now j else j) jobs

  sweep_job-swept :
      (now older_than : ℕ) (job : Job)
      → is_orphaned isoformat now older_than job ≡ true
      → sweep_job isoformat now job ≡ ok (1, swept now job)
  unfolding sweep_job
  sweep_job-swept now older_than job h =
      let going : is_terminal job.state ≡ false = ground (arith, h) in
      let fresh : is_resumable_polling_job job ≡ false = ground (arith, h) in
      let asked = with_error isoformat (orphan_error isoformat now job) job in
      let moves =
        transition-failed now asked (("reason", text "runner_startup_sweep") ∷ []) going in
      else_eq (is_terminal job.state) _ _ going
      ∙ else_eq (is_resumable_polling_job job) _ _ fresh
      ∙ ap (λ r. r >>= λ swept. ok (1, swept)) moves

  abbrev one_if : Bool → ℕ
  one_if b = if b then 1 else 0

  sweep_row-eq :
      (locked : ℕ → Bool) (now older_than : ℕ) (job : Job)
      → (if is_swept locked now older_than job then sweep_job isoformat now job else ok (0, job))
        ≡ ok (
          one_if (is_swept locked now older_than job),
          (if is_swept locked now older_than job then swept now job else job),
        )
  sweep_row-eq locked now older_than job = elim (Bool-cases (is_swept locked now older_than job)) [
    | inl e ↦
        let asked : is_orphaned isoformat now older_than job ≡ true = ground (arith, e) in
        rw e (sweep_job-swept now older_than job asked)
    | inr e ↦ rw e refl
  ]

  length-swept :
      (locked : ℕ → Bool) (now older_than : ℕ) (job : Job) (jobs : List Job)
      → length (filter (is_swept locked now older_than) (job ∷ jobs))
        ≡ one_if (is_swept locked now older_than job)
          + length (filter (is_swept locked now older_than) jobs)
  length-swept locked now older_than job jobs =
      elim (Bool-cases (is_swept locked now older_than job)) [
        | inl e ↦ rw e (omega arith)
        | inr e ↦ rw e (omega arith)
      ]

  sweep_jobs-eq :
      (locked : ℕ → Bool) (now older_than : ℕ) (jobs : List Job)
      → sweep_jobs isoformat locked now older_than jobs
        ≡ ok (
          length (filter (is_swept locked now older_than) jobs),
          swept_jobs locked now older_than jobs,
        )
  unfolding sweep_jobs
  sweep_jobs-eq locked now older_than [] = refl
  sweep_jobs-eq locked now older_than (job ∷ jobs) =
      rw
        (
          sweep_row-eq locked now older_than job,
          sweep_jobs-eq locked now older_than jobs,
          length-swept locked now older_than job jobs,
        )
        refl

  not-swept :
      (locked : ℕ → Bool) (now older_than : ℕ) (job : Job)
      → is_swept locked now older_than
          (if is_swept locked now older_than job then swept now job else job)
        ≡ false
  not-swept locked now older_than job = elim (Bool-cases (is_swept locked now older_than job)) [
    | inl e ↦ rw e refl
    | inr e ↦ rw (else_eq (is_swept locked now older_than job) (swept now job) job e) e
  ]

  none-swept :
      (locked : ℕ → Bool) (now older_than : ℕ) (jobs : List Job)
      → All (λ j. is_swept locked now older_than j ≡ false) (swept_jobs locked now older_than jobs)
  none-swept locked now older_than [] = tt
  none-swept locked now older_than (job ∷ jobs) =
      (not-swept locked now older_than job, none-swept locked now older_than jobs)

  -- The sweep always commits. It fails every orphaned row that no other transaction holds, leaves
  -- every other row and every other table as it was, the credit holds included, counts the rows it
  -- failed, and leaves no row that it would fail again.
  pub sweep_orphaned_jobs-swept_jobs :
      (locked : ℕ → Bool) (now older_than : ℕ) (rows : Rows)
      → (sweep_orphaned_jobs isoformat locked now older_than rows
          ≡ ok (
            length (filter (is_swept locked now older_than) rows.jobs),
            record rows { jobs = swept_jobs locked now older_than rows.jobs },
          ))
        × All
            (λ j. is_swept locked now older_than j ≡ false)
            (swept_jobs locked now older_than rows.jobs)
  unfolding sweep_orphaned_jobs
  sweep_orphaned_jobs-swept_jobs locked now older_than rows = (
    rw (sweep_jobs-eq locked now older_than rows.jobs) refl,
    none-swept locked now older_than rows.jobs,
  )

  -- A job whose task raised is over after the mark, unless its row is gone, and the mark never raises.
  pub mark_job_failed-IsOver :
      (code message : String) (now id : ℕ) (jobs : List Job)
      → (jobs' : List Job) × (mark_job_failed isoformat code message now id jobs ≡ ok jobs')
        × IsOver (find (λ j. j.id == id) jobs')
  unfolding mark_job_failed mark_found_failed
  mark_job_failed-IsOver code message now id jobs =
      elim (Option-cases (find (λ j. j.id == id) jobs)) [
        | inl gone ↦ (jobs, rw gone refl, rw gone tt)
        | inr (job, found) ↦ elim (Bool-cases (is_terminal job.state)) [
          | inl over ↦ (
            jobs,
            ap (λ o. mark_found_failed isoformat code message now o jobs) found
                ∙ then_eq (is_terminal job.state) _ _ over,
            rw found over,
          )
          | inr going ↦
              let same : job.id ≡ id =
                (==_iff job.id id).0 (find-holds (λ j. j.id == id) jobs found) in
              let asked =
                with_error isoformat (runner_error isoformat code message job.attempts now) job in
              let detail : Detail = ("error", text code) ∷ [] in
              let job' = moved failed (some detail) now asked in
              (
                save job' jobs,
                ap (λ o. mark_found_failed isoformat code message now o jobs) found
                    ∙ else_eq (is_terminal job.state) _ _ going
                    ∙ ap (λ r. r >>= λ j. ok (save j jobs))
                        (transition-failed now asked detail going),
                rw (find-save job job' id jobs found same) refl,
              )
        ]
      ]
