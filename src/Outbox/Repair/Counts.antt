-- ===== src/Outbox/Repair/Counts.antt =====
-- What a repair of backend/app/services/jobs/repair.py reports.
use ai_multimodal_platform.Prelude.{
  ℕ, suc, ◌+◌, ◌≤◌, ◌≡◌, refl, String, true, false, List, [], ◌∷◌, length, filter, sort_by, leb,
  ◌&&◌, if◌then◌else◌, arith, inl, inr, Bool-cases, All, All-take, filter_holds, sort_by-All,
  length-take,
}
use ai_multimodal_platform.Job.{Job}
use ai_multimodal_platform.Outbox.Repair.{
  Dispatched, result, exception, DispatchResult, RepairResult, is_ok, is_nonempty_text, is_missing,
  kept_result, reenqueue_from, reenqueue_jobs, is_pending_unblocked, pending_unblocked_jobs,
  reenqueue_pending_jobs,
}

-- What a repair did with the jobs that it selected: it kept one result for each, counted each as
-- dispatched or as failed by its result, and an error with a text has a code.
pub record IsRepair (jobs : List Job) (out : RepairResult) : Type 0 where
  pub selected : out.selected ≡ length jobs
  pub counted : out.dispatched + out.failed ≡ out.selected
  pub reported : length out.dispatch_results ≡ out.selected
  pub succeeded : out.dispatched ≡ length (filter is_ok out.dispatch_results)
  pub coded :
      All
        (λ r. is_nonempty_text r.error ≡ true → is_missing r.error_code ≡ false)
        out.dispatch_results

module _ (re_sub : String → String → String → String) (strip_underscores lower : String → String)
    (dispatcher : ℕ → String → Dispatched) (reason : String) where
  kept_result-coded :
      (job_id : ℕ) (d : Dispatched)
      → is_nonempty_text (kept_result re_sub strip_underscores lower job_id reason d).error ≡ true
      → is_missing (kept_result re_sub strip_underscores lower job_id reason d).error_code ≡ false
  kept_result-coded job_id (exception class_name message) h = refl
  kept_result-coded job_id (result r) h =
      elim (Bool-cases (is_nonempty_text r.error && is_missing r.error_code)) [
        | inl e ↦ rw e refl
        | inr e ↦ let kept = rw e at h in rw e (ground (arith, e, kept))
      ]

  -- What the loop adds to its numbers.
  record IsRun (dispatched failed : ℕ) (jobs : List Job) (out : ℕ × ℕ × List DispatchResult)
      : Type 0 where
    counted : out.0 + out.1 ≡ dispatched + failed + length jobs
    reported : length out.2 ≡ length jobs
    succeeded : out.0 ≡ dispatched + length (filter is_ok out.2)
    coded : All (λ r. is_nonempty_text r.error ≡ true → is_missing r.error_code ≡ false) out.2

  reenqueue_from-IsRun :
      (dispatched failed : ℕ) (jobs : List Job)
      → IsRun dispatched failed jobs
          (reenqueue_from re_sub strip_underscores lower dispatcher reason dispatched failed jobs)
  unfolding reenqueue_from
  reenqueue_from-IsRun dispatched failed [] = record {
    counted = omega arith;
    reported = refl;
    succeeded = omega arith;
    coded = tt;
  }
  reenqueue_from-IsRun dispatched failed (job ∷ jobs) =
      let answer = dispatcher job.id reason in
      let r = kept_result re_sub strip_underscores lower job.id reason answer in
      let rest =
        reenqueue_from-IsRun (if is_ok r then suc dispatched else dispatched)
          (if is_ok r then failed else suc failed) jobs in
      record {
        counted = ground (arith, rest.counted);
        reported = omega (arith, rest.reported);
        succeeded = ground (arith, rest.succeeded);
        coded = (kept_result-coded job.id answer, rest.coded);
      }

  reenqueue_jobs-IsRepair :
      (jobs : List Job)
      → IsRepair jobs (reenqueue_jobs re_sub strip_underscores lower dispatcher reason jobs)
  unfolding reenqueue_jobs
  reenqueue_jobs-IsRepair jobs =
      let run = reenqueue_from-IsRun 0 0 jobs in
      record {
        selected = refl;
        counted = omega (arith, run.counted);
        reported = run.reported;
        succeeded = omega (arith, run.succeeded);
        coded = run.coded;
      }

  -- A repair of the waiting jobs dispatches at most its limit of jobs, each of them pending and not
  -- blocked; it keeps a result for each, whether the dispatcher returns or raises, and each counts as
  -- dispatched or as failed by its result, and every error that has a text has a code.
  pub reenqueue_pending_jobs-IsRepair :
      (limit : ℕ) (table : List Job)
      → (length (pending_unblocked_jobs limit table) ≤ limit)
        × All (λ j. is_pending_unblocked j ≡ true) (pending_unblocked_jobs limit table)
        × IsRepair
            (pending_unblocked_jobs limit table)
            (reenqueue_pending_jobs re_sub strip_underscores lower dispatcher limit reason table)
  unfolding reenqueue_pending_jobs
  reenqueue_pending_jobs-IsRepair limit table =
      let before = λ (a b : Job). leb a.created_at b.created_at in
      let sorted = sort_by before (filter is_pending_unblocked table) in
      (
        length-take limit sorted,
        All-take (λ j. is_pending_unblocked j ≡ true) limit sorted
            (sort_by-All (λ j. is_pending_unblocked j ≡ true) before
              (filter is_pending_unblocked table) (filter_holds is_pending_unblocked table)),
        reenqueue_jobs-IsRepair (pending_unblocked_jobs limit table),
      )
