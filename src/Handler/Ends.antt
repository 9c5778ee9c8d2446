-- ===== src/Handler/Ends.antt =====
-- The state in which the handlers of backend/app/services/jobs/handlers.py leave the row of a job.
use mathlib.Core.Path.{subst}
use ai_multimodal_platform.Prelude.{
  ℕ, ◌≡◌, refl, ap, sym, ◌∙◌, true, false, not, ◌&&◌, Option, some, none, List, arith, inl, inr,
  Bool-cases, Option-cases, find, find-holds, ◌==◌, ==_iff, if◌then◌else◌,
}
use ai_multimodal_platform.Prelude.Pointwise.{Pointwise, nil, cons}
use ai_multimodal_platform.Prelude.Result.{ok, err, >>=-eq-ok}
use ai_multimodal_platform.Job.{
  Job, JobState, pending, failed, is_terminal, member, transition, GenerationMode, t2i, t2v, i2v,
}
use ai_multimodal_platform.Job.Runs.{in_every_state}
use ai_multimodal_platform.Job.Claim.{state_eq, save}
use ai_multimodal_platform.Pipeline.{Rows, or_state, save_job, terminalize_rows}
use ai_multimodal_platform.Pipeline.Cancel.Outcome.{terminalize_rows-keeps}
use ai_multimodal_platform.Pipeline.Link.{link_completed_parent}
use ai_multimodal_platform.Pipeline.Link.Kept.{over_failed, fail_blocked_children-AreKeptOrOver}
use ai_multimodal_platform.Pipeline.Link.Written.{IsRowOfOther, All-child}
use ai_multimodal_platform.Pipeline.Link.Outcome.{link_completed_parent-cases}
use ai_multimodal_platform.Handler.{
  HandlerError, or_raised, World, Run, and_then, failing, mark_failed, recover, kept_job,
  mark_found,
}
use ai_multimodal_platform.Handler.Ids.{commit-eq-ok, or_raised-eq-ok, transition-moves}
use ai_multimodal_platform.Handler.Over.{
  IsOver, AreOver, AreOver-IsOver, saved-AreOver, kept-IsOver,
}
use ai_multimodal_platform.Handler.Completes.{
  generate_images-AreOver, generate_t2v-AreOver, generate_i2v-AreOver,
}
use ai_multimodal_platform.Handler.Image.{
  Images, is_mismatch, fail_children_of, after_failure, after_generation, handle_t2i,
}
use ai_multimodal_platform.Handler.Video.{
  Videos, after_video, handle_t2v, handle_i2v, handle_mode, handle,
}

-- The row of a job, if there is one, is at its end.
abbrev IsRowOver : ℕ → Rows → Type 0
IsRowOver id rows = IsOver (find (λ j. j.id == id) rows.jobs)

failing-AreOver :
    (world : World) (now : ℕ) (job : Job) (e : HandlerError) (rows rows' : Rows) (job' : Job)
    → failing world now job e rows ≡ ok (job', rows')
    → AreOver job.id rows'.jobs
unfolding failing
failing-AreOver world now job e rows rows' job' h =
    let (done, e1, h1) =
      >>=-eq-ok (or_raised (or_state (transition now _ (member failed) _ (some now)))) _ h in
    let (o, e2, h2) = >>=-eq-ok (or_raised (terminalize_rows world.uuid done false _ now _)) _ h1 in
    let same : o.1 ≡ rows' = cc in
    let (at, kept) = transition-moves now _ done failed _ (some now) e1 in
    let jobs =
      (terminalize_rows-keeps world.uuid done false _ now (save_job done rows) o
        (or_raised-eq-ok _ e2)).0 in
    subst (λ r. AreOver job.id r.jobs) same
      (subst (AreOver job.id) (sym jobs) (
        subst (λ i. AreOver i (save done rows.jobs)) kept
          (saved-AreOver done rows.jobs (over_failed done.state at))))

found-id :
    (id : ℕ) (jobs : List Job) (job : Job) → find (λ j. j.id == id) jobs ≡ some job → job.id ≡ id
found-id id jobs job found = (==_iff job.id id).0 (find-holds (λ j. j.id == id) jobs found)

-- A job that was found at its end.
found-IsRowOver :
    (id : ℕ) (rows : Rows) (job : Job)
    → find (λ j. j.id == id) rows.jobs ≡ some job
    → is_terminal job.state ≡ true
    → IsRowOver id rows
found-IsRowOver id rows job found over = rw found over

mark_failed-IsRowOver :
    (world : World) (now id : ℕ) (job : Job) (e : HandlerError) (rows rows' : Rows) (job' : Job)
    → find (λ j. j.id == id) rows.jobs ≡ some job
    → mark_failed world now job e rows ≡ (rows', ok job')
    → IsRowOver id rows'
unfolding mark_failed
mark_failed-IsRowOver world now id job e rows rows' job' found h =
    elim (Bool-cases (is_terminal job.state)) [
      | inl t ↦
          let kept = rw t at h in
          let same : rows ≡ rows' = cc in
          subst (IsRowOver id) same (found-IsRowOver id rows job found t)
      | inr f ↦
          let over =
            failing-AreOver world now job e rows rows' job' (commit-eq-ok rows _ (rw f at h)) in
          AreOver-IsOver id rows'.jobs
            (subst (λ i. AreOver i rows'.jobs) (found-id id rows.jobs job found) over)
    ]

kept_job-eq-ok :
    (world : World) (r : Run Job) (rows' : Rows) (out : Option Job)
    → kept_job world r ≡ (rows', ok out)
    → (job : Job) × (r ≡ (rows', ok job))
kept_job-eq-ok world (rows, ok job) rows' out h = (job, cc)
kept_job-eq-ok world (rows, err e) rows' out h = absurd cc

recover-IsRowOver :
    (world : World) (now id : ℕ) (e : HandlerError) (rows rows' : Rows) (out : Option Job)
    → recover world now id e rows ≡ (rows', ok out)
    → IsRowOver id rows'
unfolding recover mark_found
recover-IsRowOver world now id e rows rows' out h =
    elim (Option-cases (find (λ j. j.id == id) rows.jobs)) [
      | inl none_found ↦
          let stopped = rw none_found at h in
          let same : rows ≡ rows' = cc in subst (IsRowOver id) same (rw none_found tt)
      | inr (job, found) ↦
          let (job', marked) =
            kept_job-eq-ok world (mark_failed world now job e rows) rows' out (rw found at h) in
          mark_failed-IsRowOver world now id job e rows rows' job' found marked
    ]

fail_children_of-IsRowOver :
    (world : World) (now id : ℕ) (calls : Images) (e : HandlerError) (marked : Option Job)
    (rows rows' : Rows) (out : Option Job)
    → IsRowOver id rows
    → fail_children_of world now calls e marked rows ≡ (rows', ok out)
    → IsRowOver id rows'
unfolding fail_children_of
fail_children_of-IsRowOver world now id calls e none rows rows' out over h =
    let same : rows ≡ rows' = cc in subst (IsRowOver id) same over
fail_children_of-IsRowOver world now id calls e (some job) rows rows' out over h =
    elim (Bool-cases (state_eq job.state failed && not (is_mismatch e))) [
      | inl t ↦
          let left = rw t at h in
          subst (IsRowOver id) (ap (λ o. o.0) left)
            (kept-IsOver id (fail_blocked_children-AreKeptOrOver now job rows) over)
      | inr f ↦
          let left = rw f at h in let same : rows ≡ rows' = cc in subst (IsRowOver id) same over
    ]

marked-end :
    (id : ℕ) (r : Run (Option Job)) {next : Option Job → Rows → Run (Option Job)} (rows' : Rows)
    (out : Option Job)
    → and_then r next ≡ (rows', ok out)
    → ((o : Option Job) (rows : Rows) → r ≡ (rows, ok o) → IsRowOver id rows)
    → ((o : Option Job) (rows : Rows)
        → IsRowOver id rows
        → next o rows ≡ (rows', ok out)
        → IsRowOver id rows')
    → IsRowOver id rows'
unfolding and_then
marked-end id (rows, ok o) rows' out h over last = last o rows (over o rows refl) h
marked-end id (rows, err e) rows' out h over last = absurd cc

pending_lives : (s : JobState) → state_eq s pending ≡ true → is_terminal s ≡ false
pending_lives s h =
    let tested =
      in_every_state (λ t. if state_eq t pending then not (is_terminal t) else true) refl s in
    ground (arith, tested, h)

-- The link of a child writes no row with another id.
others-IsOver :
    (id child_id : ℕ) {before jobs : List Job}
    → (child_id == id) ≡ false
    → Pointwise (IsRowOfOther child_id) before jobs
    → IsOver (find (λ j. j.id == id) before)
    → IsOver (find (λ j. j.id == id) jobs)
others-IsOver id child_id other nil h = tt
others-IsOver id child_id other (cons {x} {y} {xs} {ys} r rest) h =
    let same : (y.id == id) ≡ (x.id == id) = ap (λ n. n == id) r.0 in
    elim (Bool-cases (x.id == id)) [
      | inl e ↦
          let here : IsOver (some x) = rw e at h in
          elim (Bool-cases (x.id == child_id)) [
            | inl f ↦
                let hit =
                  (==_iff child_id id).1
                    (sym ((==_iff x.id child_id).0 f) ∙ (==_iff x.id id).0 e) in
                absurd (cc (hit, other))
            | inr f ↦ rw (same ∙ e) (ap (λ j. is_terminal j.state) (r.1 f) ∙ here)
          ]
      | inr e ↦
          let there : IsOver (find (λ j. j.id == id) xs) = rw e at h in
          rw (same ∙ e) (others-IsOver id child_id other rest there)
    ]

-- The child that is linked was pending, so it is not the job that ended.
link-IsRowOver :
    (world : World) (now event_id id : ℕ) (job : Job) (rows : Rows)
    → AreOver id rows.jobs
    → IsRowOver id (link_completed_parent world.uuid now event_id job rows).1
link-IsRowOver world now event_id id job rows over =
    let row_over = AreOver-IsOver id rows.jobs over in
    elim (link_completed_parent-cases world.uuid now event_id job rows) [
      | inl unlinked ↦ kept-IsOver id unlinked.2 row_over
      | inr linked ↦
          let ended =
            All-child (λ j. (j.id == id) ≡ true → is_terminal j.state ≡ true) job.id rows
              linked.child over linked.first in
          elim (Bool-cases (linked.child.id == id)) [
            | inl e ↦ absurd (cc (ended e, pending_lives linked.child.state linked.waiting.0))
            | inr e ↦ others-IsOver id linked.child.id e linked.written.others row_over
          ]
    ]

after_generation-IsRowOver :
    (world : World) (now id : ℕ) (calls : Images) (r : Run Job) (rows' : Rows) (out : Option Job)
    → ((rows : Rows) (job : Job) → r ≡ (rows, ok job) → AreOver id rows.jobs)
    → after_generation world now calls id r ≡ (rows', ok out)
    → IsRowOver id rows'
unfolding after_failure
after_generation-IsRowOver world now id calls (rows, ok job) rows' out done h =
    subst (IsRowOver id) (ap (λ o. o.0) h)
      (link-IsRowOver world now calls.event_id id job rows (done rows job refl))
after_generation-IsRowOver world now id calls (rows, err e) rows' out done h =
    marked-end id (recover world now id e rows) rows' out h
      (λ o r q. recover-IsRowOver world now id e rows r o q)
      (λ o r over q. fail_children_of-IsRowOver world now id calls e o r rows' out over q)

after_video-IsRowOver :
    (world : World) (now id : ℕ) (calls : Videos) (r : Run Job) (rows' : Rows) (out : Option Job)
    → ((rows : Rows) (job : Job) → r ≡ (rows, ok job) → AreOver id rows.jobs)
    → after_video world now calls id r ≡ (rows', ok out)
    → IsRowOver id rows'
after_video-IsRowOver world now id calls (rows, ok job) rows' out done h =
    subst (IsRowOver id) (ap (λ o. o.0) h) (AreOver-IsOver id rows.jobs (done rows job refl))
after_video-IsRowOver world now id calls (rows, err e) rows' out done h =
    recover-IsRowOver world now id e rows rows' out h

-- A job that was found at its end is left alone.
left_alone-IsRowOver :
    (id : ℕ) (job : Job) (rows rows' : Rows) (r : Run (Option Job)) (out : Option Job)
    → find (λ j. j.id == id) rows.jobs ≡ some job
    → (r ≡ (rows', ok out) → IsRowOver id rows')
    → (if is_terminal job.state then (rows, ok (some job)) else r) ≡ (rows', ok out)
    → IsRowOver id rows'
left_alone-IsRowOver id job rows rows' r out found rest h =
    elim (Bool-cases (is_terminal job.state)) [
      | inl t ↦
          let kept = rw t at h in
          let same : rows ≡ rows' = cc in
          subst (IsRowOver id) same (found-IsRowOver id rows job found t)
      | inr f ↦ rest (rw f at h)
    ]

handle_mode-IsRowOver :
    (world : World) (now : ℕ) (calls : Videos) (images : Images) (mode : GenerationMode) (job : Job)
    (rows rows' : Rows) (out : Option Job)
    → find (λ j. j.id == job.id) rows.jobs ≡ some job
    → handle_mode world now calls images mode job rows ≡ (rows', ok out)
    → IsRowOver job.id rows'
unfolding handle_t2i handle_t2v handle_i2v
handle_mode-IsRowOver world now calls images t2i job rows rows' out found h =
    left_alone-IsRowOver job.id job rows rows' _ out found
      (λ q.
        after_generation-IsRowOver world now job.id images _ rows' out
          (λ r j p. generate_images-AreOver world now job.id images job rows r j refl p) q)
      h
handle_mode-IsRowOver world now calls images t2v job rows rows' out found h =
    left_alone-IsRowOver job.id job rows rows' _ out found
      (λ q.
        after_video-IsRowOver world now job.id calls _ rows' out
          (λ r j p. generate_t2v-AreOver world now job.id calls job rows r j refl p) q)
      h
handle_mode-IsRowOver world now calls images i2v job rows rows' out found h =
    left_alone-IsRowOver job.id job rows rows' _ out found
      (λ q.
        after_video-IsRowOver world now job.id calls _ rows' out
          (λ r j p. generate_i2v-AreOver world now job.id calls job rows r j refl p) q)
      h

-- When a handler returns, for an image or a video, the row found under the job's id in the table
-- that it committed is completed, failed or cancelled, unless there is none, whatever its calls
-- answered.
pub handle-IsOver :
    (world : World) (now : ℕ) (calls : Videos) (images : Images) (missing : HandlerError)
    (job_id : ℕ) (rows rows' : Rows) (out : Option Job)
    → handle world now calls images missing job_id rows ≡ (rows', ok out)
    → IsOver (find (λ j. j.id == job_id) rows'.jobs)
unfolding handle
handle-IsOver world now calls images missing job_id rows rows' out h =
    elim (Option-cases (find (λ j. j.id == job_id) rows.jobs)) [
      | inl e ↦ let stopped = rw e at h in absurd cc
      | inr (job, e) ↦
          let same = found-id job_id rows.jobs job e in
          let found : find (λ j. j.id == job.id) rows.jobs ≡ some job =
            subst (λ i. find (λ j. j.id == i) rows.jobs ≡ some job) (sym same) e in
          subst (λ i. IsOver (find (λ j. j.id == i) rows'.jobs)) same
            (handle_mode-IsRowOver world now calls images job.mode job rows rows' out found
              (rw e at h))
    ]
