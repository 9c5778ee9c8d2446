-- ===== src/Handler/Completes.antt =====
-- The bodies of the handlers of backend/app/services/jobs/handlers.py that come to their end: the
-- row of the job is completed in the table that they commit.
use mathlib.Core.Path.{subst}
use ai_multimodal_platform.Prelude.{
  ℕ, ◌≡◌, refl, ◌∙◌, String, true, Option, some, none, List, inl, inr, Bool-cases,
}
use ai_multimodal_platform.Prelude.Int.{ℤ}
use ai_multimodal_platform.Prelude.Result.{ok, >>=-eq-ok}
use ai_multimodal_platform.Job.{Job, JobState, completed, is_terminal, Asset, transition, member}
use ai_multimodal_platform.Pipeline.{Rows, or_state, save_job, terminalize_rows}
use ai_multimodal_platform.Handler.{or_raised, World}
use ai_multimodal_platform.Handler.Ids.{
  and_then-end, and_then-last, commit-eq-ok, or_map-eq-ok, transition-moves, move_to-id,
  queue_pending-id, with_attempts-id,
}
use ai_multimodal_platform.Handler.Over.{AreOver, saved-AreOver}
use ai_multimodal_platform.Handler.Steps.{complete}
use ai_multimodal_platform.Handler.Image.{Images, charge, generate_images}
use ai_multimodal_platform.Handler.Video.{
  Videos, deliver, resume, prepare, submit, is_resumed, generate_t2v, generate_i2v,
}

HasId : ℕ → Job → Type 0
HasId id job = job.id ≡ id

over_completed : (s : JobState) → s ≡ completed → is_terminal s ≡ true
over_completed s h = rw h refl

complete-AreOver :
    (world : World) (now id : ℕ) (assets : List Asset) (job : Job) (rows rows' : Rows) (job' : Job)
    → job.id ≡ id
    → complete world now assets job rows ≡ (rows', ok job')
    → AreOver id rows'.jobs
unfolding complete
complete-AreOver world now id assets job rows rows' job' named h =
    let (o, e, h1) =
      >>=-eq-ok (or_raised (terminalize_rows world.uuid job true none now _)) _
        (commit-eq-ok rows _ h) in
    let (done, e1, h2) =
      >>=-eq-ok (or_raised (or_state (transition now job (member completed) none none))) _ h1 in
    let same : save_job done o.1 ≡ rows' = cc in
    let (at, kept) = transition-moves now job done completed none none e1 in
    subst (λ r. AreOver id r.jobs) same
      (subst (λ i. AreOver i (save_job done o.1).jobs) (kept ∙ named)
        (saved-AreOver done o.1.jobs (over_completed done.state at)))

pub generate_images-AreOver :
    (world : World) (now id : ℕ) (calls : Images) (job : Job) (rows rows' : Rows) (job' : Job)
    → job.id ≡ id
    → generate_images world now calls job rows ≡ (rows', ok job')
    → AreOver id rows'.jobs
unfolding generate_images HasId
generate_images-AreOver world now id calls job rows rows' job' named h =
    let P = AreOver id rows'.jobs in
    let Q = HasId id in
    and_then-last P _ h λ a0 r0 h0.
      and_then-end Q P _ h0 (λ a r q. queue_pending-id now job r0 r a q ∙ named)
        λ a1 r1 n1 h1. and_then-last P _ h1 λ a2 r2 h2.
          and_then-end Q P _ h2 (λ a r q. move_to-id now _ _ a1 r2 r a q ∙ n1)
            λ a3 r3 n3 h3.
              and_then-end (λ m. Q m.0) P _ h3 (λ a r q. with_attempts-id world _ a3 r3 r a q ∙ n3)
                λ a4 r4 n4 h4.
                  and_then-end Q P _ h4 (λ a r q. move_to-id now _ _ (charge a4.0) r4 r a q ∙ n4)
                    λ a5 r5 n5 h5.
                      and_then-last P _ h5
                        λ a6 r6 h6. complete-AreOver world now id a6 a5 r6 rows' job' n5 h6

deliver-AreOver :
    (world : World) (now id : ℕ) (calls : Videos) (duration : ℤ) (size : ℕ) (job : Job)
    (rows rows' : Rows) (job' : Job)
    → job.id ≡ id
    → deliver world now calls duration size job rows ≡ (rows', ok job')
    → AreOver id rows'.jobs
unfolding deliver HasId
deliver-AreOver world now id calls duration size job rows rows' job' named h =
    let P = AreOver id rows'.jobs in
    and_then-end (HasId id) P _ h (λ a r q. move_to-id now _ _ (charge job) rows r a q ∙ named)
      λ a0 r0 n0 h0.
        and_then-last P _ h0 λ a1 r1 h1. complete-AreOver world now id _ a0 r1 rows' job' n0 h1

resume-AreOver :
    (world : World) (now id : ℕ) (calls : Videos) (duration : ℤ) (job : Job) (rows rows' : Rows)
    (job' : Job)
    → job.id ≡ id
    → resume world now calls duration job rows ≡ (rows', ok job')
    → AreOver id rows'.jobs
unfolding resume
resume-AreOver world now id calls duration job rows rows' job' named h =
    and_then-last (AreOver id rows'.jobs) _ h
      λ a0 r0 h0. deliver-AreOver world now id calls duration a0 job r0 rows' job' named h0

prepare-id :
    (world : World) (now id : ℕ) (calls : Videos) (job : Job) (rows rows' : Rows) (job' : Job)
    → job.id ≡ id
    → prepare world now calls job rows ≡ (rows', ok job')
    → job'.id ≡ id
unfolding prepare HasId
prepare-id world now id calls job rows rows' job' named h =
    let P = job'.id ≡ id in
    and_then-end (HasId id) P _ h (λ a r q. queue_pending-id now job rows r a q ∙ named)
      λ a0 r0 n0 h0. and_then-last P _ h0 λ a1 r1 h1. move_to-id now _ _ a0 r1 rows' job' h1 ∙ n0

submit-AreOver :
    (world : World) (now id : ℕ) (calls : Videos) (source : Option (ℕ × String)) (duration : ℤ)
    (job : Job) (rows rows' : Rows) (job' : Job)
    → job.id ≡ id
    → submit world now calls source duration job rows ≡ (rows', ok job')
    → AreOver id rows'.jobs
unfolding submit HasId
submit-AreOver world now id calls source duration job rows rows' job' named h =
    let P = AreOver id rows'.jobs in
    and_then-end (λ m. HasId id m.0) P _ h
      (λ a r q. with_attempts-id world _ job rows r a (or_map-eq-ok _ _ q) ∙ named)
      λ a0 r0 n0 h0.
        and_then-end (HasId id) P _ h0 (λ a r q. move_to-id now _ _ _ r0 r a q ∙ n0)
          λ a1 r1 n1 h1.
            and_then-last P _ h1
              λ a2 r2 h2. deliver-AreOver world now id calls duration a2 a1 r2 rows' job' n1 h2

pub generate_t2v-AreOver :
    (world : World) (now id : ℕ) (calls : Videos) (job : Job) (rows rows' : Rows) (job' : Job)
    → job.id ≡ id
    → generate_t2v world now calls job rows ≡ (rows', ok job')
    → AreOver id rows'.jobs
unfolding generate_t2v HasId
generate_t2v-AreOver world now id calls job rows rows' job' named h =
    let P = AreOver id rows'.jobs in
    and_then-last P _ h λ a0 r0 h0. and_then-last P _ h0 λ d r1 h1.
      elim (Bool-cases (is_resumed world now calls job)) [
        | inl t ↦ resume-AreOver world now id calls d job r1 rows' job' named (rw t at h1)
        | inr f ↦
            and_then-end (HasId id) P _ (rw f at h1)
              (λ a r q. prepare-id world now id calls job r1 r a named q)
              λ a2 r2 n2 h2. submit-AreOver world now id calls none d a2 r2 rows' job' n2 h2
      ]

pub generate_i2v-AreOver :
    (world : World) (now id : ℕ) (calls : Videos) (job : Job) (rows rows' : Rows) (job' : Job)
    → job.id ≡ id
    → generate_i2v world now calls job rows ≡ (rows', ok job')
    → AreOver id rows'.jobs
unfolding generate_i2v HasId
generate_i2v-AreOver world now id calls job rows rows' job' named h =
    let P = AreOver id rows'.jobs in
    and_then-last P _ h λ a0 r0 h0. and_then-last P _ h0 λ d r1 h1.
      elim (Bool-cases (is_resumed world now calls job)) [
        | inl t ↦ resume-AreOver world now id calls d job r1 rows' job' named (rw t at h1)
        | inr f ↦
            and_then-end (HasId id) P _ (rw f at h1)
              (λ a r q. prepare-id world now id calls job r1 r a named q)
              λ a2 r2 n2 h2.
                and_then-last P _ h2
                  λ b r3 h3. submit-AreOver world now id calls (some b) d a2 r3 rows' job' n2 h3
      ]
