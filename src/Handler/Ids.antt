-- ===== src/Handler/Ids.antt =====
-- The steps of backend/app/services/jobs/handlers.py work on one job: what they return has its id.

use ai_multimodal_platform.Prelude.{
  ℕ, zero, suc, ◌-◌, ◌≡◌, refl, ap, sym, ◌∙◌, Option, none, arith, inl, inr, Bool-cases,
}
use ai_multimodal_platform.Prelude.Result.{Result, ok, err, >>=-eq-ok}
use ai_multimodal_platform.Provider.{positive_part}
use ai_multimodal_platform.Job.{
  Job, JobState, pending, Asset, Detail, member, transition, normalize_state,
}
use ai_multimodal_platform.Job.Claim.{state_eq}
use ai_multimodal_platform.Pipeline.{Rows, PipelineError, or_state, validate_execution_references}
use ai_multimodal_platform.Pipeline.Cancel.Outcome.{or_state-eq-ok}
use ai_multimodal_platform.Handler.{HandlerError, or_raised, World, Run, and_then, commit, or_map}
use ai_multimodal_platform.Handler.Attempts.{last_attempt-ok, after_attempt-ok, after_policy-ok}
use ai_multimodal_platform.Handler.Steps.{
  move_to, queue_pending, after_check, attempt, attempt_from, checked_policy, with_attempts,
}

-- What a run that returned comes to is what its last call comes to, on what the first returned.
pub and_then-end :
    {A B : Type 0} (Q : A → Type 0) (P : Type 0) (r : Run A) {next : A → Rows → Run B}
    {rows' : Rows} {b : B}
    → and_then r next ≡ (rows', ok b)
    → ((a : A) (rows : Rows) → r ≡ (rows, ok a) → Q a)
    → ((a : A) (rows : Rows) → Q a → next a rows ≡ (rows', ok b) → P)
    → P
unfolding and_then
and_then-end Q P (rows, ok a) h first last = last a rows (first a rows refl) h
and_then-end Q P (rows, err e) h first last = absurd cc

-- The same, where nothing is said of the first call.
pub and_then-last :
    {A B : Type 0} (P : Type 0) (r : Run A) {next : A → Rows → Run B} {rows' : Rows} {b : B}
    → and_then r next ≡ (rows', ok b)
    → ((a : A) (rows : Rows) → next a rows ≡ (rows', ok b) → P)
    → P
and_then-last P r h last = and_then-end (λ a. Unit) P r h (λ a rows q. tt) (λ a rows q. last a rows)

pub commit-eq-ok :
    {A : Type 0} (rows : Rows) (r : Result HandlerError (A × Rows)) {rows' : Rows} {a : A}
    → commit rows r ≡ (rows', ok a)
    → r ≡ ok (a, rows')
commit-eq-ok rows (ok o) h = cc
commit-eq-ok rows (err e) h = absurd cc

pub or_raised-eq-ok :
    {A : Type 0} (r : Result PipelineError A) {a : A} → or_raised r ≡ ok a → r ≡ ok a
or_raised-eq-ok (ok b) h = cc
or_raised-eq-ok (err e) h = cc

pub or_map-eq-ok :
    {A : Type 0} (f : HandlerError → HandlerError) (r : Run A) {rows' : Rows} {a : A}
    → or_map f r ≡ (rows', ok a)
    → r ≡ (rows', ok a)
or_map-eq-ok f (rows, ok b) h = cc
or_map-eq-ok f (rows, err e) h = absurd cc

-- A transition that succeeds reaches its target and keeps the id.
pub transition-moves :
    (now : ℕ) (job job' : Job) (target : JobState) (detail : Option Detail) (at : Option ℕ)
    → or_raised (or_state (transition now job (member target) detail at)) ≡ ok job'
    → (job'.state ≡ target) × (job'.id ≡ job.id)
unfolding transition normalize_state
transition-moves now job job' target detail at h =
    let e = or_state-eq-ok _ (or_raised-eq-ok _ h) in (ground (arith, e), ground (arith, e))

pub move_to-id :
    (now : ℕ) (target : JobState) (detail : Option Detail) (job : Job) (rows rows' : Rows)
    (job' : Job)
    → move_to now target detail job rows ≡ (rows', ok job')
    → job'.id ≡ job.id
unfolding move_to
move_to-id now target detail job rows rows' job' h =
    let (moved_job, e, h1) =
      >>=-eq-ok (or_raised (or_state (transition now job (member target) detail none))) _
        (commit-eq-ok rows _ h) in
    let same : moved_job ≡ job' = cc in
    sym (ap (λ j. j.id) same) ∙ (transition-moves now job moved_job target detail none e).1

pub queue_pending-id :
    (now : ℕ) (job : Job) (rows rows' : Rows) (job' : Job)
    → queue_pending now job rows ≡ (rows', ok job')
    → job'.id ≡ job.id
unfolding queue_pending
queue_pending-id now job rows rows' job' h = elim (Bool-cases (state_eq job.state pending)) [
  | inl e ↦ move_to-id now _ _ job rows rows' job' (rw e at h)
  | inr e ↦ let kept = rw e at h in let same : job ≡ job' = cc in sym (ap (λ j. j.id) same)
]

after_check-id :
    {A : Type 0} (job : Job) (rows : Rows) (answer : Result HandlerError A)
    (check : Result HandlerError (Option Asset))
    → (after_check job rows answer check).0.id ≡ job.id
after_check-id job rows answer (err e) = refl
after_check-id job rows answer (ok asset) = refl

attempt-id :
    {A : Type 0} (job : Job) (rows : Rows) (answer : Result HandlerError A)
    → (attempt job rows answer).0.id ≡ job.id
unfolding attempt
attempt-id job rows answer =
    after_check-id job rows answer (or_raised (validate_execution_references job rows))

attempt_from-id :
    {A : Type 0} (world : World) (call : ℕ → Result HandlerError A) (left n : ℕ) (job : Job)
    (rows : Rows) (out : Rows × Job × A)
    → attempt_from world call left n job rows ≡ (out.0, ok (out.1, out.2))
    → out.1.id ≡ job.id
unfolding attempt_from
attempt_from-id world call zero n job rows out h =
    let t = attempt job rows (call n) in
    let (answered, same) = last_attempt-ok world t.0 t.1 t.2 out h in
    sym (ap (λ j. j.id) same) ∙ attempt-id job rows (call n)
attempt_from-id world call (suc left) n job rows out h =
    let t = attempt job rows (call n) in
    let later = attempt_from world call left (suc n) t.0 t.1 in
    elim (after_attempt-ok world t.0 t.1 t.2 later out h) [
      | inl (answered, same) ↦ sym (ap (λ j. j.id) same) ∙ attempt-id job rows (call n)
      | inr rest ↦
          attempt_from-id world call left (suc n) t.0 t.1 out rest ∙ attempt-id job rows (call n)
    ]

pub with_attempts-id :
    {A : Type 0} (world : World) (call : ℕ → Result HandlerError A) (job : Job) (rows rows' : Rows)
    (made : Job × A)
    → with_attempts world call job rows ≡ (rows', ok made)
    → made.0.id ≡ job.id
unfolding with_attempts
with_attempts-id {A} world call job rows rows' made h =
    let limit = positive_part world.policy.max_attempts in
    let run = attempt_from world call (limit - 1) 1 job rows in
    let out : Rows × Job × A = (rows', made.0, made.1) in
    attempt_from-id world call (limit - 1) 1 job rows out
      (after_policy-ok rows (checked_policy world.policy) run out h).1
