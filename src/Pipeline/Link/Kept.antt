-- ===== src/Pipeline/Link/Kept.antt =====
-- Which rows the calls of backend/app/services/jobs/pipeline_link.py change when they link nothing.
use mathlib.Core.Path.{subst}
use ai_multimodal_platform.Prelude.{
  ℕ, ◌≡◌, refl, ap, sym, ◌∙◌, ◌⊎◌, inl, inr, String, true, false, not, ◌||◌, Option, none, some,
  List, [], ◌∷◌, ◌==◌, if◌then◌else◌, arith, Bool-cases, ==_iff,
}
use ai_multimodal_platform.Prelude.Pointwise.{Pointwise, Pointwise-map, Pointwise-same}
use ai_multimodal_platform.Prelude.Result.{ok, ◌>>=◌, >>=-eq-ok, Result-cases}
use ai_multimodal_platform.Credit.Tables.{UserStatus}
use ai_multimodal_platform.Job.{
  Job, JobState, cancelled, failed, is_terminal, transition, normalize_state, member, text, boolean,
  Detail,
}
use ai_multimodal_platform.Job.Claim.{save}
use ai_multimodal_platform.Generation.{UuidText}
use ai_multimodal_platform.Pipeline.{Rows, or_state, save_job, terminalize_rows, owned_child}
use ai_multimodal_platform.Pipeline.Cancel.{lock_owner_status, mark_cancelled}
use ai_multimodal_platform.Pipeline.Cancel.Outcome.{
  terminalize_rows-keeps, mark_cancelled-state, or_state-eq-ok,
}
use ai_multimodal_platform.Pipeline.Link.{
  pipeline_children, is_suspended, fail_child, ChildFate, skipped, left, failed_child,
  cancelled_child, PipelineFailureResult, apply_fate, child_fate, fail_children,
  fail_blocked_children_for_parent,
}

-- A row that is as it was, or is at its end now.
abbrev pub IsKeptOrOver : Job → Job → Type 0
IsKeptOrOver row row' = (row'.id ≡ row.id) × ((row' ≡ row) ⊎ (is_terminal row'.state ≡ true))

abbrev pub AreKeptOrOver : List Job → List Job → Type 0
AreKeptOrOver before jobs = Pointwise IsKeptOrOver before jobs

pub unchanged : (jobs : List Job) → AreKeptOrOver jobs jobs
unchanged jobs = Pointwise-same jobs (λ j. (refl, inl refl))

-- The write of a row that is at its end.
pub save-AreKeptOrOver :
    (job : Job) (before jobs : List Job)
    → is_terminal job.state ≡ true
    → AreKeptOrOver before jobs
    → AreKeptOrOver before (save job jobs)
save-AreKeptOrOver job before jobs over h =
    Pointwise-map (λ j. if j.id == job.id then job else j)
      (λ x y r. elim (Bool-cases (y.id == job.id)) [
        | inl e ↦ rw e (sym ((==_iff y.id job.id).0 e) ∙ r.0, inr over)
        | inr e ↦ rw e r
      ])
      h

-- A job with the id of the row that was written before is written again, at its end.
twice-AreKeptOrOver :
    (first job : Job) (jobs : List Job)
    → job.id ≡ first.id
    → is_terminal job.state ≡ true
    → AreKeptOrOver jobs (save job (save first jobs))
twice-AreKeptOrOver first job jobs same over =
    let Half : Job → Job → Type 0 = λ x y. (y.id ≡ x.id) × ((y ≡ x) ⊎ (y.id ≡ first.id)) in
    let once =
      Pointwise-map {R = λ x y. y ≡ x} {S = Half} (λ j. if j.id == first.id then first else j)
        (λ x y q. elim (Bool-cases (y.id == first.id)) [
          | inl e ↦ rw e (sym ((==_iff y.id first.id).0 e) ∙ ap (λ j. j.id) q, inr refl)
          | inr e ↦ rw e (ap (λ j. j.id) q, inl q)
        ])
        (Pointwise-same jobs (λ j. refl)) in
    Pointwise-map (λ j. if j.id == job.id then job else j)
      (λ x y r. elim (Bool-cases (y.id == job.id)) [
        | inl e ↦ rw e (sym ((==_iff y.id job.id).0 e) ∙ r.0, inr over)
        | inr e ↦ elim r.1 [
          | inl q ↦ rw e (r.0, inl q)
          | inr q ↦ let hit = (==_iff y.id job.id).1 (q ∙ sym same) in absurd (cc (hit, e))
        ]
      ])
      once

pub transition-failed :
    (now : ℕ) (job job' : Job) (detail : Option Detail) (at : Option ℕ)
    → or_state (transition now job (member failed) detail at) ≡ ok job'
    → (job'.state ≡ failed) × (job'.id ≡ job.id)
unfolding transition normalize_state
transition-failed now job job' detail at h =
    let e = or_state-eq-ok (transition now job (member failed) detail at) h in
    (ground (arith, e), ground (arith, e))

pub over_failed : (s : JobState) → s ≡ failed → is_terminal s ≡ true
over_failed s h = rw h refl

pub over_cancelled : (s : JobState) → s ≡ cancelled → is_terminal s ≡ true
over_cancelled s h = rw h refl

pub fail_child-AreKeptOrOver :
    (uuid : UuidText) (now : ℕ) (child : Job) (code message : String) (rows rows' : Rows)
    → fail_child uuid now child code message rows ≡ ok rows'
    → AreKeptOrOver rows.jobs rows'.jobs
unfolding fail_child
fail_child-AreKeptOrOver uuid now child code message rows rows' h =
    let child' : Job = record child {
      error =
          some
            (("code", text code) ∷ ("message", text message) ∷ ("retryable", boolean false) ∷ []);
    } in
    let (o, e, h1) =
      >>=-eq-ok
        (terminalize_rows uuid child' false (some "delivery_failed") now (save_job child' rows)) _
        h in
    let (c, e1, h2) =
      >>=-eq-ok
        (or_state (transition now child' (member failed) (some (("error", text code) ∷ [])) none)) _
        h1 in
    let same : save_job c o.1 ≡ rows' = cc in
    let jobs =
      (terminalize_rows-keeps uuid child' false (some "delivery_failed") now (save_job child' rows)
        o e).0 in
    let (at, id) = transition-failed now child' c (some (("error", text code) ∷ [])) none e1 in
    subst (λ r. AreKeptOrOver rows.jobs r.jobs) same
      (subst (λ js. AreKeptOrOver rows.jobs (save c js)) (sym jobs)
        (twice-AreKeptOrOver child' c rows.jobs id (over_failed c.state at)))

-- What a child's fate writes is at its end.
abbrev IsEnding : ChildFate → Type 0
IsEnding skipped = Unit
IsEnding left = Unit
IsEnding (failed_child c) = is_terminal c.state ≡ true
IsEnding (cancelled_child c) = is_terminal c.state ≡ true

child_fate-IsEnding :
    (now : ℕ) (owner_status : UserStatus) (parent child : Job) (fate : ChildFate)
    → child_fate now owner_status parent child ≡ ok fate
    → IsEnding fate
unfolding child_fate
child_fate-IsEnding now owner_status parent child fate h =
    elim (Bool-cases (not (owned_child parent child))) [
      | inl e ↦ let same : skipped ≡ fate = ground (arith, e, h) in subst IsEnding same tt
      | inr e ↦ elim (Bool-cases (not child.blocked || is_terminal child.state)) [
        | inl e1 ↦ let same : left ≡ fate = ground (arith, e, e1, h) in subst IsEnding same tt
        | inr e1 ↦ elim (Bool-cases (is_suspended owner_status)) [
          | inl e2 ↦
              let (c, e3, h3) =
                >>=-eq-ok (or_state (mark_cancelled now child)) _ (rw (e, e1, e2) at h) in
              let same : cancelled_child c ≡ fate = cc in
              let m = mark_cancelled-state now child c (or_state-eq-ok _ e3) in
              subst IsEnding same (over_cancelled c.state m.0)
          | inr e2 ↦
              let (c, e3, h3) =
                >>=-eq-ok (or_state (transition now _ (member failed) _ none)) _
                  (rw (e, e1, e2) at h) in
              let same : failed_child c ≡ fate = cc in
              subst IsEnding same (over_failed c.state (transition-failed now _ c _ none e3).0)
        ]
      ]
    ]

apply_fate-AreKeptOrOver :
    (fate : ChildFate) (before : List Job) (rows : Rows)
    → IsEnding fate
    → AreKeptOrOver before rows.jobs
    → AreKeptOrOver before (apply_fate fate rows).jobs
apply_fate-AreKeptOrOver skipped before rows over h = h
apply_fate-AreKeptOrOver left before rows over h = h
apply_fate-AreKeptOrOver (failed_child c) before rows over h =
    save-AreKeptOrOver c before rows.jobs over h
apply_fate-AreKeptOrOver (cancelled_child c) before rows over h =
    save-AreKeptOrOver c before rows.jobs over h

fail_children-AreKeptOrOver :
    (now : ℕ) (owner_status : UserStatus) (parent : Job) (children before : List Job) (rows : Rows)
    (out : PipelineFailureResult × Rows)
    → AreKeptOrOver before rows.jobs
    → fail_children now owner_status parent children rows ≡ ok out
    → AreKeptOrOver before out.1.jobs
unfolding fail_children
fail_children-AreKeptOrOver now owner_status parent [] before rows out h e =
    let same : rows ≡ out.1 = cc in subst (λ r. AreKeptOrOver before r.jobs) same h
fail_children-AreKeptOrOver now owner_status parent (child ∷ children) before rows out h e =
    let (fate, e1, h1) = >>=-eq-ok (child_fate now owner_status parent child) _ e in
    let (o, e2, h2) =
      >>=-eq-ok (fail_children now owner_status parent children (apply_fate fate rows)) _ h1 in
    let same : o.1 ≡ out.1 = cc in
    let ending = child_fate-IsEnding now owner_status parent child fate e1 in
    subst (λ r. AreKeptOrOver before r.jobs) same
      (fail_children-AreKeptOrOver now owner_status parent children before (apply_fate fate rows) o
        (apply_fate-AreKeptOrOver fate before rows ending h) e2)

-- The failure of a parent's children changes no row that it does not leave at its end.
pub fail_blocked_children-AreKeptOrOver :
    (now : ℕ) (parent : Job) (rows : Rows)
    → AreKeptOrOver rows.jobs (fail_blocked_children_for_parent now parent rows).1.jobs
unfolding fail_blocked_children_for_parent
fail_blocked_children-AreKeptOrOver now parent rows =
    let run = lock_owner_status parent.owner_user_id rows >>= λ owner_status.
    fail_children now owner_status parent (pipeline_children parent.id rows) rows in
    elim (Result-cases run) [
      | inr (c, e) ↦ rw e (unchanged rows.jobs)
      | inl (out, e) ↦
          let (owner_status, e1, h1) =
            >>=-eq-ok (lock_owner_status parent.owner_user_id rows) _ e in
          rw e (
            fail_children-AreKeptOrOver now owner_status parent (pipeline_children parent.id rows)
              rows.jobs rows out (unchanged rows.jobs) h1)
    ]
