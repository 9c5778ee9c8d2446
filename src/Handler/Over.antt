-- ===== src/Handler/Over.antt =====
-- The rows of a job that backend/app/services/jobs/handlers.py leaves at its end.
use ai_multimodal_platform.Prelude.{
  ℕ, ◌≡◌, ap, ◌∙◌, inl, inr, true, Option, none, some, List, [], ◌∷◌, ◌==◌, Bool-cases, find, All,
}
use ai_multimodal_platform.Prelude.Pointwise.{nil, cons}
use ai_multimodal_platform.Job.{Job, is_terminal}
use ai_multimodal_platform.Job.Claim.{save}
use ai_multimodal_platform.Pipeline.Link.Kept.{AreKeptOrOver}

-- The rows with an id are at their end, and so is the first of them.
abbrev pub AreOver : ℕ → List Job → Type 0
AreOver id jobs = All (λ j. (j.id == id) ≡ true → is_terminal j.state ≡ true) jobs

-- A job that is at its end, if there is one.
abbrev pub IsOver : Option Job → Type 0
IsOver none = Unit
IsOver (some job) = is_terminal job.state ≡ true

pub AreOver-IsOver :
    (id : ℕ) (jobs : List Job) → AreOver id jobs → IsOver (find (λ j. j.id == id) jobs)
AreOver-IsOver id [] h = tt
AreOver-IsOver id (j ∷ jobs) h = elim (Bool-cases (j.id == id)) [
  | inl e ↦ rw e (h.0 e)
  | inr e ↦ rw e (AreOver-IsOver id jobs h.1)
]

pub saved-AreOver :
    (job : Job) (jobs : List Job) → is_terminal job.state ≡ true → AreOver job.id (save job jobs)
saved-AreOver job [] over = tt
saved-AreOver job (j ∷ jobs) over = (
  elim (Bool-cases (j.id == job.id)) [
    | inl e ↦ rw e (λ q. over)
    | inr e ↦ rw e (λ q. absurd (cc (q, e)))
  ],
  saved-AreOver job jobs over,
)

pub kept-IsOver :
    (id : ℕ) {before jobs : List Job}
    → AreKeptOrOver before jobs
    → IsOver (find (λ j. j.id == id) before)
    → IsOver (find (λ j. j.id == id) jobs)
kept-IsOver id nil h = tt
kept-IsOver id (cons {x} {y} {xs} {ys} r rest) h =
    let same : (y.id == id) ≡ (x.id == id) = ap (λ n. n == id) r.0 in
    elim (Bool-cases (x.id == id)) [
      | inl e ↦
          let here : IsOver (some x) = rw e at h in
          rw (same ∙ e) (elim r.1 [ inl q ↦ ap (λ j. is_terminal j.state) q ∙ here | inr q ↦ q ])
      | inr e ↦
          let there : IsOver (find (λ j. j.id == id) xs) = rw e at h in
          rw (same ∙ e) (kept-IsOver id rest there)
    ]
