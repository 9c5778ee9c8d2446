-- ===== src/Job/Claim/Once.antt =====
-- The outcomes of the claim of backend/app/services/jobs/tasks.py.
use ai_multimodal_platform.Prelude.{
  ◌↔◌, ap, sym, ◌∙◌, ℕ, ◌≡◌, refl, Bool, true, false, Option, none, some, List, [], ◌∷◌,
  if◌then◌else◌, Bool-cases, arith, inl, inr, find, ◌==◌,
}
use ai_multimodal_platform.Prelude.Result.{ok}
use ai_multimodal_platform.Job.State.{JobState, pending, queued, polling, Job, Detail, text}
use ai_multimodal_platform.Job.Machine.{
  is_terminal, allows, member, transition, moved, normalize_state,
}
use ai_multimodal_platform.Job.Runs.{in_every_state}
use ai_multimodal_platform.Prelude.{Option-cases, ==_iff, find-holds}
use ai_multimodal_platform.Job.Claim.{
  missing, terminal, blocked, not_pending, resumed_polling, claimed, ProcessJobResult, state_eq,
  is_resumable_polling_job, save, refusal, execution, claim_job, claim,
}

-- The rows that a worker may take.
abbrev pub is_claimable : Job → Bool
is_claimable job =
    if is_terminal job.state
    then false
    else if job.blocked
    then false
    else if is_resumable_polling_job job
    then true
    else state_eq job.state pending

pending-moves : (s : JobState) → state_eq s pending ≡ true → allows s queued ≡ true
pending-moves s h =
    let tested =
      in_every_state (λ t. if state_eq t pending then allows t queued else true) refl s in
    rw h at tested

transition-queued :
    (now : ℕ) (job : Job) (d : Option Detail)
    → state_eq job.state pending ≡ true
    → transition now job (member queued) d none ≡ ok (moved queued d now job)
unfolding transition normalize_state
transition-queued now job d h = let edge = pending-moves job.state h in ground (arith, edge)

-- What a claim that moved the row commits.
abbrev pub claimed_table : ℕ → Job → List Job → List Job
claimed_table now job jobs =
    save (moved queued (some (("runner", text "celery") ∷ [])) now job) jobs

-- The claim of a row that was found commits, whatever the row holds. It executes exactly for a
-- claimable row, and what it reports as claimed it left in QUEUED.
claim_job_lem :
    (now : ℕ) (job : Job) (jobs : List Job)
    → (r : ProcessJobResult) × (jobs' : List Job) × (claim_job now job jobs ≡ ok (r, jobs'))
      × (r.executed ≡ is_claimable job)
      × (r.reason ≡ claimed → (jobs' ≡ claimed_table now job jobs) × (job.blocked ≡ false))
unfolding claim_job
claim_job_lem now job jobs = elim (Bool-cases (is_terminal job.state)) [
  | inl e1 ↦ (
    refusal job.id terminal (some job.state),
    jobs,
    ground (arith, e1),
    ground (arith, e1),
    λ h. absurd cc,
  )
  | inr e1 ↦ elim (Bool-cases job.blocked) [
    | inl e2 ↦ (
      refusal job.id blocked (some job.state),
      jobs,
      ground (arith, e1, e2),
      ground (arith, e1, e2),
      λ h. absurd cc,
    )
    | inr e2 ↦ elim (Bool-cases (is_resumable_polling_job job)) [
      | inl e3 ↦ (
        execution job resumed_polling polling,
        jobs,
        ground (arith, e1, e2, e3),
        ground (arith, e1, e2, e3),
        λ h. absurd cc,
      )
      | inr e3 ↦ elim (Bool-cases (state_eq job.state pending)) [
        | inr e4 ↦ (
          refusal job.id not_pending (some job.state),
          jobs,
          ground (arith, e1, e2, e3, e4),
          ground (arith, e1, e2, e3, e4),
          λ h. absurd cc,
        )
        | inl e4 ↦
            let moves = transition-queued now job (some (("runner", text "celery") ∷ [])) e4 in
            (
              execution job claimed queued,
              claimed_table now job jobs,
              ground (arith, e1, e2, e3, e4, moves),
              ground (arith, e1, e2, e3, e4),
              λ h. (refl, e2),
            )
      ]
    ]
  ]
]

pub find-save :
    (job job' : Job) (id : ℕ) (jobs : List Job)
    → find (λ j. j.id == id) jobs ≡ some job
    → job'.id ≡ id
    → find (λ j. j.id == id) (save job' jobs) ≡ some job'
find-save job job' id [] h e = cc
find-save job job' id (j ∷ js) h e = elim (Bool-cases (j.id == id)) [
  | inl t ↦ ground (arith, t, e)
  | inr f ↦
      let rest = find-save job job' id js (ground (arith, f, h)) e in ground (arith, f, e, rest)
]

-- A claim always commits and never raises. It executes the job exactly when the row is there, is
-- not locked by another transaction, and is claimable.
pub claim_total :
    (locked : ℕ → Bool) (now id : ℕ) (jobs : List Job)
    → (r : ProcessJobResult) × (jobs' : List Job) × (claim locked now id jobs ≡ ok (r, jobs'))
      × ((r.executed ≡ true) ↔ (
          (job : Job) × (locked id ≡ false)
          × (find (λ j. j.id == id) jobs ≡ some job)
          × (is_claimable job ≡ true)))
unfolding claim
claim_total locked now id jobs = elim (Bool-cases (locked id)) [
  | inl e1 ↦ (
    refusal id missing none,
    jobs,
    ground (arith, e1),
    ((λ h. absurd cc), λ h. absurd (ground (arith, e1, h.1))),
  )
  | inr e1 ↦ elim (Option-cases (find (λ j. j.id == id) jobs)) [
    | inl e2 ↦ (
      refusal id missing none,
      jobs,
      ground (arith, e1, e2),
      ((λ h. absurd cc), λ h. absurd (ground (arith, e2, h.2))),
    )
    | inr (job, e2) ↦
        let (r, jobs', done, executes, _) = claim_job_lem now job jobs in
        (
          r,
          jobs',
          ground (arith, e1, e2, done),
          ((λ h. (job, e1, e2, sym executes ∙ h)), λ h. ground (arith, e2, executes, h.2, h.3)),
        )
  ]
]

-- The row that a claim left is refused, in any table that holds it.
claim-refuses :
    (later : ℕ → Bool) (now after id : ℕ) (job : Job) (jobs jobs' : List Job)
    → find (λ j. j.id == id) jobs ≡ some job
    → job.blocked ≡ false
    → find (λ j. j.id == id) jobs' ≡ find (λ j. j.id == id) (claimed_table now job jobs)
    → (r' : ProcessJobResult) × (claim later after id jobs' ≡ ok (r', jobs'))
      × (r'.executed ≡ false)
unfolding claim claim_job
claim-refuses later now after id job jobs jobs' found unblocked kept =
    let detail : Option Detail = some (("runner", text "celery") ∷ []) in
    let same : job.id ≡ id = (==_iff job.id id).0 (find-holds (λ j. j.id == id) jobs found) in
    let again = kept ∙ find-save job (moved queued detail now job) id jobs found same in
    elim (Bool-cases (later id)) [
      | inl e ↦ (refusal id missing none, ground (arith, e), refl)
      | inr e ↦
          (refusal id not_pending (some queued), ground (arith, e, again, unblocked, same), refl)
    ]

-- A worker that claimed a job moved its row to QUEUED. A later claim of the job that finds the row
-- as this claim left it, whatever became of the other rows and whichever rows are locked then,
-- raises nothing, executes nothing and leaves the table as it is.
pub claim_once :
    (locked later : ℕ → Bool) (now after id : ℕ) (jobs jobs'' : List Job) {r : ProcessJobResult}
    {jobs' : List Job}
    → claim locked now id jobs ≡ ok (r, jobs')
    → r.reason ≡ claimed
    → find (λ j. j.id == id) jobs'' ≡ find (λ j. j.id == id) jobs'
    → (r' : ProcessJobResult) × (row : Job) × (find (λ j. j.id == id) jobs' ≡ some row)
      × (row.state ≡ queued)
      × (claim later after id jobs'' ≡ ok (r', jobs''))
      × (r'.executed ≡ false)
unfolding claim
claim_once locked later now after id jobs jobs'' {r} {jobs'} h why kept =
    elim (Bool-cases (locked id)) [
      | inl e1 ↦ absurd (ground (arith, e1, h, why))
      | inr e1 ↦ elim (Option-cases (find (λ j. j.id == id) jobs)) [
        | inl e2 ↦ absurd (ground (arith, e1, e2, h, why))
        | inr (job, e2) ↦
            let (r0, jobs0, done, _, claims) = claim_job_lem now job jobs in
            let left : jobs' ≡ jobs0 = ground (arith, e1, e2, done, h) in
            let (row, unblocked) = claims (ground (arith, e1, e2, done, h, why)) in
            let same : job.id ≡ id = (==_iff job.id id).0 (find-holds (λ j. j.id == id) jobs e2) in
            let row' = moved queued (some (("runner", text "celery") ∷ [])) now job in
            let table : jobs' ≡ claimed_table now job jobs = left ∙ row in
            let (r', refused, idle) =
              claim-refuses later now after id job jobs jobs'' e2 unblocked
                (kept ∙ ap (find (λ j. j.id == id)) table) in
            (
              r',
              row',
              ap (find (λ j. j.id == id)) table ∙ find-save job row' id jobs e2 same,
              refl,
              refused,
              idle,
            )
      ]
    ]
