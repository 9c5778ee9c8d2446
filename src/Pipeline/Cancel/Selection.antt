-- ===== src/Pipeline/Cancel/Selection.antt =====
-- Which jobs `cancel_unpublished` of backend/app/master_work.py takes from the rows.
use mathlib.Core.Path.{subst}
use ai_multimodal_platform.Prelude.{
  ℕ, suc, ◌≤◌, ◌≡◌, refl, sym, ◌∙◌, ◌⊎◌, inl, inr, Bool, true, false, not, ◌||◌, ◌&&◌, none, some,
  List, [], ◌∷◌, length, ◌==◌, arith, Bool-cases, Option-cases, All, All-map, ==_iff,
}
use ai_multimodal_platform.Prelude.Result.{ok, or_fail, >>=-eq-ok, or_fail-eq-ok}
use ai_multimodal_platform.Job.{Job, is_terminal}
use ai_multimodal_platform.Pipeline.{Rows, master}
use ai_multimodal_platform.Pipeline.Cancel.{
  is_pending_of, scanned_events, scanned_jobs, was_published, has_id, parent_of, is_cancelled,
  select_cancelled,
}

-- The parent of a job is the user's, and is itself waiting unseen or at its end.
abbrev pub IsParentIdle : ℕ → Rows → Job → Type 0
IsParentIdle uid rows job =
    (parent : Job) × (parent_of job rows ≡ some parent)
    × (parent.owner_user_id ≡ uid)
    × (((has_id parent.id (scanned_jobs uid rows) ≡ true)
          × (was_published (scanned_events uid rows) parent.id ≡ false))
        ⊎ (is_terminal parent.state ≡ true))

-- A job of the user that is pending, that no published event hands to a worker, and that no parent
-- in a worker's hands will hand over.
pub record IsWithdrawable (uid : ℕ) (rows : Rows) (job : Job) : Type 0 where
  pub is_pending : is_pending_of uid job ≡ true
  pub unseen : was_published (scanned_events uid rows) job.id ≡ false
  pub free_of_parent : (job.parent_job_id ≡ none) ⊎ IsParentIdle uid rows job

owner_eq : (a b : ℕ) → not (a == b) ≡ false → a ≡ b
owner_eq a b h = elim (Bool-cases (a == b)) [
  | inl e ↦ (==_iff a b).0 e
  | inr e ↦ absurd (ground (arith, e, h))
]

either : (a b c : Bool) → ((a && not b) || c) ≡ true → ((a ≡ true) × (b ≡ false)) ⊎ (c ≡ true)
either true true c h = inr h
either true false c h = inl (refl, refl)
either false b c h = inr h

or_either : (a b c : Bool) → ((a ≡ true) × (b ≡ false)) ⊎ (c ≡ true) → ((a && not b) || c) ≡ true
or_either a b c (inl h) = ground (arith, h.0, h.1)
or_either a b c (inr h) = ground (arith, h)

idle_parent :
    (uid : ℕ) (rows : Rows) (job : Job) (id : ℕ) (parent : Job)
    → job.parent_job_id ≡ some id
    → parent_of job rows ≡ some parent
    → (job.parent_job_id ≡ none) ⊎ IsParentIdle uid rows job
    → ((has_id parent.id (scanned_jobs uid rows)
          && not (was_published (scanned_events uid rows) parent.id))
        || is_terminal parent.state)
      ≡ true
idle_parent uid rows job id parent named found (inl alone) = absurd (cc (named, alone))
idle_parent uid rows job id parent named found (inr (p, found', owned, idle)) =
    let same : p ≡ parent = cc (found, found') in
    subst
      (λ q.
        ((has_id q.id (scanned_jobs uid rows) && not (was_published (scanned_events uid rows) q.id))
          || is_terminal q.state)
        ≡ true)
      same
      (or_either (has_id p.id (scanned_jobs uid rows))
        (was_published (scanned_events uid rows) p.id) (is_terminal p.state) idle)

-- The answer for one job is yes exactly for a withdrawable one.
is_cancelled-IsWithdrawable :
    (uid : ℕ) (rows : Rows) (job : Job) (b : Bool)
    → is_pending_of uid job ≡ true
    → is_cancelled uid (scanned_events uid rows) (scanned_jobs uid rows) rows job ≡ ok b
    → (b ≡ true → IsWithdrawable uid rows job) × (IsWithdrawable uid rows job → b ≡ true)
unfolding is_cancelled
is_cancelled-IsWithdrawable uid rows job b p h =
    let events = scanned_events uid rows in
    let jobs = scanned_jobs uid rows in
    elim (Bool-cases (was_published events job.id)) [
      | inl e ↦
          let no : false ≡ b = ground (arith, e, h) in
          ((λ q. absurd cc), λ w. absurd (cc (w.unseen, e)))
      | inr e ↦ elim (Option-cases job.parent_job_id) [
        | inl alone ↦ (
          (λ q. record { is_pending = p; unseen = e; free_of_parent = inl alone }),
          λ w. ground (arith, e, alone, h),
        )
        | inr (id, named) ↦
            let (parent, e1, h1) =
              >>=-eq-ok (or_fail (parent_of job rows) (master "master_unavailable")) _
                (rw (e, named) at h) in
            let found = or_fail-eq-ok (parent_of job rows) (master "master_unavailable") e1 in
            let waits = has_id parent.id jobs in
            let sent = was_published events parent.id in
            elim (Bool-cases (not (parent.owner_user_id == uid))) [
              | inl foreign ↦ absurd (ground (arith, foreign, h1))
              | inr owned ↦
                  let told : ((waits && not sent) || is_terminal parent.state) ≡ b =
                    ground (arith, owned, h1) in
                  (
                    (λ q. record {
                      is_pending = p;
                      unseen = e;
                      free_of_parent = inr (
                        parent,
                        found,
                        owner_eq parent.owner_user_id uid owned,
                        either waits sent (is_terminal parent.state) (told ∙ q),
                      );
                    }),
                    λ w. sym told ∙ idle_parent uid rows job id parent named found w.free_of_parent,
                  )
            ]
      ]
    ]

has_id-head : (job : Job) (jobs : List Job) → has_id job.id (job ∷ jobs) ≡ true
has_id-head job jobs = let same = (==_iff job.id job.id).1 refl in ground (arith, same)

has_id-tail :
    (id : ℕ) (job : Job) (jobs : List Job) → has_id id jobs ≡ true → has_id id (job ∷ jobs) ≡ true
has_id-tail id job jobs h = ground (arith, h)

-- The loop takes exactly the withdrawable ones of the jobs it runs over.
pub select_cancelled-exact :
    (P : Job → Type 0) (uid : ℕ) (rows : Rows) (left chosen : List Job)
    → All (λ j. (is_pending_of uid j ≡ true) × P j) left
    → select_cancelled uid (scanned_events uid rows) (scanned_jobs uid rows) rows left ≡ ok chosen
    → All (λ j. P j × IsWithdrawable uid rows j) chosen
      × All (λ j. IsWithdrawable uid rows j → has_id j.id chosen ≡ true) left
      × (length chosen ≤ length left)
unfolding select_cancelled
select_cancelled-exact P uid rows [] chosen p h =
    let same : [] ≡ chosen = cc in
    subst (λ c. All (λ j. P j × IsWithdrawable uid rows j) c × Unit × (length c ≤ 0)) same
      (tt, tt, omega arith)
select_cancelled-exact P uid rows (job ∷ left) chosen p h =
    let events = scanned_events uid rows in
    let jobs = scanned_jobs uid rows in
    let (b, e1, h1) = >>=-eq-ok (is_cancelled uid events jobs rows job) _ h in
    let (others, e2, h2) = >>=-eq-ok (select_cancelled uid events jobs rows left) _ h1 in
    let (sound, complete, fewer) = select_cancelled-exact P uid rows left others p.1 e2 in
    let (may, taken) = is_cancelled-IsWithdrawable uid rows job b p.0.0 e1 in
    let Goal : List Job → Type 0 = λ c.
      All (λ j. P j × IsWithdrawable uid rows j) c
      × All (λ j. IsWithdrawable uid rows j → has_id j.id c ≡ true) (job ∷ left)
      × (length c ≤ suc (length left)) in
    elim (Bool-cases b) [
      | inl e ↦
          let same : job ∷ others ≡ chosen = ground (arith, e, h2) in
          subst Goal same (
            ((p.0.1, may e), sound),
            (
              (λ w. has_id-head job others),
              All-map _ _ left (λ j q w. has_id-tail j.id job others (q w)) complete,
            ),
            omega (arith, fewer),
          )
      | inr e ↦
          let same : others ≡ chosen = ground (arith, e, h2) in
          subst Goal same (sound, ((λ w. absurd (cc (taken w, e))), complete), omega (arith, fewer))
    ]
