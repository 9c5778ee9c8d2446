-- ===== src/Ownership.antt =====
-- OwnershipAccess of backend/app/ownership.py: which rows a caller of the API gets. A method's query is
-- a filter of the tables; what `with_for_update` and `selectinload` add does not change the rows. Of the
-- actor only the id and the role are read.
pub mod Files
pub mod Validation
pub mod Granted
pub mod References
mod Tests
use ai_multimodal_platform.Prelude.{
  ℕ, zero, suc, ◌+◌, String, Bool, true, false, not, Option, none, some, List, [], ◌∷◌, ◌++◌, any,
  every, filter, find, map, head?, leb, ltb, length, ◌==◌, ◌&&◌, ◌||◌, str_eq, if◌then◌else◌,
}
use ai_multimodal_platform.Prelude.Result.{Result, ok, err, ◌>>=◌, ◌>>◌, fail_if, or_fail}
use ai_multimodal_platform.Credit.Lifecycle.Commands.{codes}
use ai_multimodal_platform.Job.{Job, Asset}
use ai_multimodal_platform.Pipeline.{Rows}

-- The exceptions: HTTPException with its detail, the ValueError of a wrong intent, and the
-- MultipleResultsFound of `one_or_none`.
pub data AccessError : Type 0 where
  content_not_found invalid_scope scope_forbidden unsupported_ownership_intent : AccessError
  multiple_results_found : AccessError

pub record Actor : Type 0 where
  pub id : ℕ
  pub role : String

-- `status_code`, for the errors that are an HTTPException.
abbrev pub status_code : AccessError → Option ℕ
status_code content_not_found = some 404
status_code invalid_scope = some 422
status_code scope_forbidden = some 403
status_code unsupported_ownership_intent = none
status_code multiple_results_found = none

-- `_intent`
abbrev pub check_intent : String → List String → Result AccessError (Unit {0})
check_intent actual expected =
    fail_if (not (any (λ e. str_eq actual e) expected)) unsupported_ownership_intent

module _ (actor : Actor) where
  -- `_master_read`
  abbrev pub master_read : String → Bool
  master_read intent = str_eq intent "read" && str_eq actor.role "master"

  -- `_check_owner`
  unfoldable pub check_owner : Option ℕ → String → Result AccessError (Unit {0})
  check_owner none intent = err content_not_found
  check_owner (some owner) intent =
      fail_if (not (owner == actor.id) && not (master_read intent)) content_not_found

  -- The condition that a query has unless the call is a master's read.
  abbrev pub is_visible : String → ℕ → Bool
  is_visible intent owner = master_read intent || owner == actor.id

  -- `jobs_statement`, as the rows that its query selects.
  unfoldable pub jobs_statement : String → List Job → Result AccessError (List Job)
  jobs_statement scope jobs = do
    fail_if (not (str_eq scope "mine" || str_eq scope "all")) invalid_scope
    fail_if (str_eq scope "all" && not (str_eq actor.role "master")) scope_forbidden
    ok (if str_eq scope "all" then jobs else filter (λ j. j.owner_user_id == actor.id) jobs)

  -- `job`
  unfoldable pub job : ℕ → String → List Job → Result AccessError Job
  unfolding check_owner
  job job_id intent jobs = do
    check_intent intent ("read" ∷ "mutate" ∷ [])
    row ←
        or_fail (find (λ j. j.id == job_id && is_visible intent j.owner_user_id) jobs)
          content_not_found
    fail_if (not (row.id == job_id)) content_not_found
    check_owner (some row.owner_user_id) intent
    ok row

  -- `enhancement`, by the id and the owner of the row
  unfoldable pub enhancement : ℕ → String → List (ℕ × ℕ) → Result AccessError (ℕ × ℕ)
  unfolding check_owner
  enhancement enhancement_id intent enhancements = do
    check_intent intent ("use" ∷ [])
    row ←
        or_fail (find (λ e. e.0 == enhancement_id && e.1 == actor.id) enhancements)
          content_not_found
    check_owner (some row.1) "use"
    ok row

-- `select(Asset, Job.owner_user_id).join(Job, Asset.job_id == Job.id)`
abbrev pub with_owners : Asset → List Job → List (Asset × ℕ)
with_owners a [] = []
with_owners a (j ∷ jobs) =
    if a.job_id == j.id then (a, j.owner_user_id) ∷ with_owners a jobs else with_owners a jobs

abbrev pub joined : List Asset → List Job → List (Asset × ℕ)
joined [] jobs = []
joined (a ∷ assets) jobs = with_owners a jobs ++ joined assets jobs

-- `one_or_none`
abbrev pub one_or_none : {A : Type 0} → List A → Result AccessError (Option A)
one_or_none [] = ok none
one_or_none (x ∷ []) = ok (some x)
one_or_none (x ∷ y ∷ rest) = err multiple_results_found

module _ (actor : Actor) where
  -- `asset`
  unfoldable pub asset : ℕ → String → Rows → Result AccessError Asset
  unfolding check_owner
  asset asset_id intent rows = do
    check_intent intent ("read" ∷ "use" ∷ [])
    found ← one_or_none (
        filter (λ r. (r.0).id == asset_id && is_visible actor intent r.1)
          (joined rows.assets rows.jobs))
    row ← or_fail found content_not_found
    fail_if (not ((row.0).id == asset_id)) content_not_found
    check_owner actor (some row.1) intent
    ok row.0
