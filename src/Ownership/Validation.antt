-- ===== src/Ownership/Validation.antt =====
-- `validate_read_jobs` of backend/app/ownership.py: the jobs of a list and their references.
use ai_multimodal_platform.Prelude.{
  ℕ, Bool, true, false, not, Option, none, some, List, [], ◌∷◌, ◌++◌, any, filter, map, ◌==◌,
  if◌then◌else◌,
}
use ai_multimodal_platform.Prelude.Result.{Result, ok, ◌>>◌, fail_if}
use ai_multimodal_platform.Job.{Job, Asset}
use ai_multimodal_platform.Pipeline.{Rows}
use ai_multimodal_platform.Ownership.{AccessError, content_not_found, Actor, check_owner, joined}

-- The refs of the jobs that are not None. A query for no reference selects no row.
abbrev pub refs_of : List (Option ℕ) → List ℕ
refs_of [] = []
refs_of (none ∷ refs) = refs_of refs
refs_of (some ref ∷ refs) = ref ∷ refs_of refs

abbrev pub is_in : List ℕ → ℕ → Bool
is_in refs id = any (λ r. r == id) refs

-- `dict(rows).get(ref)`: of two rows with a key the later one counts.
abbrev pub or_else : Option ℕ → Option ℕ → Option ℕ
or_else (some x) y = some x
or_else none y = y

abbrev pub dict_get : List (ℕ × ℕ) → ℕ → Option ℕ
dict_get [] ref = none
dict_get (row ∷ rows) ref = or_else (dict_get rows ref) (if row.0 == ref then some row.1 else none)

abbrev pub job_refs : List Job → List ℕ
job_refs [] = []
job_refs (j ∷ jobs) = refs_of (j.parent_job_id ∷ j.retry_of_job_id ∷ []) ++ job_refs jobs

-- The three mappings from an id to the owner of its row.
abbrev pub job_owners : List Job → List Job → List (ℕ × ℕ)
job_owners jobs table =
    map (λ j. (j.id, j.owner_user_id)) (filter (λ j. is_in (job_refs jobs) j.id) table)

abbrev pub enhancement_owners : List Job → List (ℕ × ℕ) → List (ℕ × ℕ)
enhancement_owners jobs table =
    filter (λ e. is_in (refs_of (map (λ j. j.enhancement_id) jobs)) e.0) table

abbrev pub source_owners : List Job → Rows → List (ℕ × ℕ)
source_owners jobs rows =
    map (λ r. ((r.0).id, r.1))
      (filter (λ r. is_in (refs_of (map (λ j. j.source_asset_id) jobs)) (r.0).id)
        (joined rows.assets rows.jobs))

-- `ref is not None and mapping.get(ref) != job.owner_user_id`, negated
abbrev pub is_owner : ℕ → Option ℕ → Bool
is_owner owner none = false
is_owner owner (some other) = other == owner

abbrev pub ref_owned : ℕ → Option ℕ → List (ℕ × ℕ) → Bool
ref_owned owner none mapping = true
ref_owned owner (some ref) mapping = is_owner owner (dict_get mapping ref)

-- The first loop of `validate_read_jobs`. A job comes with the assets that were loaded with it.
unfoldable pub check_jobs : Actor → List (Job × List Asset) → Result AccessError (Unit {0})
unfolding check_owner
check_jobs actor [] = ok tt
check_jobs actor ((j, assets) ∷ jobs) = do
  check_owner actor (some j.owner_user_id) "read"
  fail_if (any (λ a. not (a.job_id == j.id)) assets) content_not_found
  check_jobs actor jobs

-- The second loop
unfoldable pub check_refs :
    List (ℕ × ℕ) → List (ℕ × ℕ) → List (ℕ × ℕ) → List Job → Result AccessError (Unit {0})
check_refs jobs_map enhancements_map sources [] = ok tt
check_refs jobs_map enhancements_map sources (j ∷ jobs) = do
  fail_if (not (ref_owned j.owner_user_id j.parent_job_id jobs_map)) content_not_found
  fail_if (not (ref_owned j.owner_user_id j.retry_of_job_id jobs_map)) content_not_found
  fail_if (not (ref_owned j.owner_user_id j.enhancement_id enhancements_map)) content_not_found
  fail_if (not (ref_owned j.owner_user_id j.source_asset_id sources)) content_not_found
  check_refs jobs_map enhancements_map sources jobs

-- `validate_read_jobs`
unfoldable pub validate_read_jobs :
    Actor → List (Job × List Asset) → Rows → Result AccessError (Unit {0})
unfolding check_jobs check_refs
validate_read_jobs actor loaded rows =
    let jobs = map (λ p. p.0) loaded in
    check_jobs actor loaded
    >> check_refs (job_owners jobs rows.jobs) (enhancement_owners jobs rows.enhancements)
        (source_owners jobs rows) jobs
