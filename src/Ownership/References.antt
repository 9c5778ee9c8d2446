-- ===== src/Ownership/References.antt =====
-- What `validate_read_jobs` of backend/app/ownership.py makes sure of.
use mathlib.Core.Path.{subst}
use mathlib.Core.List.{Memᴰ}
use ai_multimodal_platform.Prelude.{
  ℕ, ◌≡◌, refl, ap, ◌∙◌, true, false, not, Option, none, some, List, [], ◌∷◌, any, filter, map,
  ◌==◌, inl, inr, arith, All, All-map, filter-All, Bool-cases, Option-cases, ==_iff,
}
use ai_multimodal_platform.Prelude.Result.{ok, fail_if, >>=-eq-ok, fail_if-eq-ok}
use ai_multimodal_platform.Job.{Job, Asset}
use ai_multimodal_platform.Pipeline.{Rows}
use ai_multimodal_platform.Ownership.{Actor, content_not_found, check_owner, joined}
use ai_multimodal_platform.Ownership.Validation.{
  is_in, refs_of, dict_get, job_refs, job_owners, enhancement_owners, source_owners, is_owner,
  ref_owned, check_jobs, check_refs, validate_read_jobs,
}
use ai_multimodal_platform.Ownership.Granted.{
  IsGranted, HasOwner, check_owner-IsGranted, All-Mem, joined-All,
}

-- A reference that is given has a row of the owner.
abbrev pub Resolves : (ℕ → ℕ → Type 0) → ℕ → Option ℕ → Type 0
Resolves P owner none = Unit
Resolves P owner (some ref) = P ref owner

abbrev pub HasEnhancement : Rows → ℕ → ℕ → Type 0
HasEnhancement rows id owner = Memᴰ (id, owner) rows.enhancements

-- An asset with the id, whose job belongs to the owner.
abbrev pub HasAsset : Rows → ℕ → ℕ → Type 0
HasAsset rows id owner =
    (a : Asset) × Memᴰ a rows.assets × (a.id ≡ id) × HasOwner rows.jobs a.job_id owner

-- Every reference of the job is to a row of its owner.
pub record RefsAreOwned (rows : Rows) (j : Job) : Type 0 where
  pub parent : Resolves (HasOwner rows.jobs) j.owner_user_id j.parent_job_id
  pub retry_of : Resolves (HasOwner rows.jobs) j.owner_user_id j.retry_of_job_id
  pub enhancement : Resolves (HasEnhancement rows) j.owner_user_id j.enhancement_id
  pub source : Resolves (HasAsset rows) j.owner_user_id j.source_asset_id

dict_get-All :
    (P : ℕ → ℕ → Type 0) (mapping : List (ℕ × ℕ)) (ref : ℕ) {owner : ℕ}
    → All (λ r. P r.0 r.1) mapping
    → dict_get mapping ref ≡ some owner
    → P ref owner
dict_get-All P [] ref h e = cc
dict_get-All P (row ∷ rows) ref {owner} h e = elim (Option-cases (dict_get rows ref)) [
  | inl later ↦ elim (Bool-cases (row.0 == ref)) [
    | inl t ↦
        let found = rw (later, t) at e in
        let same : row.1 ≡ owner = cc in
        subst (λ o. P ref o) same (subst (λ r. P r row.1) ((==_iff row.0 ref).0 t) h.0)
    | inr f ↦ let found = rw (later, f) at e in cc
  ]
  | inr (o, later) ↦ let found = rw later at e in dict_get-All P rows ref h.1 (later ∙ found)
]

is_owner-eq : (owner : ℕ) (o : Option ℕ) → is_owner owner o ≡ true → o ≡ some owner
is_owner-eq owner none h = cc
is_owner-eq owner (some other) h = ap some ((==_iff other owner).0 h)

ref_owned-Resolves :
    (P : ℕ → ℕ → Type 0) (owner : ℕ) (ref : Option ℕ) (mapping : List (ℕ × ℕ))
    → All (λ r. P r.0 r.1) mapping
    → not (ref_owned owner ref mapping) ≡ false
    → Resolves P owner ref
ref_owned-Resolves P owner none mapping h e = tt
ref_owned-Resolves P owner (some ref) mapping h e =
    let found : is_owner owner (dict_get mapping ref) ≡ true = ground (arith, e) in
    dict_get-All P mapping ref h (is_owner-eq owner (dict_get mapping ref) found)

map-All :
    {A B : Type 0} (P : B → Type 0) (f : A → B) (xs : List A)
    → All (λ x. P (f x)) xs
    → All P (map f xs)
map-All P f [] h = tt
map-All P f (x ∷ xs) h = (h.0, map-All P f xs h.1)

job_owners-All : (jobs table : List Job) → All (λ r. HasOwner table r.0 r.1) (job_owners jobs table)
job_owners-All jobs table =
    let asked = λ (j : Job). is_in (job_refs jobs) j.id in
    map-All (λ r. HasOwner table r.0 r.1) (λ j. (j.id, j.owner_user_id)) (filter asked table)
      (filter-All (λ j. HasOwner table j.id j.owner_user_id) asked table
        (All-map _ _ table (λ j m. (j, m, refl, refl)) (All-Mem table)))

enhancement_owners-All :
    (jobs : List Job) (rows : Rows)
    → All (λ r. HasEnhancement rows r.0 r.1) (enhancement_owners jobs rows.enhancements)
enhancement_owners-All jobs rows =
    filter-All (λ r. HasEnhancement rows r.0 r.1)
      (λ e. is_in (refs_of (map (λ j. j.enhancement_id) jobs)) e.0) rows.enhancements
      (All-map _ _ rows.enhancements (λ e m. m) (All-Mem rows.enhancements))

source_owners-All :
    (jobs : List Job) (rows : Rows) → All (λ r. HasAsset rows r.0 r.1) (source_owners jobs rows)
source_owners-All jobs rows =
    let asked = λ (r : Asset × ℕ). is_in (refs_of (map (λ j. j.source_asset_id) jobs)) (r.0).id in
    let all = joined rows.assets rows.jobs in
    map-All (λ r. HasAsset rows r.0 r.1) (λ r. ((r.0).id, r.1)) (filter asked all)
      (filter-All (λ r. HasAsset rows (r.0).id r.1) asked all
        (All-map _ _ all (λ r q. (r.0, q.0, refl, q.1))
          (joined-All rows.assets rows.assets rows.jobs (All-Mem rows.assets))))

-- What the first loop makes sure of for a job with the assets that were loaded with it.
record IsReadable (actor : Actor) (j : Job) (assets : List Asset) : Type 0 where
  owned : IsGranted actor "read" j.owner_user_id
  loaded : All (λ a. a.job_id ≡ j.id) assets

loaded-All :
    (id : ℕ) (assets : List Asset)
    → any (λ a. not (a.job_id == id)) assets ≡ false
    → All (λ a. a.job_id ≡ id) assets
loaded-All id [] h = tt
loaded-All id (a ∷ assets) h = elim (Bool-cases (a.job_id == id)) [
  | inl e ↦ ((==_iff a.job_id id).0 e, loaded-All id assets (ground (arith, e, h)))
  | inr e ↦ absurd (ground (arith, e, h))
]

check_jobs-All :
    (actor : Actor) (loaded : List (Job × List Asset))
    → check_jobs actor loaded ≡ ok tt
    → All (λ p. IsReadable actor p.0 p.1) loaded
unfolding check_jobs
check_jobs-All actor [] h = tt
check_jobs-All actor ((j, assets) ∷ jobs) h =
    let (_, e1, h1) = >>=-eq-ok (check_owner actor (some j.owner_user_id) "read") _ h in
    let wrong = any (λ a. not (a.job_id == j.id)) assets in
    let (_, e2, h2) = >>=-eq-ok (fail_if wrong content_not_found) _ h1 in
    (
      record {
        owned = check_owner-IsGranted actor j.owner_user_id "read" e1;
        loaded = loaded-All j.id assets (fail_if-eq-ok wrong content_not_found e2);
      },
      check_jobs-All actor jobs h2,
    )

module _ (rows : Rows) (jobs_map enhancements_map sources : List (ℕ × ℕ))
    (js : All (λ r. HasOwner rows.jobs r.0 r.1) jobs_map)
    (es : All (λ r. HasEnhancement rows r.0 r.1) enhancements_map)
    (ss : All (λ r. HasAsset rows r.0 r.1) sources) where
  check_refs-All :
      (jobs : List Job)
      → check_refs jobs_map enhancements_map sources jobs ≡ ok tt
      → All (λ j. RefsAreOwned rows j) jobs
  unfolding check_refs
  check_refs-All [] h = tt
  check_refs-All (j ∷ jobs) h =
      let o = j.owner_user_id in
      let p = not (ref_owned o j.parent_job_id jobs_map) in
      let r = not (ref_owned o j.retry_of_job_id jobs_map) in
      let e = not (ref_owned o j.enhancement_id enhancements_map) in
      let s = not (ref_owned o j.source_asset_id sources) in
      let (_, e1, h1) = >>=-eq-ok (fail_if p content_not_found) _ h in
      let (_, e2, h2) = >>=-eq-ok (fail_if r content_not_found) _ h1 in
      let (_, e3, h3) = >>=-eq-ok (fail_if e content_not_found) _ h2 in
      let (_, e4, h4) = >>=-eq-ok (fail_if s content_not_found) _ h3 in
      (
        record {
          parent =
              ref_owned-Resolves (HasOwner rows.jobs) o j.parent_job_id jobs_map js
                (fail_if-eq-ok p content_not_found e1);
          retry_of =
              ref_owned-Resolves (HasOwner rows.jobs) o j.retry_of_job_id jobs_map js
                (fail_if-eq-ok r content_not_found e2);
          enhancement =
              ref_owned-Resolves (HasEnhancement rows) o j.enhancement_id enhancements_map es
                (fail_if-eq-ok e content_not_found e3);
          source =
              ref_owned-Resolves (HasAsset rows) o j.source_asset_id sources ss
                (fail_if-eq-ok s content_not_found e4);
        },
        check_refs-All jobs h4,
      )

-- A job that the actor may read, with its own assets, whose references are to rows of its owner.
abbrev pub IsValid : Actor → Rows → Job × List Asset → Type 0
IsValid actor rows p =
    IsGranted actor "read" (p.0).owner_user_id
    × (All (λ a. a.job_id ≡ (p.0).id) p.1 × RefsAreOwned rows p.0)

loaded-IsValid :
    (actor : Actor) (rows : Rows) (loaded : List (Job × List Asset))
    → All (λ p. IsReadable actor p.0 p.1) loaded
    → All (λ j. RefsAreOwned rows j) (map (λ p. p.0) loaded)
    → All (IsValid actor rows) loaded
loaded-IsValid actor rows [] h k = tt
loaded-IsValid actor rows ((j, assets) ∷ loaded) h k =
    (((h.0).owned, ((h.0).loaded, k.0)), loaded-IsValid actor rows loaded h.1 k.1)

-- A list of jobs that passes the validation shows the actor only jobs that it may read, each with
-- its own assets alone, and each reference of such a job, to its parent, to the job it retries, to
-- its enhancement or to its source asset, is to a row of the job's owner.
pub validate_read_jobs-IsValid :
    (actor : Actor) (loaded : List (Job × List Asset)) (rows : Rows)
    → validate_read_jobs actor loaded rows ≡ ok tt
    → All (IsValid actor rows) loaded
unfolding validate_read_jobs
validate_read_jobs-IsValid actor loaded rows h =
    let jobs = map (λ p. p.0) loaded in
    let (_, e1, h1) = >>=-eq-ok (check_jobs actor loaded) _ h in
    loaded-IsValid actor rows loaded (check_jobs-All actor loaded e1) (
      check_refs-All rows (job_owners jobs rows.jobs) (enhancement_owners jobs rows.enhancements)
        (source_owners jobs rows) (job_owners-All jobs rows.jobs) (enhancement_owners-All jobs rows)
        (source_owners-All jobs rows) jobs h1)
