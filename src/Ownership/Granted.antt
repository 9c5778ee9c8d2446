-- ===== src/Ownership/Granted.antt =====
-- To whom OwnershipAccess of backend/app/ownership.py hands a row.
use mathlib.Core.Path.{subst}
use mathlib.Core.List.{Memᴰ}
use mathlib.Core.List.Memᴰ.{head, tail}
use ai_multimodal_platform.Prelude.{
  ℕ, ◌≡◌, refl, ap, sym, ◌∙◌, String, Bool, true, false, not, some, List, [], ◌∷◌, ◌++◌, any,
  filter, find, ◌==◌, ◌&&◌, ◌||◌, str_eq, ◌⊎◌, inl, inr, arith, All, All-map, All-find, filter-All,
  Bool-cases, ==_iff, eq_iff,
}
use ai_multimodal_platform.Prelude.Result.{
  ok, fail_if, or_fail, >>=-eq-ok, fail_if-eq-ok, or_fail-eq-ok,
}
use ai_multimodal_platform.Credit.Lifecycle.Commands.{codes}
use ai_multimodal_platform.Job.{Job, Asset}
use ai_multimodal_platform.Pipeline.{Rows}
use ai_multimodal_platform.Ownership.{
  Actor, content_not_found, check_intent, check_owner, is_visible, master_read, with_owners, joined,
  one_or_none, asset, job, unsupported_ownership_intent,
}
use ai_multimodal_platform.Ownership.Files.{file_asset, checked_parts, split, codes_eq}

-- The actor owns the row, or is a master who reads it.
abbrev pub IsGranted : Actor → String → ℕ → Type 0
IsGranted actor intent owner = (owner ≡ actor.id) ⊎ ((intent ≡ "read") × (actor.role ≡ "master"))

-- A row of the job table with an id and an owner.
abbrev pub HasOwner : List Job → ℕ → ℕ → Type 0
HasOwner jobs id owner = (j : Job) × Memᴰ j jobs × (j.id ≡ id) × (j.owner_user_id ≡ owner)

pub check_owner-IsGranted :
    (actor : Actor) (owner : ℕ) (intent : String)
    → check_owner actor (some owner) intent ≡ ok tt
    → IsGranted actor intent owner
unfolding check_owner
check_owner-IsGranted actor owner intent h =
    let passed =
      fail_if-eq-ok (not (owner == actor.id) && not (master_read actor intent)) content_not_found
        h in
    elim (Bool-cases (owner == actor.id)) [
      | inl own ↦ inl ((==_iff owner actor.id).0 own)
      | inr foreign ↦
          let read : str_eq intent "read" ≡ true = ground (arith, passed, foreign) in
          let master : str_eq actor.role "master" ≡ true = ground (arith, passed, foreign) in
          inr ((eq_iff intent "read").0 read, (eq_iff actor.role "master").0 master)
    ]

pub All-Mem : {A : Type 0} (xs : List A) → All (λ x. Memᴰ x xs) xs
All-Mem [] = tt
All-Mem (x ∷ xs) = (head refl, All-map _ _ xs (λ y m. tail m) (All-Mem xs))

with_owners-All :
    (a : Asset) (table jobs : List Job)
    → All (λ j. Memᴰ j table) jobs
    → All (λ r. (r.0 ≡ a) × HasOwner table a.job_id r.1) (with_owners a jobs)
with_owners-All a table [] h = tt
with_owners-All a table (j ∷ jobs) h = elim (Bool-cases (a.job_id == j.id)) [
  | inl e ↦
      let same = (==_iff a.job_id j.id).0 e in
      rw e ((refl, (j, h.0, sym same, refl)), with_owners-All a table jobs h.1)
  | inr e ↦ rw e (with_owners-All a table jobs h.1)
]

All-append : {A : Type 0} (P : A → Type 0) (xs ys : List A) → All P xs → All P ys → All P (xs ++ ys)
All-append P [] ys h k = k
All-append P (x ∷ xs) ys h k = (h.0, All-append P xs ys h.1 k)

-- A row of the join, with where it comes from.
abbrev pub IsJoined : List Asset → List Job → Asset × ℕ → Type 0
IsJoined assets jobs row = Memᴰ row.0 assets × HasOwner jobs (row.0).job_id row.1

pub joined-All :
    (table assets : List Asset) (jobs : List Job)
    → All (λ a. Memᴰ a table) assets
    → All (IsJoined table jobs) (joined assets jobs)
joined-All table [] jobs h = tt
joined-All table (a ∷ assets) jobs h =
    All-append (IsJoined table jobs) (with_owners a jobs) (joined assets jobs)
      (All-map _ (IsJoined table jobs) (with_owners a jobs)
        (λ r q. subst (λ x. Memᴰ x table × HasOwner jobs x.job_id r.1) (sym q.0) (h.0, q.1))
        (with_owners-All a jobs jobs (All-Mem jobs)))
      (joined-All table assets jobs h.1)

one_or_none-All :
    {A : Type 0} (P : A → Type 0) (xs : List A) {x : A}
    → All P xs
    → one_or_none xs ≡ ok (some x)
    → P x
one_or_none-All P [] h e = cc
one_or_none-All P (y ∷ []) {x} h e = let same : y ≡ x = cc in subst P same h.0
one_or_none-All P (y ∷ z ∷ rest) h e = cc

-- The rest of `asset` and `file_asset`, once the query has its row.
found-IsGranted :
    (actor : Actor) (intent : String) (rows : Rows) (p : Asset × ℕ → Bool) (row : Asset × ℕ)
    → one_or_none (filter p (joined rows.assets rows.jobs)) ≡ ok (some row)
    → check_owner actor (some row.1) intent ≡ ok tt
    → Memᴰ row.0 rows.assets
      × ((owner : ℕ) × HasOwner rows.jobs (row.0).job_id owner × IsGranted actor intent owner)
found-IsGranted actor intent rows p row found owned =
    let (member, has) =
      one_or_none-All (IsJoined rows.assets rows.jobs) (filter p (joined rows.assets rows.jobs))
        (filter-All (IsJoined rows.assets rows.jobs) p (joined rows.assets rows.jobs)
          (joined-All rows.assets rows.assets rows.jobs (All-Mem rows.assets)))
        found in
    (member, (row.1, has, check_owner-IsGranted actor row.1 intent owned))

-- A call that hands out an asset hands out a registered one with the id asked for, whose job belongs
-- to the actor, unless the actor is a master and the call a read.
pub asset-IsGranted :
    (actor : Actor) (asset_id : ℕ) (intent : String) (rows : Rows) {a : Asset}
    → asset actor asset_id intent rows ≡ ok a
    → (a.id ≡ asset_id)
      × (Memᴰ a rows.assets
          × ((owner : ℕ) × HasOwner rows.jobs a.job_id owner × IsGranted actor intent owner))
unfolding asset
asset-IsGranted actor asset_id intent rows {a} h =
    let asked = λ (r : Asset × ℕ). (r.0).id == asset_id && is_visible actor intent r.1 in
    let (_, _, h1) = >>=-eq-ok (check_intent intent ("read" ∷ "use" ∷ [])) _ h in
    let (found, e2, h2) =
      >>=-eq-ok (one_or_none (filter asked (joined rows.assets rows.jobs))) _ h1 in
    let (row, e3, h3) = >>=-eq-ok (or_fail found content_not_found) _ h2 in
    let (_, e4, h4) = >>=-eq-ok (fail_if (not ((row.0).id == asset_id)) content_not_found) _ h3 in
    let (_, e5, h5) = >>=-eq-ok (check_owner actor (some row.1) intent) _ h4 in
    let one = e2 ∙ ap ok (or_fail-eq-ok found content_not_found e3) in
    let same : row.0 ≡ a = cc in
    let matched : (row.0).id == asset_id ≡ true =
      ground (arith, fail_if-eq-ok (not ((row.0).id == asset_id)) content_not_found e4) in
    subst
      (λ a.
        (a.id ≡ asset_id)
        × (Memᴰ a rows.assets
            × ((owner : ℕ) × HasOwner rows.jobs a.job_id owner × IsGranted actor intent owner)))
      same
      ((==_iff (row.0).id asset_id).0 matched, found-IsGranted actor intent rows asked row one e5)

unless-false : (a b : Bool) → not a || b ≡ false → a ≡ true
unless-false a b h = ground (arith, h)

-- A path hands out the asset that is registered under exactly that path, to the owner of its job and
-- to masters.
pub file_asset-IsGranted :
    (str : ℕ → String) (actor : Actor) (local_path : String) (rows : Rows) {a : Asset}
    → file_asset str actor local_path rows ≡ ok a
    → (a.local_path ≡ local_path)
      × (Memᴰ a rows.assets
          × ((owner : ℕ) × HasOwner rows.jobs a.job_id owner × IsGranted actor "read" owner))
unfolding file_asset
file_asset-IsGranted str actor local_path rows {a} h =
    let asked =
      λ (r : Asset × ℕ). str_eq (r.0).local_path local_path && is_visible actor "read" r.1 in
    let (first, _, h1) = >>=-eq-ok (checked_parts (split (codes local_path))) _ h in
    let (found, e2, h2) =
      >>=-eq-ok (one_or_none (filter asked (joined rows.assets rows.jobs))) _ h1 in
    let (row, e3, h3) = >>=-eq-ok (or_fail found content_not_found) _ h2 in
    let wrong =
      not (str_eq (row.0).local_path local_path)
      || not (codes_eq (codes (str (row.0).job_id)) first) in
    let (_, e4, h4) = >>=-eq-ok (fail_if wrong content_not_found) _ h3 in
    let (_, e5, h5) = >>=-eq-ok (check_owner actor (some row.1) "read") _ h4 in
    let one = e2 ∙ ap ok (or_fail-eq-ok found content_not_found e3) in
    let same : row.0 ≡ a = cc in
    let matched : str_eq (row.0).local_path local_path ≡ true =
      unless-false (str_eq (row.0).local_path local_path) _
        (fail_if-eq-ok wrong content_not_found e4) in
    subst
      (λ a.
        (a.local_path ≡ local_path)
        × (Memᴰ a rows.assets
            × ((owner : ℕ) × HasOwner rows.jobs a.job_id owner × IsGranted actor "read" owner)))
      same
      (
        (eq_iff (row.0).local_path local_path).0 matched,
        found-IsGranted actor "read" rows asked row one e5,
      )

-- A call that hands out a job hands out a row of the table with the id asked for, to its owner, or
-- to a master who reads it; and it was called to read or to change it.
pub job-IsGranted :
    (actor : Actor) (job_id : ℕ) (intent : String) (jobs : List Job) {row : Job}
    → job actor job_id intent jobs ≡ ok row
    → Memᴰ row jobs
      × (row.id ≡ job_id)
      × (IsGranted actor intent row.owner_user_id × ((intent ≡ "read") ⊎ (intent ≡ "mutate")))
unfolding job
job-IsGranted actor job_id intent jobs {row} h =
    let expected : List String = "read" ∷ "mutate" ∷ [] in
    let (_, e1, h1) = >>=-eq-ok (check_intent intent expected) _ h in
    let (found, e2, h2) =
      >>=-eq-ok
        (or_fail (find (λ j. j.id == job_id && is_visible actor intent j.owner_user_id) jobs)
          content_not_found)
        _ h1 in
    let (_, e3, h3) = >>=-eq-ok (fail_if (not (found.id == job_id)) content_not_found) _ h2 in
    let (_, e4, h4) = >>=-eq-ok (check_owner actor (some found.owner_user_id) intent) _ h3 in
    let same : found ≡ row = cc in
    let matched : found.id == job_id ≡ true =
      ground (arith, fail_if-eq-ok (not (found.id == job_id)) content_not_found e3) in
    let known =
      fail_if-eq-ok (not (any (λ e. str_eq intent e) expected)) unsupported_ownership_intent e1 in
    let one_of : (intent ≡ "read") ⊎ (intent ≡ "mutate") =
      elim (Bool-cases (str_eq intent "read")) [
        | inl r ↦ inl ((eq_iff intent "read").0 r)
        | inr r ↦
            let m : str_eq intent "mutate" ≡ true = ground (arith, known, r) in
            inr ((eq_iff intent "mutate").0 m)
      ] in
    subst
      (λ row.
        Memᴰ row jobs
        × (row.id ≡ job_id)
        × (IsGranted actor intent row.owner_user_id × ((intent ≡ "read") ⊎ (intent ≡ "mutate"))))
      same
      (
        All-find (λ j. Memᴰ j jobs) (λ j. j.id == job_id && is_visible actor intent j.owner_user_id)
            jobs (All-Mem jobs) (or_fail-eq-ok _ content_not_found e2),
        (==_iff found.id job_id).0 matched,
        (check_owner-IsGranted actor found.owner_user_id intent e4, one_of),
      )
