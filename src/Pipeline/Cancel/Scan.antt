-- ===== src/Pipeline/Cancel/Scan.antt =====
-- The two scans of `cancel_unpublished` of backend/app/master_work.py: one that did not reach its
-- limit missed no row.
use mathlib.Core.Path.{subst}
use mathlib.Core.List.{Memᴰ}
use mathlib.Core.List.Memᴰ.{head, tail}
use ai_multimodal_platform.Prelude.{
  ℕ, zero, suc, ◌≤◌, ◌<◌, ◌≡◌, refl, ap, sym, ◌∙◌, inl, inr, Bool, true, false, ◌||◌, ◌&&◌, none,
  some, List, [], ◌∷◌, length, take, filter, sort_by, ◌==◌, arith, Bool-cases, All, any, All-map,
  All-take, All-filter, All-sort_by, filter-All, filter_holds, sort_by-All, ==_iff,
}
use ai_multimodal_platform.Job.{Job}
use ai_multimodal_platform.Ownership.Granted.{All-Mem}
use ai_multimodal_platform.Outbox.{OutboxEvent, is_published}
use ai_multimodal_platform.Pipeline.{Rows}
use ai_multimodal_platform.Pipeline.Cancel.{
  max_pending_scan, is_pending_of, job_before, event_before, scanned_events, scanned_jobs,
  was_published,
}

both : {A : Type 0} (P Q : A → Type 0) (xs : List A) → All P xs → All Q xs → All (λ x. P x × Q x) xs
both P Q [] p q = tt
both P Q (x ∷ xs) p q = ((p.0, q.0), both P Q xs p.1 q.1)

-- A scan that did not reach its limit saw every row.
short_take : {A : Type 0} (n : ℕ) (xs : List A) → length (take n xs) < n → take n xs ≡ xs
short_take zero xs h = absurd (omega (arith, h))
short_take (suc n) [] h = refl
short_take (suc n) (x ∷ xs) h = ap (λ l. x ∷ l) (short_take n xs (omega (arith, h)))

pub scanned_rows :
    (uid : ℕ) (rows : Rows)
    → All (λ j. (is_pending_of uid j ≡ true) × Memᴰ j rows.jobs) (scanned_jobs uid rows)
scanned_rows uid rows =
    let waiting = is_pending_of uid in
    All-take _ 501 (sort_by job_before (filter waiting rows.jobs)) (
      sort_by-All _ job_before (filter waiting rows.jobs) (
        both _ _ (filter waiting rows.jobs) (filter_holds waiting rows.jobs)
          (filter-All _ waiting rows.jobs (All-Mem rows.jobs))))

below : {n : ℕ} → n ≤ 500 → n < 501
below h = omega (arith, h)

pub scanned_complete :
    (P : Job → Type 0) (uid : ℕ) (rows : Rows)
    → length (scanned_jobs uid rows) ≤ max_pending_scan
    → All P (scanned_jobs uid rows)
    → All (λ j. is_pending_of uid j ≡ true → P j) rows.jobs
scanned_complete P uid rows short h =
    let waiting = is_pending_of uid in
    let sorted = sort_by job_before (filter waiting rows.jobs) in
    let whole : take 501 sorted ≡ sorted = short_take 501 sorted (below short) in
    All-filter P waiting rows.jobs
      (All-sort_by P job_before (filter waiting rows.jobs) (subst (All P) whole h))

any-All : {A : Type 0} (p : A → Bool) (xs : List A) → any p xs ≡ false → All (λ x. p x ≡ false) xs
any-All p [] h = tt
any-All p (x ∷ xs) h = elim (Bool-cases (p x)) [
  | inl e ↦ absurd (ground (arith, e, h))
  | inr e ↦ (e, any-All p xs (ground (arith, e, h)))
]

All-any : {A : Type 0} (p : A → Bool) (xs : List A) → All (λ x. p x ≡ false) xs → any p xs ≡ false
All-any p [] h = refl
All-any p (x ∷ xs) h = let rest = All-any p xs h.1 in let first = h.0 in ground (arith, first, rest)

any-Mem :
    {A : Type 0} (p : A → Bool) (xs : List A) (x : A) → Memᴰ x xs → p x ≡ true → any p xs ≡ true
any-Mem p [] x m h = elim m [ ]
any-Mem p (y ∷ ys) x (head same) h =
    let first : p y ≡ true = subst (λ z. p z ≡ true) same h in ground (arith, first)
any-Mem p (y ∷ ys) x (tail m) h = let rest = any-Mem p ys x m h in ground (arith, rest)

-- An event that hands a job over, in the sense of `was_published`.
abbrev hands_over : ℕ → OutboxEvent → Bool
hands_over id e =
    e.aggregate_id == id
    && (is_published e.status || (elim e.published_at [ none ↦ false | some at ↦ true ]))

unseen_event :
    (uid id : ℕ) (jobs : List Job) (job : Job) (e : OutboxEvent)
    → Memᴰ job jobs
    → job.id ≡ id
    → is_pending_of uid job ≡ true
    → (any (λ j. j.id == e.aggregate_id && is_pending_of uid j) jobs ≡ true
        → hands_over id e ≡ false)
    → hands_over id e ≡ false
unseen_event uid id jobs job e m named p h = elim (Bool-cases (e.aggregate_id == id)) [
  | inr f ↦ ground (arith, f)
  | inl f ↦
      let own = (==_iff job.id e.aggregate_id).1 (named ∙ sym ((==_iff e.aggregate_id id).0 f)) in
      h (
        any-Mem (λ j. j.id == e.aggregate_id && is_pending_of uid j) jobs job m
          (ground (arith, own, p)))
]

-- A pending job of the user that no scanned event hands over is handed over by no event.
pub scanned_unseen :
    (uid : ℕ) (rows : Rows) (job : Job)
    → length (scanned_events uid rows) ≤ max_pending_scan
    → Memᴰ job rows.jobs
    → is_pending_of uid job ≡ true
    → was_published (scanned_events uid rows) job.id ≡ false
    → was_published rows.events job.id ≡ false
scanned_unseen uid rows job short m p h =
    let mine : OutboxEvent → Bool =
      λ e. any (λ j. j.id == e.aggregate_id && is_pending_of uid j) rows.jobs in
    let sorted = sort_by event_before (filter mine rows.events) in
    let whole : take 501 sorted ≡ sorted = short_take 501 sorted (below short) in
    let Silent : OutboxEvent → Type 0 = λ e. hands_over job.id e ≡ false in
    let silent : All Silent (take 501 sorted) = any-All (hands_over job.id) (take 501 sorted) h in
    All-any (hands_over job.id) rows.events (
      All-map _ _ rows.events (λ e q. unseen_event uid job.id rows.jobs job e m refl p q)
        (All-filter Silent mine rows.events (
          All-sort_by Silent event_before (filter mine rows.events)
            (subst (All Silent) whole silent))))
