-- ===== src/Pipeline/Cancel/Outcome.antt =====
-- What `cancel_unpublished` of backend/app/master_work.py cancels, and what it leaves.
use mathlib.Core.Path.{subst}
use ai_multimodal_platform.Prelude.{
  ℕ, ◌≤◌, ◌≡◌, refl, ap, sym, ◌∙◌, String, Bool, true, false, Option, some, List, [], ◌∷◌, length,
  ltb, ◌==◌, ◌||◌, if◌then◌else◌, arith, inl, inr, Bool-cases, All, All-map, ==_iff,
}
use ai_multimodal_platform.Prelude.Pointwise.{
  Pointwise, Pointwise-map, Pointwise-weaken, Pointwise-same,
}
use mathlib.Core.List.{Memᴰ}
use ai_multimodal_platform.Prelude.Result.{
  Result, ok, err, fail_if, >>=-eq-ok, fail_if-eq-ok, Result-cases,
}
use ai_multimodal_platform.Job.{Job, cancelled, transition, normalize_state, InvalidTransitionError}
use ai_multimodal_platform.Generation.{UuidText}
use ai_multimodal_platform.Generation.Terminal.{TerminalResult, terminalize_generation}
use ai_multimodal_platform.Pipeline.{
  Rows, or_state, or_generation, master, save_job, terminalize_rows,
}
use ai_multimodal_platform.Pipeline.Cancel.Selection.{IsWithdrawable, select_cancelled-exact}
use ai_multimodal_platform.Pipeline.Cancel.Scan.{scanned_rows, scanned_complete, scanned_unseen}
use ai_multimodal_platform.Pipeline.Cancel.{
  max_pending_scan, was_published, mark_cancelled, scanned_events, scanned_jobs, has_id,
  select_cancelled, cancel_jobs, is_parents_hold, return_holds, cancel_unpublished, withdraw_events,
}

pub or_state-eq-ok :
    {A : Type 0} (r : Result InvalidTransitionError A) {a : A} → or_state r ≡ ok a → r ≡ ok a
or_state-eq-ok (ok b) h = cc
or_state-eq-ok (err c) h = cc

-- What became of a row: cancelled if it is one of the jobs that are done, and as it was if not.
abbrev pub IsRowAfter : List Job → Job → Job → Type 0
IsRowAfter done row row' =
    (row'.id ≡ row.id)
    × (has_id row.id done ≡ true → (row'.state ≡ cancelled) × (row'.blocked ≡ false))
    × (has_id row.id done ≡ false → row' ≡ row)

pub mark_cancelled-state :
    (now : ℕ) (job job' : Job)
    → mark_cancelled now job ≡ ok job'
    → (job'.state ≡ cancelled) × (job'.id ≡ job.id) × (job'.blocked ≡ false)
unfolding mark_cancelled transition normalize_state
mark_cancelled-state now job job' h = (ground (arith, h), ground (arith, h), ground (arith, h))

other_id : (a a' b b' : ℕ) → a' ≡ a → b' ≡ b → (a' == b') ≡ false → (b == a) ≡ false
other_id a a' b b' h k e = elim (Bool-cases (b == a)) [
  | inr f ↦ f
  | inl f ↦ let hit = (==_iff a' b').1 (h ∙ sym ((==_iff b a).0 f) ∙ sym k) in absurd (cc (hit, e))
]

-- One row of a save.
save-IsRowAfter :
    (job job' : Job) (done : List Job) (row row' : Job)
    → job'.id ≡ job.id
    → job'.state ≡ cancelled
    → job'.blocked ≡ false
    → IsRowAfter done row row'
    → IsRowAfter (job ∷ done) row (if row'.id == job'.id then job' else row')
save-IsRowAfter job job' done row row' id c u h = elim (Bool-cases (row'.id == job'.id)) [
  | inl e ↦
      let hit : job'.id ≡ row.id = sym ((==_iff row'.id job'.id).0 e) ∙ h.0 in
      let own = (==_iff job.id row.id).1 (sym id ∙ hit) in
      rw e (hit, (λ q. (c, u)), λ q. absurd (ground (arith, own, q)))
  | inr e ↦
      let missed = other_id row.id row'.id job.id job'.id h.0 id e in
      rw e (h.0, (λ q. h.1 (ground (arith, missed, q))), λ q. h.2 (ground (arith, missed, q)))
]

-- The rows that a list of jobs has marked, in the order of the loop.
abbrev marked_after : List Job → List Job → List Job
marked_after done [] = done
marked_after done (j ∷ js) = marked_after (j ∷ done) js

cancel_jobs-rows :
    (now : ℕ) (chosen done before : List Job) (rows : Rows) (out : List Job × Rows)
    → Pointwise (IsRowAfter done) before rows.jobs
    → cancel_jobs now chosen rows ≡ ok out
    → Pointwise (IsRowAfter (marked_after done chosen)) before out.1.jobs
unfolding cancel_jobs
cancel_jobs-rows now [] done before rows out h e =
    let same : ([], rows) ≡ out = cc in
    subst (λ o. Pointwise (IsRowAfter done) before o.1.jobs) same h
cancel_jobs-rows now (job ∷ rest) done before rows out h e =
    let (job', e1, h1) = >>=-eq-ok (or_state (mark_cancelled now job)) _ e in
    let (o, e2, h2) = >>=-eq-ok (cancel_jobs now rest (save_job job' rows)) _ h1 in
    let same : (job' ∷ o.0, o.1) ≡ out = cc in
    let m = mark_cancelled-state now job job' (or_state-eq-ok (mark_cancelled now job) e1) in
    let saved =
      Pointwise-map (λ j. if j.id == job'.id then job' else j)
        (λ row row' r. save-IsRowAfter job job' done row row' m.1 m.0 m.2 r) h in
    subst (λ x. Pointwise (IsRowAfter (marked_after (job ∷ done) rest)) before x.1.jobs) same
      (cancel_jobs-rows now rest (job ∷ done) before (save_job job' rows) o saved e2)

none_of :
    (id : ℕ) (j : Job) (js : List Job)
    → has_id id (j ∷ js) ≡ false
    → ((j.id == id) ≡ false) × (has_id id js ≡ false)
none_of id j js h = elim (Bool-cases (j.id == id)) [
  | inl e ↦ absurd (ground (arith, e, h))
  | inr e ↦ (e, ground (arith, e, h))
]

marked-done :
    (id : ℕ) (done js : List Job) → has_id id done ≡ true → has_id id (marked_after done js) ≡ true
marked-done id done [] h = h
marked-done id done (j ∷ js) h = marked-done id (j ∷ done) js (ground (arith, h))

marked-chosen :
    (id : ℕ) (done js : List Job) → has_id id js ≡ true → has_id id (marked_after done js) ≡ true
marked-chosen id done [] h = cc
marked-chosen id done (j ∷ js) h = elim (Bool-cases (j.id == id)) [
  | inl e ↦ marked-done id (j ∷ done) js (ground (arith, e))
  | inr e ↦ marked-chosen id (j ∷ done) js (ground (arith, e, h))
]

unmarked :
    (id : ℕ) (done js : List Job)
    → has_id id done ≡ false
    → has_id id js ≡ false
    → has_id id (marked_after done js) ≡ false
unmarked id done [] d h = d
unmarked id done (j ∷ js) d h =
    let (other, rest) = none_of id j js h in
    unmarked id (j ∷ done) js (ground (arith, other, d)) rest

pub terminalize_rows-keeps :
    (uuid : UuidText) (job : Job) (succeeded : Bool) (reason : Option String) (now : ℕ)
    (rows : Rows) (out : TerminalResult × Rows)
    → terminalize_rows uuid job succeeded reason now rows ≡ ok out
    → (out.1.jobs ≡ rows.jobs) × (out.1.events ≡ rows.events)
unfolding terminalize_rows
terminalize_rows-keeps uuid job succeeded reason now rows out h =
    let (r, e, h1) =
      >>=-eq-ok
        (or_generation
          (terminalize_generation uuid rows.jobs rows.assets job succeeded reason now rows.credit))
        _ h in
    let same : (r.0, record rows { credit = r.1 }) ≡ out = cc in
    (sym (ap (λ o. o.1.jobs) same), sym (ap (λ o. o.1.events) same))

return_holds-jobs :
    (uuid : UuidText) (now : ℕ) (chosen left : List Job) (rows rows' : Rows)
    → return_holds uuid now chosen left rows ≡ ok rows'
    → rows'.jobs ≡ rows.jobs
unfolding return_holds
return_holds-jobs uuid now chosen [] rows rows' h =
    let same : rows ≡ rows' = cc in sym (ap (λ r. r.jobs) same)
return_holds-jobs uuid now chosen (job ∷ left) rows rows' h =
    let rest = return_holds-jobs uuid now chosen left in
    elim (Bool-cases (is_parents_hold chosen rows job)) [
      | inl e ↦ rest rows rows' (ground (arith, e, h))
      | inr e ↦
          elim (Result-cases
            (terminalize_rows uuid job false (some "cancelled_before_delivery") now rows)) [
              | inr (c, e1) ↦ absurd (ground (arith, e, e1, h))
              | inl (o, e1) ↦
                  rest o.1 rows' (ground (arith, e, e1, h))
                  ∙ (terminalize_rows-keeps uuid job false (some "cancelled_before_delivery") now
                      rows o e1).0
            ]
    ]

scan_fits : (a b : ℕ) → (ltb 500 a || ltb 500 b) ≡ false → (a ≤ 500) × (b ≤ 500)
scan_fits a b h = (ground (arith, h), ground (arith, h))

within : (a b c : ℕ) → a ≤ b → b ≤ c → a ≤ c
within a b c h k = omega (arith, h, k)

-- What a call that returned `n` has cancelled.
pub record IsCancellation (uid : ℕ) (rows : Rows) (out : ℕ × Rows) : Type 0 where
  pub chosen : List Job
  pub counted : out.0 ≡ length chosen
  pub bounded : out.0 ≤ max_pending_scan
  pub taken : All (λ j. Memᴰ j rows.jobs × IsWithdrawable uid rows j) chosen
  pub unpublished : All (λ j. was_published rows.events j.id ≡ false) chosen
  pub complete : All (λ j. IsWithdrawable uid rows j → has_id j.id chosen ≡ true) rows.jobs
  pub written : Pointwise (IsRowAfter chosen) rows.jobs out.1.jobs

-- A call that succeeds takes exactly the withdrawable rows of the table: each job that it takes is
-- one, with no published event in the outbox, and each withdrawable row is taken. It counts them,
-- at most `max_pending_scan`, and in the table afterwards exactly the rows of the jobs it took are
-- cancelled and unblocked, while every other row is as it was.
pub cancel_unpublished-IsCancellation :
    (uuid : UuidText) (uid now : ℕ) (rows : Rows) (out : ℕ × Rows)
    → cancel_unpublished uuid uid now rows ≡ ok out
    → IsCancellation uid rows out
unfolding cancel_unpublished
cancel_unpublished-IsCancellation uuid uid now rows out h =
    let events = scanned_events uid rows in
    let jobs = scanned_jobs uid rows in
    let busy = ltb max_pending_scan (length events) || ltb max_pending_scan (length jobs) in
    let (u, e0, h0) = >>=-eq-ok (fail_if busy (master "master_busy")) _ h in
    let calm = fail_if-eq-ok busy (master "master_busy") e0 in
    let (chosen, e1, h1) = >>=-eq-ok (select_cancelled uid events jobs rows jobs) _ h0 in
    let (marked, e2, h2) = >>=-eq-ok (cancel_jobs now chosen rows) _ h1 in
    let (rows2, e3, h3) = >>=-eq-ok (return_holds uuid now chosen marked.0 marked.1) _ h2 in
    let same : (
      length chosen,
      record rows2 { events = withdraw_events now events chosen rows2.events },
    )
        ≡ out =
      cc in
    let fits = scan_fits (length events) (length jobs) calm in
    let (sound, every_one, fewer) =
      select_cancelled-exact (λ j. Memᴰ j rows.jobs) uid rows jobs chosen (scanned_rows uid rows)
        e1 in
    let untouched = Pointwise-same rows.jobs (λ j. (refl, (λ q. cc), λ q. refl)) in
    let done = cancel_jobs-rows now chosen [] rows.jobs rows marked untouched e2 in
    subst (IsCancellation uid rows) same (record {
      chosen = chosen;
      counted = refl;
      bounded = within (length chosen) (length jobs) max_pending_scan fewer fits.1;
      taken = sound;
      unpublished =
          All-map _ _ chosen (λ j w. scanned_unseen uid rows j fits.0 w.0 w.1.is_pending w.1.unseen)
            sound;
      complete =
          All-map _ _ rows.jobs (λ j p w. p w.is_pending w)
            (scanned_complete (λ j. IsWithdrawable uid rows j → has_id j.id chosen ≡ true) uid rows
              fits.1 every_one);
      written = rw (return_holds-jobs uuid now chosen marked.0 marked.1 rows2 e3) (
          Pointwise-weaken
            (λ x y r. (
              r.0,
              (λ q. r.1 (marked-chosen x.id [] chosen q)),
              λ q. r.2 (unmarked x.id [] chosen refl q),
            ))
            done);
    })
