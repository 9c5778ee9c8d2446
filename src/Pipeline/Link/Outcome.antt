-- ===== src/Pipeline/Link/Outcome.antt =====
-- What `link_completed_parent` of backend/app/services/jobs/pipeline_link.py comes to.
use mathlib.Core.Path.{subst}
use ai_multimodal_platform.Prelude.{
  then_eq, else_eq, ℕ, ◌≡◌, refl, ap, sym, ◌∙◌, ◌⊎◌, inl, inr, String, true, false, not, Option,
  none, some, [], ◌∷◌, head?, find, ◌==◌, arith, Bool-cases, Option-cases,
}
use ai_multimodal_platform.Prelude.Result.{Result, ok, ◌>>=◌, >>=-eq-ok, Result-cases}
use ai_multimodal_platform.Credit.Tables.{UserStatus}
use ai_multimodal_platform.Job.{
  Job, Asset, completed, pending, failed, cancelled, is_terminal, transition, member, text, boolean,
}
use ai_multimodal_platform.Job.Claim.{state_eq}
use ai_multimodal_platform.Generation.{UuidText, is_t2i}
use ai_multimodal_platform.Pipeline.{
  Rows, PipelineError, or_state, save_job, terminalize_rows, owned_child,
}
use ai_multimodal_platform.Pipeline.Cancel.{lock_owner_status, mark_cancelled}
use ai_multimodal_platform.Pipeline.Cancel.Outcome.{terminalize_rows-keeps, mark_cancelled-state}
use ai_multimodal_platform.Pipeline.Link.Written.{IsWritten, linked_rows-IsWritten, head-child}
use ai_multimodal_platform.Pipeline.Link.Kept.{
  AreKeptOrOver, unchanged, save-AreKeptOrOver, over_cancelled, fail_child-AreKeptOrOver,
}
use ai_multimodal_platform.Pipeline.Link.{
  PipelineLinkResult, unlinked, is_image, is_suspended, pipeline_children, first_parent_asset,
  fail_child, link_child, is_foreign, link_first_child, try_link, link_completed_parent,
}

-- The child of a completed parent took the parent's first asset and was handed to the outbox.
pub record IsLinked (uuid : UuidText) (event_id : ℕ) (parent : Job) (rows : Rows)
    (out : PipelineLinkResult × Rows) : Type 0 where
  pub child : Job
  pub asset : Asset
  pub is_done : (is_t2i parent.mode ≡ true) × (state_eq parent.state completed ≡ true)
  pub first : head? (pipeline_children parent.id rows) ≡ some child
  pub owned : owned_child parent child ≡ true
  pub waiting : (state_eq child.state pending ≡ true) × (child.blocked ≡ true)
  pub source : first_parent_asset parent.id rows ≡ some asset
  pub shown : is_image asset.kind ≡ true
  pub written : IsWritten uuid event_id child asset rows out

-- A call that links nothing hands nothing to the outbox, and changes no row that it does not leave
-- at its end.
abbrev pub IsUnlinked : Rows → PipelineLinkResult × Rows → Type 0
IsUnlinked rows out =
    (out.0.linked ≡ false) × (out.1.events ≡ rows.events) × AreKeptOrOver rows.jobs out.1.jobs

ok_value : {A : Type 0} {a b : A} (r : Result PipelineError A) → r ≡ ok a → r ≡ ok b → a ≡ b
ok_value r g h = cc

fail_child-events :
    (uuid : UuidText) (now : ℕ) (child : Job) (code message : String) (rows rows' : Rows)
    → fail_child uuid now child code message rows ≡ ok rows'
    → rows'.events ≡ rows.events
unfolding fail_child
fail_child-events uuid now child code message rows rows' h =
    let child' : Job = record child {
      error =
          some
            (("code", text code) ∷ ("message", text message) ∷ ("retryable", boolean false) ∷ []);
    } in
    let (o, e, h1) =
      >>=-eq-ok
        (terminalize_rows uuid child' false (some "delivery_failed") now (save_job child' rows)) _
        h in
    let (c, e1, h2) =
      >>=-eq-ok
        (or_state (transition now child' (member failed) (some (("error", text code) ∷ [])) none)) _
        h1 in
    let same : save_job c o.1 ≡ rows' = cc in
    sym (ap (λ r. r.events) same)
    ∙ (terminalize_rows-keeps uuid child' false (some "delivery_failed") now (save_job child' rows)
        o e).1

failed-IsUnlinked :
    (uuid : UuidText) (now : ℕ) (child : Job) (code message reason : String) (rows : Rows)
    (out : PipelineLinkResult × Rows)
    → (fail_child uuid now child code message rows >>= λ r. ok (unlinked reason (some child.id), r))
      ≡ ok out
    → IsUnlinked rows out
failed-IsUnlinked uuid now child code message reason rows out h =
    let (r, e, h1) = >>=-eq-ok (fail_child uuid now child code message rows) _ h in
    let same : (unlinked reason (some child.id), r) ≡ out = cc in
    subst (IsUnlinked rows) same (
      refl,
      fail_child-events uuid now child code message rows r e,
      fail_child-AreKeptOrOver uuid now child code message rows r e,
    )

cancelled-IsUnlinked :
    (uuid : UuidText) (now : ℕ) (child child' : Job) (rows : Rows) (out : PipelineLinkResult × Rows)
    → child'.state ≡ cancelled
    → (terminalize_rows uuid child' false
          (some "cancelled_before_delivery")
          now
          (save_job child' rows)
        >>= λ o. ok (unlinked "user_suspended" (some child.id), o.1))
      ≡ ok out
    → IsUnlinked rows out
cancelled-IsUnlinked uuid now child child' rows out over h =
    let (o, e, h1) =
      >>=-eq-ok
        (terminalize_rows uuid child' false (some "cancelled_before_delivery") now
          (save_job child' rows))
        _ h in
    let same : (unlinked "user_suspended" (some child.id), o.1) ≡ out = cc in
    let kept =
      terminalize_rows-keeps uuid child' false (some "cancelled_before_delivery") now
        (save_job child' rows) o e in
    subst (IsUnlinked rows) same (
      refl,
      kept.1,
      subst (AreKeptOrOver rows.jobs) (sym kept.0) (
          save-AreKeptOrOver child' rows.jobs rows.jobs (over_cancelled child'.state over)
            (unchanged rows.jobs)),
    )

-- A blocked child, when the parent and the child are known to fit.
link_child-cases :
    (uuid : UuidText) (now event_id : ℕ) (owner_status : UserStatus) (parent child : Job)
    (asset : Option Asset) (rows : Rows) (out : PipelineLinkResult × Rows)
    → (row : Job) × (find (λ j. j.id == child.id) rows.jobs ≡ some row)
    → state_eq child.state pending ≡ true
    → link_child uuid now event_id owner_status parent child asset rows ≡ ok out
    → IsUnlinked rows out
      ⊎ ((a : Asset) × (asset ≡ some a)
          × (is_image a.kind ≡ true)
          × IsWritten uuid event_id child a rows out)
unfolding link_child
link_child-cases uuid now event_id owner_status parent child asset rows out there waits h =
    elim (Bool-cases (is_suspended owner_status)) [
      | inl e ↦ elim (Result-cases (mark_cancelled now child)) [
        | inr (c, e1) ↦ absurd (ground (arith, e, e1, h))
        | inl (child', e1) ↦ inl (
            cancelled-IsUnlinked uuid now child child' rows out
              (mark_cancelled-state now child child' e1).0 (rw (e, e1) at h))
      ]
      | inr e ↦ elim (Option-cases asset) [
        | inl e1 ↦ inl (
            failed-IsUnlinked uuid now child "pipeline_source_asset_missing"
              "Pipeline parent completed without an image asset." "source_asset_missing" rows out
              (rw (e, e1) at h))
        | inr (a, e1) ↦ elim (Bool-cases (is_image a.kind)) [
          | inr e2 ↦ inl (
              failed-IsUnlinked uuid now child "pipeline_source_asset_not_image"
                "Pipeline parent output asset must be an image." "source_asset_not_image" rows out
                (rw (e, e1, e2) at h))
          | inl e2 ↦
              let returned = rw (e, e1, e2) at h in
              inr (
                a,
                e1,
                e2,
                subst (IsWritten uuid event_id child a rows) (ok_value _ refl returned)
                    (linked_rows-IsWritten uuid now event_id child a rows there waits),
              )
        ]
      ]
    ]

-- A test that ends the call with the rows as they are.
stayed :
    (reason : String) (id : Option ℕ) (rows : Rows)
    (r : Result PipelineError (PipelineLinkResult × Rows)) {out : PipelineLinkResult × Rows}
    → r ≡ ok (unlinked reason id, rows)
    → r ≡ ok out
    → IsUnlinked rows out
stayed reason id rows r g h =
    subst (IsUnlinked rows) (ok_value r g h) (refl, refl, unchanged rows.jobs)

-- The tests before it, in order.
link_first_child-cases :
    (uuid : UuidText) (now event_id : ℕ) (owner_status : UserStatus) (parent : Job) (rows : Rows)
    (out : PipelineLinkResult × Rows)
    → is_t2i parent.mode ≡ true
    → state_eq parent.state completed ≡ true
    → link_first_child uuid now event_id owner_status parent
        (head? (pipeline_children parent.id rows))
        rows
      ≡ ok out
    → IsUnlinked rows out ⊎ IsLinked uuid event_id parent rows out
unfolding link_first_child
link_first_child-cases uuid now event_id owner_status parent rows out t d h =
    elim (Option-cases (head? (pipeline_children parent.id rows))) [
      | inl e ↦ inl (stayed _ _ rows _ refl (rw e at h))
      | inr (child, e) ↦
          let asset = first_parent_asset parent.id rows in
          elim (Bool-cases (owned_child parent child)) [
            | inr e1 ↦ inl (stayed _ _ rows _ refl (rw (e, e1) at h))
            | inl e1 ↦ elim (Bool-cases (is_terminal child.state)) [
              | inl e2 ↦ inl (stayed _ _ rows _ refl (rw (e, e1, e2) at h))
              | inr e2 ↦ elim (Bool-cases (state_eq child.state pending)) [
                | inr e3 ↦ inl (stayed _ _ rows _ refl (rw (e, e1, e2, e3) at h))
                | inl e3 ↦ elim (Bool-cases child.blocked) [
                  | inr e4 ↦ inl (stayed _ _ rows _ refl (rw (e, e1, e2, e3, e4) at h))
                  | inl e4 ↦
                      let unblocked =
                        sym (else_eq (not child.blocked) _ _ (ap not e4))
                        ∙ (rw (e, e1, e2, e3) at h) in
                      elim (Bool-cases (is_foreign parent.id asset)) [
                        | inl e5 ↦ inl (
                            stayed _ _ rows _ refl
                              (sym (then_eq (is_foreign parent.id asset) _ _ e5) ∙ unblocked))
                        | inr e5 ↦
                            elim (link_child-cases uuid now event_id owner_status parent child asset
                              rows out (head-child parent.id rows child e) e3
                              (sym (else_eq (is_foreign parent.id asset) _ _ e5) ∙ unblocked)) [
                                | inl no' ↦ inl no'
                                | inr (a, found, shown, written) ↦ inr (record {
                                  child = child;
                                  asset = a;
                                  is_done = (t, d);
                                  first = e;
                                  owned = e1;
                                  waiting = (e3, e4);
                                  source = found;
                                  shown = shown;
                                  written = written;
                                })
                              ]
                      ]
                ]
              ]
            ]
          ]
    ]

-- A call either reports no link, hands nothing to the outbox and changes no row that it does not
-- leave at its end, or the parent is a completed image
-- job whose first child is its owner's, pending and blocked, and whose first asset is an image; then
-- the row found under the child's id in the table afterwards is pending, not blocked and has that
-- asset as its source, one waiting dispatch event for it is appended to the outbox, and the rows
-- with other ids, the assets and the credit tables are as they were.
pub link_completed_parent-cases :
    (uuid : UuidText) (now event_id : ℕ) (parent : Job) (rows : Rows)
    → let out = link_completed_parent uuid now event_id parent rows in
      IsUnlinked rows out ⊎ IsLinked uuid event_id parent rows out
unfolding link_completed_parent try_link
link_completed_parent-cases uuid now event_id parent rows = elim (Bool-cases (is_t2i parent.mode)) [
  | inr e ↦ inl (rw e (refl, refl, unchanged rows.jobs))
  | inl e ↦ elim (Bool-cases (state_eq parent.state completed)) [
    | inr e1 ↦ inl (rw (e, e1) (refl, refl, unchanged rows.jobs))
    | inl e1 ↦ elim (Result-cases (lock_owner_status parent.owner_user_id rows)) [
      | inr (c, e2) ↦ inl (rw (e, e1, e2) (refl, refl, unchanged rows.jobs))
      | inl (status, e2) ↦
          elim (Result-cases (
            link_first_child uuid now event_id status parent
              (head? (pipeline_children parent.id rows)) rows)) [
                | inr (c, e3) ↦ inl (rw (e, e1, e2, e3) (refl, refl, unchanged rows.jobs))
                | inl (o, e3) ↦
                    rw (e, e1, e2, e3)
                      (link_first_child-cases uuid now event_id status parent rows o e e1 e3)
              ]
    ]
  ]
]
