-- ===== src/Pipeline/Link/Written.antt =====
-- What the link of a child in backend/app/services/jobs/pipeline_link.py wrote, and that the model's
-- link writes it.
use mathlib.Core.Path.{subst}
use ai_multimodal_platform.Prelude.{
  ℕ, ◌≡◌, refl, ap, sym, ◌∙◌, inl, inr, true, false, none, some, List, [], ◌∷◌, ◌++◌, head?, find,
  ◌==◌, ◌&&◌, if◌then◌else◌, arith, Bool-cases, All, All-map, filter-All, sort_by-All, ==_iff,
}
use ai_multimodal_platform.Job.{Job, Asset, pending}
use ai_multimodal_platform.Job.Claim.{state_eq}
use ai_multimodal_platform.Job.Claim.Once.{find-save}
use ai_multimodal_platform.Outbox.{OutboxEvent, add_job_dispatch_event}
use ai_multimodal_platform.Outbox
use ai_multimodal_platform.Ownership.Granted.{All-Mem}
use mathlib.Core.List.{Memᴰ}
use mathlib.Core.List.Memᴰ.{head, tail}
use ai_multimodal_platform.Prelude.Pointwise.{Pointwise, Pointwise-map, Pointwise-same}
use ai_multimodal_platform.Generation.{UuidText, is_id, is_i2v}
use ai_multimodal_platform.Pipeline.{Rows}
use ai_multimodal_platform.Pipeline.Link.{
  PipelineLinkResult, pipeline_children, before_in_time, linked_rows,
}

-- The child's row in the table afterwards: it waits no more, for it has its source.
pub record IsUnblocked (child : Job) (asset : Asset) (row : Job) : Type 0 where
  pub is_child : row.id ≡ child.id
  pub is_unblocked : row.blocked ≡ false
  pub has_source : row.source_asset_id ≡ some asset.id
  pub is_pending : state_eq row.state pending ≡ true

-- The event of the child, which a dispatcher will publish.
pub record IsRequest (uuid : UuidText) (event_id : ℕ) (child : Job) (e : OutboxEvent) : Type 0 where
  pub named : e.id ≡ event_id
  pub about : e.aggregate_id ≡ child.id
  pub payload : e.payload.job_id ≡ some (uuid.str child.id)
  pub waits : (e.status ≡ Outbox.pending) × (e.attempts ≡ 0)

-- A row keeps its id, and is as it was if that is not the child's.
abbrev pub IsRowOfOther : ℕ → Job → Job → Type 0
IsRowOfOther child_id row row' = (row'.id ≡ row.id) × ((row.id == child_id) ≡ false → row' ≡ row)

-- What the link wrote: the rows with the child's id, of which there is one, the new event, and no
-- other row.
pub record IsWritten (uuid : UuidText) (event_id : ℕ) (child : Job) (asset : Asset) (rows : Rows)
    (out : PipelineLinkResult × Rows) : Type 0 where
  pub told :
      (out.0.linked ≡ true)
      × (out.0.child_id ≡ some child.id)
      × (out.0.source_asset_id ≡ some asset.id)
  pub row : Job
  pub stored : find (λ j. j.id == child.id) out.1.jobs ≡ some row
  pub freed : IsUnblocked child asset row
  pub others : Pointwise (IsRowOfOther child.id) rows.jobs out.1.jobs
  pub event : OutboxEvent
  pub appended : out.1.events ≡ rows.events ++ event ∷ []
  pub requested : IsRequest uuid event_id child event
  pub kept : (out.1.assets ≡ rows.assets) × (out.1.credit ≡ rows.credit)

one_row :
    (x y child row : Job)
    → y ≡ x
    → row.id ≡ child.id
    → IsRowOfOther child.id x (if y.id == child.id then row else y)
one_row x y child row same named = elim (Bool-cases (y.id == child.id)) [
  | inl e ↦ rw e (
    named ∙ sym ((==_iff y.id child.id).0 e) ∙ ap (λ j. j.id) same,
    λ q. absurd (cc (e, q, same)),
  )
  | inr e ↦ rw e (ap (λ j. j.id) same, λ q. same)
]

pub linked_rows-IsWritten :
    (uuid : UuidText) (now event_id : ℕ) (child : Job) (a : Asset) (rows : Rows)
    → (row : Job) × (find (λ j. j.id == child.id) rows.jobs ≡ some row)
    → state_eq child.state pending ≡ true
    → IsWritten uuid event_id child a rows (
      record {
        linked = true;
        reason = none;
        child_id = some child.id;
        source_asset_id = some a.id;
      },
      linked_rows uuid now event_id child a rows,
    )
unfolding add_job_dispatch_event
linked_rows-IsWritten uuid now event_id child a rows there waits =
    let row : Job = record child { source_asset_id = some a.id; blocked = false } in
    record {
      told = (refl, refl, refl);
      row = row;
      stored = find-save there.0 row child.id rows.jobs there.1 refl;
      freed = record {
        is_child = refl;
        is_unblocked = refl;
        has_source = refl;
        is_pending = waits;
      };
      others =
          Pointwise-map (λ j. if j.id == child.id then row else j)
            (λ x y same. one_row x y child row same refl)
            (Pointwise-same {R = λ x y. y ≡ x} rows.jobs (λ j. refl));
      event = _;
      appended = refl;
      requested = record { named = refl; about = refl; payload = refl; waits = (refl, refl) };
      kept = (refl, refl);
    }

All-head : (P : Job → Type 0) (xs : List Job) (x : Job) → All P xs → head? xs ≡ some x → P x
All-head P [] x p h = absurd cc
All-head P (y ∷ ys) x p h = let same : y ≡ x = cc in subst P same p.0

-- A row with the id of a row of the table is found.
found_again :
    (job : Job) (jobs : List Job)
    → Memᴰ job jobs
    → (row : Job) × (find (λ j. j.id == job.id) jobs ≡ some row)
found_again job [] m = elim m [ ]
found_again job (j ∷ jobs) m = elim (Bool-cases (j.id == job.id)) [
  | inl e ↦ (j, ground (arith, e))
  | inr e ↦ elim m [
    | head same ↦
        let own = (==_iff j.id job.id).1 (ap (λ x. x.id) (sym same)) in absurd (cc (own, e))
    | tail m' ↦ let (row, found) = found_again job jobs m' in (row, ground (arith, e, found))
  ]
]

-- The children are rows of the table.
pub All-child :
    (P : Job → Type 0) (parent_id : ℕ) (rows : Rows) (child : Job)
    → All P rows.jobs
    → head? (pipeline_children parent_id rows) ≡ some child
    → P child
All-child P parent_id rows child h found =
    All-head P (pipeline_children parent_id rows) child
      (sort_by-All P (λ a b. before_in_time a.created_at a.id b.created_at b.id) _
        (filter-All P (λ j. is_id parent_id j.parent_job_id && is_i2v j.mode) rows.jobs h))
      found

pub head-child :
    (parent_id : ℕ) (rows : Rows) (child : Job)
    → head? (pipeline_children parent_id rows) ≡ some child
    → (row : Job) × (find (λ j. j.id == child.id) rows.jobs ≡ some row)
head-child parent_id rows child h =
    All-child (λ j. (row : Job) × (find (λ x. x.id == j.id) rows.jobs ≡ some row)) parent_id rows
      child (All-map _ _ rows.jobs (λ j m. found_again j rows.jobs m) (All-Mem rows.jobs)) h
