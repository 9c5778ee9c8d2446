-- ===== src/Generation/Metadata.antt =====
-- The metadata that `admit_generation` stores and `_parse` reads, in backend/app/generation_credit.py.
use mathlib.Core.Path.{subst}
use mathlib.Core.Option
use ai_multimodal_platform.Prelude.{
  ℕ, ◌≡◌, refl, ap, Option, none, some, List, [], ◌∷◌, String, str_eq, eq_iff, Bool-cases, inl, inr,
}
use ai_multimodal_platform.Prelude.Result.{ok, >>=-eq-ok}
use ai_multimodal_platform.Credit.Tables.{Session}
use ai_multimodal_platform.Credit.Accounting.{RawEstimate}
use ai_multimodal_platform.Credit.Accounting.Reserve.{ReservationReceipt, reserve}
use ai_multimodal_platform.Job.{Job, Parameter, Parameters, credit, get, put}
use ai_multimodal_platform.Generation.{
  UuidText, Admitted, credit_parameter_key, or_accounting, reserve_key, terminal_key, metadata,
  with_metadata, optional_text, admission_estimates, admission_of, admit_generation,
}
use ai_multimodal_platform.Generation.Terminal.{
  Role, standalone, pipeline_parent, pipeline_child, Parsed, role_of, optional_id, parse_metadata,
  parse_value, parse,
}

get-put : (key : String) (v : Parameter) (ps : Parameters) → get key (put key v ps) ≡ some v
get-put key v [] = rw ((eq_iff key key).1 refl) refl
get-put key v ((k, w) ∷ ps) = elim (Bool-cases (str_eq k key)) [
  | inl e ↦ rw (e, e) refl
  | inr e ↦ rw (e, e) (get-put key v ps)
]

module _ (uuid : UuidText) where
  optional_id-text : (u : Option ℕ) → optional_id uuid (optional_text uuid u) ≡ ok u
  optional_id-text none = refl
  optional_id-text (some u) = rw (uuid.str_nonempty u, uuid.parse-str u) refl

  -- The names under which a top-level job's hold is known.
  abbrev pub hold_of : Role → ℕ → ℕ → Option ℕ → Option ℕ → Parsed
  hold_of role rid top parent child = record {
    role = role;
    reservation_id = rid;
    top_id = top;
    parent_id = parent;
    child_id = child;
    terminal_key = terminal_key uuid top;
  }

  parse_metadata-metadata :
      (name : String) (role : Role) (rid top : ℕ) (parent child : Option ℕ) (es : List RawEstimate)
      → role_of name ≡ some role
      → parse_metadata uuid (metadata uuid rid name top parent child es)
        ≡ ok (hold_of role rid top parent child)
  unfolding parse_metadata metadata
  parse_metadata-metadata name role rid top parent child es named =
      rw
        (
          named,
          uuid.parse-str rid,
          uuid.parse-str top,
          optional_id-text parent,
          optional_id-text child,
          (eq_iff (reserve_key uuid top) (reserve_key uuid top)).1 refl,
          (eq_iff (terminal_key uuid top) (terminal_key uuid top)).1 refl,
        )
        refl

  parse-with_metadata :
      (job : Job) (name : String) (role : Role) (rid top : ℕ) (parent child : Option ℕ)
      (es : List RawEstimate)
      → role_of name ≡ some role
      → parse uuid (with_metadata uuid (metadata uuid rid name top parent child es) job)
        ≡ ok (some (hold_of role rid top parent child))
  unfolding parse parse_value
  parse-with_metadata job name role rid top parent child es named =
      let raw = metadata uuid rid name top parent child es in
      rw
        (
          get-put credit_parameter_key (credit raw) job.parameters,
          parse_metadata-metadata name role rid top parent child es named,
        )
        refl

  -- The role of the first job, and the two ends of a pipeline.
  abbrev pub role_with : Option Job → Role
  role_with none = standalone
  role_with (some child) = pipeline_parent

  abbrev pub parent_with : ℕ → Option Job → Option ℕ
  parent_with id none = none
  parent_with id (some child) = some id

  abbrev pub child_with : Option Job → Option ℕ
  child_with none = none
  child_with (some child) = some child.id

  -- What the two jobs of an admission read back.
  abbrev pub ReadsBack : Job → Option Job → Admitted → Type 0
  ReadsBack job child out =
      let rid = out.receipt.reservation_id in
      let hold : Role → Parsed =
        λ role. hold_of role rid job.id (parent_with job.id child) (child_with child) in
      (parse uuid out.job ≡ ok (some (hold (role_with child))))
      × (Option.map (parse uuid) out.pipeline_child
          ≡ Option.map (λ c. ok (some (hold pipeline_child))) child)

  admission_of-ReadsBack :
      (job : Job) (child : Option Job) (es : List RawEstimate) (out : ReservationReceipt × Session)
      → ReadsBack job child (admission_of uuid job child es out)
  unfolding admission_of
  admission_of-ReadsBack job none es (r, s) = (
    parse-with_metadata job "standalone" standalone r.reservation_id job.id none none es refl,
    refl,
  )
  admission_of-ReadsBack job (some c) es (r, s) =
      let parent =
        parse-with_metadata job "pipeline_parent" pipeline_parent r.reservation_id job.id
          (some job.id) (some c.id) es refl in
      let child =
        parse-with_metadata c "pipeline_child" pipeline_child r.reservation_id job.id (some job.id)
          (some c.id) es refl in
      (parent, ap some child)

  -- What an admission writes into its one or two jobs is read back from them as the hold it made:
  -- its id, the top-level job, the ends of the pipeline and the same terminal key in both.
  pub admit_generation-ReadsBack :
      (job : Job) (child : Option Job) (now : ℕ) (s : Session) (out : Admitted)
      → admit_generation uuid job child now s ≡ ok out
      → ReadsBack job child out
  unfolding admit_generation
  admit_generation-ReadsBack job child now s out h =
      let (es, e1, h1) = >>=-eq-ok (admission_estimates uuid job child) _ h in
      let (r, e2, h2) =
        >>=-eq-ok (or_accounting (reserve job.owner_user_id (reserve_key uuid job.id) es now s)) _
          h1 in
      let same : admission_of uuid job child es r ≡ out = cc in
      subst (ReadsBack job child) same (admission_of-ReadsBack job child es r)
