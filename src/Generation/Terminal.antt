-- ===== src/Generation/Terminal.antt =====
-- backend/app/generation_credit.py: `_parse`, `_usage` and `terminalize_generation`, the end of
-- the hold of a generation.
pub mod Outcome
use ai_multimodal_platform.Prelude.{
  ℕ, ◌+◌, ◌*◌, Option, none, some, List, [], ◌∷◌, String, Bool, true, false, not, ltb, leb, ◌==◌,
  ◌&&◌, ◌||◌, str_eq, filter, find, map, any, sort_by, if◌then◌else◌,
}
use ai_multimodal_platform.Prelude.Int.{ℤ, pos, negsuc}
use ai_multimodal_platform.Prelude.Result.{Result, ok, err, ◌>>=◌, ◌>>◌, fail_if, or_fail}
use ai_multimodal_platform.Credit.Policy.{Meter, meter_rank, meter_eq}
use ai_multimodal_platform.Credit.Tables.{Session, ReservationStatus}
use ai_multimodal_platform.Credit.Tables
use ai_multimodal_platform.Credit.Accounting.{RawLine, is_reason}
use ai_multimodal_platform.Credit.Accounting.Terminal.{TerminalReceipt, settle, release}
use ai_multimodal_platform.Job.{
  Job, Asset, AssetKind, image, video, Parameter, CreditMetadata, credit, nothing, get,
}
use ai_multimodal_platform.Generation.{
  UuidText, GenerationCreditError, generation_credit_invalid, generation_credit_delivery_invalid,
  generation_credit_delivery_missing, or_accounting, credit_parameter_key, model_meter, is_imagen,
  is_veo, reserve_key, terminal_key,
}

pub data Role : Type 0 where
  standalone pipeline_parent pipeline_child : Role

-- The tuple that `_parse` returns.
pub record Parsed : Type 0 where
  pub role : Role
  pub reservation_id : ℕ
  pub top_id : ℕ
  pub parent_id : Option ℕ
  pub child_id : Option ℕ
  pub terminal_key : String

-- `TerminalResult.status`
pub data TerminalStatus : Type 0 where
  unmanaged : TerminalStatus
  reservation : ReservationStatus → TerminalStatus

pub record TerminalResult : Type 0 where
  pub status : TerminalStatus
  pub consumed_microcredits : ℕ
  pub released_microcredits : ℕ
  pub replayed : Bool

abbrev pub result : TerminalStatus → TerminalResult
result status = record {
  status = status;
  consumed_microcredits = 0;
  released_microcredits = 0;
  replayed = false;
}

abbrev pub result_of : TerminalReceipt → TerminalResult
result_of r = record {
  status = reservation r.status;
  consumed_microcredits = r.consumed_microcredits;
  released_microcredits = r.released_microcredits;
  replayed = r.replayed;
}

abbrev pub role_of : String → Option Role
role_of role =
    if str_eq role "standalone"
    then some standalone
    else if str_eq role "pipeline_parent"
    then some pipeline_parent
    else if str_eq role "pipeline_child"
    then some pipeline_child
    else none

-- `raw.get("version") != 1`
abbrev pub is_version_one : Option ℕ → Bool
is_version_one none = false
is_version_one (some n) = n == 1

-- `raw[key] != text`, where a missing key raises and so fails as well
abbrev pub is_text : String → Option String → Bool
is_text t none = false
is_text t (some v) = str_eq v t

-- `_RELEASE_REASONS` are the reasons of `release`.
abbrev pub release_reason : Option String → Result GenerationCreditError String
release_reason none = err generation_credit_invalid
release_reason (some reason) =
    fail_if (not (is_reason reason)) generation_credit_invalid >> ok reason

abbrev pub role_eq : Role → Role → Bool
role_eq standalone standalone = true
role_eq pipeline_parent pipeline_parent = true
role_eq pipeline_child pipeline_child = true
role_eq _ _ = false

abbrev pub id_list : Option ℕ → List ℕ
id_list none = []
id_list (some u) = u ∷ []

-- `ids`: the jobs whose assets count.
abbrev pub usage_ids : Parsed → Job → List ℕ
usage_ids p job = elim p.role [
  | standalone ↦ job.id ∷ []
  | pipeline_parent ↦ job.id ∷ []
  | pipeline_child ↦ elim p.parent_id [
    | none ↦ id_list p.child_id
    | some parent ↦ parent ∷ id_list p.child_id
  ]
]

-- `_usage`
abbrev asset_before : Asset → Asset → Bool
asset_before a b = leb a.id b.id

unfoldable pub assets_of : List ℕ → List Asset → List Asset
assets_of ids assets = sort_by asset_before (filter (λ a. any (λ id. a.job_id == id) ids) assets)

-- `models.get(asset.job_id, "")`
abbrev pub model_of : List ℕ → ℕ → List Job → String
model_of ids job_id jobs = elim (find (λ j. (j.id == job_id) && any (λ id. j.id == id) ids) jobs) [
  | none ↦ ""
  | some j ↦ j.model
]

-- `units[meter] = units.get(meter, 0) + n`
abbrev pub count : Meter → ℕ → List (Meter × ℕ) → List (Meter × ℕ)
count meter n [] = (meter, n) ∷ []
count meter n ((m, k) ∷ rest) =
    if meter_eq m meter then (m, k + n) ∷ rest else (m, k) ∷ count meter n rest

-- `asset.duration_sec is None or asset.duration_sec <= 0`, and else its milliseconds
abbrev pub milliseconds : Option ℤ → Result GenerationCreditError ℕ
milliseconds none = err generation_credit_invalid
milliseconds (some (negsuc n)) = err generation_credit_invalid
milliseconds (some (pos n)) = fail_if (n == 0) generation_credit_invalid >> ok (n * 1000)

-- What one asset adds: its meter and its units.
unfoldable pub measured : List ℕ → List Job → Asset → Result GenerationCreditError (Meter × ℕ)
measured ids jobs asset = do
  meter ← or_fail (model_meter (model_of ids asset.job_id jobs)) generation_credit_invalid
  elim asset.kind [
    | image ↦ fail_if (not (is_imagen meter)) generation_credit_delivery_invalid >> ok (meter, 1)
    | video ↦ do
      fail_if (not (is_veo meter)) generation_credit_delivery_invalid
      n ← milliseconds asset.duration_sec
      ok (meter, n)
  ]

-- The loop over the assets. An image and a video never share a meter, so `images` and `videos`
-- are one dictionary here, which is what `{**images, **videos}` makes of them.
unfoldable pub measure :
    List ℕ
    → List Job
    → List Asset
    → List (Meter × ℕ)
    → Result GenerationCreditError (List (Meter × ℕ))
unfolding measured
measure ids jobs [] units = ok units
measure ids jobs (asset ∷ assets) units = do
  (meter, n) ← measured ids jobs asset
  measure ids jobs assets (count meter n units)

abbrev units_before : Meter × ℕ → Meter × ℕ → Bool
units_before a b = leb (meter_rank a.0) (meter_rank b.0)

abbrev pub usage_line : Meter × ℕ → RawLine
usage_line (meter, units) = record {
  meter = meter;
  actual_units = pos units;
  source = "platform_measured";
}

unfoldable pub usage_of :
    List ℕ → List Job → List Asset → Result GenerationCreditError (List RawLine)
unfolding assets_of measure
usage_of ids jobs assets = do
  units ← measure ids jobs (assets_of ids assets) []
  ok (map usage_line (filter (λ u. ltb 0 u.1) (sort_by units_before units)))

abbrev pub is_empty : List RawLine → Bool
is_empty [] = true
is_empty (l ∷ ls) = false

abbrev pub answer :
    TerminalReceipt × Session → Result GenerationCreditError (TerminalResult × Session)
answer (receipt, s) = ok (result_of receipt, s)

-- The end of a generation whose metadata and usage are read.
unfoldable pub terminalize :
    Parsed
    → List RawLine
    → Job
    → Bool
    → Option String
    → ℕ
    → Session
    → Result GenerationCreditError (TerminalResult × Session)
terminalize p lines job succeeded reason now s =
    if succeeded && role_eq p.role pipeline_parent
    then (do
      fail_if (is_empty lines) generation_credit_delivery_missing
      ok (result (reservation Tables.held), s))
    else if succeeded || (role_eq p.role pipeline_child && not (is_empty lines))
    then (do
      fail_if (is_empty lines) generation_credit_delivery_missing
      out ← or_accounting (
          settle job.owner_user_id p.reservation_id lines
            (if succeeded then "delivered" else "partial") p.terminal_key now s)
      ok (result_of out.0, out.1))
    else (do
      code ← release_reason reason
      out ← or_accounting (release job.owner_user_id p.reservation_id [] code p.terminal_key now s)
      ok (result_of out.0, out.1))

module _ (uuid : UuidText) where
  -- `UUID(raw[key])`
  abbrev pub required_id : Option String → Result GenerationCreditError ℕ
  required_id none = err generation_credit_invalid
  required_id (some t) = or_fail (uuid.parse t) generation_credit_invalid

  -- `UUID(raw[key]) if raw.get(key) else None`
  abbrev pub optional_id : Option String → Result GenerationCreditError (Option ℕ)
  optional_id none = ok none
  optional_id (some t) =
      if str_eq t ""
      then ok none
      else or_fail (uuid.parse t) generation_credit_invalid >>= λ u. ok (some u)

  unfoldable pub parse_metadata : CreditMetadata → Result GenerationCreditError Parsed
  parse_metadata raw = do
    fail_if (not (is_version_one raw.version)) generation_credit_invalid
    text ← or_fail raw.role generation_credit_invalid
    role ← or_fail (role_of text) generation_credit_invalid
    reservation_id ← required_id raw.reservation_id
    top_id ← required_id raw.top_level_job_id
    parent_id ← optional_id raw.parent_job_id
    child_id ← optional_id raw.child_job_id
    fail_if
        (not (is_text (reserve_key uuid top_id) raw.reserve_key)
          || not (is_text (terminal_key uuid top_id) raw.terminal_key))
        generation_credit_invalid
    ok (record {
      role = role;
      reservation_id = reservation_id;
      top_id = top_id;
      parent_id = parent_id;
      child_id = child_id;
      terminal_key = terminal_key uuid top_id;
    })

  -- `_parse`. A value that is no dictionary has no `get`, which fails.
  unfoldable pub parse_value : Option Parameter → Result GenerationCreditError (Option Parsed)
  parse_value none = ok none
  parse_value (some nothing) = ok none
  parse_value (some (credit raw)) = parse_metadata raw >>= λ p. ok (some p)
  parse_value (some _) = err generation_credit_invalid

  unfoldable pub parse : Job → Result GenerationCreditError (Option Parsed)
  unfolding parse_value
  parse job = parse_value (get credit_parameter_key job.parameters)

  -- `terminalize_generation`, on the rows of jobs and assets that it reads.
  unfoldable pub terminalize_generation :
      List Job
      → List Asset
      → Job
      → Bool
      → Option String
      → ℕ
      → Session
      → Result GenerationCreditError (TerminalResult × Session)
  unfolding parse usage_of terminalize
  terminalize_generation jobs assets job succeeded reason now s = parse job >>= λ parsed.
      elim parsed [
        | none ↦ ok (result unmanaged, s)
        | some p ↦ do
          lines ← usage_of (usage_ids p job) jobs assets
          terminalize p lines job succeeded reason now s
      ]
