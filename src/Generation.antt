-- ===== src/Generation.antt =====
-- backend/app/generation_credit.py: the credit hold around the jobs of one generation. This file
-- has the meters, the metadata and the admission; the child Terminal has the settlement.
-- A UUID is a number here, and its two texts and the parser of `uuid` are a parameter.
pub mod Terminal
pub mod Metadata
pub mod Letters
mod Tests
use ai_multimodal_platform.Prelude.{
  ℕ, ◌*◌, ◌≡◌, Option, none, some, List, [], ◌∷◌, String, Bool, true, false, not, ltb, ◌==◌, ◌||◌,
  str_eq, filter, sort_by, leb, if◌then◌else◌,
}
use Prim.Native.String.{◌++◌}
use ai_multimodal_platform.Prelude.Int.{ℤ, pos, negsuc}
use ai_multimodal_platform.Prelude.Result.{Result, ok, err, ◌>>=◌, ◌>>◌, fail_if, or_fail}
use ai_multimodal_platform.Credit.Code.{Code}
use ai_multimodal_platform.Credit.Policy.{
  Meter, meter_rank, imagen_fast_image, imagen_standard_image, imagen_ultra_image, veo_fast_ms,
  veo_standard_ms,
}
use ai_multimodal_platform.Credit.Tables.{Session}
use ai_multimodal_platform.Credit.Accounting.{RawEstimate}
use ai_multimodal_platform.Credit.Accounting.Reserve.{ReservationReceipt, reserve}
use ai_multimodal_platform.Job.{
  Job, GenerationMode, t2i, t2v, i2v, Parameter, Parameters, CreditMetadata, integer, credit, get,
  put,
}

-- `str(u)`, `u.hex` and `UUID(text)`, which raises ValueError where this has `none`.
pub record UuidText : Type 0 where
  pub str : ℕ → String
  pub hex : ℕ → String
  pub parse : String → Option ℕ
  pub parse-str : (u : ℕ) → parse (str u) ≡ some u
  pub str_nonempty : (u : ℕ) → str_eq (str u) "" ≡ false

-- The codes of GenerationCreditError. `accounting` carries a code of CreditAccountingError on.
pub data GenerationCreditError : Type 0 where
  generation_credit_invalid generation_credit_model_unsupported : GenerationCreditError
  ownership_reference_mismatch generation_credit_delivery_invalid : GenerationCreditError
  generation_credit_delivery_missing : GenerationCreditError
  accounting : Code → GenerationCreditError

-- `except CreditAccountingError as error: _accounting(error)`
abbrev pub or_accounting : {A : Type 0} → Result Code A → Result GenerationCreditError A
or_accounting (ok a) = ok a
or_accounting (err code) = err (accounting code)

abbrev pub credit_parameter_key : String
credit_parameter_key = "_generation_credit_v1"

-- `_MODEL_METERS.get(model)`
abbrev pub model_meter : String → Option Meter
model_meter model =
    if str_eq model "imagen-4.0-fast-generate-001"
    then some imagen_fast_image
    else if str_eq model "imagen-4.0-generate-001"
    then some imagen_standard_image
    else if str_eq model "imagen-4.0-ultra-generate-001"
    then some imagen_ultra_image
    else if str_eq model "veo-3.0-fast-generate-001"
    then some veo_fast_ms
    else if str_eq model "veo-3.0-generate-001"
    then some veo_standard_ms
    else none

-- `meter.startswith("imagen_")` and `meter.startswith("veo_")` of a meter of `_MODEL_METERS`
abbrev pub is_imagen : Meter → Bool
is_imagen imagen_fast_image = true
is_imagen imagen_standard_image = true
is_imagen imagen_ultra_image = true
is_imagen _ = false

abbrev pub is_veo : Meter → Bool
is_veo veo_fast_ms = true
is_veo veo_standard_ms = true
is_veo _ = false

abbrev pub is_t2i : GenerationMode → Bool
is_t2i t2i = true
is_t2i _ = false

abbrev pub is_i2v : GenerationMode → Bool
is_i2v i2v = true
is_i2v _ = false

-- `params.get(key, default)`, less a value that is not of type int.
abbrev pub integer_or : ℕ → Option Parameter → Option ℤ
integer_or default none = some (pos default)
integer_or default (some (integer n)) = some n
integer_or default (some _) = none

abbrev pub requested : Bool → Parameters → Option ℤ
requested true params = integer_or 1 (get "number_of_images" params)
requested false params = integer_or 4 (get "duration_sec" params)

-- `if type(value) is not int or value <= 0: _fail()`
abbrev pub positive : Option ℤ → Result GenerationCreditError ℕ
positive none = err generation_credit_invalid
positive (some (negsuc n)) = err generation_credit_invalid
positive (some (pos n)) = fail_if (n == 0) generation_credit_invalid >> ok n

-- `(mode == T2I) != imagen`
abbrev pub differs : Bool → Bool → Bool
differs true b = not b
differs false b = b

-- `_estimate`
unfoldable pub estimate : Job → Result GenerationCreditError RawEstimate
estimate job = do
  meter ← or_fail (model_meter job.model) generation_credit_model_unsupported
  fail_if (differs (is_t2i job.mode) (is_imagen meter)) generation_credit_model_unsupported
  n ← positive (requested (is_t2i job.mode) job.parameters)
  ok (record { meter = meter; maximum_units = pos (if is_t2i job.mode then n else n * 1000) })

pub record AdmissionReceipt : Type 0 where
  pub reservation_id : ℕ
  pub reserved_microcredits : ℕ
  pub replayed : Bool

-- What an admission leaves: the receipt, the two job objects and the session.
pub record Admitted : Type 0 where
  pub receipt : AdmissionReceipt
  pub job : Job
  pub pipeline_child : Option Job
  pub session : Session

abbrev estimate_before : RawEstimate → RawEstimate → Bool
estimate_before a b = leb (meter_rank a.meter) (meter_rank b.meter)

abbrev estimate_rows : List RawEstimate → List (Meter × ℤ)
estimate_rows [] = []
estimate_rows (e ∷ es) = (e.meter, e.maximum_units) ∷ estimate_rows es

-- `pipeline_child.parent_job_id != job.id`
abbrev pub is_id : ℕ → Option ℕ → Bool
is_id n none = false
is_id n (some k) = k == n

-- `strip_credit_metadata`
unfoldable pub strip_credit_metadata : Parameters → Parameters
strip_credit_metadata = filter (λ p. not (str_eq p.0 credit_parameter_key))

module _ (uuid : UuidText) where
  abbrev pub reserve_key : ℕ → String
  reserve_key top = "g7r_" ++ uuid.hex top

  abbrev pub terminal_key : ℕ → String
  terminal_key top = "g7t_" ++ uuid.hex top

  -- `str(u) if u else None`: the truth of a UUID is True.
  abbrev pub optional_text : Option ℕ → Option String
  optional_text none = none
  optional_text (some u) = some (uuid.str u)

  -- `_metadata`
  unfoldable pub metadata : ℕ → String → ℕ → Option ℕ → Option ℕ → List RawEstimate → CreditMetadata
  metadata reservation_id role top parent child estimates = record {
    version = some 1;
    role = some role;
    reservation_id = some (uuid.str reservation_id);
    reserve_key = some (reserve_key top);
    terminal_key = some (terminal_key top);
    top_level_job_id = some (uuid.str top);
    parent_job_id = optional_text parent;
    child_job_id = optional_text child;
    estimates = estimate_rows estimates;
  }

  -- `{**parameters, CREDIT_PARAMETER_KEY: ...}`, stored in the job
  abbrev pub with_metadata : CreditMetadata → Job → Job
  with_metadata m job = record job {
    parameters = put credit_parameter_key (credit m) job.parameters;
  }

  -- The role and the estimates that are held.
  unfoldable pub admission_estimates :
      Job → Option Job → Result GenerationCreditError (List RawEstimate)
  unfolding estimate
  admission_estimates job none = do own ← estimate job; ok (own ∷ [])
  admission_estimates job (some child) = do
    own ← estimate job
    fail_if
        (not (child.owner_user_id == job.owner_user_id)
          || not (is_id job.id child.parent_job_id)
          || not (is_t2i job.mode)
          || not (is_i2v child.mode))
        ownership_reference_mismatch
    later ← estimate child
    ok (sort_by estimate_before (own ∷ later ∷ []))

  abbrev pub receipt_of : ReservationReceipt → AdmissionReceipt
  receipt_of r = record {
    reservation_id = r.reservation_id;
    reserved_microcredits = r.reserved_microcredits;
    replayed = r.replayed;
  }

  -- The writes of an admission: the metadata of the job and of its pipeline child.
  unfoldable pub admission_of :
      Job → Option Job → List RawEstimate → ReservationReceipt × Session → Admitted
  unfolding metadata
  admission_of job none estimates (r, s) = record {
    receipt = receipt_of r;
    job = with_metadata (metadata r.reservation_id "standalone" job.id none none estimates) job;
    pipeline_child = none;
    session = s;
  }
  admission_of job (some child) estimates (r, s) = record {
    receipt = receipt_of r;
    job =
        with_metadata
          (metadata r.reservation_id "pipeline_parent" job.id (some job.id) (some child.id)
            estimates)
          job;
    pipeline_child = some (
        with_metadata
          (metadata r.reservation_id "pipeline_child" job.id (some job.id) (some child.id)
            estimates)
          child);
    session = s;
  }

  -- `admit_generation`
  unfoldable pub admit_generation :
      Job → Option Job → ℕ → Session → Result GenerationCreditError Admitted
  unfolding admission_estimates admission_of
  admit_generation job pipeline_child now s = do
    estimates ← admission_estimates job pipeline_child
    out ← or_accounting (reserve job.owner_user_id (reserve_key job.id) estimates now s)
    ok (admission_of job pipeline_child estimates out)
