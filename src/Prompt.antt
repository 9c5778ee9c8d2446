-- ===== src/Prompt.antt =====
-- backend/app/prompt_credit.py, with the presets of backend/app/prompt_enhancement.py: a prompt
-- enhancement and its credit hold. What backend/app/services/llm/enhancer.py plans and answers are
-- arguments, and so is what other sessions commit while the provider is called. The clock is read once
-- in each transaction. A temperature is in tenths.
pub mod Execute
pub mod Outcome
pub mod Repeat
mod Tests
use ai_multimodal_platform.Prelude.{
  ℕ, String, Bool, true, false, not, Option, none, some, List, [], ◌∷◌, ◌++◌ as append, any, find,
  filter, ◌==◌, ◌&&◌, ◌||◌, str_eq, if◌then◌else◌,
}
use Prim.Native.String.{◌++◌}
use ai_multimodal_platform.Prelude.Int.{ℤ}
use ai_multimodal_platform.Prelude.Result.{Result, ok, err, ◌>>=◌, ◌>>◌, fail_if}
use ai_multimodal_platform.Credit.Code.{
  Code, credit_plan_refused, monthly_credit_exhausted, user_concurrency_limit,
  credit_idempotency_conflict, credit_busy, key_error,
}
use ai_multimodal_platform.Credit.Policy.{gemini_input_token, gemini_output_token}
use ai_multimodal_platform.Credit.Tables.{Session, CreditReservation, ReservationStatus}
use ai_multimodal_platform.Credit.Accounting.{RawEstimate, RawLine, is_held}
use ai_multimodal_platform.Credit.Accounting.Reserve.{ReservationReceipt, reserve}
use ai_multimodal_platform.Credit.Accounting.Terminal.{TerminalReceipt, settle, release}
use ai_multimodal_platform.Job.{
  GenerationMode, t2i, t2v, i2v, Json, null, boolean, number, text, Detail,
}
use ai_multimodal_platform.Generation.{UuidText}

pub data CreativityPreset : Type 0 where
  faithful balanced imaginative : CreativityPreset

abbrev pub preset_value : CreativityPreset → String
preset_value faithful = "faithful"
preset_value balanced = "balanced"
preset_value imaginative = "imaginative"

-- `temperature_for_preset`
abbrev pub temperature_for_preset : CreativityPreset → ℕ
temperature_for_preset faithful = 2
temperature_for_preset balanced = 5
temperature_for_preset imaginative = 8

-- `normalize_creativity_preset`, with no value where it raises.
abbrev pub normalize_creativity_preset : Json → Option CreativityPreset
normalize_creativity_preset null = some balanced
normalize_creativity_preset (boolean b) = none
normalize_creativity_preset (number n) = none
normalize_creativity_preset (text t) =
    find (λ p. str_eq t (preset_value p)) (faithful ∷ balanced ∷ imaginative ∷ [])

-- A value of the JSON object `components`.
pub data Component : Type 0 where
  dict : Detail → Component
  plain : Json → Component

pub record PromptEnhancement : Type 0 where
  pub id : ℕ
  pub owner_user_id : ℕ
  pub original : String
  pub enhanced : String
  pub components : List (String × Component)
  pub target_mode : GenerationMode
  pub target_model : String
  pub llm_model : String
  pub latency_ms : ℕ
  pub tokens_in : Option ℤ
  pub tokens_out : Option ℤ

pub record PromptEnhanceRequest : Type 0 where
  pub request_id : ℕ
  pub prompt : String
  pub target_mode : GenerationMode
  pub target_model : String
  pub creativity_preset : CreativityPreset

-- `enhancer.PromptEnhancementPlan`, as far as it is read.
pub record PromptEnhancementPlan : Type 0 where
  pub maximum_input_tokens : ℤ
  pub maximum_output_tokens : ℤ

pub record PromptEnhancementResult : Type 0 where
  pub original : String
  pub enhanced : String
  pub components : List (String × Component)
  pub target_mode : GenerationMode
  pub target_model : String
  pub llm_model : String
  pub latency_ms : ℕ
  pub tokens_in : Option ℤ
  pub tokens_out : Option ℤ
  pub usage_source : String
  pub creativity_preset : CreativityPreset
  pub temperature : ℕ

-- What the enhancer does: it returns, raises a VertexServiceError with its code and its status code, or
-- raises another exception.
pub data EnhancerAnswer : Type 0 where
  answered : PromptEnhancementResult → EnhancerAnswer
  refused : String → Option ℕ → EnhancerAnswer
  raised : String → EnhancerAnswer

-- What comes out: a PromptCreditError with its code, the enhancer's exceptions, and the KeyError that is
-- no CreditAccountingError.
pub data PromptError : Type 0 where
  prompt_credit : String → PromptError
  vertex : String → Option ℕ → PromptError
  other : String → PromptError
  missing_key : PromptError

pub record PromptCreditOutcome : Type 0 where
  pub enhancement : PromptEnhancement
  pub creativity_preset : CreativityPreset
  pub temperature : ℕ
  pub replayed : Bool

-- The tables: `prompt_enhancements` and those of the credits.
pub record Store : Type 0 where
  pub enhancements : List PromptEnhancement
  pub credit : Session

-- `session.begin()`, and its commit.
abbrev pub begin_transaction : Store → Session
begin_transaction store = record (store.credit) { in_transaction = true }

abbrev pub committed : List PromptEnhancement → Session → Store
committed enhancements s = record {
  enhancements = enhancements;
  credit = record s { in_transaction = false };
}

-- `_mapped_accounting_error`
abbrev pub mapped_code : Code → String
mapped_code credit_plan_refused = "plan_feature_not_allowed"
mapped_code monthly_credit_exhausted = "monthly_credit_exhausted"
mapped_code user_concurrency_limit = "user_concurrency_limit"
mapped_code credit_idempotency_conflict = "credit_idempotency_conflict"
mapped_code credit_busy = "credit_busy"
mapped_code _ = "credit_account_unavailable"

-- The `except CreditAccountingError` of the first transaction.
abbrev pub reserve_error : Code → PromptError
reserve_error key_error = missing_key
reserve_error code = prompt_credit (mapped_code code)

-- The three `except` of the second transaction.
abbrev pub settle_error : Code → PromptError
settle_error key_error = prompt_credit "credit_account_unavailable"
settle_error code = prompt_credit (mapped_code code)

-- PROMPT_ENHANCEMENT_METADATA_COMPONENT_KEY
abbrev pub metadata_key : String
metadata_key = "_creativeops"

abbrev pub json_of : Option (String × Json) → Json
json_of none = null
json_of (some entry) = entry.1

-- `metadata.get("creativity_preset") if isinstance(metadata, dict) else None`
abbrev pub preset_of : Option (String × Component) → Json
preset_of none = null
preset_of (some (key, plain v)) = null
preset_of (some (key, dict d)) = json_of (find (λ entry. str_eq entry.0 "creativity_preset") d)

abbrev pub or_unavailable : Option CreativityPreset → Result PromptError CreativityPreset
or_unavailable none = err (prompt_credit "credit_account_unavailable")
or_unavailable (some p) = ok p

-- `_stored_preset`
unfoldable pub stored_preset : PromptEnhancement → Result PromptError CreativityPreset
stored_preset stored = or_unavailable (
    normalize_creativity_preset (preset_of (find (λ c. str_eq c.0 metadata_key) stored.components)))

abbrev pub mode_eq : GenerationMode → GenerationMode → Bool
mode_eq t2i t2i = true
mode_eq t2v t2v = true
mode_eq i2v i2v = true
mode_eq _ _ = false

abbrev pub preset_eq : CreativityPreset → CreativityPreset → Bool
preset_eq faithful faithful = true
preset_eq balanced balanced = true
preset_eq imaginative imaginative = true
preset_eq _ _ = false

-- `_matches`
unfoldable pub matches : PromptEnhancement → PromptEnhanceRequest → Result PromptError Bool
unfolding stored_preset
matches stored payload =
    if str_eq stored.original payload.prompt
      && mode_eq stored.target_mode payload.target_mode
      && str_eq stored.target_model payload.target_model
    then (stored_preset stored >>= λ p. ok (preset_eq p payload.creativity_preset))
    else ok false

-- `_replay`
unfoldable pub replay :
    PromptEnhancement → PromptEnhanceRequest → ℕ → Result PromptError PromptCreditOutcome
unfolding stored_preset matches
replay stored payload actor = do
  fail_if (not (stored.owner_user_id == actor)) (prompt_credit "credit_idempotency_conflict")
  same ← matches stored payload
  fail_if (not same) (prompt_credit "credit_idempotency_conflict")
  preset ← stored_preset stored
  ok (record {
    enhancement = stored;
    creativity_preset = preset;
    temperature = temperature_for_preset preset;
    replayed = true;
  })

-- `_usage_report`, for the source and the two counts of a result; a count that is no integer is `none`.
abbrev pub usage_lines : String → Option ℤ → Option ℤ → Result PromptError (List RawLine)
usage_lines source (some tokens_in) (some tokens_out) = ok (
    record { meter = gemini_input_token; actual_units = tokens_in; source = source }
    ∷ record { meter = gemini_output_token; actual_units = tokens_out; source = source }
    ∷ [])
usage_lines source _ _ = err (prompt_credit "credit_account_unavailable")

abbrev pub usage_report : PromptEnhancementResult → Result PromptError (List RawLine)
usage_report result = usage_lines result.usage_source result.tokens_in result.tokens_out
