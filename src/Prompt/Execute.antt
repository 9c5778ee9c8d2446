-- ===== src/Prompt/Execute.antt =====
-- `execute_prompt_enhancement` of backend/app/prompt_credit.py: a transaction that replays or holds
-- credits, the provider's answer outside a transaction, and a transaction that ends the hold.
use ai_multimodal_platform.Prelude.{
  ℕ, String, Bool, false, Option, none, some, List, [], ◌∷◌, ◌++◌ as append, any, find, ◌==◌, ◌&&◌,
  ◌||◌, str_eq, if◌then◌else◌,
}
use Prim.Native.String.{◌++◌}
use ai_multimodal_platform.Prelude.Result.{Result, ok, err, ◌>>=◌, ◌>>◌, fail_if}
use ai_multimodal_platform.Credit.Code.{Code}
use ai_multimodal_platform.Credit.Policy.{gemini_input_token, gemini_output_token}
use ai_multimodal_platform.Credit.Tables.{Session, CreditReservation}
use ai_multimodal_platform.Credit.Accounting.{RawEstimate, RawLine, is_held}
use ai_multimodal_platform.Credit.Accounting.Reserve.{ReservationReceipt, reserve}
use ai_multimodal_platform.Credit.Accounting.Terminal.{TerminalReceipt, settle, release}
use ai_multimodal_platform.Job.{number, text}
use ai_multimodal_platform.Generation.{UuidText}
use ai_multimodal_platform.Prompt.{
  PromptEnhancement, PromptEnhanceRequest, PromptEnhancementPlan, PromptEnhancementResult,
  EnhancerAnswer, answered, refused, raised, PromptError, prompt_credit, vertex, other,
  PromptCreditOutcome, Store, begin_transaction, committed, reserve_error, settle_error,
  metadata_key, Component, dict, preset_value, replay, usage_report,
}

-- `dict(...)` and an assignment to one of its keys
unfoldable pub put_component :
    String → Component → List (String × Component) → List (String × Component)
put_component key v [] = (key, v) ∷ []
put_component key v (entry ∷ rest) =
    let put = put_component key v rest in
    if str_eq entry.0 key then (key, v) ∷ rest else entry ∷ put

-- The three readings of the clock.
pub record Times : Type 0 where
  pub reserved_at : ℕ
  pub terminal_at : ℕ
  pub released_at : ℕ

-- How the first transaction ends when it does not raise: with a replay, or with a hold.
pub data Entered : Type 0 where
  returns : PromptCreditOutcome → Entered
  holds : ReservationReceipt → Store → Entered

-- The code for a reservation that was made before, by the row that is read.
abbrev pub replayed_code : Option CreditReservation → String
replayed_code none = "prompt_enhancement_terminal"
replayed_code (some r) =
    if is_held r.status then "prompt_enhancement_in_progress" else "prompt_enhancement_terminal"

abbrev pub estimates_of : PromptEnhancementPlan → List RawEstimate
estimates_of plan =
    record { meter = gemini_input_token; maximum_units = plan.maximum_input_tokens }
    ∷ record { meter = gemini_output_token; maximum_units = plan.maximum_output_tokens }
    ∷ []

abbrev pub or_reserve_error : {A : Type 0} → Result Code A → Result PromptError A
or_reserve_error (ok a) = ok a
or_reserve_error (err e) = err (reserve_error e)

-- `error.status_code in {408, 504}`
abbrev pub is_timeout : Option ℕ → Bool
is_timeout none = false
is_timeout (some status) = status == 408 || status == 504

abbrev pub release_code : String → Option ℕ → String
release_code code status =
    if str_eq code "vertex_rate_limited"
    then "provider_rate_limited"
    else if is_timeout status
    then "provider_timeout"
    else "provider_failed"

-- The row that is stored for a result.
abbrev pub record_of : ℕ → PromptEnhanceRequest → PromptEnhancementResult → PromptEnhancement
record_of actor payload result = record {
  id = payload.request_id;
  owner_user_id = actor;
  original = result.original;
  enhanced = result.enhanced;
  components =
      put_component metadata_key
        (dict (
          ("creativity_preset", text (preset_value result.creativity_preset))
          ∷ ("temperature", number result.temperature)
          ∷ ("template_version", text "v1")
          ∷ []))
        result.components;
  target_mode = result.target_mode;
  target_model = result.target_model;
  llm_model = result.llm_model;
  latency_ms = result.latency_ms;
  tokens_in = result.tokens_in;
  tokens_out = result.tokens_out;
}

-- What is returned for a row that was just stored.
abbrev pub outcome_of : ℕ → PromptEnhanceRequest → PromptEnhancementResult → PromptCreditOutcome
outcome_of actor payload result = record {
  enhancement = record_of actor payload result;
  creativity_preset = result.creativity_preset;
  temperature = result.temperature;
  replayed = false;
}

-- The commit of a release, or its rollback: every exception is logged and dropped.
abbrev pub after_release : Store → Result Code (TerminalReceipt × Session) → Store
after_release store (err e) = store
after_release store (ok (receipt, s)) = committed store.enhancements s

module _ (uuid : UuidText) (actor : ℕ) (payload : PromptEnhanceRequest) where
  -- `_keys`
  abbrev pub prompt_reserve_key : String
  prompt_reserve_key = "pe_r_" ++ uuid.hex payload.request_id

  abbrev pub prompt_terminal_key : String
  prompt_terminal_key = "pe_t_" ++ uuid.hex payload.request_id

  -- `_release_hold`
  unfoldable pub release_hold : ℕ → String → List RawLine → ℕ → Store → Store
  release_hold reservation_id reason lines now store =
      after_release store (
        release actor reservation_id lines reason prompt_terminal_key now (begin_transaction store))

  -- The reservation of the first transaction.
  unfoldable pub hold_credits : PromptEnhancementPlan → ℕ → Store → Result PromptError Entered
  hold_credits plan now store = do
    held ←
        or_reserve_error
          (reserve actor prompt_reserve_key (estimates_of plan) now (begin_transaction store))
    let row =
        find (λ r. r.id == (held.0).reservation_id && r.user_id == actor) (held.1).reservations
    fail_if (held.0).replayed (prompt_credit (replayed_code row))
    ok (holds held.0 (committed store.enhancements held.1))

  abbrev pub enter_found :
      PromptEnhancementPlan → ℕ → Store → Option PromptEnhancement → Result PromptError Entered
  enter_found plan now store none = hold_credits plan now store
  enter_found plan now store (some existing) =
      replay existing payload actor >>= λ outcome. ok (returns outcome)

  -- The first transaction
  unfoldable pub enter : PromptEnhancementPlan → ℕ → Store → Result PromptError Entered
  unfolding replay hold_credits
  enter plan now store =
      enter_found plan now store (find (λ e. e.id == payload.request_id) store.enhancements)

  -- The settlement in the second transaction: its commit, or its rollback and the release.
  abbrev pub after_settle :
      Times
      → ReservationReceipt
      → PromptEnhancementResult
      → List RawLine
      → Store
      → Result Code (TerminalReceipt × Session)
      → Store × Result PromptError PromptCreditOutcome
  after_settle times held result lines store (ok (receipt, s)) = (
    committed (append store.enhancements (record_of actor payload result ∷ [])) s,
    ok (outcome_of actor payload result),
  )
  after_settle times held result lines store (err e) = (
    release_hold held.reservation_id "delivery_failed" lines times.released_at store,
    err (settle_error e),
  )

  -- The second transaction; the flush raises IntegrityError if the id is taken.
  unfoldable pub store_result :
      Times
      → ReservationReceipt
      → PromptEnhancementResult
      → List RawLine
      → Store
      → Store × Result PromptError PromptCreditOutcome
  unfolding release_hold
  store_result times held result lines store =
      if any (λ e. e.id == payload.request_id) store.enhancements
      then (
        release_hold held.reservation_id "delivery_failed" lines times.released_at store,
        err (prompt_credit "credit_account_unavailable"),
      )
      else after_settle times held result lines store (
          settle actor held.reservation_id lines "delivered" prompt_terminal_key times.terminal_at
            (begin_transaction store))

  abbrev pub after_report :
      Times
      → ReservationReceipt
      → PromptEnhancementResult
      → Store
      → Result PromptError (List RawLine)
      → Store × Result PromptError PromptCreditOutcome
  after_report times held result store (ok lines) = store_result times held result lines store
  after_report times held result store (err e) =
      (release_hold held.reservation_id "delivery_failed" [] times.terminal_at store, err e)

  -- What follows the provider's answer.
  unfoldable pub finish :
      Times
      → ReservationReceipt
      → EnhancerAnswer
      → Store
      → Store × Result PromptError PromptCreditOutcome
  unfolding release_hold store_result
  finish times held (answered result) store =
      after_report times held result store (usage_report result)
  finish times held (refused code status) store = (
    release_hold held.reservation_id (release_code code status) [] times.terminal_at store,
    err (vertex code status),
  )
  finish times held (raised e) store = (store, err (other e))

  abbrev pub after_enter :
      Times
      → EnhancerAnswer
      → (Store → Store)
      → Store
      → Result PromptError Entered
      → Store × Result PromptError PromptCreditOutcome
  after_enter times answer between store (err e) = (store, err e)
  after_enter times answer between store (ok (returns outcome)) = (store, ok outcome)
  after_enter times answer between store (ok (holds held current)) =
      finish times held answer (between current)

  -- `execute_prompt_enhancement`; `between` is what other sessions commit during the provider's call.
  unfoldable pub execute_prompt_enhancement :
      PromptEnhancementPlan
      → Times
      → EnhancerAnswer
      → (Store → Store)
      → Store
      → Store × Result PromptError PromptCreditOutcome
  unfolding enter finish
  execute_prompt_enhancement plan times answer between store =
      after_enter times answer between store (enter plan times.reserved_at store)
