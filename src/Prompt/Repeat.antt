-- ===== src/Prompt/Repeat.antt =====
-- A request that is repeated after its enhancement was stored by backend/app/prompt_credit.py.
use ai_multimodal_platform.Prelude.{
  ℕ, ◌≡◌, refl, ap, inl, inr, String, true, some, List, [], ◌∷◌, find, ◌==◌, str_eq, Bool-cases,
  ==_iff, eq_iff,
}
use ai_multimodal_platform.Prelude.Result.{ok}
use ai_multimodal_platform.Job.{GenerationMode, t2i, t2v, i2v, text}
use ai_multimodal_platform.Generation.{UuidText}
use ai_multimodal_platform.Prompt.{
  CreativityPreset, faithful, balanced, imaginative, preset_value, temperature_for_preset,
  normalize_creativity_preset, Component, PromptEnhanceRequest, PromptEnhancementPlan,
  PromptEnhancementResult, EnhancerAnswer, PromptCreditOutcome, Store, metadata_key, or_unavailable,
  stored_preset, mode_eq, preset_eq, matches, replay,
}
use ai_multimodal_platform.Prompt.Execute.{
  Times, put_component, record_of, enter, execute_prompt_enhancement,
}

find-put_component :
    (key : String) (v : Component) (xs : List (String × Component))
    → find (λ c. str_eq c.0 key) (put_component key v xs) ≡ some (key, v)
unfolding put_component
find-put_component key v [] = rw ((eq_iff key key).1 refl) refl
find-put_component key v (x ∷ xs) = elim (Bool-cases (str_eq x.0 key)) [
  | inl e ↦ rw (e, (eq_iff key key).1 refl) refl
  | inr e ↦ rw (e, e) (find-put_component key v xs)
]

normalize-preset_value :
    (p : CreativityPreset) → normalize_creativity_preset (text (preset_value p)) ≡ some p
normalize-preset_value faithful = refl
normalize-preset_value balanced = refl
normalize-preset_value imaginative = refl

-- The preset of a stored result is read back.
stored_preset-record_of :
    (actor : ℕ) (payload : PromptEnhanceRequest) (result : PromptEnhancementResult)
    → stored_preset (record_of actor payload result) ≡ ok result.creativity_preset
unfolding stored_preset
stored_preset-record_of actor payload result =
    rw (find-put_component metadata_key _ result.components)
      (ap or_unavailable (normalize-preset_value result.creativity_preset))

mode_eq_refl : (m : GenerationMode) → mode_eq m m ≡ true
mode_eq_refl t2i = refl
mode_eq_refl t2v = refl
mode_eq_refl i2v = refl

preset_eq_refl : (p : CreativityPreset) → preset_eq p p ≡ true
preset_eq_refl faithful = refl
preset_eq_refl balanced = refl
preset_eq_refl imaginative = refl

-- The result is one for the request.
pub record Answers (payload : PromptEnhanceRequest) (result : PromptEnhancementResult)
    : Type 0 where
  pub original : result.original ≡ payload.prompt
  pub target_mode : result.target_mode ≡ payload.target_mode
  pub target_model : result.target_model ≡ payload.target_model
  pub creativity_preset : result.creativity_preset ≡ payload.creativity_preset

matches-record_of :
    (actor : ℕ) (payload : PromptEnhanceRequest) (result : PromptEnhancementResult)
    → Answers payload result
    → matches (record_of actor payload result) payload ≡ ok true
unfolding matches
matches-record_of actor payload result a =
    rw
      (
        a.original,
        a.target_mode,
        a.target_model,
        (eq_iff payload.prompt payload.prompt).1 refl,
        mode_eq_refl payload.target_mode,
        (eq_iff payload.target_model payload.target_model).1 refl,
        stored_preset-record_of actor payload result,
        a.creativity_preset,
        preset_eq_refl payload.creativity_preset,
      )
      refl

-- What a repeated request returns.
abbrev pub repeated : ℕ → PromptEnhanceRequest → PromptEnhancementResult → PromptCreditOutcome
repeated actor payload result = record {
  enhancement = record_of actor payload result;
  creativity_preset = result.creativity_preset;
  temperature = temperature_for_preset result.creativity_preset;
  replayed = true;
}

replay-record_of :
    (actor : ℕ) (payload : PromptEnhanceRequest) (result : PromptEnhancementResult)
    → Answers payload result
    → replay (record_of actor payload result) payload actor ≡ ok (repeated actor payload result)
unfolding replay
replay-record_of actor payload result a =
    rw
      (
        (==_iff actor actor).1 refl,
        matches-record_of actor payload result a,
        stored_preset-record_of actor payload result,
      )
      refl

-- A request that is repeated while the row that was stored for its result is in the table gets that
-- row back, with its preset, and changes nothing, whatever the enhancer would plan and answer.
pub execute_prompt_enhancement-repeated :
    (uuid : UuidText) (actor : ℕ) (payload : PromptEnhanceRequest)
    (result : PromptEnhancementResult) (store : Store)
    → Answers payload result
    → find (λ e. e.id == payload.request_id) store.enhancements
      ≡ some (record_of actor payload result)
    → (plan : PromptEnhancementPlan) (times : Times) (answer : EnhancerAnswer)
      (between : Store → Store)
    → execute_prompt_enhancement uuid actor payload plan times answer between store
      ≡ (store, ok (repeated actor payload result))
unfolding execute_prompt_enhancement enter
execute_prompt_enhancement-repeated uuid actor payload result store a found plan times answer
      between =
    rw (found, replay-record_of actor payload result a) refl
