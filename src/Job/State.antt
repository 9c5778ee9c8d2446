-- ===== src/Job/State.antt =====
-- The rows and enumerations of backend/app/models.py that the job code reads and writes.
use ai_multimodal_platform.Prelude.{
  ℕ, Bool, Option, none, some, List, [], ◌∷◌, String, str_eq, if◌then◌else◌,
}
use ai_multimodal_platform.Prelude.Int.{ℤ}
use ai_multimodal_platform.Credit.Policy.{Meter}

pub data GenerationMode : Type 0 where
  t2i : GenerationMode
  t2v : GenerationMode
  i2v : GenerationMode

pub data JobState : Type 0 where
  pending : JobState
  enhancing : JobState
  queued : JobState
  generating : JobState
  polling : JobState
  downloading : JobState
  completed : JobState
  failed : JobState
  cancelled : JobState

-- A value of a `detail` dictionary.
pub data Json : Type 0 where
  null : Json
  boolean : Bool → Json
  number : ℕ → Json
  text : String → Json

abbrev pub Detail : Type 0
Detail = List (String × Json)

-- An element of `state_history`: the state's value, the time and the detail.
pub record HistoryEntry : Type 0 where
  pub state : String
  pub at : ℕ
  pub detail : Option Detail

-- The dictionary that backend/app/generation_credit.py stores among the parameters of a job: the
-- value of each key, `none` where the key is missing or holds None.
pub record CreditMetadata : Type 0 where
  pub version : Option ℕ
  pub role : Option String
  pub reservation_id : Option String
  pub reserve_key : Option String
  pub terminal_key : Option String
  pub top_level_job_id : Option String
  pub parent_job_id : Option String
  pub child_job_id : Option String
  pub estimates : List (Meter × ℤ)

-- A value of `parameters`. `nothing` is None, `other` a value of any other type.
pub data Parameter : Type 0 where
  integer : ℤ → Parameter
  words : String → Parameter
  credit : CreditMetadata → Parameter
  nothing : Parameter
  other : Parameter

abbrev pub Parameters : Type 0
Parameters = List (String × Parameter)

-- `parameters.get(key)` and `{**parameters, key: value}`
abbrev pub get : String → Parameters → Option Parameter
get key [] = none
get key ((k, v) ∷ ps) = if str_eq k key then some v else get key ps

abbrev pub put : String → Parameter → Parameters → Parameters
put key v [] = (key, v) ∷ []
put key v ((k, w) ∷ ps) = if str_eq k key then (k, v) ∷ ps else (k, w) ∷ put key v ps

-- The columns of `jobs`, less the texts of the prompts, which no code modelled here looks into.
pub record Job : Type 0 where
  pub id : ℕ
  pub owner_user_id : ℕ
  pub mode : GenerationMode
  pub model : String
  pub state : JobState
  pub enhancement_id : Option ℕ
  pub parent_job_id : Option ℕ
  pub retry_of_job_id : Option ℕ
  pub source_asset_id : Option ℕ
  pub blocked : Bool
  pub vertex_operation_name : Option String
  pub attempts : ℕ
  pub parameters : Parameters
  pub state_history : List HistoryEntry
  pub error : Option Detail
  pub vertex_charged : Bool
  pub created_at : ℕ
  pub updated_at : ℕ

pub data AssetKind : Type 0 where
  image video : AssetKind

-- The columns of `assets`. A duration is written only as `float(n)` of a whole number of seconds.
pub record Asset : Type 0 where
  pub id : ℕ
  pub job_id : ℕ
  pub kind : AssetKind
  pub local_path : String
  pub mime : String
  pub size_bytes : ℕ
  pub duration_sec : Option ℤ
  pub created_at : ℕ
