-- ===== src/Ownership/Files.antt =====
-- `file_asset` of backend/app/ownership.py: the asset that is registered under a path. The patterns are
-- tested on the codes of the characters.
use ai_multimodal_platform.Prelude.{
  ℕ, zero, suc, String, Bool, true, false, not, some, List, [], ◌∷◌, ◌++◌, every, filter, leb,
  length, ◌==◌, ◌&&◌, ◌||◌, str_eq, if◌then◌else◌,
}
use ai_multimodal_platform.Prelude.Result.{Result, ok, err, ◌>>=◌, ◌>>◌, fail_if, or_fail}
use ai_multimodal_platform.Credit.Lifecycle.Commands.{codes}
use ai_multimodal_platform.Job.{Asset}
use ai_multimodal_platform.Pipeline.{Rows}
use ai_multimodal_platform.Ownership.{
  AccessError, content_not_found, Actor, check_owner, is_visible, one_or_none, joined,
}

-- `[0-9a-f]`, `[A-Za-z0-9]` and `[A-Za-z0-9._-]`
abbrev pub is_hex : ℕ → Bool
is_hex c = (leb b'0' c && leb c b'9') || (leb b'a' c && leb c b'f')

abbrev pub is_alphanumeric : ℕ → Bool
is_alphanumeric c =
    (leb b'A' c && leb c b'Z') || (leb b'a' c && leb c b'z') || (leb b'0' c && leb c b'9')

abbrev pub is_name_char : ℕ → Bool
is_name_char c = is_alphanumeric c || c == b'.' || c == b'_' || c == b'-'

-- A class for each character, in turn.
abbrev pub matches : List (ℕ → Bool) → List ℕ → Bool
matches [] [] = true
matches [] (c ∷ cs) = false
matches (p ∷ ps) [] = false
matches (p ∷ ps) (c ∷ cs) = p c && matches ps cs

abbrev pub repeat : ℕ → (ℕ → Bool) → List (ℕ → Bool)
repeat zero p = []
repeat (suc n) p = p ∷ repeat n p

-- `[0-9a-f]{8}(?:-[0-9a-f]{4}){3}-[0-9a-f]{12}`
abbrev pub uuid_pattern : List (ℕ → Bool)
uuid_pattern =
    let group = (λ c. c == b'-') ∷ repeat 4 is_hex in
    repeat 8 is_hex ++ group ++ group ++ group ++ ((λ c. c == b'-') ∷ repeat 12 is_hex)

-- `[A-Za-z0-9][A-Za-z0-9._-]{0,127}`
abbrev pub is_file_name : List ℕ → Bool
is_file_name [] = false
is_file_name (c ∷ cs) = is_alphanumeric c && leb (length cs) 127 && every is_name_char cs

-- `local_path.split("/")`, as the codes of the parts
abbrev pub onto_first : ℕ → List (List ℕ) → List (List ℕ)
onto_first c [] = (c ∷ []) ∷ []
onto_first c (part ∷ parts) = (c ∷ part) ∷ parts

abbrev pub split : List ℕ → List (List ℕ)
split [] = [] ∷ []
split (c ∷ cs) = if c == b'/' then [] ∷ split cs else onto_first c (split cs)

abbrev pub codes_eq : List ℕ → List ℕ → Bool
codes_eq [] [] = true
codes_eq [] (d ∷ ds) = false
codes_eq (c ∷ cs) [] = false
codes_eq (c ∷ cs) (d ∷ ds) = c == d && codes_eq cs ds

-- The check of the path; its first part.
abbrev pub checked_parts : List (List ℕ) → Result AccessError (List ℕ)
checked_parts (first ∷ second ∷ []) =
    fail_if (not (matches uuid_pattern first) || not (is_file_name second)) content_not_found
    >> ok first
checked_parts _ = err content_not_found

module _ (str : ℕ → String) (actor : Actor) where
  -- `file_asset`
  unfoldable pub file_asset : String → Rows → Result AccessError Asset
  unfolding check_owner
  file_asset local_path rows = do
    first ← checked_parts (split (codes local_path))
    found ← one_or_none (
        filter (λ r. str_eq (r.0).local_path local_path && is_visible actor "read" r.1)
          (joined rows.assets rows.jobs))
    row ← or_fail found content_not_found
    fail_if
        (not (str_eq (row.0).local_path local_path)
          || not (codes_eq (codes (str (row.0).job_id)) first))
        content_not_found
    check_owner actor (some row.1) "read"
    ok row.0
