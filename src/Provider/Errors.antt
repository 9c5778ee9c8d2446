-- ===== src/Provider/Errors.antt =====
-- The errors of the provider: backend/app/services/vertex/errors.py. `strip`, `upper` and `replace`
-- of a text are parameters.
pub mod Mapping
use ai_multimodal_platform.Prelude.{
  ℕ, Bool, true, false, Option, none, some, List, [], ◌∷◌, any, String, str_eq, ◌==◌, ◌||◌,
  if◌then◌else◌,
}
use ai_multimodal_platform.Provider.{Exc, first_of}

-- The subclasses of VertexServiceError.
pub data VertexErrorKind : Type 0 where
  service_error credentials_missing credentials_invalid : VertexErrorKind
  project_missing location_missing rate_limited : VertexErrorKind
  authentication_failed permission_denied transient : VertexErrorKind
  request_invalid request_error operation_failed : VertexErrorKind
  safety_blocked output_unavailable unknown_error : VertexErrorKind

abbrev pub kind_code : VertexErrorKind → String
kind_code service_error = "vertex_service_error"
kind_code credentials_missing = "vertex_credentials_missing"
kind_code credentials_invalid = "vertex_credentials_invalid"
kind_code project_missing = "vertex_project_missing"
kind_code location_missing = "vertex_location_missing"
kind_code rate_limited = "vertex_rate_limited"
kind_code authentication_failed = "vertex_authentication_failed"
kind_code permission_denied = "vertex_permission_denied"
kind_code transient = "vertex_transient_error"
kind_code request_invalid = "vertex_request_invalid"
kind_code request_error = "vertex_request_invalid"
kind_code operation_failed = "vertex_operation_failed"
kind_code safety_blocked = "vertex_safety_blocked"
kind_code output_unavailable = "vertex_output_unavailable"
kind_code unknown_error = "vertex_unknown_error"

abbrev pub public_message : VertexErrorKind → String
public_message service_error = "Vertex AI service error."
public_message credentials_missing = "Vertex credentials are not configured."
public_message credentials_invalid = "Vertex credentials could not be loaded."
public_message project_missing = "Vertex project is not configured."
public_message location_missing = "Vertex location is not configured."
public_message rate_limited = "Vertex AI request was rate limited."
public_message authentication_failed = "Vertex AI authentication failed."
public_message permission_denied = "Vertex AI permission denied."
public_message transient = "Vertex AI service was temporarily unavailable."
public_message request_invalid = "Vertex AI rejected the request."
public_message request_error = "Vertex AI rejected the request."
public_message operation_failed = "Vertex AI operation failed."
public_message safety_blocked = "Vertex AI blocked the generation for safety reasons."
public_message output_unavailable = "Vertex AI did not return an output."
public_message unknown_error = "Unexpected Vertex AI service error."

-- The class attribute `retryable`.
abbrev pub kind_retryable : VertexErrorKind → Bool
kind_retryable rate_limited = true
kind_retryable transient = true
kind_retryable service_error = false
kind_retryable credentials_missing = false
kind_retryable credentials_invalid = false
kind_retryable project_missing = false
kind_retryable location_missing = false
kind_retryable authentication_failed = false
kind_retryable permission_denied = false
kind_retryable request_invalid = false
kind_retryable request_error = false
kind_retryable operation_failed = false
kind_retryable safety_blocked = false
kind_retryable output_unavailable = false
kind_retryable unknown_error = false

pub record VertexServiceError : Type 0 where
  pub kind : VertexErrorKind
  pub status_code : Option ℕ
  pub retryable : Bool

-- `VertexServiceError.__init__`, whose message is not read again.
abbrev pub new_error : VertexErrorKind → Option ℕ → Option Bool → VertexServiceError
new_error kind status_code retryable = record {
  kind = kind;
  status_code = status_code;
  retryable = elim retryable [ none ↦ kind_retryable kind | some b ↦ b ];
}

pub record PublicDict : Type 0 where
  pub code : String
  pub message : String
  pub retryable : Bool
  pub status_code : Option ℕ

abbrev pub to_public_dict : VertexServiceError → PublicDict
to_public_dict e = record {
  code = kind_code e.kind;
  message = public_message e.kind;
  retryable = e.retryable;
  status_code = e.status_code;
}

-- An attribute of an exception, or a value of its `error` dictionary, as far as the code looks.
pub data Attribute : Type 0 where
  absent : Attribute
  integer : ℕ → Attribute
  words : String → Attribute

pub record ErrorDict : Type 0 where
  pub code : Attribute
  pub status_code : Attribute
  pub status : Attribute

-- An exception of another class.
pub record ForeignError : Type 0 where
  pub retryable : Bool
  pub status_code : Attribute
  pub code : Attribute
  pub status : Attribute
  pub response_status_code : Option ℕ
  pub error : Option ErrorDict

pub data ProviderError : Type 0 where
  vertex : VertexServiceError → ProviderError
  foreign : ForeignError → ProviderError

abbrev pub integer? : Attribute → Option ℕ
integer? absent = none
integer? (integer n) = some n
integer? (words t) = none

abbrev pub words? : Attribute → Option String
words? absent = none
words? (integer n) = none
words? (words t) = some t

-- `a or b`
abbrev pub or_attribute : Attribute → Attribute → Attribute
or_attribute absent b = b
or_attribute (integer n) b = if n == 0 then b else integer n
or_attribute (words t) b = if str_eq t "" then b else words t

-- `_extract_status_code`
unfoldable pub extract_status_code : ForeignError → Option ℕ
extract_status_code e = first_of (integer? e.status_code) (
    first_of (integer? e.code) (
      first_of (integer? e.status) (
        first_of e.response_status_code
          (elim e.error [ none ↦ none | some d ↦ integer? (or_attribute d.code d.status_code) ]))))

-- `code in {...}` and `name in {...}` of a value that may be None
abbrev pub code_in : List ℕ → Option ℕ → Bool
code_in codes none = false
code_in codes (some c) = any (λ d. d == c) codes

abbrev pub name_in : List String → Option String → Bool
name_in names none = false
name_in names (some t) = any (λ n. str_eq n t) names

-- What `with_retry` reads of the two.
abbrev pub exc_of_vertex : VertexServiceError → Exc
exc_of_vertex e = record {
  retryable = e.retryable;
  status_code = e.status_code;
  code = none;
  status = none;
  response_status_code = none;
}

abbrev pub exc_of_foreign : ForeignError → Exc
exc_of_foreign e = record {
  retryable = e.retryable;
  status_code = integer? e.status_code;
  code = integer? e.code;
  status = integer? e.status;
  response_status_code = e.response_status_code;
}

abbrev pub first_text : Option String → Option String → Option String
first_text none b = b
first_text (some a) b = some a

-- The conditions of `map_vertex_error`, on the status code and name that were extracted.
abbrev pub is_unauthenticated : Option ℕ → Option String → Bool
is_unauthenticated code name =
    code_in (401 ∷ 16 ∷ []) code || name_in ("UNAUTHENTICATED" ∷ "AUTHENTICATION_FAILED" ∷ []) name

abbrev pub is_denied : Option ℕ → Option String → Bool
is_denied code name = code_in (403 ∷ 7 ∷ []) code || name_in ("PERMISSION_DENIED" ∷ []) name

abbrev pub is_exhausted : Option ℕ → Option String → Bool
is_exhausted code name = code_in (429 ∷ 8 ∷ []) code || name_in ("RESOURCE_EXHAUSTED" ∷ []) name

abbrev pub is_transient : Option ℕ → Option String → Bool
is_transient code name =
    code_in (408 ∷ 500 ∷ 502 ∷ 503 ∷ 504 ∷ 4 ∷ 13 ∷ 14 ∷ []) code
    || name_in ("DEADLINE_EXCEEDED" ∷ "INTERNAL" ∷ "UNAVAILABLE" ∷ []) name

abbrev pub is_invalid : Option ℕ → Option String → Bool
is_invalid none name =
    name_in ("INVALID_ARGUMENT" ∷ "FAILED_PRECONDITION" ∷ "OUT_OF_RANGE" ∷ []) name
is_invalid (some code) name = true

-- `map_vertex_error` on an exception of another class.
abbrev pub classified : Option ℕ → Option String → VertexServiceError
classified code name =
    if is_unauthenticated code name
    then new_error authentication_failed code none
    else if is_denied code name
    then new_error permission_denied code none
    else if is_exhausted code name
    then new_error rate_limited code none
    else if is_transient code name
    then new_error transient code none
    else if is_invalid code name
    then new_error request_invalid code none
    else new_error unknown_error none none

module _ (strip : String → String) (upper : String → String)
    (replace : String → String → String → String) where
  abbrev pub normalized_text : Option String → Option String
  normalized_text none = none
  normalized_text (some t) =
      let name = replace " " "_" (replace "-" "_" (upper (strip t))) in
      if str_eq name "" then none else some name

  -- `_normalize_status_name`
  abbrev pub normalize_status_name : Attribute → Option String
  normalize_status_name a = normalized_text (words? a)

  -- `_extract_status_name`
  unfoldable pub extract_status_name : ForeignError → Option String
  extract_status_name e = first_text (normalize_status_name e.status) (
      first_text (normalize_status_name e.code) (elim e.error [
        | none ↦ none
        | some d ↦ first_text (normalize_status_name d.status) (normalize_status_name d.code)
      ]))

  unfoldable pub map_vertex_error : ProviderError → VertexServiceError
  map_vertex_error (vertex e) = e
  map_vertex_error (foreign e) = classified (extract_status_code e) (extract_status_name e)
