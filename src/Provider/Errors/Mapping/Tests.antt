-- ===== src/Provider/Errors/Mapping/Tests.antt =====
-- A rate-limited answer of the provider's HTTP client, with a name that says something else.
use ai_multimodal_platform.Prelude.{◌≡◌, refl, true, false, none, String}
use ai_multimodal_platform.Provider.{is_retryable, default_retryable_status_codes}
use ai_multimodal_platform.Provider.Errors.{
  ForeignError, foreign, absent, integer, words, exc_of_vertex, map_vertex_error,
  authentication_failed, extract_status_code, extract_status_name,
}
use ai_multimodal_platform.Provider.Errors.Mapping.{map_vertex_error-is_retryable}

abbrev same : String → String
same s = s

abbrev replace : String → String → String → String
replace from to s = s

abbrev limited : ForeignError
limited = record {
  retryable = false;
  status_code = absent;
  code = integer 429;
  status = words "UNAUTHENTICATED";
  response_status_code = none;
  error = none;
}

mapped_kind : (map_vertex_error same same replace (foreign limited)).kind ≡ authentication_failed
unfolding map_vertex_error extract_status_code extract_status_name
mapped_kind = refl

map_vertex_error-is_retryable_example :
    is_retryable default_retryable_status_codes
      (exc_of_vertex (map_vertex_error same same replace (foreign limited)))
    ≡ true
map_vertex_error-is_retryable_example =
    map_vertex_error-is_retryable same same replace limited refl refl
