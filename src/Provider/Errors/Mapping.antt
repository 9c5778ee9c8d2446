-- ===== src/Provider/Errors/Mapping.antt =====
-- `map_vertex_error` of backend/app/services/vertex/errors.py before `with_retry` of retry.py.
mod Tests
use ai_multimodal_platform.Prelude.{
  ℕ, ◌≡◌, Bool, true, false, Option, none, some, List, [], ◌∷◌, String, arith, inl, inr, ◌⊎◌,
  Bool-cases, Option-cases, any, ◌==◌, ◌||◌, if◌then◌else◌, str_eq, ap, refl,
}
use ai_multimodal_platform.Provider.{is_retryable, default_retryable_status_codes, Exc}
use ai_multimodal_platform.Provider
use ai_multimodal_platform.Provider.Errors.{
  VertexServiceError, ForeignError, ProviderError, foreign, exc_of_vertex, exc_of_foreign,
  extract_status_code, extract_status_name, classified, is_unauthenticated, is_denied, is_exhausted,
  is_transient, map_vertex_error, code_in, name_in, Attribute, integer?,
}

-- Both modules find the same status code where the retries find one.
extracted :
    (e : ForeignError) (c : ℕ)
    → Provider.extract_status_code (exc_of_foreign e) ≡ some c
    → extract_status_code e ≡ some c
unfolding extract_status_code
extracted e c h = elim (Option-cases (integer? e.status_code)) [
  | inr (a, e1) ↦ ground (arith, e1, h)
  | inl e1 ↦ elim (Option-cases (integer? e.code)) [
    | inr (a, e2) ↦ ground (arith, e1, e2, h)
    | inl e2 ↦ elim (Option-cases (integer? e.status)) [
      | inr (a, e3) ↦ ground (arith, e1, e2, e3, h)
      | inl e3 ↦ ground (arith, e1, e2, e3, h)
    ]
  ]
]

retried-status :
    (v : VertexServiceError) (c : ℕ)
    → v.status_code ≡ some c
    → any (λ d. d == c) default_retryable_status_codes ≡ true
    → is_retryable default_retryable_status_codes (exc_of_vertex v) ≡ true
retried-status v c h known = elim (Bool-cases v.retryable) [
  | inl e ↦ rw e
  | inr e ↦ rw (e, h) known
]

-- Every class that a status code leads to keeps the code.
classified-status_code :
    (c : ℕ) (name : Option String) → (classified (some c) name).status_code ≡ some c
classified-status_code c name = elim (Bool-cases (is_unauthenticated (some c) name)) [
  | inl e1 ↦ rw e1
  | inr e1 ↦ elim (Bool-cases (is_denied (some c) name)) [
    | inl e2 ↦ rw (e1, e2)
    | inr e2 ↦ elim (Bool-cases (is_exhausted (some c) name)) [
      | inl e3 ↦ rw (e1, e2, e3)
      | inr e3 ↦ elim (Bool-cases (is_transient (some c) name)) [
        | inl e4 ↦ rw (e1, e2, e3, e4)
        | inr e4 ↦ rw (e1, e2, e3, e4)
      ]
    ]
  ]
]

module _ (strip : String → String) (upper : String → String)
    (replace : String → String → String → String) where
  -- An error of another class that the default policy retries for its status code is retried after
  -- the mapping too, whatever its status name says.
  pub map_vertex_error-is_retryable :
      (e : ForeignError)
      → e.retryable ≡ false
      → is_retryable default_retryable_status_codes (exc_of_foreign e) ≡ true
      → is_retryable default_retryable_status_codes
          (exc_of_vertex (map_vertex_error strip upper replace (foreign e)))
        ≡ true
  unfolding map_vertex_error
  map_vertex_error-is_retryable e flag h =
      elim (Option-cases (Provider.extract_status_code (exc_of_foreign e))) [
        | inl e1 ↦ absurd (ground (arith, e1, flag, h))
        | inr (c, e1) ↦
            let found = extracted e c e1 in
            let kept = classified-status_code c (extract_status_name strip upper replace e) in
            let known : any (λ d. d == c) default_retryable_status_codes ≡ true =
              ground (arith, e1, flag, h) in
            rw found (
              retried-status (classified (some c) (extract_status_name strip upper replace e)) c
                kept known)
      ]
