-- ===== src/Handler/Errors.antt =====
-- The errors and the reasons of failed jobs in backend/app/services/jobs/handlers.py.
use ai_multimodal_platform.Prelude.{
  ℕ, ◌≤◌, ◌≡◌, ◌↔◌, refl, sym, ◌∙◌, le→leb, String, Bool, true, false, Option, none, some, [], ◌∷◌,
  max, leb, str_eq, ◌==◌, ◌&&◌, if◌then◌else◌, arith, Bool-cases, Option-cases, inl, inr,
}
use ai_multimodal_platform.Credit.Accounting.{is_reason}
use ai_multimodal_platform.Provider.{positive_part}
use ai_multimodal_platform.Job.{Job, Detail, Json, boolean}
use ai_multimodal_platform.Handler.{
  HandlerError, mismatch, source_not_found, source_not_image, veo_timeout, vertex, internal,
  bad_policy, other, World, is_429, attempted_reason, credit_failure_reason,
  with_dead_letter_metadata, public_error,
}

-- The value of a key of an error.
abbrev pub entry : String → Detail → Option Json
entry key [] = none
entry key ((k, v) ∷ d) = if str_eq k key then some v else entry key d

-- Whether the caller may try again.
abbrev pub is_retryable_error : HandlerError → Bool
is_retryable_error (veo_timeout name) = true
is_retryable_error (vertex e) = e.retryable
is_retryable_error _ = false

attempted_reason-is_reason :
    (e : HandlerError) (charged : Bool) → is_reason (attempted_reason e charged) ≡ true
attempted_reason-is_reason mismatch charged = refl
attempted_reason-is_reason source_not_found true = refl
attempted_reason-is_reason source_not_found false = refl
attempted_reason-is_reason source_not_image true = refl
attempted_reason-is_reason source_not_image false = refl
attempted_reason-is_reason (veo_timeout name) charged = refl
attempted_reason-is_reason (vertex e) charged = elim (Bool-cases (is_429 e.status_code)) [
  | inl h ↦ rw h refl
  | inr h ↦ rw h refl
]
attempted_reason-is_reason (internal e) true = refl
attempted_reason-is_reason (internal e) false = refl
attempted_reason-is_reason (bad_policy e) true = refl
attempted_reason-is_reason (bad_policy e) false = refl
attempted_reason-is_reason (other n) true = refl
attempted_reason-is_reason (other n) false = refl

-- Whatever a job failed with, the reason for its credits is one that the accounting accepts.
pub credit_failure_reason-is_reason :
    (e : HandlerError) (job : Job) → is_reason (credit_failure_reason e job) ≡ true
unfolding credit_failure_reason
credit_failure_reason-is_reason e job = elim (Bool-cases (job.attempts == 0)) [
  | inl h ↦ rw h refl
  | inr h ↦ rw h (attempted_reason-is_reason e job.vertex_charged)
]

abbrev is_exhausted : World → ℕ → Bool
is_exhausted world count = leb (max 1 (positive_part world.policy.max_attempts)) count

-- Whether an error of a known shape is a dead letter.
abbrev IsDead : World → Bool → ℕ → Detail → Type 0
IsDead world retryable count error =
    entry "dead_letter" error
    ≡ (if retryable && is_exhausted world count then some (boolean true) else none)

public_error-IsDead :
    (world : World) (e : HandlerError) (count at : ℕ)
    → IsDead world (is_retryable_error e) count (public_error world e count at)
unfolding public_error with_dead_letter_metadata
public_error-IsDead world mismatch count at = refl
public_error-IsDead world source_not_found count at = refl
public_error-IsDead world source_not_image count at = refl
public_error-IsDead world (veo_timeout name) count at =
    elim (Bool-cases (is_exhausted world count)) [ inl h ↦ rw h refl | inr h ↦ rw h refl ]
public_error-IsDead world (vertex e) count at =
    elim (Bool-cases (e.retryable && is_exhausted world count)) [
      | inl h ↦ elim (Option-cases e.status_code) [
        | inl s ↦ rw (h, s) refl
        | inr (c, s) ↦ rw (h, s) refl
      ]
      | inr h ↦ elim (Option-cases e.status_code) [
        | inl s ↦ rw (h, s) refl
        | inr (c, s) ↦ rw (h, s) refl
      ]
    ]
public_error-IsDead world (internal e) count at = refl
public_error-IsDead world (bad_policy e) count at = refl
public_error-IsDead world (other n) count at = refl

dead-exhausted :
    (b : Bool) (limit count : ℕ)
    → (if b && leb limit count then some (boolean true) else none) ≡ some (boolean true)
    → (b ≡ true) × (limit ≤ count)
dead-exhausted b limit count h = elim (Bool-cases (b && leb limit count)) [
  | inl e ↦ (ground (arith, e), ground (arith, e))
  | inr e ↦ let no_value = rw e at h in absurd cc
]

exhausted-dead :
    (b : Bool) (limit count : ℕ)
    → b ≡ true
    → limit ≤ count
    → (if b && leb limit count then some (boolean true) else none) ≡ some (boolean true)
exhausted-dead b limit count e h = rw (e, le→leb limit count h) refl

-- The error of a failed job is marked as a dead letter exactly if the exception may be retried and
-- the attempts reached the limit, which is at least one.
pub public_error-dead_letter :
    (world : World) (e : HandlerError) (count at : ℕ)
    → (entry "dead_letter" (public_error world e count at) ≡ some (boolean true))
      ↔ ((is_retryable_error e ≡ true) × (max 1 (positive_part world.policy.max_attempts) ≤ count))
public_error-dead_letter world e count at =
    let marked = public_error-IsDead world e count at in
    let limit = max 1 (positive_part world.policy.max_attempts) in
    (
      λ h. dead-exhausted (is_retryable_error e) limit count (sym marked ∙ h),
      λ h. marked ∙ exhausted-dead (is_retryable_error e) limit count h.0 h.1,
    )
