-- ===== src/Job/Machine.antt =====
-- backend/app/state_machine.py.
use ai_multimodal_platform.Prelude.{
  ℕ, Bool, true, false, Option, none, some, List, [], ◌∷◌, ◌++◌, any, find, String, str_eq, not,
}
use ai_multimodal_platform.Prelude.Result.{Result, ok, ◌>>=◌, ◌>>◌, fail_if, or_fail}
use ai_multimodal_platform.Job.State.{
  JobState, pending, enhancing, queued, generating, polling, downloading, completed, failed,
  cancelled, Job, Detail,
}

-- `state.value`
abbrev pub value : JobState → String
value pending = "pending"
value enhancing = "enhancing"
value queued = "queued"
value generating = "generating"
value polling = "polling"
value downloading = "downloading"
value completed = "completed"
value failed = "failed"
value cancelled = "cancelled"

abbrev pub states : List JobState
states =
    pending ∷ enhancing ∷ queued ∷ generating ∷ polling ∷ downloading ∷ completed ∷ failed
    ∷ cancelled ∷ []

abbrev pub is_terminal : JobState → Bool
is_terminal completed = true
is_terminal failed = true
is_terminal cancelled = true
is_terminal pending = false
is_terminal enhancing = false
is_terminal queued = false
is_terminal generating = false
is_terminal polling = false
is_terminal downloading = false

abbrev pub allowed_transitions : JobState → List JobState
allowed_transitions pending = enhancing ∷ queued ∷ failed ∷ cancelled ∷ []
allowed_transitions enhancing = queued ∷ failed ∷ cancelled ∷ []
allowed_transitions queued = generating ∷ failed ∷ cancelled ∷ []
allowed_transitions generating = polling ∷ downloading ∷ failed ∷ cancelled ∷ []
allowed_transitions polling = polling ∷ downloading ∷ failed ∷ cancelled ∷ []
allowed_transitions downloading = completed ∷ failed ∷ cancelled ∷ []
allowed_transitions completed = []
allowed_transitions failed = []
allowed_transitions cancelled = []

-- The two messages of InvalidTransitionError.
pub data InvalidTransitionError : Type 0 where
  unknown_state : String → InvalidTransitionError
  invalid_transition : String → String → InvalidTransitionError

-- The type `JobState | str` of an argument.
pub data StateArg : Type 0 where
  member : JobState → StateArg
  named : String → StateArg

unfoldable pub normalize_state : StateArg → Result InvalidTransitionError JobState
normalize_state (member s) = ok s
normalize_state (named text) =
    or_fail (find (λ s. str_eq text (value s)) states) (unknown_state text)

-- `target in ALLOWED_TRANSITIONS[current]`
abbrev pub allows : JobState → JobState → Bool
allows current target = any (λ s. str_eq (value s) (value target)) (allowed_transitions current)

unfoldable pub can_transition : StateArg → StateArg → Result InvalidTransitionError Bool
can_transition current_state new_state = normalize_state current_state >>= λ current.
    normalize_state new_state >>= λ target. ok (allows current target)

-- `at or datetime.now(timezone.utc)`
abbrev pub at_or : Option ℕ → ℕ → ℕ
at_or none now = now
at_or (some at) now = at

abbrev pub moved : JobState → Option Detail → ℕ → Job → Job
moved target detail changed_at job = record job {
  state = target;
  updated_at = changed_at;
  state_history =
      job.state_history ++ (record { state = value target; at = changed_at; detail = detail } ∷ []);
}

unfoldable pub transition :
    ℕ → Job → StateArg → Option Detail → Option ℕ → Result InvalidTransitionError Job
transition now job new_state detail at = normalize_state (member job.state) >>= λ current.
    normalize_state new_state >>= λ target.
    fail_if (not (allows current target)) (invalid_transition (value current) (value target))
    >> ok (moved target detail (at_or at now) job)
