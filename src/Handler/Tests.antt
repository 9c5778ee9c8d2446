-- ===== src/Handler/Tests.antt =====
-- Runs of an image job and of a failed one, and the instances of the handlers' theorems.
use ai_multimodal_platform.Prelude.{
  ℕ, suc, ◌≡◌, ◌↔◌, ◌≤◌, ◌==◌, find, refl, true, false, Option, none, some, List, [], ◌∷◌,
}
use ai_multimodal_platform.Prelude.Int.{pos}
use ai_multimodal_platform.Prelude.Result.{Result, ok, err}
use ai_multimodal_platform.Credit.Tables.{user, active}
use ai_multimodal_platform.Provider.Errors.{ForeignError, absent, new_error, transient}
use ai_multimodal_platform.Job.{Job, t2i, queued, transition, normalize_state, boolean}
use ai_multimodal_platform.Generation.Letters.{unary}
use ai_multimodal_platform.Generation.Terminal.{parse_value, parse, terminalize_generation}
use ai_multimodal_platform.Pipeline.{Rows, terminalize_rows, validate_execution_references}
use ai_multimodal_platform.Pipeline.Cancel.{lock_owner_status, mark_cancelled}
use ai_multimodal_platform.Pipeline.Link.{
  link_child, link_first_child, try_link, link_completed_parent,
}
use ai_multimodal_platform.Handler.{HandlerError, vertex, other, World, Run, and_then, public_error}
use ai_multimodal_platform.Handler.Steps.{
  move_to, queue_pending, attempt, attempt_from, with_attempts, complete,
}
use ai_multimodal_platform.Handler.Image.{Images, image_assets, generate_images, handle_t2i}
use ai_multimodal_platform.Handler.Video.{Videos, handle}
use ai_multimodal_platform.Handler.Errors.{entry, is_retryable_error, public_error-dead_letter}
use ai_multimodal_platform.Handler.Attempts.{WithinAttempts, with_attempts-WithinAttempts}
use ai_multimodal_platform.Handler.Over.{IsOver}
use ai_multimodal_platform.Handler.Ends.{handle-IsOver}

abbrev plain : ForeignError
plain = record {
  retryable = false;
  status_code = absent;
  code = absent;
  status = absent;
  response_status_code = none;
  error = none;
}

abbrev world : World
world = record {
  uuid = unary;
  exception_code = λ e. "runtime_error";
  class_name = λ e. "RuntimeError";
  str = λ e. "";
  attributes = λ e. plain;
  strip = λ t. t;
  upper = λ t. t;
  replace = λ a b t. t;
  isoformat = λ n. "2026";
  policy = record { max_attempts = pos 3; base_delay_sec = pos 1; max_delay_sec = pos 20 };
}

abbrev job : Job
job = record {
  id = 7;
  owner_user_id = 1;
  mode = t2i;
  model = "imagen-4.0-fast-generate-001";
  state = queued;
  enhancement_id = none;
  parent_job_id = none;
  retry_of_job_id = none;
  source_asset_id = none;
  blocked = false;
  vertex_operation_name = none;
  attempts = 0;
  parameters = [];
  state_history = [];
  error = none;
  vertex_charged = false;
  created_at = 100;
  updated_at = 100;
}

abbrev rows : Rows
rows = record {
  jobs = job ∷ [];
  assets = [];
  enhancements = [];
  events = [];
  credit = record {
    in_transaction = true;
    uuid4 = λ n. n;
    users = record { id = 1; role = user; status = active; signed_up_at = 10 } ∷ [];
    accounts = [];
    cycles = [];
    grants = [];
    operations = [];
    reservations = [];
    items = [];
    allocations = [];
    usage_records = [];
    ledger_events = [];
  };
}

abbrev unavailable : HandlerError
unavailable = vertex (new_error transient (some 503) none)

-- The second attempt is answered.
abbrev answer : ℕ → Result HandlerError (List ℕ)
answer (suc (suc n)) = ok (20 ∷ [])
answer _ = err unavailable

abbrev images : Images
images = record {
  acquire = ok 0;
  generate_image = answer;
  save_bytes = λ i. ok "output.png";
  asset_id = λ i. i;
  event_id = 40;
}

abbrev videos : Videos
videos = record {
  acquire = ok 0;
  read_bytes = λ path. ok 10;
  submit_video = λ source n. ok "operation";
  poll_operation = λ name. ok 30;
  poll_operation_name = λ name. ok 30;
  save_bytes = ok "output.mp4";
  int_of = λ p. err unavailable;
  asset_id = 50;
}

abbrev job_of : Run (Option Job) → Option Job
job_of (rs, ok j) = j
job_of (rs, err e) = none

abbrev handled : Run (Option Job)
handled = handle world 3000 videos images (other 0) 7 rows

handled-eq : handle world 3000 videos images (other 0) 7 rows ≡ (handled.0, ok (job_of handled))
unfolding transition normalize_state parse_value parse terminalize_generation terminalize_rows
    validate_execution_references lock_owner_status mark_cancelled link_child link_first_child
    try_link link_completed_parent and_then move_to queue_pending attempt attempt_from with_attempts
    complete image_assets generate_images handle_t2i handle
handled-eq = refl

handle-IsOver_example : IsOver (find (λ j. j.id == 7) handled.0.jobs)
handle-IsOver_example =
    handle-IsOver world 3000 videos images (other 0) 7 rows handled.0 (job_of handled) handled-eq

abbrev tried : Rows × Job × List ℕ
tried =
    (record rows { jobs = record job { attempts = 2 } ∷ [] }, record job { attempts = 2 }, 20 ∷ [])

tried-eq : with_attempts world answer job rows ≡ (tried.0, ok (tried.1, tried.2))
unfolding validate_execution_references attempt attempt_from with_attempts
tried-eq = refl

with_attempts-WithinAttempts_example : WithinAttempts 3 job tried.1
with_attempts-WithinAttempts_example =
    with_attempts-WithinAttempts world answer job rows tried tried-eq

public_error-dead_letter_example :
    (entry "dead_letter" (public_error world unavailable 3 3000) ≡ some (boolean true))
    ↔ ((is_retryable_error unavailable ≡ true) × (3 ≤ 3))
public_error-dead_letter_example = public_error-dead_letter world unavailable 3 3000
