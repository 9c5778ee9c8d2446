-- ===== src/Outbox.antt =====
-- The outbox of job dispatches: OutboxEvent of backend/app/models.py,
-- backend/app/services/jobs/outbox.py and outbox_dispatcher.py. The parser of a UUID, the regular
-- expressions, `strip` and `lower` are parameters; so is the dispatcher, whose answer to a call and
-- the clock readings around it are a `Dispatch` for each event.
pub mod Batch
pub mod Repair
mod Tests
use ai_multimodal_platform.Prelude.{
  ℕ, suc, ◌+◌, String, Bool, true, false, Option, none, some, List, [], ◌∷◌, ◌++◌, map, filter,
  take, sort_by, length, ltb, leb, ◌==◌, max, str_eq, ◌&&◌, ◌||◌, not, if◌then◌else◌,
}
use ai_multimodal_platform.Prelude.Result.{Result, ok, err, ◌>>=◌}

pub data OutboxEventStatus : Type 0 where
  pending published failed : OutboxEventStatus

pub record LastError : Type 0 where
  pub code : String
  pub message : Option String
  pub retryable : Bool

-- `payload`: the text of its job_id and its reason, if it is a text.
pub record Payload : Type 0 where
  pub job_id : Option String
  pub reason : Option String

pub record OutboxEvent : Type 0 where
  pub id : ℕ
  pub event_type : String
  pub aggregate_type : String
  pub aggregate_id : ℕ
  pub payload : Payload
  pub status : OutboxEventStatus
  pub attempts : ℕ
  pub last_error : Option LastError
  pub published_at : Option ℕ
  pub created_at : ℕ
  pub updated_at : ℕ

abbrev pub job_dispatch_requested : String
job_dispatch_requested = "job.dispatch_requested"

abbrev pub is_pending : OutboxEventStatus → Bool
is_pending pending = true
is_pending published = false
is_pending failed = false

abbrev pub is_published : OutboxEventStatus → Bool
is_published pending = false
is_published published = true
is_published failed = false

-- The new row of `add_job_dispatch_event`; `id` is the `uuid4()` and `shown` is `str(job_id)`.
unfoldable pub add_job_dispatch_event :
    ℕ → ℕ → ℕ → String → String → List OutboxEvent → List OutboxEvent
add_job_dispatch_event now id job_id shown reason events =
    events
    ++ record {
      id = id;
      event_type = job_dispatch_requested;
      aggregate_type = "job";
      aggregate_id = job_id;
      payload = record { job_id = some shown; reason = some reason };
      status = pending;
      attempts = 0;
      last_error = none;
      published_at = none;
      created_at = now;
      updated_at = now;
    }
      ∷ []

-- A DispatchResult's error and code, or the exception that the dispatcher raised: its class and text.
pub data Answer : Type 0 where
  returned : Option String → Option String → Answer
  raised : String → String → Answer

pub record Dispatch : Type 0 where
  pub started : ℕ
  pub finished : ℕ
  pub answer : ℕ → String → Answer

pub record OutboxEventDispatchResult : Type 0 where
  pub event_id : ℕ
  pub job_id : Option ℕ
  pub reason : Option String
  pub published : Bool
  pub status : OutboxEventStatus
  pub error_code : Option String
  pub error : Option String

pub record OutboxBatchResult : Type 0 where
  pub selected : ℕ
  pub published : ℕ
  pub failed : ℕ
  pub pending : ℕ
  pub event_results : List OutboxEventDispatchResult

-- `text or default`, where None and the empty text are false.
abbrev pub or_text : Option String → String → String
or_text none default = default
or_text (some t) default = if str_eq t "" then default else t

abbrev pub result_from_event :
    OutboxEvent → Option ℕ → Option String → Option String → OutboxEventDispatchResult
result_from_event e job_id reason error_code = record {
  event_id = e.id;
  job_id = job_id;
  reason = reason;
  published = is_published e.status;
  status = e.status;
  error_code = error_code;
  error = elim e.last_error [ none ↦ none | some l ↦ some (or_text l.message "") ];
}

-- `_record_dispatch_failure`
abbrev pub record_dispatch_failure : ℕ → ℕ → String → String → OutboxEvent → OutboxEvent
record_dispatch_failure now max_attempts code message e = record e {
  status = if ltb e.attempts max_attempts then e.status else failed;
  last_error =
      some
        (record { code = code; message = some message; retryable = ltb e.attempts max_attempts });
  updated_at = now;
}

-- `_mark_failed`
abbrev pub mark_failed : ℕ → ℕ → String → String → Bool → OutboxEvent → OutboxEvent
mark_failed now max_attempts code message retryable e = record e {
  status = if leb max_attempts e.attempts || not retryable then failed else e.status;
  last_error = some (record { code = code; message = some message; retryable = retryable });
  updated_at = now;
}

-- The two writes at the start of `_dispatch_event`.
abbrev pub begun : ℕ → OutboxEvent → OutboxEvent
begun now e = record e { attempts = e.attempts + 1; updated_at = now }

abbrev pub marked_published : ℕ → OutboxEvent → OutboxEvent
marked_published now e = record e {
  status = published;
  published_at = some now;
  last_error = none;
  updated_at = now;
}

-- `pending_job_dispatch_events_statement`: ORDER BY created_at, id LIMIT limit, less the locked rows.
abbrev pub event_before : OutboxEvent → OutboxEvent → Bool
event_before a b = ltb a.created_at b.created_at || (a.created_at == b.created_at && leb a.id b.id)

abbrev pub pending_job_dispatch_events : (ℕ → Bool) → ℕ → List OutboxEvent → List OutboxEvent
pending_job_dispatch_events locked limit events = take limit (
    filter (λ e. not (locked e.id))
      (sort_by event_before
        (filter (λ e. str_eq e.event_type job_dispatch_requested && is_pending e.status) events)))

-- The commit writes each dispatched row under its id.
abbrev pub write_event : OutboxEvent → List OutboxEvent → List OutboxEvent
write_event e events = map (λ o. if o.id == e.id then e else o) events

abbrev pub write_events : List OutboxEvent → List OutboxEvent → List OutboxEvent
write_events [] events = events
write_events (e ∷ es) events = write_events es (write_event e events)

abbrev pub count_if {ℓ} : {A : Type ℓ} → (A → Bool) → List A → ℕ
count_if p xs = length (filter p xs)

abbrev pub has_error : OutboxEventDispatchResult → Bool
has_error r = elim r.error_code [ none ↦ false | some c ↦ true ]

abbrev pub batch_result : List OutboxEventDispatchResult × List OutboxEvent → OutboxBatchResult
batch_result (results, events) = record {
  selected = length events;
  published = count_if (λ r. r.published) results;
  failed = count_if has_error results;
  pending = count_if (λ e. is_pending e.status) events;
  event_results = results;
}

module _ (parse : String → Option ℕ) (re_sub : String → String → String → String)
    (strip : String → String) (strip_underscores : String → String) (lower : String → String) where
  -- `_snake_case` of enqueue.py, through which `exception_code` goes.
  abbrev pub snake_case : String → String
  snake_case value =
      let first_pass = re_sub "(.)([A-Z][a-z]+)" "\\1_\\2" value in
      let second_pass = re_sub "([a-z0-9])([A-Z])" "\\1_\\2" first_pass in
      lower (strip_underscores (re_sub "[^a-zA-Z0-9]+" "_" second_pass))

  -- `str(raw_job_id)` of a missing value is "None".
  abbrev pub shown_job_id : Payload → String
  shown_job_id p = elim p.job_id [ none ↦ "None" | some t ↦ t ]

  -- The message of the InvalidOutboxPayloadError; its code is "invalid_payload".
  unfoldable pub job_dispatch_payload : OutboxEvent → Result String (ℕ × String)
  job_dispatch_payload e = elim (parse (shown_job_id e.payload)) [
    | none ↦ err "Outbox event payload has invalid job_id."
    | some job_id ↦ elim e.payload.reason [
      | none ↦ err "Outbox event payload has invalid reason."
      | some reason ↦
          if str_eq (strip reason) ""
          then err "Outbox event payload has invalid reason."
          else ok (job_id, reason)
    ]
  ]

  -- What follows the dispatcher's answer.
  abbrev pub after_answer :
      ℕ → ℕ → OutboxEvent → ℕ → String → Answer → OutboxEventDispatchResult × OutboxEvent
  after_answer now max_attempts e job_id reason (raised class_name message) =
      let code = snake_case class_name in
      let e' =
        record_dispatch_failure now max_attempts code (or_text (some message) class_name) e in
      (result_from_event e' (some job_id) (some reason) (some code), e')
  after_answer now max_attempts e job_id reason (returned none error_code) =
      let e' = marked_published now e in (result_from_event e' (some job_id) (some reason) none, e')
  after_answer now max_attempts e job_id reason (returned (some error) error_code) =
      let code = or_text error_code (snake_case (or_text (some error) "dispatch_failed")) in
      let e' =
        record_dispatch_failure now max_attempts code (or_text (some error) "Dispatch failed.") e in
      (result_from_event e' (some job_id) (some reason) (some code), e')

  abbrev pub after_payload :
      Dispatch
      → ℕ
      → OutboxEvent
      → Result String (ℕ × String)
      → OutboxEventDispatchResult × OutboxEvent
  after_payload d max_attempts e (err message) =
      let e' = mark_failed d.finished max_attempts "invalid_payload" message false e in
      (result_from_event e' none none (some "invalid_payload"), e')
  after_payload d max_attempts e (ok (job_id, reason)) =
      after_answer d.finished max_attempts e job_id reason (d.answer job_id reason)

  -- `_dispatch_event`
  unfoldable pub dispatch_event :
      Dispatch → ℕ → OutboxEvent → OutboxEventDispatchResult × OutboxEvent
  dispatch_event d max_attempts e =
      after_payload d max_attempts (begun d.started e) (job_dispatch_payload (begun d.started e))

  -- The results of the batch and the dispatched rows.
  unfoldable pub dispatch_events :
      (ℕ → Dispatch) → ℕ → List OutboxEvent → List OutboxEventDispatchResult × List OutboxEvent
  dispatch_events world max_attempts [] = ([], [])
  dispatch_events world max_attempts (e ∷ es) =
      let (r, e') = dispatch_event (world e.id) max_attempts e in
      let (rs, es') = dispatch_events world max_attempts es in (r ∷ rs, e' ∷ es')

  unfoldable pub dispatch_pending_events :
      (ℕ → Bool) → (ℕ → Dispatch) → ℕ → ℕ → List OutboxEvent → OutboxBatchResult × List OutboxEvent
  dispatch_pending_events locked world limit max_attempts events =
      let selected = pending_job_dispatch_events locked (max 1 limit) events in
      let done = dispatch_events world (max 1 max_attempts) selected in
      (batch_result done, write_events done.1 events)
