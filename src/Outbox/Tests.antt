-- ===== src/Outbox/Tests.antt =====
-- A run and the instances of the outbox theorems: one event is published, one has a bad payload.
use ai_multimodal_platform.Prelude.{
  ℕ, ◌+◌, ◌≤◌, ◌≡◌, refl, String, false, Option, none, some, List, [], length, max, str_eq,
  if◌then◌else◌,
}
use ai_multimodal_platform.Outbox.{
  OutboxEvent, Dispatch, returned, pending, add_job_dispatch_event, dispatch_event, dispatch_events,
  dispatch_pending_events, job_dispatch_payload,
}
use ai_multimodal_platform.Outbox.Batch.{IsDispatched, dispatch_event-IsDispatched, batch_counts}

abbrev parse : String → Option ℕ
parse s = if str_eq s "7" then some 7 else none

abbrev re_sub : String → String → String → String
re_sub pattern replacement value = value

abbrev same : String → String
same s = s

abbrev events : List OutboxEvent
events =
    add_job_dispatch_event 2 12 8 "eight" "created" (add_job_dispatch_event 1 11 7 "7" "created" [])

abbrev world : ℕ → Dispatch
world id = record { started = 20; finished = 30; answer = λ job_id reason. returned none none }

abbrev first : OutboxEvent
first = record {
  id = 11;
  event_type = "job.dispatch_requested";
  aggregate_type = "job";
  aggregate_id = 7;
  payload = record { job_id = some "7"; reason = some "created" };
  status = pending;
  attempts = 3;
  last_error = none;
  published_at = none;
  created_at = 1;
  updated_at = 1;
}

batch_run :
    length
      (dispatch_pending_events parse re_sub same same same
        (λ id. false)
        world
        5
        10
        events).0.event_results
    ≡ 2
unfolding dispatch_pending_events dispatch_events dispatch_event job_dispatch_payload
    add_job_dispatch_event
batch_run = refl

dispatch_event-IsDispatched_example :
    IsDispatched parse re_sub same same same 10 first
      (dispatch_event parse re_sub same same same (world 11) 10 first)
dispatch_event-IsDispatched_example =
    dispatch_event-IsDispatched parse re_sub same same same (world 11) 10 first refl

batch_counts_example :
    (let r =
        (dispatch_pending_events parse re_sub same same same (λ id. false) world 5 10 events).0 in
      (r.published + r.failed ≡ r.selected)
      × (r.pending ≤ r.failed)
      × (length r.event_results ≡ r.selected)
      × (r.selected ≤ max 1 5))
batch_counts_example = batch_counts parse re_sub same same same (λ id. false) world 5 10 events
