-- ===== src/Outbox/Batch.antt =====
-- The outcomes of `_dispatch_event` and of a batch of
-- backend/app/services/jobs/outbox_dispatcher.py.
use ai_multimodal_platform.Prelude.{
  ℕ, ◌+◌, ◌≤◌, ◌<◌, ◌≡◌, refl, String, Bool, true, Option, none, some, List, [], ◌∷◌, max, length,
  filter, length-take, All-map, All-take, filter-All, sort_by-All, filter_holds, All, arith, not,
  ◌&&◌, sort_by, str_eq,
}
use ai_multimodal_platform.Prelude.Result.{Result, ok, err}
use ai_multimodal_platform.Outbox.{
  OutboxEvent, OutboxEventDispatchResult, Dispatch, Answer, returned, raised, is_pending, begun,
  after_answer, after_payload, dispatch_event, dispatch_events, dispatch_pending_events,
  pending_job_dispatch_events, has_error, count_if, job_dispatch_requested, event_before,
  job_dispatch_payload,
}

module _ (parse : String → Option ℕ) (re_sub : String → String → String → String)
    (strip : String → String) (strip_underscores : String → String) (lower : String → String) where
  -- What one dispatch of a pending event leaves: it counts the attempt, it is either published or
  -- reports an error, and it is pending again only while attempts are left.
  pub record IsDispatched (max_attempts : ℕ) (e : OutboxEvent)
      (out : OutboxEventDispatchResult × OutboxEvent) : Type 0 where
    pub same_id : out.1.id ≡ e.id
    pub counted : out.1.attempts ≡ e.attempts + 1
    pub told : out.0.published ≡ not (has_error out.0)
    pub left :
        is_pending out.1.status ≡ true → (has_error out.0 ≡ true) × (out.1.attempts < max_attempts)

  after_answer-IsDispatched :
      (now max_attempts started : ℕ) (e : OutboxEvent) (job_id : ℕ) (reason : String) (a : Answer)
      → is_pending e.status ≡ true
      → IsDispatched max_attempts e (
          after_answer parse re_sub strip strip_underscores lower now max_attempts
            (begun started e)
            job_id
            reason
            a)
  after_answer-IsDispatched now max_attempts started e job_id reason (raised c m) h = record {
    same_id = refl;
    counted = refl;
    told = ground arith;
    left = ground arith;
  }
  after_answer-IsDispatched now max_attempts started e job_id reason (returned none c) h = record {
    same_id = refl;
    counted = refl;
    told = ground arith;
    left = ground arith;
  }
  after_answer-IsDispatched now max_attempts started e job_id reason (returned (some m) c) h =
      record { same_id = refl; counted = refl; told = ground arith; left = ground arith }

  -- The dispatch of an event that is pending: whatever its payload and whatever the dispatcher
  -- answers, it counts the attempt, the event is published exactly if no error is reported, and it
  -- is pending again only with an error and with an attempt left.
  pub dispatch_event-IsDispatched :
      (d : Dispatch) (max_attempts : ℕ) (e : OutboxEvent)
      → is_pending e.status ≡ true
      → IsDispatched max_attempts e
          (dispatch_event parse re_sub strip strip_underscores lower d max_attempts e)
  unfolding dispatch_event
  dispatch_event-IsDispatched d max_attempts e h =
      go (job_dispatch_payload parse re_sub strip strip_underscores lower (begun d.started e))
    where
      go :
          (p : Result String (ℕ × String))
          → IsDispatched max_attempts e (
              after_payload parse re_sub strip strip_underscores lower d max_attempts
                (begun d.started e)
                p)
      go (err message) = record {
        same_id = refl;
        counted = refl;
        told = ground arith;
        left = ground arith;
      }
      go (ok (job_id, reason)) =
          after_answer-IsDispatched d.finished max_attempts d.started e job_id reason
            (d.answer job_id reason) h

  -- The counts of a batch of pending events.
  dispatch_events-counts :
      (world : ℕ → Dispatch) (max_attempts : ℕ) (es : List OutboxEvent)
      → All (λ e. is_pending e.status ≡ true) es
      → (let out =
            dispatch_events parse re_sub strip strip_underscores lower world max_attempts es in
          (count_if (λ r. r.published) out.0 + count_if has_error out.0 ≡ length es)
          × (count_if (λ e. is_pending e.status) out.1 ≤ count_if has_error out.0)
          × (length out.0 ≡ length es)
          × (length out.1 ≡ length es))
  unfolding dispatch_events
  dispatch_events-counts world max_attempts [] h = (refl, omega arith, refl, refl)
  dispatch_events-counts world max_attempts (e ∷ es) h =
      let here = dispatch_event-IsDispatched (world e.id) max_attempts e h.0 in
      let (added, kept, results, rows) = dispatch_events-counts world max_attempts es h.1 in
      let told = here.told in
      let left = here.left in (ground arith, ground arith, ground arith, ground arith)

  -- Only pending requests are selected.
  selected_pending :
      (locked : ℕ → Bool) (limit : ℕ) (events : List OutboxEvent)
      → All (λ e. is_pending e.status ≡ true) (pending_job_dispatch_events locked limit events)
  selected_pending locked limit events =
      let asked : OutboxEvent → Bool =
        λ e. str_eq e.event_type job_dispatch_requested && is_pending e.status in
      let IsLive = λ (e : OutboxEvent). is_pending e.status ≡ true in
      let found =
        All-map (λ e. asked e ≡ true) IsLive (filter asked events) (λ e h. ground (arith, h))
          (filter_holds asked events) in
      let sorted = sort_by-All IsLive event_before (filter asked events) found in
      let unlocked =
        filter-All IsLive (λ e. not (locked e.id)) (sort_by event_before (filter asked events))
          sorted in
      All-take IsLive limit
        (filter (λ e. not (locked e.id)) (sort_by event_before (filter asked events))) unlocked

  -- A batch reports one result for each event it selected, and at most `limit` of them, or one if
  -- `limit` is 0; each is published or failed, and what is pending still is among the failed.
  pub batch_counts :
      (locked : ℕ → Bool) (world : ℕ → Dispatch) (limit max_attempts : ℕ)
      (events : List OutboxEvent)
      → (let r =
            (dispatch_pending_events parse re_sub strip strip_underscores lower locked world limit
              max_attempts events).0 in
          (r.published + r.failed ≡ r.selected)
          × (r.pending ≤ r.failed)
          × (length r.event_results ≡ r.selected)
          × (r.selected ≤ max 1 limit))
  unfolding dispatch_pending_events
  batch_counts locked world limit max_attempts events =
      let chosen = pending_job_dispatch_events locked (max 1 limit) events in
      let (added, kept, results, rows) =
        dispatch_events-counts world (max 1 max_attempts) chosen
          (selected_pending locked (max 1 limit) events) in
      let bounded : length chosen ≤ max 1 limit = length-take (max 1 limit) _ in
      (omega arith, omega arith, omega arith, omega arith)
