-- ===== src/Prompt/Tests.antt =====
-- A prompt that is enhanced for a new user, asked for again, and refused by the provider; and the
-- instances of the theorems.
use ai_multimodal_platform.Prelude.{◌+◌, ◌≡◌, refl, false, none, some, [], ◌∷◌}
use ai_multimodal_platform.Prelude.Int.{pos, ◌+ℤ◌}
use ai_multimodal_platform.Prelude.Result.{ok}
use ai_multimodal_platform.Credit.Policy.{plan_policy, quote_usage, cycle_bounds}
use ai_multimodal_platform.Credit.Tables.{latest_cycle, Session, user, active, grants_of, events_of}
use ai_multimodal_platform.Credit.Lifecycle.{
  load, capacity, coherent, total_granted, total_gone, account_fits, cycle_fits, expire_grant,
  expire_grants, new_account, open_cycle,
}
use ai_multimodal_platform.Credit.Lifecycle.Ensure.{
  first_entry, known_entry, entry, roll, current_cycle, ensure, view, ensure_cycle,
}
use ai_multimodal_platform.Credit.Lifecycle.Commands.{valid_key}
use ai_multimodal_platform.Credit.Accounting.{
  units, check_estimates, estimates, sum_from, sum_amounts, sum_positive, items_of, allocations_of,
  records_of, held_of,
}
use ai_multimodal_platform.Credit.Accounting.Check.{
  add_deltas, update, add_events, grant_matches, check_grants, ledger_coherent, check_allocations,
  check_items, reservation_coherent,
}
use ai_multimodal_platform.Credit.Accounting.Reserve.{
  receipt, same_estimates, reservation_with_key, quotes, grant_before, allocate, post_allocation,
  post_allocations, item_rows, write_hold, hold_within, fresh_hold, replay_hold, reserve_or_replay,
  reserve,
}
use ai_multimodal_platform.Credit.Accounting.Terminal.{
  terminal_receipt, same_usage, same_terminal, replay_terminal, item_for, charge_of, charges,
  grant_with_id, write_close, close_allocation, close_allocations, record_rows, closed, close_hold,
  reservation_of, reservation_with_terminal_key, fresh_terminal, terminal_or_replay, terminal,
}
use ai_multimodal_platform.Credit.Accounting.{check_lines, usage}
use ai_multimodal_platform.Credit.Accounting.Terminal.{settle, release}
use ai_multimodal_platform.Job.{t2i}
use ai_multimodal_platform.Generation.Letters.{unary}
use ai_multimodal_platform.Prompt.{
  PromptEnhanceRequest, PromptEnhancementPlan, PromptEnhancementResult, answered, refused, Store,
  balanced,
}
use ai_multimodal_platform.Prompt.Execute.{
  Times, put_component, record_of, outcome_of, release_hold, hold_credits, enter, store_result,
  finish, execute_prompt_enhancement,
}
use ai_multimodal_platform.Prompt.Outcome.{CallEnds, execute_prompt_enhancement-CallEnds}
use ai_multimodal_platform.Prompt.Repeat.{Answers, repeated, execute_prompt_enhancement-repeated}

abbrev start : Session
start = record {
  in_transaction = false;
  uuid4 = λ n. 100 + n;
  users = record { id = 1; role = user; status = active; signed_up_at = 1000 } ∷ [];
  accounts = [];
  cycles = [];
  grants = [];
  operations = [];
  reservations = [];
  items = [];
  allocations = [];
  usage_records = [];
  ledger_events = [];
}

abbrev empty : Store
empty = record { enhancements = []; credit = start }

abbrev request : PromptEnhanceRequest
request = record {
  request_id = 3;
  prompt = "a cat";
  target_mode = t2i;
  target_model = "imagen-4.0-fast-generate-001";
  creativity_preset = balanced;
}

abbrev plan : PromptEnhancementPlan
plan = record { maximum_input_tokens = pos 200; maximum_output_tokens = pos 500 }

abbrev result : PromptEnhancementResult
result = record {
  original = "a cat";
  enhanced = "a cat in the rain";
  components = [];
  target_mode = t2i;
  target_model = "imagen-4.0-fast-generate-001";
  llm_model = "gemini-2.5-flash";
  latency_ms = 10;
  tokens_in = some (pos 100);
  tokens_out = some (pos 300);
  usage_source = "provider_reported";
  creativity_preset = balanced;
  temperature = 5;
}

abbrev times : Times
times = record { reserved_at = 2000; terminal_at = 3000; released_at = 4000 }

abbrev same : Store → Store
same store = store

-- The first call stores the enhancement, and the next one returns it.
first_call :
    (execute_prompt_enhancement unary 1 request plan times (answered result) same empty).1
    ≡ ok (outcome_of 1 request result)
unfolding ◌+ℤ◌ valid_key plan_policy quote_usage cycle_bounds latest_cycle grants_of events_of load
    capacity coherent total_granted total_gone account_fits cycle_fits expire_grant expire_grants
    new_account open_cycle first_entry known_entry entry roll current_cycle ensure view ensure_cycle
    add_deltas update add_events grant_matches check_grants ledger_coherent check_allocations
    check_items reservation_coherent units check_estimates estimates sum_from sum_amounts
    sum_positive items_of allocations_of records_of held_of receipt same_estimates
    reservation_with_key quotes grant_before allocate post_allocation post_allocations item_rows
    write_hold hold_within fresh_hold replay_hold reserve_or_replay reserve terminal_receipt
    same_usage same_terminal replay_terminal item_for charge_of charges grant_with_id write_close
    close_allocation close_allocations record_rows closed close_hold reservation_of
    reservation_with_terminal_key fresh_terminal terminal_or_replay terminal check_lines usage
    settle release put_component release_hold hold_credits enter store_result finish
    execute_prompt_enhancement
first_call = refl

execute_prompt_enhancement-CallEnds_example :
    CallEnds unary 1 request times
      (answered result)
      same
      empty
      (execute_prompt_enhancement unary 1 request plan times (answered result) same empty)
execute_prompt_enhancement-CallEnds_example =
    execute_prompt_enhancement-CallEnds unary 1 request plan times (answered result) same empty

abbrev stored : Store
stored = record { enhancements = record_of 1 request result ∷ []; credit = start }

result-Answers : Answers request result
result-Answers = record {
  original = refl;
  target_mode = refl;
  target_model = refl;
  creativity_preset = refl;
}

execute_prompt_enhancement-repeated_example :
    execute_prompt_enhancement unary 1 request plan times
      (refused "vertex_rate_limited" none)
      same
      stored
    ≡ (stored, ok (repeated 1 request result))
execute_prompt_enhancement-repeated_example =
    execute_prompt_enhancement-repeated unary 1 request result stored result-Answers refl plan times
      (refused "vertex_rate_limited" none) same
