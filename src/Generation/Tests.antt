-- ===== src/Generation/Tests.antt =====
-- Runs of an admission and of the end of a generation, on texts of ids that count letters.
use ai_multimodal_platform.Prelude.{
  ℕ, ◌+◌, ◌≡◌, ◌≢◌, refl, true, false, Option, none, some, List, [], ◌∷◌, String,
}
use ai_multimodal_platform.Prelude.Int.{◌+ℤ◌}
use ai_multimodal_platform.Prelude.Result.{Result, ok, err}
use ai_multimodal_platform.Credit.Policy.{plan_policy, quote_usage, cycle_bounds}
use ai_multimodal_platform.Credit.Tables.{
  Session, User, user, active, held, settled, latest_cycle, grants_of, events_of,
}
use ai_multimodal_platform.Credit.Lifecycle.{
  load, capacity, coherent, total_granted, total_gone, account_fits, cycle_fits, expire_grant,
  expire_grants, new_account, open_cycle,
}
use ai_multimodal_platform.Credit.Lifecycle.Ensure.{
  first_entry, known_entry, entry, roll, current_cycle, ensure, view, ensure_cycle,
}
use ai_multimodal_platform.Credit.Lifecycle.Commands.{valid_key}
use ai_multimodal_platform.Credit.Accounting.{
  units, check_estimates, estimates, check_lines, usage, sum_from, sum_amounts, sum_positive,
  items_of, allocations_of, records_of, held_of,
}
use ai_multimodal_platform.Credit.Accounting.Check.{
  add_deltas, update, add_events, grant_matches, check_grants, ledger_coherent, check_allocations,
  check_items, reservation_coherent,
}
use ai_multimodal_platform.Credit.Accounting.Reserve.{
  receipt, same_estimates, reservation_with_key, quotes, grant_before, allocate, post_allocation,
  post_allocations, item_rows, write_hold, hold_within, fresh_hold, replay_hold, reserve_or_replay,
  reserve,
}
use ai_multimodal_platform.Credit.Accounting.Terminal.{
  terminal_receipt, same_usage, same_terminal, replay_terminal, item_for, charge_of, charges,
  grant_with_id, write_close, close_allocation, close_allocations, record_rows, closed, close_hold,
  reservation_of, reservation_with_terminal_key, fresh_terminal, terminal_or_replay, terminal,
  settle, release,
}
use ai_multimodal_platform.Job.{
  Job, GenerationMode, t2i, i2v, pending, Asset, AssetKind, image, video, integer,
}
use ai_multimodal_platform.Generation.{
  Admitted, estimate, metadata, admission_estimates, admission_of, admit_generation,
}
use ai_multimodal_platform.Generation.Letters.{unary}
use ai_multimodal_platform.Generation.Metadata.{hold_of, ReadsBack, admit_generation-ReadsBack}
use ai_multimodal_platform.Generation.Terminal.{
  pipeline_child, Parsed, TerminalResult, result, unmanaged, reservation, assets_of, measured,
  measure, usage_of, parse_metadata, parse_value, parse, terminalize, terminalize_generation,
}
use ai_multimodal_platform.Generation.Terminal.Outcome.{
  Outcome, terminalize_generation-Outcome, generation_ends_once,
}

abbrev alice : User
alice = record { id = 1; role = user; status = active; signed_up_at = 1000 }

abbrev start : Session
start = record {
  in_transaction = true;
  uuid4 = λ n. 20 + n;
  users = alice ∷ [];
  accounts = [];
  cycles = [];
  grants = [];
  operations = [];
  reservations = [];
  items = [];
  allocations = [];
  usage_records = [];
  ledger_events = [];
}

abbrev new_job : ℕ → GenerationMode → String → Option ℕ → Job
new_job id mode model parent = record {
  id = id;
  owner_user_id = 1;
  mode = mode;
  model = model;
  state = pending;
  enhancement_id = none;
  parent_job_id = parent;
  retry_of_job_id = none;
  source_asset_id = none;
  blocked = false;
  vertex_operation_name = none;
  attempts = 0;
  parameters = ("aspect_ratio", ai_multimodal_platform.Job.other) ∷ [];
  state_history = [];
  error = none;
  vertex_charged = false;
  created_at = 100;
  updated_at = 100;
}

abbrev parent : Job
parent = new_job 7 t2i "imagen-4.0-fast-generate-001" none

abbrev child : Job
child = new_job 8 i2v "veo-3.0-fast-generate-001" (some 7)

abbrev or_else : {E A : Type 0} → A → Result E A → A
or_else a (ok b) = b
or_else a (err e) = a

abbrev nothing_admitted : Admitted
nothing_admitted = record {
  receipt = record { reservation_id = 0; reserved_microcredits = 0; replayed = true };
  job = parent;
  pipeline_child = none;
  session = start;
}

abbrev admission : Admitted
admission = or_else nothing_admitted (admit_generation unary parent (some child) 2000 start)

admission-eq : admit_generation unary parent (some child) 2000 start ≡ ok admission
unfolding ◌+ℤ◌ valid_key plan_policy quote_usage cycle_bounds latest_cycle grants_of events_of load
    capacity coherent total_granted total_gone account_fits cycle_fits expire_grant expire_grants
    new_account open_cycle first_entry known_entry entry roll current_cycle ensure view ensure_cycle
    add_deltas update add_events grant_matches check_grants ledger_coherent check_allocations
    check_items reservation_coherent units check_estimates estimates sum_from sum_amounts
    sum_positive items_of allocations_of records_of held_of receipt same_estimates
    reservation_with_key quotes grant_before allocate post_allocation post_allocations item_rows
    write_hold hold_within fresh_hold replay_hold reserve_or_replay reserve terminal_receipt
    same_usage same_terminal replay_terminal item_for charge_of charges grant_with_id write_close
    close_allocation close_allocations record_rows closed close_hold reservation_of
    reservation_with_terminal_key fresh_terminal terminal_or_replay terminal check_lines usage
    settle release estimate metadata admission_estimates admission_of admit_generation assets_of
    measured measure usage_of parse_metadata parse_value parse terminalize terminalize_generation
admission-eq = refl

admit_generation-ReadsBack_example : ReadsBack unary parent (some child) admission
admit_generation-ReadsBack_example =
    admit_generation-ReadsBack unary parent (some child) 2000 start admission admission-eq

-- The parent delivers an image, and the child fails.
abbrev new_asset : ℕ → AssetKind → Asset
new_asset job kind = record {
  id = 30;
  job_id = job;
  kind = kind;
  local_path = "image.png";
  mime = "image/png";
  size_bytes = 10;
  duration_sec = none;
  created_at = 300;
}

abbrev jobs : List Job
jobs = admission.job ∷ []

abbrev second : Job
second = elim admission.pipeline_child [ none ↦ child | some c ↦ c ]

abbrev assets : List Asset
assets = new_asset 7 image ∷ []

abbrev unfinished : TerminalResult × Session
unfinished = (result unmanaged, start)

abbrev first_half : TerminalResult × Session
first_half =
    or_else unfinished
      (terminalize_generation unary jobs assets admission.job true none 3000 admission.session)

first_half-eq :
    terminalize_generation unary jobs assets admission.job true none 3000 admission.session
    ≡ ok first_half
unfolding ◌+ℤ◌ valid_key plan_policy quote_usage cycle_bounds latest_cycle grants_of events_of load
    capacity coherent total_granted total_gone account_fits cycle_fits expire_grant expire_grants
    new_account open_cycle first_entry known_entry entry roll current_cycle ensure view ensure_cycle
    add_deltas update add_events grant_matches check_grants ledger_coherent check_allocations
    check_items reservation_coherent units check_estimates estimates sum_from sum_amounts
    sum_positive items_of allocations_of records_of held_of receipt same_estimates
    reservation_with_key quotes grant_before allocate post_allocation post_allocations item_rows
    write_hold hold_within fresh_hold replay_hold reserve_or_replay reserve terminal_receipt
    same_usage same_terminal replay_terminal item_for charge_of charges grant_with_id write_close
    close_allocation close_allocations record_rows closed close_hold reservation_of
    reservation_with_terminal_key fresh_terminal terminal_or_replay terminal check_lines usage
    settle release estimate metadata admission_estimates admission_of admit_generation assets_of
    measured measure usage_of parse_metadata parse_value parse terminalize terminalize_generation
first_half-eq = refl

first_half-held : first_half.0.status ≡ reservation held
unfolding ◌+ℤ◌ valid_key plan_policy quote_usage cycle_bounds latest_cycle grants_of events_of load
    capacity coherent total_granted total_gone account_fits cycle_fits expire_grant expire_grants
    new_account open_cycle first_entry known_entry entry roll current_cycle ensure view ensure_cycle
    add_deltas update add_events grant_matches check_grants ledger_coherent check_allocations
    check_items reservation_coherent units check_estimates estimates sum_from sum_amounts
    sum_positive items_of allocations_of records_of held_of receipt same_estimates
    reservation_with_key quotes grant_before allocate post_allocation post_allocations item_rows
    write_hold hold_within fresh_hold replay_hold reserve_or_replay reserve terminal_receipt
    same_usage same_terminal replay_terminal item_for charge_of charges grant_with_id write_close
    close_allocation close_allocations record_rows closed close_hold reservation_of
    reservation_with_terminal_key fresh_terminal terminal_or_replay terminal check_lines usage
    settle release estimate metadata admission_estimates admission_of admit_generation assets_of
    measured measure usage_of parse_metadata parse_value parse terminalize terminalize_generation
first_half-held = refl

abbrev both : List Job
both = admission.job ∷ second ∷ []

abbrev failing : TerminalResult × Session
failing = or_else unfinished (
    terminalize_generation unary both assets second false (some "provider_failed") 4000
      first_half.1)

failing-eq :
    terminalize_generation unary both assets second false (some "provider_failed") 4000 first_half.1
    ≡ ok failing
unfolding ◌+ℤ◌ valid_key plan_policy quote_usage cycle_bounds latest_cycle grants_of events_of load
    capacity coherent total_granted total_gone account_fits cycle_fits expire_grant expire_grants
    new_account open_cycle first_entry known_entry entry roll current_cycle ensure view ensure_cycle
    add_deltas update add_events grant_matches check_grants ledger_coherent check_allocations
    check_items reservation_coherent units check_estimates estimates sum_from sum_amounts
    sum_positive items_of allocations_of records_of held_of receipt same_estimates
    reservation_with_key quotes grant_before allocate post_allocation post_allocations item_rows
    write_hold hold_within fresh_hold replay_hold reserve_or_replay reserve terminal_receipt
    same_usage same_terminal replay_terminal item_for charge_of charges grant_with_id write_close
    close_allocation close_allocations record_rows closed close_hold reservation_of
    reservation_with_terminal_key fresh_terminal terminal_or_replay terminal check_lines usage
    settle release estimate metadata admission_estimates admission_of admit_generation assets_of
    measured measure usage_of parse_metadata parse_value parse terminalize terminalize_generation
failing-eq = refl

-- Only the image is charged.
failing-charged : failing.0.consumed_microcredits ≡ 50_000_000
unfolding ◌+ℤ◌ valid_key plan_policy quote_usage cycle_bounds latest_cycle grants_of events_of load
    capacity coherent total_granted total_gone account_fits cycle_fits expire_grant expire_grants
    new_account open_cycle first_entry known_entry entry roll current_cycle ensure view ensure_cycle
    add_deltas update add_events grant_matches check_grants ledger_coherent check_allocations
    check_items reservation_coherent units check_estimates estimates sum_from sum_amounts
    sum_positive items_of allocations_of records_of held_of receipt same_estimates
    reservation_with_key quotes grant_before allocate post_allocation post_allocations item_rows
    write_hold hold_within fresh_hold replay_hold reserve_or_replay reserve terminal_receipt
    same_usage same_terminal replay_terminal item_for charge_of charges grant_with_id write_close
    close_allocation close_allocations record_rows closed close_hold reservation_of
    reservation_with_terminal_key fresh_terminal terminal_or_replay terminal check_lines usage
    settle release estimate metadata admission_estimates admission_of admit_generation assets_of
    measured measure usage_of parse_metadata parse_value parse terminalize terminalize_generation
failing-charged = refl

failing-settled : failing.0.status ≡ reservation settled
unfolding ◌+ℤ◌ valid_key plan_policy quote_usage cycle_bounds latest_cycle grants_of events_of load
    capacity coherent total_granted total_gone account_fits cycle_fits expire_grant expire_grants
    new_account open_cycle first_entry known_entry entry roll current_cycle ensure view ensure_cycle
    add_deltas update add_events grant_matches check_grants ledger_coherent check_allocations
    check_items reservation_coherent units check_estimates estimates sum_from sum_amounts
    sum_positive items_of allocations_of records_of held_of receipt same_estimates
    reservation_with_key quotes grant_before allocate post_allocation post_allocations item_rows
    write_hold hold_within fresh_hold replay_hold reserve_or_replay reserve terminal_receipt
    same_usage same_terminal replay_terminal item_for charge_of charges grant_with_id write_close
    close_allocation close_allocations record_rows closed close_hold reservation_of
    reservation_with_terminal_key fresh_terminal terminal_or_replay terminal check_lines usage
    settle release estimate metadata admission_estimates admission_of admit_generation assets_of
    measured measure usage_of parse_metadata parse_value parse terminalize terminalize_generation
failing-settled = refl

failing-new : failing.0.replayed ≡ false
unfolding ◌+ℤ◌ valid_key plan_policy quote_usage cycle_bounds latest_cycle grants_of events_of load
    capacity coherent total_granted total_gone account_fits cycle_fits expire_grant expire_grants
    new_account open_cycle first_entry known_entry entry roll current_cycle ensure view ensure_cycle
    add_deltas update add_events grant_matches check_grants ledger_coherent check_allocations
    check_items reservation_coherent units check_estimates estimates sum_from sum_amounts
    sum_positive items_of allocations_of records_of held_of receipt same_estimates
    reservation_with_key quotes grant_before allocate post_allocation post_allocations item_rows
    write_hold hold_within fresh_hold replay_hold reserve_or_replay reserve terminal_receipt
    same_usage same_terminal replay_terminal item_for charge_of charges grant_with_id write_close
    close_allocation close_allocations record_rows closed close_hold reservation_of
    reservation_with_terminal_key fresh_terminal terminal_or_replay terminal check_lines usage
    settle release estimate metadata admission_estimates admission_of admit_generation assets_of
    measured measure usage_of parse_metadata parse_value parse terminalize terminalize_generation
failing-new = refl

terminalize_generation-Outcome_example :
    Outcome unary both assets second false 4000 first_half.1 failing
terminalize_generation-Outcome_example =
    terminalize_generation-Outcome unary both assets second false (some "provider_failed") 4000
      first_half.1 failing failing-eq

abbrev repeated : TerminalResult × Session
repeated =
    or_else unfinished (
      terminalize_generation unary both assets second false (some "provider_timeout") 5000
        failing.1)

repeated-eq :
    terminalize_generation unary both assets second false (some "provider_timeout") 5000 failing.1
    ≡ ok repeated
unfolding ◌+ℤ◌ valid_key plan_policy quote_usage cycle_bounds latest_cycle grants_of events_of load
    capacity coherent total_granted total_gone account_fits cycle_fits expire_grant expire_grants
    new_account open_cycle first_entry known_entry entry roll current_cycle ensure view ensure_cycle
    add_deltas update add_events grant_matches check_grants ledger_coherent check_allocations
    check_items reservation_coherent units check_estimates estimates sum_from sum_amounts
    sum_positive items_of allocations_of records_of held_of receipt same_estimates
    reservation_with_key quotes grant_before allocate post_allocation post_allocations item_rows
    write_hold hold_within fresh_hold replay_hold reserve_or_replay reserve terminal_receipt
    same_usage same_terminal replay_terminal item_for charge_of charges grant_with_id write_close
    close_allocation close_allocations record_rows closed close_hold reservation_of
    reservation_with_terminal_key fresh_terminal terminal_or_replay terminal check_lines usage
    settle release estimate metadata admission_estimates admission_of admit_generation assets_of
    measured measure usage_of parse_metadata parse_value parse terminalize terminalize_generation
repeated-eq = refl

abbrev hold : Parsed
hold = hold_of unary pipeline_child admission.receipt.reservation_id 7 (some 7) (some 8)

second-parse : parse unary second ≡ ok (some hold)
unfolding ◌+ℤ◌ valid_key plan_policy quote_usage cycle_bounds latest_cycle grants_of events_of load
    capacity coherent total_granted total_gone account_fits cycle_fits expire_grant expire_grants
    new_account open_cycle first_entry known_entry entry roll current_cycle ensure view ensure_cycle
    add_deltas update add_events grant_matches check_grants ledger_coherent check_allocations
    check_items reservation_coherent units check_estimates estimates sum_from sum_amounts
    sum_positive items_of allocations_of records_of held_of receipt same_estimates
    reservation_with_key quotes grant_before allocate post_allocation post_allocations item_rows
    write_hold hold_within fresh_hold replay_hold reserve_or_replay reserve terminal_receipt
    same_usage same_terminal replay_terminal item_for charge_of charges grant_with_id write_close
    close_allocation close_allocations record_rows closed close_hold reservation_of
    reservation_with_terminal_key fresh_terminal terminal_or_replay terminal check_lines usage
    settle release estimate metadata admission_estimates admission_of admit_generation assets_of
    measured measure usage_of parse_metadata parse_value parse terminalize terminalize_generation
second-parse = refl

not_held : failing.0.status ≢ reservation held
not_held h = cc (failing-settled, h)

generation_ends_once_example : repeated.1 ≡ failing.1
generation_ends_once_example =
    generation_ends_once unary both both assets assets second second hold hold false false
      (some "provider_failed") (some "provider_timeout") 4000 5000 first_half.1 failing repeated
      second-parse second-parse refl refl failing-eq not_held failing-new repeated-eq
