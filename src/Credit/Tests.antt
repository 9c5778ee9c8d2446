-- ===== src/Credit/Tests.antt =====
-- A run of the credit system and the instances of its theorems: a user's first request holds
-- credits, is settled, and the settlement is repeated.
use ai_multimodal_platform.Prelude.{
  ℕ, ◌+◌, ◌-◌, ◌*◌, ◌≡◌, ◌≤◌, ◌<◌, ◌⊎◌, refl, true, false, none, List, [], ◌∷◌, All,
}
use ai_multimodal_platform.Prelude.Int.{pos, ◌+ℤ◌}
use ai_multimodal_platform.Prelude.Result.{Result, ok, err}
use ai_multimodal_platform.Credit.Code.{Code}
use ai_multimodal_platform.Credit.Policy.{
  plan_policy, quote_usage, cycle_bounds, CycleBounds, cycle_length, max_datetime,
  rate_card_version, gemini_input_token, gemini_output_token, imagen_fast_image, rate?, max_bigint,
}
use ai_multimodal_platform.Credit.Policy.Cycles.{cycle_bounds_hold}
use ai_multimodal_platform.Credit.Tables.{
  Session, User, user, active, CreditGrant, latest_cycle, grants_of, events_of,
}
use ai_multimodal_platform.Credit.Tables.Ledger.{IsBalanced}
use ai_multimodal_platform.Credit.Lifecycle.{
  load, capacity, coherent, total_granted, total_gone, account_fits, cycle_fits, expire_grant,
  expire_grants, new_account, open_cycle,
}
use ai_multimodal_platform.Credit.Lifecycle.Ensure.{
  first_entry, known_entry, entry, roll, current_cycle, ensure, view, ensure_cycle, CycleView,
}
use ai_multimodal_platform.Credit.Lifecycle.Commands.{valid_key}
use ai_multimodal_platform.Credit.Accounting.{
  RawEstimate, units, check_estimates, estimates, sum_from, sum_amounts, sum_positive, items_of,
  allocations_of, records_of, held_of,
}
use ai_multimodal_platform.Credit.Accounting.Check.{
  add_deltas, update, add_events, grant_matches, check_grants, ledger_coherent, check_allocations,
  check_items, reservation_coherent,
}
use ai_multimodal_platform.Credit.Accounting.Coherence.{ledger_coherent_sound, IsCovered}
use ai_multimodal_platform.Credit.Accounting.Reserve.{
  ReservationReceipt, receipt, same_estimates, reservation_with_key, quotes, grant_before, allocate,
  post_allocation, post_allocations, item_rows, write_hold, hold_within, fresh_hold, replay_hold,
  reserve_or_replay, reserve,
}
use ai_multimodal_platform.Credit.Accounting.Reserve.Allocation.{available_total, allocate-missing}
use ai_multimodal_platform.Credit.Accounting.Reserve.Outcome.{
  IsHold, IsAllowed, reserve-IsHold, reserve-IsAllowed,
}
use ai_multimodal_platform.Credit.Accounting.Terminal.{
  TerminalReceipt, Request, terminal_receipt, same_usage, same_terminal, replay_terminal, item_for,
  charge_of, charges, grant_with_id, write_close, close_allocation, close_allocations, record_rows,
  closed, close_hold, reservation_of, reservation_with_terminal_key, fresh_terminal,
  terminal_or_replay, terminal,
}
use ai_multimodal_platform.Credit.Accounting.Terminal.Outcome.{
  IsClosed, terminal-IsClosed, terminal_once,
}
use ai_multimodal_platform.Credit.Contract.{
  Step, view_of, reserve_call, perform, DrawsFresh, perform-Step,
}

abbrev alice : User
alice = record { id = 1; role = user; status = active; signed_up_at = 1000 }

-- Ids are drawn in order. The user has no account yet.
abbrev start : Session
start = record {
  in_transaction = true;
  uuid4 = λ n. 100 + n;
  users = alice ∷ [];
  accounts = [];
  cycles = [];
  grants = [];
  operations = [];
  reservations = [];
  items = [];
  allocations = [];
  usage_records = [];
  ledger_events = [];
}

abbrev request : List RawEstimate
request =
    record { meter = gemini_output_token; maximum_units = pos 500 }
    ∷ record { meter = gemini_input_token; maximum_units = pos 200 }
    ∷ []

-- The value of a call that returns one.
abbrev or_else : {A : Type 0} → A → Result Code A → A
or_else a (ok b) = b
or_else a (err e) = a

abbrev no_cycle : CycleView
no_cycle = record {
  user_id = 0;
  plan = ai_multimodal_platform.Credit.Policy.free;
  pending_plan = none;
  cycle_id = 0;
  cycle_index = 0;
  starts_at = 0;
  ends_at = 0;
  allowance_microcredits = 0;
  base_grant_id = 0;
}

abbrev opened : CycleView × Session
opened = or_else (no_cycle, start) (ensure_cycle 1 2000 start)

opened-eq : ensure_cycle 1 2000 start ≡ ok opened
unfolding plan_policy quote_usage cycle_bounds latest_cycle grants_of events_of load capacity
    coherent total_granted total_gone account_fits cycle_fits expire_grant expire_grants new_account
    open_cycle first_entry known_entry entry roll current_cycle ensure view ensure_cycle
opened-eq = refl

abbrev no_hold : ReservationReceipt
no_hold = record {
  reservation_id = 0;
  operation_key = "";
  status = ai_multimodal_platform.Credit.Tables.held;
  reserved_microcredits = 0;
  rate_card_version = "";
  replayed = true;
}

abbrev held_session : ReservationReceipt × Session
held_session = or_else (no_hold, start) (reserve 1 "req-1" request 2000 start)

held_session-eq : reserve 1 "req-1" request 2000 start ≡ ok held_session
unfolding ◌+ℤ◌ valid_key plan_policy quote_usage cycle_bounds latest_cycle grants_of events_of load
    capacity coherent total_granted total_gone account_fits cycle_fits expire_grant expire_grants
    new_account open_cycle first_entry known_entry entry roll current_cycle ensure view ensure_cycle
    add_deltas update add_events grant_matches check_grants ledger_coherent check_allocations
    check_items reservation_coherent units check_estimates estimates sum_from sum_amounts
    sum_positive items_of allocations_of records_of held_of receipt same_estimates
    reservation_with_key quotes grant_before allocate post_allocation post_allocations item_rows
    write_hold hold_within fresh_hold replay_hold reserve_or_replay reserve
held_session-eq = refl

held_session-fresh : held_session.0.replayed ≡ false
unfolding ◌+ℤ◌ valid_key plan_policy quote_usage cycle_bounds latest_cycle grants_of events_of load
    capacity coherent total_granted total_gone account_fits cycle_fits expire_grant expire_grants
    new_account open_cycle first_entry known_entry entry roll current_cycle ensure view ensure_cycle
    add_deltas update add_events grant_matches check_grants ledger_coherent check_allocations
    check_items reservation_coherent units check_estimates estimates sum_from sum_amounts
    sum_positive items_of allocations_of records_of held_of receipt same_estimates
    reservation_with_key quotes grant_before allocate post_allocation post_allocations item_rows
    write_hold hold_within fresh_hold replay_hold reserve_or_replay reserve
held_session-fresh = refl

reserve-IsHold_example :
    ((held_session.0.replayed ≡ true) × (held_session.1 ≡ start)) ⊎ IsHold 1 start held_session
reserve-IsHold_example = reserve-IsHold 1 "req-1" request 2000 start held_session held_session-eq

performed : perform (reserve_call 1 "req-1" request 2000) start ≡ ok held_session.1
unfolding perform
performed = rw held_session-eq refl

-- The user has no hold at the start, whatever id is drawn.
draws_fresh : DrawsFresh (reserve_call 1 "req-1" request 2000) start
unfolding reservation_of
draws_fresh out returned new = refl

perform-Step_example : Step (view_of 1 start) (view_of 1 held_session.1)
perform-Step_example =
    perform-Step (reserve_call 1 "req-1" request 2000) start held_session.1 draws_fresh performed

reserve-IsAllowed_example : IsAllowed 1 request held_session
reserve-IsAllowed_example =
    reserve-IsAllowed 1 "req-1" request 2000 start held_session held_session-eq held_session-fresh

coherent_after : ledger_coherent 1 (grants_of 1 held_session.1) held_session.1 ≡ ok tt
unfolding ◌+ℤ◌ valid_key plan_policy quote_usage cycle_bounds latest_cycle grants_of events_of load
    capacity coherent total_granted total_gone account_fits cycle_fits expire_grant expire_grants
    new_account open_cycle first_entry known_entry entry roll current_cycle ensure view ensure_cycle
    add_deltas update add_events grant_matches check_grants ledger_coherent check_allocations
    check_items reservation_coherent units check_estimates estimates sum_from sum_amounts
    sum_positive items_of allocations_of records_of held_of receipt same_estimates
    reservation_with_key quotes grant_before allocate post_allocation post_allocations item_rows
    write_hold hold_within fresh_hold replay_hold reserve_or_replay reserve
coherent_after = refl

ledger_coherent_sound_example :
    IsBalanced 1 held_session.1 × All (λ g. g.user_id ≡ 1 → IsCovered g) held_session.1.grants
ledger_coherent_sound_example = ledger_coherent_sound 1 held_session.1 coherent_after

abbrev settlement : Request
settlement = record {
  user_id = 1;
  reservation_id = held_session.0.reservation_id;
  lines =
      record { meter = gemini_output_token; actual_units = 120; source = "provider_reported" } ∷ [];
  delivery = "delivered";
  reason = "usage_settled";
  key = "settle-1";
  now = 3000;
  charge = true;
}

abbrev no_receipt : TerminalReceipt
no_receipt = record {
  reservation_id = 0;
  operation_key = none;
  status = ai_multimodal_platform.Credit.Tables.held;
  consumed_microcredits = 0;
  released_microcredits = 0;
  usage_line_count = 0;
  effective_at = 0;
  replayed = true;
}

abbrev settled_session : TerminalReceipt × Session
settled_session = or_else (no_receipt, held_session.1) (terminal settlement held_session.1)

settled_session-eq : terminal settlement held_session.1 ≡ ok settled_session
unfolding ◌+ℤ◌ valid_key plan_policy quote_usage cycle_bounds latest_cycle grants_of events_of load
    capacity coherent total_granted total_gone account_fits cycle_fits expire_grant expire_grants
    new_account open_cycle first_entry known_entry entry roll current_cycle ensure view ensure_cycle
    add_deltas update add_events grant_matches check_grants ledger_coherent check_allocations
    check_items reservation_coherent units check_estimates estimates sum_from sum_amounts
    sum_positive items_of allocations_of records_of held_of receipt same_estimates
    reservation_with_key quotes grant_before allocate post_allocation post_allocations item_rows
    write_hold hold_within fresh_hold replay_hold reserve_or_replay reserve terminal_receipt
    same_usage same_terminal replay_terminal item_for charge_of charges grant_with_id write_close
    close_allocation close_allocations record_rows closed close_hold reservation_of
    reservation_with_terminal_key fresh_terminal terminal_or_replay terminal
settled_session-eq = refl

settled_session-fresh : settled_session.0.replayed ≡ false
unfolding ◌+ℤ◌ valid_key plan_policy quote_usage cycle_bounds latest_cycle grants_of events_of load
    capacity coherent total_granted total_gone account_fits cycle_fits expire_grant expire_grants
    new_account open_cycle first_entry known_entry entry roll current_cycle ensure view ensure_cycle
    add_deltas update add_events grant_matches check_grants ledger_coherent check_allocations
    check_items reservation_coherent units check_estimates estimates sum_from sum_amounts
    sum_positive items_of allocations_of records_of held_of receipt same_estimates
    reservation_with_key quotes grant_before allocate post_allocation post_allocations item_rows
    write_hold hold_within fresh_hold replay_hold reserve_or_replay reserve terminal_receipt
    same_usage same_terminal replay_terminal item_for charge_of charges grant_with_id write_close
    close_allocation close_allocations record_rows closed close_hold reservation_of
    reservation_with_terminal_key fresh_terminal terminal_or_replay terminal
settled_session-fresh = refl

-- 120 output tokens at 4000 microcredits each, of 500 * 4000 + 200 * 1000 held.
settled_amount : settled_session.0.consumed_microcredits ≡ 480_000
unfolding ◌+ℤ◌ valid_key plan_policy quote_usage cycle_bounds latest_cycle grants_of events_of load
    capacity coherent total_granted total_gone account_fits cycle_fits expire_grant expire_grants
    new_account open_cycle first_entry known_entry entry roll current_cycle ensure view ensure_cycle
    add_deltas update add_events grant_matches check_grants ledger_coherent check_allocations
    check_items reservation_coherent units check_estimates estimates sum_from sum_amounts
    sum_positive items_of allocations_of records_of held_of receipt same_estimates
    reservation_with_key quotes grant_before allocate post_allocation post_allocations item_rows
    write_hold hold_within fresh_hold replay_hold reserve_or_replay reserve terminal_receipt
    same_usage same_terminal replay_terminal item_for charge_of charges grant_with_id write_close
    close_allocation close_allocations record_rows closed close_hold reservation_of
    reservation_with_terminal_key fresh_terminal terminal_or_replay terminal
settled_amount = refl

terminal-IsClosed_example :
    ((settled_session.0.replayed ≡ true) × (settled_session.1 ≡ held_session.1))
    ⊎ IsClosed settlement held_session.1 settled_session
terminal-IsClosed_example =
    terminal-IsClosed settlement held_session.1 settled_session settled_session-eq

abbrev repeated : TerminalReceipt × Session
repeated = or_else (no_receipt, settled_session.1) (terminal settlement settled_session.1)

repeated-eq : terminal settlement settled_session.1 ≡ ok repeated
unfolding ◌+ℤ◌ valid_key plan_policy quote_usage cycle_bounds latest_cycle grants_of events_of load
    capacity coherent total_granted total_gone account_fits cycle_fits expire_grant expire_grants
    new_account open_cycle first_entry known_entry entry roll current_cycle ensure view ensure_cycle
    add_deltas update add_events grant_matches check_grants ledger_coherent check_allocations
    check_items reservation_coherent units check_estimates estimates sum_from sum_amounts
    sum_positive items_of allocations_of records_of held_of receipt same_estimates
    reservation_with_key quotes grant_before allocate post_allocation post_allocations item_rows
    write_hold hold_within fresh_hold replay_hold reserve_or_replay reserve terminal_receipt
    same_usage same_terminal replay_terminal item_for charge_of charges grant_with_id write_close
    close_allocation close_allocations record_rows closed close_hold reservation_of
    reservation_with_terminal_key fresh_terminal terminal_or_replay terminal
repeated-eq = refl

terminal_once_example : (repeated.0.replayed ≡ true) × (repeated.1 ≡ settled_session.1)
terminal_once_example =
    terminal_once settlement settlement held_session.1 settled_session repeated settled_session-eq
      settled_session-fresh refl refl repeated-eq

abbrev grant_of : ℕ → ℕ → CreditGrant
grant_of gid left = record {
  id = gid;
  user_id = 1;
  cycle_id = none;
  kind = ai_multimodal_platform.Credit.Tables.bonus;
  created_at = 0;
  expires_at = none;
  granted_microcredits = left + 5;
  reserved_microcredits = 2;
  consumed_microcredits = 3;
  expired_microcredits = 0;
  reason_code = "bonus";
}

abbrev two_grants : List CreditGrant
two_grants = grant_of 1 10 ∷ grant_of 2 20 ∷ []

abbrev takings : List (ℕ × ℕ)
takings = (1, 10) ∷ (2, 20) ∷ []

short_allocation : allocate two_grants 37 ≡ ok (takings, 7)
unfolding allocate
short_allocation = refl

allocate-missing_example : 7 ≡ 37 - available_total two_grants
allocate-missing_example = allocate-missing two_grants 37 7 takings short_allocation

abbrev second_cycle : CycleBounds
second_cycle = record {
  index = 1;
  starts_at = 1000 + cycle_length;
  ends_at = 1000 + cycle_length + cycle_length;
}

in_second_cycle : cycle_bounds 1000 3_000_000_000_000 ≡ ok second_cycle
unfolding cycle_bounds
in_second_cycle = refl

cycle_bounds_hold_example :
    (1000 + cycle_length ≡ 1000 + 1 * cycle_length)
    × (second_cycle.ends_at ≡ second_cycle.starts_at + cycle_length)
    × (second_cycle.starts_at ≤ 3_000_000_000_000)
    × (3_000_000_000_000 < second_cycle.ends_at)
    × (second_cycle.ends_at ≤ max_datetime)
cycle_bounds_hold_example = cycle_bounds_hold 1000 3_000_000_000_000 second_cycle in_second_cycle

image_price : quote_usage rate_card_version imagen_fast_image (pos 3) ≡ ok 150_000_000
unfolding quote_usage
image_price = refl

abbrev images : ℕ
images = 3

abbrev price : ℕ
price = 150_000_000
