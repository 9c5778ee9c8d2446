-- ===== src/Credit/Lifecycle/Commands/Tests.antt =====
-- A bonus and a plan change for a new user, and the instances of the theorems on repeated commands.
use ai_multimodal_platform.Prelude.{◌+◌, ◌≡◌, refl, arith, true, false, none, [], ◌∷◌}
use ai_multimodal_platform.Prelude.Int.{pos}
use ai_multimodal_platform.Prelude.Result.{Result, ok, err}
use ai_multimodal_platform.Credit.Code.{Code}
use ai_multimodal_platform.Credit.Policy.{plan_policy, cycle_bounds, pro}
use ai_multimodal_platform.Credit.Tables.{
  Session, user, active, plan_change, unchanged, latest_cycle, grants_of,
}
use ai_multimodal_platform.Credit.Lifecycle.{
  load, capacity, coherent, total_granted, total_gone, account_fits, cycle_fits, expire_grant,
  expire_grants, new_account, open_cycle,
}
use ai_multimodal_platform.Credit.Lifecycle.Ensure.{
  first_entry, known_entry, entry, roll, current_cycle, ensure, view,
}
use ai_multimodal_platform.Credit.Lifecycle.Commands.{
  MutationReceipt, valid_key, same_payload, receipt, operation_of, replay_of, replay,
  record_operation, upgrade, with_pending, apply_plan, plan_payload, fresh_plan_change, change_plan,
  bonus_payload, add_bonus, fresh_bonus, grant_bonus,
}
use ai_multimodal_platform.Credit.Lifecycle.Commands.Repeat.{
  change_plan-repeated, grant_bonus-repeated,
}

abbrev start : Session
start = record {
  in_transaction = true;
  uuid4 = λ n. 100 + n;
  users = record { id = 1; role = user; status = active; signed_up_at = 1000 } ∷ [];
  accounts = [];
  cycles = [];
  grants = [];
  operations = [];
  reservations = [];
  items = [];
  allocations = [];
  usage_records = [];
  ledger_events = [];
}

abbrev no_receipt : MutationReceipt
no_receipt = record {
  operation_key = "";
  kind = plan_change;
  outcome = unchanged;
  effective_at = 0;
  cycle_id = 0;
  grant_id = none;
  replayed = true;
}

abbrev or_start : Result Code (MutationReceipt × Session) → MutationReceipt × Session
or_start (ok out) = out
or_start (err e) = (no_receipt, start)

abbrev changed : MutationReceipt × Session
changed = or_start (change_plan 1 pro "cmd-1" 2000 start)

changed-eq : change_plan 1 pro "cmd-1" 2000 start ≡ ok (changed.0, changed.1)
unfolding plan_policy cycle_bounds latest_cycle grants_of load capacity coherent total_granted
    total_gone account_fits cycle_fits expire_grant expire_grants new_account open_cycle first_entry
    known_entry entry roll current_cycle ensure view valid_key same_payload receipt operation_of
    replay_of replay record_operation upgrade with_pending apply_plan plan_payload fresh_plan_change
    change_plan bonus_payload add_bonus fresh_bonus grant_bonus
changed-eq = refl

-- The plan is upgraded, by a call that was no replay.
changed-fresh : (changed.0).replayed ≡ false
unfolding plan_policy cycle_bounds latest_cycle grants_of load capacity coherent total_granted
    total_gone account_fits cycle_fits expire_grant expire_grants new_account open_cycle first_entry
    known_entry entry roll current_cycle ensure view valid_key same_payload receipt operation_of
    replay_of replay record_operation upgrade with_pending apply_plan plan_payload fresh_plan_change
    change_plan bonus_payload add_bonus fresh_bonus grant_bonus
changed-fresh = refl

change_plan-repeated_example :
    change_plan 1 pro "cmd-1" 3000 changed.1
    ≡ ok (record (changed.0) { replayed = true }, changed.1)
change_plan-repeated_example =
    change_plan-repeated 1 pro "cmd-1" 2000 3000 start changed-eq (omega arith)

abbrev given : MutationReceipt × Session
given = or_start (grant_bonus 1 (pos 500) none "welcome" "cmd-2" 2000 start)

given-eq : grant_bonus 1 (pos 500) none "welcome" "cmd-2" 2000 start ≡ ok (given.0, given.1)
unfolding plan_policy cycle_bounds latest_cycle grants_of load capacity coherent total_granted
    total_gone account_fits cycle_fits expire_grant expire_grants new_account open_cycle first_entry
    known_entry entry roll current_cycle ensure view valid_key same_payload receipt operation_of
    replay_of replay record_operation upgrade with_pending apply_plan plan_payload fresh_plan_change
    change_plan bonus_payload add_bonus fresh_bonus grant_bonus
given-eq = refl

grant_bonus-repeated_example :
    grant_bonus 1 (pos 500) none "welcome" "cmd-2" 3000 given.1
    ≡ ok (record (given.0) { replayed = true }, given.1)
grant_bonus-repeated_example =
    grant_bonus-repeated 1 (pos 500) none "welcome" "cmd-2" 2000 3000 start given-eq (omega arith)
