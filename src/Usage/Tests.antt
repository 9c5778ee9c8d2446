-- ===== src/Usage/Tests.antt =====
-- The usage of a new user, and the instance of the theorem on views.
use ai_multimodal_platform.Prelude.{◌+◌, ◌≡◌, refl, true, none, [], ◌∷◌}
use ai_multimodal_platform.Prelude.Result.{Result, ok, err}
use ai_multimodal_platform.Credit.Policy.{plan_policy, cycle_bounds, free, rate_card_version}
use ai_multimodal_platform.Credit.Tables.{Session, user, active, latest_cycle, grants_of}
use ai_multimodal_platform.Credit.Lifecycle.{
  load, capacity, coherent, total_granted, total_gone, account_fits, cycle_fits, expire_grant,
  expire_grants, new_account, open_cycle,
}
use ai_multimodal_platform.Credit.Lifecycle.Ensure.{
  first_entry, known_entry, entry, roll, current_cycle, ensure, view, ensure_cycle,
}
use ai_multimodal_platform.Credit.Accounting.{held_of}
use ai_multimodal_platform.Usage.{
  PersonalUsageError, PersonalUsageView, integer, add, grant_parts, grant_totals_from,
  reservation_totals_from, reservation_totals, record_parts, usage_totals_from, usage_totals,
  records_since, read_view, read_personal_usage,
}
use ai_multimodal_platform.Usage.View.{IsView, read_personal_usage-IsView}

abbrev start : Session
start = record {
  in_transaction = true;
  uuid4 = λ n. 100 + n;
  users = record { id = 1; role = user; status = active; signed_up_at = 1000 } ∷ [];
  accounts = [];
  cycles = [];
  grants = [];
  operations = [];
  reservations = [];
  items = [];
  allocations = [];
  usage_records = [];
  ledger_events = [];
}

abbrev unused : PersonalUsageView
unused = record {
  plan = free;
  pending_plan = none;
  rate_card_version = rate_card_version;
  cycle = record {
    index = 0;
    starts_at = 0;
    renews_at = 0;
    allowance_microcredits = 0;
    charged_microcredits = 0;
  };
  credit = record { available_microcredits = 0; held_microcredits = 0 };
  concurrency = record { active_requests = 0; limit = 0 };
  usage = [];
}

abbrev read : Result PersonalUsageError (PersonalUsageView × Session) → PersonalUsageView × Session
read (ok out) = out
read (err e) = (unused, start)

abbrev seen : PersonalUsageView × Session
seen = read (read_personal_usage 1 2000 start)

-- The whole allowance of the free plan is available.
seen-credit :
    (seen.0).credit ≡ record { available_microcredits = 1_000_000_000; held_microcredits = 0 }
unfolding plan_policy cycle_bounds latest_cycle grants_of load capacity coherent total_granted
    total_gone account_fits cycle_fits expire_grant expire_grants new_account open_cycle first_entry
    known_entry entry roll current_cycle ensure view ensure_cycle held_of integer add grant_parts
    grant_totals_from reservation_totals_from reservation_totals record_parts usage_totals_from
    usage_totals records_since read_view read_personal_usage
seen-credit = refl

seen-eq : read_personal_usage 1 2000 start ≡ ok (seen.0, seen.1)
unfolding plan_policy cycle_bounds latest_cycle grants_of load capacity coherent total_granted
    total_gone account_fits cycle_fits expire_grant expire_grants new_account open_cycle first_entry
    known_entry entry roll current_cycle ensure view ensure_cycle held_of integer add grant_parts
    grant_totals_from reservation_totals_from reservation_totals record_parts usage_totals_from
    usage_totals records_since read_view read_personal_usage
seen-eq = refl

read_personal_usage-IsView_example :
    IsView 1 2000 seen.1 seen.0 × ((seen.1).reservations ≡ []) × ((seen.1).usage_records ≡ [])
read_personal_usage-IsView_example = read_personal_usage-IsView 1 2000 start seen-eq
