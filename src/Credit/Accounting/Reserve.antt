-- ===== src/Credit/Accounting/Reserve.antt =====
-- `reserve`: a hold on the user's grants for the highest price of a request, under a key of the
-- caller that makes a repeated call a replay.
pub mod Balance
pub mod Outcome
pub mod Allocation
use ai_multimodal_platform.Prelude.{
  ℕ, suc, ◌+◌, ◌-◌, min, String, Bool, true, false, not, Option, none, some, List, [], ◌∷◌, ◌++◌,
  length, map, any, find, sort_by, ltb, leb, ◌==◌, str_eq, ◌&&◌, ◌||◌, if◌then◌else◌,
}
use ai_multimodal_platform.Prelude.Int.{pos}
use ai_multimodal_platform.Prelude.Result.{Result, ok, err, ◌>>=◌, ◌>>◌, fail_if, or_fail}
use ai_multimodal_platform.Credit.Code.{
  Code, or_code, or_overflow, credit_input_invalid, credit_account_inconsistent,
  credit_user_missing, credit_plan_refused, credit_idempotency_conflict, user_concurrency_limit,
  monthly_credit_exhausted,
}
use ai_multimodal_platform.Credit.Policy.{
  Meter, meter_eq, Plan, PlanPolicy, plan_policy, quote_usage, rate_card_version, max_datetime,
}
use ai_multimodal_platform.Credit.Tables.{
  User, CreditAccount, CreditCycle, CreditGrant, CreditReservation, CreditReservationItem,
  CreditReservationAllocation, CreditLedgerEvent, Session, held, reserve_key, next_id, drawn,
  user_of, account_of, grants_of, update_grant, add_event,
}
use ai_multimodal_platform.Credit.Tables
use ai_multimodal_platform.Credit.Lifecycle.{spent, plan_eq, is_suspended, transaction}
use ai_multimodal_platform.Credit.Lifecycle.Ensure.{CycleView, ensure_cycle}
use ai_multimodal_platform.Credit.Lifecycle.Commands.{valid_key}
use ai_multimodal_platform.Credit.Accounting.{
  RawEstimate, UsageEstimate, estimates, amount, sum_positive, or_lifecycle, items_of, held_of,
}
use ai_multimodal_platform.Credit.Accounting.Check.{ledger_coherent}

pub record ReservationReceipt : Type 0 where
  pub reservation_id : ℕ
  pub operation_key : String
  pub status : Tables.ReservationStatus
  pub reserved_microcredits : ℕ
  pub rate_card_version : String
  pub replayed : Bool

unfoldable pub receipt : CreditReservation → Bool → ReservationReceipt
receipt r replayed = record {
  reservation_id = r.id;
  operation_key = r.reserve_operation_key;
  status = held;
  reserved_microcredits = r.reserved_microcredits;
  rate_card_version = r.rate_card_version;
  replayed = replayed;
}

-- `stored == supplied`, on meters and maximum units
unfoldable pub same_estimates : List CreditReservationItem → List UsageEstimate → Bool
same_estimates [] [] = true
same_estimates (i ∷ is) (e ∷ es) =
    meter_eq i.meter e.meter && i.maximum_units == e.maximum_units && same_estimates is es
same_estimates _ _ = false

unfoldable pub reservation_with_key : ℕ → String → Session → Option CreditReservation
reservation_with_key uid key s =
    find (λ r. (r.user_id == uid) && str_eq r.reserve_operation_key key) s.reservations

-- The quotes of the estimates, each with its estimate.
unfoldable pub quotes : List UsageEstimate → Result Code (List (UsageEstimate × ℕ))
quotes [] = ok []
quotes (e ∷ es) = do
  price ←
      or_overflow credit_input_invalid (quote_usage rate_card_version e.meter (pos e.maximum_units))
  rest ← quotes es
  ok ((e, price) ∷ rest)

-- Where a grant without an expiry sorts among the instants.
abbrev expiry_or_max : CreditGrant → ℕ
expiry_or_max g = elim g.expires_at [ none ↦ max_datetime | some at ↦ at ]

abbrev never_expires : CreditGrant → Bool
never_expires g = elim g.expires_at [ none ↦ true | some at ↦ false ]

-- The order of `priority`: the tuples compare field by field, and `False` before `True`.
unfoldable pub grant_before : CreditGrant → CreditGrant → Bool
grant_before a b =
    if never_expires a && not (never_expires b)
    then false
    else if never_expires b && not (never_expires a)
    then true
    else if ltb (expiry_or_max a) (expiry_or_max b)
    then true
    else if ltb (expiry_or_max b) (expiry_or_max a)
    then false
    else if ltb a.created_at b.created_at
    then true
    else if ltb b.created_at a.created_at
    then false
    else leb a.id b.id

-- The loop over `priority`: what each grant gives, and what is left to find.
unfoldable pub allocate : List CreditGrant → ℕ → Result Code (List (ℕ × ℕ) × ℕ)
allocate [] remaining = ok ([], remaining)
allocate (g ∷ gs) remaining = do
  a ← amount g.granted_microcredits
  b ← amount g.reserved_microcredits
  c ← amount g.consumed_microcredits
  d ← amount g.expired_microcredits
  fail_if (ltb a (b + c + d)) credit_account_inconsistent
  let taken = min (a - (b + c + d)) remaining
  (rest, missing) ← (if remaining - taken == 0 then ok ([], 0) else allocate gs (remaining - taken))
  ok ((if ltb 0 taken then (g.id, taken) ∷ rest else rest), missing)

-- One row of the loop over `allocations`: the allocation, the write to its grant and its event.
unfoldable pub post_allocation : ℕ → ℕ → ℕ → ℕ → ℕ × ℕ → Session → Session
post_allocation uid rid now ordinal (gid, taken) s =
    let s1 : Session = record s {
      allocations =
          s.allocations
          ++ record {
            reservation_id = rid;
            grant_id = gid;
            user_id = uid;
            ordinal = ordinal;
            reserved_microcredits = taken;
          }
            ∷ [];
    } in
    let s2 =
      update_grant gid (λ g. record g { reserved_microcredits = g.reserved_microcredits + taken })
        s1 in
    add_event
      (record {
        id = next_id s2;
        user_id = uid;
        grant_id = gid;
        kind = Tables.reserve;
        operation_key = reserve_key rid;
        rate_card_version = rate_card_version;
        granted_delta = pos 0;
        reserved_delta = pos taken;
        consumed_delta = pos 0;
        expired_delta = pos 0;
        created_at = now;
        reason_code = "credit_reserved";
      })
      (drawn s2)

unfoldable pub post_allocations : ℕ → ℕ → ℕ → ℕ → List (ℕ × ℕ) → Session → Session
unfolding post_allocation
post_allocations uid rid now ordinal [] s = s
post_allocations uid rid now ordinal (a ∷ as') s =
    post_allocations uid rid now (suc ordinal) as' (post_allocation uid rid now ordinal a s)

unfoldable pub item_rows : ℕ → ℕ → List (UsageEstimate × ℕ) → List CreditReservationItem
item_rows uid rid [] = []
item_rows uid rid ((e, price) ∷ qs) =
    record {
      reservation_id = rid;
      user_id = uid;
      meter = e.meter;
      maximum_units = e.maximum_units;
      quoted_microcredits = price;
    }
    ∷ item_rows uid rid qs

abbrev pub new_hold : ℕ → ℕ → String → ℕ → ℕ → CreditReservation
new_hold rid uid key now total = record {
  id = rid;
  user_id = uid;
  reserve_operation_key = key;
  rate_card_version = rate_card_version;
  status = held;
  reserved_microcredits = total;
  created_at = now;
  terminal_operation_key = none;
  terminal_at = none;
  terminal_reason_code = none;
  delivery = none;
}

-- `session.add` of the reservation, whose id was drawn, and of its items.
abbrev pub add_hold : CreditReservation → List (UsageEstimate × ℕ) → Session → Session
add_hold r quoted s =
    let s1 = drawn s in
    record s1 {
      reservations = s1.reservations ++ r ∷ [];
      items = s1.items ++ item_rows r.user_id r.id quoted;
    }

-- The writes of a successful `_reserve`.
unfoldable pub write_hold :
    ℕ
    → String
    → ℕ
    → ℕ
    → List (UsageEstimate × ℕ)
    → List (ℕ × ℕ)
    → Session
    → ReservationReceipt × Session
unfolding receipt item_rows post_allocations
write_hold uid key now total quoted allocations s =
    let r = new_hold (next_id s) uid key now total in
    (receipt r false, post_allocations uid r.id now 0 allocations (add_hold r quoted s))

-- The part of `_reserve` after the plan's policy is known.
unfoldable pub hold_within :
    PlanPolicy
    → ℕ
    → String
    → ℕ
    → List UsageEstimate
    → Session
    → Result Code (ReservationReceipt × Session)
unfolding quotes grant_before allocate write_hold
hold_within policy uid key now es s = do
  let grants = grants_of uid s
  fail_if (any (λ e. not (policy.permits e.meter)) es) credit_plan_refused
  fail_if (leb policy.max_concurrent_requests (length (held_of uid s))) user_concurrency_limit
  ledger_coherent uid grants s
  quoted ← quotes es
  total ← sum_positive (map (λ q. q.1) quoted)
  (allocations, missing) ← allocate (sort_by grant_before grants) total
  fail_if (ltb 0 missing) monthly_credit_exhausted
  ok (write_hold uid key now total quoted allocations s)

-- `CreditCycle.id == view.cycle_id, CreditCycle.user_id == request.user_id`
abbrev cycle_of_view : ℕ → CycleView → Session → Option CreditCycle
cycle_of_view uid v s = find (λ c. c.id == v.cycle_id && c.user_id == uid) s.cycles

-- The part of `_reserve` for a key that was not used yet.
unfoldable pub fresh_hold :
    ℕ
    → User
    → String
    → List UsageEstimate
    → ℕ
    → Session
    → Result Code (ReservationReceipt × Session)
unfolding hold_within
fresh_hold uid u key es now s = do
  fail_if (ltb now u.signed_up_at) credit_input_invalid
  fail_if (is_suspended u) credit_plan_refused
  (v, s') ← or_lifecycle (ensure_cycle uid now s)
  account ← or_fail (account_of uid s') credit_account_inconsistent
  cycle ← or_fail (cycle_of_view uid v s') credit_account_inconsistent
  fail_if (not (plan_eq account.plan v.plan)) credit_account_inconsistent
  policy ← or_code credit_account_inconsistent (plan_policy account.plan)
  hold_within policy uid key now es s'

-- A key that was used: the same estimates replay the receipt.
unfoldable pub replay_hold :
    List UsageEstimate → Session → CreditReservation → Result Code (ReservationReceipt × Session)
unfolding same_estimates receipt
replay_hold es s r = do
  fail_if (not (same_estimates (items_of r.id s) es)) credit_idempotency_conflict
  ok (receipt r true, s)

unfoldable pub reserve_or_replay :
    Option CreditReservation
    → ℕ
    → User
    → String
    → List UsageEstimate
    → ℕ
    → Session
    → Result Code (ReservationReceipt × Session)
unfolding replay_hold fresh_hold
reserve_or_replay none uid u key es now s = fresh_hold uid u key es now s
reserve_or_replay (some r) uid u key es now s = replay_hold es s r

-- `reserve` and `_reserve`
unfoldable pub reserve :
    ℕ → String → List RawEstimate → ℕ → Session → Result Code (ReservationReceipt × Session)
unfolding valid_key reservation_with_key reserve_or_replay
reserve uid key raw now s = do
  fail_if (not (valid_key key)) credit_input_invalid
  es ← estimates raw
  transaction s (λ s'. do
    u ← or_fail (user_of uid s') credit_user_missing
    reserve_or_replay (reservation_with_key uid key s') uid u key es now s')
