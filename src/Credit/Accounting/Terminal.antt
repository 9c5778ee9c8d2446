-- ===== src/Credit/Accounting/Terminal.antt =====
-- `settle` and `release`: the one terminal step of a hold, under a key that makes a repeated call a
-- replay. `settle` charges the usage, `release` charges nothing.
pub mod Balance
pub mod Outcome
pub mod Calls
use ai_multimodal_platform.Prelude.{
  ℕ, suc, ◌+◌, ◌-◌, min, String, Bool, true, false, not, Option, none, some, List, [], ◌∷◌, ◌++◌,
  length, map, any, find, ltb, leb, ◌==◌, str_eq, ◌&&◌, ◌||◌, if◌then◌else◌,
}
use ai_multimodal_platform.Prelude.Int.{pos, neg}
use ai_multimodal_platform.Prelude.Result.{Result, ok, err, ◌>>=◌, ◌>>◌, fail_if, or_fail}
use ai_multimodal_platform.Credit.Code.{
  Code, or_overflow, credit_input_invalid, credit_account_inconsistent, credit_amount_overflow,
  credit_user_missing, credit_idempotency_conflict, credit_reservation_missing,
  credit_reservation_state_conflict, credit_usage_exceeds_reservation, key_error,
}
use ai_multimodal_platform.Credit.Policy.{meter_eq, quote_usage, max_bigint}
use ai_multimodal_platform.Credit.Tables.{
  CreditAccount, CreditGrant, CreditReservation, CreditReservationItem, CreditReservationAllocation,
  CreditUsageRecord, ReservationStatus, held, settled, released, Session, next_id, drawn, user_of,
  account_of, latest_cycle, grants_of, update_grant, add_event, terminal_key,
}
use ai_multimodal_platform.Credit.Tables
use ai_multimodal_platform.Credit.Lifecycle.{is_expired, is_none, transaction}
use ai_multimodal_platform.Credit.Lifecycle.Commands.{valid_key, option_str_eq}
use ai_multimodal_platform.Credit.Accounting.{
  RawLine, UsageLine, usage, sum_amounts, is_delivery, is_reason, is_held, items_of, allocations_of,
  records_of,
}
use ai_multimodal_platform.Credit.Accounting.Check.{ledger_coherent, reservation_coherent}

pub record TerminalReceipt : Type 0 where
  pub reservation_id : ℕ
  pub operation_key : Option String
  pub status : ReservationStatus
  pub consumed_microcredits : ℕ
  pub released_microcredits : ℕ
  pub usage_line_count : ℕ
  pub effective_at : ℕ
  pub replayed : Bool

-- What a call asks for: the checked arguments of `_terminal`.
pub record Request : Type 0 where
  pub user_id : ℕ
  pub reservation_id : ℕ
  pub lines : List UsageLine
  pub delivery : String
  pub reason : String
  pub key : String
  pub now : ℕ
  pub charge : Bool

-- `_terminal_receipt`
unfoldable pub terminal_receipt :
    CreditReservation → List CreditUsageRecord → Bool → Result Code TerminalReceipt
terminal_receipt r records replayed = do
  consumed ← sum_amounts (map (λ u. u.charged_microcredits) records)
  fail_if (ltb r.reserved_microcredits consumed) credit_account_inconsistent
  at ← or_fail r.terminal_at credit_account_inconsistent
  ok (record {
    reservation_id = r.id;
    operation_key = r.terminal_operation_key;
    status = r.status;
    consumed_microcredits = consumed;
    released_microcredits = r.reserved_microcredits - consumed;
    usage_line_count = length records;
    effective_at = at;
    replayed = replayed;
  })

abbrev pub terminal_status : Bool → ReservationStatus
terminal_status true = settled
terminal_status false = released

abbrev pub status_eq : ReservationStatus → ReservationStatus → Bool
status_eq held held = true
status_eq settled settled = true
status_eq released released = true
status_eq _ _ = false

-- `supplied == stored`, on meters, units and sources
unfoldable pub same_usage : List UsageLine → List CreditUsageRecord → Bool
same_usage [] [] = true
same_usage (l ∷ ls) (r ∷ rs) =
    meter_eq l.meter r.meter
    && l.actual_units == r.actual_units
    && str_eq l.source r.source
    && same_usage ls rs
same_usage _ _ = false

unfoldable pub same_terminal : Request → CreditReservation → List CreditUsageRecord → Bool
unfolding same_usage
same_terminal q r records =
    (r.id == q.reservation_id)
    && status_eq r.status (terminal_status q.charge)
    && option_str_eq r.delivery (some q.delivery)
    && option_str_eq r.terminal_reason_code (some q.reason)
    && same_usage q.lines records

-- A key that was used: the same request replays the receipt.
unfoldable pub replay_terminal :
    Request
    → CreditReservation
    → List CreditGrant
    → Session
    → Result Code (TerminalReceipt × Session)
unfolding same_terminal terminal_receipt
replay_terminal q r grants s = do
  reservation_coherent r (items_of r.id s) (allocations_of r.id s) grants
  fail_if (not (same_terminal q r (records_of r.id s))) credit_idempotency_conflict
  t ← terminal_receipt r (records_of r.id s) true
  ok (t, s)

unfoldable pub item_for : UsageLine → List CreditReservationItem → Option CreditReservationItem
item_for l = find (λ i. meter_eq i.meter l.meter)

-- The charge of one line: its price at the reservation's rate card, or nothing on a release.
unfoldable pub charge_of : Bool → String → UsageLine → Result Code ℕ
charge_of false version l = ok 0
charge_of true version l =
    or_overflow credit_account_inconsistent (quote_usage version l.meter (pos l.actual_units))

-- The loop that fills `charges`, each line with its charge.
unfoldable pub charges :
    Bool → String → List CreditReservationItem → List UsageLine → Result Code (List (UsageLine × ℕ))
unfolding item_for charge_of
charges charge version items [] = ok []
charges charge version items (l ∷ ls) = do
  item ← or_fail (item_for l items) credit_usage_exceeds_reservation
  fail_if (ltb item.maximum_units l.actual_units) credit_usage_exceeds_reservation
  c ← charge_of charge version l
  rest ← charges charge version items ls
  ok ((l, c) ∷ rest)

-- `grants_by_id[grant_id]`, the live object
unfoldable pub grant_with_id : ℕ → ℕ → Session → Option CreditGrant
grant_with_id uid gid s = find (λ g. (g.id == gid) && g.user_id == uid) s.grants

abbrev event_kind : Bool → Tables.EventKind
event_kind true = Tables.settle
event_kind false = Tables.release

-- The new counters of a grant: the hold leaves it, what is spent is consumed, and `gone` expires.
abbrev pub closed_grant : ℕ → ℕ → ℕ → CreditGrant → CreditGrant
closed_grant held_amount spent gone g = record g {
  reserved_microcredits = g.reserved_microcredits - held_amount;
  consumed_microcredits = g.consumed_microcredits + spent;
  expired_microcredits = g.expired_microcredits + gone;
}

-- The write to a grant and its event.
unfoldable pub write_close :
    Request → CreditReservation → ℕ → ℕ → ℕ → CreditGrant → Session → Session
write_close q r held_amount spent gone g s =
    let s1 = update_grant g.id (λ h. closed_grant held_amount spent gone g) s in
    add_event
      (record {
        id = next_id s1;
        user_id = q.user_id;
        grant_id = g.id;
        kind = event_kind q.charge;
        operation_key = terminal_key r.id;
        rate_card_version = r.rate_card_version;
        granted_delta = pos 0;
        reserved_delta = neg held_amount;
        consumed_delta = pos spent;
        expired_delta = pos gone;
        created_at = q.now;
        reason_code = q.reason;
      })
      (drawn s1)

-- What of a hold is spent while `remaining` is still to be charged, and what of the rest expires
-- because the grant has run out.
abbrev pub spent_of : ℕ → ℕ → ℕ
spent_of held_amount remaining = min held_amount remaining

abbrev pub gone_of : ℕ → CreditGrant → ℕ → ℕ
gone_of now g unused = if is_expired now g then unused else 0

-- One round of the loop over the allocations.
unfoldable pub close_allocation :
    Request → CreditReservation → CreditReservationAllocation → ℕ → Session → Result Code Session
unfolding write_close
close_allocation q r a remaining s = do
  g ← or_fail (grant_with_id q.user_id a.grant_id s) key_error
  let held_amount = a.reserved_microcredits
  let spent = spent_of held_amount remaining
  let gone = gone_of q.now g (held_amount - spent)
  fail_if (ltb g.reserved_microcredits held_amount) credit_account_inconsistent
  fail_if
      (ltb max_bigint (g.consumed_microcredits + spent)
        || ltb max_bigint (g.expired_microcredits + gone))
      credit_amount_overflow
  ok (write_close q r held_amount spent gone g s)

-- The loop: what could not be charged, and the session.
unfoldable pub close_allocations :
    Request
    → CreditReservation
    → List CreditReservationAllocation
    → ℕ
    → Session
    → Result Code (ℕ × Session)
unfolding close_allocation
close_allocations q r [] remaining s = ok (remaining, s)
close_allocations q r (a ∷ as') remaining s = do
  s' ← close_allocation q r a remaining s
  close_allocations q r as' (remaining - spent_of a.reserved_microcredits remaining) s'

unfoldable pub record_rows :
    Request → CreditReservation → List (UsageLine × ℕ) → List CreditUsageRecord
record_rows q r [] = []
record_rows q r ((l, c) ∷ cs) =
    record {
      reservation_id = r.id;
      meter = l.meter;
      user_id = q.user_id;
      terminal_operation_key = q.key;
      rate_card_version = r.rate_card_version;
      actual_units = l.actual_units;
      charged_microcredits = c;
      recorded_at = q.now;
      source = l.source;
      delivery = q.delivery;
    }
    ∷ record_rows q r cs

abbrev pub add_records : List CreditUsageRecord → Session → Session
add_records rows s = record s { usage_records = s.usage_records ++ rows }

abbrev pub save_reservation : CreditReservation → Session → Session
save_reservation r s = record s {
  reservations = map (λ o. if o.id == r.id then r else o) s.reservations;
}

unfoldable pub closed : Request → CreditReservation → CreditReservation
closed q r = record r {
  status = terminal_status q.charge;
  terminal_operation_key = some q.key;
  terminal_at = some q.now;
  terminal_reason_code = some q.reason;
  delivery = some q.delivery;
}

-- The part of `_terminal` after the hold was found and checked.
unfoldable pub close_hold :
    Request → CreditReservation → Session → Result Code (TerminalReceipt × Session)
unfolding item_for charges close_allocations record_rows closed terminal_receipt
close_hold q r s = do
  fail_if (any (λ l. is_none (item_for l (items_of r.id s))) q.lines)
      credit_usage_exceeds_reservation
  cs ← charges q.charge r.rate_card_version (items_of r.id s) q.lines
  consumed ← sum_amounts (map (λ c. c.1) cs)
  fail_if (q.charge && ltb consumed 1) credit_input_invalid
  fail_if (ltb r.reserved_microcredits consumed) credit_usage_exceeds_reservation
  (missing, s1) ← close_allocations q r (allocations_of r.id s) consumed s
  fail_if (ltb 0 missing) credit_account_inconsistent
  t ← terminal_receipt (closed q r) (record_rows q r cs) false
  ok (t, save_reservation (closed q r) (add_records (record_rows q r cs) s1))

unfoldable pub reservation_of : ℕ → ℕ → Session → Option CreditReservation
reservation_of uid rid s = find (λ r. (r.id == rid) && r.user_id == uid) s.reservations

unfoldable pub reservation_with_terminal_key : ℕ → String → Session → Option CreditReservation
reservation_with_terminal_key uid key s =
    find (λ r. (r.user_id == uid) && option_str_eq r.terminal_operation_key (some key))
      s.reservations

-- The part of `_terminal` for a key that was not used yet.
unfoldable pub fresh_terminal :
    Request → CreditAccount → List CreditGrant → Session → Result Code (TerminalReceipt × Session)
unfolding close_hold reservation_of
fresh_terminal q account grants s = do
  fail_if (ltb q.now account.updated_at) credit_account_inconsistent
  r ← or_fail (reservation_of q.user_id q.reservation_id s) credit_reservation_missing
  reservation_coherent r (items_of r.id s) (allocations_of r.id s) grants
  fail_if (not (is_held r.status)) credit_reservation_state_conflict
  fail_if (ltb q.now r.created_at) credit_input_invalid
  close_hold q r s

unfoldable pub terminal_or_replay :
    Option CreditReservation
    → Request
    → CreditAccount
    → List CreditGrant
    → Session
    → Result Code (TerminalReceipt × Session)
unfolding replay_terminal fresh_terminal
terminal_or_replay none q account grants s = fresh_terminal q account grants s
terminal_or_replay (some r) q account grants s = replay_terminal q r grants s

-- `_terminal`
unfoldable pub terminal : Request → Session → Result Code (TerminalReceipt × Session)
unfolding reservation_with_terminal_key terminal_or_replay
terminal q s = do
  u ← or_fail (user_of q.user_id s) credit_user_missing
  account ← or_fail (account_of q.user_id s) credit_account_inconsistent
  c ← or_fail (latest_cycle q.user_id s) credit_account_inconsistent
  let grants = grants_of q.user_id s
  ledger_coherent q.user_id grants s
  terminal_or_replay (reservation_with_terminal_key q.user_id q.key s) q account grants s

unfoldable pub settle :
    ℕ → ℕ → List RawLine → String → String → ℕ → Session → Result Code (TerminalReceipt × Session)
unfolding terminal
settle uid rid raw delivery key now s = do
  fail_if (not (valid_key key)) credit_input_invalid
  lines ← usage false raw
  fail_if (not (is_delivery delivery)) credit_input_invalid
  transaction s (
      terminal (record {
        user_id = uid;
        reservation_id = rid;
        lines = lines;
        delivery = delivery;
        reason = "usage_settled";
        key = key;
        now = now;
        charge = true;
      }))

unfoldable pub release :
    ℕ → ℕ → List RawLine → String → String → ℕ → Session → Result Code (TerminalReceipt × Session)
unfolding terminal
release uid rid raw reason key now s = do
  fail_if (not (valid_key key)) credit_input_invalid
  lines ← usage true raw
  fail_if (not (is_reason reason)) credit_input_invalid
  transaction s (
      terminal (record {
        user_id = uid;
        reservation_id = rid;
        lines = lines;
        delivery = "no_deliverable";
        reason = reason;
        key = key;
        now = now;
        charge = false;
      }))
