-- ===== src/Credit/Accounting/Check.antt =====
-- The two checks that every operation makes on what it reads: `_ledger_coherent`, of the grants
-- against the ledger, and `_reservation_coherent`, of a hold against its items and allocations.
use ai_multimodal_platform.Prelude.{
  ℕ, ◌+◌, Bool, false, not, List, [], ◌∷◌, map, any, length, ltb, leb, ◌==◌, ◌&&◌, ◌||◌,
  if◌then◌else◌,
}
use ai_multimodal_platform.Prelude.Int.{ℤ, pos, negsuc, ◌+ℤ◌, pos_part, neg_part}
use ai_multimodal_platform.Prelude.Result.{Result, ok, ◌>>=◌, ◌>>◌, fail_if}
use ai_multimodal_platform.Credit.Code.{
  Code, or_code, credit_account_inconsistent, credit_amount_overflow,
}
use ai_multimodal_platform.Credit.Policy.{max_bigint, quote_usage}
use ai_multimodal_platform.Credit.Tables.{
  CreditGrant, CreditLedgerEvent, CreditReservation, CreditReservationItem,
  CreditReservationAllocation, Session, events_of,
}
use ai_multimodal_platform.Credit.Accounting.{amount, sum_amounts}

-- The four running totals of one grant.
pub record Totals : Type 0 where
  pub granted : ℤ
  pub reserved : ℤ
  pub consumed : ℤ
  pub expired : ℤ

abbrev pub zeros : Totals
zeros = record { granted = pos 0; reserved = pos 0; consumed = pos 0; expired = pos 0 }

-- `-_MAX <= total <= _MAX`
abbrev pub in_range : ℤ → Bool
in_range z = leb (pos_part z) max_bigint && leb (neg_part z) max_bigint

abbrev pub all_in_range : Totals → Bool
all_in_range t =
    in_range t.granted && in_range t.reserved && in_range t.consumed && in_range t.expired

unfoldable pub add_deltas : CreditLedgerEvent → Totals → Totals
add_deltas e t = record {
  granted = t.granted +ℤ e.granted_delta;
  reserved = t.reserved +ℤ e.reserved_delta;
  consumed = t.consumed +ℤ e.consumed_delta;
  expired = t.expired +ℤ e.expired_delta;
}

-- The dictionary `totals`: its keys are the ids of the grants, its values begin at zero.
unfoldable pub update : ℕ → Totals → (ℕ → Totals) → ℕ → Totals
update gid t totals k = if k == gid then t else totals k

abbrev pub has_id : ℕ → List CreditGrant → Bool
has_id gid = any (λ g. g.id == gid)

-- The loop over the events.
unfoldable pub add_events :
    List CreditGrant → List CreditLedgerEvent → (ℕ → Totals) → Result Code (ℕ → Totals)
unfolding add_deltas update
add_events grants [] totals = ok totals
add_events grants (e ∷ es) totals = do
  fail_if (not (has_id e.grant_id grants)) credit_account_inconsistent
  let t = add_deltas e (totals e.grant_id)
  fail_if (not (all_in_range t)) credit_amount_overflow
  add_events grants es (update e.grant_id t totals)

abbrev pub is_amount : ℤ → ℕ → Bool
is_amount (pos m) n = m == n
is_amount (negsuc m) n = false

-- The counters of a grant are its totals, and do not spend more than was granted.
unfoldable pub grant_matches : CreditGrant → Totals → Bool
grant_matches g t =
    is_amount t.granted g.granted_microcredits
    && is_amount t.reserved g.reserved_microcredits
    && is_amount t.consumed g.consumed_microcredits
    && is_amount t.expired g.expired_microcredits
    && leb (g.reserved_microcredits + g.consumed_microcredits + g.expired_microcredits)
        g.granted_microcredits

-- The loop over the grants.
unfoldable pub check_grants : List CreditGrant → (ℕ → Totals) → Result Code (Unit {0})
unfolding grant_matches
check_grants [] totals = ok tt
check_grants (g ∷ gs) totals = do
  n ← amount g.granted_microcredits
  m ← amount g.reserved_microcredits
  k ← amount g.consumed_microcredits
  j ← amount g.expired_microcredits
  fail_if (not (grant_matches g (totals g.id))) credit_account_inconsistent
  check_grants gs totals

-- `_ledger_coherent`
unfoldable pub ledger_coherent : ℕ → List CreditGrant → Session → Result Code (Unit {0})
unfolding add_events check_grants
ledger_coherent uid grants s = do
  totals ← add_events grants (events_of uid s) (λ k. zeros)
  check_grants grants totals

-- The allocations are the reservation's user's, on grants that are known.
unfoldable pub check_allocations :
    CreditReservation → List CreditGrant → List CreditReservationAllocation → Result Code (Unit {0})
check_allocations r grants [] = ok tt
check_allocations r grants (a ∷ as') = do
  fail_if (not (a.user_id == r.user_id) || not (has_id a.grant_id grants))
      credit_account_inconsistent
  check_allocations r grants as'

unfoldable pub check_items : CreditReservation → List CreditReservationItem → Result Code (Unit {0})
check_items r [] = ok tt
check_items r (i ∷ is) = do
  expected ← quote_usage r.rate_card_version i.meter (pos i.maximum_units)
  fail_if (not (i.user_id == r.user_id) || not (i.quoted_microcredits == expected))
      credit_account_inconsistent
  check_items r is

-- `_reservation_coherent`: whatever it finds wrong, the code is the same.
unfoldable pub reservation_coherent :
    CreditReservation
    → List CreditReservationItem
    → List CreditReservationAllocation
    → List CreditGrant
    → Result Code (Unit {0})
unfolding check_allocations check_items
reservation_coherent r items allocations grants = or_code credit_account_inconsistent (do
  item_total ← sum_amounts (map (λ i. i.quoted_microcredits) items)
  allocation_total ← sum_amounts (map (λ a. a.reserved_microcredits) allocations)
  fail_if (ltb (length items) 1 || ltb (length allocations) 1) credit_account_inconsistent
  fail_if (not (item_total == r.reserved_microcredits)) credit_account_inconsistent
  fail_if (not (allocation_total == r.reserved_microcredits)) credit_account_inconsistent
  check_allocations r grants allocations
  check_items r items)
