-- ===== src/Credit/Lifecycle.antt =====
-- backend/app/credit_lifecycle.py: the account, its cycles and its grants. The arguments' types are checked by
-- the source at run time and by the signatures here; a call is a function of the session that gives
-- the result and the new session, or a code and no session, since its savepoint is rolled back.
pub mod Ensure
pub mod Commands
use ai_multimodal_platform.Prelude.{
  ℕ, ◌+◌, ◌-◌, String, Bool, true, false, not, Option, none, some, List, [], ◌∷◌, ◌++◌, length,
  filter, find, map, ltb, leb, ◌==◌, str_eq, ◌&&◌, ◌||◌, if◌then◌else◌,
}
use ai_multimodal_platform.Prelude.Int.{ℤ, pos, pos_part, neg_part, sub_ℕ}
use ai_multimodal_platform.Prelude.Result.{Result, ok, err, ◌>>=◌, ◌>>◌, fail_if, or_fail}
use ai_multimodal_platform.Credit.Code.{
  Code, or_code, credit_input_invalid, credit_account_inconsistent, credit_amount_overflow,
  credit_transaction_required, credit_user_missing, credit_plan_refused, credit_clock_regressed,
  credit_idempotency_conflict,
}
use ai_multimodal_platform.Credit.Policy.{
  Plan, free, pro, max, unknown, PlanPolicy, plan_policy, CycleBounds, cycle_bounds, max_bigint,
  rate_card_version,
}
use ai_multimodal_platform.Credit.Tables.{
  User, UserRole, UserStatus, user, master, active, suspended, CreditAccount, CreditCycle,
  CreditGrant, GrantKind, base, bonus, CreditLedgerEvent, EventKind, EventKey, Session, next_id,
  drawn, user_of, account_of, latest_cycle, grants_of, update_grant, add_event, expire_key,
  cycle_base_key,
}
use ai_multimodal_platform.Credit.Tables

-- `_RANK`; a plan outside it has no rank.
abbrev pub rank? : Plan → Option ℕ
rank? free = some 0
rank? pro = some 1
rank? max = some 2
rank? (unknown n) = none

abbrev pub plan_eq : Plan → Plan → Bool
plan_eq free free = true
plan_eq pro pro = true
plan_eq max max = true
plan_eq (unknown m) (unknown n) = m == n
plan_eq _ _ = false

abbrev pub is_master : User → Bool
is_master u = elim u.role [ user ↦ false | master ↦ true ]

abbrev pub is_suspended : User → Bool
is_suspended u = elim u.status [ active ↦ false | suspended ↦ true ]

abbrev pub option_eq : Option ℕ → Option ℕ → Bool
option_eq none none = true
option_eq (some a) (some b) = a == b
option_eq _ _ = false

abbrev pub is_base : CreditGrant → Bool
is_base g = elim g.kind [ base ↦ true | bonus ↦ false ]

-- `_transaction`: the body runs in a savepoint of an open transaction.
abbrev pub transaction : {A : Type 0} → Session → (Session → Result Code A) → Result Code A
transaction s body = fail_if (not s.in_transaction) credit_transaction_required >> body s

unfoldable pub load : ℕ → ℕ → Session → Result Code (User × Option CreditAccount)
load uid now s = do
  u ← or_fail (user_of uid s) credit_user_missing
  fail_if (ltb now u.signed_up_at) credit_input_invalid
  ok (u, account_of uid s)

abbrev pub spent : CreditGrant → ℕ
spent g = g.reserved_microcredits + g.consumed_microcredits + g.expired_microcredits

-- The two sums of `outstanding`: what was granted, and what was consumed or has expired.
unfoldable pub total_granted : List CreditGrant → ℕ
total_granted [] = 0
total_granted (g ∷ gs) = g.granted_microcredits + total_granted gs

unfoldable pub total_gone : List CreditGrant → ℕ
total_gone [] = 0
total_gone (g ∷ gs) = (g.consumed_microcredits + g.expired_microcredits) + total_gone gs

-- `_capacity`
unfoldable pub capacity : List CreditGrant → ℤ → Result Code (Unit {0})
unfolding total_granted total_gone
capacity grants increment = do
  fail_if (ltb (total_granted grants) (total_gone grants)) credit_amount_overflow
  fail_if (ltb 0 (neg_part increment)) credit_amount_overflow
  fail_if (ltb max_bigint (total_granted grants - total_gone grants + pos_part increment))
      credit_amount_overflow

-- The pending plan is a known one below the plan.
abbrev pending_is_lower : Option Plan → ℕ → Bool
pending_is_lower none rank = true
pending_is_lower (some p) rank = elim (rank? p) [ none ↦ false | some r ↦ ltb r rank ]

abbrev pub is_none : {A : Type 0} → Option A → Bool
is_none none = true
is_none (some a) = false

unfoldable pub account_fits : User → CreditAccount → Bool
account_fits u a =
    (a.cycle_anchor_at == u.signed_up_at)
    && (elim (rank? a.plan) [ none ↦ false | some r ↦ pending_is_lower a.pending_plan r ])
    && (not (is_master u) || (plan_eq a.plan max && is_none a.pending_plan))

-- The base grants of a cycle.
abbrev bases_of : CreditCycle → List CreditGrant → List CreditGrant
bases_of c = filter (λ g. is_base g && option_eq g.cycle_id (some c.id))

unfoldable pub cycle_fits : CycleBounds → PlanPolicy → CreditAccount → CreditCycle → Bool
cycle_fits b p a c =
    (b.index == c.cycle_index)
    && (b.starts_at == c.starts_at)
    && (b.ends_at == c.ends_at)
    && plan_eq c.plan a.plan
    && (c.allowance_microcredits == p.allowance_microcredits)

abbrev the_base : ℕ → ℕ → List CreditGrant → Result Code CreditGrant
the_base ends expected [] = err credit_account_inconsistent
the_base ends expected (g ∷ []) = do
  fail_if (not (option_eq g.expires_at (some ends))) credit_account_inconsistent
  fail_if (not (g.granted_microcredits == expected)) credit_account_inconsistent
  ok g
the_base ends expected (g ∷ h ∷ gs) = err credit_account_inconsistent

-- `_coherent`: the base grant of the latest cycle.
unfoldable pub coherent :
    User → CreditAccount → Option CreditCycle → List CreditGrant → Result Code CreditGrant
unfolding account_fits cycle_fits
coherent u a cycle grants = do
  fail_if (not (account_fits u a)) credit_account_inconsistent
  c ← or_fail cycle credit_account_inconsistent
  bounds ← or_code credit_account_inconsistent (cycle_bounds u.signed_up_at c.starts_at)
  policy ← or_code credit_account_inconsistent (plan_policy a.plan)
  fail_if (not (cycle_fits bounds policy a c)) credit_account_inconsistent
  the_base c.ends_at policy.allowance_microcredits (bases_of c grants)

abbrev pub is_expired : ℕ → CreditGrant → Bool
is_expired now g = elim g.expires_at [ none ↦ false | some at ↦ leb at now ]

-- The write and the event of one expired grant.
unfoldable pub expire_grant : ℕ → CreditGrant → Session → Session
expire_grant now g s =
    let available = g.granted_microcredits - spent g in
    let s' =
      update_grant g.id
        (λ h. record h { expired_microcredits = h.expired_microcredits + available }) s in
    add_event
      (record {
        id = next_id s';
        user_id = g.user_id;
        grant_id = g.id;
        kind = Tables.expire;
        operation_key = expire_key g.id;
        rate_card_version = rate_card_version;
        granted_delta = pos 0;
        reserved_delta = pos 0;
        consumed_delta = pos 0;
        expired_delta = pos available;
        created_at = now;
        reason_code = "grant_expired";
      })
      (drawn s')

-- The loop of `_ensure` over the grants.
unfoldable pub expire_grants : ℕ → List CreditGrant → Session → Result Code Session
unfolding expire_grant
expire_grants now [] s = ok s
expire_grants now (g ∷ gs) s = do
  fail_if (ltb g.granted_microcredits (spent g)) credit_account_inconsistent
  expire_grants now gs
      (if is_expired now g && ltb (spent g) g.granted_microcredits then expire_grant now g s else s)

-- A row of `credit_accounts` is written through its object.
abbrev pub save_account : CreditAccount → Session → Session
save_account a s = record s {
  accounts = map (λ b. if b.user_id == a.user_id then a else b) s.accounts;
}

abbrev pub save_cycle : CreditCycle → Session → Session
save_cycle c s = record s { cycles = map (λ d. if d.id == c.id then c else d) s.cycles }

unfoldable pub new_account : User → ℕ → CreditAccount
new_account u now = record {
  user_id = u.id;
  cycle_anchor_at = u.signed_up_at;
  plan = if is_master u then max else free;
  pending_plan = none;
  created_at = now;
  updated_at = now;
}

-- The next plan of an account at the start of a cycle: the pending one, once.
abbrev pub rolled : CreditAccount → CreditAccount
rolled a = elim a.pending_plan [ none ↦ a | some p ↦ record a { plan = p; pending_plan = none } ]

pub record Ensured : Type 0 where
  pub account : CreditAccount
  pub cycle : CreditCycle
  pub base : CreditGrant
  pub session : Session

-- The part of `_ensure` that opens a cycle, after its plan and allowance are known.
unfoldable pub open_cycle : ℕ → ℕ → CycleBounds → CreditAccount → ℕ → Session → Ensured
open_cycle uid now bounds a allowance s =
    let cycle : CreditCycle = record {
      id = next_id s;
      user_id = uid;
      cycle_index = bounds.index;
      starts_at = bounds.starts_at;
      ends_at = bounds.ends_at;
      plan = a.plan;
      allowance_microcredits = allowance;
      created_at = now;
    } in
    let s1 = drawn s in
    let s2 : Session = record s1 { cycles = s1.cycles ++ cycle ∷ [] } in
    let base_grant : CreditGrant = record {
      id = next_id s2;
      user_id = uid;
      cycle_id = some cycle.id;
      kind = base;
      created_at = now;
      expires_at = some bounds.ends_at;
      granted_microcredits = allowance;
      reserved_microcredits = 0;
      consumed_microcredits = 0;
      expired_microcredits = 0;
      reason_code = "cycle_base";
    } in
    let s3 = drawn s2 in
    let s4 : Session = record s3 { grants = s3.grants ++ base_grant ∷ [] } in
    let s5 =
      add_event
        (record {
          id = next_id s4;
          user_id = uid;
          grant_id = base_grant.id;
          kind = Tables.grant;
          operation_key = cycle_base_key bounds.index;
          rate_card_version = rate_card_version;
          granted_delta = pos allowance;
          reserved_delta = pos 0;
          consumed_delta = pos 0;
          expired_delta = pos 0;
          created_at = now;
          reason_code = "cycle_base";
        })
        (drawn s4) in
    record { account = a; cycle = cycle; base = base_grant; session = s5 }
