-- ===== src/Credit/Lifecycle/Ensure.antt =====
-- `_ensure` and `ensure_cycle`: create the account on first use, expire what has run out and open
-- the cycle that holds `now`.
pub mod Keeps
use ai_multimodal_platform.Prelude.{
  ℕ, ◌+◌, Bool, Option, none, some, List, [], ◌∷◌, ◌++◌, length, ltb, leb, ◌==◌, ◌||◌, not,
  if◌then◌else◌,
}
use ai_multimodal_platform.Prelude.Int.{pos}
use ai_multimodal_platform.Prelude.Result.{Result, ok, err, ◌>>=◌, ◌>>◌, fail_if, or_fail}
use ai_multimodal_platform.Credit.Code.{
  Code, or_code, credit_input_invalid, credit_account_inconsistent, credit_clock_regressed,
}
use ai_multimodal_platform.Credit.Policy.{Plan, PlanPolicy, plan_policy, CycleBounds, cycle_bounds}
use ai_multimodal_platform.Credit.Tables.{
  User, CreditAccount, CreditCycle, CreditGrant, Session, latest_cycle, grants_of,
}
use ai_multimodal_platform.Credit.Lifecycle.{
  load, capacity, coherent, expire_grants, save_account, new_account, rolled, Ensured, open_cycle,
  is_none, transaction,
}

-- What `_ensure` knows before it touches a grant. A base grant comes with a cycle.
pub record Entry : Type 0 where
  pub account : CreditAccount
  pub current : Option (CreditCycle × CreditGrant)
  pub session : Session

-- The first use of an account: there must be no cycle and no grant yet.
unfoldable pub first_entry : User → ℕ → Session → Result Code Entry
first_entry u now s = do
  let a = new_account u now
  fail_if (not (is_none (latest_cycle u.id s))) credit_account_inconsistent
  fail_if (ltb 0 (length (grants_of u.id s))) credit_account_inconsistent
  ok (record {
    account = a;
    current = none;
    session = record s { accounts = s.accounts ++ a ∷ [] };
  })

unfoldable pub known_entry : User → CreditAccount → CycleBounds → ℕ → Session → Result Code Entry
known_entry u a bounds now s = do
  fail_if (ltb now a.updated_at) credit_clock_regressed
  base ← coherent u a (latest_cycle u.id s) (grants_of u.id s)
  cycle ← or_fail (latest_cycle u.id s) credit_account_inconsistent
  fail_if (ltb bounds.index cycle.cycle_index) credit_clock_regressed
  ok (record { account = a; current = some (cycle, base); session = s })

unfoldable pub entry : User → Option CreditAccount → CycleBounds → ℕ → Session → Result Code Entry
unfolding first_entry known_entry
entry u none bounds now s = first_entry u now s
entry u (some a) bounds now s = known_entry u a bounds now s

unfoldable pub roll : ℕ → ℕ → CycleBounds → CreditAccount → Session → Result Code Ensured
roll uid now bounds a s = do
  policy ← plan_policy (rolled a).plan
  capacity (grants_of uid s) (pos policy.allowance_microcredits)
  ok (open_cycle uid now bounds (rolled a) policy.allowance_microcredits s)

-- A new cycle is opened if there is none, or the latest one lies before the one of `now`.
unfoldable pub current_cycle :
    ℕ
    → ℕ
    → CycleBounds
    → CreditAccount
    → Option (CreditCycle × CreditGrant)
    → Session
    → Result Code Ensured
unfolding roll
current_cycle uid now bounds a none s = roll uid now bounds a s
current_cycle uid now bounds a (some (c, b)) s =
    if ltb c.cycle_index bounds.index
    then roll uid now bounds a s
    else ok (record { account = a; cycle = c; base = b; session = s })

-- `_ensure`
unfoldable pub ensure : User → Option CreditAccount → ℕ → Session → Result Code Ensured
unfolding entry current_cycle
ensure u account now s = do
  bounds ← or_code credit_input_invalid (cycle_bounds u.signed_up_at now)
  e ← entry u account bounds now s
  s' ← expire_grants now (grants_of u.id e.session) e.session
  r ← current_cycle u.id now bounds e.account e.current s'
  capacity (grants_of u.id r.session) (pos 0)
  let touched : CreditAccount = record r.account { updated_at = now }
  ok (record r { account = touched; session = save_account touched r.session })

pub record CycleView : Type 0 where
  pub user_id : ℕ
  pub plan : Plan
  pub pending_plan : Option Plan
  pub cycle_id : ℕ
  pub cycle_index : ℕ
  pub starts_at : ℕ
  pub ends_at : ℕ
  pub allowance_microcredits : ℕ
  pub base_grant_id : ℕ

-- `_view`
unfoldable pub view : Ensured → CycleView
view r = record {
  user_id = r.account.user_id;
  plan = r.account.plan;
  pending_plan = r.account.pending_plan;
  cycle_id = r.cycle.id;
  cycle_index = r.cycle.cycle_index;
  starts_at = r.cycle.starts_at;
  ends_at = r.cycle.ends_at;
  allowance_microcredits = r.cycle.allowance_microcredits;
  base_grant_id = r.base.id;
}

unfoldable pub ensure_cycle : ℕ → ℕ → Session → Result Code (CycleView × Session)
unfolding view
ensure_cycle uid now s =
    transaction s
      (λ s'. do (u, account) ← load uid now s'; r ← ensure u account now s'; ok (view r, r.session))
