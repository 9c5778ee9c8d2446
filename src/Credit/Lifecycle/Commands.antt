-- ===== src/Credit/Lifecycle/Commands.antt =====
-- `change_plan` and `grant_bonus`: idempotent commands, recorded under the caller's key.
mod Recorded
pub mod Repeat
mod Tests
use ai_multimodal_platform.Prelude.{
  ℕ, ◌+◌, String, Bool, true, false, Option, none, some, List, [], ◌∷◌, ◌++◌, length, every, find,
  ltb, leb, ◌==◌, str_eq, ◌&&◌, ◌||◌, not, if◌then◌else◌,
}
use Prim.Native.Char.{code}
use ai_multimodal_platform.Prelude.Int.{ℤ, pos, negsuc, pos_part, sub_ℕ}
use ai_multimodal_platform.Prelude.Result.{Result, ok, err, ◌>>=◌, ◌>>◌, fail_if, or_fail}
use ai_multimodal_platform.Credit.Code.{
  Code, credit_input_invalid, credit_plan_refused, credit_idempotency_conflict, key_error,
}
use ai_multimodal_platform.Credit.Policy.{
  Plan, PlanPolicy, plan_policy, max_bigint, rate_card_version,
}
use ai_multimodal_platform.Credit.Policy
use ai_multimodal_platform.Credit.Tables.{
  User, CreditAccount, CreditCycle, CreditGrant, Session, CreditOperation, OperationKind, Outcome,
  plan_change, bonus_grant, upgraded, scheduled, cancelled, unchanged, granted, bonus, grants_of,
  update_grant, add_event, next_id, drawn, command_key,
}
use ai_multimodal_platform.Credit.Tables
use ai_multimodal_platform.Credit.Lifecycle.{
  load, capacity, save_account, save_cycle, rank?, plan_eq, is_master, is_suspended, option_eq,
  is_none, transaction, Ensured,
}
use ai_multimodal_platform.Credit.Lifecycle.Ensure.{ensure}

-- The code points of a text.
abbrev pub codes : String → List ℕ
codes String.[] = []
codes (String.◌∷◌ c s) = code c ∷ codes s

-- `[a-z0-9_]` and `[A-Za-z0-9_-]`
abbrev pub is_reason_char : ℕ → Bool
is_reason_char c = (leb b'a' c && leb c b'z') || (leb b'0' c && leb c b'9') || c == b'_'

abbrev pub is_key_char : ℕ → Bool
is_key_char c = is_reason_char c || (leb b'A' c && leb c b'Z') || c == b'-'

-- `re.fullmatch` of a class with `{1,n}`
abbrev pub fullmatch : (ℕ → Bool) → ℕ → String → Bool
fullmatch p n s = let cs = codes s in ltb 0 (length cs) && leb (length cs) n && every p cs

-- `_key`
unfoldable pub valid_key : String → Bool
valid_key = fullmatch is_key_char 96

pub record MutationReceipt : Type 0 where
  pub operation_key : String
  pub kind : OperationKind
  pub outcome : Outcome
  pub effective_at : ℕ
  pub cycle_id : ℕ
  pub grant_id : Option ℕ
  pub replayed : Bool

-- `payload`: the columns of an operation that the caller chose.
pub record Payload : Type 0 where
  pub kind : OperationKind
  pub target_plan : Option Plan
  pub amount_microcredits : Option ℕ
  pub expires_at : Option ℕ
  pub reason_code : Option String

abbrev kind_eq : OperationKind → OperationKind → Bool
kind_eq plan_change plan_change = true
kind_eq bonus_grant bonus_grant = true
kind_eq _ _ = false

abbrev option_plan_eq : Option Plan → Option Plan → Bool
option_plan_eq none none = true
option_plan_eq (some a) (some b) = plan_eq a b
option_plan_eq _ _ = false

abbrev pub option_str_eq : Option String → Option String → Bool
option_str_eq none none = true
option_str_eq (some a) (some b) = str_eq a b
option_str_eq _ _ = false

-- No column of the stored operation differs from the payload.
same_payload : CreditOperation → Payload → Bool
same_payload o p =
    kind_eq o.kind p.kind
    && option_plan_eq o.target_plan p.target_plan
    && option_eq o.amount_microcredits p.amount_microcredits
    && option_eq o.expires_at p.expires_at
    && option_str_eq o.reason_code p.reason_code

receipt : CreditOperation → Bool → MutationReceipt
receipt o replayed = record {
  operation_key = o.operation_key;
  kind = o.kind;
  outcome = o.outcome;
  effective_at = o.effective_at;
  cycle_id = o.result_cycle_id;
  grant_id = o.result_grant_id;
  replayed = replayed;
}

pub operation_of : ℕ → String → Session → Option CreditOperation
operation_of uid key s = find (λ o. (o.user_id == uid) && str_eq o.operation_key key) s.operations

replay_of : Payload → Option CreditOperation → Result Code (Option MutationReceipt)
unfolding same_payload receipt
replay_of p none = ok none
replay_of p (some o) = do
  fail_if (not (same_payload o p)) credit_idempotency_conflict
  ok (some (receipt o true))

-- `_replay`
pub replay : ℕ → String → Payload → Session → Result Code (Option MutationReceipt)
unfolding operation_of replay_of
replay uid key p s = replay_of p (operation_of uid key s)

-- `_record`
pub record_operation :
    ℕ
    → String
    → Payload
    → ℕ
    → CreditCycle
    → Option ℕ
    → Outcome
    → Session
    → MutationReceipt × Session
unfolding receipt
record_operation uid key p now c gid outcome s =
    let o : CreditOperation = record {
      user_id = uid;
      operation_key = key;
      kind = p.kind;
      target_plan = p.target_plan;
      amount_microcredits = p.amount_microcredits;
      expires_at = p.expires_at;
      reason_code = p.reason_code;
      rate_card_version = rate_card_version;
      effective_at = now;
      result_cycle_id = c.id;
      result_grant_id = gid;
      outcome = outcome;
    } in
    (receipt o false, record s { operations = s.operations ++ o ∷ [] })

-- The upgrade branch: the base grant grows at once by the difference of the allowances.
upgrade : ℕ → String → Plan → ℕ → Ensured → Result Code (Ensured × Option ℕ × Outcome)
upgrade uid key target now r = do
  policy ← plan_policy target
  let delta = sub_ℕ policy.allowance_microcredits r.cycle.allowance_microcredits
  capacity (grants_of uid r.session) delta
  let s1 =
      update_grant r.base.id
        (λ g. record g { granted_microcredits = g.granted_microcredits + pos_part delta }) r.session
  let c : CreditCycle = record r.cycle {
    plan = target;
    allowance_microcredits = policy.allowance_microcredits;
  }
  let a : CreditAccount = record r.account { plan = target; pending_plan = none }
  let s2 = save_account a (save_cycle c s1)
  let s3 =
      add_event
        (record {
          id = next_id s2;
          user_id = r.base.user_id;
          grant_id = r.base.id;
          kind = Tables.adjust;
          operation_key = command_key key;
          rate_card_version = rate_card_version;
          granted_delta = delta;
          reserved_delta = pos 0;
          consumed_delta = pos 0;
          expired_delta = pos 0;
          created_at = now;
          reason_code = "plan_upgrade";
        })
        (drawn s2)
  ok (record r { account = a; cycle = c; session = s3 }, some r.base.id, upgraded)

with_pending : Option Plan → Outcome → Ensured → Ensured × Option ℕ × Outcome
with_pending p outcome r =
    let a : CreditAccount = record r.account { pending_plan = p } in
    (record r { account = a; session = save_account a r.session }, none, outcome)

-- The three branches of `change_plan`, by the ranks of the target and of the current plan.
apply_plan : ℕ → String → Plan → ℕ → ℕ → ℕ → Ensured → Result Code (Ensured × Option ℕ × Outcome)
unfolding upgrade with_pending
apply_plan uid key target wanted rank now r =
    if ltb rank wanted
    then upgrade uid key target now r
    else if ltb wanted rank
    then ok (
        with_pending (some target)
          (if option_plan_eq r.account.pending_plan (some target) then unchanged else scheduled) r)
    else ok (with_pending none (if is_none r.account.pending_plan then unchanged else cancelled) r)

plan_payload : Plan → Payload
plan_payload target = record {
  kind = plan_change;
  target_plan = some target;
  amount_microcredits = none;
  expires_at = none;
  reason_code = none;
}

-- The rest of `change_plan` after a key that was not used yet.
fresh_plan_change :
    ℕ
    → Plan
    → ℕ
    → String
    → ℕ
    → User
    → Option CreditAccount
    → Session
    → Result Code (MutationReceipt × Session)
unfolding apply_plan record_operation plan_payload
fresh_plan_change uid target wanted key now u account s = do
  fail_if (is_suspended u || (is_master u && not (plan_eq target Policy.max))) credit_plan_refused
  r ← ensure u account now s
  rank ← or_fail (rank? r.account.plan) key_error
  (r', gid, outcome) ← apply_plan uid key target wanted rank now r
  ok (record_operation uid key (plan_payload target) now r'.cycle gid outcome r'.session)

abbrev unless_replayed :
    Session
    → Result Code (Option MutationReceipt)
    → Result Code (MutationReceipt × Session)
    → Result Code (MutationReceipt × Session)
unless_replayed s (err e) fresh = err e
unless_replayed s (ok (some receipt)) fresh = ok (receipt, s)
unless_replayed s (ok none) fresh = fresh

pub change_plan : ℕ → Plan → String → ℕ → Session → Result Code (MutationReceipt × Session)
unfolding valid_key replay fresh_plan_change plan_payload
change_plan uid target key now s = do
  fail_if (not (valid_key key)) credit_input_invalid
  wanted ← or_fail (rank? target) credit_input_invalid
  transaction s (λ s'. do
    (u, account) ← load uid now s'
    let fresh = fresh_plan_change uid target wanted key now u account s'
    unless_replayed s' (replay uid key (plan_payload target) s') fresh)

-- `not 0 < amount <= _MAX`
abbrev bonus_amount : ℤ → Option ℕ
bonus_amount (pos n) = if ltb 0 n && leb n max_bigint then some n else none
bonus_amount (negsuc n) = none

bonus_payload : ℕ → Option ℕ → String → Payload
bonus_payload amount expiry reason = record {
  kind = bonus_grant;
  target_plan = none;
  amount_microcredits = some amount;
  expires_at = expiry;
  reason_code = some reason;
}

abbrev not_after : Option ℕ → ℕ → Bool
not_after none now = false
not_after (some at) now = leb at now

-- The grant of a bonus and its event.
add_bonus : ℕ → ℕ → Option ℕ → String → String → ℕ → Session → ℕ × Session
add_bonus uid amount expiry reason key now s =
    let g : CreditGrant = record {
      id = next_id s;
      user_id = uid;
      cycle_id = none;
      kind = bonus;
      created_at = now;
      expires_at = expiry;
      reason_code = reason;
      granted_microcredits = amount;
      reserved_microcredits = 0;
      consumed_microcredits = 0;
      expired_microcredits = 0;
    } in
    let s1 = drawn s in
    let s2 : Session = record s1 { grants = s1.grants ++ g ∷ [] } in
    (
      g.id,
      add_event
          (record {
            id = next_id s2;
            user_id = uid;
            grant_id = g.id;
            kind = Tables.grant;
            operation_key = command_key key;
            rate_card_version = rate_card_version;
            granted_delta = pos amount;
            reserved_delta = pos 0;
            consumed_delta = pos 0;
            expired_delta = pos 0;
            created_at = now;
            reason_code = reason;
          })
          (drawn s2),
    )

fresh_bonus :
    ℕ
    → ℕ
    → Option ℕ
    → String
    → String
    → ℕ
    → User
    → Option CreditAccount
    → Session
    → Result Code (MutationReceipt × Session)
unfolding add_bonus record_operation bonus_payload
fresh_bonus uid amount expiry reason key now u account s = do
  fail_if (is_suspended u) credit_plan_refused
  fail_if (not_after expiry now) credit_input_invalid
  r ← ensure u account now s
  capacity (grants_of uid r.session) (pos amount)
  let (gid, s') = add_bonus uid amount expiry reason key now r.session
  ok (
      record_operation uid key (bonus_payload amount expiry reason) now r.cycle (some gid) granted
        s')

pub grant_bonus :
    ℕ → ℤ → Option ℕ → String → String → ℕ → Session → Result Code (MutationReceipt × Session)
unfolding valid_key replay fresh_bonus bonus_payload
grant_bonus uid amount expiry reason key now s = do
  fail_if (not (valid_key key)) credit_input_invalid
  n ← or_fail (bonus_amount amount) credit_input_invalid
  fail_if (not (fullmatch is_reason_char 64 reason)) credit_input_invalid
  transaction s (λ s'. do
    (u, account) ← load uid now s'
    let fresh = fresh_bonus uid n expiry reason key now u account s'
    unless_replayed s' (replay uid key (bonus_payload n expiry reason) s') fresh)
