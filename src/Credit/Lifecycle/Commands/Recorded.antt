-- ===== src/Credit/Lifecycle/Commands/Recorded.antt =====
-- What backend/app/credit_lifecycle.py records of a command, read again.
use mathlib.Core.Path.{subst}
use ai_multimodal_platform.Prelude.{
  ℕ, ◌≤◌, ◌≡◌, refl, ap, ◌∙◌, String, Bool, true, false, not, Option, none, some, List, [], ◌∷◌,
  ◌++◌, find, ltb, ◌==◌, ◌&&◌, str_eq, arith, inl, inr, Bool-cases, ==_iff, eq_iff,
}
use ai_multimodal_platform.Prelude.Result.{
  Result, ok, err, fail_if, or_fail, >>=-eq-ok, fail_if-eq-ok, or_fail-eq-ok,
}
use ai_multimodal_platform.Credit.Code.{
  Code, credit_input_invalid, credit_idempotency_conflict, credit_user_missing,
}
use ai_multimodal_platform.Credit.Policy.{plan_policy, Plan, free, pro, unknown, rate_card_version}
use ai_multimodal_platform.Credit.Policy
use ai_multimodal_platform.Credit.Tables.{
  User, CreditAccount, CreditCycle, Session, CreditOperation, OperationKind, Outcome, plan_change,
  bonus_grant, user_of, account_of,
}
use ai_multimodal_platform.Credit.Lifecycle.{load, plan_eq, option_eq}
use ai_multimodal_platform.Credit.Lifecycle.Ensure.Keeps.{Keeps}
use ai_multimodal_platform.Credit.Lifecycle.Commands.{
  MutationReceipt, Payload, kind_eq, option_plan_eq, option_str_eq, same_payload, receipt,
  operation_of, replay_of, replay, record_operation, unless_replayed,
}

plan_eq_refl : (p : Plan) → plan_eq p p ≡ true
plan_eq_refl free = refl
plan_eq_refl pro = refl
plan_eq_refl Policy.max = refl
plan_eq_refl (unknown n) = (==_iff n n).1 refl

kind_eq_refl : (k : OperationKind) → kind_eq k k ≡ true
kind_eq_refl plan_change = refl
kind_eq_refl bonus_grant = refl

option_plan_eq_refl : (p : Option Plan) → option_plan_eq p p ≡ true
option_plan_eq_refl none = refl
option_plan_eq_refl (some p) = plan_eq_refl p

option_eq_refl : (n : Option ℕ) → option_eq n n ≡ true
option_eq_refl none = refl
option_eq_refl (some n) = (==_iff n n).1 refl

option_str_eq_refl : (t : Option String) → option_str_eq t t ≡ true
option_str_eq_refl none = refl
option_str_eq_refl (some t) = (eq_iff t t).1 refl

find-append :
    {A : Type 0} (p : A → Bool) (xs : List A) (x : A)
    → find p xs ≡ none
    → p x ≡ true
    → find p (xs ++ x ∷ []) ≡ some x
find-append p [] x h e = rw e refl
find-append p (y ∷ ys) x h e = elim (Bool-cases (p y)) [
  | inl t ↦ let found = rw t at h in absurd cc
  | inr f ↦ rw f (find-append p ys x (rw f at h) e)
]

-- The state after a command: its receipt can be replayed, and the user can still be loaded.
pub record IsRecorded (uid : ℕ) (key : String) (p : Payload) (s : Session)
    (out : MutationReceipt × Session) : Type 0 where
  pub replays : replay uid key p out.1 ≡ ok (some (record (out.0) { replayed = true }))
  pub users : (out.1).users ≡ s.users
  pub in_transaction : (out.1).in_transaction ≡ s.in_transaction

-- A recorded operation is found again, and has its payload.
module _ (uid : ℕ) (key : String) (p : Payload) (now : ℕ) (c : CreditCycle) (gid : Option ℕ)
    (outcome : Outcome) where
  abbrev recorded : CreditOperation
  recorded = record {
    user_id = uid;
    operation_key = key;
    kind = p.kind;
    target_plan = p.target_plan;
    amount_microcredits = p.amount_microcredits;
    expires_at = p.expires_at;
    reason_code = p.reason_code;
    rate_card_version = rate_card_version;
    effective_at = now;
    result_cycle_id = c.id;
    result_grant_id = gid;
    outcome = outcome;
  }

  recorded_payload : same_payload recorded p ≡ true
  unfolding same_payload
  recorded_payload =
      rw
        (
          kind_eq_refl p.kind,
          option_plan_eq_refl p.target_plan,
          option_eq_refl p.amount_microcredits,
          option_eq_refl p.expires_at,
          option_str_eq_refl p.reason_code,
        )
        refl

  recorded_found :
      (operations : List CreditOperation)
      → find (λ o. (o.user_id == uid) && str_eq o.operation_key key) operations ≡ none
      → find (λ o. (o.user_id == uid) && str_eq o.operation_key key) (operations ++ recorded ∷ [])
        ≡ some recorded
  recorded_found operations unused =
      find-append (λ o. (o.user_id == uid) && str_eq o.operation_key key) operations recorded unused
        (rw ((==_iff uid uid).1 refl, (eq_iff key key).1 refl) refl)

  pub record_operation-IsRecorded :
      (s t : Session)
      → Keeps s t
      → operation_of uid key s ≡ none
      → IsRecorded uid key p s (record_operation uid key p now c gid outcome t)
  unfolding replay operation_of replay_of receipt record_operation
  record_operation-IsRecorded s t kept unused =
      let asked = λ (o : CreditOperation). (o.user_id == uid) && str_eq o.operation_key key in
      let before : find asked t.operations ≡ none = ap (find asked) kept.operations ∙ unused in
      record {
        replays = rw (recorded_found t.operations before, recorded_payload) refl;
        users = kept.users;
        in_transaction = kept.in_transaction;
      }

pub ok_eq : {A : Type 0} {x y : A} → ◌≡◌ {A = Result Code A} (ok x) (ok y) → x ≡ y
ok_eq h = cc

replay_of-replayed :
    (p : Payload) (o : Option CreditOperation) {m : MutationReceipt}
    → replay_of p o ≡ ok (some m)
    → m.replayed ≡ true
unfolding replay_of receipt
replay_of-replayed p none h = cc
replay_of-replayed p (some o) {m} h =
    let (_, e, h1) = >>=-eq-ok (fail_if (not (same_payload o p)) credit_idempotency_conflict) _ h in
    let same : receipt o true ≡ m = cc in subst (λ m. m.replayed ≡ true) same refl

replay_of-eq-none : (p : Payload) (o : Option CreditOperation) → replay_of p o ≡ ok none → o ≡ none
unfolding replay_of
replay_of-eq-none p none h = refl
replay_of-eq-none p (some o) h =
    let (_, e, h1) = >>=-eq-ok (fail_if (not (same_payload o p)) credit_idempotency_conflict) _ h in
    cc

replayed-IsRecorded :
    (uid : ℕ) (key : String) (p : Payload) (s : Session) {m : MutationReceipt}
    → replay uid key p s ≡ ok (some m)
    → IsRecorded uid key p s (m, s)
unfolding replay
replayed-IsRecorded uid key p s {m} h = record {
  replays =
      h
      ∙ ap (λ b. ok (some (record m { replayed = b })))
          (replay_of-replayed p (operation_of uid key s) h);
  users = refl;
  in_transaction = refl;
}

replay-eq-none :
    (uid : ℕ) (key : String) (p : Payload) (s : Session)
    → replay uid key p s ≡ ok none
    → operation_of uid key s ≡ none
unfolding replay
replay-eq-none uid key p s h = replay_of-eq-none p (operation_of uid key s) h

pub unless_replayed-IsRecorded :
    (uid : ℕ) (key : String) (p : Payload) (s : Session)
    (found : Result Code (Option MutationReceipt)) (fresh : Result Code (MutationReceipt × Session))
    {out : MutationReceipt × Session}
    → replay uid key p s ≡ found
    → (operation_of uid key s ≡ none → fresh ≡ ok out → IsRecorded uid key p s out)
    → unless_replayed s found fresh ≡ ok out
    → IsRecorded uid key p s out
unless_replayed-IsRecorded uid key p s (err e) fresh found made h = cc
unless_replayed-IsRecorded uid key p s (ok (some m)) fresh found made h =
    subst (IsRecorded uid key p s) (ok_eq h) (replayed-IsRecorded uid key p s found)
unless_replayed-IsRecorded uid key p s (ok none) fresh found made h =
    made (replay-eq-none uid key p s found) h

-- A user that was loaded is loaded at any later time.
pub load-later :
    (uid now later : ℕ) (s t : Session) {out : User × Option CreditAccount}
    → load uid now s ≡ ok out
    → t.users ≡ s.users
    → now ≤ later
    → load uid later t ≡ ok (out.0, account_of uid t)
unfolding load
load-later uid now later s t {out} h users le =
    let (u, e1, h1) = >>=-eq-ok (or_fail (user_of uid s) credit_user_missing) _ h in
    let (_, e2, h2) = >>=-eq-ok (fail_if (ltb now u.signed_up_at) credit_input_invalid) _ h1 in
    let found = or_fail-eq-ok (user_of uid s) credit_user_missing e1 in
    let early = fail_if-eq-ok (ltb now u.signed_up_at) credit_input_invalid e2 in
    let on_time : ltb later u.signed_up_at ≡ false = ground (arith, early, le) in
    let loaded : out.0 ≡ u = cc in rw (users, found, on_time, loaded) refl
