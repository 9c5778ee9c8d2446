-- ===== src/Credit/Lifecycle/Commands/Repeat.antt =====
-- A command of backend/app/credit_lifecycle.py that is repeated under its key.
use mathlib.Core.Path.{subst}
use ai_multimodal_platform.Prelude.{
  ℕ, ◌≤◌, ◌≡◌, refl, ap, ◌∙◌, String, true, not, Option, none, some, ltb, ◌&&◌, ◌||◌, if◌then◌else◌,
  inl, inr, Bool-cases,
}
use ai_multimodal_platform.Prelude.Result.{ok, fail_if, or_fail, >>=-eq-ok}
use ai_multimodal_platform.Credit.Code.{
  credit_input_invalid, credit_plan_refused, key_error, credit_transaction_required,
}
use ai_multimodal_platform.Prelude.Int.{ℤ, pos, sub_ℕ}
use ai_multimodal_platform.Credit.Policy.{plan_policy, Plan, free, pro, unknown, rate_card_version}
use ai_multimodal_platform.Credit.Policy
use ai_multimodal_platform.Credit.Tables.{
  User, CreditAccount, Session, Outcome, account_of, grants_of, unchanged, scheduled, cancelled,
  granted,
}
use ai_multimodal_platform.Credit.Lifecycle.{
  capacity, is_none, load, plan_eq, Ensured, is_suspended, is_master, rank?,
}
use ai_multimodal_platform.Credit.Lifecycle.Ensure.{ensure}
use ai_multimodal_platform.Credit.Lifecycle.Ensure.Keeps.{Keeps, Keeps-trans, ensure-Keeps}
use ai_multimodal_platform.Credit.Lifecycle.Commands.{
  MutationReceipt, option_plan_eq, operation_of, replay, upgrade, with_pending, apply_plan,
  plan_payload, fresh_plan_change, valid_key, change_plan, fresh_bonus, add_bonus, bonus_payload,
  bonus_amount, not_after, fullmatch, is_reason_char, grant_bonus,
}
use ai_multimodal_platform.Credit.Lifecycle.Commands.Recorded.{
  IsRecorded, record_operation-IsRecorded, ok_eq, unless_replayed-IsRecorded, load-later,
}

upgrade-Keeps :
    (uid : ℕ) (key : String) (target : Plan) (now : ℕ) (r : Ensured)
    {out : Ensured × Option ℕ × Outcome}
    → upgrade uid key target now r ≡ ok out
    → Keeps r.session (out.0).session
unfolding upgrade
upgrade-Keeps uid key target now r {out} h =
    let (policy, e1, h1) = >>=-eq-ok (plan_policy target) _ h in
    let (_, e2, h2) =
      >>=-eq-ok
        (capacity (grants_of uid r.session)
          (sub_ℕ policy.allowance_microcredits (r.cycle).allowance_microcredits))
        _ h1 in
    record {
      in_transaction = cc;
      users = cc;
      operations = cc;
      reservations = cc;
      items = cc;
      allocations = cc;
      usage_records = cc;
    }

with_pending-Keeps :
    (p : Option Plan) (outcome : Outcome) (r : Ensured)
    → Keeps r.session ((with_pending p outcome r).0).session
unfolding with_pending
with_pending-Keeps p outcome r = record {
  in_transaction = refl;
  users = refl;
  operations = refl;
  reservations = refl;
  items = refl;
  allocations = refl;
  usage_records = refl;
}

apply_plan-Keeps :
    (uid : ℕ) (key : String) (target : Plan) (wanted rank now : ℕ) (r : Ensured)
    {out : Ensured × Option ℕ × Outcome}
    → apply_plan uid key target wanted rank now r ≡ ok out
    → Keeps r.session (out.0).session
unfolding apply_plan
apply_plan-Keeps uid key target wanted rank now r {out} h = elim (Bool-cases (ltb rank wanted)) [
  | inl e ↦ upgrade-Keeps uid key target now r (rw e at h)
  | inr e ↦
      let h1 = rw e at h in
      elim (Bool-cases (ltb wanted rank)) [
        | inl f ↦
            let outcome =
              if option_plan_eq (r.account).pending_plan (some target)
              then unchanged
              else scheduled in
            let same : with_pending (some target) outcome r ≡ out = ok_eq (rw f at h1) in
            subst (λ o. Keeps r.session (o.0).session) same
              (with_pending-Keeps (some target) outcome r)
        | inr f ↦
            let outcome = if is_none (r.account).pending_plan then unchanged else cancelled in
            let same : with_pending none outcome r ≡ out = ok_eq (rw f at h1) in
            subst (λ o. Keeps r.session (o.0).session) same (with_pending-Keeps none outcome r)
      ]
]

fresh_plan_change-IsRecorded :
    (uid : ℕ) (target : Plan) (wanted : ℕ) (key : String) (now : ℕ) (u : User)
    (account : Option CreditAccount) (s : Session) {out : MutationReceipt × Session}
    → operation_of uid key s ≡ none
    → fresh_plan_change uid target wanted key now u account s ≡ ok out
    → IsRecorded uid key (plan_payload target) s out
unfolding fresh_plan_change
fresh_plan_change-IsRecorded uid target wanted key now u account s {out} unused h =
    let refused = is_suspended u || (is_master u && not (plan_eq target Policy.max)) in
    let (_, e1, h1) = >>=-eq-ok (fail_if refused credit_plan_refused) _ h in
    let (r, e2, h2) = >>=-eq-ok (ensure u account now s) _ h1 in
    let (rank, e3, h3) = >>=-eq-ok (or_fail (rank? (r.account).plan) key_error) _ h2 in
    let (applied, e4, h4) = >>=-eq-ok (apply_plan uid key target wanted rank now r) _ h3 in
    let kept =
      Keeps-trans (ensure-Keeps u account now s r e2)
        (apply_plan-Keeps uid key target wanted rank now r e4) in
    let done =
      record_operation-IsRecorded uid key (plan_payload target) now (applied.0).cycle (applied.1)
        (applied.2) s (applied.0).session kept unused in
    subst (IsRecorded uid key (plan_payload target) s) (ok_eq h4) done

-- A plan change that is repeated later under its key, on the session that it left, is answered with
-- the receipt of the first call, marked as replayed, and changes nothing.
pub change_plan-repeated :
    (uid : ℕ) (target : Plan) (key : String) (now later : ℕ) (s : Session) {r : MutationReceipt}
    {t : Session}
    → change_plan uid target key now s ≡ ok (r, t)
    → now ≤ later
    → change_plan uid target key later t ≡ ok (record r { replayed = true }, t)
unfolding change_plan load
change_plan-repeated uid target key now later s {r} {t} h le =
    let p = plan_payload target in
    let (_, e1, h1) = >>=-eq-ok (fail_if (not (valid_key key)) credit_input_invalid) _ h in
    let (wanted, e2, h2) = >>=-eq-ok (or_fail (rank? target) credit_input_invalid) _ h1 in
    let (_, e3, h3) = >>=-eq-ok (fail_if (not s.in_transaction) credit_transaction_required) _ h2 in
    let (loaded, e4, h4) = >>=-eq-ok (load uid now s) _ h3 in
    let done =
      unless_replayed-IsRecorded uid key p s (replay uid key p s)
        (fresh_plan_change uid target wanted key now loaded.0 loaded.1 s) refl
        (λ unused e.
          fresh_plan_change-IsRecorded uid target wanted key now loaded.0 loaded.1 s unused e)
        h4 in
    rw
      (e1, e2, done.in_transaction, e3, load-later uid now later s t e4 done.users le, done.replays)
      refl

fresh_bonus-IsRecorded :
    (uid amount : ℕ) (expiry : Option ℕ) (reason key : String) (now : ℕ) (u : User)
    (account : Option CreditAccount) (s : Session) {out : MutationReceipt × Session}
    → operation_of uid key s ≡ none
    → fresh_bonus uid amount expiry reason key now u account s ≡ ok out
    → IsRecorded uid key (bonus_payload amount expiry reason) s out
unfolding fresh_bonus add_bonus
fresh_bonus-IsRecorded uid amount expiry reason key now u account s {out} unused h =
    let (_, e1, h1) = >>=-eq-ok (fail_if (is_suspended u) credit_plan_refused) _ h in
    let (_, e2, h2) = >>=-eq-ok (fail_if (not_after expiry now) credit_input_invalid) _ h1 in
    let (r, e3, h3) = >>=-eq-ok (ensure u account now s) _ h2 in
    let (_, e4, h4) = >>=-eq-ok (capacity (grants_of uid r.session) (pos amount)) _ h3 in
    let added = add_bonus uid amount expiry reason key now r.session in
    let k = ensure-Keeps u account now s r e3 in
    let kept : Keeps s added.1 = record {
      in_transaction = k.in_transaction;
      users = k.users;
      operations = k.operations;
      reservations = k.reservations;
      items = k.items;
      allocations = k.allocations;
      usage_records = k.usage_records;
    } in
    let done =
      record_operation-IsRecorded uid key (bonus_payload amount expiry reason) now r.cycle
        (some added.0) granted s added.1 kept unused in
    subst (IsRecorded uid key (bonus_payload amount expiry reason) s) (ok_eq h4) done

-- A call that passes its checks and finds its operation.
grant_bonus-replay :
    (uid n : ℕ) (amount : ℤ) (expiry : Option ℕ) (reason key : String) (now : ℕ) (s : Session)
    (loaded : User × Option CreditAccount) (m : MutationReceipt)
    → fail_if (not (valid_key key)) credit_input_invalid ≡ ok tt
    → or_fail (bonus_amount amount) credit_input_invalid ≡ ok n
    → fail_if (not (fullmatch is_reason_char 64 reason)) credit_input_invalid ≡ ok tt
    → fail_if (not s.in_transaction) credit_transaction_required ≡ ok tt
    → load uid now s ≡ ok loaded
    → replay uid key (bonus_payload n expiry reason) s ≡ ok (some m)
    → grant_bonus uid amount expiry reason key now s ≡ ok (m, s)
unfolding grant_bonus
grant_bonus-replay uid n amount expiry reason key now s loaded m e1 e2 e3 e4 e5 e6 =
    rw (e1, e2, e3, e4, e5, e6) refl

-- A bonus that is repeated later under its key, on the session that it left, is answered with the
-- receipt of the first call, marked as replayed, and grants nothing more.
pub grant_bonus-repeated :
    (uid : ℕ) (amount : ℤ) (expiry : Option ℕ) (reason key : String) (now later : ℕ) (s : Session)
    {r : MutationReceipt} {t : Session}
    → grant_bonus uid amount expiry reason key now s ≡ ok (r, t)
    → now ≤ later
    → grant_bonus uid amount expiry reason key later t ≡ ok (record r { replayed = true }, t)
unfolding grant_bonus
grant_bonus-repeated uid amount expiry reason key now later s {r} {t} h le =
    let (_, e1, h1) = >>=-eq-ok (fail_if (not (valid_key key)) credit_input_invalid) _ h in
    let (n, e2, h2) = >>=-eq-ok (or_fail (bonus_amount amount) credit_input_invalid) _ h1 in
    let (_, e3, h3) =
      >>=-eq-ok (fail_if (not (fullmatch is_reason_char 64 reason)) credit_input_invalid) _ h2 in
    let (_, e4, h4) = >>=-eq-ok (fail_if (not s.in_transaction) credit_transaction_required) _ h3 in
    let (loaded, e5, h5) = >>=-eq-ok (load uid now s) _ h4 in
    let p = bonus_payload n expiry reason in
    let done =
      unless_replayed-IsRecorded uid key p s (replay uid key p s)
        (fresh_bonus uid n expiry reason key now loaded.0 loaded.1 s) refl
        (λ unused e.
          fresh_bonus-IsRecorded uid n expiry reason key now loaded.0 loaded.1 s unused e)
        h5 in
    grant_bonus-replay uid n amount expiry reason key later t (loaded.0, account_of uid t)
      (record r { replayed = true }) e1 e2 e3
      (ap (λ b. fail_if (not b) credit_transaction_required) done.in_transaction ∙ e4)
      (load-later uid now later s t e5 done.users le) done.replays
