-- ===== src/Credit/Accounting/Terminal/Calls.antt =====
-- What `settle` and `release` ask of `_terminal`, in backend/app/credit_accounting.py.
use ai_multimodal_platform.Prelude.{ℕ, ◌≡◌, refl, String, Bool, true, false, List, arith, inl, inr}
use ai_multimodal_platform.Prelude.Result.{ok, Result-cases}
use ai_multimodal_platform.Credit.Tables.{Session}
use ai_multimodal_platform.Credit.Accounting.{RawLine, usage}
use ai_multimodal_platform.Credit.Accounting.Terminal.{
  Request, TerminalReceipt, terminal, settle, release,
}

-- The checked request of a call that returned, and its answer.
pub record IsAsked (uid rid now : ℕ) (key : String) (charge : Bool) (s : Session)
    (out : TerminalReceipt × Session) : Type 0 where
  pub request : Request
  pub user : request.user_id ≡ uid
  pub hold : request.reservation_id ≡ rid
  pub under : request.key ≡ key
  pub at : request.now ≡ now
  pub charged : request.charge ≡ charge
  pub answered : terminal request s ≡ ok out

pub settle-IsAsked :
    (uid rid : ℕ) (raw : List RawLine) (delivery key : String) (now : ℕ) (s : Session)
    (out : TerminalReceipt × Session)
    → settle uid rid raw delivery key now s ≡ ok out
    → IsAsked uid rid now key true s out
unfolding settle
settle-IsAsked uid rid raw delivery key now s out h = elim (Result-cases (usage false raw)) [
  | inr (c, e) ↦ absurd (ground (arith, e, h))
  | inl (lines, e) ↦
      let q : Request = record {
        user_id = uid;
        reservation_id = rid;
        lines = lines;
        delivery = delivery;
        reason = "usage_settled";
        key = key;
        now = now;
        charge = true;
      } in
      record {
        request = q;
        user = refl;
        hold = refl;
        under = refl;
        at = refl;
        charged = refl;
        answered = ground (arith, e, h);
      }
]

pub release-IsAsked :
    (uid rid : ℕ) (raw : List RawLine) (reason key : String) (now : ℕ) (s : Session)
    (out : TerminalReceipt × Session)
    → release uid rid raw reason key now s ≡ ok out
    → IsAsked uid rid now key false s out
unfolding release
release-IsAsked uid rid raw reason key now s out h = elim (Result-cases (usage true raw)) [
  | inr (c, e) ↦ absurd (ground (arith, e, h))
  | inl (lines, e) ↦
      let q : Request = record {
        user_id = uid;
        reservation_id = rid;
        lines = lines;
        delivery = "no_deliverable";
        reason = reason;
        key = key;
        now = now;
        charge = false;
      } in
      record {
        request = q;
        user = refl;
        hold = refl;
        under = refl;
        at = refl;
        charged = refl;
        answered = ground (arith, e, h);
      }
]
