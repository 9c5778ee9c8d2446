-- ===== src/Prompt/Outcome.antt =====
-- How `execute_prompt_enhancement` of backend/app/prompt_credit.py ends.

use ai_multimodal_platform.Prelude.{
  ℕ, ◌≡◌, refl, ap, ◌∙◌, ◌⊎◌, inl, inr, String, true, false, not, Option, none, some, List, [], ◌∷◌,
  ◌++◌, any, find, ◌==◌, ◌&&◌, str_eq, arith, Bool-cases, ==_iff,
}
use ai_multimodal_platform.Prelude.Result.{
  Result, ok, err, fail_if, Result-cases, >>=-eq-ok, fail_if-eq-ok,
}
use ai_multimodal_platform.Credit.Code.{Code}
use ai_multimodal_platform.Credit.Tables.{Session}
use ai_multimodal_platform.Credit.Accounting.{RawLine, is_reason}
use ai_multimodal_platform.Credit.Accounting.Reserve.{ReservationReceipt, reserve}
use ai_multimodal_platform.Credit.Accounting.Reserve.Outcome.{IsHold, reserve-IsHold}
use ai_multimodal_platform.Credit.Accounting.Terminal.{TerminalReceipt, settle, release}
use ai_multimodal_platform.Credit.Accounting.Terminal.Calls.{IsAsked, settle-IsAsked}
use ai_multimodal_platform.Credit.Accounting.Terminal.Outcome.{IsClosed, terminal-IsClosed}
use ai_multimodal_platform.Generation.{UuidText}
use ai_multimodal_platform.Prompt.{
  PromptEnhancement, PromptEnhanceRequest, PromptEnhancementPlan, PromptEnhancementResult,
  EnhancerAnswer, answered, refused, raised, PromptError, prompt_credit, vertex, other,
  PromptCreditOutcome, Store, begin_transaction, committed, settle_error, stored_preset, matches,
  replay, usage_report,
}
use ai_multimodal_platform.Prompt.Execute.{
  Times, Entered, holds, replayed_code, estimates_of, or_reserve_error, release_code, is_timeout,
  record_of, outcome_of, after_release, prompt_reserve_key, prompt_terminal_key, release_hold,
  hold_credits, enter_found, enter, after_settle, store_result, after_report, finish, after_enter,
  execute_prompt_enhancement,
}

release_code-is_reason :
    (code : String) (status : Option ℕ) → is_reason (release_code code status) ≡ true
release_code-is_reason code status = elim (Bool-cases (str_eq code "vertex_rate_limited")) [
  | inl e ↦ rw e refl
  | inr e ↦ elim (Bool-cases (is_timeout status)) [
    | inl f ↦ rw (e, f) refl
    | inr f ↦ rw (e, f) refl
  ]
]

after_release-enhancements :
    (store : Store) (r : Result Code (TerminalReceipt × Session))
    → (after_release store r).enhancements ≡ store.enhancements
after_release-enhancements store (ok (t, s)) = refl
after_release-enhancements store (err e) = refl

or_reserve_error-eq-ok :
    {A : Type 0} (r : Result Code A) {a : A} → or_reserve_error r ≡ ok a → r ≡ ok a
or_reserve_error-eq-ok (ok x) h = cc
or_reserve_error-eq-ok (err e) h = cc

module _ (uuid : UuidText) (actor : ℕ) (payload : PromptEnhanceRequest) where
  -- The settlement of a hold, and what it comes to.
  pub record IsSettled (reservation_id now : ℕ) (s : Session) (t : TerminalReceipt × Session)
      : Type 0 where
    pub asked : IsAsked actor reservation_id now (prompt_terminal_key uuid actor payload) true s t
    pub ended : ((t.0.replayed ≡ true) × (t.1 ≡ s)) ⊎ IsClosed asked.request s t

  -- The release of the hold was committed with the enhancements as they are, or refused, and then
  -- nothing was written.
  abbrev pub IsReleased : ℕ → String → List RawLine → ℕ → Store → Store → Type 0
  IsReleased reservation_id reason lines now current after =
      let call =
        release actor reservation_id lines reason (prompt_terminal_key uuid actor payload) now
          (begin_transaction current) in
      ((t : TerminalReceipt × Session) × (call ≡ ok t)
        × (after ≡ committed current.enhancements t.1))
      ⊎ ((e : Code) × (call ≡ err e) × (after ≡ current))

  -- What becomes of a hold, on the tables as they are after the provider's answer: it is settled by
  -- the commit that stores the enhancement; or it is released, for a reason that the accounting
  -- accepts, and no enhancement is stored; or an exception of another class passes.
  pub data HoldEnds (times : Times) (held : ReservationReceipt) (answer : EnhancerAnswer)
      (current : Store) (out : Store × Result PromptError PromptCreditOutcome) : Type 0 where
    delivered :
        (result : PromptEnhancementResult) (t : TerminalReceipt × Session)
        → answer ≡ answered result
        → any (λ e. e.id == payload.request_id) current.enhancements ≡ false
        → IsSettled held.reservation_id times.terminal_at (begin_transaction current) t
        → out.0 ≡ committed (current.enhancements ++ record_of actor payload result ∷ []) t.1
        → out.1 ≡ ok (outcome_of actor payload result)
        → HoldEnds times held answer current out
    released :
        (reason : String) (lines : List RawLine) (now : ℕ) (e : PromptError)
        → is_reason reason ≡ true
        → out.0 ≡ release_hold uuid actor payload held.reservation_id reason lines now current
        → IsReleased held.reservation_id reason lines now current out.0
        → (out.0).enhancements ≡ current.enhancements
        → out.1 ≡ err e
        → HoldEnds times held answer current out
    passed :
        (text : String)
        → answer ≡ raised text
        → out.0 ≡ current
        → out.1 ≡ err (other text)
        → HoldEnds times held answer current out

  settle-IsSettled :
      (rid now : ℕ) (lines : List RawLine) (s : Session) (t : TerminalReceipt × Session)
      → settle actor rid lines "delivered" (prompt_terminal_key uuid actor payload) now s ≡ ok t
      → IsSettled rid now s t
  settle-IsSettled rid now lines s t h =
      let asked =
        settle-IsAsked actor rid lines "delivered" (prompt_terminal_key uuid actor payload) now s t
          h in
      record { asked = asked; ended = terminal-IsClosed asked.request s t asked.answered }

  release-HoldEnds :
      (times : Times) (held : ReservationReceipt) (answer : EnhancerAnswer) (current : Store)
      (reason : String) (lines : List RawLine) (now : ℕ) (e : PromptError)
      → is_reason reason ≡ true
      → HoldEnds times held answer current
          (release_hold uuid actor payload held.reservation_id reason lines now current, err e)
  unfolding release_hold
  release-HoldEnds times held answer current reason lines now e known =
      let call =
        release actor held.reservation_id lines reason (prompt_terminal_key uuid actor payload) now
          (begin_transaction current) in
      let ended : IsReleased held.reservation_id reason lines now current
          (after_release current call) =
        elim (Result-cases call) [
          | inl (t, e1) ↦ rw e1 (inl (t, refl, refl))
          | inr (c, e1) ↦ rw e1 (inr (c, refl, refl))
        ] in
      released reason lines now e known refl ended (after_release-enhancements current _) refl

  after_settle-HoldEnds :
      (times : Times) (held : ReservationReceipt) (result : PromptEnhancementResult)
      (lines : List RawLine) (current : Store) (r : Result Code (TerminalReceipt × Session))
      → any (λ e. e.id == payload.request_id) current.enhancements ≡ false
      → settle actor held.reservation_id lines "delivered"
          (prompt_terminal_key uuid actor payload)
          times.terminal_at
          (begin_transaction current)
        ≡ r
      → HoldEnds times held
          (answered result)
          current
          (after_settle uuid actor payload times held result lines current r)
  after_settle-HoldEnds times held result lines current (ok (receipt, s)) free h =
      delivered result (receipt, s) refl free
        (settle-IsSettled held.reservation_id times.terminal_at lines (begin_transaction current)
          (receipt, s) h)
        refl refl
  after_settle-HoldEnds times held result lines current (err e) free h =
      release-HoldEnds times held (answered result) current "delivery_failed" lines
        times.released_at (settle_error e) refl

  store_result-HoldEnds :
      (times : Times) (held : ReservationReceipt) (result : PromptEnhancementResult)
      (lines : List RawLine) (current : Store)
      → HoldEnds times held
          (answered result)
          current
          (store_result uuid actor payload times held result lines current)
  unfolding store_result
  store_result-HoldEnds times held result lines current =
      elim (Bool-cases (any (λ e. e.id == payload.request_id) current.enhancements)) [
        | inl e ↦ rw e (
            release-HoldEnds times held (answered result) current "delivery_failed" lines
              times.released_at (prompt_credit "credit_account_unavailable") refl)
        | inr e ↦ rw e (after_settle-HoldEnds times held result lines current _ e refl)
      ]

  after_report-HoldEnds :
      (times : Times) (held : ReservationReceipt) (result : PromptEnhancementResult)
      (current : Store) (r : Result PromptError (List RawLine))
      → HoldEnds times held
          (answered result)
          current
          (after_report uuid actor payload times held result current r)
  after_report-HoldEnds times held result current (ok lines) =
      store_result-HoldEnds times held result lines current
  after_report-HoldEnds times held result current (err e) =
      release-HoldEnds times held (answered result) current "delivery_failed" [] times.terminal_at e
        refl

  finish-HoldEnds :
      (times : Times) (held : ReservationReceipt) (answer : EnhancerAnswer) (current : Store)
      → HoldEnds times held answer current (finish uuid actor payload times held answer current)
  unfolding finish
  finish-HoldEnds times held (answered result) current =
      after_report-HoldEnds times held result current (usage_report result)
  finish-HoldEnds times held (refused code status) current =
      release-HoldEnds times held (refused code status) current (release_code code status) []
        times.terminal_at (vertex code status) (release_code-is_reason code status)
  finish-HoldEnds times held (raised text) current = passed text refl refl refl

  -- How a call ends: it replays a stored enhancement of the actor; it raises before a hold was made;
  -- or it made a hold, which ends on the tables that other sessions left.
  pub data CallEnds (times : Times) (answer : EnhancerAnswer) (between : Store → Store)
      (store : Store) (out : Store × Result PromptError PromptCreditOutcome) : Type 0 where
    replayed :
        (existing : PromptEnhancement) (outcome : PromptCreditOutcome)
        → find (λ e. e.id == payload.request_id) store.enhancements ≡ some existing
        → existing.owner_user_id ≡ actor
        → outcome.enhancement ≡ existing
        → out ≡ (store, ok outcome)
        → CallEnds times answer between store out
    unheld : (e : PromptError) → out ≡ (store, err e) → CallEnds times answer between store out
    held :
        (r : ReservationReceipt) (s : Session)
        → IsHold actor (begin_transaction store) (r, s)
        → HoldEnds times r answer (between (committed store.enhancements s)) out
        → CallEnds times answer between store out

  replay-eq-ok :
      (existing : PromptEnhancement) {outcome : PromptCreditOutcome}
      → replay existing payload actor ≡ ok outcome
      → (existing.owner_user_id ≡ actor) × (outcome.enhancement ≡ existing)
  unfolding replay
  replay-eq-ok existing {outcome} h =
      let conflict = prompt_credit "credit_idempotency_conflict" in
      let (_, e1, h1) = >>=-eq-ok (fail_if (not (existing.owner_user_id == actor)) conflict) _ h in
      let (same, e2, h2) = >>=-eq-ok (matches existing payload) _ h1 in
      let (_, e3, h3) = >>=-eq-ok (fail_if (not same) conflict) _ h2 in
      let (p, e4, h4) = >>=-eq-ok (stored_preset existing) _ h3 in
      let own : existing.owner_user_id == actor ≡ true =
        ground (arith, fail_if-eq-ok (not (existing.owner_user_id == actor)) conflict e1) in
      ((==_iff existing.owner_user_id actor).0 own, cc)

  hold_credits-holds :
      (plan : PromptEnhancementPlan) (now : ℕ) (store : Store) {entered : Entered}
      → hold_credits uuid actor payload plan now store ≡ ok entered
      → (r : ReservationReceipt) × (s : Session) × IsHold actor (begin_transaction store) (r, s)
        × (entered ≡ holds r (committed store.enhancements s))
  unfolding hold_credits
  hold_credits-holds plan now store {entered} h =
      let key = prompt_reserve_key uuid actor payload in
      let call = reserve actor key (estimates_of plan) now (begin_transaction store) in
      let (out, e1, h1) = >>=-eq-ok (or_reserve_error call) _ h in
      let row =
        find (λ r. r.id == (out.0).reservation_id && r.user_id == actor) (out.1).reservations in
      let refusal = prompt_credit (replayed_code row) in
      let (_, e2, h2) = >>=-eq-ok (fail_if (out.0).replayed refusal) _ h1 in
      let fresh = fail_if-eq-ok (out.0).replayed refusal e2 in
      elim (reserve-IsHold actor key (estimates_of plan) now (begin_transaction store) out
        (or_reserve_error-eq-ok call e1)) [
          | inl same ↦ absurd (cc (same.0, fresh))
          | inr hold ↦ (out.0, out.1, hold, cc)
        ]

  enter_found-CallEnds :
      (plan : PromptEnhancementPlan) (times : Times) (answer : EnhancerAnswer)
      (between : Store → Store) (store : Store) (found : Option PromptEnhancement)
      → find (λ e. e.id == payload.request_id) store.enhancements ≡ found
      → CallEnds times answer between store (
          after_enter uuid actor payload times answer between store
            (enter_found uuid actor payload plan times.reserved_at store found))
  enter_found-CallEnds plan times answer between store (some existing) h =
      elim (Result-cases (replay existing payload actor)) [
        | inl (outcome, e) ↦
            let (own, same) = replay-eq-ok existing e in
            rw e (replayed existing outcome h own same refl)
        | inr (error, e) ↦ rw e (unheld error refl)
      ]
  enter_found-CallEnds plan times answer between store none h =
      elim (Result-cases (hold_credits uuid actor payload plan times.reserved_at store)) [
        | inl (entered, e) ↦
            let (r, s, hold, same) = hold_credits-holds plan times.reserved_at store e in
            rw (e ∙ ap ok same) (
              held r s hold
                (finish-HoldEnds times r answer (between (committed store.enhancements s))))
        | inr (error, e) ↦ rw e (unheld error refl)
      ]

  -- A call replays a stored enhancement of the actor and writes nothing, or raises and writes
  -- nothing, or makes a hold. A hold that was made is settled in the commit that stores the
  -- enhancement, or asked to be released for a reason that the accounting accepts while no enhancement
  -- is stored, whatever other sessions did in between; only an exception that is no
  -- VertexServiceError passes with the hold as it is.
  pub execute_prompt_enhancement-CallEnds :
      (plan : PromptEnhancementPlan) (times : Times) (answer : EnhancerAnswer)
      (between : Store → Store) (store : Store)
      → CallEnds times answer between store
          (execute_prompt_enhancement uuid actor payload plan times answer between store)
  unfolding execute_prompt_enhancement enter
  execute_prompt_enhancement-CallEnds plan times answer between store =
      enter_found-CallEnds plan times answer between store
        (find (λ e. e.id == payload.request_id) store.enhancements) refl
