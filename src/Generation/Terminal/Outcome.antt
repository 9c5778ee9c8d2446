-- ===== src/Generation/Terminal/Outcome.antt =====
-- What a call of `terminalize_generation` in backend/app/generation_credit.py comes to.
use mathlib.Core.Path.{subst}
use ai_multimodal_platform.Prelude.{
  ℕ, ◌≡◌, ◌≢◌, refl, ap, ◌∙◌, sym, ◌⊎◌, inl, inr, Option, none, some, List, [], String, Bool, true,
  false, not, ◌&&◌, ◌||◌, arith, Bool-cases, Option-cases,
}
use ai_multimodal_platform.Prelude.Result.{Result, ok, err, ◌>>=◌, Result-cases, >>=-eq-ok}
use ai_multimodal_platform.Credit.Code.{Code}
use ai_multimodal_platform.Credit.Tables.{Session, held}
use ai_multimodal_platform.Credit.Accounting.{RawLine}
use ai_multimodal_platform.Credit.Accounting.Terminal.{TerminalReceipt, settle, release}
use ai_multimodal_platform.Credit.Accounting.Terminal.Calls.{
  IsAsked, settle-IsAsked, release-IsAsked,
}
use ai_multimodal_platform.Credit.Accounting.Terminal.Outcome.{terminal_once}
use ai_multimodal_platform.Job.{Job, Asset}
use ai_multimodal_platform.Generation.{UuidText, or_accounting}
use ai_multimodal_platform.Generation.Terminal.{
  Parsed, TerminalResult, result, result_of, answer, unmanaged, reservation, pipeline_parent,
  pipeline_child, role_eq, release_reason, usage_ids, usage_of, is_empty, parse, terminalize,
  terminalize_generation,
}

or_accounting-eq-ok : {A : Type 0} (r : Result Code A) {a : A} → or_accounting r ≡ ok a → r ≡ ok a
or_accounting-eq-ok (ok b) h = cc
or_accounting-eq-ok (err c) h = cc

-- The hold was asked to end: by a settlement exactly if `charge`.
pub record IsEnded (p : Parsed) (job : Job) (charge : Bool) (now : ℕ) (s : Session)
    (out : TerminalResult × Session) : Type 0 where
  pub receipt : TerminalReceipt
  pub told : out.0 ≡ result_of receipt
  pub asked :
      IsAsked job.owner_user_id p.reservation_id now p.terminal_key charge s (receipt, out.1)

-- A generation that delivered something is charged, unless it is the first half of a pipeline.
abbrev pub is_charged : Parsed → List RawLine → Bool → Bool
is_charged p lines succeeded = succeeded || (role_eq p.role pipeline_child && not (is_empty lines))

settled-IsEnded :
    (p : Parsed) (lines : List RawLine) (job : Job) (delivery : String) (now : ℕ) (s : Session)
    (out : TerminalResult × Session)
    → (or_accounting (settle job.owner_user_id p.reservation_id lines delivery p.terminal_key now s)
        >>= answer)
      ≡ ok out
    → IsEnded p job true now s out
settled-IsEnded p lines job delivery now s out h =
    let call = settle job.owner_user_id p.reservation_id lines delivery p.terminal_key now s in
    let (r, e, h1) = >>=-eq-ok (or_accounting call) _ h in
    let same : (result_of r.0, r.1) ≡ out = cc in
    subst (IsEnded p job true now s) same (record {
      receipt = r.0;
      told = refl;
      asked =
          settle-IsAsked job.owner_user_id p.reservation_id lines delivery p.terminal_key now s r
            (or_accounting-eq-ok call e);
    })

released-IsEnded :
    (p : Parsed) (job : Job) (reason : String) (now : ℕ) (s : Session)
    (out : TerminalResult × Session)
    → (or_accounting (release job.owner_user_id p.reservation_id [] reason p.terminal_key now s)
        >>= answer)
      ≡ ok out
    → IsEnded p job false now s out
released-IsEnded p job reason now s out h =
    let call = release job.owner_user_id p.reservation_id [] reason p.terminal_key now s in
    let (r, e, h1) = >>=-eq-ok (or_accounting call) _ h in
    let same : (result_of r.0, r.1) ≡ out = cc in
    subst (IsEnded p job false now s) same (record {
      receipt = r.0;
      told = refl;
      asked =
          release-IsAsked job.owner_user_id p.reservation_id [] reason p.terminal_key now s r
            (or_accounting-eq-ok call e);
    })

-- The branches: a first half that delivered keeps the hold, all else ends it.
terminalize-cases :
    (p : Parsed) (lines : List RawLine) (job : Job) (succeeded : Bool) (reason : Option String)
    (now : ℕ) (s : Session) (out : TerminalResult × Session)
    → terminalize p lines job succeeded reason now s ≡ ok out
    → ((succeeded ≡ true)
        × (role_eq p.role pipeline_parent ≡ true)
        × (is_empty lines ≡ false)
        × (out ≡ (result (reservation held), s)))
      ⊎ (((succeeded && role_eq p.role pipeline_parent) ≡ false)
          × (succeeded ≡ true → is_empty lines ≡ false)
          × IsEnded p job (is_charged p lines succeeded) now s out)
unfolding terminalize
terminalize-cases p lines job true reason now s out h =
    elim (Bool-cases (role_eq p.role pipeline_parent)) [
      | inl e ↦ elim (Bool-cases (is_empty lines)) [
        | inl none_made ↦ absurd (ground (arith, e, none_made, h))
        | inr made ↦ inl (refl, e, made, ground (arith, e, made, h))
      ]
      | inr e ↦ elim (Bool-cases (is_empty lines)) [
        | inl none_made ↦ absurd (ground (arith, e, none_made, h))
        | inr made ↦ inr (
          e,
          (λ won. made),
          settled-IsEnded p lines job "delivered" now s out (ground (arith, e, made, h)),
        )
      ]
    ]
terminalize-cases p lines job false reason now s out h =
    elim (Bool-cases (role_eq p.role pipeline_child && not (is_empty lines))) [
      | inl e ↦ elim (Bool-cases (is_empty lines)) [
        | inl none_made ↦ absurd (ground (arith, e, none_made, h))
        | inr made ↦ inr (
          refl,
          (λ won. made),
          rw e (settled-IsEnded p lines job "partial" now s out (ground (arith, e, made, h))),
        )
      ]
      | inr e ↦ elim (Result-cases (release_reason reason)) [
        | inr (c, e1) ↦ absurd (ground (arith, e, e1, h))
        | inl (code, e1) ↦ inr (
          refl,
          (λ won. cc),
          rw e (released-IsEnded p job code now s out (ground (arith, e, e1, h))),
        )
      ]
    ]

-- What can come of a call for a job, on the rows that it reads.
pub data Outcome (uuid : UuidText) (jobs : List Job) (assets : List Asset) (job : Job)
    (succeeded : Bool) (now : ℕ) (s : Session) (out : TerminalResult × Session) : Type 0 where
  no_hold :
      parse uuid job ≡ ok none
      → out ≡ (result unmanaged, s)
      → Outcome uuid jobs assets job succeeded now s out
  keeps_hold :
      (p : Parsed) (lines : List RawLine)
      → parse uuid job ≡ ok (some p)
      → usage_of (usage_ids p job) jobs assets ≡ ok lines
      → succeeded ≡ true
      → role_eq p.role pipeline_parent ≡ true
      → is_empty lines ≡ false
      → out ≡ (result (reservation held), s)
      → Outcome uuid jobs assets job succeeded now s out
  ends_hold :
      (p : Parsed) (lines : List RawLine)
      → parse uuid job ≡ ok (some p)
      → usage_of (usage_ids p job) jobs assets ≡ ok lines
      → (succeeded && role_eq p.role pipeline_parent) ≡ false
      → (succeeded ≡ true → is_empty lines ≡ false)
      → IsEnded p job (is_charged p lines succeeded) now s out
      → Outcome uuid jobs assets job succeeded now s out

-- A call that succeeds leaves a job without metadata alone. It keeps the hold exactly if the job is
-- a pipeline's first half whose generation succeeded, and then something was delivered; for any
-- other job it ends the hold in the job's metadata, under its terminal key: by a settlement if the
-- generation succeeded, with something delivered, or if a second half failed with something
-- delivered, and by a release else.
pub terminalize_generation-Outcome :
    (uuid : UuidText) (jobs : List Job) (assets : List Asset) (job : Job) (succeeded : Bool)
    (reason : Option String) (now : ℕ) (s : Session) (out : TerminalResult × Session)
    → terminalize_generation uuid jobs assets job succeeded reason now s ≡ ok out
    → Outcome uuid jobs assets job succeeded now s out
unfolding terminalize_generation
terminalize_generation-Outcome uuid jobs assets job succeeded reason now s out h =
    elim (Result-cases (parse uuid job)) [
      | inr (c, e) ↦ absurd (ground (arith, e, h))
      | inl (parsed, e) ↦ elim (Option-cases parsed) [
        | inl e1 ↦
            let read : parse uuid job ≡ ok none = e ∙ ap ok e1 in
            no_hold read (ground (arith, read, h))
        | inr (p, e1) ↦
            let read : parse uuid job ≡ ok (some p) = e ∙ ap ok e1 in
            elim (Result-cases (usage_of (usage_ids p job) jobs assets)) [
              | inr (c, e2) ↦ absurd (ground (arith, read, e2, h))
              | inl (lines, e2) ↦
                  elim (terminalize-cases p lines job succeeded reason now s out
                    (ground (arith, read, e2, h))) [
                      | inl (won, role, made, same) ↦ keeps_hold p lines read e2 won role made same
                      | inr (half, some_made, ended) ↦
                          ends_hold p lines read e2 half some_made ended
                    ]
            ]
      ]
    ]

-- A later call for the same hold writes nothing.
ended-once :
    (p p' : Parsed) (job job' : Job) (charge charge' : Bool) (now now' : ℕ) (s : Session)
    (out out' : TerminalResult × Session)
    → p'.reservation_id ≡ p.reservation_id
    → job'.owner_user_id ≡ job.owner_user_id
    → out.0.replayed ≡ false
    → IsEnded p job charge now s out
    → IsEnded p' job' charge' now' out.1 out'
    → out'.1 ≡ out.1
ended-once p p' job job' charge charge' now now' s out out' hold owner new first second =
    let a = first.asked in
    let b = second.asked in
    (terminal_once a.request b.request s (first.receipt, out.1) (second.receipt, out'.1) a.answered
      (sym (ap (λ r. r.replayed) first.told) ∙ new) (b.user ∙ owner ∙ sym a.user)
      (b.hold ∙ hold ∙ sym a.hold) b.answered).1

-- A hold that a generation shares, as the two jobs of a pipeline do, ends once: after a call that
-- ended it and was no replay, any later call for a job with that hold that succeeds, with other
-- rows, outcomes and times, leaves the credit tables as they are.
pub generation_ends_once :
    (uuid : UuidText) (jobs jobs' : List Job) (assets assets' : List Asset) (job job' : Job)
    (p p' : Parsed) (succeeded succeeded' : Bool) (reason reason' : Option String) (now now' : ℕ)
    (s : Session) (out out' : TerminalResult × Session)
    → parse uuid job ≡ ok (some p)
    → parse uuid job' ≡ ok (some p')
    → p'.reservation_id ≡ p.reservation_id
    → job'.owner_user_id ≡ job.owner_user_id
    → terminalize_generation uuid jobs assets job succeeded reason now s ≡ ok out
    → out.0.status ≢ reservation held
    → out.0.replayed ≡ false
    → terminalize_generation uuid jobs' assets' job' succeeded' reason' now' out.1 ≡ ok out'
    → out'.1 ≡ out.1
generation_ends_once uuid jobs jobs' assets assets' job job' p p' succeeded succeeded' reason
      reason' now now' s out out' read read' hold owner h ended new h' =
    elim (terminalize_generation-Outcome uuid jobs assets job succeeded reason now s out h) [
      | no_hold none_read same ↦ absurd (cc (none_read, read))
      | keeps_hold q lines qread usage won role made same ↦
          absurd (ended (ap (λ o. o.0.status) same))
      | ends_hold q lines qread usage half some_made first ↦
          elim (terminalize_generation-Outcome uuid jobs' assets' job' succeeded' reason' now' out.1
            out' h') [
              | no_hold none_read same ↦ ap (λ o. o.1) same
              | keeps_hold r lines' rread usage' won role made same ↦ ap (λ o. o.1) same
              | ends_hold r lines' rread usage' half' some_made' second ↦
                  let same_p : q ≡ p = cc (qread, read) in
                  let same_r : r ≡ p' = cc (rread, read') in
                  ended-once q r job job' _ _ now now' s out out'
                    (ap (λ x. x.reservation_id) same_r
                      ∙ hold
                      ∙ sym (ap (λ x. x.reservation_id) same_p))
                    owner new first second
            ]
    ]
