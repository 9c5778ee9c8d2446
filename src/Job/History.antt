-- ===== src/Job/History.antt =====
-- What the history of a job records: backend/app/state_machine.py's `transition`, run repeatedly.
use mathlib.Core.Path.{subst}
use mathlib.Core.List.{append_assoc, append-nil}
use ai_multimodal_platform.Prelude.{
  ap, sym, ◌∙◌, ℕ, suc, ◌≡◌, refl, true, false, Option, List, [], ◌∷◌, ◌++◌, Bool-cases, arith,
  length, inl, inr,
}
use ai_multimodal_platform.Prelude.Result.{Result, ok, ◌>>=◌, Result-cases}
use ai_multimodal_platform.Job.State.{
  JobState, pending, enhancing, queued, generating, polling, downloading, completed, failed,
  cancelled, Job, HistoryEntry, Detail,
}
use ai_multimodal_platform.Job.Machine.{
  value, is_terminal, allows, InvalidTransitionError, StateArg, named, normalize_state, transition,
  moved, at_or,
}

-- A member's value names that member: JobState(s.value) is s.
pub normalize-value : (s : JobState) → normalize_state (named (value s)) ≡ ok s
unfolding normalize_state
normalize-value pending = refl
normalize-value enhancing = refl
normalize-value queued = refl
normalize-value generating = refl
normalize-value polling = refl
normalize-value downloading = refl
normalize-value completed = refl
normalize-value failed = refl
normalize-value cancelled = refl

pub terminal-allows : (s t : JobState) → is_terminal s ≡ true → allows s t ≡ false
terminal-allows completed t h = refl
terminal-allows failed t h = refl
terminal-allows cancelled t h = refl
terminal-allows pending t h = cc
terminal-allows enhancing t h = cc
terminal-allows queued t h = cc
terminal-allows generating t h = cc
terminal-allows polling t h = cc
terminal-allows downloading t h = cc

-- The values `xs` name states, one after the other along the allowed edges, from `s` to `t`.
abbrev pub Follows : JobState → List HistoryEntry → JobState → Type 0
Follows s [] t = s ≡ t
Follows s (x ∷ xs) t = (u : JobState) × (value u ≡ x.state) × (allows s u ≡ true) × Follows u xs t

-- A call of `transition`: its clock and its arguments.
pub record Call : Type 0 where
  pub now : ℕ
  pub new_state : StateArg
  pub detail : Option Detail
  pub at : Option ℕ

-- The calls made on one job, each on the result of the one before.
unfoldable pub run : List Call → Job → Result InvalidTransitionError Job
run [] job = ok job
run (c ∷ cs) job = transition c.now job c.new_state c.detail c.at >>= run cs

-- A call that succeeds follows an allowed edge, and adds the entry that names its target.
pub transition-eq-ok :
    (c : Call) (job : Job) {job' : Job}
    → transition c.now job c.new_state c.detail c.at ≡ ok job'
    → (target : JobState) × (allows job.state target ≡ true)
      × (job' ≡ moved target c.detail (at_or c.at c.now) job)
unfolding transition normalize_state
transition-eq-ok c job {job'} h = elim (Result-cases (normalize_state c.new_state)) [
  | inr (e, e1) ↦ absurd (ground (arith, e1, h))
  | inl (target, e1) ↦ elim (Bool-cases (allows job.state target)) [
    | inr e2 ↦ absurd (ground (arith, e1, e2, h))
    | inl e2 ↦ (target, e2, ground (arith, e1, e2, h))
  ]
]

-- What one move adds to the front of the history that follows it.
moved-Follows :
    (target : JobState) (d : Option Detail) (at : ℕ) (job job1 job' : Job)
    (rest : List HistoryEntry)
    → allows job.state target ≡ true
    → job1 ≡ moved target d at job
    → job'.state_history ≡ job1.state_history ++ rest
    → Follows job1.state rest job'.state
    → (job'.state_history
        ≡ job.state_history ++ (record { state = value target; at = at; detail = d } ∷ rest))
      × Follows job.state (record { state = value target; at = at; detail = d } ∷ rest) job'.state
moved-Follows target d at job job1 job' rest e e1 h1 h2 =
    let added : HistoryEntry = record { state = value target; at = at; detail = d } in
    let same : job1.state ≡ target = ap (λ j. j.state) e1 in
    let history : job1.state_history ≡ job.state_history ++ (added ∷ []) =
      ap (λ j. j.state_history) e1 in
    (
      h1 ∙ ap (λ l. l ++ rest) history ∙ append_assoc job.state_history (added ∷ []) rest,
      (target, refl, e, subst (λ s. Follows s rest job'.state) same h2),
    )

-- Whatever calls succeed in a row, the history of the job grows by one entry for each call, the
-- entries it had stay, and the added ones lead along allowed edges from its old to its new state.
pub run-history :
    (cs : List Call) (job : Job) {job' : Job}
    → run cs job ≡ ok job'
    → (rest : List HistoryEntry) × (job'.state_history ≡ job.state_history ++ rest)
      × Follows job.state rest job'.state
      × (length rest ≡ length cs)
unfolding run
run-history [] job {job'} h =
    let same : job' ≡ job = cc in
    (
      [],
      ap (λ j. j.state_history) same ∙ sym (append-nil job.state_history),
      sym (ap (λ j. j.state) same),
      refl,
    )
run-history (c ∷ cs) job {job'} h =
    elim (Result-cases (transition c.now job c.new_state c.detail c.at)) [
      | inr (e, e1) ↦ absurd (ground (arith, e1, h))
      | inl (job1, e1) ↦
          let (target, edge, e2) = transition-eq-ok c job e1 in
          let (rest, grown, follows, count) =
            run-history cs job1 {job' = job'} (ground (arith, e1, h)) in
          let both =
            moved-Follows target c.detail (at_or c.at c.now) job job1 job' rest edge e2 grown
              follows in
          (_, both.0, both.1, ap suc count)
    ]
