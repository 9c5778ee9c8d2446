-- ===== src/Job/Runs.antt =====
-- How long the runs of backend/app/state_machine.py are, and where they can go.
use ai_multimodal_platform.Prelude.{
  ap, ◌∙◌, ℕ, suc, ◌+◌, ◌≤◌, ◌≡◌, refl, Bool, true, false, none, List, [], ◌∷◌, ◌++◌, str_eq,
  if◌then◌else◌, Bool-cases, arith, length, inl, inr, filter, map, every, every-All, leb, leb→le,
  All,
}
use ai_multimodal_platform.Prelude.Result.{ok, Result-cases}
use ai_multimodal_platform.Job.State.{
  JobState, pending, enhancing, queued, generating, polling, downloading, completed, failed,
  cancelled, Job, HistoryEntry,
}
use ai_multimodal_platform.Job.Machine.{
  value, states, is_terminal, allows, member, normalize_state, transition, moved,
}
use ai_multimodal_platform.Job.History.{
  Follows, Call, run, run-history, transition-eq-ok, terminal-allows,
}

-- How many moves other than a poll are left at most.
abbrev height : JobState → ℕ
height pending = 5
height enhancing = 4
height queued = 3
height generating = 2
height polling = 2
height downloading = 1
height completed = 0
height failed = 0
height cancelled = 0

abbrev pub is_poll : HistoryEntry → Bool
is_poll entry = str_eq "polling" entry.state

-- The moves into POLLING that a list of history entries records.
abbrev pub polls : List HistoryEntry → ℕ
polls entries = length (filter is_poll entries)

abbrev polls_of : JobState → ℕ
polls_of t = if str_eq "polling" (value t) then 1 else 0

-- A test that all nine states pass.
pub in_every_state : (p : JobState → Bool) → every p states ≡ true → (s : JobState) → p s ≡ true
in_every_state p h s = go s (every-All p states h)
  where
    go : (s : JobState) → All (λ t. p t ≡ true) states → p s ≡ true
    go pending h = h.0
    go enhancing h = h.1.0
    go queued h = h.1.1.0
    go generating h = h.1.1.1.0
    go polling h = h.1.1.1.1.0
    go downloading h = h.1.1.1.1.1.0
    go completed h = h.1.1.1.1.1.1.0
    go failed h = h.1.1.1.1.1.1.1.0
    go cancelled h = h.1.1.1.1.1.1.1.1.0

abbrev edge_descends : JobState → JobState → Bool
edge_descends s t = if allows s t then leb (suc (height t)) (height s + polls_of t) else true

height-step : (s t : JobState) → allows s t ≡ true → suc (height t) ≤ height s + polls_of t
height-step s t h =
    let all_targets = in_every_state (λ s. every (edge_descends s) states) refl s in
    let descends : edge_descends s t ≡ true = in_every_state (edge_descends s) all_targets t in
    leb→le (suc (height t)) (height s + polls_of t) (rw h at descends)

-- From `s` to `t`, each entry that is no poll costs at least one step of the height.
Follows-bounded :
    (s t : JobState) (entries : List HistoryEntry)
    → Follows s entries t
    → length entries + height t ≤ height s + polls entries
Follows-bounded s t [] h = let same = ap height h in omega arith
Follows-bounded s t (x ∷ xs) (u, named_u, edge, rest) =
    let step = height-step s u edge in
    let later = Follows-bounded u t xs rest in
    let same : polls_of u ≡ (if is_poll x then 1 else 0) = rw named_u in ground arith

height-bounded : (s : JobState) → height s ≤ 5
height-bounded s = leb→le (height s) 5 (in_every_state (λ t. leb (height t) 5) refl s)

-- Apart from polls, a job makes at most five moves: `n` calls in a row that all succeed have
-- added at least `n` - 5 entries that say it is POLLING.
pub run_bounded :
    (cs : List Call) (job : Job) {job' : Job}
    → run cs job ≡ ok job'
    → (rest : List HistoryEntry) × (job'.state_history ≡ job.state_history ++ rest)
      × (length cs ≤ 5 + polls rest)
run_bounded cs job {job'} h =
    let (rest, grown, follows, count) = run-history cs job {job' = job'} h in
    let fits = Follows-bounded job.state job'.state rest follows in
    let top = height-bounded job.state in (rest, grown, omega arith)

-- From any state that is not terminal a job can fail.
pub fails_allowed : (s : JobState) → is_terminal s ≡ false → allows s failed ≡ true
fails_allowed s h =
    let tested = in_every_state (λ t. if is_terminal t then true else allows t failed) refl s in
    rw h at tested

-- In a terminal state every call of `transition` raises, so no run with a call succeeds.
pub terminal_is_final :
    (cs : List Call) (job : Job) {job' : Job}
    → is_terminal job.state ≡ true
    → run cs job ≡ ok job'
    → (cs ≡ []) × (job' ≡ job)
unfolding run
terminal_is_final [] job h e = (refl, cc)
terminal_is_final (c ∷ cs) job h e =
    elim (Result-cases (transition c.now job c.new_state c.detail c.at)) [
      | inr (x, e1) ↦ absurd (ground (arith, e1, e))
      | inl (job1, e1) ↦
          let (target, edge, _) = transition-eq-ok c job e1 in
          let refused = terminal-allows job.state target h in absurd (ground (arith, edge, refused))
    ]

-- The states that lead to COMPLETED, without a poll.
abbrev route : JobState → List JobState
route pending = queued ∷ generating ∷ downloading ∷ completed ∷ []
route enhancing = queued ∷ generating ∷ downloading ∷ completed ∷ []
route queued = generating ∷ downloading ∷ completed ∷ []
route generating = downloading ∷ completed ∷ []
route polling = downloading ∷ completed ∷ []
route downloading = completed ∷ []
route completed = []
route failed = []
route cancelled = []

abbrev call_to : ℕ → JobState → Call
call_to now s = record { now = now; new_state = member s; detail = none; at = none }

abbrev is_walk : JobState → List JobState → Bool
is_walk s [] = true
is_walk s (t ∷ ts) = if allows s t then is_walk t ts else false

abbrev end_of : JobState → List JobState → JobState
end_of s [] = s
end_of s (t ∷ ts) = end_of t ts

transition-allowed :
    (now : ℕ) (t : JobState) (job : Job)
    → allows job.state t ≡ true
    → transition now job (member t) none none ≡ ok (moved t none now job)
unfolding transition normalize_state
transition-allowed now t job h = ground (arith, h)

run-walk :
    (now : ℕ) (ts : List JobState) (job : Job)
    → is_walk job.state ts ≡ true
    → (job' : Job) × (run (map (call_to now) ts) job ≡ ok job') × (job'.state ≡ end_of job.state ts)
unfolding run
run-walk now [] job h = (job, refl, refl)
run-walk now (t ∷ ts) job h = elim (Bool-cases (allows job.state t)) [
  | inr e ↦ absurd (ground (arith, e, h))
  | inl e ↦
      let (job', done, reached) = run-walk now ts (moved t none now job) (ground (arith, e, h)) in
      let first = transition-allowed now t job e in (job', ground (arith, first, done), reached)
]

route-completes : (s : JobState) → is_terminal s ≡ false → end_of s (route s) ≡ completed
route-completes pending h = refl
route-completes enhancing h = refl
route-completes queued h = refl
route-completes generating h = refl
route-completes polling h = refl
route-completes downloading h = refl
route-completes completed h = cc
route-completes failed h = cc
route-completes cancelled h = cc

-- No state but the terminal ones is a dead end: from it some calls in a row lead the job to
-- COMPLETED.
pub can_complete :
    (now : ℕ) (job : Job)
    → is_terminal job.state ≡ false
    → (cs : List Call) × (job' : Job) × (run cs job ≡ ok job') × (job'.state ≡ completed)
can_complete now job h =
    let tested =
      in_every_state (λ s. if is_terminal s then true else is_walk s (route s)) refl job.state in
    let (job', done, reached) = run-walk now (route job.state) job (rw h at tested) in
    (map (call_to now) (route job.state), job', done, reached ∙ route-completes job.state h)
