-- ===== src/Runner/Slots.antt =====
-- How many tasks the runner of backend/app/services/jobs/runner.py has at a time.
use ai_multimodal_platform.Prelude.{
  ℕ, ◌+◌, ◌-◌, ◌≤◌, ◌≡◌, refl, ◌∙◌, Bool, true, false, List, [], ◌∷◌, length, map, ltb, ◌==◌,
  if◌then◌else◌, arith, length-filter, length-take,
}
use mathlib.Core.Path.{subst}
use ai_multimodal_platform.Prelude.Result.{Result, ok, err, fail_if, >>=-eq-ok}
use ai_multimodal_platform.Job.{Job}
use ai_multimodal_platform.Runner.{
  RunnerError, limit_low, InProcessJobRunner, is_running, discard_finished_tasks, finish_task,
  spawn_jobs, select_jobs, pick_pending_jobs, pick_resumable_polling_jobs, queue_jobs, is_waiting,
  is_resumable_polling_job, after_queue, after_pick, poll_once, after_resumable,
  schedule_resumable_polling_jobs, resume_polling_jobs, shutdown,
}

-- What can happen to a runner: its own calls, on whatever the table then holds, and the end of a task.
pub data Action : Type 0 where
  polls : (ℕ → Bool) → ℕ → List Job → Action
  resumes : (ℕ → Bool) → List Job → Action
  finishes : ℕ → Action
  shuts_down : Action

unfoldable pub act : Action → InProcessJobRunner → InProcessJobRunner
act (polls locked now jobs) runner = (poll_once locked now jobs runner).0
act (resumes locked jobs) runner = (resume_polling_jobs locked jobs runner).0
act (finishes id) runner = finish_task id runner
act shuts_down runner = shutdown runner

unfoldable pub act_all : List Action → InProcessJobRunner → InProcessJobRunner
act_all [] runner = runner
act_all (a ∷ actions) runner = act_all actions (act a runner)

-- No more tasks than the concurrency.
abbrev pub HasRoom : InProcessJobRunner → Type 0
HasRoom runner = length runner.active_tasks ≤ runner.concurrency

-- The concurrency is a constant of the runner.
record Fits (before after : InProcessJobRunner) : Type 0 where
  room : HasRoom after
  same : after.concurrency ≡ before.concurrency

length-spawn_jobs :
    (picked : List Job) (tasks : List (ℕ × Bool))
    → length (spawn_jobs picked tasks) ≡ length picked + length tasks
length-spawn_jobs [] tasks = omega arith
length-spawn_jobs (job ∷ picked) tasks =
    omega (arith, length-spawn_jobs picked ((job.id, false) ∷ tasks))

discard-Fits :
    (runner : InProcessJobRunner) → HasRoom runner → Fits runner (discard_finished_tasks runner)
discard-Fits runner h = record {
  room = omega (arith, length-filter is_running runner.active_tasks);
  same = refl;
}

spawned-Fits :
    (runner : InProcessJobRunner) (picked : List Job)
    → HasRoom runner
    → length picked ≤ runner.concurrency - length runner.active_tasks
    → Fits runner (record runner { active_tasks = spawn_jobs picked runner.active_tasks })
spawned-Fits runner picked h few = record {
  room = omega (arith, length-spawn_jobs picked runner.active_tasks);
  same = refl;
}

pick_pending_jobs-length :
    (locked : ℕ → Bool) (limit : ℕ) (jobs picked : List Job)
    → pick_pending_jobs locked limit jobs ≡ ok picked
    → length picked ≤ limit
unfolding pick_pending_jobs
pick_pending_jobs-length locked limit jobs picked h =
    let (u, e, h1) = >>=-eq-ok (fail_if (ltb limit 1) limit_low) _ h in
    let same : select_jobs is_waiting (λ j. j.created_at) locked limit jobs ≡ picked = cc in
    subst (λ l. length l ≤ limit) same (length-take limit _)

pick_resumable_polling_jobs-length :
    (locked : ℕ → Bool) (limit : ℕ) (jobs picked : List Job)
    → pick_resumable_polling_jobs locked limit jobs ≡ ok picked
    → length picked ≤ limit
unfolding pick_resumable_polling_jobs
pick_resumable_polling_jobs-length locked limit jobs picked h =
    let (u, e, h1) = >>=-eq-ok (fail_if (ltb limit 1) limit_low) _ h in
    let same : select_jobs is_resumable_polling_job (λ j. j.updated_at) locked limit jobs ≡ picked =
      cc in
    subst (λ l. length l ≤ limit) same (length-take limit _)

after_queue-Fits :
    (runner : InProcessJobRunner) (picked : List Job) (jobs : Result RunnerError (List Job))
    → HasRoom runner
    → length picked ≤ runner.concurrency - length runner.active_tasks
    → Fits runner (after_queue runner picked jobs).0
after_queue-Fits runner picked (err e) h few = record { room = h; same = refl }
after_queue-Fits runner picked (ok jobs) h few = spawned-Fits runner picked h few

after_pick-Fits :
    (now : ℕ) (runner : InProcessJobRunner) (jobs : List Job)
    (picked : Result RunnerError (List Job))
    → HasRoom runner
    → ((l : List Job) → picked ≡ ok l → length l ≤ runner.concurrency - length runner.active_tasks)
    → Fits runner (after_pick now runner jobs picked).0
after_pick-Fits now runner jobs (err e) h few = record { room = h; same = refl }
after_pick-Fits now runner jobs (ok picked) h few =
    after_queue-Fits runner picked (queue_jobs now picked jobs) h (few picked refl)

after_resumable-Fits :
    (runner : InProcessJobRunner) (picked : Result RunnerError (List Job))
    → HasRoom runner
    → ((l : List Job) → picked ≡ ok l → length l ≤ runner.concurrency - length runner.active_tasks)
    → Fits runner (after_resumable runner picked).0
after_resumable-Fits runner (err e) h few = record { room = h; same = refl }
after_resumable-Fits runner (ok picked) h few = spawned-Fits runner picked h (few picked refl)

Fits-trans : (a b c : InProcessJobRunner) → Fits a b → Fits b c → Fits a c
Fits-trans a b c f g = record { room = g.room; same = g.same ∙ f.same }

-- The two tests before a pick.
guarded-Fits :
    {A : Type 0} (stopping full : Bool) (runner active : InProcessJobRunner) (x y : A)
    (picked : InProcessJobRunner × A)
    → Fits runner runner
    → Fits runner active
    → Fits runner picked.0
    → Fits runner (if stopping then (runner, x) else if full then (active, y) else picked).0
guarded-Fits true full runner active x y picked f g h = f
guarded-Fits false true runner active x y picked f g h = g
guarded-Fits false false runner active x y picked f g h = h

poll_once-Fits :
    (locked : ℕ → Bool) (now : ℕ) (jobs : List Job) (runner : InProcessJobRunner)
    → HasRoom runner
    → Fits runner (poll_once locked now jobs runner).0
unfolding poll_once
poll_once-Fits locked now jobs runner h =
    let active = discard_finished_tasks runner in
    let room = active.concurrency - length active.active_tasks in
    let fits = discard-Fits runner h in
    guarded-Fits runner.stopping (room == 0) runner active _ _ _ (record { room = h; same = refl })
      fits
      (Fits-trans runner active _ fits (
        after_pick-Fits now active jobs (pick_pending_jobs locked room jobs) fits.room
          (λ l e. pick_pending_jobs-length locked room jobs l e)))

resume_polling_jobs-Fits :
    (locked : ℕ → Bool) (jobs : List Job) (runner : InProcessJobRunner)
    → HasRoom runner
    → Fits runner (resume_polling_jobs locked jobs runner).0
unfolding resume_polling_jobs schedule_resumable_polling_jobs
resume_polling_jobs-Fits locked jobs runner h =
    let active = discard_finished_tasks runner in
    let room = active.concurrency - length active.active_tasks in
    let fits = discard-Fits runner h in
    guarded-Fits runner.stopping (room == 0) runner active _ _ _ (record { room = h; same = refl })
      fits
      (Fits-trans runner active _ fits (
        after_resumable-Fits active (pick_resumable_polling_jobs locked room jobs) fits.room
          (λ l e. pick_resumable_polling_jobs-length locked room jobs l e)))

length-finished :
    (id : ℕ) (tasks : List (ℕ × Bool))
    → length (map (λ t. if t.0 == id then (id, true) else t) tasks) ≡ length tasks
length-finished id [] = refl
length-finished id (t ∷ tasks) = omega (arith, length-finished id tasks)

act-Fits : (a : Action) (runner : InProcessJobRunner) → HasRoom runner → Fits runner (act a runner)
unfolding act finish_task shutdown
act-Fits (polls locked now jobs) runner h = poll_once-Fits locked now jobs runner h
act-Fits (resumes locked jobs) runner h = resume_polling_jobs-Fits locked jobs runner h
act-Fits (finishes id) runner h = record {
  room = omega (arith, length-finished id runner.active_tasks);
  same = refl;
}
act-Fits shuts_down runner h = record { room = omega arith; same = refl }

-- Whatever a runner that starts with room does, in whatever order and on whatever tables, it never
-- has more tasks than its concurrency, which stays the same.
pub act_all-HasRoom :
    (actions : List Action) (runner : InProcessJobRunner)
    → HasRoom runner
    → HasRoom (act_all actions runner) × ((act_all actions runner).concurrency ≡ runner.concurrency)
unfolding act_all
act_all-HasRoom [] runner h = (h, refl)
act_all-HasRoom (a ∷ actions) runner h =
    let f = act-Fits a runner h in
    let (room, same) = act_all-HasRoom actions (act a runner) f.room in (room, same ∙ f.same)
