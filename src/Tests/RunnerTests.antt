-- ===== src/Tests/RunnerTests.antt =====
-- Runs of talk/base/taskrunner.cc.
use gxmpp.Prelude.{ℕ, ◌≡◌, refl, true, false, not, none, some, [], ◌∷◌, filter_by}
use gxmpp.Base.TaskRunner.{
  Job, Runner, starts, resets, ends, new_runner, next_task_timeout, react_all, run_tasks,
  recalc_loop,
}
use gxmpp.Base.TaskRunner.Least.{Chosen, recalc-Chosen}
use gxmpp.Base.TaskRunner.Known.{IsKnown, has_task}
use gxmpp.Base.TaskRunner.Finished.{run_tasks-IsKnown}

abbrev job : ℕ → ℕ → Job
job id time = record { unique_id = id; timeout_time = time; is_done = false }

abbrev two_jobs : Runner
two_jobs = react_all 5 (starts (job 1 10) ∷ starts (job 2 20) ∷ []) new_runner

next-first : next_task_timeout two_jobs ≡ 10
unfolding next_task_timeout react_all
next-first = refl

-- The first task puts its timeout off to 30. It stays the next one, though the other is due at 20.
next-postponed : next_task_timeout (react_all 6 (resets 1 30 ∷ []) two_jobs) ≡ 30
unfolding next_task_timeout react_all
next-postponed = refl

-- It ends, and the other one is found.
next-ended : (run_tasks 7 false (ends 1 ∷ []) two_jobs).next_timeout_task ≡ some 2
unfolding run_tasks react_all
next-ended = refl

recalc-Chosen_example :
    (found : ℕ) × Chosen
      (some 3)
      (job 1 10 ∷ job 2 10 ∷ job 3 5 ∷ [])
      found
      (recalc_loop (some 3) (job 1 10 ∷ job 2 10 ∷ job 3 5 ∷ []) 0 none)
recalc-Chosen_example = recalc-Chosen (some 3) (job 1 10 ∷ job 2 10 ∷ job 3 5 ∷ [])

recalc-last : recalc_loop (some 3) (job 1 10 ∷ job 2 10 ∷ job 3 5 ∷ []) 0 none ≡ some 2
unfolding recalc_loop
recalc-last = refl

two_jobs-IsKnown : IsKnown two_jobs
unfolding react_all has_task
two_jobs-IsKnown = refl

run_tasks-IsKnown_example :
    IsKnown (run_tasks 7 false (ends 1 ∷ []) two_jobs)
    × ((run_tasks 7 false (ends 1 ∷ []) two_jobs).tasks
        ≡ filter_by
            (λ t. not t.is_done)
            (react_all 7 (ends 1 ∷ []) (record two_jobs { tasks_running = true })).tasks)
unfolding react_all
run_tasks-IsKnown_example = run_tasks-IsKnown 7 false (ends 1 ∷ []) two_jobs two_jobs-IsKnown refl
