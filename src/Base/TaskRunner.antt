-- ===== src/Base/TaskRunner.antt =====
-- `TaskRunner` of talk/base/taskrunner.cc: its list of tasks, and which of them times out next. A
-- pointer to a task is the number that the task has for good, `unique_id_`, and the clock is a
-- parameter. What the steps of the tasks do to the runner is a list of events.
pub mod Least
pub mod Known
pub mod Finished
use gxmpp.Prelude.{
  ℕ, ◌+◌, Bool, true, false, not, ◌&&◌, ◌||◌, Option, none, some, List, [], ◌∷◌, ◌++◌, ◌==◌, ltb,
  leb, if◌then◌else◌, filter_by,
}

-- What the runner reads of a task.
pub record Job : Type 0 where
  pub unique_id : ℕ
  pub timeout_time : ℕ
  pub is_done : Bool

pub data RunnerEffect : Type 0 where
  on_timeout_change : RunnerEffect
  wake_tasks : RunnerEffect
  delete_task : ℕ → RunnerEffect

-- The effects have the newest first.
pub record Runner : Type 0 where
  pub tasks : List Job
  pub next_timeout_task : Option ℕ
  pub tasks_running : Bool
  pub effects : List RunnerEffect

abbrev pub new_runner : Runner
new_runner = record { tasks = []; next_timeout_task = none; tasks_running = false; effects = [] }

abbrev pub log : RunnerEffect → Runner → Runner
log f r = record r { effects = f ∷ r.effects }

-- `timeout_time()` through a pointer.
unfoldable pub time_of : ℕ → List Job → ℕ
time_of id [] = 0
time_of id (t ∷ ts) = if t.unique_id == id then t.timeout_time else time_of id ts

abbrev pub timeout_at : Option ℕ → List Job → ℕ
timeout_at none ts = 0
timeout_at (some id) ts = time_of id ts

unfoldable pub next_task_timeout : Runner → ℕ
unfolding time_of
next_task_timeout r = timeout_at r.next_timeout_task r.tasks

abbrev pub is_task : ℕ → Option ℕ → Bool
is_task id none = false
is_task id (some k) = id == k

-- A task that `RecalcNextTimeout` looks at.
unfoldable pub may_time_out : Option ℕ → Job → Bool
may_time_out exclude t = not t.is_done && ltb 0 t.timeout_time && not (is_task t.unique_id exclude)

-- Its loop, with `next_timeout_time` and `next_timeout_task_`.
unfoldable pub recalc_loop : Option ℕ → List Job → ℕ → Option ℕ → Option ℕ
unfolding may_time_out
recalc_loop exclude [] time next = next
recalc_loop exclude (t ∷ ts) time next =
    if may_time_out exclude t && (time == 0 || leb t.timeout_time time)
    then recalc_loop exclude ts t.timeout_time (some t.unique_id)
    else recalc_loop exclude ts time next

unfoldable pub recalc_next_timeout : Option ℕ → Runner → Runner
unfolding recalc_loop
recalc_next_timeout exclude r = record r { next_timeout_task = recalc_loop exclude r.tasks 0 none }

unfoldable pub check_for_timeout_change : ℕ → ℕ → Runner → Runner
unfolding next_task_timeout
check_for_timeout_change now previous r =
    let next = next_task_timeout r in
    if previous == 0 && not (next == 0)
      || ltb next previous
      || leb previous now && not (previous == next)
    then log on_timeout_change r
    else r

-- The next task to time out, after a change of a task that has this time by now.
unfoldable pub choose_task : Job → Runner → Runner
unfolding next_task_timeout recalc_next_timeout
choose_task t r =
    let sooner = record r { next_timeout_task = some t.unique_id } in
    if ltb 0 t.timeout_time
    then elim r.next_timeout_task [
      | none ↦ sooner
      | some next ↦ if leb t.timeout_time (time_of next r.tasks) then sooner else r
    ]
    else if is_task t.unique_id r.next_timeout_task
    then recalc_next_timeout (some t.unique_id) r
    else r

unfoldable pub update_task_timeout : ℕ → Job → ℕ → Runner → Runner
unfolding next_task_timeout choose_task check_for_timeout_change
update_task_timeout now t previous_of_task r =
    let previous =
      if is_task t.unique_id r.next_timeout_task then previous_of_task else next_task_timeout r in
    let chosen = choose_task t r in
    if r.tasks_running then chosen else check_for_timeout_change now previous chosen

unfoldable pub start_task : ℕ → Job → Runner → Runner
unfolding update_task_timeout
start_task now t r =
    log wake_tasks (update_task_timeout now t 0 (record r { tasks = r.tasks ++ t ∷ [] }))

-- A write to a task through its pointer.
unfoldable pub replace_task : Job → List Job → List Job
replace_task t [] = []
replace_task t (k ∷ ks) =
    let later = replace_task t ks in if k.unique_id == t.unique_id then t ∷ ks else k ∷ later

-- What a task does to the runner: `Start`; `ResetTimeout` or `ClearTimeout`, with its new time; and that
-- it is done.
pub data Event : Type 0 where
  starts : Job → Event
  resets : ℕ → ℕ → Event
  ends : ℕ → Event

-- A read of a task through its pointer.
unfoldable pub find_task : ℕ → List Job → Option Job
find_task id [] = none
find_task id (t ∷ ts) = if t.unique_id == id then some t else find_task id ts

unfoldable pub react : ℕ → Event → Runner → Runner
unfolding start_task update_task_timeout replace_task find_task
react now (starts t) r = start_task now t r
react now (resets id time) r = elim (find_task id r.tasks) [
  | none ↦ r
  | some t ↦
      let changed = record t { timeout_time = time } in
      update_task_timeout now changed t.timeout_time
        (record r { tasks = replace_task changed r.tasks })
]
react now (ends id) r = elim (find_task id r.tasks) [
  | none ↦ r
  | some t ↦ record r { tasks = replace_task (record t { is_done = true }) r.tasks }
]

unfoldable pub react_all : ℕ → List Event → Runner → Runner
unfolding react
react_all now [] r = r
react_all now (e ∷ es) r = react_all now es (react now e r)

-- The loop that deletes the tasks that are done; it says whether the next timeout is to be found again.
unfoldable pub delete_done : List Job → Runner → Bool × Runner
delete_done [] r = (false, r)
delete_done (t ∷ ts) r =
    let dropped = log (delete_task t.unique_id) (
      if is_task t.unique_id r.next_timeout_task
      then record r { next_timeout_task = none }
      else r) in
    let (recalc, last) = delete_done ts (if t.is_done then dropped else r) in
    (t.is_done && is_task t.unique_id r.next_timeout_task || recalc, last)

-- What follows the steps in `InternalRunTasks`, but for the check for a change.
unfoldable pub remove_done : Runner → Runner
unfolding delete_done recalc_next_timeout
remove_done r =
    let (recalc, deleted) = delete_done r.tasks r in
    let kept = record deleted { tasks = filter_by (λ t. not t.is_done) deleted.tasks } in
    if recalc then recalc_next_timeout none kept else kept

-- `InternalRunTasks`, with what the steps did.
unfoldable pub run_tasks : ℕ → Bool → List Event → Runner → Runner
unfolding next_task_timeout react_all remove_done check_for_timeout_change
run_tasks now in_destructor events r =
    let previous = next_task_timeout r in
    let stepped = react_all now events (record r { tasks_running = true }) in
    let removed = remove_done stepped in
    let checked =
      if in_destructor then removed else check_for_timeout_change now previous removed in
    if r.tasks_running then r else record checked { tasks_running = false }
