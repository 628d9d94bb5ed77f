-- ===== src/Base/TaskRunner/Known.antt =====
-- What the runner points to.
use gxmpp.Prelude.{
  ℕ, ◌≡◌, sym, subst, Bool, true, false, ◌||◌, Option, none, some, List, [], ◌∷◌, ◌++◌, arith,
  if-rule, elim-rule, ltb, leb, ◌==◌,
}
use gxmpp.Base.TaskRunner.{
  Job, Runner, Event, starts, resets, ends, is_task, time_of, recalc_next_timeout,
  check_for_timeout_change, choose_task, update_task_timeout, start_task, replace_task, find_task,
  react, react_all,
}
use gxmpp.Base.TaskRunner.Least.{Chosen, recalc-Chosen}

unfoldable pub has_task : ℕ → List Job → Bool
has_task id [] = false
has_task id (t ∷ ts) = t.unique_id == id || has_task id ts

-- The pointer is null or to one of the tasks.
abbrev pub Knows : Option ℕ → List Job → Type 0
Knows none ts = Unit
Knows (some id) ts = has_task id ts ≡ true

has_task-middle :
    (before : List Job) (t : Job) (after : List Job)
    → has_task t.unique_id (before ++ t ∷ after) ≡ true
unfolding has_task
has_task-middle [] t after = ground arith
has_task-middle (b ∷ before) t after = ground (arith, has_task-middle before t after)

Knows-append : (next : Option ℕ) (ts us : List Job) → Knows next ts → Knows next (ts ++ us)
unfolding has_task
Knows-append none ts us h = tt
Knows-append (some id) [] us h = absurd (cc)
Knows-append (some id) (t ∷ ts) us h = ground (arith, Knows-append (some id) ts us)

Knows-replace_task :
    (next : Option ℕ) (t : Job) (ts : List Job) → Knows next ts → Knows next (replace_task t ts)
unfolding has_task replace_task
Knows-replace_task none t ts h = tt
Knows-replace_task (some id) t [] h = h
Knows-replace_task (some id) t (k ∷ ks) h = ground (arith, Knows-replace_task (some id) t ks)

find_task_lem :
    (id : ℕ) (ts : List Job) (t : Job)
    → find_task id ts ≡ some t
    → (t.unique_id ≡ id) × (has_task id ts ≡ true)
unfolding has_task find_task
find_task_lem id [] t h = absurd (cc)
find_task_lem id (k ∷ ks) t h = ground (arith, find_task_lem id ks t)

Knows-Chosen :
    (exclude : Option ℕ) (ts : List Job) (time : ℕ) (next : Option ℕ)
    → Chosen exclude ts time next
    → Knows next ts
Knows-Chosen exclude ts time none c = tt
Knows-Chosen exclude ts time (some id) c =
    subst (λ us. has_task id us ≡ true) (sym c.parts)
      (subst (λ n. has_task n (c.before ++ c.job ∷ c.after) ≡ true) c.its_id
        (has_task-middle c.before c.job c.after))

abbrev pub IsKnown : Runner → Type 0
IsKnown r = Knows r.next_timeout_task r.tasks

pub recalc-IsKnown : (exclude : Option ℕ) (r : Runner) → IsKnown (recalc_next_timeout exclude r)
unfolding recalc_next_timeout
recalc-IsKnown exclude r =
    let c = recalc-Chosen exclude r.tasks in Knows-Chosen exclude r.tasks c.0 _ c.1

check-IsKnown :
    (now previous : ℕ) (r : Runner) → IsKnown r → IsKnown (check_for_timeout_change now previous r)
unfolding check_for_timeout_change
check-IsKnown now previous r h = if-rule IsKnown _ (λ _. h) (λ _. h)

choose_task-IsKnown :
    (t : Job) (r : Runner)
    → IsKnown r
    → has_task t.unique_id r.tasks ≡ true
    → IsKnown (choose_task t r)
unfolding choose_task
choose_task-IsKnown t r h k =
    if-rule IsKnown (ltb 0 t.timeout_time)
      (λ _.
        elim-rule IsKnown r.next_timeout_task (λ _. k)
          (λ next _. if-rule IsKnown (leb t.timeout_time (time_of next r.tasks)) (λ _. k) (λ _. h)))
      (λ _.
        if-rule IsKnown (is_task t.unique_id r.next_timeout_task)
          (λ _. recalc-IsKnown (some t.unique_id) r) (λ _. h))

update-IsKnown :
    (now previous : ℕ) (t : Job) (r : Runner)
    → IsKnown r
    → has_task t.unique_id r.tasks ≡ true
    → IsKnown (update_task_timeout now t previous r)
unfolding update_task_timeout
update-IsKnown now previous t r h k =
    let chosen = choose_task-IsKnown t r h k in
    if-rule IsKnown r.tasks_running (λ _. chosen) (λ _. check-IsKnown now _ _ chosen)

pub react-IsKnown : (now : ℕ) (e : Event) (r : Runner) → IsKnown r → IsKnown (react now e r)
unfolding react start_task
react-IsKnown now (starts t) r h =
    update-IsKnown now 0 t _ (Knows-append r.next_timeout_task r.tasks (t ∷ []) h)
      (has_task-middle r.tasks t [])
react-IsKnown now (resets id time) r h =
    elim-rule IsKnown (find_task id r.tasks) (λ _. h)
      (λ t e.
        let f = find_task_lem id r.tasks t e in
        let changed : Job = record t { timeout_time = time } in
        update-IsKnown now t.timeout_time changed
          (record r { tasks = replace_task changed r.tasks })
          (Knows-replace_task r.next_timeout_task changed r.tasks h)
          (Knows-replace_task (some t.unique_id) changed r.tasks
            (subst (λ n. has_task n r.tasks ≡ true) (sym f.0) f.1)))
react-IsKnown now (ends id) r h =
    elim-rule IsKnown (find_task id r.tasks) (λ _. h)
      (λ t e. Knows-replace_task r.next_timeout_task _ r.tasks h)

pub react_all-IsKnown :
    (now : ℕ) (es : List Event) (r : Runner) → IsKnown r → IsKnown (react_all now es r)
unfolding react_all
react_all-IsKnown now [] r h = h
react_all-IsKnown now (e ∷ es) r h =
    react_all-IsKnown now es (react now e r) (react-IsKnown now e r h)
