-- ===== src/Base/TaskRunner/Finished.antt =====
-- What stays when the runner has run.
use gxmpp.Prelude.{
  ℕ, ◌≡◌, refl, ap, ◌∙◌, sym, subst, Bool, true, false, not, ◌&&◌, ◌||◌, Option, none, some, List,
  [], ◌∷◌, filter_by, arith, if-rule, if◌then◌else◌,
}
use gxmpp.Base.TaskRunner.{
  Job, Runner, Event, is_task, recalc_next_timeout, check_for_timeout_change, react_all,
  delete_done, remove_done, run_tasks, log, delete_task,
}
use gxmpp.Base.TaskRunner.Known.{has_task, Knows, IsKnown, recalc-IsKnown, react_all-IsKnown}

-- Whether a task that is done is the one pointed to.
done_is : Option ℕ → List Job → Bool
done_is next [] = false
done_is next (t ∷ ts) = t.is_done && is_task t.unique_id next || done_is next ts

abbrev unfinished : List Job → List Job
unfinished ts = filter_by (λ t. not t.is_done) ts

Knows-unfinished :
    (next : Option ℕ) (ts : List Job)
    → done_is next ts ≡ false
    → Knows next ts
    → Knows next (unfinished ts)
unfolding done_is has_task
Knows-unfinished none ts d h = tt
Knows-unfinished (some id) [] d h = h
Knows-unfinished (some id) (t ∷ ts) d h = ground (arith, Knows-unfinished (some id) ts)

abbrev dropped : Job → Runner → Runner
dropped t r =
    log (delete_task t.unique_id)
      (if is_task t.unique_id r.next_timeout_task then record r { next_timeout_task = none } else r)

dropped-tasks : (t : Job) (r : Runner) → (dropped t r).tasks ≡ r.tasks
dropped-tasks t r =
    if-rule (λ (s : Runner). s.tasks ≡ r.tasks) (is_task t.unique_id r.next_timeout_task)
      (λ _. refl) (λ _. refl)

delete_done-tasks : (ts : List Job) (r : Runner) → (delete_done ts r).1.tasks ≡ r.tasks
unfolding delete_done
delete_done-tasks [] r = refl
delete_done-tasks (t ∷ ts) r =
    delete_done-tasks ts (if t.is_done then dropped t r else r)
    ∙ if-rule (λ (s : Runner). s.tasks ≡ r.tasks) t.is_done (λ _. dropped-tasks t r) (λ _. refl)

dropped-next :
    (t : Job) (r : Runner)
    → is_task t.unique_id r.next_timeout_task ≡ false
    → (dropped t r).next_timeout_task ≡ r.next_timeout_task
dropped-next t r e =
    if-rule (λ (s : Runner). s.next_timeout_task ≡ r.next_timeout_task)
      (is_task t.unique_id r.next_timeout_task) (λ f. absurd (cc)) (λ _. refl)

visited-next :
    (t : Job) (r : Runner)
    → (t.is_done && is_task t.unique_id r.next_timeout_task) ≡ false
    → (if t.is_done then dropped t r else r).next_timeout_task ≡ r.next_timeout_task
visited-next t r e =
    if-rule (λ (s : Runner). s.next_timeout_task ≡ r.next_timeout_task) t.is_done
      (λ d. dropped-next t r (ground (arith, d, e))) (λ _. refl)

delete_done-next :
    (ts : List Job) (r : Runner)
    → (delete_done ts r).0 ≡ false
    → ((delete_done ts r).1.next_timeout_task ≡ r.next_timeout_task)
      × (done_is r.next_timeout_task ts ≡ false)
unfolding delete_done done_is
delete_done-next [] r e = (refl, refl)
delete_done-next (t ∷ ts) r e =
    let visited = (if t.is_done then dropped t r else r) in
    let here : (t.is_done && is_task t.unique_id r.next_timeout_task) ≡ false = ground (arith, e) in
    let same = visited-next t r here in
    let later = delete_done-next ts visited (ground (arith, e)) in
    let absent : done_is r.next_timeout_task ts ≡ false =
      subst (λ next. done_is next ts ≡ false) same later.1 in
    (later.0 ∙ same, ground (arith, here, absent))

abbrev Finished : List Job → Runner → Type 0
Finished ts r = IsKnown r × (r.tasks ≡ ts)

check-Finished :
    (now previous : ℕ) (ts : List Job) (r : Runner)
    → Finished ts r
    → Finished ts (check_for_timeout_change now previous r)
unfolding check_for_timeout_change
check-Finished now previous ts r h = if-rule (Finished ts) _ (λ _. h) (λ _. h)

-- Every task that is done goes, and no other, and the pointer is to one that stays.
pub remove_done-IsKnown :
    (r : Runner)
    → IsKnown r
    → IsKnown (remove_done r) × ((remove_done r).tasks ≡ filter_by (λ t. not t.is_done) r.tasks)
unfolding remove_done recalc_next_timeout
remove_done-IsKnown r h =
    let gone = delete_done r.tasks r in
    let same = ap unfinished (delete_done-tasks r.tasks r) in
    if-rule (Finished (unfinished r.tasks)) gone.0
      (λ _. (recalc-IsKnown none (record gone.1 { tasks = unfinished gone.1.tasks }), same))
      (λ e.
        let kept = delete_done-next r.tasks r e in
        (
          subst (λ next. Knows next (unfinished gone.1.tasks)) (sym kept.0)
              (subst (Knows r.next_timeout_task) (sym same)
                (Knows-unfinished r.next_timeout_task r.tasks kept.1 h)),
          same,
        ))

-- Where the next task to time out is null or one of the tasks, a run of tasks that is not within
-- another leaves exactly the tasks that are not done after what the steps did, in their order,
-- and the pointer is null or to one of these, so never to one that is deleted.
pub run_tasks-IsKnown :
    (now : ℕ) (in_destructor : Bool) (events : List Event) (r : Runner)
    → IsKnown r
    → r.tasks_running ≡ false
    → IsKnown (run_tasks now in_destructor events r)
      × ((run_tasks now in_destructor events r).tasks
          ≡ filter_by
              (λ t. not t.is_done)
              (react_all now events (record r { tasks_running = true })).tasks)
unfolding run_tasks
run_tasks-IsKnown now in_destructor events r h idle =
    let stepped = react_all now events (record r { tasks_running = true }) in
    let removed = remove_done-IsKnown stepped (react_all-IsKnown now events _ h) in
    if-rule (Finished (unfinished stepped.tasks)) r.tasks_running (λ e. absurd (cc))
      (λ _.
        if-rule (Finished (unfinished stepped.tasks)) in_destructor (λ _. removed)
          (λ _. check-Finished now _ (unfinished stepped.tasks) (remove_done stepped) removed))
