-- ===== src/Base/Task/Stops.antt =====
-- How often a task of talk/base/task.cc stops.
use gxmpp.Prelude.{
  ℕ, suc, ◌≡◌, refl, ◌∙◌, Bool, true, false, not, ◌&&◌, ◌||◌, All, List, [], ◌∷◌, arith,
  if◌then◌else◌,
}
use gxmpp.Prelude.{if-rule}
use gxmpp.Base.Task.{
  TaskState, blocked, init, start, done, error, response, next, TaskEffect, start_task, stopped,
  wake_tasks, update_timeout, signal_timeout, Task, Call, call_abort, call_wake, call_error,
  call_start, call_set_timeout, call_suspend, call_resume, call_reset_timeout, call_clear_timeout,
  call_step, Answer, answer, Calls, no_calls, call_then, Overrides, overrides, start_at, abort,
  wake, fail, timed_out, reset_timeout, clear_timeout, set_timeout_seconds, suspend_timeout,
  resume_timeout, make_call, make_calls, give, process_state, process, take_state, after_process,
  step, run,
}

-- How often the parent was told that the task has stopped.
unfoldable pub count_stops : List TaskEffect → ℕ
count_stops [] = 0
count_stops (stopped ∷ es) = suc (count_stops es)
count_stops (start_task ∷ es) = count_stops es
count_stops (wake_tasks ∷ es) = count_stops es
count_stops (update_timeout n ∷ es) = count_stops es
count_stops (signal_timeout ∷ es) = count_stops es

-- Between two calls the task is not busy, blocked if it is done, and has stopped once if it is done
-- and never before.
abbrev pub IsStable : Task → Type 0
IsStable t =
    (t.is_busy ≡ false)
    × ((not t.is_done || t.is_blocked) ≡ true)
    × (count_stops t.effects ≡ (if t.is_done then 1 else 0))

-- While it is busy, it is not done.
abbrev Working : Task → Type 0
Working t = (t.is_busy ≡ true) × (t.is_done ≡ false) × (count_stops t.effects ≡ 0)

abbrev is_step : Call → Bool
is_step (call_step a b c now) = true
is_step _ = false

abbrev has_step : Calls → Bool
has_step no_calls = false
has_step (call_then c cs) = is_step c || has_step cs

abbrev answer_has_step : Answer → Bool
answer_has_step (answer cs s) = has_step cs

-- No call of `Step` stands within another.
abbrev pub is_flat : Call → Bool
is_flat (call_step a b c now) =
    not (answer_has_step a) && not (answer_has_step b) && not (answer_has_step c)
is_flat _ = true

call-Working : (c : Call) (t : Task) → is_step c ≡ false → Working t → Working (make_call c t)
unfolding make_call abort wake fail start_at set_timeout_seconds suspend_timeout resume_timeout
    reset_timeout clear_timeout count_stops
call-Working (call_abort nowake) t n w = ground arith
call-Working call_wake t n w = ground arith
call-Working call_error t n w = ground arith
call-Working (call_start now) t n w = ground arith
call-Working (call_set_timeout now seconds) t n w = w
call-Working (call_suspend now) t n w = ground arith
call-Working (call_resume now) t n w = ground arith
call-Working (call_reset_timeout now) t n w = w
call-Working call_clear_timeout t n w = w
call-Working (call_step a b c now) t n w = absurd (cc)

calls-Working :
    (cs : Calls) (t : Task) → has_step cs ≡ false → Working t → Working (make_calls cs t)
unfolding make_calls
calls-Working no_calls t n w = w
calls-Working (call_then c cs) t n w =
    calls-Working cs (make_call c t) (ground arith) (call-Working c t (ground arith) w)

-- A method of the subclass that keeps the task at work.
abbrev KeepsWorking : (Task → TaskState × Task) → Type 0
KeepsWorking f = (t : Task) → Working t → Working (f t).1

give-KeepsWorking : (a : Answer) → answer_has_step a ≡ false → KeepsWorking (give a)
unfolding give
give-KeepsWorking (answer cs s) n t w = calls-Working cs t n w

abbrev AllKeep : Overrides → Type 0
AllKeep o =
    KeepsWorking o.process_start × KeepsWorking o.process_response × KeepsWorking o.on_timeout

state-Working :
    (o : Overrides) (s : TaskState) (t : Task)
    → AllKeep o
    → Working t
    → Working (process_state o s t).1
unfolding process_state
state-Working o init t k w = w
state-Working o start t k w = k.0 t w
state-Working o response t k w = k.1 t w
state-Working o done t k w = w
state-Working o error t k w = w
state-Working o blocked t k w = w
state-Working o (next n) t k w = w

process-Working :
    (o : Overrides) (now : ℕ) (t : Task) → AllKeep o → Working t → Working (process o now t).1
unfolding process clear_timeout count_stops
process-Working o now t k w =
    if-rule {A = TaskState × Task} (λ r. Working r.1) (timed_out now t)
      (λ y. k.2 (clear_timeout t) w) (λ n. state-Working o t.state t k w)

take_state-IsStable :
    (now : ℕ) (s : TaskState) (t : Task)
    → t.is_busy ≡ false
    → t.is_done ≡ false
    → count_stops t.effects ≡ 0
    → IsStable (take_state now s t)
unfolding take_state reset_timeout count_stops
take_state-IsStable now blocked t b d c = ground arith
take_state-IsStable now init t b d c = ground arith
take_state-IsStable now start t b d c = ground arith
take_state-IsStable now done t b d c = ground arith
take_state-IsStable now error t b d c = ground arith
take_state-IsStable now response t b d c = ground arith
take_state-IsStable now (next n) t b d c = ground arith

abort-IsStable : (nowake : Bool) (t : Task) → IsStable t → IsStable (abort nowake t)
unfolding abort count_stops
abort-IsStable nowake t s = ground arith

after-IsStable :
    (now : ℕ) (s : TaskState) (t : Task) → Working t → IsStable (after_process now (s, t))
unfolding after_process
after-IsStable now s t w =
    let idle : Task = record t { is_busy = false } in
    if-rule IsStable idle.is_aborted
      (λ y. abort-IsStable true idle (refl, ground (arith, w), ground (arith, w)))
      (λ n. take_state-IsStable now s idle refl w.1 w.2)

step-IsStable :
    (o : Overrides) (now : ℕ) (t : Task) → AllKeep o → IsStable t → IsStable (step o now t)
unfolding step count_stops
step-IsStable o now t k s =
    if-rule IsStable t.is_done (λ d. (s.0, ground arith, s.2))
      (λ d.
        if-rule IsStable t.has_failed (λ f. ground arith)
          (λ f.
            let busy : Task = record t { is_busy = true } in
            let r = process o now busy in
            after-IsStable now r.0 r.1 (process-Working o now busy k (refl, d, ground arith))))

call-IsStable : (c : Call) (t : Task) → is_flat c ≡ true → IsStable t → IsStable (make_call c t)
unfolding make_call wake fail start_at set_timeout_seconds suspend_timeout resume_timeout
    reset_timeout clear_timeout count_stops
call-IsStable (call_abort nowake) t f s = abort-IsStable nowake t s
call-IsStable call_wake t f s = ground arith
call-IsStable call_error t f s = ground arith
call-IsStable (call_start now) t f s = ground arith
call-IsStable (call_set_timeout now seconds) t f s = s
call-IsStable (call_suspend now) t f s = ground arith
call-IsStable (call_resume now) t f s = ground arith
call-IsStable (call_reset_timeout now) t f s = s
call-IsStable call_clear_timeout t f s = s
call-IsStable (call_step a b c now) t f s =
    step-IsStable (overrides (give a) (give b) (give c)) now t
      (
        give-KeepsWorking a (ground arith),
        give-KeepsWorking b (ground arith),
        give-KeepsWorking c (ground arith),
      )
      s

-- A task that is not busy, is blocked if it is done, and has told its parent that it has stopped
-- once if it is done and never before, is so after any sequence of starts, steps, aborts, wakes,
-- errors and changes of its timeout, whatever state the methods of its subclass return and
-- whatever calls they make on the task meanwhile, but for calls of Step within a call of Step.
pub run-IsStable :
    (cs : List Call) (t : Task) → All (λ c. is_flat c ≡ true) cs → IsStable t → IsStable (run cs t)
unfolding run
run-IsStable [] t flat s = s
run-IsStable (c ∷ cs) t flat s = run-IsStable cs (make_call c t) flat.1 (call-IsStable c t flat.0 s)

-- The state and the error of a task that is done, and that it is done.
abbrev pub Stays : Task → Task → Type 0
Stays t t' =
    (t'.is_done ≡ true)
    × (t'.state ≡ t.state)
    × (t'.has_failed ≡ t.has_failed)
    × (count_stops t'.effects ≡ count_stops t.effects)

call-Stays : (c : Call) (t : Task) → t.is_done ≡ true → Stays t (make_call c t)
unfolding make_call step start_at abort wake fail set_timeout_seconds suspend_timeout resume_timeout
    reset_timeout clear_timeout count_stops
call-Stays (call_abort nowake) t d = ground arith
call-Stays call_wake t d = ground arith
call-Stays call_error t d = ground arith
call-Stays (call_start now) t d = ground arith
call-Stays (call_set_timeout now seconds) t d = (d, refl, refl, refl)
call-Stays (call_suspend now) t d = ground arith
call-Stays (call_resume now) t d = ground arith
call-Stays (call_reset_timeout now) t d = (d, refl, refl, refl)
call-Stays call_clear_timeout t d = (d, refl, refl, refl)
call-Stays (call_step a b c now) t d =
    if-rule (Stays t) t.is_done (λ y. (d, refl, refl, refl)) (λ n. ground (arith, d, n))

-- A task that is done stays done, with its state and its error, and does not stop again, after
-- any sequence of starts, steps, aborts, wakes, errors and changes of its timeout, with any such
-- calls, steps too, within a step.
pub run-Stays : (cs : List Call) (t : Task) → t.is_done ≡ true → Stays t (run cs t)
unfolding run
run-Stays [] t d = (d, refl, refl, refl)
run-Stays (c ∷ cs) t d =
    let (d1, s1, f1, c1) = call-Stays c t d in
    let (d2, s2, f2, c2) = run-Stays cs (make_call c t) d1 in (d2, s2 ∙ s1, f2 ∙ f1, c2 ∙ c1)
