-- ===== src/Tests/TaskTests.antt =====
-- Tasks (talk/base/task.cc).
use gxmpp.Prelude.{◌≡◌, refl, true, false, List, [], ◌∷◌, All}
use gxmpp.Base.Task.{
  blocked, done, start, Task, Call, call_abort, call_wake, call_error, call_start, call_set_timeout,
  call_suspend, call_resume, call_step, Answer, answer, no_calls, call_then, new_task, make_call,
  abort, fail, wake, run, step, process, process_state, after_process, take_state, timed_out,
}
use gxmpp.Base.Task.Stops.{IsStable, is_flat, Stays, run-IsStable, run-Stays, count_stops}

abbrev waits : Answer
waits = answer (call_then (call_suspend 6) (call_then (call_resume 6) no_calls)) blocked

abbrev ends : Answer
ends = answer no_calls done

abbrev gives_up : Answer
gives_up = answer (call_then (call_abort false) (call_then call_wake no_calls)) done

-- It waits at its start, and aborts itself when it times out.
abbrev calls : List Call
calls =
    call_start 5
    ∷ call_set_timeout 5 1
    ∷ call_step waits ends gives_up 6
    ∷ call_step waits ends gives_up 7
    ∷ call_step waits ends gives_up 20000000
    ∷ call_abort true
    ∷ []

new_task-IsStable : IsStable new_task
unfolding count_stops
new_task-IsStable = (refl, refl, refl)

calls-is_flat : All (λ c. is_flat c ≡ true) calls
calls-is_flat = (refl, (refl, (refl, (refl, (refl, (refl, tt))))))

run-IsStable_example : IsStable (run calls new_task)
run-IsStable_example = run-IsStable calls new_task calls-is_flat new_task-IsStable

-- A task that fails and then calls `Step` from its own `ProcessStart` stops twice.
abbrev steps_itself : Answer
steps_itself =
    answer (call_then call_error (call_then (call_step ends ends ends 6) no_calls)) blocked

count_stops-nested :
    count_stops
      (make_call (call_step steps_itself ends ends 6) (record new_task { state = start })).effects
    ≡ 2
unfolding count_stops make_call step process process_state after_process take_state timed_out abort
    fail wake
count_stops-nested = refl

abbrev done_task : Task
done_task = record new_task { is_done = true; is_blocked = true; state = done }

run-Stays_example : Stays done_task (run calls done_task)
run-Stays_example = run-Stays calls done_task refl
