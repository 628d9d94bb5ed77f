-- ===== src/Base/Task.antt =====
-- `Task` of talk/base/task.cc. The methods that a subclass overrides give a state, and the calls that
-- they make on their task meanwhile; the calls on the runner and the parent are entries of `effects`,
-- the newest first. The clock is a parameter.
pub mod Stops
use gxmpp.Prelude.{
  ℕ, zero, suc, ◌+◌, ◌-◌, ◌*◌, ◌/◌, ◌%◌, ◌^◌, ◌≤◌, ◌<◌, ◌≡◌, refl, sym, ap, ◌∙◌, subst, ◌≢◌, ◌↔◌,
  ◌⊎◌, inl, inr, Bool, true, false, not, ◌&&◌, ◌||◌, Option, none, some, List, [], ◌∷◌, ◌++◌, map,
  append-nil, append_assoc, arith, ltb, leb, ◌==◌, if◌then◌else◌, Bool-cases, Option-cases, ◌>>=◌,
  length, get_elem?, get_or, take, drop, All, Bytes, codes, equal, equal_iff, equal_self, is_empty,
  find, substr, ==_iff,
}

pub data TaskState : Type 0 where
  blocked : TaskState
  init : TaskState
  start : TaskState
  done : TaskState
  error : TaskState
  response : TaskState
  next : ℕ → TaskState

pub data TaskEffect : Type 0 where
  start_task : TaskEffect
  stopped : TaskEffect
  wake_tasks : TaskEffect
  update_timeout : ℕ → TaskEffect
  signal_timeout : TaskEffect

pub record Task : Type 0 where
  pub state : TaskState
  pub is_blocked : Bool
  pub is_done : Bool
  pub is_aborted : Bool
  pub is_busy : Bool
  pub has_failed : Bool
  pub start_time : ℕ
  pub timeout_time : ℕ
  pub timeout_seconds : ℕ
  pub timeout_suspended : Bool
  pub effects : List TaskEffect

-- A call that a task gets, from outside or from the methods of its subclass, and what such a method
-- does: it makes calls and returns a state. A call of `Step` has the answers of `ProcessStart`,
-- `ProcessResponse` and `OnTimeout` within it, of which it takes at most one.
mutual
  pub data Call : Type 0 where
    call_abort : Bool → Call
    call_wake : Call
    call_error : Call
    call_start : ℕ → Call
    call_set_timeout : ℕ → ℕ → Call
    call_suspend : ℕ → Call
    call_resume : ℕ → Call
    call_reset_timeout : ℕ → Call
    call_clear_timeout : Call
    call_step : Answer → Answer → Answer → ℕ → Call

  pub data Answer : Type 0 where
    answer : Calls → TaskState → Answer

  pub data Calls : Type 0 where
    no_calls : Calls
    call_then : Call → Calls → Calls

-- `ProcessStart`, `ProcessResponse` and `OnTimeout`, as what they do to the task.
pub record Overrides : Type 0 where
  pub process_start : Task → TaskState × Task
  pub process_response : Task → TaskState × Task
  pub on_timeout : Task → TaskState × Task

-- `Task(parent)`
abbrev pub new_task : Task
new_task = record {
  state = init;
  is_blocked = false;
  is_done = false;
  is_aborted = false;
  is_busy = false;
  has_failed = false;
  start_time = 0;
  timeout_time = 0;
  timeout_seconds = 0;
  timeout_suspended = false;
  effects = [];
}

abbrev pub tell : TaskEffect → Task → Task
tell f t = record t { effects = f ∷ t.effects }

abbrev pub is_init : TaskState → Bool
is_init init = true
is_init _ = false

-- `Start`
unfoldable pub start_at : ℕ → Task → Task
start_at now t = if is_init t.state then tell start_task (record t { start_time = now }) else t

-- `Abort`
unfoldable pub abort : Bool → Task → Task
abort nowake t =
    let marked = record t { is_aborted = true } in
    let ended =
      tell stopped (record marked { is_done = true; is_blocked = true; has_failed = true }) in
    if t.is_done
    then t
    else if t.is_busy
    then marked
    else if nowake
    then ended
    else tell wake_tasks ended

unfoldable pub wake : Task → Task
wake t =
    if t.is_done
    then t
    else if t.is_blocked
    then tell wake_tasks (record t { is_blocked = false })
    else t

-- `Error`
unfoldable pub fail : Task → Task
unfolding wake
fail t = if t.has_failed || t.is_done then t else wake (record t { has_failed = true })

unfoldable pub timed_out : ℕ → Task → Bool
timed_out now t =
    not (t.timeout_seconds == 0) && not (t.timeout_time == 0) && leb t.timeout_time now

abbrev pub allows_timeout : TaskState → Bool
allows_timeout init = false
allows_timeout done = false
allows_timeout error = false
allows_timeout _ = true

-- In units of 100 ns.
unfoldable pub reset_timeout : ℕ → Task → Task
reset_timeout now t =
    let armed = not (t.timeout_seconds == 0) && allows_timeout t.state && not t.timeout_suspended in
    tell (update_timeout t.timeout_time)
      (record t { timeout_time = if armed then now + t.timeout_seconds * 10000000 else 0 })

unfoldable pub clear_timeout : Task → Task
clear_timeout t = tell (update_timeout t.timeout_time) (record t { timeout_time = 0 })

unfoldable pub set_timeout_seconds : ℕ → ℕ → Task → Task
unfolding reset_timeout
set_timeout_seconds now seconds t = reset_timeout now (record t { timeout_seconds = seconds })

unfoldable pub suspend_timeout : ℕ → Task → Task
unfolding reset_timeout
suspend_timeout now t =
    if t.timeout_suspended then t else reset_timeout now (record t { timeout_suspended = true })

unfoldable pub resume_timeout : ℕ → Task → Task
unfolding reset_timeout
resume_timeout now t =
    if t.timeout_suspended then reset_timeout now (record t { timeout_suspended = false }) else t

unfoldable pub process_state : Overrides → TaskState → Task → TaskState × Task
process_state o init t = (start, t)
process_state o start t = o.process_start t
process_state o response t = o.process_response t
process_state o done t = (blocked, t)
process_state o error t = (blocked, t)
process_state o blocked t = (error, t)
process_state o (next n) t = (error, t)

-- `Process`, where a subclass has not overridden it
unfoldable pub process : Overrides → ℕ → Task → TaskState × Task
process o now t =
    if timed_out now t
    then (let (s, t') = o.on_timeout (clear_timeout t) in (s, tell signal_timeout t'))
    else process_state o t.state t

abbrev pub is_blocked_state : TaskState → Bool
is_blocked_state blocked = true
is_blocked_state _ = false

-- The flags that a new state sets.
abbrev pub mark : TaskState → Task → Task
mark done t = record t { is_done = true }
mark error t = record t { is_done = true; has_failed = true }
mark _ t = t

-- What `Step` does with the new state.
unfoldable pub take_state : ℕ → TaskState → Task → Task
take_state now s t =
    let moved =
      if is_blocked_state s
      then record t { is_blocked = true }
      else reset_timeout now (record t { state = s; is_blocked = false }) in
    let marked = mark s moved in
    if marked.is_done then record (tell stopped marked) { is_blocked = true } else marked

unfoldable pub after_process : ℕ → TaskState × Task → Task
after_process now (s, t) =
    let idle = record t { is_busy = false } in
    if idle.is_aborted then abort true idle else take_state now s idle

unfoldable pub step : Overrides → ℕ → Task → Task
step o now t =
    if t.is_done
    then record t { is_blocked = true }
    else if t.has_failed
    then tell stopped (record t { is_done = true; state = error; is_blocked = true })
    else after_process now (process o now (record t { is_busy = true }))

abbrev pub overrides :
    (Task → TaskState × Task) → (Task → TaskState × Task) → (Task → TaskState × Task) → Overrides
overrides start_by response_by timeout_by = record {
  process_start = start_by;
  process_response = response_by;
  on_timeout = timeout_by;
}

unfoldable mutual
  unfolding abort wake fail start_at set_timeout_seconds suspend_timeout resume_timeout
      reset_timeout clear_timeout step

  pub make_call : Call → Task → Task
  make_call (call_abort nowake) t = abort nowake t
  make_call call_wake t = wake t
  make_call call_error t = fail t
  make_call (call_start now) t = start_at now t
  make_call (call_set_timeout now seconds) t = set_timeout_seconds now seconds t
  make_call (call_suspend now) t = suspend_timeout now t
  make_call (call_resume now) t = resume_timeout now t
  make_call (call_reset_timeout now) t = reset_timeout now t
  make_call call_clear_timeout t = clear_timeout t
  make_call (call_step a b c now) t = step (overrides (give a) (give b) (give c)) now t

  pub give : Answer → Task → TaskState × Task
  give (answer cs s) t = (s, make_calls cs t)

  pub make_calls : Calls → Task → Task
  make_calls no_calls t = t
  make_calls (call_then c cs) t = make_calls cs (make_call c t)

unfoldable pub run : List Call → Task → Task
unfolding make_call
run [] t = t
run (c ∷ cs) t = run cs (make_call c t)
