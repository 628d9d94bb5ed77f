-- ===== src/Base/MessageQueue/Receive.antt =====
-- `Get` and `Peek` of talk/base/messagequeue.cc. The waits on the socket server are a list of what each
-- ends with; where it is at its end, the call still waits. A wait for a negative number of
-- milliseconds other than `kForever` is left out.
use gxmpp.Prelude.{
  ℕ, suc, ◌+◌, ◌-◌, Bool, true, false, not, Option, none, some, List, [], ◌∷◌, ◌++◌, ◌==◌, leb,
  if◌then◌else◌, min, ◌||◌,
}
use gxmpp.Prelude.Int.{ℤ, pos, negsuc}
use gxmpp.Base.Times.{distance, time_is_later, time_diff}
use gxmpp.Base.MessageQueue.{
  Message, DelayedMessage, MessageQueue, mqid_dispose, quit, restart, emit, wait_for, post,
  post_delayed, post_at, clear,
}

-- The delayed messages that have triggered go to the end of the queue.
unfoldable pub release : ℕ → List DelayedMessage → List Message × List DelayedMessage
unfolding time_is_later
release now [] = ([], [])
release now (d ∷ rest) =
    let more = release now rest in
    if time_is_later now d.trigger then ([], d ∷ rest) else (d.msg ∷ more.0, more.1)

-- `cmsDelayNext` after it. The head of the list is later than `now`, so that the difference is positive.
abbrev pub delay_next : ℕ → List DelayedMessage → Option ℕ
delay_next now [] = none
delay_next now (d ∷ rest) = some (distance now d.trigger)

-- A message that disposes of an object is skipped.
abbrev pub is_dispose : Message → Bool
is_dispose m = m.message_id == mqid_dispose

unfoldable pub take_message : List Message → Option Message × List Message
take_message [] = (none, [])
take_message (m ∷ ms) = let later = take_message ms in if is_dispose m then later else (some m, ms)

-- The inner loop of `Get`.
unfoldable pub attempt : ℕ → MessageQueue → Option Message × MessageQueue
unfolding release take_message
attempt now q =
    let (due, later) = release now q.delayed in
    let (found, rest) = take_message (q.messages ++ due) in
    (found, record q { messages = rest; delayed = later })

-- What another thread does with the queue.
pub data QueueCall : Type 0 where
  call_post : ℕ → Option ℕ → ℕ → Option ℕ → Bool → QueueCall
  call_post_delayed : ℕ → ℕ → Option ℕ → ℕ → Option ℕ → QueueCall
  call_post_at : ℕ → ℕ → Option ℕ → ℕ → Option ℕ → QueueCall
  call_clear : Option ℕ → ℕ → QueueCall
  call_quit : QueueCall
  call_restart : QueueCall

unfoldable pub perform_call : QueueCall → MessageQueue → MessageQueue
unfolding post post_delayed post_at clear
perform_call (call_post now h id payload sensitive) q = post now h id payload sensitive q
perform_call (call_post_delayed now delay h id payload) q = post_delayed now delay h id payload q
perform_call (call_post_at now tstamp h id payload) q = post_at now tstamp h id payload q
perform_call (call_clear h id) q = (clear h id false q).1
perform_call call_quit q = quit q
perform_call call_restart q = restart q

unfoldable pub perform_calls : List QueueCall → MessageQueue → MessageQueue
unfolding perform_call
perform_calls [] q = q
perform_calls (c ∷ cs) q = perform_calls cs (perform_call c q)

-- How a wait ended: what it returned, the time then, and the calls meanwhile.
pub record Wakeup : Type 0 where
  pub wait_ok : Bool
  pub now : ℕ
  pub calls : List QueueCall

pub data Outcome : Type 0 where
  got : Message → Outcome
  failed : Outcome
  waiting : Outcome

-- `_max(0, cmsTotal - cmsElapsed)`
abbrev pub remaining : ℕ → ℤ → ℕ
remaining total (pos e) = total - e
remaining total (negsuc e) = total + suc e

abbrev pub sooner : Option ℕ → ℕ → ℕ
sooner none n = n
sooner (some d) n = min d n

-- `cmsNext`
unfoldable pub next_wait : Option ℕ → ℤ → Option ℕ → Option ℕ
next_wait none elapsed delay = delay
next_wait (some total) elapsed delay = some (sooner delay (remaining total elapsed))

unfoldable pub expired : Option ℕ → ℤ → Bool
expired none elapsed = false
expired (some total) (pos e) = leb total e
expired (some total) (negsuc e) = false

-- The outer loop of `Get`, of one call with `cmsWait`, `msStart` and `msCurrent`.
unfoldable pub get_loop : Option ℕ → ℕ → ℕ → List Wakeup → MessageQueue → Outcome × MessageQueue
unfolding attempt next_wait expired perform_calls time_diff
get_loop total start current [] q =
    let (found, tried) = attempt current q in
    let ask = next_wait total (time_diff current start) (delay_next current tried.delayed) in
    elim found [
      | some m ↦ (got m, tried)
      | none ↦ if tried.stop then (failed, tried) else (waiting, emit (wait_for ask) tried)
    ]
get_loop total start current (w ∷ ws) q =
    let (found, tried) = attempt current q in
    let ask = next_wait total (time_diff current start) (delay_next current tried.delayed) in
    let waited = perform_calls w.calls (emit (wait_for ask) tried) in
    let later = get_loop total start w.now ws waited in
    elim found [
      | some m ↦ (got m, tried)
      | none ↦
          if tried.stop
          then (failed, tried)
          else if not w.wait_ok || expired total (time_diff w.now start)
          then (failed, waited)
          else later
    ]

unfoldable pub get : Option ℕ → ℕ → List Wakeup → MessageQueue → Outcome × MessageQueue
unfolding get_loop
get total now wakeups q =
    if q.peek_keep
    then (got q.msg_peek, record q { peek_keep = false })
    else get_loop total now now wakeups q

abbrev pub keep_peek : Outcome × MessageQueue → Outcome × MessageQueue
keep_peek (got m, q) = (got m, record q { msg_peek = m; peek_keep = true })
keep_peek (failed, q) = (failed, q)
keep_peek (waiting, q) = (waiting, q)

unfoldable pub peek : Option ℕ → ℕ → List Wakeup → MessageQueue → Outcome × MessageQueue
unfolding get
peek total now wakeups q =
    if q.peek_keep then (got q.msg_peek, q) else keep_peek (get total now wakeups q)
