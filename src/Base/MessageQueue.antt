-- ===== src/Base/MessageQueue.antt =====
-- `MessageQueue` of talk/base/messagequeue.cc and talk/base/messagequeue.h. The clock is a parameter,
-- and so is what a wait on the socket server ends with: the calls that other threads made meanwhile
-- and the time. `std::priority_queue` is the list of its entries in the order in which it gives them
-- out. A handler and the data of a message are addresses, `none` where they are null.
pub mod Receive
pub mod Order
pub mod Stream
pub mod Cleared
use gxmpp.Prelude.{
  ℕ, zero, suc, ◌+◌, ◌-◌, ◌*◌, ◌%◌, ◌^◌, Bool, true, false, not, ◌&&◌, ◌||◌, Option, none, some,
  List, [], ◌∷◌, ◌++◌, map, ◌==◌, ltb, leb, if◌then◌else◌, length, filter_by,
}
use gxmpp.Prelude.Int.{ℤ, pos, negsuc}
use gxmpp.Base.Times.{word, distance, time_is_later, time_diff, time_after}

abbrev pub mqid_any : ℕ
mqid_any = 2 ^ 32 - 1

abbrev pub mqid_dispose : ℕ
mqid_dispose = 2 ^ 32 - 2

-- `kMaxMsgLatency`
abbrev pub max_msg_latency : ℕ
max_msg_latency = 150

pub record Message : Type 0 where
  pub handler : Option ℕ
  pub message_id : ℕ
  pub payload : Option ℕ
  pub ts_sensitive : ℕ

-- `Message()`
abbrev pub no_message : Message
no_message = record { handler = none; message_id = 0; payload = none; ts_sensitive = 0 }

abbrev pub same_handler : ℕ → Option ℕ → Bool
same_handler h none = false
same_handler h (some k) = h == k

abbrev pub handler_matches : Option ℕ → Option ℕ → Bool
handler_matches none k = true
handler_matches (some h) k = same_handler h k

-- `Match`
unfoldable pub matches : Option ℕ → ℕ → Message → Bool
matches h id m = handler_matches h m.handler && (id == mqid_any || id == m.message_id)

pub record DelayedMessage : Type 0 where
  pub delay : ℤ
  pub trigger : ℕ
  pub num : ℕ
  pub msg : Message

-- `operator<`, by which the greatest comes first.
unfoldable pub less_than : DelayedMessage → DelayedMessage → Bool
less_than d e = ltb e.trigger d.trigger || e.trigger == d.trigger && ltb e.num d.num

-- `push` of the priority queue.
unfoldable pub push_delayed : DelayedMessage → List DelayedMessage → List DelayedMessage
unfolding less_than
push_delayed d [] = d ∷ []
push_delayed d (e ∷ rest) =
    let later = push_delayed d rest in if less_than e d then d ∷ e ∷ rest else e ∷ later

-- `wait_for` has the argument of `Wait`, `none` for `kForever`.
pub data QueueEffect : Type 0 where
  wake_up : QueueEffect
  add_to_manager : QueueEffect
  wait_for : Option ℕ → QueueEffect
  delete_data : Option ℕ → QueueEffect

-- The effects have the newest first.
pub record MessageQueue : Type 0 where
  pub stop : Bool
  pub peek_keep : Bool
  pub msg_peek : Message
  pub active : Bool
  pub messages : List Message
  pub delayed : List DelayedMessage
  pub next_num : ℕ
  pub effects : List QueueEffect

abbrev pub new_queue : MessageQueue
new_queue = record {
  stop = false;
  peek_keep = false;
  msg_peek = no_message;
  active = false;
  messages = [];
  delayed = [];
  next_num = 0;
  effects = [];
}

abbrev pub emit : QueueEffect → MessageQueue → MessageQueue
emit f q = record q { effects = f ∷ q.effects }

abbrev pub quit : MessageQueue → MessageQueue
quit q = emit wake_up (record q { stop = true })

abbrev pub restart : MessageQueue → MessageQueue
restart q = record q { stop = false }

unfoldable pub ensure_active : MessageQueue → MessageQueue
ensure_active q = if q.active then q else emit add_to_manager (record q { active = true })

-- The handler, the number and the data of a call of `Post`, and whether it is sensitive to time.
unfoldable pub post : ℕ → Option ℕ → ℕ → Option ℕ → Bool → MessageQueue → MessageQueue
unfolding ensure_active
post now h id payload sensitive q =
    let m : Message = record {
      handler = h;
      message_id = id;
      payload = payload;
      ts_sensitive = if sensitive then (now + max_msg_latency) % word else 0;
    } in
    let woken = ensure_active q in
    if q.stop then q else emit wake_up (record woken { messages = woken.messages ++ m ∷ [] })

unfoldable pub do_delay_post : ℤ → ℕ → Option ℕ → ℕ → Option ℕ → MessageQueue → MessageQueue
unfolding ensure_active push_delayed
do_delay_post delay tstamp h id payload q =
    let m : Message = record {
      handler = h;
      message_id = id;
      payload = payload;
      ts_sensitive = 0;
    } in
    let d : DelayedMessage = record {
      delay = delay;
      trigger = tstamp;
      num = q.next_num;
      msg = m;
    } in
    let woken = ensure_active q in
    if q.stop
    then q
    else emit wake_up (record woken {
      delayed = push_delayed d woken.delayed;
      next_num = (woken.next_num + 1) % word;
    })

unfoldable pub post_delayed : ℕ → ℕ → Option ℕ → ℕ → Option ℕ → MessageQueue → MessageQueue
unfolding do_delay_post time_after
post_delayed now delay h id payload q =
    do_delay_post (pos delay) (time_after now delay) h id payload q

unfoldable pub post_at : ℕ → ℕ → Option ℕ → ℕ → Option ℕ → MessageQueue → MessageQueue
unfolding do_delay_post time_diff
post_at now tstamp h id payload q = do_delay_post (time_diff tstamp now) tstamp h id payload q

-- `Dispose` of an object at an address.
unfoldable pub dispose : ℕ → Option ℕ → MessageQueue → MessageQueue
unfolding post
dispose now none q = q
dispose now (some a) q = post now none mqid_dispose (some a) false q

-- `none` for `kForever`.
unfoldable pub get_delay : ℕ → MessageQueue → Option ℕ
unfolding time_diff
get_delay now q = elim q.messages [
  | m ∷ ms ↦ some 0
  | [] ↦ elim q.delayed [
    | [] ↦ none
    | d ∷ ds ↦ elim (time_diff d.trigger now) [ pos n ↦ some n | negsuc n ↦ some 0 ]
  ]
]

-- The messages that a call of `Clear` removes, the peeked one first.
abbrev pub peeked_match : Option ℕ → ℕ → MessageQueue → List Message
peeked_match h id q = if q.peek_keep && matches h id q.msg_peek then q.msg_peek ∷ [] else []

abbrev pub delayed_matches : Option ℕ → ℕ → DelayedMessage → Bool
delayed_matches h id d = matches h id d.msg

unfoldable pub delete_all : List Message → MessageQueue → MessageQueue
delete_all [] q = q
delete_all (m ∷ ms) q = delete_all ms (emit (delete_data m.payload) q)

-- All of them; the delayed ones stand in the heap in an order of its own, which the model leaves out.
unfoldable pub removed_by : Option ℕ → ℕ → MessageQueue → List Message
unfolding matches
removed_by h id q =
    peeked_match h id q
    ++ (filter_by (matches h id) q.messages
        ++ map (λ d. d.msg) (filter_by (delayed_matches h id) q.delayed))

unfoldable pub kept_by : Option ℕ → ℕ → MessageQueue → MessageQueue
unfolding matches
kept_by h id q = record q {
  peek_keep = q.peek_keep && not (matches h id q.msg_peek);
  messages = filter_by (λ m. not (matches h id m)) q.messages;
  delayed = filter_by (λ d. not (delayed_matches h id d)) q.delayed;
}

-- `Clear`; `wanted` says whether a list takes the removed messages.
unfoldable pub clear : Option ℕ → ℕ → Bool → MessageQueue → List Message × MessageQueue
unfolding removed_by kept_by delete_all
clear h id wanted q =
    let gone = removed_by h id q in
    let kept = kept_by h id q in if wanted then (gone, kept) else ([], delete_all gone kept)

unfoldable pub size : MessageQueue → ℕ
size q = length q.messages + length q.delayed + (if q.peek_keep then 1 else 0)

abbrev pub is_quitting : MessageQueue → Bool
is_quitting q = q.stop
