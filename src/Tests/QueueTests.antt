-- ===== src/Tests/QueueTests.antt =====
-- Runs of talk/base/messagequeue.cc.
use gxmpp.Prelude.{
  ℕ, ◌≡◌, refl, true, false, none, some, [], ◌∷◌, ◌^◌, ◌-◌, ◌+◌, arith, All, length, List,
}
use gxmpp.Prelude.Int.{pos}
use gxmpp.Base.Times.{word}
use gxmpp.Base.MessageQueue.{
  Message, MessageQueue, new_queue, matches, post, post_at, post_delayed, do_delay_post, dispose,
  clear, size,
}
use gxmpp.Base.MessageQueue.Receive.{Wakeup, got, waiting, get}
use gxmpp.Base.MessageQueue.Order.{IsOrdered, Placed, entry, do_delay_post-Placed}
use gxmpp.Base.MessageQueue.Stream.{pending, Received, get-Received}
use gxmpp.Base.MessageQueue.Cleared.{Cleared, clear_lem}

abbrev message : ℕ → Message
message id = record { handler = some 7; message_id = id; payload = none; ts_sensitive = 0 }

-- A message for 120, then a disposal and a message at once, then another for 110 and for 120.
abbrev busy : MessageQueue
busy = post_at 100 120 (some 7) 5 none (
    post_at 100 110 (some 7) 4 none (
      post 100 (some 7) 3 none false
        (dispose 100 (some 40) (post_at 100 120 (some 7) 2 none new_queue))))

busy_order :
    pending busy
    ≡ (record { handler = none; message_id = 2 ^ 32 - 2; payload = some 40; ts_sensitive = 0 })
      ∷ message 3
      ∷ message 4
      ∷ message 2
      ∷ message 5
      ∷ []
unfolding post_at post dispose
busy_order = refl

get-first : (get (some 0) 100 [] busy).0 ≡ got (message 3)
unfolding post_at post dispose get
get-first = refl

abbrev time_out : List Wakeup
time_out =
    record { wait_ok = true; now = 109; calls = [] }
    ∷ record { wait_ok = true; now = 111; calls = [] }
    ∷ []

get-waits : (get (some 50) 100 time_out (get (some 0) 100 [] busy).1).0 ≡ got (message 4)
unfolding post_at post dispose get
get-waits = refl

-- A message for 2 ^ 32 - 10 stands behind one for 5, which is later, and is not given at its time.
abbrev wrapped : MessageQueue
wrapped =
    post_delayed (word - 20) 10 (some 7) 1 none
      (post_delayed (word - 20) 25 (some 7) 2 none new_queue)

get-wrapped : (get none (word - 10) [] wrapped).0 ≡ waiting
unfolding post_delayed get
get-wrapped = refl

quiet : All (λ (w : Wakeup). w.calls ≡ []) time_out
quiet = (refl, (refl, tt))

get-Received_example : Received (pending busy) (get (some 50) 100 time_out busy)
unfolding post_at post dispose
get-Received_example = get-Received (some 50) 100 time_out busy quiet refl

busy-IsOrdered : IsOrdered busy
unfolding post_at post dispose
busy-IsOrdered = record {
  ordered = ((refl, (refl, tt)), ((refl, tt), (tt, tt)));
  numbered = (omega arith, (omega arith, (omega arith, tt)));
}

do_delay_post-Placed_example :
    Placed
      (entry (pos 15) 115 (some 7) 6 none 3)
      busy.delayed
      (do_delay_post (pos 15) 115 (some 7) 6 none busy).delayed
    × IsOrdered (do_delay_post (pos 15) 115 (some 7) 6 none busy)
unfolding post_at post dispose
do_delay_post-Placed_example =
    do_delay_post-Placed busy (pos 15) 115 6 (some 7) none busy-IsOrdered refl (omega arith)

clear_lem_example :
    Cleared (some 7) 2 busy (clear (some 7) 2 false busy).1
    × All (λ m. matches (some 7) 2 m ≡ true) (clear (some 7) 2 false busy).0
    × (length (clear (some 7) 2 true busy).0 + size (clear (some 7) 2 true busy).1 ≡ size busy)
clear_lem_example = clear_lem (some 7) 2 false busy
