-- ===== src/Base/MessageQueue/Stream.antt =====
-- What `Get` gives, and what is left.
use gxmpp.Prelude.{
  ℕ, ◌≡◌, refl, sym, ap, subst, ◌∙◌, true, false, Option, none, some, List, [], ◌∷◌, ◌++◌, map,
  append_assoc, All-append, All, if-rule, elim-rule,
}
use gxmpp.Base.Times.{time_is_later}
use gxmpp.Base.MessageQueue.{Message, DelayedMessage, MessageQueue}
use gxmpp.Base.MessageQueue.Receive.{
  Wakeup, QueueCall, Outcome, got, failed, waiting, release, take_message, attempt, is_dispose,
  get_loop, get, perform_calls,
}

-- The messages that wait, in the order in which they are to come out.
abbrev pub pending : MessageQueue → List Message
pending q = q.messages ++ map (λ d. d.msg) q.delayed

-- What `release` does: all it gives out have triggered, and the first that stays has not.
pub record Released (now : ℕ) (ds : List DelayedMessage) (r : List Message × List DelayedMessage)
    : Type 0 where
  pub due : List DelayedMessage
  pub split : ds ≡ due ++ r.1
  pub messages : r.0 ≡ map (λ d. d.msg) due
  pub triggered : All (λ d. time_is_later now d.trigger ≡ false) due

pub release-Released : (now : ℕ) (ds : List DelayedMessage) → Released now ds (release now ds)
unfolding release
release-Released now [] = record { due = []; split = refl; messages = refl; triggered = tt }
release-Released now (d ∷ ds) =
    let r = release-Released now ds in
    if-rule (Released now (d ∷ ds)) (time_is_later now d.trigger)
      (λ _. record { due = []; split = refl; messages = refl; triggered = tt })
      (λ e. record {
        due = d ∷ r.due;
        split = ap (◌∷◌ d) r.split;
        messages = ap (◌∷◌ d.msg) r.messages;
        triggered = (e, r.triggered);
      })

map-append : {A B : Type 0} (f : A → B) (xs ys : List A) → map f (xs ++ ys) ≡ map f xs ++ map f ys
map-append f [] ys = refl
map-append f (x ∷ xs) ys = ap (◌∷◌ (f x)) (map-append f xs ys)

release-pending :
    (now : ℕ) (ds : List DelayedMessage)
    → map (λ d. d.msg) ds ≡ (release now ds).0 ++ map (λ d. d.msg) (release now ds).1
release-pending now ds =
    let r = release-Released now ds in
    ap (map (λ d. d.msg)) r.split
    ∙ map-append (λ d. d.msg) r.due (release now ds).1
    ∙ ap (λ ms. ms ++ map (λ d. d.msg) (release now ds).1) (sym r.messages)

abbrev pub found_first : Option Message → List Message → List Message
found_first none ms = ms
found_first (some m) ms = m ∷ ms

abbrev pub Real : Option Message → Type 0
Real none = Unit
Real (some m) = is_dispose m ≡ false

-- The first of a list that is no disposal is found, and the disposals before it are gone.
pub record Takes (old : List Message) (found : Option Message) (rest : List Message) : Type 0 where
  pub skipped : List Message
  pub parts : old ≡ skipped ++ found_first found rest
  pub disposals : All (λ m. is_dispose m ≡ true) skipped
  pub real : Real found

take_message-Takes : (ms : List Message) → Takes ms (take_message ms).0 (take_message ms).1
unfolding take_message
take_message-Takes [] = record { skipped = []; parts = refl; disposals = tt; real = tt }
take_message-Takes (m ∷ ms) =
    let t = take_message-Takes ms in
    if-rule (λ (r : Option Message × List Message). Takes (m ∷ ms) r.0 r.1) (is_dispose m)
      (λ e. record {
        skipped = m ∷ t.skipped;
        parts = ap (◌∷◌ m) t.parts;
        disposals = (e, t.disposals);
        real = t.real;
      })
      (λ e. record { skipped = []; parts = refl; disposals = tt; real = e })

take_message-none : (ms : List Message) → (take_message ms).0 ≡ none → (take_message ms).1 ≡ []
unfolding take_message
take_message-none [] e = refl
take_message-none (m ∷ ms) e =
    if-rule (λ (r : Option Message × List Message). r.0 ≡ none → r.1 ≡ []) (is_dispose m)
      (λ _ f. take_message-none ms f) (λ _ f. absurd (cc)) e

found_first-append :
    (found : Option Message) (rest xs : List Message)
    → found_first found rest ++ xs ≡ found_first found (rest ++ xs)
found_first-append none rest xs = refl
found_first-append (some m) rest xs = refl

Takes-append :
    (old : List Message) (found : Option Message) (rest xs : List Message)
    → Takes old found rest
    → Takes (old ++ xs) found (rest ++ xs)
Takes-append old found rest xs t = record {
  skipped = t.skipped;
  parts =
      ap (λ ms. ms ++ xs) t.parts
      ∙ append_assoc t.skipped (found_first found rest) xs
      ∙ ap (◌++◌ t.skipped) (found_first-append found rest xs);
  disposals = t.disposals;
  real = t.real;
}

Takes-then :
    (old : List Message) (between : List Message) (found : Option Message) (rest : List Message)
    → Takes old none between
    → Takes between found rest
    → Takes old found rest
Takes-then old between found rest t u = record {
  skipped = t.skipped ++ u.skipped;
  parts =
      t.parts
      ∙ ap (◌++◌ t.skipped) u.parts
      ∙ sym (append_assoc t.skipped u.skipped (found_first found rest));
  disposals = All-append (λ m. is_dispose m ≡ true) t.skipped u.skipped t.disposals u.disposals;
  real = u.real;
}

attempt-Takes :
    (now : ℕ) (q : MessageQueue) → Takes (pending q) (attempt now q).0 (pending (attempt now q).1)
unfolding attempt
attempt-Takes now q =
    let due = (release now q.delayed).0 in
    let later = map (λ d. d.msg) (release now q.delayed).1 in
    subst (λ old. Takes old (attempt now q).0 (pending (attempt now q).1))
      (append_assoc q.messages due later
        ∙ ap (◌++◌ q.messages) (sym (release-pending now q.delayed)))
      (Takes-append (q.messages ++ due) (attempt now q).0 (attempt now q).1.messages later
        (take_message-Takes (q.messages ++ due)))

attempt-none :
    (now : ℕ) (q : MessageQueue) → (attempt now q).0 ≡ none → (attempt now q).1.messages ≡ []
unfolding attempt
attempt-none now q e = take_message-none (q.messages ++ (release now q.delayed).0) e

abbrev pub message_of : Outcome → Option Message
message_of (got m) = some m
message_of failed = none
message_of waiting = none

-- The result of a `Get`: it took the first message, or there is none but delayed ones.
abbrev pub Received : List Message → Outcome × MessageQueue → Type 0
Received old r =
    Takes old (message_of r.0) (pending r.1) × (message_of r.0 ≡ none → r.1.messages ≡ [])

got-Received :
    (old : List Message) (m : Message) (q : MessageQueue)
    → Takes old (some m) (pending q)
    → Received old (got m, q)
got-Received old m q t = (t, λ e. absurd (cc))

-- The state of a queue that has no message to give.
abbrev Idle : List Message → MessageQueue → Type 0
Idle old q = Takes old none (pending q) × (q.messages ≡ [])

attempt-Idle :
    (now : ℕ) (q : MessageQueue) → (attempt now q).0 ≡ none → Idle (pending q) (attempt now q).1
attempt-Idle now q e = (
  subst (λ f. Takes (pending q) f (pending (attempt now q).1)) e (attempt-Takes now q),
  attempt-none now q e,
)

perform_calls-Idle :
    (old : List Message) (cs : List QueueCall) (q : MessageQueue)
    → cs ≡ []
    → Idle old q
    → Idle old (perform_calls cs q)
unfolding perform_calls
perform_calls-Idle old cs q e h = subst (λ cs'. Idle old (perform_calls cs' q)) (sym e) h

get_loop-Received :
    (total : Option ℕ) (start current : ℕ) (wakeups : List Wakeup) (q : MessageQueue)
    → All (λ w. w.calls ≡ []) wakeups
    → Received (pending q) (get_loop total start current wakeups q)
unfolding get_loop
get_loop-Received total start current [] q quiet =
    elim-rule (Received (pending q)) (attempt current q).0
      (λ e.
        let idle = attempt-Idle current q e in
        if-rule (Received (pending q)) (attempt current q).1.stop (λ _. (idle.0, λ _. idle.1))
          (λ _. (idle.0, λ _. idle.1)))
      (λ m e. got-Received (pending q) m (attempt current q).1 (
        subst (λ f. Takes (pending q) f (pending (attempt current q).1)) e
          (attempt-Takes current q)))
get_loop-Received total start current (w ∷ ws) q quiet =
    elim-rule (Received (pending q)) (attempt current q).0
      (λ e.
        let idle = attempt-Idle current q e in
        let waited = perform_calls-Idle (pending q) w.calls _ quiet.0 idle in
        let later = get_loop-Received total start w.now ws _ quiet.1 in
        if-rule (Received (pending q)) (attempt current q).1.stop (λ _. (idle.0, λ _. idle.1))
          (λ _.
            if-rule (Received (pending q)) _ (λ _. (waited.0, λ _. waited.1))
              (λ _. (Takes-then _ _ _ _ waited.0 later.0, later.1))))
      (λ m e. got-Received (pending q) m (attempt current q).1 (
        subst (λ f. Takes (pending q) f (pending (attempt current q).1)) e
          (attempt-Takes current q)))

-- A Get of a queue that keeps no peeked message, while no other thread calls it, takes the
-- messages from the front of one sequence, the posted messages and then the delayed ones in
-- their order: if it gives a message, that is the first of the sequence that disposes of no
-- object, only the disposals before it are gone, and all behind it stays; if not, only disposals
-- are gone and just delayed messages are left.
pub get-Received :
    (total : Option ℕ) (now : ℕ) (wakeups : List Wakeup) (q : MessageQueue)
    → All (λ w. w.calls ≡ []) wakeups
    → q.peek_keep ≡ false
    → Received (pending q) (get total now wakeups q)
unfolding get
get-Received total now wakeups q quiet none_kept =
    if-rule (Received (pending q)) q.peek_keep (λ kept. absurd (cc))
      (λ _. get_loop-Received total now now wakeups q quiet)
