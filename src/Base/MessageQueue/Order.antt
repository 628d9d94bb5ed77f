-- ===== src/Base/MessageQueue/Order.antt =====
-- The order of the delayed messages.
use gxmpp.Prelude.{
  ℕ, ◌+◌, ◌%◌, ◌≤◌, ◌<◌, ◌≡◌, refl, ap, Bool, true, false, Option, List, [], ◌∷◌, ◌++◌, filter_by,
  All, All-mono, All-filter_by, arith, if-rule,
}
use gxmpp.Prelude.Int.{ℤ}
use gxmpp.Base.Times.{word}
use gxmpp.Base.MessageQueue.{
  DelayedMessage, MessageQueue, less_than, push_delayed, do_delay_post, ensure_active,
}

-- `d` comes out no later than `e`.
abbrev pub Precedes : DelayedMessage → DelayedMessage → Type 0
Precedes d e = less_than d e ≡ false

abbrev pub Ordered : List DelayedMessage → Type 0
Ordered [] = Unit
Ordered (d ∷ ds) = All (Precedes d) ds × Ordered ds

Precedes-trans : (d e f : DelayedMessage) → Precedes d e → Precedes e f → Precedes d f
unfolding less_than
Precedes-trans d e f h k = ground arith

Precedes-before : (d e : DelayedMessage) → less_than e d ≡ true → Precedes d e
unfolding less_than
Precedes-before d e h = ground arith

All-push_delayed :
    (P : DelayedMessage → Type 0) (d : DelayedMessage) (ds : List DelayedMessage)
    → P d
    → All P ds
    → All P (push_delayed d ds)
unfolding push_delayed
All-push_delayed P d [] p h = (p, tt)
All-push_delayed P d (e ∷ ds) p h =
    if-rule (All P) (less_than e d) (λ _. (p, h)) (λ _. (h.0, All-push_delayed P d ds p h.1))

pub push_delayed-Ordered :
    (d : DelayedMessage) (ds : List DelayedMessage) → Ordered ds → Ordered (push_delayed d ds)
unfolding push_delayed
push_delayed-Ordered d [] h = (tt, tt)
push_delayed-Ordered d (e ∷ ds) h =
    if-rule Ordered (less_than e d)
      (λ before.
        let first = Precedes-before d e before in
        ((first, All-mono (λ f k. Precedes-trans d e f first k) ds h.0), h))
      (λ after. (All-push_delayed (Precedes e) d ds after h.0, push_delayed-Ordered d ds h.1))

pub filter_by-Ordered :
    (test : DelayedMessage → Bool) (ds : List DelayedMessage)
    → Ordered ds
    → Ordered (filter_by test ds)
filter_by-Ordered test [] h = tt
filter_by-Ordered test (d ∷ ds) h =
    let rest = filter_by-Ordered test ds h.1 in
    if-rule Ordered (test d) (λ _. (All-filter_by (Precedes d) test ds h.0, rest)) (λ _. rest)

-- Where a new entry stands.
pub record Placed (d : DelayedMessage) (old new : List DelayedMessage) : Type 0 where
  pub sooner : List DelayedMessage
  pub later : List DelayedMessage
  pub before : old ≡ sooner ++ later
  pub after : new ≡ sooner ++ d ∷ later
  pub no_later : All (λ e. e.trigger ≤ d.trigger) sooner
  pub no_sooner : All (λ e. d.trigger < e.trigger) later

less_than-later :
    (d e : DelayedMessage) → less_than e d ≡ true → e.num ≤ d.num → d.trigger < e.trigger
unfolding less_than
less_than-later d e h n = ground arith

Precedes-trigger : (e f : DelayedMessage) → Precedes e f → e.trigger ≤ f.trigger
unfolding less_than
Precedes-trigger e f k = ground arith

Precedes-later :
    (d e f : DelayedMessage) → d.trigger < e.trigger → Precedes e f → d.trigger < f.trigger
Precedes-later d e f h k = omega (arith, Precedes-trigger e f k)

push_delayed-Placed :
    (d : DelayedMessage) (ds : List DelayedMessage)
    → Ordered ds
    → All (λ e. e.num ≤ d.num) ds
    → Placed d ds (push_delayed d ds)
unfolding push_delayed
push_delayed-Placed d [] h n = record {
  sooner = [];
  later = [];
  before = refl;
  after = refl;
  no_later = tt;
  no_sooner = tt;
}
push_delayed-Placed d (e ∷ ds) h n =
    if-rule (Placed d (e ∷ ds)) (less_than e d)
      (λ before.
        let first = less_than-later d e before n.0 in
        record {
          sooner = [];
          later = e ∷ ds;
          before = refl;
          after = refl;
          no_later = tt;
          no_sooner = (first, All-mono (λ f. Precedes-later d e f first) ds h.0);
        })
      (λ after.
        let p = push_delayed-Placed d ds h.1 n.1 in
        record {
          sooner = e ∷ p.sooner;
          later = p.later;
          before = ap (◌∷◌ e) p.before;
          after = ap (◌∷◌ e) p.after;
          no_later = (Precedes-trigger e d after, p.no_later);
          no_sooner = p.no_sooner;
        })

-- The delayed messages are in order, and a number is not given yet.
pub record IsOrdered (q : MessageQueue) : Type 0 where
  pub ordered : Ordered q.delayed
  pub numbered : All (λ e. e.num < q.next_num) q.delayed

ensure_active-delayed :
    (q : MessageQueue)
    → ((ensure_active q).delayed ≡ q.delayed) × ((ensure_active q).next_num ≡ q.next_num)
unfolding ensure_active
ensure_active-delayed q =
    if-rule (λ (r : MessageQueue). (r.delayed ≡ q.delayed) × (r.next_num ≡ q.next_num)) q.active
      (λ _. (refl, refl)) (λ _. (refl, refl))

-- The entry that a delayed post makes.
abbrev pub entry : ℤ → ℕ → Option ℕ → ℕ → Option ℕ → ℕ → DelayedMessage
entry delay tstamp h id payload num = record {
  delay = delay;
  trigger = tstamp;
  num = num;
  msg = record { handler = h; message_id = id; payload = payload; ts_sensitive = 0 };
}

pub do_delay_post_fields :
    (q : MessageQueue) (delay : ℤ) (tstamp id : ℕ) (h payload : Option ℕ)
    → q.stop ≡ false
    → ((do_delay_post delay tstamp h id payload q).delayed
        ≡ push_delayed (entry delay tstamp h id payload q.next_num) q.delayed)
      × ((do_delay_post delay tstamp h id payload q).next_num ≡ (q.next_num + 1) % word)
unfolding do_delay_post
do_delay_post_fields q delay tstamp id h payload running =
    let d = entry delay tstamp h id payload q.next_num in
    if-rule
      (λ (r : MessageQueue).
        (r.delayed ≡ push_delayed d q.delayed) × (r.next_num ≡ (q.next_num + 1) % word))
      q.stop (λ stopped. absurd (cc))
      (λ _. (
        ap (push_delayed d) (ensure_active-delayed q).0,
        ap (λ n. (n + 1) % word) (ensure_active-delayed q).1,
      ))

-- Where a queue is not stopped, its delayed messages are in the order of their times and
-- numbers, and the next number is above all of theirs and does not wrap, a delayed post puts the
-- message behind all with the same or a smaller time and before all with a greater one, moves no
-- other, and the order and the numbers are right again.
pub do_delay_post-Placed :
    (q : MessageQueue) (delay : ℤ) (tstamp id : ℕ) (h payload : Option ℕ)
    → IsOrdered q
    → q.stop ≡ false
    → q.next_num + 1 < word
    → Placed
        (entry delay tstamp h id payload q.next_num)
        q.delayed
        (do_delay_post delay tstamp h id payload q).delayed
      × IsOrdered (do_delay_post delay tstamp h id payload q)
do_delay_post-Placed q delay tstamp id h payload o running small =
    let d = entry delay tstamp h id payload q.next_num in
    let f = do_delay_post_fields q delay tstamp id h payload running in
    let next : (do_delay_post delay tstamp h id payload q).next_num ≡ q.next_num + 1 =
      omega (arith, f.1) in
    (
      rw f.0 (
          push_delayed-Placed d q.delayed o.ordered
            (All-mono (λ e h. omega (arith, h)) q.delayed o.numbered)),
      record {
        ordered = rw f.0 (push_delayed-Ordered d q.delayed o.ordered);
        numbered =
            rw (f.0, next)
              (All-push_delayed (λ e. e.num < q.next_num + 1) d q.delayed (omega arith)
                (All-mono (λ e h. omega (arith, h)) q.delayed o.numbered));
      },
    )
