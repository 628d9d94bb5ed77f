-- ===== src/Base/MessageQueue/Cleared.antt =====
-- What `Clear` removes and keeps.
use gxmpp.Prelude.{
  ℕ, ◌+◌, ◌≡◌, refl, sym, ap, ◌∙◌, subst, Bool, true, not, ◌&&◌, Option, List, [], ◌∷◌, ◌++◌, map,
  filter_by, All, All-append, arith, length, length-append, length-map, if◌then◌else◌, if-rule,
}
use gxmpp.Base.MessageQueue.{
  Message, MessageQueue, matches, delayed_matches, peeked_match, delete_all, clear, size,
  removed_by, kept_by, emit, delete_data,
}
use gxmpp.Base.MessageQueue.Stream.{pending}

module _ {ℓ} {A : Type ℓ} (test : A → Bool) where
  filter_by-append :
      (xs ys : List A) → filter_by test (xs ++ ys) ≡ filter_by test xs ++ filter_by test ys
  filter_by-append [] ys = refl
  filter_by-append (x ∷ xs) ys =
      let more = filter_by-append xs ys in
      if-rule
        (λ b.
          b ≡ (if test x then x ∷ filter_by test xs else filter_by test xs) ++ filter_by test ys)
        (test x) (λ e. rw e (ap (◌∷◌ x) more)) (λ e. rw e more)

  filter_by-map :
      {B : Type 0} (f : B → A) (xs : List B)
      → filter_by test (map f xs) ≡ map f (filter_by (λ x. test (f x)) xs)
  filter_by-map f [] = refl
  filter_by-map f (x ∷ xs) = ground (arith, filter_by-map f xs)

  filter_by-holds : (xs : List A) → All (λ x. test x ≡ true) (filter_by test xs)
  filter_by-holds [] = tt
  filter_by-holds (x ∷ xs) =
      let rest = filter_by-holds xs in
      if-rule (All (λ y. test y ≡ true)) (test x) (λ e. (e, rest)) (λ e. rest)

  length-filter_by :
      (xs : List A)
      → length (filter_by test xs) + length (filter_by (λ x. not (test x)) xs) ≡ length xs
  length-filter_by [] = omega arith
  length-filter_by (x ∷ xs) = ground (arith, length-filter_by xs)

-- Deleting data leaves the queue alone.
abbrev Same : MessageQueue → MessageQueue → Type 0
Same q r =
    (r.messages ≡ q.messages)
    × (r.delayed ≡ q.delayed)
    × (r.peek_keep ≡ q.peek_keep)
    × (r.msg_peek ≡ q.msg_peek)

delete_all-Same : (ms : List Message) (q : MessageQueue) → Same q (delete_all ms q)
unfolding delete_all
delete_all-Same [] q = (refl, refl, refl, refl)
delete_all-Same (m ∷ ms) q = delete_all-Same ms (emit (delete_data m.payload) q)

-- What a call of `Clear` leaves.
pub record Cleared (h : Option ℕ) (id : ℕ) (q r : MessageQueue) : Type 0 where
  pub kept : pending r ≡ filter_by (λ m. not (matches h id m)) (pending q)
  pub peek : r.peek_keep ≡ q.peek_keep && not (matches h id q.msg_peek)
  pub same_peek : r.msg_peek ≡ q.msg_peek

kept_by-Cleared : (h : Option ℕ) (id : ℕ) (q : MessageQueue) → Cleared h id q (kept_by h id q)
unfolding kept_by
kept_by-Cleared h id q = record {
  kept = sym (
      filter_by-append (λ m. not (matches h id m)) q.messages (map (λ d. d.msg) q.delayed)
      ∙ ap (◌++◌ (filter_by (λ m. not (matches h id m)) q.messages))
          (filter_by-map (λ m. not (matches h id m)) (λ d. d.msg) q.delayed));
  peek = refl;
  same_peek = refl;
}

Cleared-Same :
    (h : Option ℕ) (id : ℕ) (q r s : MessageQueue) → Same r s → Cleared h id q r → Cleared h id q s
Cleared-Same h id q r s e c = record {
  kept =
      ap (λ ms. ms ++ map (λ d. d.msg) s.delayed) e.0
      ∙ ap (λ ds. r.messages ++ map (λ d. d.msg) ds) e.1
      ∙ c.kept;
  peek = e.2 ∙ c.peek;
  same_peek = e.3 ∙ c.same_peek;
}

pub clear-Cleared :
    (h : Option ℕ) (id : ℕ) (wanted : Bool) (q : MessageQueue)
    → Cleared h id q (clear h id wanted q).1
unfolding clear
clear-Cleared h id wanted q =
    let kept = kept_by-Cleared h id q in
    if-rule (λ (r : List Message × MessageQueue). Cleared h id q r.1) wanted (λ _. kept)
      (λ _.
        Cleared-Same h id q (kept_by h id q) _
          (delete_all-Same (removed_by h id q) (kept_by h id q)) kept)

peeked_match-All :
    (h : Option ℕ) (id : ℕ) (q : MessageQueue)
    → All (λ m. matches h id m ≡ true) (peeked_match h id q)
peeked_match-All h id q =
    if-rule (All (λ m. matches h id m ≡ true)) (q.peek_keep && matches h id q.msg_peek)
      (λ e. (ground (arith, e), tt)) (λ e. tt)

removed_by-All :
    (h : Option ℕ) (id : ℕ) (q : MessageQueue)
    → All (λ m. matches h id m ≡ true) (removed_by h id q)
unfolding removed_by
removed_by-All h id q =
    All-append (λ m. matches h id m ≡ true) (peeked_match h id q) _ (peeked_match-All h id q)
      (All-append (λ m. matches h id m ≡ true) (filter_by (matches h id) q.messages) _
        (filter_by-holds (matches h id) q.messages)
        (subst (All (λ m. matches h id m ≡ true))
          (filter_by-map (matches h id) (λ d. d.msg) q.delayed)
          (filter_by-holds (matches h id) (map (λ d. d.msg) q.delayed))))

peeked_match_size :
    (h : Option ℕ) (id : ℕ) (q : MessageQueue)
    → length (peeked_match h id q) + (if q.peek_keep && not (matches h id q.msg_peek) then 1 else 0)
      ≡ (if q.peek_keep then 1 else 0)
peeked_match_size h id q = ground arith

pub removed_by_size :
    (h : Option ℕ) (id : ℕ) (q : MessageQueue)
    → length (removed_by h id q) + size (kept_by h id q) ≡ size q
unfolding removed_by kept_by size
removed_by_size h id q = omega (
  arith,
  peeked_match_size h id q,
  length-filter_by (matches h id) q.messages,
  length-filter_by (delayed_matches h id) q.delayed,
  length-map (λ d. d.msg) (filter_by (delayed_matches h id) q.delayed),
  length-append (filter_by (matches h id) q.messages)
      (map (λ d. d.msg) (filter_by (delayed_matches h id) q.delayed)),
  length-append (peeked_match h id q) (
      filter_by (matches h id) q.messages
      ++ map (λ d. d.msg) (filter_by (delayed_matches h id) q.delayed)),
)

-- Clear leaves exactly the messages that do not match, posted and delayed ones in their order,
-- forgets a peeked message just if it matches, and hands back only messages that match; with a
-- list for them it hands back as many as the queue has lost.
pub clear_lem :
    (h : Option ℕ) (id : ℕ) (wanted : Bool) (q : MessageQueue)
    → Cleared h id q (clear h id wanted q).1
      × All (λ m. matches h id m ≡ true) (clear h id wanted q).0
      × (length (clear h id true q).0 + size (clear h id true q).1 ≡ size q)
unfolding clear
clear_lem h id wanted q = (
  clear-Cleared h id wanted q,
  if-rule (λ (r : List Message × MessageQueue). All (λ m. matches h id m ≡ true) r.0) wanted
      (λ _. removed_by-All h id q) (λ _. tt),
  removed_by_size h id q,
)
