-- ===== src/Xmpp/Stanzas/Trees.antt =====
-- The callbacks for a whole tree of tags, and the element that the tree stands for, against
-- talk/xmpp/xmppstanzaparser.cc and talk/xmllite/xmlbuilder.cc.
use gxmpp.Prelude.{
  ℕ, suc, ◌≡◌, refl, ap, ◌∙◌, subst, true, false, Option, some, List, [], ◌∷◌, arith, ltb, ◌==◌,
  ◌>>=◌, length, get_or, Bytes, is_empty,
}
use gxmpp.Prelude.{if-rule, elim-some, >>=-some, >>=-inverse, some_injective}
use gxmpp.Xml.Element.{Element, add_element, add_text}
use gxmpp.Xml.NsStack.{NsStack, push_frame, pop_frame, add_xmlns}
use gxmpp.Xml.Printer.Balance.{Grown, Grown-trans, Grown-refl, pop-push}
use gxmpp.Xml.Builder.{
  RawAttrs, Builder, build_element, open_element, start_element, end_element, character_data,
  declare_raw, declare_raw_one, starts_xmlns,
}
use gxmpp.Xml.Builder.Holes.{IsHole, add_element-IsHole, on_current-context}
use gxmpp.Xmpp.Stanzas.{
  ExpatEvent, start_tag, end_tag, characters, StanzaParser, incoming_start_element,
  incoming_end_element, incoming_character_data, expat_start, expat_end, expat_event, expat_events,
}

mutual
  -- A tag with its attributes as written, and what it holds.
  pub data Tree : Type 0 where
    tag : Bytes → RawAttrs → Forest → Tree

  pub data Forest : Type 0 where
    nothing : Forest
    chars : Bytes → Forest → Forest
    node : Tree → Forest → Forest

-- The callbacks in document order, before those that follow.
unfoldable mutual
  pub tree_events : Tree → List ExpatEvent → List ExpatEvent
  tree_events (tag n atts f) rest = start_tag n atts ∷ forest_events f (end_tag n ∷ rest)

  pub forest_events : Forest → List ExpatEvent → List ExpatEvent
  forest_events nothing rest = rest
  forest_events (chars t f) rest = characters t ∷ forest_events f rest
  forest_events (node t f) rest = tree_events t (forest_events f rest)

-- The element of a tree where a stack of namespaces is in force, and the element that gets the
-- children of a forest.
unfoldable mutual
  pub tree_element : NsStack → Tree → Option Element
  tree_element s (tag n atts f) = do
    s' ← declare_raw atts (push_frame s)
    x ← build_element s' n atts
    forest_element s' f x

  pub forest_element : NsStack → Forest → Element → Option Element
  forest_element s nothing x = some x
  forest_element s (chars t f) x = forest_element s f (add_text t x)
  forest_element s (node t f) x = tree_element s t >>= λ c. forest_element s f (add_element c x)

-- The parser within a stanza, with the element that it has so far.
abbrev pub inside : ℕ → NsStack → Element → StanzaParser
inside n s r = record {
  depth = suc (suc n);
  builder = record { root = some r; nesting = suc n };
  namespaces = s;
  raised = false;
  sent_error = false;
}

-- A callback about which the handler hears nothing.
pub silent :
    (ev : ExpatEvent) (evs : List ExpatEvent) (p p' : StanzaParser)
    → expat_event ev p ≡ some ([], p')
    → expat_events (ev ∷ evs) p ≡ expat_events evs p'
unfolding expat_events
silent ev evs p p' h = rw h (>>=-some (expat_events evs p'))

declare_raw_one-Grown : (n v : Bytes) (s t : NsStack) → declare_raw_one n v s ≡ some t → Grown s t
unfolding declare_raw_one add_xmlns
declare_raw_one-Grown n v s t =
    if-rule (λ o. (o ≡ some t) → Grown s t) (starts_xmlns n)
      (λ a.
        if-rule (λ o. (o ≡ some t) → Grown s t) (length n == 5)
          (λ b h. subst (Grown s) (some_injective h) (refl, (_ ∷ [], refl)))
          (λ b.
            if-rule (λ o. (o ≡ some t) → Grown s t) (get_or n 5 0 == b':')
              (λ c.
                if-rule (λ o. (o ≡ some t) → Grown s t) (is_empty v) (λ d h. ground (arith, h))
                  (λ d h. subst (Grown s) (some_injective h) (refl, (_ ∷ [], refl))))
              (λ c h. subst (Grown s) (some_injective h) (Grown-refl s))))
      (λ a h. subst (Grown s) (some_injective h) (Grown-refl s))

pub declare_raw-Grown : (atts : RawAttrs) (s t : NsStack) → declare_raw atts s ≡ some t → Grown s t
unfolding declare_raw
declare_raw-Grown [] s t h = subst (Grown s) (some_injective h) (Grown-refl s)
declare_raw-Grown ((n, v) ∷ rest) s t h =
    let (u, k, m) = >>=-inverse (declare_raw_one n v s) (declare_raw rest) t h in
    Grown-trans (declare_raw_one-Grown n v s u k) (declare_raw-Grown rest u t m)

start_element-some :
    (n : ℕ) (t : NsStack) (name : Bytes) (atts : RawAttrs) (x c : Element)
    (context : Element → Element)
    → IsHole n context
    → build_element t name atts ≡ some c
    → start_element t name atts (record { root = some (context x); nesting = suc n })
      ≡ some (false, record { root = some (context (add_element c x)); nesting = suc (suc n) })
unfolding start_element open_element
start_element-some n t name atts x c context hole b =
    let p : Builder = record { root = some (context x); nesting = suc n } in
    elim-some
      (λ o.
        o ≡ some (false, record { root = some (context (add_element c x)); nesting = suc (suc n) }))
      (build_element t name atts) _ _ c b
      (rw (on_current-context n context (add_element c) x p hole refl) refl)

start-inside :
    (n : ℕ) (s t : NsStack) (name : Bytes) (atts : RawAttrs) (x c : Element)
    (context : Element → Element)
    → IsHole n context
    → declare_raw atts (push_frame s) ≡ some t
    → build_element t name atts ≡ some c
    → expat_event (start_tag name atts) (inside n s (context x))
      ≡ some ([], inside (suc n) t (context (add_element c x)))
unfolding expat_event expat_start incoming_start_element
start-inside n s t name atts x c context hole d b =
    elim-some (λ o. o ≡ some ([], inside (suc n) t (context (add_element c x))))
      (declare_raw atts (push_frame s)) _ _ t d
      (if-rule (λ o. o ≡ some ([], inside (suc n) t (context (add_element c x)))) (suc (suc n) == 0)
        (λ z. ground (arith, z))
        (λ z. rw (start_element-some n t name atts x c context hole b) refl))

chars-inside :
    (n : ℕ) (s : NsStack) (t : Bytes) (x : Element) (context : Element → Element)
    → IsHole n context
    → expat_event (characters t) (inside n s (context x))
      ≡ some ([], inside n s (context (add_text t x)))
unfolding expat_event incoming_character_data character_data
chars-inside n s t x context hole =
    let p : Builder = record { root = some (context x); nesting = suc n } in
    let deep : ltb 1 (suc (suc n)) ≡ true = ground arith in
    rw (deep, on_current-context n context (add_text t) x p hole refl) refl

end-inside :
    (n : ℕ) (s t : NsStack) (name : Bytes) (r : Element)
    → pop_frame t ≡ some s
    → expat_event (end_tag name) (inside (suc n) t r) ≡ some ([], inside n s r)
unfolding expat_event expat_end incoming_end_element end_element
end-inside n s t name r h =
    let zero_no : (suc (suc n) == 0) ≡ false = ground arith in
    let one_no : (suc (suc n) == 1) ≡ false = ground arith in rw (h, zero_no, one_no) refl

mutual
  unfolding tree_element tree_events

  tree-inside :
      (tr : Tree) (n : ℕ) (s : NsStack) (x c : Element) (context : Element → Element)
      (rest : List ExpatEvent)
      → IsHole n context
      → tree_element s tr ≡ some c
      → expat_events (tree_events tr rest) (inside n s (context x))
        ≡ expat_events rest (inside n s (context (add_element c x)))
  tree-inside (tag name atts f) n s x c context rest hole h =
      let (t, d, h1) = >>=-inverse (declare_raw atts (push_frame s)) _ c h in
      let (e, b, h2) = >>=-inverse (build_element t name atts) (forest_element t f) c h1 in
      let pop = pop-push s t (declare_raw-Grown atts (push_frame s) t d) in
      silent (start_tag name atts) _ _ _ (start-inside n s t name atts x e context hole d b)
      ∙ forest-inside f (suc n) t e c (λ y. context (add_element y x)) (end_tag name ∷ rest)
          (add_element-IsHole n context x hole) h2
      ∙ silent (end_tag name) rest _ _ (end-inside n s t name (context (add_element c x)) pop)

  pub forest-inside :
      (f : Forest) (n : ℕ) (s : NsStack) (x y : Element) (context : Element → Element)
      (rest : List ExpatEvent)
      → IsHole n context
      → forest_element s f x ≡ some y
      → expat_events (forest_events f rest) (inside n s (context x))
        ≡ expat_events rest (inside n s (context y))
  forest-inside nothing n s x y context rest hole h =
      ap (λ z. expat_events rest (inside n s (context z))) (some_injective h)
  forest-inside (chars t f) n s x y context rest hole h =
      silent (characters t) _ _ _ (chars-inside n s t x context hole)
      ∙ forest-inside f n s (add_text t x) y context rest hole h
  forest-inside (node tr f) n s x y context rest hole h =
      let (c, k, m) = >>=-inverse (tree_element s tr) _ y h in
      tree-inside tr n s x c context (forest_events f rest) hole k
      ∙ forest-inside f n s (add_element c x) y context rest hole m
