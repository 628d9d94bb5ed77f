-- ===== src/Xml/Element/Replace.antt =====
-- The children of one name replaced by at most one (talk/xmllite/xmlelement.cc), by
-- `ClearNamedChildren`, `AddElement` and `AddText` with depth 1.
use gxmpp.Prelude.{
  inl, inr, if◌then◌else◌, ◌≡◌, refl, ap, ◌∙◌, false, [], ◌∷◌, ◌++◌, List, Option, none, some,
  arith, Bytes, is_empty, Bool-cases, append-nil,
}
use mathlib.Core.Option
use gxmpp.Xml.QName.{QName, eq_qname, eq_qname_iff, eq_qname_self}
use gxmpp.Xml.Element.{
  Element, elem, Children, nil, text, child, name, children, attr_list, append_child, append_text,
  add_text, add_element, new_element, named, find_child, first_of_children, first_named, all_named,
  clear_named_children, on_last, at_depth, body_text, text_named,
}
use gxmpp.Xml.Element.ChildList.{all_named-drop}

abbrev pub head : List Element → Option Element
head [] = none
head (x ∷ xs) = some x

first_named-all :
    (q : QName) (cs : Children)
    → Option.map (λ (f : Element × Children). f.0) (find_child (named q) cs) ≡ head (all_named q cs)
unfolding find_child all_named
first_named-all q nil = refl
first_named-all q (text t rest) = first_named-all q rest
first_named-all q (child x rest) = elim (Bool-cases (eq_qname (name x) q)) [
  | inl hit ↦ rw hit
  | inr miss ↦ rw miss (first_named-all q rest)
]

pub first_named-head : (q : QName) (x : Element) → first_named q x ≡ head (all_named q (children x))
unfolding first_of_children
first_named-head q x = first_named-all q (children x)

abbrev pub head_text : List Element → Bytes
head_text [] = []
head_text (x ∷ xs) = body_text x

head_text_case :
    (xs : List Element) → elim (head xs) [ none ↦ [] | some c ↦ body_text c ] ≡ head_text xs
head_text_case [] = refl
head_text_case (y ∷ ys) = refl

pub text_named-head :
    (q : QName) (x : Element) → text_named q x ≡ head_text (all_named q (children x))
unfolding text_named
text_named-head q x =
    ap (λ o. elim o [ none ↦ [] | some c ↦ body_text c ]) (first_named-head q x)
    ∙ head_text_case (all_named q (children x))

on_last-append_child :
    (f : Element → Option Element) (cs : Children) (c c' : Element)
    → f c ≡ some c'
    → on_last f (append_child cs c) ≡ some (append_child cs c')
unfolding on_last append_child
on_last-append_child f nil c c' e = rw e
on_last-append_child f (text s nil) c c' e = rw e
on_last-append_child f (text s (text s' rest)) c c' e =
    ap (Option.map (text s)) (on_last-append_child f (text s' rest) c c' e)
on_last-append_child f (text s (child x rest)) c c' e =
    ap (Option.map (text s)) (on_last-append_child f (child x rest) c c' e)
on_last-append_child f (child x nil) c c' e = rw e
on_last-append_child f (child x (text s rest)) c c' e =
    ap (Option.map (child x)) (on_last-append_child f (text s rest) c c' e)
on_last-append_child f (child x (child x' rest)) c c' e =
    ap (Option.map (child x)) (on_last-append_child f (child x' rest) c c' e)

pub all_named-append_child :
    (q : QName) (cs : Children) (c : Element)
    → all_named q (append_child cs c) ≡ all_named q cs ++ (if named q (name c) then c ∷ [] else [])
unfolding all_named append_child
all_named-append_child q nil c = refl
all_named-append_child q (text s rest) c = all_named-append_child q rest c
all_named-append_child q (child e rest) c = ground (arith, all_named-append_child q rest c)

-- The element `new` has the children `kids` of the name `q`, and is otherwise as `old` was.
pub record Replaces (q : QName) (kids : List Element) (old new : Element) : Type 0 where
  pub same_name : name new ≡ name old
  pub same_attrs : attr_list new ≡ attr_list old
  pub named_kids : all_named q (children new) ≡ kids
  pub other_kids :
      (p : QName) → eq_qname p q ≡ false → all_named p (children new) ≡ all_named p (children old)

-- An element with a text and nothing else.
abbrev pub leaf : QName → Bytes → Element
leaf q t = elem q [] (text t nil) false

pub add_leaf :
    (q : QName) (t : Bytes) (x : Element)
    → is_empty t ≡ false
    → at_depth 1 (add_text t) (add_element (new_element q) x) ≡ some (add_element (leaf q t) x)
unfolding at_depth add_text add_element append_text
add_leaf q t (elem n attrs cs cdata) h =
    ap (Option.map (λ cs'. elem n attrs cs' cdata))
      (on_last-append_child (at_depth 0 (add_text t)) cs (new_element q) (leaf q t) (rw h))

pub clear-Replaces : (q : QName) (x : Element) → Replaces q [] x (clear_named_children q x)
unfolding clear_named_children
clear-Replaces q (elem n attrs cs cdata) = record {
  same_name = refl;
  same_attrs = refl;
  named_kids = all_named-drop q q cs ∙ rw (eq_qname_self q);
  other_kids = λ p h. all_named-drop p q cs ∙ rw h;
}

ne_swap : (p q : QName) → eq_qname p q ≡ false → eq_qname q p ≡ false
ne_swap p q h = ground (arith, eq_qname_iff p q, eq_qname_iff q p)

add_element-Replaces :
    (q : QName) (x y : Element) (t : Bytes)
    → Replaces q [] x y
    → Replaces q (leaf q t ∷ []) x (add_element (leaf q t) y)
unfolding add_element
add_element-Replaces q x (elem n attrs cs cdata) t r = record {
  same_name = r.same_name;
  same_attrs = r.same_attrs;
  named_kids = all_named-append_child q cs (leaf q t) ∙ rw (r.named_kids, eq_qname_self q);
  other_kids = λ p h.
      all_named-append_child p cs (leaf q t)
      ∙ rw (ne_swap p q h) (append-nil (all_named p cs) ∙ r.other_kids p h);
}

-- The children of a name are cleared, and one with a text is added.
pub put_text-Replaces :
    (q : QName) (t : Bytes) (x : Element)
    → is_empty t ≡ false
    → (y : Element) × (at_depth 1
          (add_text t)
          (add_element (new_element q) (clear_named_children q x))
        ≡ some y)
      × Replaces q (leaf q t ∷ []) x y
put_text-Replaces q t x h = (
  add_element (leaf q t) (clear_named_children q x),
  add_leaf q t (clear_named_children q x) h,
  add_element-Replaces q x (clear_named_children q x) t (clear-Replaces q x),
)
