-- ===== src/Xml/Element/ChildList.antt =====
-- The children of an element (talk/xmllite/xmlelement.cc): the merging of texts, and the operations
-- by name.
use gxmpp.Prelude.{
  if◌then◌else◌, ◌≡◌, inl, inr, refl, ap, false, [], ◌∷◌, ◌++◌, Option, none, some, arith, Bytes,
  is_empty, Bool-cases, Option-cases,
}
use mathlib.Core.Option
use gxmpp.Xml.QName.{QName, eq_qname, eq_qname_iff, eq_qname_self}
use gxmpp.Xml.Element.{
  Element, elem, Children, nil, text, child, name, children, append_text, append_child, add_text,
  add_element, set_body, set_body_text, body_text, only_text, new_element, named, find_child,
  first_of_children, first_named, all_named, drop_named, clear_named_children,
  find_or_add_named_child,
}

-- No text is empty, and no two texts stand side by side.
abbrev pub IsMerged : Children → Type 0
IsMerged nil = Unit
IsMerged (text t nil) = is_empty t ≡ false
IsMerged (text t (text s rest)) = ⊥
IsMerged (text t (child e rest)) = (is_empty t ≡ false) × IsMerged (child e rest)
IsMerged (child e rest) = IsMerged rest

is_empty-append_left : (s t : Bytes) → is_empty s ≡ false → is_empty (s ++ t) ≡ false
is_empty-append_left [] t h = cc
is_empty-append_left (x ∷ s) t h = refl

append_text-IsMerged :
    (cs : Children) (t : Bytes) → is_empty t ≡ false → IsMerged cs → IsMerged (append_text cs t)
unfolding append_text
append_text-IsMerged nil t h m = h
append_text-IsMerged (text s nil) t h m = is_empty-append_left s t m
append_text-IsMerged (text s (text s' rest)) t h m = elim m [ ]
append_text-IsMerged (text s (child e nil)) t h m = (m.0, h)
append_text-IsMerged (text s (child e (text s' rest))) t h m =
    (m.0, append_text-IsMerged (text s' rest) t h m.1)
append_text-IsMerged (text s (child e (child e' rest))) t h m =
    (m.0, append_text-IsMerged (child e' rest) t h m.1)
append_text-IsMerged (child e rest) t h m = append_text-IsMerged rest t h m

append_child-IsMerged : (cs : Children) (c : Element) → IsMerged cs → IsMerged (append_child cs c)
unfolding append_child
append_child-IsMerged nil c m = tt
append_child-IsMerged (text s nil) c m = (m, tt)
append_child-IsMerged (text s (text s' rest)) c m = elim m [ ]
append_child-IsMerged (text s (child e rest)) c m = (m.0, append_child-IsMerged rest c m.1)
append_child-IsMerged (child e rest) c m = append_child-IsMerged rest c m

-- Where no text child is empty and no two text children are adjacent, that stays so under
-- AddText, AddElement and SetBodyText.
pub content-IsMerged :
    (t : Bytes) (c e : Element)
    → IsMerged (children e)
    → IsMerged (children (add_text t e))
      × IsMerged (children (add_element c e))
      × IsMerged (children (set_body_text t e))
unfolding add_text add_element set_body_text set_body
content-IsMerged t c (elem n xs cs cdata) m =
    (ground (arith, append_text-IsMerged cs t), append_child-IsMerged cs c m, ground arith)

find_child-drop : (q : QName) (cs : Children) → find_child (named q) (drop_named q cs) ≡ none
unfolding find_child drop_named
find_child-drop q nil = refl
find_child-drop q (text t rest) = find_child-drop q rest
find_child-drop q (child e rest) = ground (arith, find_child-drop q rest)

pub all_named-drop :
    (p q : QName) (cs : Children)
    → all_named p (drop_named q cs) ≡ (if eq_qname p q then [] else all_named p cs)
unfolding all_named drop_named
all_named-drop p q nil = ground arith
all_named-drop p q (text t rest) = all_named-drop p q rest
all_named-drop p q (child e rest) = ground (
  arith,
  eq_qname_iff (name e) q,
  eq_qname_iff (name e) p,
  eq_qname_iff p q,
  all_named-drop p q rest,
)

find_child-append :
    (q : QName) (cs : Children) (c : Element)
    → find_child (named q) cs ≡ none
    → name c ≡ q
    → find_child (named q) (append_child cs c) ≡ some (c, nil)
unfolding find_child append_child
find_child-append q nil c h e = rw (e, eq_qname_self q)
find_child-append q (text t rest) c h e = find_child-append q rest c h e
find_child-append q (child x rest) c h e = elim (Bool-cases (eq_qname (name x) q)) [
  | inl hit ↦ cc (rw hit at h)
  | inr miss ↦ rw miss (find_child-append q rest c (rw miss at h) e)
]

body_text-set : (t : Bytes) (e : Element) → body_text (set_body_text t e) ≡ t
unfolding set_body_text only_text
body_text-set [] (elem n xs cs cdata) = refl
body_text-set (c ∷ t) (elem n xs cs cdata) = set_case cs
  where
    set_case : (cs : Children) → only_text (set_body cs (c ∷ t)) ≡ c ∷ t
    set_case nil = refl
    set_case (text s nil) = refl
    set_case (text s (text s' rest)) = refl
    set_case (text s (child e rest)) = refl
    set_case (child e rest) = refl

abbrev pub ByNameLaws : QName → QName → Element → Type 0
ByNameLaws p q e =
    (first_named q (clear_named_children q e) ≡ none)
    × (all_named p (children (clear_named_children q e))
        ≡ (if eq_qname p q then [] else all_named p (children e)))
    × (first_named q (find_or_add_named_child q e).1 ≡ some (find_or_add_named_child q e).0)

first_named_eq :
    (q : QName) (e : Element) {r : Option (Element × Children)}
    → find_child (named q) (children e) ≡ r
    → first_named q e ≡ Option.map (λ found. found.0) r
unfolding first_of_children
first_named_eq q e h = ap (Option.map (λ found. found.0)) h

find_or_add-first_named :
    (q : QName) (e : Element)
    → first_named q (find_or_add_named_child q e).1 ≡ some (find_or_add_named_child q e).0
unfolding find_or_add_named_child
find_or_add-first_named q (elem n xs cs cdata) = elim (Option-cases (find_child (named q) cs)) [
  | inl missing ↦
      let e = first_named_eq q (elem n xs cs cdata) missing in
      rw (e, find_or_add_named_child)
        (first_named_eq q (add_element (new_element q) (elem n xs cs cdata))
          (find_child-append q cs (new_element q) missing refl))
  | inr (found, here) ↦
      let e = first_named_eq q (elem n xs cs cdata) here in rw (e, find_or_add_named_child) e
]

-- ClearNamedChildren leaves no child of that name and all children of every other name, and
-- FindOrAddNamedChild returns what FirstNamed then finds in the element.
pub children-ByNameLaws : (p q : QName) (e : Element) → ByNameLaws p q e
unfolding clear_named_children
children-ByNameLaws p q (elem n xs cs cdata) = (
  first_named_eq q (clear_named_children q (elem n xs cs cdata)) (find_child-drop q cs),
  all_named-drop p q cs,
  find_or_add-first_named q (elem n xs cs cdata),
)
