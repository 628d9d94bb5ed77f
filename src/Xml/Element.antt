-- ===== src/Xml/Element.antt =====
-- `XmlElement`, `XmlAttr` and `XmlText` of talk/xmllite/xmlelement.h and talk/xmllite/xmlelement.cc.
-- The linked lists of attributes and children are lists, so `first_child_`, `last_child_` and the
-- `next_` pointers are read off their order; a deep copy of an element is the same value.
pub mod Attributes
pub mod ChildList
pub mod Replace
use gxmpp.Prelude.{
  ℕ, zero, suc, Bool, true, false, not, ◌&&◌, [], ◌∷◌, ◌++◌, List, Option, none, some,
  if◌then◌else◌, Bytes, equal, is_empty,
}
use mathlib.Core.Option
use gxmpp.Xml.QName.{QName, eq_qname}

pub record Attr : Type 0 where
  pub name : QName
  pub value : Bytes

mutual
  -- Name, attributes, children and the flag `cdata_`.
  pub data Element : Type 0 where
    elem : QName → List Attr → Children → Bool → Element

  -- The children in order, each a text or an element.
  pub data Children : Type 0 where
    nil : Children
    text : Bytes → Children → Children
    child : Element → Children → Children

abbrev pub name : Element → QName
name (elem q attrs cs cdata) = q

abbrev pub attr_list : Element → List Attr
attr_list (elem q attrs cs cdata) = attrs

abbrev pub children : Element → Children
children (elem q attrs cs cdata) = cs

abbrev pub is_cdata : Element → Bool
is_cdata (elem q attrs cs cdata) = cdata

-- `XmlElement(name)`
abbrev pub new_element : QName → Element
new_element q = elem q [] nil false

-- `XmlElement(name, useDefaultNs)`
unfoldable pub new_with_ns : QName → QName → Bool → Element
new_with_ns qn_xmlns q use_default_ns =
    elem q (if use_default_ns then record { name = qn_xmlns; value = q.ns } ∷ [] else []) nil false

-- `Attr(name)`
unfoldable pub find_attr : QName → List Attr → Bytes
find_attr q [] = []
find_attr q (a ∷ rest) = if eq_qname a.name q then a.value else find_attr q rest

-- `HasAttr(name)`
unfoldable pub mem_attr : QName → List Attr → Bool
mem_attr q [] = false
mem_attr q (a ∷ rest) = if eq_qname a.name q then true else mem_attr q rest

abbrev pub attr : QName → Element → Bytes
attr q e = find_attr q (attr_list e)

abbrev pub has_attr : QName → Element → Bool
has_attr q e = mem_attr q (attr_list e)

-- `SetAttr`: the first attribute of that name gets the value, or a new one goes to the end.
unfoldable pub put_attr : QName → Bytes → List Attr → List Attr
put_attr q v [] = record { name = q; value = v } ∷ []
put_attr q v (a ∷ rest) =
    if eq_qname a.name q then record a { value = v } ∷ rest else a ∷ put_attr q v rest

unfoldable pub set_attr : QName → Bytes → Element → Element
unfolding put_attr
set_attr q v (elem n attrs cs cdata) = elem n (put_attr q v attrs) cs cdata

-- `ClearAttr`: the first attribute of that name goes.
unfoldable pub drop_attr : QName → List Attr → List Attr
drop_attr q [] = []
drop_attr q (a ∷ rest) = if eq_qname a.name q then rest else a ∷ drop_attr q rest

unfoldable pub clear_attr : QName → Element → Element
unfolding drop_attr
clear_attr q (elem n attrs cs cdata) = elem n (drop_attr q attrs) cs cdata

-- `AddAttr(name, value)` appends; that the name is new is an `ASSERT` only.
unfoldable pub add_attr : QName → Bytes → Element → Element
add_attr q v (elem n attrs cs cdata) =
    elem n (attrs ++ record { name = q; value = v } ∷ []) cs cdata

-- The first child element that passes a test on its name, with the siblings after it: `FirstX`
-- starts at the first child, `NextX` at the sibling after the element.
unfoldable pub find_child : (QName → Bool) → Children → Option (Element × Children)
find_child p nil = none
find_child p (text t rest) = find_child p rest
find_child p (child e rest) = if p (name e) then some (e, rest) else find_child p rest

abbrev pub named : QName → QName → Bool
named q n = eq_qname n q

unfoldable pub first_of_children : (QName → Bool) → Element → Option Element
unfolding find_child
first_of_children p e = Option.map (λ found. found.0) (find_child p (children e))

abbrev pub first_element : Element → Option Element
first_element = first_of_children (λ n. true)

abbrev pub first_with_namespace : Bytes → Element → Option Element
first_with_namespace ns = first_of_children (λ n. equal n.ns ns)

abbrev pub first_named : QName → Element → Option Element
first_named q = first_of_children (named q)

-- The loop from `FirstNamed` over `NextNamed`.
unfoldable pub all_named : QName → Children → List Element
all_named q nil = []
all_named q (text t rest) = all_named q rest
all_named q (child e rest) =
    let more = all_named q rest in if named q (name e) then e ∷ more else more

-- `BodyText`
unfoldable pub only_text : Children → Bytes
only_text (text t nil) = t
only_text _ = []

abbrev pub body_text : Element → Bytes
body_text e = only_text (children e)

unfoldable pub text_named : QName → Element → Bytes
text_named q e = elim (first_named q e) [ none ↦ [] | some c ↦ body_text c ]

-- A text goes into a text that is last, or becomes the last child.
unfoldable pub append_text : Children → Bytes → Children
append_text nil t = text t nil
append_text (text s nil) t = text (s ++ t) nil
append_text (text s (text s' rest)) t = text s (append_text (text s' rest) t)
append_text (text s (child e rest)) t = text s (append_text (child e rest) t)
append_text (child e rest) t = child e (append_text rest t)

unfoldable pub append_child : Children → Element → Children
append_child nil c = child c nil
append_child (text s rest) c = text s (append_child rest c)
append_child (child e rest) c = child e (append_child rest c)

-- `AddText(text)` and `AddParsedText`, which do nothing on an empty text.
unfoldable pub add_text : Bytes → Element → Element
add_text t (elem n attrs cs cdata) =
    if is_empty t then elem n attrs cs cdata else elem n attrs (append_text cs t) cdata

unfoldable pub add_cdata_text : Bytes → Element → Element
unfolding add_text
add_cdata_text t (elem n attrs cs cdata) = add_text t (elem n attrs cs true)

unfoldable pub add_element : Element → Element → Element
add_element c (elem n attrs cs cdata) = elem n attrs (append_child cs c) cdata

-- The last child, as an element: `none` where that is a null pointer.
unfoldable pub on_last : (Element → Option Element) → Children → Option Children
on_last f nil = none
on_last f (text s nil) = none
on_last f (child e nil) = Option.map (λ e'. child e' nil) (f e)
on_last f (text s (text s' rest)) = Option.map (text s) (on_last f (text s' rest))
on_last f (text s (child e rest)) = Option.map (text s) (on_last f (child e rest))
on_last f (child e (text s rest)) = Option.map (child e) (on_last f (text s rest))
on_last f (child e (child e' rest)) = Option.map (child e) (on_last f (child e' rest))

-- `AddAttr`, `AddText` and `AddElement` with a depth follow the last child that many times.
unfoldable pub at_depth : ℕ → (Element → Element) → Element → Option Element
unfolding on_last
at_depth zero f e = some (f e)
at_depth (suc depth) f (elem n attrs cs cdata) =
    Option.map (λ cs'. elem n attrs cs' cdata) (on_last (at_depth depth f) cs)

unfoldable pub clear_children : Element → Element
clear_children (elem n attrs cs cdata) = elem n attrs nil cdata

unfoldable pub clear_attributes : Element → Element
clear_attributes (elem n attrs cs cdata) = elem n [] cs cdata

unfoldable pub set_body : Children → Bytes → Children
set_body nil t = text t nil
set_body (text s nil) t = text t nil
set_body _ t = text t nil

-- `SetBodyText`
unfoldable pub set_body_text : Bytes → Element → Element
unfolding set_body
set_body_text t (elem n attrs cs cdata) =
    if is_empty t then elem n attrs nil cdata else elem n attrs (set_body cs t) cdata

unfoldable pub drop_named : QName → Children → Children
drop_named q nil = nil
drop_named q (text t rest) = text t (drop_named q rest)
drop_named q (child e rest) =
    let more = drop_named q rest in if named q (name e) then more else child e more

-- `ClearNamedChildren`
unfoldable pub clear_named_children : QName → Element → Element
unfolding drop_named
clear_named_children q (elem n attrs cs cdata) = elem n attrs (drop_named q cs) cdata

-- `FindOrAddNamedChild`: the child, and the element, which holds it.
unfoldable pub find_or_add_named_child : QName → Element → Element × Element
unfolding add_element
find_or_add_named_child q e = elim (first_named q e) [
  | some c ↦ (c, e)
  | none ↦ (new_element q, add_element (new_element q) e)
]
