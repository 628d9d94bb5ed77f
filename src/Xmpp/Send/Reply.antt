-- ===== src/Xmpp/Send/Reply.antt =====
-- The error element that `SendStanzaError` of talk/xmpp/xmppengineimpl_iq.cc builds.
use gxmpp.Prelude.{
  ◌≡◌, refl, ◌∙◌, true, false, some, List, [], ◌∷◌, arith, if◌then◌else◌, Bytes, codes, is_empty,
}
use gxmpp.Prelude.{if-rule, >>=-rule}
use gxmpp.Xml.Builder.Holes.{at_depth-add_element}
use gxmpp.Xml.QName.{QName, eq_qname}
use gxmpp.Xml.NsStack.{qn_xmlns}
use gxmpp.Xml.Element.{
  Attr, Element, Children, elem, nil, text, child, name, children, attr_list, new_element,
  new_with_ns, find_attr, mem_attr, attr, has_attr, add_attr, add_element, add_text, at_depth,
}
use gxmpp.Xmpp.Names.{qn_error, qn_to, qn_from, qn_type, qn_code}
use gxmpp.Xmpp.Send.ReplyAttrs.{add_attr-mem, names-distinct, reply_attrs-find}
use gxmpp.Xmpp.Send.{
  StanzaError, error_row, add_error, add_error_code, reply_attrs, copy_children, error_reply,
}

at_depth_one-add_element :
    (f : Element → Element) (c x : Element)
    → at_depth 1 f (add_element c x) ≡ some (add_element (f c) x)
unfolding at_depth
at_depth_one-add_element f c x = at_depth-add_element 0 f c (f c) x refl

-- The child `error`.
abbrev pub error_element : StanzaError → Element
error_element code =
    let row = error_row code in
    add_element (new_with_ns qn_xmlns row.0 true)
      (add_attr qn_type row.1 (add_attr qn_code row.2 (new_element qn_error)))

add_error_code-some :
    (code : StanzaError) (x : Element)
    → add_error_code code x ≡ some (add_element (error_element code) x)
unfolding add_error_code add_error
add_error_code-some code x =
    let row = error_row code in
    rw
      (
        at_depth_one-add_element (add_attr qn_code row.2) (new_element qn_error) x,
        at_depth_one-add_element (add_attr qn_type row.1)
            (add_attr qn_code row.2 (new_element qn_error)) x,
      )
      (at_depth_one-add_element (add_element (new_with_ns qn_xmlns row.0 true)) _ x)

add_element-attrs : (c x : Element) → attr_list (add_element c x) ≡ attr_list x
unfolding add_element
add_element-attrs c (elem n attrs cs cdata) = refl

add_element-name : (c x : Element) → name (add_element c x) ≡ name x
unfolding add_element
add_element-name c (elem n attrs cs cdata) = refl

add_text-attrs : (t : Bytes) (x : Element) → attr_list (add_text t x) ≡ attr_list x
unfolding add_text
add_text-attrs t (elem n attrs cs cdata) = ground arith

add_text-name : (t : Bytes) (x : Element) → name (add_text t x) ≡ name x
unfolding add_text
add_text-name t (elem n attrs cs cdata) = ground arith

copy_children-attrs : (cs : Children) (x : Element) → attr_list (copy_children cs x) ≡ attr_list x
unfolding copy_children
copy_children-attrs nil x = refl
copy_children-attrs (text t rest) x = copy_children-attrs rest (add_text t x) ∙ add_text-attrs t x
copy_children-attrs (child c rest) x =
    copy_children-attrs rest (add_element c x) ∙ add_element-attrs c x

copy_children-name : (cs : Children) (x : Element) → name (copy_children cs x) ≡ name x
unfolding copy_children
copy_children-name nil x = refl
copy_children-name (text t rest) x = copy_children-name rest (add_text t x) ∙ add_text-name t x
copy_children-name (child c rest) x =
    copy_children-name rest (add_element c x) ∙ add_element-name c x

reply_attrs-mem_from :
    (attrs : List Attr) (x : Element)
    → mem_attr qn_from (attr_list (reply_attrs attrs x)) ≡ mem_attr qn_from (attr_list x)
unfolding reply_attrs
reply_attrs-mem_from [] x = refl
reply_attrs-mem_from (a ∷ rest) x = ground (
  arith,
  reply_attrs-mem_from rest x,
  reply_attrs-mem_from rest (add_attr qn_to a.value x),
  reply_attrs-mem_from rest (add_attr a.name a.value x),
  add_attr-mem qn_from qn_to a.value x,
  add_attr-mem qn_from a.name a.value x,
  names-distinct,
)

abbrev pub typed_error : QName → Element
typed_error q = add_attr qn_type (codes "error") (new_element q)

abbrev Replies : Element → Element → Type 0
Replies original x =
    (name x ≡ name original)
    × (attr_list x ≡ attr_list (reply_attrs (attr_list original) (typed_error (name original))))

reply_attrs-name : (attrs : List Attr) (x : Element) → name (reply_attrs attrs x) ≡ name x
unfolding reply_attrs add_attr
reply_attrs-name [] x = refl
reply_attrs-name (a ∷ rest) (elem n attrs cs cdata) = ground (
  arith,
  reply_attrs-name rest (elem n attrs cs cdata),
  reply_attrs-name rest (add_attr qn_to a.value (elem n attrs cs cdata)),
  reply_attrs-name rest (add_attr a.name a.value (elem n attrs cs cdata)),
)

pub error_reply-some :
    (original : Element) (code : StanzaError) (message : Bytes)
    → (x : Element) × (error_reply original code message ≡ some x) × Replies original x
unfolding error_reply add_attr
error_reply-some original code message =
    let typed = typed_error (name original) in
    let replied = reply_attrs (attr_list original) typed in
    let copied = copy_children (children original) replied in
    let x = add_element (error_element code) copied in
    let n : name x ≡ name original =
      add_element-name (error_element code) copied
      ∙ copy_children-name (children original) replied
      ∙ reply_attrs-name (attr_list original) typed in
    let a : attr_list x ≡ attr_list replied =
      add_element-attrs (error_element code) copied
      ∙ copy_children-attrs (children original) replied in
    >>=-rule (λ o. (x : Element) × (o ≡ some x) × Replies original x) (add_error_code code copied) _
      x (add_error_code-some code copied)
      (if-rule (λ y. (x : Element) × (some y ≡ some x) × Replies original x) (is_empty message)
        (λ m. (x, refl, (n, a)))
        (λ m. (_, refl, (add_element-name _ x ∙ n, add_element-attrs _ x ∙ a))))

-- The element of SendStanzaError is always built, has the name of the original and no attribute
-- from, is of type error, goes to the sender of the original, and has every other attribute as
-- the original.
pub error_reply-Addressed :
    (original : Element) (code : StanzaError) (message : Bytes) (q : QName)
    → (x : Element) × (error_reply original code message ≡ some x)
      × (name x ≡ name original)
      × (has_attr qn_from x ≡ false)
      × (attr q x ≡ (
          if eq_qname qn_type q
          then codes "error"
          else if eq_qname qn_to q
          then attr qn_from original
          else if eq_qname qn_from q
          then []
          else attr q original))
unfolding find_attr mem_attr add_attr
error_reply-Addressed original code message q =
    let (x, k, (n, a)) = error_reply-some original code message in
    let typed = typed_error (name original) in
    (
      x,
      k,
      n,
      rw a (reply_attrs-mem_from (attr_list original) typed ∙ ground (arith, names-distinct)),
      rw a (reply_attrs-find q (attr_list original) typed ∙ ground arith),
    )
