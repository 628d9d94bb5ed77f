-- ===== src/Xmpp/Send/ReplyAttrs.antt =====
-- The attributes of the reply that `SendStanzaError` of talk/xmpp/xmppengineimpl_iq.cc builds.
use gxmpp.Prelude.{
  ◌≡◌, refl, inl, inr, false, ◌||◌, List, [], ◌∷◌, ◌++◌, arith, if◌then◌else◌, Bool-cases, Bytes,
}
use gxmpp.Prelude.{compare_bytes}
use gxmpp.Xml.Element.Attributes.{mem_attr-append}
use gxmpp.Xml.QName.{compare_qname, QName, eq_qname, eq_qname_iff, eq_qname_self}
use gxmpp.Xml.Element.{Attr, Element, elem, attr_list, find_attr, mem_attr, add_attr}
use gxmpp.Xmpp.Names.{qn_to, qn_from, qn_type}
use gxmpp.Xmpp.Send.{reply_attrs}

find_attr-append :
    (q : QName) (attrs : List Attr) (a : Attr)
    → find_attr q (attrs ++ a ∷ [])
      ≡ (if mem_attr q attrs then find_attr q attrs else if eq_qname a.name q then a.value else [])
unfolding find_attr mem_attr
find_attr-append q [] a = refl
find_attr-append q (b ∷ attrs) a = ground (arith, find_attr-append q attrs a)

add_attr-attrs :
    (q : QName) (v : Bytes) (x : Element)
    → attr_list (add_attr q v x) ≡ attr_list x ++ record { name = q; value = v } ∷ []
unfolding add_attr
add_attr-attrs q v (elem n attrs cs cdata) = refl

add_attr-find :
    (q j : QName) (v : Bytes) (x : Element)
    → find_attr q (attr_list (add_attr j v x)) ≡ (
        if mem_attr q (attr_list x)
        then find_attr q (attr_list x)
        else if eq_qname j q
        then v
        else [])
add_attr-find q j v x = rw (add_attr-attrs j v x) (find_attr-append q (attr_list x) _)

pub add_attr-mem :
    (q j : QName) (v : Bytes) (x : Element)
    → mem_attr q (attr_list (add_attr j v x)) ≡ (mem_attr q (attr_list x) || eq_qname j q)
add_attr-mem q j v x = rw (add_attr-attrs j v x) (mem_attr-append q (attr_list x) _)

pub names-distinct :
    (eq_qname qn_from qn_to ≡ false)
    × (eq_qname qn_to qn_from ≡ false)
    × (eq_qname qn_type qn_to ≡ false)
    × (eq_qname qn_type qn_from ≡ false)
    × (eq_qname qn_to qn_type ≡ false)
    × (eq_qname qn_from qn_type ≡ false)
unfolding eq_qname compare_qname compare_bytes qn_from qn_to qn_type
names-distinct = (refl, refl, refl, refl, refl, refl)

-- Where the reply takes an attribute from, if it has no attribute of that name yet.
abbrev pub source_of : QName → List Attr → Bytes
source_of q attrs =
    if eq_qname qn_to q
    then find_attr qn_from attrs
    else if eq_qname qn_from q || eq_qname qn_type q
    then []
    else find_attr q attrs

eq_qname_swap : (q j : QName) → eq_qname q j ≡ eq_qname j q
eq_qname_swap q j =
    ground (arith, (eq_qname_iff q j).0, (eq_qname_iff j q).0, eq_qname_self q, eq_qname_self j)

find_attr-absent :
    (q : QName) (attrs : List Attr) → mem_attr q attrs ≡ false → find_attr q attrs ≡ []
unfolding find_attr mem_attr
find_attr-absent q [] h = refl
find_attr-absent q (a ∷ rest) h = ground (arith, find_attr-absent q rest)

pub reply_attrs-find :
    (q : QName) (attrs : List Attr) (x : Element)
    → find_attr q (attr_list (reply_attrs attrs x))
      ≡ (if mem_attr q (attr_list x) then find_attr q (attr_list x) else source_of q attrs)
unfolding reply_attrs find_attr
reply_attrs-find q [] x = ground (arith, find_attr-absent q (attr_list x))
reply_attrs-find q (a ∷ rest) x = elim (Bool-cases (eq_qname a.name qn_to)) [
  | inl h ↦
      let e = (eq_qname_iff a.name qn_to).0 h in
      rw e (ground (arith, reply_attrs-find q rest x, names-distinct.1, eq_qname_self qn_to))
  | inr h ↦ elim (Bool-cases (eq_qname a.name qn_from)) [
    | inl k ↦
        let e = (eq_qname_iff a.name qn_from).0 k in
        rw e (
          ground (
            arith,
            reply_attrs-find q rest (add_attr qn_to a.value x),
            add_attr-find q qn_to a.value x,
            add_attr-mem q qn_to a.value x,
            names-distinct,
            eq_qname_self qn_from,
          ))
    | inr k ↦ elim (Bool-cases (eq_qname a.name qn_type)) [
      | inl m ↦
          let e = (eq_qname_iff a.name qn_type).0 m in
          rw e (ground (arith, reply_attrs-find q rest x, names-distinct, eq_qname_self qn_type))
      | inr m ↦ elim (Bool-cases (eq_qname a.name q)) [
        | inl y ↦
            let e = (eq_qname_iff a.name q).0 y in
            rw⁻¹ e (
              ground (
                arith,
                reply_attrs-find a.name rest (add_attr a.name a.value x),
                add_attr-find a.name a.name a.value x,
                add_attr-mem a.name a.name a.value x,
                eq_qname_self a.name,
                eq_qname_swap a.name qn_to,
                eq_qname_swap a.name qn_from,
                eq_qname_swap a.name qn_type,
              ))
        | inr y ↦ ground (
          arith,
          reply_attrs-find q rest (add_attr a.name a.value x),
          add_attr-find q a.name a.value x,
          add_attr-mem q a.name a.value x,
        )
      ]
    ]
  ]
]
