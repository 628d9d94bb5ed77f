-- ===== src/Xml/Printer/Names.antt =====
-- The names in a start tag (talk/xmllite/xmlprinter.cc), after the prefixes are added.
use gxmpp.Prelude.{
  ◌≡◌, refl, sym, subst, ap, ◌∙◌, Bool, true, false, [], ◌∷◌, ◌++◌, List, some, append_assoc,
  if◌then◌else◌, All, All-mono, Bytes,
}
use gxmpp.Xml.QName.{QName}
use gxmpp.Xml.Element.{Attr}
use gxmpp.Xml.NsStack.{NsStack, prefix_for_ns, ns_for_prefix}
use gxmpp.Xml.NsStack.Resolve.{Extends, add_new_prefix-Named, Resolves, prefix_for_ns-Resolves}
use gxmpp.Xml.Printer.{NewNs, add_prefix, add_attr_prefixes, add_prefixes}

abbrev pub Found : NsStack → Bytes → Bool → Type 0
Found s ns is_attr = (prefix_for_ns s ns is_attr).1 ≡ true

pub Extends-trans : {s t u : NsStack} → Extends s t → Extends t u → Extends s u
Extends-trans {s} {t} {u} (f, k, fr, (new, e)) (f', k', fr', (new', e')) = (
  (λ ns a h. f' ns a (f ns a h)),
  (λ p h. k' p (subst (λ r. r.1 ≡ true) (sym (k p h)) h) ∙ k p h),
  fr' ∙ fr,
  (new' ++ new, e' ∙ ap (◌++◌ new') e ∙ sym (append_assoc new' new s.bindings)),
)

add_prefix-Found :
    (ns : Bytes) (is_attr : Bool) (st : NewNs × NsStack)
    → (r : NewNs × NsStack) × (add_prefix ns is_attr st ≡ some r)
      × Found r.1 ns is_attr
      × Extends st.1 r.1
unfolding add_prefix
add_prefix-Found ns is_attr (new_ns, s) =
    let (r, e, (found, grown)) = add_new_prefix-Named ns is_attr s in
    ((if r.0.1 then new_ns ++ (r.0.0, ns) ∷ [] else new_ns, r.1), rw e, found, grown)

add_attr_prefixes-Found :
    (attrs : List Attr) (st : NewNs × NsStack)
    → (r : NewNs × NsStack) × (add_attr_prefixes attrs st ≡ some r)
      × All (λ (a : Attr). Found r.1 a.name.ns true) attrs
      × Extends st.1 r.1
unfolding add_attr_prefixes
add_attr_prefixes-Found [] st = (st, refl, tt, ((λ ns a h. h), (λ p h. refl), refl, ([], refl)))
add_attr_prefixes-Found (a ∷ rest) st =
    let (r, e, found, grown) = add_prefix-Found a.name.ns true st in
    let (q, e', found', grown') = add_attr_prefixes-Found rest r in
    (q, rw e e', (grown'.0 a.name.ns true found, found'), Extends-trans grown grown')

pub add_prefixes-Found :
    (q : QName) (attrs : List Attr) (s : NsStack)
    → (r : NewNs × NsStack) × (add_prefixes q attrs s ≡ some r)
      × Found r.1 q.ns false
      × All (λ (a : Attr). Found r.1 a.name.ns true) attrs
      × Extends s r.1
unfolding add_prefixes
add_prefixes-Found q attrs s =
    let (r, e, found, grown) = add_prefix-Found q.ns false ([], s) in
    let (r', e', found', grown') = add_attr_prefixes-Found attrs r in
    (r', rw e e', grown'.0 q.ns false found, found', Extends-trans grown grown')

-- The prefix that `FormatQName` writes for a name in this stack.
abbrev pub prefix_of : NsStack → Bytes → Bool → Bytes
prefix_of s ns is_attr = (prefix_for_ns s ns is_attr).0

-- The passes of PrintElement over the names of a start tag succeed, and leave a stack in which
-- the prefix written for the element resolves to its namespace, and so does that of each
-- attribute unless the attribute is in no namespace and has no prefix; a prefix that resolved
-- before resolves as before.
pub add_prefixes-Resolves :
    (q : QName) (attrs : List Attr) (s : NsStack) (p : Bytes)
    → (ns_for_prefix s p).1 ≡ true
    → (r : NewNs × NsStack) × (add_prefixes q attrs s ≡ some r)
      × Resolves r.1 q.ns false (prefix_of r.1 q.ns false)
      × All (λ (a : Attr). Resolves r.1 a.name.ns true (prefix_of r.1 a.name.ns true)) attrs
      × (ns_for_prefix r.1 p ≡ ns_for_prefix s p)
add_prefixes-Resolves q attrs s p h =
    let (r, e, found, founds, grown) = add_prefixes-Found q attrs s in
    (
      r,
      e,
      prefix_for_ns-Resolves r.1 q.ns false found,
      All-mono (λ (a : Attr) f. prefix_for_ns-Resolves r.1 a.name.ns true f) attrs founds,
      grown.1 p h,
    )
