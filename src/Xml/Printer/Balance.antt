-- ===== src/Xml/Printer/Balance.antt =====
-- The end of `PrintElement` (talk/xmllite/xmlprinter.cc), and what it does to the stream and to the
-- stack of namespace bindings.
use gxmpp.Prelude.{
  ◌-◌, ◌/◌, ◌≡◌, inl, inr, refl, sym, ap, ◌∙◌, Bool, true, [], ◌∷◌, ◌++◌, List, Option, some, arith,
  append-nil, append_assoc, if◌then◌else◌, ltb, Bytes, codes, Bool-cases, length, drop,
  length-append, drop-append_left, lt→ltb, equal,
}
use gxmpp.Xml.QName.{QName, eq_qname}
use gxmpp.Xml.Element.{Attr, Element, elem, Children, nil, text, child}
use gxmpp.Xml.NsStack.{
  Binding, NsStack, push_frame, pop_frame, add_xmlns, vector_size, qn_xmlns, ns_xmlns,
}
use gxmpp.Xml.Printer.Names.{add_prefixes-Found}
use gxmpp.Xml.Printer.{
  declare_one, declare_xmlns, print_start, print_end, PrintState, put, leave, open_tag,
  print_element, print_children, print_xml, is_nil, print_cdata_text, print_body_text,
}

-- The stack has grown by bindings of the frame that is open.
abbrev pub Grown : NsStack → NsStack → Type 0
Grown s t = (t.frames ≡ s.frames) × ((new : List Binding) × (t.bindings ≡ new ++ s.bindings))

pub Grown-trans : {s t u : NsStack} → Grown s t → Grown t u → Grown s u
Grown-trans {s} g (f, (more, e)) =
    (f ∙ g.0, (more ++ g.1.0, e ∙ ap (◌++◌ more) g.1.1 ∙ sym (append_assoc more g.1.0 s.bindings)))

pub Grown-refl : (s : NsStack) → Grown s s
Grown-refl s = (refl, ([], refl))

declare_one-Grown : (a : Attr) (s : NsStack) → Grown s (declare_one a s)
unfolding declare_one add_xmlns
declare_one-Grown a s = elim (Bool-cases (eq_qname a.name qn_xmlns)) [
  | inl default_ns ↦ rw default_ns (refl, (record { prefix = []; uri = a.value } ∷ [], refl))
  | inr other ↦ rw other (elim (Bool-cases (equal a.name.ns ns_xmlns)) [
    | inl named ↦ rw named (refl, (record { prefix = a.name.local; uri = a.value } ∷ [], refl))
    | inr plain ↦ rw plain (Grown-refl s)
  ])
]

declare_xmlns-Grown : (attrs : List Attr) (s : NsStack) → Grown s (declare_xmlns attrs s)
unfolding declare_xmlns
declare_xmlns-Grown [] s = Grown-refl s
declare_xmlns-Grown (a ∷ rest) s =
    Grown-trans (declare_one-Grown a s) (declare_xmlns-Grown rest (declare_one a s))

drop-frame :
    (new old : List Binding)
    → (if ltb (vector_size old) (vector_size (new ++ old))
        then drop ((vector_size (new ++ old) - vector_size old) / 2) (new ++ old)
        else new ++ old)
      ≡ old
drop-frame [] old = ground arith
drop-frame (b ∷ new) old =
    let e : (vector_size ((b ∷ new) ++ old) - vector_size old) / 2 ≡ length (b ∷ new) =
      omega (arith, length-append (b ∷ new) old) in
    let t : ltb (vector_size old) (vector_size ((b ∷ new) ++ old)) ≡ true =
      lt→ltb _ _ (omega (arith, length-append (b ∷ new) old)) in
    rw (t, e) (drop-append_left (b ∷ new) old)

-- A frame that has only grown is popped to what it was pushed on.
pub pop-push : (s t : NsStack) → Grown (push_frame s) t → pop_frame t ≡ some s
unfolding pop_frame push_frame
pop-push s t (f, (new, e)) =
    ap pop_frame (λ i. let u : NsStack = record { bindings = e i; frames = f i } in u)
    ∙ ap some (λ i. record { bindings = drop-frame new s.bindings i; frames = s.frames })

-- Opening a tag grows the stack within one frame.
open_tag-Grown :
    (q : QName) (attrs : List Attr) (st : PrintState)
    → (t : Bytes) × (s : NsStack) × (open_tag q attrs st
        ≡ some (record { out = st.out ++ t; stack = s }))
      × Grown (push_frame st.stack) s
unfolding open_tag
open_tag-Grown q attrs st =
    let s = declare_xmlns attrs (push_frame st.stack) in
    let (r, e, _, _, (_, _, fr, more)) = add_prefixes-Found q attrs s in
    (
      print_start q attrs r.0 r.1,
      r.1,
      rw e,
      Grown-trans (declare_xmlns-Grown attrs (push_frame st.stack)) (fr, more),
    )

leave-Grown :
    (t : Bytes) (s s' : NsStack)
    → Grown (push_frame s) s'
    → leave (record { out = t; stack = s' }) ≡ some (record { out = t; stack = s })
unfolding leave
leave-Grown t s s' g = rw (pop-push s s' g)

-- A printer of something that only appends.
abbrev pub Appends : (PrintState → Option PrintState) → Type 0
Appends print =
    (st : PrintState) → (t : Bytes) × (print st ≡ some (record st { out = st.out ++ t }))

-- Moves the brackets of what was appended in two steps.
joined :
    (st : PrintState) (t u : Bytes)
    → some (record st { out = (st.out ++ t) ++ u }) ≡ some (record st { out = st.out ++ (t ++ u) })
joined st t u = ap (λ o. some (record st { out = o })) (append_assoc st.out t u)

regroup : (a b c d e : Bytes) → (((a ++ b) ++ c) ++ d) ++ e ≡ a ++ (((b ++ c) ++ d) ++ e)
regroup a b c d e = simp append_assoc

element-Appends :
    (q : QName) (attrs : List Attr) (cs : Children) (cdata : Bool)
    → Appends (print_children cdata cs)
    → Appends (print_element (elem q attrs cs cdata))
unfolding print_element
element-Appends q attrs cs cdata content st = elim (Bool-cases (is_nil cs)) [
  | inl bare ↦
      let (t, s, e, g) = open_tag-Grown q attrs st in
      (t ++ codes "/>", rw (e, bare) (leave-Grown _ st.stack s g ∙ joined st t (codes "/>")))
  | inr filled ↦
      let (t, s, e, g) = open_tag-Grown q attrs st in
      let (u, e') = content (record { out = (st.out ++ t) ++ b'>' ∷ []; stack = s }) in
      (
        ((t ++ b'>' ∷ []) ++ u) ++ print_end q s,
        rw (e, filled, e')
            (leave-Grown _ st.stack s g
              ∙ ap (λ o. some (record st { out = o }))
                  (regroup st.out t (b'>' ∷ []) u (print_end q s))),
      )
]

mutual
  unfolding print_element print_children

  print_element-Appends : (e : Element) → Appends (print_element e)
  print_element-Appends (elem q attrs cs cdata) =
      element-Appends q attrs cs cdata (print_children-Appends cdata cs)

  print_children-Appends : (cdata : Bool) (cs : Children) → Appends (print_children cdata cs)
  print_children-Appends cdata nil st =
      ([], ap (λ o. some (record st { out = o })) (sym (append-nil st.out)))
  print_children-Appends cdata (text t rest) st =
      let shown = if cdata then print_cdata_text t else print_body_text t in
      let (u, e) = print_children-Appends cdata rest (put shown st) in
      (shown ++ u, e ∙ joined st shown u)
  print_children-Appends cdata (child x rest) st =
      let (u, e) = print_element-Appends x st in
      let (v, e') = print_children-Appends cdata rest (record st { out = st.out ++ u }) in
      (u ++ v, rw e (e' ∙ joined st u v))

-- PrintXml ends on every element and every stack without a fault of the stack, and gives the
-- stack of namespace bindings back as it was.
pub print_xml-balanced : (e : Element) (s : NsStack) → (t : Bytes) × (print_xml e s ≡ some (t, s))
unfolding print_xml
print_xml-balanced e s =
    let (t, h) = print_element-Appends e (record { out = []; stack = s }) in (t, rw h)
