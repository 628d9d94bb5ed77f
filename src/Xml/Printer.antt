-- ===== src/Xml/Printer.antt =====
-- `XmlPrinter` of talk/xmllite/xmlprinter.cc. The stream is the text written so far, and the stack of
-- namespace bindings is passed along; `none` would be a fault of the stack.
pub mod Escape
pub mod Names
pub mod Balance
use gxmpp.Prelude.{
  ℕ, Bool, true, false, ◌||◌, [], ◌∷◌, ◌++◌, List, Option, none, some, if◌then◌else◌, ◌==◌, ◌>>=◌,
  Bytes, codes, equal, is_empty,
}
use gxmpp.Xml.QName.{QName, eq_qname}
use gxmpp.Xml.Element.{Attr, Element, elem, Children, nil, text, child}
use gxmpp.Xml.NsStack.{
  NsStack, no_bindings, ns_xmlns, qn_xmlns, push_frame, pop_frame, add_xmlns, add_new_prefix,
  format_qname,
}

-- What `find_first_of("<>&\"")` stops at, and the text written in its place.
unfoldable pub quoted_entity : ℕ → Option Bytes
quoted_entity c =
    if c == b'<'
    then some (codes "&lt;")
    else if c == b'>'
    then some (codes "&gt;")
    else if c == b'&'
    then some (codes "&amp;")
    else if c == b'"'
    then some (codes "&quot;")
    else none

unfoldable pub body_entity : ℕ → Option Bytes
body_entity c =
    if c == b'<'
    then some (codes "&lt;")
    else if c == b'>'
    then some (codes "&gt;")
    else if c == b'&'
    then some (codes "&amp;")
    else none

-- The loop of `PrintQuotedValue` and `PrintBodyText`: `run` holds the characters from `safe` to the
-- place that is looked at.
unfoldable pub escape_from : (ℕ → Option Bytes) → Bytes → Bytes → Bytes
escape_from entity run [] = run
escape_from entity run (c ∷ rest) = elim (entity c) [
  | none ↦ escape_from entity (run ++ c ∷ []) rest
  | some e ↦ run ++ (e ++ escape_from entity [] rest)
]

unfoldable pub print_quoted_value : Bytes → Bytes
print_quoted_value = escape_from quoted_entity []

unfoldable pub print_body_text : Bytes → Bytes
print_body_text = escape_from body_entity []

unfoldable pub print_cdata_text : Bytes → Bytes
print_cdata_text t = (codes "<![CDATA[" ++ t) ++ codes "]]>"

-- The first loop of `PrintElement`: bindings that the attributes declare.
unfoldable pub declare_one : Attr → NsStack → NsStack
declare_one a s =
    if eq_qname a.name qn_xmlns
    then add_xmlns [] a.value s
    else if equal a.name.ns ns_xmlns
    then add_xmlns a.name.local a.value s
    else s

unfoldable pub declare_xmlns : List Attr → NsStack → NsStack
declare_xmlns [] s = s
declare_xmlns (a ∷ rest) s = declare_xmlns rest (declare_one a s)

-- Prefixes and namespaces that have to be declared, in order, and the stack.
abbrev pub NewNs : Type 0
NewNs = List (Bytes × Bytes)

unfoldable pub add_prefix : Bytes → Bool → NewNs × NsStack → Option (NewNs × NsStack)
add_prefix ns is_attr (new_ns, s) = do
  r ← add_new_prefix ns is_attr s
  some (if r.0.1 then new_ns ++ (r.0.0, ns) ∷ [] else new_ns, r.1)

unfoldable pub add_attr_prefixes : List Attr → NewNs × NsStack → Option (NewNs × NsStack)
add_attr_prefixes [] st = some st
add_attr_prefixes (a ∷ rest) st = add_prefix a.name.ns true st >>= add_attr_prefixes rest

unfoldable pub add_prefixes : QName → List Attr → NsStack → Option (NewNs × NsStack)
add_prefixes q attrs s = add_prefix q.ns false ([], s) >>= add_attr_prefixes attrs

unfoldable pub print_attrs : NsStack → List Attr → Bytes
print_attrs s [] = []
print_attrs s (a ∷ rest) =
    b' '
    ∷ (format_qname s a.name true
        ++ (b'=' ∷ b'"' ∷ (print_quoted_value a.value ++ (b'"' ∷ print_attrs s rest))))

unfoldable pub print_new_ns : NewNs → Bytes
print_new_ns [] = []
print_new_ns ((prefix, ns) ∷ rest) =
    (if is_empty prefix then codes " xmlns=\"" else codes " xmlns:" ++ (prefix ++ codes "=\""))
    ++ (ns ++ (b'"' ∷ print_new_ns rest))

pub record PrintState : Type 0 where
  pub out : Bytes
  pub stack : NsStack

-- `*pout_ << text`
abbrev pub put : Bytes → PrintState → PrintState
put t st = record st { out = st.out ++ t }

-- The start tag, up to the declarations.
unfoldable pub print_start : QName → List Attr → NewNs → NsStack → Bytes
print_start q attrs new_ns s =
    b'<' ∷ (format_qname s q false ++ (print_attrs s attrs ++ print_new_ns new_ns))

unfoldable pub print_end : QName → NsStack → Bytes
print_end q s = codes "</" ++ (format_qname s q false ++ b'>' ∷ [])

abbrev pub is_nil : Children → Bool
is_nil nil = true
is_nil _ = false

-- `ns_stack_->PopFrame()`
unfoldable pub leave : PrintState → Option PrintState
leave st = do s ← pop_frame st.stack; some (record st { stack = s })

-- `PrintElement` up to the declarations of the start tag.
unfoldable pub open_tag : QName → List Attr → PrintState → Option PrintState
open_tag q attrs st = do
  opened ← add_prefixes q attrs (declare_xmlns attrs (push_frame st.stack))
  some (record st { out = st.out ++ print_start q attrs opened.0 opened.1; stack = opened.1 })

unfoldable mutual
  pub print_element : Element → PrintState → Option PrintState
  print_element (elem q attrs cs cdata) st = do
    start ← open_tag q attrs st
    closed ←
        if is_nil cs
        then some (put (codes "/>") start)
        else (print_children cdata cs (put (b'>' ∷ []) start) >>= λ st'.
            some (put (print_end q st'.stack) st'))
    leave closed

  pub print_children : Bool → Children → PrintState → Option PrintState
  print_children cdata nil st = some st
  print_children cdata (text t rest) st =
      print_children cdata rest (put (if cdata then print_cdata_text t else print_body_text t) st)
  print_children cdata (child e rest) st = print_element e st >>= print_children cdata rest

-- `PrintXml` with a stack of the caller's: what is written, and the stack.
unfoldable pub print_xml : Element → NsStack → Option (Bytes × NsStack)
print_xml e s = do st ← print_element e (record { out = []; stack = s }); some (st.out, st.stack)
