-- ===== src/Tests/XmlTests.antt =====
-- The XML library (talk/xmllite).
use gxmpp.Prelude.{
  ◌≡◌, inr, refl, true, false, [], ◌∷◌, some, arith, Bytes, codes, equal, compare_bytes, length,
  All,
}
use gxmpp.Xml.QName.{QName, from_merged, merged, from_merged-merged, compare_qname, eq_qname}
use gxmpp.Xml.Element.{
  Attr, Element, elem, nil, text, children, attr_list, set_attr, clear_attr, add_attr, add_text,
  add_element, set_body_text, mem_attr,
}
use gxmpp.Xml.Element.Attributes.{
  IsDistinct, SetLaws, ClearLaws, set_attr-SetLaws, clear_attr-ClearLaws, attributes-IsDistinct,
}
use gxmpp.Xml.Element.ChildList.{IsMerged, ByNameLaws, content-IsMerged, children-ByNameLaws}
use gxmpp.Xml.NsStack.{
  NsStack, no_bindings, ns_for_prefix, lookup_prefix, starts_xml, prefix_matches_ns, scan_bindings,
  prefix_for_ns, ns_xml, ns_xmlns, str_xml, str_xmlns, qn_xmlns, find_new, add_xmlns,
  add_new_prefix, suggest_prefix, suggest_from, unless_xml, ascii_lower, last_letter, push_frame,
  pop_frame, format_qname,
}
use gxmpp.Xml.NsStack.Fresh.{EndsAt, find_new_total}
use gxmpp.Xml.NsStack.Resolve.{Resolves}
use gxmpp.Xml.Printer.{
  NewNs, add_prefixes, add_prefix, add_attr_prefixes, print_xml, print_element, open_tag, leave,
  print_start, print_end, print_attrs, print_new_ns, declare_xmlns, declare_one, print_quoted_value,
  print_body_text, escape_from, quoted_entity, body_entity,
}
use gxmpp.Xml.Printer.Names.{prefix_of, add_prefixes-Resolves}
use gxmpp.Xml.Printer.Balance.{print_xml-balanced}
use gxmpp.Xml.Printer.Escape.{decode, decode-print}

abbrev plain : Bytes → QName
plain l = record { ns = []; local = l }

abbrev iq : QName
iq = record { ns = codes "jabber:client"; local = codes "iq" }

abbrev type_get : Attr
type_get = record { name = plain (codes "type"); value = codes "a<b" }

-- <iq type="a<b">hi</iq>, in the client's namespace.
abbrev sample : Element
sample = elem iq (type_get ∷ []) (text (codes "hi") nil) false

from_merged-merged_example : from_merged (merged iq) ≡ iq
from_merged-merged_example = from_merged-merged iq (inr (λ e. omega arith)) (omega arith)

set_attr-SetLaws_example : SetLaws (plain (codes "id")) (plain (codes "type")) (codes "set") sample
set_attr-SetLaws_example =
    set_attr-SetLaws (plain (codes "id")) (plain (codes "type")) (codes "set") sample

sample-IsDistinct : IsDistinct (attr_list sample)
unfolding mem_attr
sample-IsDistinct = (refl, tt)

clear_attr-ClearLaws_example : ClearLaws (plain (codes "type")) (plain (codes "type")) sample
clear_attr-ClearLaws_example =
    clear_attr-ClearLaws (plain (codes "type")) (plain (codes "type")) sample sample-IsDistinct

attributes-IsDistinct_example :
    IsDistinct (attr_list (set_attr (plain (codes "to")) [] sample))
    × IsDistinct (attr_list (clear_attr (plain (codes "to")) sample))
    × IsDistinct (attr_list (add_attr (plain (codes "id")) [] sample))
unfolding mem_attr eq_qname compare_qname compare_bytes
attributes-IsDistinct_example =
    attributes-IsDistinct (plain (codes "id")) (plain (codes "to")) [] sample sample-IsDistinct refl

content-IsMerged_example :
    IsMerged (children (add_text (codes "!") sample))
    × IsMerged (children (add_element sample sample))
    × IsMerged (children (set_body_text (codes "!") sample))
content-IsMerged_example = content-IsMerged (codes "!") sample sample refl

children-ByNameLaws_example : ByNameLaws iq (plain (codes "query")) sample
children-ByNameLaws_example = children-ByNameLaws iq (plain (codes "query")) sample

find_new_total_example :
    (p : Bytes) × (find_new 4 no_bindings (codes "ns") (codes "ns") 2 ≡ some p)
    × EndsAt no_bindings (codes "ns") 0 p
find_new_total_example = find_new_total no_bindings (codes "ns")

default_resolves : (ns_for_prefix no_bindings []).1 ≡ true
unfolding ns_for_prefix lookup_prefix starts_xml
default_resolves = refl

add_prefixes-Resolves_example :
    (r : NewNs × NsStack) × (add_prefixes iq (type_get ∷ []) no_bindings ≡ some r)
    × Resolves r.1 iq.ns false (prefix_of r.1 iq.ns false)
    × All (λ (a : Attr). Resolves r.1 a.name.ns true (prefix_of r.1 a.name.ns true)) (type_get ∷ [])
    × (ns_for_prefix r.1 [] ≡ ns_for_prefix no_bindings [])
add_prefixes-Resolves_example =
    add_prefixes-Resolves iq (type_get ∷ []) no_bindings [] default_resolves

print_xml-balanced_example : (t : Bytes) × (print_xml sample no_bindings ≡ some (t, no_bindings))
print_xml-balanced_example = print_xml-balanced sample no_bindings

decode-print_example :
    (decode true (length (print_quoted_value (codes "a<\"b"))) (print_quoted_value (codes "a<\"b"))
      ≡ some (codes "a<\"b"))
    × (decode false (length (print_body_text (codes "a<\"b"))) (print_body_text (codes "a<\"b"))
        ≡ some (codes "a<\"b"))
decode-print_example = decode-print (codes "a<\"b")

print_sample :
    print_xml sample no_bindings
    ≡ some (codes "<cli:iq type=\"a&lt;b\" xmlns:cli=\"jabber:client\">hi</cli:iq>", no_bindings)
unfolding print_xml print_element open_tag leave push_frame pop_frame add_prefixes add_prefix
    add_attr_prefixes add_new_prefix print_start print_end print_attrs print_new_ns declare_xmlns
    declare_one print_quoted_value print_body_text escape_from quoted_entity body_entity
    prefix_for_ns scan_bindings prefix_matches_ns ns_for_prefix lookup_prefix starts_xml
    suggest_prefix suggest_from unless_xml ascii_lower last_letter find_new add_xmlns format_qname
    equal eq_qname compare_bytes ns_xml ns_xmlns str_xml str_xmlns qn_xmlns
print_sample = refl

-- An element in no namespace, where a default namespace is in force, is written with a prefix that
-- is bound to the empty text, which XML does not allow.
print_no_namespace :
    print_xml
      (elem (plain (codes "q")) [] nil false)
      (add_xmlns [] (codes "jabber:client") no_bindings)
    ≡ some (codes "<ns:q xmlns:ns=\"\"/>", add_xmlns [] (codes "jabber:client") no_bindings)
unfolding print_sample
print_no_namespace = refl
