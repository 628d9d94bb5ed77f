-- ===== src/Tests/StanzaTests.antt =====
-- The parser of stanzas (talk/xmpp/xmppstanzaparser.cc).
use gxmpp.Prelude.{◌≡◌, refl, true, false, some, [], ◌∷◌, Bytes, codes, equal, find}
use gxmpp.Xml.QName.{QName, is_empty_qname}
use gxmpp.Xml.Element.{Element, elem, nil, text, add_attr, add_text, append_text}
use gxmpp.Xml.NsStack.{
  NsStack, no_bindings, push_frame, add_xmlns, ns_for_prefix, lookup_prefix, starts_xml,
}
use gxmpp.Xml.Builder.{
  RawAttrs, build_element, build_attrs, resolve_qname, declare_raw, declare_raw_one, starts_xmlns,
}
use gxmpp.Xmpp.Engine.{start_stream, stanza}
use gxmpp.Xmpp.Stanzas.{start_tag, new_parser, parse_input}
use gxmpp.Xmpp.Stanzas.Trees.{
  Forest, tag, nothing, chars, node, forest_events, tree_element, forest_element,
}
use gxmpp.Xmpp.Stanzas.Stream.{stanzas_of, within_stream, parse_input-stanzas_of}

abbrev stream_atts : RawAttrs
stream_atts = (codes "xmlns", codes "c") ∷ []

-- A blank, and <iq id="1">hi</iq>.
abbrev sent : Forest
sent =
    chars (codes " ")
      (node (tag (codes "iq") ((codes "id", codes "1") ∷ []) (chars (codes "hi") nothing)) nothing)

abbrev in_client : Bytes → QName
in_client l = record { ns = codes "c"; local = l }

abbrev in_force : NsStack
in_force = record { bindings = record { prefix = []; uri = codes "c" } ∷ []; frames = 0 ∷ [] }

abbrev stream_element : Element
stream_element =
    elem (in_client (codes "s"))
      (record { name = record { ns = []; local = codes "xmlns" }; value = codes "c" } ∷ []) nil
      false

abbrev iq_element : Element
iq_element =
    elem (in_client (codes "iq"))
      (record { name = record { ns = []; local = codes "id" }; value = codes "1" } ∷ [])
      (text (codes "hi") nil) false

stream_declares : declare_raw stream_atts (push_frame no_bindings) ≡ some in_force
unfolding declare_raw declare_raw_one starts_xmlns equal push_frame add_xmlns
stream_declares = refl

stream_builds : build_element in_force (codes "s") stream_atts ≡ some stream_element
unfolding build_element build_attrs resolve_qname find ns_for_prefix lookup_prefix starts_xml equal
    is_empty_qname add_attr
stream_builds = refl

sent_stanzas : stanzas_of in_force sent ≡ some (iq_element ∷ [])
unfolding stanzas_of tree_element forest_element declare_raw declare_raw_one starts_xmlns push_frame
    build_element build_attrs resolve_qname find ns_for_prefix lookup_prefix starts_xml equal
    is_empty_qname add_attr add_text append_text
sent_stanzas = refl

parse_input-stanzas_of_example :
    parse_input (start_tag (codes "s") stream_atts ∷ forest_events sent []) true new_parser
    ≡ some (true, (start_stream stream_element ∷ stanza iq_element ∷ [], within_stream in_force))
parse_input-stanzas_of_example =
    parse_input-stanzas_of (codes "s") stream_atts sent in_force stream_element (iq_element ∷ [])
      stream_declares stream_builds sent_stanzas
