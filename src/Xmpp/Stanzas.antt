-- ===== src/Xmpp/Stanzas.antt =====
-- `XmlParser` of talk/xmllite/xmlparser.cc with `XmppStanzaParser` of talk/xmpp/xmppstanzaparser.cc as
-- its handler. What expat reports of the bytes is the input.
pub mod Trees
pub mod Stream
use gxmpp.Prelude.{
  ℕ, zero, suc, ◌+◌, ◌-◌, ◌*◌, ◌/◌, ◌%◌, ◌^◌, ◌≤◌, ◌<◌, ◌≡◌, refl, sym, ap, ◌∙◌, subst, ◌≢◌, ◌↔◌,
  ◌⊎◌, inl, inr, Bool, true, false, not, ◌&&◌, ◌||◌, Option, none, some, List, [], ◌∷◌, ◌++◌, map,
  append-nil, append_assoc, arith, ltb, leb, ◌==◌, if◌then◌else◌, Bool-cases, Option-cases, ◌>>=◌,
  length, get_elem?, get_or, take, drop, All, Bytes, codes, equal, equal_iff, equal_self, is_empty,
  find, substr, ==_iff,
}
use gxmpp.Xml.Element.{Element}
use gxmpp.Xml.NsStack.{NsStack, no_bindings, push_frame, pop_frame}
use gxmpp.Xml.Builder.{
  RawAttrs, Builder, new_builder, build_element, start_element, end_element, character_data,
  create_element, declare_raw,
}
use gxmpp.Xmpp.Engine.{ParseEvent, start_stream, stanza, end_stream, xml_error}

-- The callbacks of expat. A declaration has its version and encoding, if any, and whether it says
-- that the document does not stand alone.
pub data ExpatEvent : Type 0 where
  start_tag : Bytes → RawAttrs → ExpatEvent
  end_tag : Bytes → ExpatEvent
  characters : Bytes → ExpatEvent
  xml_decl : Option Bytes → Option Bytes → Bool → ExpatEvent

-- `raised` and `sent_error` are those of the XML parser, and `namespaces` is its context's stack.
pub record StanzaParser : Type 0 where
  pub depth : ℕ
  pub builder : Builder
  pub namespaces : NsStack
  pub raised : Bool
  pub sent_error : Bool

-- `XmppStanzaParser(psph)` and `Reset`
abbrev pub new_parser : StanzaParser
new_parser = record {
  depth = 0;
  builder = new_builder;
  namespaces = no_bindings;
  raised = false;
  sent_error = false;
}

-- What the parser tells its handler, and the parser.
abbrev pub Step : Type 0
Step = List ParseEvent × StanzaParser

-- `IncomingStartElement`
unfoldable pub incoming_start_element : Bytes → RawAttrs → StanzaParser → Option Step
incoming_start_element n atts p =
    if p.depth == 0
    then elim (build_element p.namespaces n atts) [
      | none ↦ some ([], record p { depth = suc p.depth; raised = true })
      | some x ↦ some (start_stream x ∷ [], record p { depth = suc p.depth })
    ]
    else (do
      r ← start_element p.namespaces n atts p.builder
      some ([], record p { depth = suc p.depth; builder = r.1; raised = r.0 }))

-- `IncomingEndElement`; expat reports no end without a start.
unfoldable pub incoming_end_element : StanzaParser → Option Step
incoming_end_element p = elim p.depth [
  | zero ↦ none
  | suc outer ↦ if outer == 0 then some (end_stream ∷ [], record p { depth = outer }) else (do
    b ← end_element p.builder
    if outer == 1
        then (do
          x ← (create_element b).0
          some (stanza x ∷ [], record p { depth = outer; builder = (create_element b).1 }))
        else some ([], record p { depth = outer; builder = b }))
]

-- `IncomingCharacterData`
unfoldable pub incoming_character_data : Bytes → StanzaParser → Option Step
incoming_character_data t p =
    if ltb 1 p.depth
    then (do b ← character_data t p.builder; some ([], record p { builder = b }))
    else some ([], p)

-- `ExpatStartElement`, where no error is raised.
unfoldable pub expat_start : Bytes → RawAttrs → StanzaParser → Option Step
expat_start n atts p = elim (declare_raw atts (push_frame p.namespaces)) [
  | none ↦ some ([], record p { raised = true })
  | some s ↦ incoming_start_element n atts (record p { namespaces = s })
]

-- `ExpatEndElement`, where no error is raised.
unfoldable pub expat_end : StanzaParser → Option Step
expat_end p = do s ← pop_frame p.namespaces; incoming_end_element (record p { namespaces = s })

-- The tests on the encoding, letter by letter.
unfoldable pub is_utf8 : Bytes → Bool
is_utf8 enc =
    (get_or enc 0 0 == b'U' || get_or enc 0 0 == b'u')
    && (get_or enc 1 0 == b'T' || get_or enc 1 0 == b't')
    && (get_or enc 2 0 == b'F' || get_or enc 2 0 == b'f')
    && get_or enc 3 0 == b'-'
    && get_or enc 4 0 == b'8'

-- Whether `ExpatXmlDecl` raises no error.
unfoldable pub is_good_decl : Option Bytes → Option Bytes → Bool → Bool
is_good_decl version encoding dependent =
    elim version [ none ↦ true | some v ↦ equal (codes "1.0") v ]
    && not dependent
    && elim encoding [ none ↦ true | some enc ↦ is_utf8 enc ]

unfoldable pub expat_event : ExpatEvent → StanzaParser → Option Step
expat_event (start_tag n atts) p = if p.raised then some ([], p) else expat_start n atts p
expat_event (end_tag n) p = if p.raised then some ([], p) else expat_end p
expat_event (characters t) p = if p.raised then some ([], p) else incoming_character_data t p
expat_event (xml_decl version encoding dependent) p =
    some ([], if is_good_decl version encoding dependent then p else record p { raised = true })

unfoldable pub expat_events : List ExpatEvent → StanzaParser → Option Step
expat_events [] p = some ([], p)
expat_events (ev ∷ evs) p =
    expat_event ev p >>= λ r. expat_events evs r.1 >>= λ r'. some (r.0 ++ r'.0, r'.1)

-- `Parse`, given the callbacks and the status of `XML_Parse`.
unfoldable pub parse_input : List ExpatEvent → Bool → StanzaParser → Option (Bool × Step)
parse_input evs status p =
    if p.sent_error
    then some (false, ([], p))
    else (expat_events evs p >>= λ r. some (
        if r.1.raised || not status
        then (false, (r.0 ++ xml_error ∷ [], record r.1 { raised = true; sent_error = true }))
        else (true, r)))
