-- ===== src/Xmpp/Stanzas/Stream.antt =====
-- The stanzas of a stream, against talk/xmpp/xmppstanzaparser.cc.
use gxmpp.Prelude.{◌≡◌, refl, ap, ◌∙◌, true, false, Option, some, List, [], ◌∷◌, map, ◌>>=◌, Bytes}
use gxmpp.Prelude.{elim-some, >>=-inverse, some_injective}
use gxmpp.Xml.Element.{Element}
use gxmpp.Xml.NsStack.{NsStack, no_bindings, push_frame, pop_frame}
use gxmpp.Xml.Printer.Balance.{pop-push}
use gxmpp.Xml.Builder.{
  RawAttrs, new_builder, build_element, open_element, start_element, end_element, create_element,
  declare_raw,
}
use gxmpp.Xml.Builder.Holes.{root-IsHole}
use gxmpp.Xmpp.Engine.{ParseEvent, start_stream, stanza}
use gxmpp.Xmpp.Stanzas.{
  ExpatEvent, start_tag, end_tag, characters, StanzaParser, new_parser, Step,
  incoming_start_element, incoming_end_element, incoming_character_data, expat_start, expat_end,
  expat_event, expat_events, parse_input,
}
use gxmpp.Xmpp.Stanzas.Trees.{
  Tree, Forest, tag, nothing, chars, node, tree_events, forest_events, tree_element, forest_element,
  inside, silent, declare_raw-Grown, forest-inside,
}

-- The elements of the trees between the tags of the stream, where the text is dropped.
unfoldable pub stanzas_of : NsStack → Forest → Option (List Element)
stanzas_of s nothing = some []
stanzas_of s (chars t f) = stanzas_of s f
stanzas_of s (node tr f) = tree_element s tr >>= λ c. stanzas_of s f >>= λ cs. some (c ∷ cs)

-- The parser within the stream and outside of a stanza.
abbrev pub within_stream : NsStack → StanzaParser
within_stream s = record {
  depth = 1;
  builder = new_builder;
  namespaces = s;
  raised = false;
  sent_error = false;
}

start_element-first :
    (t : NsStack) (name : Bytes) (atts : RawAttrs) (c : Element)
    → build_element t name atts ≡ some c
    → start_element t name atts new_builder ≡ some (false, record { root = some c; nesting = 1 })
unfolding start_element open_element
start_element-first t name atts c b =
    elim-some (λ o. o ≡ some (false, record { root = some c; nesting = 1 }))
      (build_element t name atts) _ _ c b refl

first-inside :
    (s t : NsStack) (name : Bytes) (atts : RawAttrs) (c : Element)
    → declare_raw atts (push_frame s) ≡ some t
    → build_element t name atts ≡ some c
    → expat_event (start_tag name atts) (within_stream s) ≡ some ([], inside 0 t c)
unfolding expat_event expat_start incoming_start_element
first-inside s t name atts c d b =
    elim-some (λ o. o ≡ some ([], inside 0 t c)) (declare_raw atts (push_frame s)) _ _ t d
      (rw (start_element-first t name atts c b) refl)

last-inside :
    (s t : NsStack) (name : Bytes) (c : Element)
    → pop_frame t ≡ some s
    → expat_event (end_tag name) (inside 0 t c) ≡ some (stanza c ∷ [], within_stream s)
unfolding expat_event expat_end incoming_end_element end_element create_element
last-inside s t name c h = rw h refl

-- A callback that the handler hears of.
told :
    (ev : ExpatEvent) (evs : List ExpatEvent) (p p' : StanzaParser) (heard : ParseEvent) (r : Step)
    → expat_event ev p ≡ some (heard ∷ [], p')
    → expat_events evs p' ≡ some r
    → expat_events (ev ∷ evs) p ≡ some (heard ∷ r.0, r.1)
unfolding expat_events
told ev evs p p' heard r h k = rw (h, k) refl

stanza-told :
    (tr : Tree) (s : NsStack) (c : Element) (rest : List ExpatEvent) (r : Step)
    → tree_element s tr ≡ some c
    → expat_events rest (within_stream s) ≡ some r
    → expat_events (tree_events tr rest) (within_stream s) ≡ some (stanza c ∷ r.0, r.1)
unfolding tree_element tree_events
stanza-told (tag name atts f) s c rest r h k =
    let (t, d, h1) = >>=-inverse (declare_raw atts (push_frame s)) _ c h in
    let (e, b, h2) = >>=-inverse (build_element t name atts) (forest_element t f) c h1 in
    let pop = pop-push s t (declare_raw-Grown atts (push_frame s) t d) in
    silent (start_tag name atts) _ _ _ (first-inside s t name atts e d b)
    ∙ forest-inside f 0 t e c (λ y. y) (end_tag name ∷ rest) root-IsHole h2
    ∙ told (end_tag name) rest (inside 0 t c) (within_stream s) (stanza c) r
        (last-inside s t name c pop) k

stanzas-told :
    (f : Forest) (s : NsStack) (xs : List Element)
    → stanzas_of s f ≡ some xs
    → expat_events (forest_events f []) (within_stream s) ≡ some (map stanza xs, within_stream s)
unfolding stanzas_of forest_events expat_events expat_event incoming_character_data
stanzas-told nothing s xs h = ap (λ ys. some (map stanza ys, within_stream s)) (some_injective h)
stanzas-told (chars t f) s xs h =
    silent (characters t) (forest_events f []) (within_stream s) (within_stream s) refl
    ∙ stanzas-told f s xs h
stanzas-told (node tr f) s xs h =
    let (c, k, h1) = >>=-inverse (tree_element s tr) _ xs h in
    let (cs, m, h2) = >>=-inverse (stanzas_of s f) (λ ys. some (c ∷ ys)) xs h1 in
    stanza-told tr s c (forest_events f []) (map stanza cs, within_stream s) k
      (stanzas-told f s cs m)
    ∙ ap (λ ys. some (map stanza ys, within_stream s)) (some_injective h2)

-- A new stanza parser that gets the start of a stream and a forest of tags and texts, whose
-- names all resolve, reports the element of the stream and then, in order, one stanza for each
-- tree: the element that a recursive reading of the tree gives, with each tag read under the
-- namespaces that are in force at it. It drops the text between the stanzas, and ends with no
-- error, within the stream and with the namespaces of the stream in force.
pub parse_input-stanzas_of :
    (name : Bytes) (atts : RawAttrs) (f : Forest) (s : NsStack) (x : Element) (xs : List Element)
    → declare_raw atts (push_frame no_bindings) ≡ some s
    → build_element s name atts ≡ some x
    → stanzas_of s f ≡ some xs
    → parse_input (start_tag name atts ∷ forest_events f []) true new_parser
      ≡ some (true, (start_stream x ∷ map stanza xs, within_stream s))
unfolding parse_input expat_event expat_start incoming_start_element
parse_input-stanzas_of name atts f s x xs d b h =
    let start : expat_event (start_tag name atts) new_parser
        ≡ some (start_stream x ∷ [], within_stream s) =
      elim-some (λ o. o ≡ some (start_stream x ∷ [], within_stream s))
        (declare_raw atts (push_frame no_bindings)) _ _ s d (rw b refl) in
    let all =
      told (start_tag name atts) (forest_events f []) new_parser (within_stream s) (start_stream x)
        (map stanza xs, within_stream s) start (stanzas-told f s xs h) in
    rw all refl
