-- ===== src/Xmpp/LoginStanzas.antt =====
-- The stanzas that `XmppLoginTask` of talk/xmpp/xmpplogintask.cc sends, and its tests on those that it
-- gets.
use gxmpp.Prelude.{
  Bool, true, not, ◌&&◌, Option, none, some, List, map, if◌then◌else◌, ◌>>=◌, Bytes, codes, equal,
  is_empty,
}
use gxmpp.Xml.QName.{eq_qname}
use gxmpp.Xml.Element.{
  Element, name, children, attr, has_attr, new_element, new_with_ns, set_attr, add_attr,
  add_element, add_text, at_depth, first_element, all_named, body_text,
}
use gxmpp.Xml.NsStack.{qn_xmlns}
use gxmpp.Xmpp.Names.{
  ns_client, qn_stream_stream, qn_sasl_mechanism, qn_google_auth_client_uses_full_bind_result,
  qn_google_allow_non_google_id_xmpp_login, qn_bind_bind, qn_bind_resource, qn_session_session,
  qn_iq, qn_version, qn_type, qn_id,
}

-- The tests of `HandleStartStream`.
unfoldable pub is_start_stream : Element → Bool
is_start_stream x =
    eq_qname (name x) qn_stream_stream
    && equal (attr qn_xmlns x) ns_client
    && equal (attr qn_version x) (codes "1.0")
    && has_attr qn_id x

-- A response to the iq with that identifier.
unfoldable pub is_answer : Bytes → Element → Bool
is_answer iq_id x =
    eq_qname (name x) qn_iq
    && equal (attr qn_id x) iq_id
    && not (equal (attr qn_type x) (codes "get"))
    && not (equal (attr qn_type x) (codes "set"))

unfoldable pub is_result : Element → Bool
is_result x = equal (attr qn_type x) (codes "result")

unfoldable pub set_iq : Bytes → Element
set_iq iq_id = add_attr qn_id iq_id (add_attr qn_type (codes "set") (new_element qn_iq))

unfoldable pub bind_iq : Bytes → Bytes → Option Element
unfolding set_iq add_element
bind_iq iq_id resource =
    let iq = add_element (new_with_ns qn_xmlns qn_bind_bind true) (set_iq iq_id) in
    if is_empty resource
    then some iq
    else (at_depth 1 (add_element (new_element qn_bind_resource)) iq
        >>= at_depth 2 (add_text resource))

unfoldable pub session_iq : Bytes → Element
session_iq iq_id = add_element (new_with_ns qn_xmlns qn_session_session true) (set_iq iq_id)

-- The attributes that the task adds to the first element of a mechanism.
unfoldable pub decorate_auth : Bool → Element → Element
decorate_auth allow x =
    if allow
    then set_attr qn_google_auth_client_uses_full_bind_result (codes "true")
        (set_attr qn_google_allow_non_google_id_xmpp_login (codes "true") x)
    else x

-- The mechanisms that the server offers, in its order.
unfoldable pub offered : Element → List Bytes
offered x = map body_text (all_named qn_sasl_mechanism (children x))

-- The element `bind` of a result, if that is the first child element.
unfoldable pub bound_element : Element → Option Element
bound_element x = elim (first_element x) [
  | none ↦ none
  | some c ↦ if eq_qname (name c) qn_bind_bind then some c else none
]
