-- ===== src/Xmpp/Send.antt =====
-- `SendStanza` and `SendRaw` of talk/xmpp/xmppengineimpl.cc, and `SendStanzaError` of
-- talk/xmpp/xmppengineimpl_iq.cc with the error element that it builds.
pub mod ReplyAttrs
pub mod Reply
use gxmpp.Prelude.{
  true, ◌||◌, Option, none, some, List, [], ◌∷◌, if◌then◌else◌, ◌>>=◌, Bytes, codes, is_empty,
}
use gxmpp.Xml.QName.{QName, eq_qname}
use gxmpp.Xml.Element.{
  Attr, Element, Children, nil, text, child, name, children, attr_list, new_element, new_with_ns,
  add_attr, add_element, add_text, at_depth,
}
use gxmpp.Xml.NsStack.{qn_xmlns}
use gxmpp.Xmpp.Names.{
  qn_stanza_bad_request, qn_stanza_conflict, qn_stanza_feature_not_implemented, qn_stanza_forbidden,
  qn_stanza_gone, qn_stanza_internal_server_error, qn_stanza_item_not_found,
  qn_stanza_jid_malformed, qn_stanza_not_acceptable, qn_stanza_not_allowed,
  qn_stanza_payment_required, qn_stanza_recipient_unavailable, qn_stanza_redirect,
  qn_stanza_registration_required, qn_stanza_remote_server_not_found,
  qn_stanza_remote_server_timeout, qn_stanza_resource_constraint, qn_stanza_service_unavailable,
  qn_stanza_subscription_required, qn_stanza_undefined_condition, qn_stanza_unexpected_request,
  qn_stanza_text, qn_error, qn_to, qn_from, qn_type, qn_code,
}
use gxmpp.Xmpp.State.{ReturnStatus, return_ok, return_badstate, state_closed, eq_state, Engine}
use gxmpp.Xmpp.Output.{is_some, write, internal_send_stanza, bracket}
use gxmpp.Xmpp.Login.{outgoing_stanza}

-- A status, and the engine.
abbrev pub Result : Type 0
Result = ReturnStatus × Engine

-- An operation that has no guard left and returns OK.
abbrev pub finish : Option Engine → Option Result
finish r = do e ← r; some (return_ok, e)

-- Queued while the login is under way, else printed.
unfoldable pub queue_or_send : Element → Engine → Option Engine
queue_or_send x e = elim e.login_task [
  | some l ↦ some (record e { login_task = some (outgoing_stanza x l) })
  | none ↦ internal_send_stanza x e
]

unfoldable pub send_stanza : Element → Engine → Option Result
send_stanza x e =
    if eq_state e.state state_closed
    then some (return_badstate, e)
    else finish (bracket (queue_or_send x) e)

unfoldable pub send_raw : Bytes → Engine → Option Result
send_raw t e =
    if eq_state e.state state_closed || is_some e.login_task
    then some (return_badstate, e)
    else finish (bracket (λ e'. some (write t e')) e)

pub data StanzaError : Type 0 where
  bad_request : StanzaError
  conflict : StanzaError
  feature_not_implemented : StanzaError
  forbidden : StanzaError
  gone : StanzaError
  internal_server_error : StanzaError
  item_not_found : StanzaError
  jid_malformed : StanzaError
  not_acceptable : StanzaError
  not_allowed : StanzaError
  payment_required : StanzaError
  recipient_unavailable : StanzaError
  redirect : StanzaError
  registration_required : StanzaError
  server_not_found : StanzaError
  server_timeout : StanzaError
  resource_constraint : StanzaError
  service_unavailable : StanzaError
  subscription_required : StanzaError
  undefined_condition : StanzaError
  unexpected_request : StanzaError

-- Name, type and code of an error.
unfoldable pub error_row : StanzaError → QName × Bytes × Bytes
error_row bad_request = (qn_stanza_bad_request, codes "modify", codes "400")
error_row conflict = (qn_stanza_conflict, codes "cancel", codes "409")
error_row feature_not_implemented = (qn_stanza_feature_not_implemented, codes "cancel", codes "501")
error_row forbidden = (qn_stanza_forbidden, codes "auth", codes "403")
error_row gone = (qn_stanza_gone, codes "modify", codes "302")
error_row internal_server_error = (qn_stanza_internal_server_error, codes "wait", codes "500")
error_row item_not_found = (qn_stanza_item_not_found, codes "cancel", codes "404")
error_row jid_malformed = (qn_stanza_jid_malformed, codes "modify", codes "400")
error_row not_acceptable = (qn_stanza_not_acceptable, codes "cancel", codes "406")
error_row not_allowed = (qn_stanza_not_allowed, codes "cancel", codes "405")
error_row payment_required = (qn_stanza_payment_required, codes "auth", codes "402")
error_row recipient_unavailable = (qn_stanza_recipient_unavailable, codes "wait", codes "404")
error_row redirect = (qn_stanza_redirect, codes "modify", codes "302")
error_row registration_required = (qn_stanza_registration_required, codes "auth", codes "407")
error_row server_not_found = (qn_stanza_remote_server_not_found, codes "cancel", codes "404")
error_row server_timeout = (qn_stanza_remote_server_timeout, codes "wait", codes "502")
error_row resource_constraint = (qn_stanza_resource_constraint, codes "wait", codes "500")
error_row service_unavailable = (qn_stanza_service_unavailable, codes "cancel", codes "503")
error_row subscription_required = (qn_stanza_subscription_required, codes "auth", codes "407")
error_row undefined_condition = (qn_stanza_undefined_condition, codes "wait", codes "500")
error_row unexpected_request = (qn_stanza_unexpected_request, codes "wait", codes "400")

-- `AecImpl`
unfoldable pub add_error : QName → Bytes → Bytes → Element → Option Element
unfolding at_depth
add_error q type code x = do
  x1 ← at_depth 1 (add_attr qn_code code) (add_element (new_element qn_error) x)
  x2 ← at_depth 1 (add_attr qn_type type) x1
  at_depth 1 (add_element (new_with_ns qn_xmlns q true)) x2

unfoldable pub add_error_code : StanzaError → Element → Option Element
add_error_code code x = let row = error_row code in add_error row.0 row.1 row.2 x

-- The loop over the attributes of the original: the sender becomes the recipient.
unfoldable pub reply_attrs : List Attr → Element → Element
reply_attrs [] x = x
reply_attrs (a ∷ rest) x =
    if eq_qname a.name qn_to
    then reply_attrs rest x
    else if eq_qname a.name qn_from
    then reply_attrs rest (add_attr qn_to a.value x)
    else if eq_qname a.name qn_type
    then reply_attrs rest x
    else reply_attrs rest (add_attr a.name a.value x)

unfoldable pub copy_children : Children → Element → Element
copy_children nil x = x
copy_children (text t rest) x = copy_children rest (add_text t x)
copy_children (child c rest) x = copy_children rest (add_element c x)

unfoldable pub error_reply : Element → StanzaError → Bytes → Option Element
error_reply original code message =
    let typed = add_attr qn_type (codes "error") (new_element (name original)) in
    let copied = copy_children (children original) (reply_attrs (attr_list original) typed) in
    do
      x ← add_error_code code copied
      some (
          if is_empty message
          then x
          else add_element (add_text message (new_with_ns qn_xmlns qn_stanza_text true)) x)

-- The status of the inner `SendStanza` is dropped.
unfoldable pub send_stanza_error : Element → StanzaError → Bytes → Engine → Option Result
send_stanza_error original code message e =
    if eq_state e.state state_closed
    then some (return_badstate, e)
    else (do x ← error_reply original code message; r ← send_stanza x e; some (return_ok, r.1))
