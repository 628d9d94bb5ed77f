-- ===== src/Tests/XmppTests.antt =====
-- The XMPP engine (talk/xmpp).
use gxmpp.Prelude.{
  ℕ, ◌≤◌, ◌≡◌, refl, Bool, true, false, none, some, List, [], ◌∷◌, ◌==◌, if◌then◌else◌, All, codes,
  equal,
}
use gxmpp.Jid.{Jid}
use gxmpp.Xml.QName.{eq_qname, compare_qname}
use gxmpp.Prelude.{compare_bytes}
use gxmpp.Xml.Element.{Element, elem, nil, new_element, attr, has_attr, find_attr, mem_attr, name}
use gxmpp.Xmpp.Names.{
  ns_client, qn_stream_stream, qn_sasl_auth, qn_iq, qn_to, qn_from, qn_type, qn_id,
}
use gxmpp.Xmpp.State.{
  return_ok, tls_required, error_socket, state_opening, state_open, state_closed, state_number,
  SaslMechanism, SaslHandler, iq_response, Login, Engine, new_login, new_engine,
}
use gxmpp.Xmpp.Output.{emit}
use gxmpp.Xmpp.Login.{incoming_stanza}
use gxmpp.Xmpp.Login.Ready.{is_ready, is_sound, Moves}
use gxmpp.Xmpp.Login.Total.{incoming_stanza-Safe}
use gxmpp.Xmpp.Send.{error_reply, item_not_found}
use gxmpp.Xmpp.Send.Reply.{error_reply-Addressed}
use gxmpp.Xmpp.Iq.{send_iq, remove_iq_handler, handle_iq_response, is_request, is_response, answers}
use gxmpp.Xmpp.Iq.Match.{entry_for, send_iq-handle_iq_response}
use gxmpp.Xmpp.Engine.{
  start_stream, end_stream, set_output_handler, set_session_handler, set_sasl_handler, set_user,
  set_requested_resource,
}
use gxmpp.Xmpp.Session.{
  Operation, do_connect, do_input, do_send, do_disconnect, do_requested_resource, do_tls, run,
}
use gxmpp.Xmpp.Session.Runs.{IsSafe, is_cautious, set_up, is_exposed, run-IsSafe, run-is_exposed}
use gxmpp.Xmpp.Session.Closed.{Final, run-Final}

abbrev mechanism : SaslMechanism
mechanism = record {
  start_sasl_auth = some (new_element qn_sasl_auth);
  handle_sasl_challenge = λ x. none;
}

abbrev plain_only : SaslHandler
plain_only = record {
  choose_best_sasl_mechanism = λ offered encrypted. codes "PLAIN";
  create_sasl_mechanism = λ mechanism_name. some mechanism;
}

abbrev user : Jid
user = record { node = codes "bob"; domain = codes "example.com"; resource = [] }

abbrev declines : ℕ → Element → Bool
declines handler x = false

abbrev at_start : Engine
at_start = set_up (some 1) (some 2) plain_only user (codes "Home")

abbrev closed_engine : Engine
closed_engine = record at_start { state = state_closed; error_code = error_socket; subcode = 104 }

abbrev open_engine : Engine
open_engine = record at_start { state = state_open; login_task = none; encrypted = true }

abbrev request : Element
request =
    elem qn_iq
      (record { name = qn_type; value = codes "get" }
        ∷ record { name = qn_id; value = codes "7" }
        ∷ record { name = qn_to; value = codes "example.com" }
        ∷ [])
      nil false

abbrev response : Element
response =
    elem qn_iq
      (record { name = qn_type; value = codes "result" }
        ∷ record { name = qn_id; value = codes "7" }
        ∷ record { name = qn_from; value = codes "example.com" }
        ∷ [])
      nil false

abbrev operations : List Operation
operations =
    do_requested_resource (codes "Work")
    ∷ do_tls tls_required
    ∷ do_connect
    ∷ do_input (start_stream (new_element qn_stream_stream) ∷ end_stream ∷ [])
    ∷ do_send request
    ∷ do_disconnect
    ∷ []

operations-is_cautious : All (λ op. is_cautious op ≡ true) operations
operations-is_cautious = (refl, (refl, (refl, (refl, (refl, (refl, tt))))))

open_engine-IsSafe : IsSafe open_engine
unfolding set_output_handler set_session_handler set_sasl_handler set_user set_requested_resource
    new_engine new_login
open_engine-IsSafe = (refl, refl)

run-IsSafe_example :
    (e : Engine) × (run declines operations open_engine ≡ some e)
    × IsSafe e
    × (state_number state_open ≤ state_number e.state)
run-IsSafe_example =
    run-IsSafe declines operations open_engine operations-is_cautious open_engine-IsSafe

run-is_exposed_example :
    (e : Engine) × (run declines operations at_start ≡ some e) × (is_exposed e ≡ false)
run-is_exposed_example =
    run-is_exposed declines operations (some 1) (some 2) plain_only user (codes "Home")
      operations-is_cautious

run-Final_example :
    (e : Engine) × (run declines operations closed_engine ≡ some e) × Final closed_engine e
run-Final_example = run-Final declines operations closed_engine refl

abbrev opening : Engine
opening = record at_start { state = state_opening }

login_ready : is_ready new_login opening ≡ true
unfolding set_output_handler set_session_handler set_sasl_handler set_user set_requested_resource
    new_engine new_login
login_ready = refl

login_sound : is_sound new_login opening ≡ true
unfolding set_output_handler set_session_handler set_sasl_handler set_user set_requested_resource
    new_engine new_login
login_sound = refl

incoming_stanza-Safe_example :
    (r : Login × Engine) × (incoming_stanza none false new_login opening ≡ some r)
    × (is_ready r.0 r.1 ≡ true)
    × (is_sound new_login opening ≡ true → is_sound r.0 r.1 ≡ true)
    × Moves opening r.1
incoming_stanza-Safe_example = incoming_stanza-Safe none false new_login opening login_ready

error_reply-Addressed_example :
    (x : Element) × (error_reply response item_not_found [] ≡ some x)
    × (name x ≡ qn_iq)
    × (has_attr qn_from x ≡ false)
    × (attr qn_to x ≡ (
        if eq_qname qn_type qn_to
        then codes "error"
        else if eq_qname qn_to qn_to
        then attr qn_from response
        else if eq_qname qn_from qn_to
        then []
        else attr qn_to response))
error_reply-Addressed_example = error_reply-Addressed response item_not_found [] qn_to

request-is_request : is_request request ≡ true
unfolding is_request eq_qname compare_qname compare_bytes equal find_attr mem_attr qn_iq qn_type
    qn_id ns_client
request-is_request = refl

response-is_response : is_response response ≡ true
unfolding is_response eq_qname compare_qname compare_bytes equal find_attr mem_attr qn_iq qn_type
    qn_id ns_client
response-is_response = refl

same_id : attr qn_id response ≡ attr qn_id request
unfolding eq_qname compare_qname compare_bytes find_attr qn_type qn_id
same_id = refl

same_address : attr qn_from response ≡ attr qn_to request
unfolding eq_qname compare_qname compare_bytes find_attr qn_type qn_id qn_from qn_to
same_address = refl

no_entries :
    All (λ en. answers (attr qn_id request) (attr qn_to request) en ≡ false) open_engine.iq_entries
    × All (λ en. (en.cookie == open_engine.next_cookie) ≡ false) open_engine.iq_entries
unfolding set_output_handler set_session_handler set_sasl_handler set_user set_requested_resource
    new_engine
no_entries = (tt, tt)

send_iq-handle_iq_response_example :
    (e : Engine) × (send_iq (some request) (some 9) open_engine ≡ some (return_ok, e))
    × (handle_iq_response response e
        ≡ some (
            emit
              (iq_response (entry_for request 9 open_engine) response)
              (record e { iq_entries = open_engine.iq_entries })))
    × (remove_iq_handler open_engine.next_cookie e
        ≡ (return_ok, some 9, record e { iq_entries = open_engine.iq_entries }))
send_iq-handle_iq_response_example =
    send_iq-handle_iq_response request response 9 open_engine refl request-is_request
      response-is_response same_id same_address no_entries.0 no_entries.1
