-- ===== src/Xmpp/Session.antt =====
-- The calls that a client makes on an engine of talk/xmpp/xmppengineimpl.cc, in any order.
pub mod Safe
pub mod Bodies
pub mod Runs
pub mod Closed
use gxmpp.Prelude.{
  ℕ, zero, suc, ◌+◌, ◌-◌, ◌*◌, ◌/◌, ◌%◌, ◌^◌, ◌≤◌, ◌<◌, ◌≡◌, refl, sym, ap, ◌∙◌, subst, ◌≢◌, ◌↔◌,
  ◌⊎◌, inl, inr, Bool, true, false, not, ◌&&◌, ◌||◌, Option, none, some, List, [], ◌∷◌, ◌++◌, map,
  append-nil, append_assoc, arith, ltb, leb, ◌==◌, if◌then◌else◌, Bool-cases, Option-cases, ◌>>=◌,
  length, get_elem?, get_or, take, drop, All, Bytes, codes, equal, equal_iff, equal_self, is_empty,
  find, substr, ==_iff,
}
use gxmpp.Jid.{Jid}
use gxmpp.Xml.Element.{Element}
use gxmpp.Xmpp.State.{
  ReturnStatus, return_ok, return_badargument, return_badstate, return_pending, return_unexpected,
  return_notyetimplemented, TlsOptions, tls_disabled, tls_enabled, tls_required, Error, error_none,
  error_xml, error_stream, error_version, error_unauthorized, error_tls, error_auth, error_bind,
  error_connection_closed, error_document_closed, error_socket, State, state_none, state_start,
  state_opening, state_open, state_closed, state_number, eq_state, LoginState, init,
  streamstart_sent, started_xmpp, tls_init, auth_init, bind_init, tls_requested, sasl_running,
  bind_requested, session_requested, done, SaslMechanism, SaslHandler, IqEntry, HandlerLevel,
  hl_none, hl_peek, hl_single, hl_sender, hl_type, hl_all, StanzaHandlers, Effect, write_output,
  start_tls_for, close_connection, on_state_change, handle_stanza, iq_response, reset_parser, Login,
  Engine, new_login, no_handlers, new_engine,
}
use gxmpp.Xmpp.Output.{
  is_some, emit, write, raise_reset, eq_error_none, has_error, take_id, internal_send_start,
  internal_send_stanza, signal_bound, signal_error, signal_stream_error, start_tls, enter, flush,
  notify, leave_from, bracket,
}
use gxmpp.Xmpp.Send.{Result, StanzaError, send_stanza, send_raw, send_stanza_error}
use gxmpp.Xmpp.Iq.{send_iq, remove_iq_handler}
use gxmpp.Xmpp.Engine.{
  ParseEvent, connect, disconnect, connection_closed, handle_input, add_stanza_handler,
  remove_stanza_handler, set_language, set_output_handler, set_session_handler, set_tls,
  set_tls_server, set_user, set_sasl_handler, set_requested_resource,
}

-- The calls of `XmppEngine`, but for those that only read.
pub data Operation : Type 0 where
  do_connect : Operation
  do_input : List ParseEvent → Operation
  do_closed : ℕ → Operation
  do_disconnect : Operation
  do_send : Element → Operation
  do_raw : Bytes → Operation
  do_iq : Option Element → Option ℕ → Operation
  do_remove_iq : ℕ → Operation
  do_error : Element → StanzaError → Bytes → Operation
  do_add : ℕ → HandlerLevel → Operation
  do_remove : ℕ → Operation
  do_language : Bytes → Operation
  do_output_handler : Option ℕ → Operation
  do_session_handler : Option ℕ → Operation
  do_tls : TlsOptions → Operation
  do_tls_server : Bytes → Bytes → Operation
  do_user : Jid → Operation
  do_sasl_handler : Option SaslHandler → Operation
  do_requested_resource : Bytes → Operation
  do_next_id : Operation

-- The engine after a call, whatever its status.
unfoldable pub perform : (ℕ → Element → Bool) → Operation → Engine → Option Result
perform handles do_connect e = connect e
perform handles (do_input evs) e = handle_input handles evs e
perform handles (do_closed code) e = connection_closed code e
perform handles do_disconnect e = disconnect e
perform handles (do_send x) e = send_stanza x e
perform handles (do_raw t) e = send_raw t e
perform handles (do_iq x h) e = send_iq x h e
perform handles (do_remove_iq c) e = let r = remove_iq_handler c e in some (r.0, r.2)
perform handles (do_error x code message) e = send_stanza_error x code message e
perform handles (do_add h level) e = some (add_stanza_handler h level e)
perform handles (do_remove h) e = some (remove_stanza_handler h e)
perform handles (do_language l) e = some (return_ok, set_language l e)
perform handles (do_output_handler h) e = some (set_output_handler h e)
perform handles (do_session_handler h) e = some (set_session_handler h e)
perform handles (do_tls option) e = some (set_tls option e)
perform handles (do_tls_server hostname domain) e = some (set_tls_server hostname domain e)
perform handles (do_user j) e = some (set_user j e)
perform handles (do_sasl_handler h) e = some (set_sasl_handler h e)
perform handles (do_requested_resource r) e = some (set_requested_resource r e)
perform handles do_next_id e = some (return_ok, (take_id e).1)

unfoldable pub run : (ℕ → Element → Bool) → List Operation → Engine → Option Engine
run handles [] e = some e
run handles (op ∷ ops) e = perform handles op e >>= λ r. run handles ops r.1
