-- ===== src/Xmpp/State.antt =====
-- The state of `XmppEngineImpl` (talk/xmpp/xmppengineimpl.h) and of its `XmppLoginTask`
-- (talk/xmpp/xmpplogintask.h), with the enumerations of talk/xmpp/xmppengine.h. A handler that the
-- client owns is known by a number, and what the engine does to it is an entry of `effects`.
use gxmpp.Prelude.{ℕ, Bool, true, false, [], List, Option, none, some, ◌==◌, Bytes, codes}
use gxmpp.Jid.{Jid, empty}
use gxmpp.Xml.Element.{Element}
use gxmpp.Xml.NsStack.{NsStack, no_bindings, add_xmlns}
use gxmpp.Xmpp.Names.{ns_client, ns_stream}

pub data ReturnStatus : Type 0 where
  return_ok : ReturnStatus
  return_badargument : ReturnStatus
  return_badstate : ReturnStatus
  return_pending : ReturnStatus
  return_unexpected : ReturnStatus
  return_notyetimplemented : ReturnStatus

pub data TlsOptions : Type 0 where
  tls_disabled : TlsOptions
  tls_enabled : TlsOptions
  tls_required : TlsOptions

pub data Error : Type 0 where
  error_none : Error
  error_xml : Error
  error_stream : Error
  error_version : Error
  error_unauthorized : Error
  error_tls : Error
  error_auth : Error
  error_bind : Error
  error_connection_closed : Error
  error_document_closed : Error
  error_socket : Error
  error_network_timeout : Error
  error_missing_username : Error

pub data State : Type 0 where
  state_none : State
  state_start : State
  state_opening : State
  state_open : State
  state_closed : State

abbrev pub state_number : State → ℕ
state_number state_none = 0
state_number state_start = 1
state_number state_opening = 2
state_number state_open = 3
state_number state_closed = 4

abbrev pub eq_state : State → State → Bool
eq_state s t = state_number s == state_number t

pub data LoginState : Type 0 where
  init : LoginState
  streamstart_sent : LoginState
  started_xmpp : LoginState
  tls_init : LoginState
  auth_init : LoginState
  bind_init : LoginState
  tls_requested : LoginState
  sasl_running : LoginState
  bind_requested : LoginState
  session_requested : LoginState
  done : LoginState

-- `SaslMechanism` and `SaslHandler`: interfaces that the client implements.
pub record SaslMechanism : Type 0 where
  pub start_sasl_auth : Option Element
  pub handle_sasl_challenge : Element → Option Element

pub record SaslHandler : Type 0 where
  pub choose_best_sasl_mechanism : List Bytes → Bool → Bytes
  pub create_sasl_mechanism : Bytes → Option SaslMechanism

-- `XmppIqEntry`; its address, which is the cookie, is a number.
pub record IqEntry : Type 0 where
  pub cookie : ℕ
  pub id : Bytes
  pub to : Bytes
  pub iq_handler : ℕ

pub data HandlerLevel : Type 0 where
  hl_none : HandlerLevel
  hl_peek : HandlerLevel
  hl_single : HandlerLevel
  hl_sender : HandlerLevel
  hl_type : HandlerLevel
  hl_all : HandlerLevel

-- `stanza_handlers_`, one vector for each level.
pub record StanzaHandlers : Type 0 where
  pub at_none : List ℕ
  pub at_peek : List ℕ
  pub at_single : List ℕ
  pub at_sender : List ℕ
  pub at_type : List ℕ
  pub at_all : List ℕ

-- The calls of the handlers, and the reset of the parser.
pub data Effect : Type 0 where
  write_output : Bytes → Effect
  start_tls_for : Bytes → Effect
  close_connection : Effect
  on_state_change : State → Effect
  handle_stanza : ℕ → Element → Effect
  iq_response : IqEntry → Element → Effect
  reset_parser : Effect

-- `stanza` is `pelStanza_`, `features` is `pelFeatures_`, `queued` is `pvecQueuedStanzas_`.
pub record Login : Type 0 where
  pub auth_needed : Bool
  pub allow_non_google_login : Bool
  pub state : LoginState
  pub stanza : Option Element
  pub is_start : Bool
  pub iq_id : Bytes
  pub features : Option Element
  pub full_jid : Jid
  pub stream_id : Bytes
  pub queued : List Element
  pub sasl_mech : Option SaslMechanism

-- `output` is the text of `output_`, and `next_cookie` is the address of the next entry.
pub record Engine : Type 0 where
  pub engine_entered : ℕ
  pub user_jid : Jid
  pub requested_resource : Bytes
  pub tls_option : TlsOptions
  pub tls_server_hostname : Bytes
  pub tls_server_domain : Bytes
  pub login_task : Option Login
  pub lang : Bytes
  pub next_id : ℕ
  pub bound_jid : Jid
  pub state : State
  pub encrypted : Bool
  pub error_code : Error
  pub subcode : ℕ
  pub stream_error : Option Element
  pub raised_reset : Bool
  pub output_handler : Option ℕ
  pub session_handler : Option ℕ
  pub xmlns_stack : NsStack
  pub stanza_handlers : StanzaHandlers
  pub iq_entries : List IqEntry
  pub sasl_handler : Option SaslHandler
  pub output : Bytes
  pub effects : List Effect
  pub next_cookie : ℕ

-- `XmppLoginTask(pctx)`
unfoldable pub new_login : Login
new_login = record {
  auth_needed = true;
  allow_non_google_login = true;
  state = init;
  stanza = none;
  is_start = false;
  iq_id = [];
  features = none;
  full_jid = empty;
  stream_id = [];
  queued = [];
  sasl_mech = none;
}

abbrev pub no_handlers : StanzaHandlers
no_handlers = record {
  at_none = [];
  at_peek = [];
  at_single = [];
  at_sender = [];
  at_type = [];
  at_all = [];
}

-- `XmppEngineImpl()`
unfoldable pub new_engine : Engine
new_engine = record {
  engine_entered = 0;
  user_jid = empty;
  requested_resource = [];
  tls_option = tls_required;
  tls_server_hostname = [];
  tls_server_domain = [];
  login_task = some new_login;
  lang = [];
  next_id = 0;
  bound_jid = empty;
  state = state_start;
  encrypted = false;
  error_code = error_none;
  subcode = 0;
  stream_error = none;
  raised_reset = false;
  output_handler = none;
  session_handler = none;
  xmlns_stack = add_xmlns [] ns_client (add_xmlns (codes "stream") ns_stream no_bindings);
  stanza_handlers = no_handlers;
  iq_entries = [];
  sasl_handler = none;
  output = [];
  effects = [];
  next_cookie = 0;
}
