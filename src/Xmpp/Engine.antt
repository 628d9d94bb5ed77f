-- ===== src/Xmpp/Engine.antt =====
-- The operations of `XmppEngineImpl` in talk/xmpp/xmppengineimpl.cc. What a stanza handler of the
-- client answers is a parameter; a handler does not call the engine back here.
use gxmpp.Prelude.{
  ℕ, Bool, true, false, not, ◌&&◌, ◌||◌, Option, none, some, List, [], ◌∷◌, ◌++◌, ltb, ◌==◌,
  if◌then◌else◌, ◌>>=◌, Bytes, codes, equal,
}
use gxmpp.Jid.{Jid}
use gxmpp.Xml.QName.{eq_qname}
use gxmpp.Xml.Element.{Element, name, attr}
use gxmpp.Xmpp.Names.{qn_stream_error, qn_iq, qn_type}
use gxmpp.Xmpp.State.{
  return_ok, return_badargument, return_badstate, TlsOptions, error_xml, error_connection_closed,
  error_document_closed, error_socket, state_start, state_opening, state_open, state_closed,
  state_number, eq_state, done, SaslHandler, HandlerLevel, hl_none, hl_peek, hl_single, hl_sender,
  hl_type, hl_all, StanzaHandlers, handle_stanza, Login, Engine,
}
use gxmpp.Xmpp.Output.{emit, write, has_error, signal_error, signal_stream_error, bracket}
use gxmpp.Xmpp.Login.{incoming_stanza}
use gxmpp.Xmpp.Send.{Result, finish, feature_not_implemented, send_stanza_error}
use gxmpp.Xmpp.Iq.{handle_iq_response}

-- The setters, which only work before the session has started.
abbrev pub at_start : (Engine → Engine) → Engine → Result
at_start f e = if eq_state e.state state_start then (return_ok, f e) else (return_badstate, e)

unfoldable pub set_output_handler : Option ℕ → Engine → Result
set_output_handler h = at_start (λ e. record e { output_handler = h })

unfoldable pub set_session_handler : Option ℕ → Engine → Result
set_session_handler h = at_start (λ e. record e { session_handler = h })

unfoldable pub set_tls : TlsOptions → Engine → Result
set_tls option = at_start (λ e. record e { tls_option = option })

unfoldable pub set_tls_server : Bytes → Bytes → Engine → Result
set_tls_server hostname domain =
    at_start (λ e. record e { tls_server_hostname = hostname; tls_server_domain = domain })

unfoldable pub set_user : Jid → Engine → Result
set_user j = at_start (λ e. record e { user_jid = j })

unfoldable pub set_sasl_handler : Option SaslHandler → Engine → Result
set_sasl_handler h = at_start (λ e. record e { sasl_handler = h })

unfoldable pub set_requested_resource : Bytes → Engine → Result
set_requested_resource r = at_start (λ e. record e { requested_resource = r })

unfoldable pub set_language : Bytes → Engine → Engine
set_language l e = record e { lang = l }

-- `stanza_handlers_[level]`
unfoldable pub handlers_at : HandlerLevel → StanzaHandlers → List ℕ
handlers_at hl_none hs = hs.at_none
handlers_at hl_peek hs = hs.at_peek
handlers_at hl_single hs = hs.at_single
handlers_at hl_sender hs = hs.at_sender
handlers_at hl_type hs = hs.at_type
handlers_at hl_all hs = hs.at_all

unfoldable pub push_handler : ℕ → HandlerLevel → StanzaHandlers → StanzaHandlers
push_handler h hl_none hs = record hs { at_none = hs.at_none ++ h ∷ [] }
push_handler h hl_peek hs = record hs { at_peek = hs.at_peek ++ h ∷ [] }
push_handler h hl_single hs = record hs { at_single = hs.at_single ++ h ∷ [] }
push_handler h hl_sender hs = record hs { at_sender = hs.at_sender ++ h ∷ [] }
push_handler h hl_type hs = record hs { at_type = hs.at_type ++ h ∷ [] }
push_handler h hl_all hs = record hs { at_all = hs.at_all ++ h ∷ [] }

unfoldable pub add_stanza_handler : ℕ → HandlerLevel → Engine → Result
add_stanza_handler h level e =
    if eq_state e.state state_closed
    then (return_badstate, e)
    else (return_ok, record e { stanza_handlers = push_handler h level e.stanza_handlers })

-- `std::remove` and `erase`
unfoldable pub remove_all : ℕ → List ℕ → List ℕ
remove_all h [] = []
remove_all h (x ∷ rest) = let kept = remove_all h rest in if x == h then kept else x ∷ kept

unfoldable pub mem : ℕ → List ℕ → Bool
mem h [] = false
mem h (x ∷ rest) = x == h || mem h rest

-- A vector has lost an element exactly where it had the handler.
unfoldable pub found_at_any : ℕ → StanzaHandlers → Bool
found_at_any h hs =
    mem h hs.at_none
    || mem h hs.at_peek
    || mem h hs.at_single
    || mem h hs.at_sender
    || mem h hs.at_type
    || mem h hs.at_all

unfoldable pub remove_everywhere : ℕ → StanzaHandlers → StanzaHandlers
remove_everywhere h hs = record {
  at_none = remove_all h hs.at_none;
  at_peek = remove_all h hs.at_peek;
  at_single = remove_all h hs.at_single;
  at_sender = remove_all h hs.at_sender;
  at_type = remove_all h hs.at_type;
  at_all = remove_all h hs.at_all;
}

unfoldable pub remove_stanza_handler : ℕ → Engine → Result
remove_stanza_handler h e = (
  if found_at_any h e.stanza_handlers then return_ok else return_badargument,
  record e { stanza_handlers = remove_everywhere h e.stanza_handlers },
)

-- The login task goes where it is done.
unfoldable pub settle : Login → Engine → Engine
settle l e = record e { login_task = elim l.state [ done ↦ none | _ ↦ some l ] }

-- The login task gets a stanza.
unfoldable pub to_login : Option Element → Bool → Login → Engine → Option Engine
to_login x start l e = do r ← incoming_stanza x start l e; some (settle r.0 r.1)

unfoldable pub start_login : Engine → Option Engine
start_login e =
    let opening = record e { state = state_opening } in
    elim opening.login_task [ some l ↦ to_login none false l opening | none ↦ some opening ]

unfoldable pub connect : Engine → Option Result
connect e =
    if eq_state e.state state_start
    then finish (bracket start_login e)
    else some (return_badstate, e)

unfoldable pub close_stream : Engine → Engine
close_stream e =
    let last = if eq_state e.state state_open then write (codes "</stream:stream>") e else e in
    record last { state = state_closed }

unfoldable pub disconnect : Engine → Option Result
disconnect e =
    if eq_state e.state state_closed
    then some (return_ok, e)
    else finish (bracket (λ e'. some (close_stream e')) e)

unfoldable pub drop_connection : ℕ → Engine → Engine
drop_connection code e =
    if code == 0 then signal_error error_connection_closed 0 e else signal_error error_socket code e

unfoldable pub connection_closed : ℕ → Engine → Option Result
connection_closed code e =
    if eq_state e.state state_closed
    then some (return_ok, e)
    else finish (bracket (λ e'. some (drop_connection code e')) e)

unfoldable pub is_deaf : Engine → Bool
is_deaf e = has_error e || e.raised_reset

unfoldable pub incoming_start : Element → Engine → Option Engine
incoming_start x e = if is_deaf e then some e else elim e.login_task [
  | some l ↦ to_login (some x) true l e
  | none ↦ some (signal_error error_xml 0 e)
]

unfoldable pub incoming_end : Bool → Engine → Engine
incoming_end is_error e =
    if is_deaf e
    then e
    else signal_error (if is_error then error_xml else error_document_closed) 0 e

-- All handlers of a level, whatever they answer.
unfoldable pub peek_all : Element → List ℕ → Engine → Engine
peek_all x [] e = e
peek_all x (h ∷ rest) e = peek_all x rest (emit (handle_stanza h x) e)

-- Whether nobody has handled the stanza, and it asks for an answer.
unfoldable pub wants_reply : Element → Bool
wants_reply x =
    eq_qname (name x) qn_iq
    && not (equal (attr qn_type x) (codes "error") || equal (attr qn_type x) (codes "result"))

-- The handlers from `HL_SINGLE` to `HL_ALL` in their order.
unfoldable pub in_precedence : StanzaHandlers → List ℕ
in_precedence hs = hs.at_single ++ (hs.at_sender ++ (hs.at_type ++ hs.at_all))

-- The calls of `XmppStanzaParseHandler` (talk/xmpp/xmppstanzaparser.h).
pub data ParseEvent : Type 0 where
  start_stream : Element → ParseEvent
  stanza : Element → ParseEvent
  end_stream : ParseEvent
  xml_error : ParseEvent

module _ (handles : ℕ → Element → Bool) where
  -- The handlers in their order, up to the first that has handled the stanza.
  unfoldable pub offer : Element → List ℕ → Engine → Bool × Engine
  offer x [] e = (false, e)
  offer x (h ∷ rest) e =
      let called = emit (handle_stanza h x) e in
      if handles h x then (true, called) else offer x rest called

  unfoldable pub dispatch : Element → Engine → Option Engine
  dispatch x e =
      let peeked = peek_all x e.stanza_handlers.at_peek e in
      let (handled, offered) = offer x (in_precedence e.stanza_handlers) peeked in
      if not handled && wants_reply x
      then (do r ← send_stanza_error x feature_not_implemented [] offered; some r.1)
      else some offered

  unfoldable pub incoming_session_stanza : Element → Engine → Option Engine
  incoming_session_stanza x e = elim (handle_iq_response x e) [
    | some e' ↦ some e'
    | none ↦ dispatch x e
  ]

  -- `IncomingStanza`
  unfoldable pub incoming : Element → Engine → Option Engine
  incoming x e =
      if is_deaf e
      then some e
      else if eq_qname (name x) qn_stream_error
      then some (signal_stream_error x e)
      else elim e.login_task [
        | some l ↦ to_login (some x) false l e
        | none ↦ incoming_session_stanza x e
      ]

  -- `StanzaParseHandler`
  unfoldable pub on_event : ParseEvent → Engine → Option Engine
  on_event (start_stream x) e = incoming_start x e
  on_event (stanza x) e = incoming x e
  on_event end_stream e = some (incoming_end false e)
  on_event xml_error e = some (incoming_end true e)

  unfoldable pub feed : List ParseEvent → Engine → Option Engine
  feed [] e = some e
  feed (ev ∷ rest) e = on_event ev e >>= feed rest

  -- `HandleInput`, given what the stanza parser makes of the bytes.
  unfoldable pub handle_input : List ParseEvent → Engine → Option Result
  handle_input evs e =
      if ltb (state_number e.state) (state_number state_opening)
        || ltb (state_number state_open) (state_number e.state)
      then some (return_badstate, e)
      else finish (bracket (feed evs) e)
