-- ===== src/Xmpp/Login.antt =====
-- `XmppLoginTask` of talk/xmpp/xmpplogintask.cc: the handshake up to the bound session, as one step
-- for each state and the loop of `Advance`. A step that would follow a null pointer is `none`.
use gxmpp.Xmpp.LoginStanzas.{
  is_start_stream, is_answer, is_result, set_iq, bind_iq, session_iq, decorate_auth, offered,
  bound_element,
}
use gxmpp.Prelude.{
  ℕ, zero, suc, Bool, true, false, not, ◌&&◌, Option, none, some, List, [], ◌∷◌, ◌++◌, map,
  if◌then◌else◌, ◌>>=◌, Bytes, codes, equal, is_empty,
}
pub mod Ready
pub mod Auth
pub mod Bind
pub mod Total
use gxmpp.Jid.{Jid, parse, is_full}
use gxmpp.Xml.QName.{QName, eq_qname}
use gxmpp.Xml.Element.{
  Element, name, children, attr, has_attr, new_element, new_with_ns, set_attr, add_attr,
  add_element, add_text, at_depth, first_named, first_element, all_named, body_text, text_named,
}
use gxmpp.Xml.NsStack.{qn_xmlns}
use gxmpp.Xmpp.Names.{
  ns_client, ns_sasl, qn_stream_stream, qn_stream_features, qn_tls_starttls, qn_tls_proceed,
  qn_sasl_mechanisms, qn_sasl_mechanism, qn_sasl_challenge, qn_sasl_success,
  qn_google_auth_client_uses_full_bind_result, qn_google_allow_non_google_id_xmpp_login,
  qn_bind_bind, qn_bind_resource, qn_bind_jid, qn_session_session, qn_iq, qn_version, qn_type,
  qn_id,
}
use gxmpp.Xmpp.State.{
  LoginState, TlsOptions, tls_disabled, tls_enabled, tls_required, Error, error_version,
  error_unauthorized, error_tls, error_auth, error_bind, init, streamstart_sent, started_xmpp,
  tls_init, auth_init, bind_init, tls_requested, sasl_running, bind_requested, session_requested,
  done, SaslMechanism, SaslHandler, Login, Engine,
}
use gxmpp.Xmpp.Output.{
  is_some, raise_reset, take_id, internal_send_start, internal_send_stanza, signal_bound,
  signal_error, start_tls,
}

-- How a round of the loop ends: `break` or `continue`, or a return.
pub data Outcome : Type 0 where
  again : Login → Engine → Outcome
  returns : Bool → Login → Engine → Outcome

unfoldable pub failure : Error → Login → Engine → Outcome
failure reason l e = returns false (record l { state = done }) (signal_error reason 0 e)

-- `GetFeature`, which follows `pelFeatures_`.
unfoldable pub get_feature : QName → Login → Option (Option Element)
get_feature q l = do f ← l.features; some (first_named q f)

unfoldable pub flush_queued_stanzas : List Element → Engine → Option Engine
flush_queued_stanzas [] e = some e
flush_queued_stanzas (x ∷ rest) e = internal_send_stanza x e >>= flush_queued_stanzas rest

unfoldable pub step_init : Login → Engine → Option Outcome
step_init l e = some (
    again (record l { features = none; state = streamstart_sent })
      (internal_send_start (e.user_jid).domain (raise_reset e)))

-- The steps of the states that wait for a stanza, given the stanza and the task without it.
unfoldable pub on_stream_start : Element → Login → Engine → Option Outcome
on_stream_start x l e = some (
    if l.is_start && is_start_stream x
    then returns true (record l { stream_id = attr qn_id x; state = started_xmpp }) e
    else failure error_version l e)

abbrev pub is_tls_required : TlsOptions → Bool
is_tls_required tls_required = true
is_tls_required _ = false

abbrev pub wants_tls : TlsOptions → Bool
wants_tls tls_disabled = false
wants_tls _ = true

-- Where to go on from the features of the stream.
unfoldable pub choose_next : Bool → Login → Engine → Outcome
choose_next tls_present l e =
    if is_tls_required e.tls_option && not tls_present
    then failure error_tls l e
    else if wants_tls e.tls_option && tls_present
    then again (record l { state = tls_init }) e
    else if l.auth_needed
    then again (record l { state = auth_init }) e
    else again (record l { state = bind_init }) e

unfoldable pub on_features : Element → Login → Engine → Option Outcome
on_features x l e =
    if eq_qname (name x) qn_stream_features
    then (let got = record l { features = some x } in
        do tls ← get_feature qn_tls_starttls got; some (choose_next (is_some tls) got e))
    else some (failure error_version l e)

unfoldable pub step_tls_init : Login → Engine → Option Outcome
step_tls_init l e = get_feature qn_tls_starttls l >>= λ tls.
    if is_some tls
    then (do
      e' ← internal_send_stanza (new_with_ns qn_xmlns qn_tls_starttls true) e
      some (again (record l { state = tls_requested }) e'))
    else some (failure error_tls l e)

unfoldable pub on_tls_answer : Element → Login → Engine → Option Outcome
on_tls_answer x l e = some (
    if eq_qname (name x) qn_tls_proceed
    then again (record l { state = init })
        (record (start_tls (e.user_jid).domain e) { tls_option = tls_enabled })
    else failure error_tls l e)

unfoldable pub start_mechanism : SaslMechanism → Login → Engine → Option Outcome
start_mechanism m l e = elim m.start_sasl_auth [
  | none ↦ some (failure error_auth l e)
  | some auth ↦ do
    e' ← internal_send_stanza (decorate_auth l.allow_non_google_login auth) e
    some (again (record l { state = sasl_running }) e')
]

unfoldable pub try_mechanism : Bytes → SaslHandler → Login → Engine → Option Outcome
try_mechanism choice h l e =
    if is_empty choice
    then some (failure error_auth l e)
    else elim (h.create_sasl_mechanism choice) [
      | none ↦ some (failure error_auth (record l { sasl_mech = none }) e)
      | some m ↦ start_mechanism m (record l { sasl_mech = some m }) e
    ]

unfoldable pub step_auth_init : Login → Engine → Option Outcome
step_auth_init l e = get_feature qn_sasl_mechanisms l >>= λ sasl_auth. elim sasl_auth [
  | none ↦ some (failure error_auth l e)
  | some x ↦ do
    h ← e.sasl_handler
    try_mechanism (h.choose_best_sasl_mechanism (offered x) e.encrypted) h l e
]

unfoldable pub on_challenge : Element → SaslMechanism → Login → Engine → Option Outcome
on_challenge x m l e = elim (m.handle_sasl_challenge x) [
  | none ↦ some (failure error_auth l e)
  | some response ↦ do
    e' ← internal_send_stanza response e
    some (again (record l { state = sasl_running }) e')
]

unfoldable pub on_sasl_answer : Element → Login → Engine → Option Outcome
on_sasl_answer x l e =
    if equal (name x).ns ns_sasl
    then (if eq_qname (name x) qn_sasl_challenge
        then (do m ← l.sasl_mech; on_challenge x m l e)
        else if eq_qname (name x) qn_sasl_success
        then some (again (record l { auth_needed = false; state = init }) e)
        else some (failure error_unauthorized l e))
    else some (failure error_auth l e)

unfoldable pub send_bind : Login → Engine → Option Outcome
send_bind l e =
    let (iq_id, e1) = take_id e in
    do
      iq ← bind_iq iq_id e1.requested_resource
      e2 ← internal_send_stanza iq e1
      some (again (record l { iq_id = iq_id; state = bind_requested }) e2)

unfoldable pub step_bind_init : Login → Engine → Option Outcome
step_bind_init l e = get_feature qn_bind_bind l >>= λ bind.
    get_feature qn_session_session l >>= λ session.
    if is_some bind && is_some session then send_bind l e else some (failure error_bind l e)

unfoldable pub request_session : Jid → Login → Engine → Option Outcome
request_session full l e =
    let (iq_id, e1) = take_id e in
    do
      e2 ← internal_send_stanza (session_iq iq_id) e1
      some (again (record l { full_jid = full; iq_id = iq_id; state = session_requested }) e2)

unfoldable pub on_bind_answer : Element → Login → Engine → Option Outcome
on_bind_answer x l e =
    if is_answer l.iq_id x
    then (if is_result x
        then elim (bound_element x) [
          | none ↦ some (failure error_bind l e)
          | some c ↦
              let full = parse (text_named qn_bind_jid c) in
              if is_full full
              then request_session full l e
              else some (failure error_bind (record l { full_jid = full }) e)
        ]
        else some (failure error_bind l e))
    else some (returns true l e)

unfoldable pub on_session_answer : Element → Login → Engine → Option Outcome
on_session_answer x l e =
    if is_answer l.iq_id x
    then (if is_result x
        then (do
          e' ← flush_queued_stanzas l.queued (signal_bound l.full_jid e)
          some (returns true (record l { queued = []; state = done }) e'))
        else some (failure error_bind l e))
    else some (returns false l e)

-- `NextStanza`: without a stanza the state waits, else it goes on with the stanza taken away.
unfoldable pub with_next :
    (Element → Login → Engine → Option Outcome) → Login → Engine → Option Outcome
with_next body l e = elim l.stanza [
  | none ↦ some (returns true l e)
  | some x ↦ body x (record l { stanza = none }) e
]

-- One round of `Advance`, by the state of the task.
unfoldable pub step_in : LoginState → Login → Engine → Option Outcome
step_in init = step_init
step_in streamstart_sent = with_next on_stream_start
step_in started_xmpp = with_next on_features
step_in tls_init = step_tls_init
step_in auth_init = step_auth_init
step_in bind_init = step_bind_init
step_in tls_requested = with_next on_tls_answer
step_in sasl_running = with_next on_sasl_answer
step_in bind_requested = with_next on_bind_answer
step_in session_requested = with_next on_session_answer
step_in done = λ l e. some (returns false l e)

abbrev pub step : Login → Engine → Option Outcome
step l e = step_in l.state l e

-- The loop of `Advance`; `none` also where the fuel does not suffice.
unfoldable pub advance : ℕ → Login → Engine → Option (Bool × Login × Engine)
advance zero l e = none
advance (suc fuel) l e = step l e >>= λ outcome. elim outcome [
  | again l' e' ↦ advance fuel l' e'
  | returns b l' e' ↦ some (b, l', e')
]

abbrev pub advance_fuel : ℕ
advance_fuel = 4

unfoldable pub incoming_stanza : Option Element → Bool → Login → Engine → Option (Login × Engine)
incoming_stanza x start l e = do
  r ← advance advance_fuel (record l { stanza = x; is_start = start }) e
  some (record r.1 { stanza = none; is_start = false }, r.2)

unfoldable pub outgoing_stanza : Element → Login → Login
outgoing_stanza x l = record l { queued = l.queued ++ x ∷ [] }
