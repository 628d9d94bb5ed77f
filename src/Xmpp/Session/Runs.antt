-- ===== src/Xmpp/Session/Runs.antt =====
-- Any sequence of calls on the engine of talk/xmpp/xmppengineimpl.cc.
use gxmpp.Prelude.{
  ℕ, suc, ◌≤◌, ◌≡◌, refl, ◌∙◌, inl, inr, Bool, true, false, not, ◌&&◌, ◌||◌, Option, some, List, [],
  ◌∷◌, arith, ltb, ◌==◌, All, Option-cases, Bytes,
}
use gxmpp.Prelude.{if-rule, elim-rule, >>=-rule}
use gxmpp.Xml.Element.{Element}
use gxmpp.Xmpp.State.{
  ReturnStatus, return_ok, return_badargument, return_badstate, error_connection_closed,
  error_socket, state_start, state_opening, state_open, state_closed, state_number, eq_state,
  SaslHandler, HandlerLevel, Engine, new_login, new_engine,
}
use gxmpp.Xmpp.Output.{is_some, write, enter, take_id}
use gxmpp.Xmpp.Send.{send_raw}
use gxmpp.Xmpp.Iq.{send_iq, push_entry, is_request, remove_iq_handler, erase_entry}
use gxmpp.Jid.{Jid}
use gxmpp.Xmpp.Engine.{
  set_output_handler, set_session_handler, set_sasl_handler, set_user, set_requested_resource,
  ParseEvent, start_stream, stanza, end_stream, xml_error, start_login, connect, close_stream,
  disconnect, drop_connection, connection_closed, on_event, feed, handle_input, add_stanza_handler,
  remove_stanza_handler, set_language, at_start, set_tls, set_tls_server,
}
use gxmpp.Xmpp.Session.{
  Operation, do_connect, do_input, do_closed, do_disconnect, do_send, do_raw, do_iq, do_remove_iq,
  do_error, do_add, do_remove, do_language, do_output_handler, do_session_handler, do_tls,
  do_tls_server, do_user, do_sasl_handler, do_requested_resource, do_next_id, perform, run,
}
use gxmpp.Xmpp.Login.{is_tls_required}
use gxmpp.Xmpp.Login.Ready.{Moves}
use gxmpp.Xmpp.Session.Safe.{
  is_safe, is_idle, Lives, Answers, bracket-Answers, at_once-Answers, refused,
}
use gxmpp.Xmpp.Session.Bodies.{
  send_stanza-Answers, start_login-Lives, signal_error-Lives, incoming_start-Lives,
  incoming_end-Lives, incoming-Lives, then_ok-Answers, send_stanza_error-Answers,
}

event-Lives :
    (handles : ℕ → Element → Bool) (ev : ParseEvent) (e : Engine)
    → is_safe e ≡ true
    → Lives e (on_event handles ev e)
unfolding on_event
event-Lives handles (start_stream x) e h = incoming_start-Lives x e h
event-Lives handles (stanza x) e h = incoming-Lives handles x e h
event-Lives handles end_stream e h = incoming_end-Lives false e h
event-Lives handles xml_error e h = incoming_end-Lives true e h

feed-Lives :
    (handles : ℕ → Element → Bool) (evs : List ParseEvent) (e : Engine)
    → is_safe e ≡ true
    → Lives e (feed handles evs e)
unfolding feed
feed-Lives handles [] e h = (e, refl, h, (refl, omega arith))
feed-Lives handles (ev ∷ evs) e h =
    let (e', k, s, m) = event-Lives handles ev e h in
    let (e'', k', s', m') = feed-Lives handles evs e' s in
    >>=-rule (Lives e) (on_event handles ev e) _ e' k
      (e'', k', s', (m'.0 ∙ m.0, omega (arith, m.1, m'.1)))

input-Answers :
    (handles : ℕ → Element → Bool) (evs : List ParseEvent) (e : Engine)
    → is_safe e ≡ true
    → Answers e (handle_input handles evs e)
unfolding handle_input enter
input-Answers handles evs e h =
    if-rule (Answers e)
      (ltb (state_number e.state) (state_number state_opening)
        || ltb (state_number state_open) (state_number e.state))
      (λ c. refused return_badstate e h)
      (λ c. bracket-Answers (feed handles evs) e (feed-Lives handles evs (enter e) h))

connect-Answers : (e : Engine) → is_safe e ≡ true → Answers e (connect e)
unfolding connect enter
connect-Answers e h =
    if-rule (Answers e) (eq_state e.state state_start)
      (λ c. bracket-Answers start_login e (start_login-Lives (enter e) h (ground (arith, c))))
      (λ c. refused return_badstate e h)

closed-Answers : (code : ℕ) (e : Engine) → is_safe e ≡ true → Answers e (connection_closed code e)
unfolding connection_closed drop_connection enter
closed-Answers code e h =
    if-rule (Answers e) (eq_state e.state state_closed) (λ c. refused return_ok e h)
      (λ c.
        bracket-Answers (λ e'. some (drop_connection code e')) e
          (if-rule (λ e'. Lives (enter e) (some e')) (code == 0)
            (λ z. signal_error-Lives error_connection_closed 0 (enter e) h)
            (λ z. signal_error-Lives error_socket code (enter e) h)))

close_stream-Lives : (e : Engine) → is_safe e ≡ true → Lives e (some (close_stream e))
unfolding close_stream
close_stream-Lives e h = (_, refl, ground arith, ground arith)

disconnect-Answers : (e : Engine) → is_safe e ≡ true → Answers e (disconnect e)
unfolding disconnect enter
disconnect-Answers e h =
    if-rule (Answers e) (eq_state e.state state_closed) (λ c. refused return_ok e h)
      (λ c. bracket-Answers (λ e'. some (close_stream e')) e (close_stream-Lives (enter e) h))

raw-Answers : (t : Bytes) (e : Engine) → is_safe e ≡ true → Answers e (send_raw t e)
unfolding send_raw enter
raw-Answers t e h =
    if-rule (Answers e) (eq_state e.state state_closed || is_some e.login_task)
      (λ c. refused return_badstate e h)
      (λ c. bracket-Answers (λ e'. some (write t e')) e (_, refl, h, (refl, omega arith)))

iq-Answers :
    (x : Option Element) (handler : Option ℕ) (e : Engine)
    → is_safe e ≡ true
    → Answers e (send_iq x handler e)
unfolding send_iq push_entry
iq-Answers x handler e h =
    if-rule (Answers e) (eq_state e.state state_closed) (λ c. refused return_badstate e h)
      (λ c.
        elim-rule (Answers e) handler (λ n. refused return_badargument e h)
          (λ g n.
            elim-rule (Answers e) x (λ m. refused return_badargument e h)
              (λ el m.
                if-rule (Answers e) (is_request el)
                  (λ r. then_ok-Answers e _ (send_stanza-Answers el (push_entry el g e) h))
                  (λ r. refused return_badargument e h))))

remove_iq-Answers :
    (c : ℕ) (e : Engine)
    → is_safe e ≡ true
    → Answers e (let r = remove_iq_handler c e in some (r.0, r.2))
unfolding remove_iq_handler
remove_iq-Answers c e h =
    elim-rule {B = ReturnStatus × Option ℕ × Engine} (λ r. Answers e (some (r.0, r.2)))
      (erase_entry c e.iq_entries) (λ n. refused return_badargument e h)
      (λ found n. at_once-Answers return_ok e _ h (refl, omega arith) (λ i. i))

add-Answers :
    (g : ℕ) (level : HandlerLevel) (e : Engine)
    → is_safe e ≡ true
    → Answers e (some (add_stanza_handler g level e))
unfolding add_stanza_handler
add-Answers g level e h =
    if-rule (λ r. Answers e (some r)) (eq_state e.state state_closed)
      (λ c. refused return_badstate e h)
      (λ c. at_once-Answers return_ok e _ h (refl, omega arith) (λ i. i))

-- The setters.
at_start-Answers :
    (f : Engine → Engine) (e : Engine)
    → is_safe e ≡ true
    → is_safe (f e) ≡ true
    → Moves e (f e)
    → ((is_idle e ≡ true) → is_idle (f e) ≡ true)
    → Answers e (some (at_start f e))
at_start-Answers f e h k m i =
    if-rule (λ r. Answers e (some r)) (eq_state e.state state_start)
      (λ s. at_once-Answers return_ok e (f e) k m i) (λ s. refused return_badstate e h)

-- The calls that set no output handler, require TLS if they set its option, and set a SASL handler if
-- they set it at all.
abbrev pub is_cautious : Operation → Bool
is_cautious (do_output_handler h) = not (is_some h)
is_cautious (do_tls option) = is_tls_required option
is_cautious (do_sasl_handler h) = is_some h
is_cautious _ = true

pub perform-Answers :
    (handles : ℕ → Element → Bool) (op : Operation) (e : Engine)
    → is_cautious op ≡ true
    → is_safe e ≡ true
    → Answers e (perform handles op e)
unfolding perform remove_stanza_handler set_language set_output_handler set_session_handler set_tls
    set_tls_server set_user set_sasl_handler set_requested_resource take_id
perform-Answers handles do_connect e a h = connect-Answers e h
perform-Answers handles (do_input evs) e a h = input-Answers handles evs e h
perform-Answers handles (do_closed code) e a h = closed-Answers code e h
perform-Answers handles do_disconnect e a h = disconnect-Answers e h
perform-Answers handles (do_send x) e a h = send_stanza-Answers x e h
perform-Answers handles (do_raw t) e a h = raw-Answers t e h
perform-Answers handles (do_iq x g) e a h = iq-Answers x g e h
perform-Answers handles (do_remove_iq c) e a h = remove_iq-Answers c e h
perform-Answers handles (do_error x code message) e a h =
    send_stanza_error-Answers x code message e h
perform-Answers handles (do_add g level) e a h = add-Answers g level e h
perform-Answers handles (do_remove g) e a h = at_once-Answers _ e _ h (refl, omega arith) (λ i. i)
perform-Answers handles (do_language l) e a h =
    at_once-Answers return_ok e _ h (refl, omega arith) (λ i. i)
perform-Answers handles (do_output_handler h) e a s =
    at_start-Answers (λ (f : Engine). record f { output_handler = h }) e s (ground arith)
      (refl, omega arith) (λ i. ground arith)
perform-Answers handles (do_session_handler h) e a s =
    at_start-Answers (λ (f : Engine). record f { session_handler = h }) e s s (refl, omega arith)
      (λ i. i)
perform-Answers handles (do_tls option) e a s =
    at_start-Answers (λ (f : Engine). record f { tls_option = option }) e s (ground arith)
      (refl, omega arith) (λ i. i)
perform-Answers handles (do_tls_server hostname domain) e a s =
    at_start-Answers
      (λ (f : Engine). record f { tls_server_hostname = hostname; tls_server_domain = domain }) e s
      s (refl, omega arith) (λ i. i)
perform-Answers handles (do_user j) e a s =
    at_start-Answers (λ (f : Engine). record f { user_jid = j }) e s s (refl, omega arith) (λ i. i)
perform-Answers handles (do_sasl_handler h) e a s =
    at_start-Answers (λ (f : Engine). record f { sasl_handler = h }) e s (ground arith)
      (refl, omega arith) (λ i. i)
perform-Answers handles (do_requested_resource r) e a s =
    at_start-Answers (λ (f : Engine). record f { requested_resource = r }) e s s (refl, omega arith)
      (λ i. i)
perform-Answers handles do_next_id e a s =
    at_once-Answers return_ok e (record e { next_id = suc e.next_id }) s (refl, omega arith)
      (λ i. i)

-- The engine is safe and idle again.
abbrev pub IsSafe : Engine → Type 0
IsSafe e = (is_safe e ≡ true) × (is_idle e ≡ true)

-- From an engine that is safe and idle, every sequence of calls that change it, of which
-- SetOutputHandler sets none but a null pointer, SetTls just requires TLS, and SetSaslHandler
-- sets no null pointer, returns, follows no null pointer, ends in an engine that is safe and
-- idle, and never takes its state back. Safe is that there is a SASL handler, that the login has
-- what its state needs, that an error has closed the session, that a login under way has not
-- opened it and waits for TLS or needs it no more, and that without one the connection is
-- encrypted, gone or closed. Idle is that no bracket is open, no reset is due, and all output is
-- with the output handler.
pub run-IsSafe :
    (handles : ℕ → Element → Bool) (ops : List Operation) (e : Engine)
    → All (λ op. is_cautious op ≡ true) ops
    → IsSafe e
    → (e' : Engine) × (run handles ops e ≡ some e')
      × IsSafe e'
      × (state_number e.state ≤ state_number e'.state)
unfolding run
run-IsSafe handles [] e cautious h = (e, refl, h, omega arith)
run-IsSafe handles (op ∷ ops) e cautious h =
    let (r, k, s, m, i) = perform-Answers handles op e cautious.0 h.0 in
    let (e', k', h', m') = run-IsSafe handles ops r.1 cautious.1 (s, i h.1) in
    (e', rw k k', h', omega (arith, m.1, m'))

-- A new engine with a SASL handler, as a client sets it up that leaves the TLS option alone.
abbrev pub set_up : Option ℕ → Option ℕ → SaslHandler → Jid → Bytes → Engine
set_up out session sasl user resource =
    let e1 = (set_output_handler out new_engine).1 in
    let e2 = (set_session_handler session e1).1 in
    let e3 = (set_sasl_handler (some sasl) e2).1 in
    (set_requested_resource resource (set_user user e3).1).1

set_up-IsSafe :
    (out session : Option ℕ) (sasl : SaslHandler) (user : Jid) (resource : Bytes)
    → IsSafe (set_up out session sasl user resource)
unfolding set_output_handler set_session_handler set_sasl_handler set_user set_requested_resource
    new_engine new_login
set_up-IsSafe out session sasl user resource = (ground arith, refl)

-- Open in the clear, with a connection.
abbrev pub is_exposed : Engine → Bool
is_exposed e = eq_state e.state state_open && not e.encrypted && is_some e.output_handler

safe-is_exposed : (e : Engine) → is_safe e ≡ true → is_exposed e ≡ false
safe-is_exposed e h = elim (Option-cases e.login_task) [
  | inl n ↦ ground arith
  | inr (l, n) ↦ ground arith
]

-- A new engine that has a SASL handler and whose TLS option is left alone never has an open
-- session over an unencrypted connection, after any sequence of calls on it, which all return.
-- The calls are those that change the engine, of which SetOutputHandler then sets no handler
-- anew, SetTls just requires TLS, and SetSaslHandler sets no null pointer.
pub run-is_exposed :
    (handles : ℕ → Element → Bool) (ops : List Operation) (out session : Option ℕ)
    (sasl : SaslHandler) (user : Jid) (resource : Bytes)
    → All (λ op. is_cautious op ≡ true) ops
    → (e : Engine) × (run handles ops (set_up out session sasl user resource) ≡ some e)
      × (is_exposed e ≡ false)
run-is_exposed handles ops out session sasl user resource cautious =
    let start = set_up out session sasl user resource in
    let (e, k, s, m) =
      run-IsSafe handles ops start cautious (set_up-IsSafe out session sasl user resource) in
    (e, k, safe-is_exposed e s.0)
