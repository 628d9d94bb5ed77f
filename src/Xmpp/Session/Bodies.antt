-- ===== src/Xmpp/Session/Bodies.antt =====
-- What the calls do inside of the bracket (talk/xmpp/xmppengineimpl.cc), and the calls on the
-- entries of requests (talk/xmpp/xmppengineimpl_iq.cc).
use gxmpp.Prelude.{
  some_injective, ℕ, ◌≡◌, refl, ◌∙◌, subst, Bool, true, false, not, ◌&&◌, Option, none, some, List,
  [], ◌∷◌, arith, ◌>>=◌, Bytes,
}
use gxmpp.Prelude.{if-rule, elim-rule, >>=-rule, >>=-cases}
use gxmpp.Xml.QName.{eq_qname}
use gxmpp.Xml.Element.{Element, name, attr}
use gxmpp.Xmpp.Names.{qn_stream_error, qn_from, qn_id}
use gxmpp.Xmpp.State.{
  return_ok, return_badstate, Error, error_xml, error_stream, state_start, state_opening,
  state_open, state_closed, eq_state, handle_stanza, Login, Engine,
}
use gxmpp.Xmpp.Output.{is_some, emit, signal_error, signal_stream_error, enter}
use gxmpp.Xmpp.Login.{incoming_stanza, outgoing_stanza}
use gxmpp.Xmpp.Login.Ready.{
  is_ready, is_guarded, is_consistent, is_sound, Moves, internal_send-some,
}
use gxmpp.Xmpp.Login.Total.{incoming_stanza-Safe}
use gxmpp.Xmpp.Send.{
  Result, StanzaError, feature_not_implemented, queue_or_send, send_stanza, send_stanza_error,
  error_reply,
}
use gxmpp.Xmpp.Send.Reply.{error_reply-some}
use gxmpp.Xmpp.Iq.{handle_iq_response, is_response, take_entry}
use gxmpp.Xmpp.Engine.{
  settle, to_login, start_login, is_deaf, incoming_start, incoming_end, peek_all, wants_reply,
  in_precedence, offer, dispatch, incoming_session_stanza, incoming,
}
use gxmpp.Xmpp.Session.Safe.{is_safe, Lives, Answers, bracket-Answers, refused}

queue_or_send-Lives : (x : Element) (e : Engine) → is_safe e ≡ true → Lives e (queue_or_send x e)
unfolding queue_or_send outgoing_stanza
queue_or_send-Lives x e h =
    elim-rule (Lives e) e.login_task
      (λ n.
        let (t, k) = internal_send-some x e in (record e { output = t }, k, h, (refl, omega arith)))
      (λ l n. (_, refl, ground arith, (refl, omega arith)))

pub send_stanza-Answers :
    (x : Element) (e : Engine) → is_safe e ≡ true → Answers e (send_stanza x e)
unfolding send_stanza enter
send_stanza-Answers x e h =
    if-rule (Answers e) (eq_state e.state state_closed) (λ c. refused return_badstate e h)
      (λ c. bracket-Answers (queue_or_send x) e (queue_or_send-Lives x (enter e) h))

settle-Safe :
    (l : Login) (e : Engine)
    → is_ready l e ≡ true
    → is_sound l e ≡ true
    → (is_safe (settle l e) ≡ true) × Moves e (settle l e)
unfolding settle
settle-Safe l e h k = (ground arith, (refl, omega arith))

incoming_stanza-Sound :
    (x : Option Element) (start : Bool) (l : Login) (e : Engine)
    → (is_some e.sasl_handler
        && is_consistent e
        && (is_ready l e && is_guarded l e && not (eq_state e.state state_open)))
      ≡ true
    → (r : Login × Engine) × (incoming_stanza x start l e ≡ some r)
      × (is_ready r.0 r.1 ≡ true)
      × (is_sound r.0 r.1 ≡ true)
      × Moves e r.1
incoming_stanza-Sound x start l e h =
    let ready : is_ready l e ≡ true = ground arith in
    let sound : is_sound l e ≡ true = ground arith in
    let (r, k, ready', kept, moves) = incoming_stanza-Safe x start l e ready in
    (r, k, ready', kept sound, moves)

to_login-Lives :
    (x : Option Element) (start : Bool) (l : Login) (e : Engine)
    → e.login_task ≡ some l
    → is_safe e ≡ true
    → Lives e (to_login x start l e)
unfolding to_login
to_login-Lives x start l e n h =
    let h' : (is_some e.sasl_handler
          && is_consistent e
          && (is_ready l e && is_guarded l e && not (eq_state e.state state_open)))
        ≡ true =
      ground arith in
    let (r, k, ready, sound, moves) = incoming_stanza-Sound x start l e h' in
    let (safe, moves') = settle-Safe r.0 r.1 ready sound in
    (settle r.0 r.1, rw k refl, safe, (moves'.0 ∙ moves.0, omega (arith, moves.1, moves'.1)))

pub start_login-Lives :
    (e : Engine) → is_safe e ≡ true → e.state ≡ state_start → Lives e (start_login e)
unfolding start_login
start_login-Lives e h s =
    let opening : Engine = record e { state = state_opening } in
    let safe : is_safe opening ≡ true = ground arith in
    elim-rule (Lives e) e.login_task (λ n. (opening, refl, safe, (refl, ground arith)))
      (λ l n.
        let (e', k, g, m) = to_login-Lives none false l opening n safe in
        (e', k, g, (m.0, ground (arith, m.1))))

pub signal_error-Lives :
    (code : Error) (sub : ℕ) (e : Engine)
    → is_safe e ≡ true
    → Lives e (some (signal_error code sub e))
unfolding signal_error
signal_error-Lives code sub e h = (_, refl, ground arith, ground arith)

pub incoming_start-Lives :
    (x : Element) (e : Engine) → is_safe e ≡ true → Lives e (incoming_start x e)
unfolding incoming_start
incoming_start-Lives x e h =
    if-rule (Lives e) (is_deaf e) (λ d. (e, refl, h, (refl, omega arith)))
      (λ d.
        elim-rule (Lives e) e.login_task (λ n. signal_error-Lives error_xml 0 e h)
          (λ l n. to_login-Lives (some x) true l e n h))

pub incoming_end-Lives :
    (is_error : Bool) (e : Engine) → is_safe e ≡ true → Lives e (some (incoming_end is_error e))
unfolding incoming_end
incoming_end-Lives is_error e h =
    if-rule (λ e'. Lives e (some e')) (is_deaf e) (λ d. (e, refl, h, (refl, omega arith)))
      (λ d. signal_error-Lives _ 0 e h)

-- A step that only adds calls of handlers.
abbrev Calls : Engine → Engine → Type 0
Calls e e' = (is_safe e' ≡ is_safe e) × Moves e e'

Calls-trans : (e e' e'' : Engine) → Calls e e' → Calls e' e'' → Calls e e''
Calls-trans e e' e'' h k = (k.0 ∙ h.0, (k.1.0 ∙ h.1.0, omega (arith, h.1.1, k.1.1)))

peek_all-Calls : (x : Element) (hs : List ℕ) (e : Engine) → Calls e (peek_all x hs e)
unfolding peek_all
peek_all-Calls x [] e = (refl, (refl, omega arith))
peek_all-Calls x (h ∷ hs) e = peek_all-Calls x hs (emit (handle_stanza h x) e)

offer-Calls :
    (handles : ℕ → Element → Bool) (x : Element) (hs : List ℕ) (e : Engine)
    → Calls e (offer handles x hs e).1
unfolding offer
offer-Calls handles x [] e = (refl, (refl, omega arith))
offer-Calls handles x (h ∷ hs) e =
    if-rule {A = Bool × Engine} (λ r. Calls e r.1) (handles h x) (λ y. (refl, (refl, omega arith)))
      (λ n. offer-Calls handles x hs (emit (handle_stanza h x) e))

Answers-Lives : (e : Engine) (o : Option Result) → Answers e o → Lives e (o >>= λ r. some r.1)
Answers-Lives e o (r, k, h, m, i) = >>=-rule (Lives e) o _ r k (r.1, refl, h, m)

-- A call that goes on with an `OK` from where another one ends.
pub then_ok-Answers :
    (e : Engine) (o : Option Result) → Answers e o → Answers e (o >>= λ r. some (return_ok, r.1))
then_ok-Answers e o (r, k, h, m, i) = >>=-rule (Answers e) o _ r k ((return_ok, r.1), refl, h, m, i)

pub send_stanza_error-Answers :
    (original : Element) (code : StanzaError) (message : Bytes) (e : Engine)
    → is_safe e ≡ true
    → Answers e (send_stanza_error original code message e)
unfolding send_stanza_error
send_stanza_error-Answers original code message e h =
    if-rule (Answers e) (eq_state e.state state_closed) (λ c. refused return_badstate e h)
      (λ c.
        let (x, k, r) = error_reply-some original code message in
        >>=-rule (Answers e) (error_reply original code message) _ x k
          (then_ok-Answers e (send_stanza x e) (send_stanza-Answers x e h)))

-- What comes after a step that only calls handlers.
Calls-Lives : (e e' : Engine) (o : Option Engine) → Calls e e' → Lives e' o → Lives e o
Calls-Lives e e' o (s, m) (e'', k, h, n) = (e'', k, h, (n.0 ∙ m.0, omega (arith, m.1, n.1)))

dispatch-Lives :
    (handles : ℕ → Element → Bool) (x : Element) (e : Engine)
    → is_safe e ≡ true
    → Lives e (dispatch handles x e)
unfolding dispatch
dispatch-Lives handles x e h =
    let peeked = peek_all x e.stanza_handlers.at_peek e in
    let found = offer handles x (in_precedence e.stanza_handlers) peeked in
    let called : Calls e found.1 =
      Calls-trans e peeked found.1 (peek_all-Calls x e.stanza_handlers.at_peek e)
        (offer-Calls handles x (in_precedence e.stanza_handlers) peeked) in
    if-rule (Lives e) (not found.0 && wants_reply x)
      (λ w. Calls-Lives e found.1 _ called (
        Answers-Lives found.1 _
          (send_stanza_error-Answers x feature_not_implemented [] found.1 (called.0 ∙ h))))
      (λ w. (found.1, refl, called.0 ∙ h, called.1))

-- Where a response is handled, only the entries and the calls have changed.
abbrev MayLive : Engine → Option Engine → Type 0
MayLive e o = (e' : Engine) → o ≡ some e' → (is_safe e' ≡ true) × Moves e e'

response-MayLive :
    (x : Element) (e : Engine) → is_safe e ≡ true → MayLive e (handle_iq_response x e)
unfolding handle_iq_response
response-MayLive x e h =
    if-rule (MayLive e) (is_response x)
      (λ r.
        >>=-cases (MayLive e) (take_entry (attr qn_id x) (attr qn_from x) e.iq_entries) _
          (λ n e' k. ground (arith, k))
          (λ found n e' k.
            subst (λ f. (is_safe f ≡ true) × Moves e f) (some_injective k)
              (h, (refl, omega arith))))
      (λ r e' k. ground (arith, k))

stream_error-Lives :
    (x : Element) (e : Engine) → is_safe e ≡ true → Lives e (some (signal_stream_error x e))
unfolding signal_stream_error
stream_error-Lives x e h =
    if-rule (λ e'. Lives e (some e')) (eq_state e.state state_closed)
      (λ c. (e, refl, h, (refl, omega arith)))
      (λ c. signal_error-Lives error_stream 0 (record e { stream_error = some x }) h)

pub incoming-Lives :
    (handles : ℕ → Element → Bool) (x : Element) (e : Engine)
    → is_safe e ≡ true
    → Lives e (incoming handles x e)
unfolding incoming incoming_session_stanza
incoming-Lives handles x e h =
    if-rule (Lives e) (is_deaf e) (λ d. (e, refl, h, (refl, omega arith)))
      (λ d.
        if-rule (Lives e) (eq_qname (name x) qn_stream_error) (λ s. stream_error-Lives x e h)
          (λ s.
            elim-rule (Lives e) e.login_task
              (λ n.
                elim-rule (Lives e) (handle_iq_response x e) (λ k. dispatch-Lives handles x e h)
                  (λ e' k. let (s', m) = response-MayLive x e h e' k in (e', refl, s', m)))
              (λ l n. to_login-Lives (some x) false l e n h)))
