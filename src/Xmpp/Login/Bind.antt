-- ===== src/Xmpp/Login/Bind.antt =====
-- The rounds of talk/xmpp/xmpplogintask.cc that bind the resource and ask for the session.
use gxmpp.Prelude.{◌≡◌, refl, true, ◌&&◌, none, some, [], ◌∷◌, arith, Bytes}
use gxmpp.Prelude.{if-rule, elim-rule, >>=-rule}
use gxmpp.Jid.{Jid, parse, is_full}
use gxmpp.Xml.Element.{
  Element, new_with_ns, text_named, add_element, append_child, at_depth, on_last, add_text,
  add_attr,
}
use gxmpp.Xmpp.Names.{qn_bind_bind, qn_bind_jid, qn_session_session}
use gxmpp.Xmpp.State.{error_bind, bind_init, bind_requested, session_requested, Login, Engine}
use gxmpp.Xmpp.Output.{is_some, take_id, internal_send_stanza, signal_bound}
use gxmpp.Xmpp.Login.{
  flush_queued_stanzas, send_bind, step_bind_init, request_session, on_bind_answer,
  on_session_answer, with_next,
}
use gxmpp.Xmpp.LoginStanzas.{bind_iq, set_iq, session_iq, is_answer, is_result, bound_element}
use gxmpp.Xmpp.Login.Ready.{
  is_ready, Goes, internal_send-some, flush_queued-some, failure-Good, next-Goes, feature-Goes,
}

bind_iq-some : (id resource : Bytes) → (x : Element) × (bind_iq id resource ≡ some x)
unfolding bind_iq set_iq add_element at_depth on_last new_with_ns add_text add_attr append_child
bind_iq-some id [] = (_, refl)
bind_iq-some id (c ∷ cs) = (_, refl)

send_bind-Goes :
    (l : Login) (e : Engine)
    → l.state ≡ bind_init
    → is_some e.sasl_handler ≡ true
    → Goes l e (send_bind l e)
unfolding send_bind take_id
send_bind-Goes l e s h =
    let (iq_id, e1) = take_id e in
    let (x, k) = bind_iq-some iq_id e1.requested_resource in
    let (t, j) = internal_send-some x e1 in
    >>=-rule (Goes l e) (bind_iq iq_id e1.requested_resource) _ x k (
      >>=-rule (Goes l e) (internal_send_stanza x e1) _ (record e1 { output = t }) j
        (_, refl, ground arith))

pub bind_init-Goes :
    (l : Login) (e : Engine)
    → l.state ≡ bind_init
    → is_ready l e ≡ true
    → Goes l e (step_bind_init l e)
unfolding step_bind_init
bind_init-Goes l e s h = feature-Goes qn_bind_bind l e _ (ground arith) (λ bind.
    feature-Goes qn_session_session l e _ (ground arith) (λ session.
      if-rule (Goes l e) (is_some bind && is_some session)
        (λ b. send_bind-Goes l e s (ground arith))
        (λ b. (_, refl, failure-Good error_bind l l e (ground arith)))))

request_session-Goes :
    (full : Jid) (l l' : Login) (e : Engine)
    → l.state ≡ bind_requested
    → is_some l.stanza ≡ true
    → is_some e.sasl_handler ≡ true
    → Goes l e (request_session full l' e)
unfolding request_session take_id
request_session-Goes full l l' e s n h =
    let (iq_id, e1) = take_id e in
    let (t, j) = internal_send-some (session_iq iq_id) e1 in
    >>=-rule (Goes l e) (internal_send_stanza (session_iq iq_id) e1) _ (record e1 { output = t }) j
      (_, refl, ground arith)

pub bind_answer-Goes :
    (l : Login) (e : Engine)
    → l.state ≡ bind_requested
    → is_ready l e ≡ true
    → Goes l e (with_next on_bind_answer l e)
unfolding on_bind_answer
bind_answer-Goes l e s h = next-Goes on_bind_answer l e h (λ x n.
    if-rule (Goes l e) (is_answer l.iq_id x)
      (λ a.
        if-rule (Goes l e) (is_result x)
          (λ b.
            elim-rule (Goes l e) (bound_element x)
              (λ c. (_, refl, failure-Good error_bind l _ e (ground arith)))
              (λ c d.
                if-rule (Goes l e) (is_full (parse (text_named qn_bind_jid c)))
                  (λ f.
                    request_session-Goes _ l (record l { stanza = none }) e s (ground arith)
                      (ground arith))
                  (λ f. (_, refl, failure-Good error_bind l _ e (ground arith)))))
          (λ b. (_, refl, failure-Good error_bind l _ e (ground arith))))
      (λ a. (_, refl, ground arith)))

pub session_answer-Goes :
    (l : Login) (e : Engine)
    → l.state ≡ session_requested
    → is_ready l e ≡ true
    → Goes l e (with_next on_session_answer l e)
unfolding on_session_answer signal_bound
session_answer-Goes l e s h = next-Goes on_session_answer l e h (λ x n.
    if-rule (Goes l e) (is_answer l.iq_id x)
      (λ a.
        if-rule (Goes l e) (is_result x)
          (λ b.
            let (t, k) = flush_queued-some l.queued (signal_bound l.full_jid e) in
            >>=-rule (Goes l e) (flush_queued_stanzas l.queued (signal_bound l.full_jid e)) _ _ k
              (_, refl, ground arith))
          (λ b. (_, refl, failure-Good error_bind l _ e (ground arith))))
      (λ a. (_, refl, ground arith)))
