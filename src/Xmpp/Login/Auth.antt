-- ===== src/Xmpp/Login/Auth.antt =====
-- The rounds of talk/xmpp/xmpplogintask.cc up to the authentication.
use gxmpp.Prelude.{
  ◌≡◌, refl, inl, inr, Bool, true, none, some, arith, Option-cases, Bytes, equal, is_empty,
}
use gxmpp.Prelude.{if-rule, elim-rule, >>=-rule}
use gxmpp.Xml.QName.{eq_qname}
use gxmpp.Xml.NsStack.{qn_xmlns}
use gxmpp.Xml.Element.{Element, name, new_with_ns}
use gxmpp.Xmpp.Names.{
  ns_sasl, qn_stream_features, qn_tls_starttls, qn_sasl_mechanisms, qn_sasl_challenge,
  qn_sasl_success,
}
use gxmpp.Xmpp.State.{
  error_version, error_unauthorized, error_tls, error_auth, streamstart_sent, started_xmpp,
  tls_init, auth_init, tls_requested, sasl_running, SaslMechanism, SaslHandler, Login, Engine,
}
use gxmpp.Xmpp.Output.{is_some, signal_error, start_tls}
use gxmpp.Xmpp.Login.{
  failure, get_feature, choose_next, on_stream_start, on_features, step_tls_init, on_tls_answer,
  start_mechanism, try_mechanism, step_auth_init, on_challenge, on_sasl_answer, with_next,
}
use gxmpp.Xmpp.LoginStanzas.{decorate_auth}
use gxmpp.Xmpp.Login.Ready.{is_ready, Good, Goes, failure-Good, next-Goes, send-Goes, feature-Goes}

pub start-Goes :
    (l : Login) (e : Engine)
    → l.state ≡ streamstart_sent
    → is_ready l e ≡ true
    → Goes l e (with_next on_stream_start l e)
unfolding on_stream_start failure signal_error
start-Goes l e s h = next-Goes on_stream_start l e h (λ x n. (_, refl, ground arith))

pub choose_next-Good :
    (tls_present : Bool) (l l' : Login) (e : Engine)
    → l.state ≡ started_xmpp
    → is_some l.stanza ≡ true
    → l'.stanza ≡ none
    → l'.state ≡ started_xmpp
    → l'.auth_needed ≡ l.auth_needed
    → is_some e.sasl_handler ≡ true
    → is_some l'.features ≡ true
    → Good l e (choose_next tls_present l' e)
unfolding choose_next failure signal_error
choose_next-Good tls_present l l' e s w n s' a h f = ground arith

pub features-Goes :
    (l : Login) (e : Engine)
    → l.state ≡ started_xmpp
    → is_ready l e ≡ true
    → Goes l e (with_next on_features l e)
unfolding on_features get_feature
features-Goes l e s h = next-Goes on_features l e h (λ x n.
    if-rule (Goes l e) (eq_qname (name x) qn_stream_features)
      (λ b. (
        _,
        refl,
        choose_next-Good _ l (record l { stanza = none; features = some x }) e s (ground arith) refl
            s refl (ground arith) refl,
      ))
      (λ b. (_, refl, failure-Good error_version l _ e (ground arith))))

pub tls_init-Goes :
    (l : Login) (e : Engine)
    → l.state ≡ tls_init
    → is_ready l e ≡ true
    → Goes l e (step_tls_init l e)
unfolding step_tls_init
tls_init-Goes l e s h = feature-Goes qn_tls_starttls l e _ (ground arith) (λ found.
    if-rule (Goes l e) (is_some found)
      (λ b.
        send-Goes (new_with_ns qn_xmlns qn_tls_starttls true) l (record l { state = tls_requested })
          e (λ t. ground arith))
      (λ b. (_, refl, failure-Good error_tls l l e (ground arith))))

pub tls_answer-Goes :
    (l : Login) (e : Engine)
    → l.state ≡ tls_requested
    → is_ready l e ≡ true
    → Goes l e (with_next on_tls_answer l e)
unfolding on_tls_answer failure signal_error start_tls
tls_answer-Goes l e s h = next-Goes on_tls_answer l e h (λ x n. (_, refl, ground arith))

pub start_mechanism-Goes :
    (m : SaslMechanism) (l l' : Login) (e : Engine)
    → l.state ≡ auth_init
    → l'.stanza ≡ l.stanza
    → l'.sasl_mech ≡ some m
    → is_some e.sasl_handler ≡ true
    → Goes l e (start_mechanism m l' e)
unfolding start_mechanism
start_mechanism-Goes m l l' e s w k h =
    elim-rule (Goes l e) m.start_sasl_auth (λ n. (_, refl, failure-Good error_auth l l' e h))
      (λ auth n.
        send-Goes (decorate_auth l'.allow_non_google_login auth) l
          (record l' { state = sasl_running }) e (λ t. ground arith))

pub try_mechanism-Goes :
    (choice : Bytes) (handler : SaslHandler) (l : Login) (e : Engine)
    → l.state ≡ auth_init
    → is_some e.sasl_handler ≡ true
    → Goes l e (try_mechanism choice handler l e)
unfolding try_mechanism
try_mechanism-Goes choice handler l e s h =
    if-rule (Goes l e) (is_empty choice) (λ b. (_, refl, failure-Good error_auth l l e h))
      (λ b.
        elim-rule (Goes l e) (handler.create_sasl_mechanism choice)
          (λ n. (_, refl, failure-Good error_auth l _ e h))
          (λ m n. start_mechanism-Goes m l (record l { sasl_mech = some m }) e s refl refl h))

pub auth_init-Goes :
    (l : Login) (e : Engine)
    → l.state ≡ auth_init
    → is_ready l e ≡ true
    → Goes l e (step_auth_init l e)
unfolding step_auth_init
auth_init-Goes l e s h = feature-Goes qn_sasl_mechanisms l e _ (ground arith) (λ found.
    elim-rule (Goes l e) found (λ n. (_, refl, failure-Good error_auth l l e (ground arith)))
      (λ x n. elim (Option-cases e.sasl_handler) [
        | inl a ↦ ground arith
        | inr (handler, a) ↦
            >>=-rule (Goes l e) e.sasl_handler _ handler a
              (try_mechanism-Goes _ handler l e s (ground arith))
      ]))

pub challenge-Goes :
    (x : Element) (m : SaslMechanism) (l l' : Login) (e : Engine)
    → l.state ≡ sasl_running
    → is_some l.stanza ≡ true
    → l'.stanza ≡ none
    → l'.sasl_mech ≡ some m
    → is_some e.sasl_handler ≡ true
    → Goes l e (on_challenge x m l' e)
unfolding on_challenge
challenge-Goes x m l l' e s w n k h =
    elim-rule (Goes l e) (m.handle_sasl_challenge x)
      (λ a. (_, refl, failure-Good error_auth l l' e h))
      (λ response a.
        send-Goes response l (record l' { state = sasl_running }) e (λ t. ground arith))

pub sasl_answer-Goes :
    (l : Login) (e : Engine)
    → l.state ≡ sasl_running
    → is_ready l e ≡ true
    → Goes l e (with_next on_sasl_answer l e)
unfolding on_sasl_answer
sasl_answer-Goes l e s h = next-Goes on_sasl_answer l e h (λ x n.
    if-rule (Goes l e) (equal (name x).ns ns_sasl)
      (λ b.
        if-rule (Goes l e) (eq_qname (name x) qn_sasl_challenge)
          (λ c. elim (Option-cases l.sasl_mech) [
            | inl a ↦ ground arith
            | inr (m, a) ↦ >>=-rule (Goes l e) l.sasl_mech _ m a (
                challenge-Goes x m l (record l { stanza = none }) e s (ground arith) refl a
                  (ground arith))
          ])
          (λ c.
            if-rule (Goes l e) (eq_qname (name x) qn_sasl_success) (λ d. (_, refl, ground arith))
              (λ d. (_, refl, failure-Good error_unauthorized l _ e (ground arith)))))
      (λ b. (_, refl, failure-Good error_auth l _ e (ground arith))))
