-- ===== src/Xmpp/Session/Closed.antt =====
-- What the engine of talk/xmpp/xmppengineimpl.cc still does when its session is closed.
use gxmpp.Prelude.{ℕ, ◌≡◌, refl, ◌∙◌, Bool, Option, some, List, [], ◌∷◌, arith, if◌then◌else◌}
use gxmpp.Prelude.{if-rule, elim-rule}
use gxmpp.Xml.Element.{Element}
use gxmpp.Xmpp.State.{ReturnStatus, return_ok, return_badstate, state_closed, eq_state, Engine}
use gxmpp.Xmpp.Output.{take_id}
use gxmpp.Xmpp.Send.{Result, send_stanza, send_raw, send_stanza_error}
use gxmpp.Xmpp.Iq.{send_iq, remove_iq_handler, erase_entry}
use gxmpp.Xmpp.Engine.{
  connect, disconnect, connection_closed, handle_input, add_stanza_handler, remove_stanza_handler,
  set_language, set_output_handler, set_session_handler, set_sasl_handler, set_user,
  set_requested_resource, set_tls, set_tls_server,
}
use gxmpp.Xmpp.Session.{
  Operation, do_connect, do_input, do_closed, do_disconnect, do_send, do_raw, do_iq, do_remove_iq,
  do_error, do_add, do_remove, do_language, do_output_handler, do_session_handler, do_tls,
  do_tls_server, do_user, do_sasl_handler, do_requested_resource, do_next_id, perform, run,
}

-- The session, its error and all that was written or called stay.
abbrev pub Final : Engine → Engine → Type 0
Final e e' =
    (e'.state ≡ e.state)
    × (e'.error_code ≡ e.error_code)
    × (e'.subcode ≡ e.subcode)
    × (e'.stream_error ≡ e.stream_error)
    × (e'.output ≡ e.output)
    × (e'.effects ≡ e.effects)

abbrev Stays : Engine → Option Result → Type 0
Stays e o = (r : Result) × (o ≡ some r) × Final e r.1

Final-self : (e : Engine) → Final e e
Final-self e = (refl, refl, refl, refl, refl, refl)

-- A guard on the closed state.
guarded-Stays :
    (status : ReturnStatus) (rest : Option Result) (e : Engine)
    → e.state ≡ state_closed
    → Stays e (if eq_state e.state state_closed then some (status, e) else rest)
guarded-Stays status rest e c =
    if-rule (Stays e) (eq_state e.state state_closed) (λ y. ((status, e), refl, Final-self e))
      (λ n. ground arith)

perform-Stays :
    (handles : ℕ → Element → Bool) (op : Operation) (e : Engine)
    → e.state ≡ state_closed
    → Stays e (perform handles op e)
unfolding perform connect handle_input connection_closed disconnect send_stanza send_raw send_iq
    remove_iq_handler send_stanza_error add_stanza_handler remove_stanza_handler set_language
    set_output_handler set_session_handler set_tls set_tls_server set_user set_sasl_handler
    set_requested_resource take_id
perform-Stays handles do_connect e c = ((return_badstate, e), ground arith, Final-self e)
perform-Stays handles (do_input evs) e c = ((return_badstate, e), ground arith, Final-self e)
perform-Stays handles (do_closed code) e c = guarded-Stays return_ok _ e c
perform-Stays handles do_disconnect e c = guarded-Stays return_ok _ e c
perform-Stays handles (do_send x) e c = guarded-Stays return_badstate _ e c
perform-Stays handles (do_raw t) e c = ((return_badstate, e), ground arith, Final-self e)
perform-Stays handles (do_iq x g) e c = guarded-Stays return_badstate _ e c
perform-Stays handles (do_remove_iq i) e c =
    elim-rule {B = ReturnStatus × Option ℕ × Engine} (λ r. Stays e (some (r.0, r.2)))
      (erase_entry i e.iq_entries) (λ n. (_, refl, Final-self e))
      (λ found n. (_, refl, Final-self e))
perform-Stays handles (do_error x code message) e c = guarded-Stays return_badstate _ e c
perform-Stays handles (do_add g level) e c = ((return_badstate, e), ground arith, Final-self e)
perform-Stays handles (do_remove g) e c = (_, refl, Final-self e)
perform-Stays handles (do_language l) e c = (_, refl, Final-self e)
perform-Stays handles (do_output_handler h) e c = ((return_badstate, e), ground arith, Final-self e)
perform-Stays handles (do_session_handler h) e c =
    ((return_badstate, e), ground arith, Final-self e)
perform-Stays handles (do_tls option) e c = ((return_badstate, e), ground arith, Final-self e)
perform-Stays handles (do_tls_server hostname domain) e c =
    ((return_badstate, e), ground arith, Final-self e)
perform-Stays handles (do_user j) e c = ((return_badstate, e), ground arith, Final-self e)
perform-Stays handles (do_sasl_handler h) e c = ((return_badstate, e), ground arith, Final-self e)
perform-Stays handles (do_requested_resource r) e c =
    ((return_badstate, e), ground arith, Final-self e)
perform-Stays handles do_next_id e c = (_, refl, Final-self e)

-- When the session is closed, no sequence of calls changes its state or its error, writes
-- anything or calls a handler, and every call returns.
pub run-Final :
    (handles : ℕ → Element → Bool) (ops : List Operation) (e : Engine)
    → e.state ≡ state_closed
    → (e' : Engine) × (run handles ops e ≡ some e') × Final e e'
unfolding run
run-Final handles [] e c = (e, refl, Final-self e)
run-Final handles (op ∷ ops) e c =
    let (r, k, f) = perform-Stays handles op e c in
    let (e', k', f') = run-Final handles ops r.1 (f.0 ∙ c) in
    (e', rw k k', (f'.0 ∙ f.0, f'.1 ∙ f.1, f'.2 ∙ f.2, f'.3 ∙ f.3, f'.4 ∙ f.4, f'.5 ∙ f.5))
