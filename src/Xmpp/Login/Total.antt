-- ===== src/Xmpp/Login/Total.antt =====
-- The loop of `Advance` in talk/xmpp/xmpplogintask.cc.
use gxmpp.Prelude.{ℕ, zero, suc, ◌≤◌, ◌≡◌, refl, Bool, true, false, Option, none, some, arith}
use gxmpp.Prelude.{>>=-rule}
use gxmpp.Xml.Element.{Element}
use gxmpp.Xmpp.State.{
  LoginState, init, streamstart_sent, started_xmpp, tls_init, auth_init, bind_init, tls_requested,
  sasl_running, bind_requested, session_requested, done, Login, Engine,
}
use gxmpp.Xmpp.Login.{Outcome, again, returns, step_in, step, advance, incoming_stanza}
use gxmpp.Xmpp.Login.Ready.{
  is_sound, Moves, Kept-trans, is_ready, rounds, Kept, Good, Goes, init-Goes,
}
use gxmpp.Xmpp.Login.Auth.{
  start-Goes, features-Goes, tls_init-Goes, tls_answer-Goes, auth_init-Goes, sasl_answer-Goes,
}
use gxmpp.Xmpp.Login.Bind.{bind_init-Goes, bind_answer-Goes, session_answer-Goes}

step-Goes :
    (s : LoginState) (l : Login) (e : Engine)
    → l.state ≡ s
    → is_ready l e ≡ true
    → Goes l e (step_in s l e)
unfolding step_in
step-Goes init l e = init-Goes l e
step-Goes streamstart_sent l e = start-Goes l e
step-Goes started_xmpp l e = features-Goes l e
step-Goes tls_init l e = tls_init-Goes l e
step-Goes auth_init l e = auth_init-Goes l e
step-Goes bind_init l e = bind_init-Goes l e
step-Goes tls_requested l e = tls_answer-Goes l e
step-Goes sasl_running l e = sasl_answer-Goes l e
step-Goes bind_requested l e = bind_answer-Goes l e
step-Goes session_requested l e = session_answer-Goes l e
step-Goes done l e = λ s h. (returns false l e, refl, ground arith)

abbrev Ends : Login → Engine → Option (Bool × Login × Engine) → Type 0
Ends l e o = (r : Bool × Login × Engine) × (o ≡ some r) × Kept l e r.1 r.2

-- A round, and the rounds after it.
advance_after-Ends :
    (fuel : ℕ) (l : Login) (e : Engine) (r : Outcome)
    → step l e ≡ some r
    → Good l e r
    → rounds l ≤ suc fuel
    → ((l' : Login) (e' : Engine)
        → rounds l' ≤ fuel
        → is_ready l' e' ≡ true
        → Ends l' e' (advance fuel l' e'))
    → Ends l e (advance (suc fuel) l e)
unfolding advance
advance_after-Ends fuel l e (returns x l' e') k g b ih =
    >>=-rule (Ends l e) (step l e) _ (returns x l' e') k ((x, l', e'), refl, g)
advance_after-Ends fuel l e (again l' e') k g b ih =
    let (r, j, h) = ih l' e' (omega (arith, g.0, b)) g.1.0 in
    >>=-rule (Ends l e) (step l e) _ (again l' e') k (r, j, Kept-trans l e l' e' r.1 r.2 g.1 h)

advance-Ends :
    (fuel : ℕ) (l : Login) (e : Engine)
    → rounds l ≤ fuel
    → is_ready l e ≡ true
    → Ends l e (advance fuel l e)
advance-Ends zero l e b h = ground arith
advance-Ends (suc fuel) l e b h =
    let (r, k, g) = step-Goes l.state l e refl h in
    advance_after-Ends fuel l e r k g b (λ l' e' b' h'. advance-Ends fuel l' e' b' h')

incoming_stanza-Ends :
    (x : Option Element) (start : Bool) (l : Login) (e : Engine)
    → is_ready l e ≡ true
    → (r : Login × Engine) × (incoming_stanza x start l e ≡ some r) × Kept l e r.0 r.1
unfolding incoming_stanza
incoming_stanza-Ends x start l e h =
    let given : Login = record l { stanza = x; is_start = start } in
    let (r, k, g) = advance-Ends 4 given e (ground arith) h in
    ((record r.1 { stanza = none; is_start = false }, r.2), rw k refl, g)

-- If there is a SASL handler and the pointers that the state of the login follows are not null,
-- Advance ends within four rounds on every stanza, follows no null pointer, and leaves these
-- pointers so, and the engine in no earlier state and in the same brackets. If before that the
-- connection is encrypted, without an output handler or closed, or TLS is required and the login
-- stands before the authentication, and if an error is there only in a closed session and the
-- session is open only where the login has ended, then all that is so again.
pub incoming_stanza-Safe :
    (x : Option Element) (start : Bool) (l : Login) (e : Engine)
    → is_ready l e ≡ true
    → (r : Login × Engine) × (incoming_stanza x start l e ≡ some r)
      × (is_ready r.0 r.1 ≡ true)
      × (is_sound l e ≡ true → is_sound r.0 r.1 ≡ true)
      × Moves e r.1
incoming_stanza-Safe x start l e ready =
    let (r, k, g) = incoming_stanza-Ends x start l e ready in (r, k, g.0, g.1, g.2)
