-- ===== src/Xmpp/Login/Ready.antt =====
-- What a round of `Advance` in talk/xmpp/xmpplogintask.cc needs and keeps: the pointers that a state
-- follows, the rounds that are left, and the encryption of the connection.
use gxmpp.Prelude.{
  ℕ, ◌≤◌, ◌<◌, ◌≡◌, refl, ◌∙◌, inl, inr, Bool, true, false, not, ◌&&◌, ◌||◌, Option, none, some,
  List, [], ◌∷◌, ◌++◌, arith, Option-cases, ◌>>=◌, Bytes,
}
use gxmpp.Prelude.{elim-rule, >>=-rule}
use gxmpp.Xml.QName.{QName}
use gxmpp.Xml.Element.{Element, first_named}
use gxmpp.Xml.Printer.Balance.{print_xml-balanced}
use gxmpp.Xmpp.State.{
  Error, state_open, state_closed, state_number, eq_state, LoginState, init, streamstart_sent,
  started_xmpp, tls_init, auth_init, bind_init, tls_requested, sasl_running, bind_requested, done,
  Login, Engine,
}
use gxmpp.Xmpp.Output.{is_some, has_error, internal_send_start, internal_send_stanza, signal_error}
use gxmpp.Xmpp.Login.{
  Outcome, again, returns, failure, get_feature, flush_queued_stanzas, step_init, is_tls_required,
  with_next,
}

-- The pointers that a state follows are not null.
abbrev pub has_pointers : LoginState → Bool → Bool → Bool
has_pointers tls_init features mech = features
has_pointers auth_init features mech = features
has_pointers bind_init features mech = features
has_pointers sasl_running features mech = mech
has_pointers _ features mech = true

abbrev pub is_ready : Login → Engine → Bool
is_ready l e =
    is_some e.sasl_handler && has_pointers l.state (is_some l.features) (is_some l.sasl_mech)

-- The states before the authentication.
abbrev pub is_before_auth : LoginState → Bool
is_before_auth init = true
is_before_auth streamstart_sent = true
is_before_auth started_xmpp = true
is_before_auth tls_init = true
is_before_auth tls_requested = true
is_before_auth _ = false

-- The connection is encrypted, gone, or still to be encrypted.
abbrev pub is_secure : Engine → Bool
is_secure e = e.encrypted || not (is_some e.output_handler) || eq_state e.state state_closed

abbrev pub is_guarded : Login → Engine → Bool
is_guarded l e =
    is_secure e || (is_tls_required e.tls_option && l.auth_needed && is_before_auth l.state)

-- How many rounds are left, with and without a stanza.
abbrev pub rounds_in : LoginState → Bool → ℕ
rounds_in init waiting = 2
rounds_in started_xmpp true = 3
rounds_in tls_requested true = 3
rounds_in sasl_running true = 3
rounds_in bind_requested true = 2
rounds_in tls_init true = 4
rounds_in tls_init false = 2
rounds_in auth_init true = 4
rounds_in auth_init false = 2
rounds_in bind_init true = 3
rounds_in bind_init false = 2
rounds_in _ waiting = 1

abbrev pub rounds : Login → ℕ
rounds l = rounds_in l.state (is_some l.stanza)

-- An error is there only where the session is closed.
abbrev pub is_consistent : Engine → Bool
is_consistent e = not (has_error e) || eq_state e.state state_closed

-- The states go forward, and every bracket is closed again.
abbrev pub Moves : Engine → Engine → Type 0
Moves e e' = (e'.engine_entered ≡ e.engine_entered) × (state_number e.state ≤ state_number e'.state)

-- A session is open only when the login has ended.
abbrev pub is_unbound : LoginState → Engine → Bool
is_unbound done e = true
is_unbound _ e = not (eq_state e.state state_open)

abbrev pub is_sound : Login → Engine → Bool
is_sound l e = is_guarded l e && is_consistent e && is_unbound l.state e

-- What a round keeps, of the task and the engine.
abbrev pub Kept : Login → Engine → Login → Engine → Type 0
Kept l e l' e' =
    (is_ready l' e' ≡ true) × ((is_sound l e ≡ true) → is_sound l' e' ≡ true) × Moves e e'

pub Kept-trans :
    (l : Login) (e : Engine) (l' : Login) (e' : Engine) (l'' : Login) (e'' : Engine)
    → Kept l e l' e'
    → Kept l' e' l'' e''
    → Kept l e l'' e''
Kept-trans l e l' e' l'' e'' h k =
    (k.0, λ s. k.1 (h.1 s), (k.2.0 ∙ h.2.0, omega (arith, h.2.1, k.2.1)))

abbrev pub Good : Login → Engine → Outcome → Type 0
Good l e (again l' e') = (rounds l' < rounds l) × Kept l e l' e'
Good l e (returns b l' e') = Kept l e l' e'

abbrev pub Goes : Login → Engine → Option Outcome → Type 0
Goes l e o = (r : Outcome) × (o ≡ some r) × Good l e r

-- A stanza goes out, and only the output has changed.
pub internal_send-some :
    (x : Element) (e : Engine)
    → (t : Bytes) × (internal_send_stanza x e ≡ some (record e { output = t }))
unfolding internal_send_stanza
internal_send-some x e = let (t, h) = print_xml-balanced x e.xmlns_stack in (e.output ++ t, rw h)

pub flush_queued-some :
    (xs : List Element) (e : Engine)
    → (t : Bytes) × (flush_queued_stanzas xs e ≡ some (record e { output = t }))
unfolding flush_queued_stanzas
flush_queued-some [] e = (e.output, refl)
flush_queued-some (x ∷ xs) e =
    let (t, h) = internal_send-some x e in
    let (u, k) = flush_queued-some xs (record e { output = t }) in (u, rw (h, k))

pub failure-Good :
    (reason : Error) (l l' : Login) (e : Engine)
    → is_some e.sasl_handler ≡ true
    → Good l e (failure reason l' e)
unfolding failure signal_error
failure-Good reason l l' e h = ground arith

pub init-Goes :
    (l : Login) (e : Engine) → l.state ≡ init → is_ready l e ≡ true → Goes l e (step_init l e)
unfolding step_init internal_send_start
init-Goes l e s h = (_, refl, ground arith)

pub next-Goes :
    (body : Element → Login → Engine → Option Outcome) (l : Login) (e : Engine)
    → is_ready l e ≡ true
    → ((x : Element) → (l.stanza ≡ some x) → Goes l e (body x (record l { stanza = none }) e))
    → Goes l e (with_next body l e)
unfolding with_next
next-Goes body l e h k = elim-rule (Goes l e) l.stanza (λ n. (_, refl, ground arith)) (λ x n. k x n)

-- A stanza goes out, and the task goes on.
pub send-Goes :
    (x : Element) (l l' : Login) (e : Engine)
    → ((t : Bytes) → Good l e (again l' (record e { output = t })))
    → Goes l e (internal_send_stanza x e >>= λ e'. some (again l' e'))
send-Goes x l l' e h =
    let (t, k) = internal_send-some x e in
    >>=-rule (Goes l e) (internal_send_stanza x e) _ (record e { output = t }) k (_, refl, h t)

-- `GetFeature` in a state where the features are there.
pub feature-Goes :
    (q : QName) (l : Login) (e : Engine) (body : Option Element → Option Outcome)
    → is_some l.features ≡ true
    → ((found : Option Element) → Goes l e (body found))
    → Goes l e (get_feature q l >>= body)
unfolding get_feature
feature-Goes q l e body h k = elim (Option-cases l.features) [
  | inl n ↦ ground arith
  | inr (f, n) ↦ >>=-rule (Goes l e) (get_feature q l) body (first_named q f) (rw n refl) (k _)
]
