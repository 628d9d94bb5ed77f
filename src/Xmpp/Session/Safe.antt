-- ===== src/Xmpp/Session/Safe.antt =====
-- What every call on the engine keeps (talk/xmpp/xmppengineimpl.cc), and the bracket `EnterExit`.
use gxmpp.Prelude.{
  ◌-◌, ◌≤◌, ◌≡◌, refl, ◌∙◌, Bool, true, false, not, ◌&&◌, ◌||◌, Option, none, some, [], arith, ◌==◌,
  is_empty,
}
use gxmpp.Prelude.{if-rule}
use gxmpp.Xmpp.State.{
  ReturnStatus, return_ok, State, state_open, state_closed, state_number, eq_state, Login, Engine,
}
use gxmpp.Xmpp.Output.{is_some, enter, flush, notify, reset_if_raised, leave_from, bracket}
use gxmpp.Xmpp.Login.{is_tls_required}
use gxmpp.Xmpp.Login.Ready.{has_pointers, is_before_auth, is_secure, is_consistent, Moves}
use gxmpp.Xmpp.Send.{Result, finish}

-- There is a SASL handler, the login has the pointers that it follows, an error has closed the
-- session, and without a login under way the connection is encrypted or gone.
abbrev pub is_login_safe : Option Login → Bool → Bool → Bool → Bool
is_login_safe none secure required is_open = secure
is_login_safe (some l) secure required is_open =
    has_pointers l.state (is_some l.features) (is_some l.sasl_mech)
    && (secure || (required && l.auth_needed && is_before_auth l.state))
    && not is_open

abbrev pub is_safe : Engine → Bool
is_safe e =
    is_some e.sasl_handler
    && is_consistent e
    && is_login_safe e.login_task (is_secure e) (is_tls_required e.tls_option)
        (eq_state e.state state_open)

-- Between two calls no bracket is open, no reset is due and all output is with its handler.
abbrev pub is_idle : Engine → Bool
is_idle e =
    e.engine_entered == 0
    && not e.raised_reset
    && (is_empty e.output || not (is_some e.output_handler))

abbrev pub Lives : Engine → Option Engine → Type 0
Lives e o = (e' : Engine) × (o ≡ some e') × (is_safe e' ≡ true) × Moves e e'

-- A call returns, and keeps all that.
abbrev pub Answers : Engine → Option Result → Type 0
Answers e o =
    (r : Result) × (o ≡ some r)
    × (is_safe r.1 ≡ true)
    × Moves e r.1
    × ((is_idle e ≡ true) → is_idle r.1 ≡ true)

flush-Laws :
    (closing : Bool) (e : Engine)
    → (closing ≡ true → eq_state e.state state_closed ≡ true)
    → is_safe e ≡ true
    → (is_safe (flush closing e) ≡ true)
      × Moves e (flush closing e)
      × ((flush closing e).output ≡ [])
unfolding flush
flush-Laws closing e c h = ground arith

-- The rest of the bracket leaves all of the state that matters here, and no reset.
abbrev Same : Engine → Engine → Type 0
Same e e' =
    (is_safe e' ≡ is_safe e)
    × Moves e e'
    × (e'.output ≡ e.output)
    × (e'.output_handler ≡ e.output_handler)
    × (e'.raised_reset ≡ false)

reset-Same : (e : Engine) → Same e (reset_if_raised e)
unfolding reset_if_raised
reset-Same e =
    if-rule (Same e) e.raised_reset (λ h. (refl, (refl, omega arith), refl, refl, refl))
      (λ h. (refl, (refl, omega arith), refl, refl, h))

notify-Same : (old : State) (e : Engine) → Same e (notify old e)
unfolding notify
notify-Same old e =
    let fresh = reset_if_raised e in
    if-rule (Same e) (is_some fresh.session_handler && not (eq_state fresh.state old))
      (λ h. reset-Same e) (λ h. reset-Same e)

abbrev Left : Engine → Engine → Type 0
Left e e' =
    (is_safe e' ≡ true)
    × ((e'.engine_entered ≡ e.engine_entered - 1) × (state_number e.state ≤ state_number e'.state))
    × ((e.engine_entered ≡ 1) → is_idle e' ≡ true)

leave_from-Left : (old : State) (e : Engine) → is_safe e ≡ true → Left e (leave_from old e)
unfolding leave_from
leave_from-Left old entered h =
    let e : Engine = record entered { engine_entered = entered.engine_entered - 1 } in
    let closing = not (eq_state e.state old) && eq_state e.state state_closed in
    let outermost = e.engine_entered == 0 in
    if-rule (Left entered) outermost
      (λ o.
        if-rule (λ f. Left entered (notify old f))
          (is_some e.output_handler && (closing || outermost))
          (λ f.
            let (s, m, t) = flush-Laws closing e (ground arith) h in
            let (s', m', t', u, r) = notify-Same old (flush closing e) in
            (s' ∙ s, (m'.0 ∙ m.0, omega (arith, m.1, m'.1)), λ k. ground arith))
          (λ f. let (s', m', t', u, r) = notify-Same old e in (s' ∙ h, m', λ k. ground arith)))
      (λ o.
        if-rule (Left entered) (is_some e.output_handler && (closing || outermost))
          (λ f. let (s, m, t) = flush-Laws closing e (ground arith) h in (s, m, λ k. ground arith))
          (λ f. (h, (refl, omega arith), λ k. ground arith)))

pub bracket-Answers :
    (body : Engine → Option Engine) (e : Engine)
    → Lives (enter e) (body (enter e))
    → Answers e (finish (bracket body e))
unfolding enter
bracket-Answers body e (e1, k, h, m) =
    let (s, n, i) = leave_from-Left e.state e1 h in
    (
      (return_ok, leave_from e.state e1),
      rw k refl,
      s,
      (omega (arith, n.0, m.0), omega (arith, n.1, m.1)),
      λ idle. i (ground (arith, m.0)),
    )

-- A call that a guard refuses, or that only changes what does not matter here.
pub at_once-Answers :
    (status : ReturnStatus) (e e' : Engine)
    → is_safe e' ≡ true
    → Moves e e'
    → ((is_idle e ≡ true) → is_idle e' ≡ true)
    → Answers e (some (status, e'))
at_once-Answers status e e' h m i = ((status, e'), refl, h, m, i)

pub refused : (status : ReturnStatus) (e : Engine) → is_safe e ≡ true → Answers e (some (status, e))
refused status e h = at_once-Answers status e e h (refl, omega arith) (λ i. i)
