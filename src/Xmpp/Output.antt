-- ===== src/Xmpp/Output.antt =====
-- What the operations of `XmppEngineImpl` share (talk/xmpp/xmppengineimpl.cc): the writing of the
-- stream, the signals that end or bind a session, and the bracket `EnterExit`. A step that
-- would follow a null pointer is `none`.
use gxmpp.Prelude.{
  ℕ, suc, ◌-◌, Bool, true, false, not, ◌&&◌, ◌||◌, [], ◌∷◌, ◌++◌, Option, none, some, if◌then◌else◌,
  ◌==◌, Bytes, codes, is_empty, ◌>>=◌,
}
use gxmpp.Jid.{Jid}
use gxmpp.Xml.Element.{Element}
use gxmpp.Xml.NsStack.{decimal}
use gxmpp.Xml.Printer.{print_xml}
use gxmpp.Xmpp.State.{
  Error, error_none, error_stream, State, state_opening, state_open, state_closed, eq_state, Effect,
  write_output, start_tls_for, close_connection, on_state_change, reset_parser, Engine,
}

abbrev pub is_some {ℓ} : {A : Type ℓ} → Option A → Bool
is_some none = false
is_some (some x) = true

abbrev pub emit : Effect → Engine → Engine
emit f e = record e { effects = e.effects ++ f ∷ [] }

-- `*output_ << text`
abbrev pub write : Bytes → Engine → Engine
write t e = record e { output = e.output ++ t }

abbrev pub raise_reset : Engine → Engine
raise_reset e = record e { raised_reset = true }

abbrev pub eq_error_none : Error → Bool
eq_error_none error_none = true
eq_error_none _ = false

abbrev pub has_error : Engine → Bool
has_error e = not (eq_error_none e.error_code)

-- `NextId`: the identifier, and the engine.
unfoldable pub take_id : Engine → Bytes × Engine
take_id e = (decimal e.next_id, record e { next_id = suc e.next_id })

unfoldable pub internal_send_start : Bytes → Engine → Engine
internal_send_start to e =
    let hostname = if is_empty e.tls_server_hostname then to else e.tls_server_hostname in
    let lang = if is_empty e.lang then codes "*" else e.lang in
    write
      (codes "<stream:stream to=\""
        ++ (hostname
            ++ (codes "\" xml:lang=\""
                ++ (lang
                    ++ (codes "\" version=\"1.0\" xmlns:stream=\"http://etherx.jabber.org/streams\""
                        ++ codes " xmlns=\"jabber:client\">\r\n")))))
      e

-- That the stanza has no attribute `from` is an `ASSERT` only.
unfoldable pub internal_send_stanza : Element → Engine → Option Engine
internal_send_stanza x e = do
  r ← print_xml x e.xmlns_stack
  some (record e { output = e.output ++ r.0; xmlns_stack = r.1 })

unfoldable pub signal_bound : Jid → Engine → Engine
signal_bound full e =
    if eq_state e.state state_opening then record e { bound_jid = full; state = state_open } else e

unfoldable pub signal_error : Error → ℕ → Engine → Engine
signal_error code sub e =
    if eq_state e.state state_closed
    then e
    else record e { error_code = code; subcode = sub; state = state_closed }

unfoldable pub signal_stream_error : Element → Engine → Engine
signal_stream_error x e =
    if eq_state e.state state_closed
    then e
    else signal_error error_stream 0 (record e { stream_error = some x })

unfoldable pub start_tls : Bytes → Engine → Engine
start_tls domain e =
    if is_some e.output_handler
    then (let name = if is_empty e.tls_server_domain then domain else e.tls_server_domain in
        record (emit (start_tls_for name) e) { encrypted = true })
    else e

-- `EnterExit(engine)`
unfoldable pub enter : Engine → Engine
enter e = record e { engine_entered = suc e.engine_entered }

-- The part of `~EnterExit` on the output handler.
unfoldable pub flush : Bool → Engine → Engine
flush closing e =
    let written = if is_empty e.output then e else emit (write_output e.output) e in
    let cleared = record written { output = [] } in
    if closing then record (emit close_connection cleared) { output_handler = none } else cleared

unfoldable pub reset_if_raised : Engine → Engine
reset_if_raised e =
    if e.raised_reset then record (emit reset_parser e) { raised_reset = false } else e

-- The part of `~EnterExit` for the outermost bracket.
unfoldable pub notify : State → Engine → Engine
unfolding reset_if_raised
notify old e =
    let fresh = reset_if_raised e in
    if is_some fresh.session_handler && not (eq_state fresh.state old)
    then emit (on_state_change fresh.state) fresh
    else fresh

-- `~EnterExit`, given the state that the constructor of the bracket has seen.
unfoldable pub leave_from : State → Engine → Engine
leave_from old entered =
    let e = record entered { engine_entered = entered.engine_entered - 1 } in
    let closing = not (eq_state e.state old) && eq_state e.state state_closed in
    let outermost = e.engine_entered == 0 in
    let flushed =
      if is_some e.output_handler && (closing || outermost) then flush closing e else e in
    if outermost then notify old flushed else flushed

-- An operation between the constructor and the destructor of an `EnterExit`.
abbrev pub bracket : (Engine → Option Engine) → Engine → Option Engine
bracket body e = do e' ← body (enter e); some (leave_from e.state e')
