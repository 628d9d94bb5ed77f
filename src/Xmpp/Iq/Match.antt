-- ===== src/Xmpp/Iq/Match.antt =====
-- Requests and their answers in talk/xmpp/xmppengineimpl_iq.cc.
use gxmpp.Prelude.{
  ℕ, ◌-◌, ◌≡◌, refl, ap, ◌∙◌, Bool, true, false, not, ◌&&◌, ◌||◌, Option, none, some, List, [], ◌∷◌,
  ◌++◌, arith, ◌==◌, if◌then◌else◌, All, Bytes, equal_self,
}
use gxmpp.Prelude.{if-rule, elim-rule}
use gxmpp.Xml.Element.{Element, attr}
use gxmpp.Xmpp.Names.{qn_to, qn_from, qn_id}
use gxmpp.Xmpp.State.{
  ReturnStatus, return_ok, return_badargument, State, state_closed, eq_state, IqEntry, iq_response,
  Engine,
}
use gxmpp.Xmpp.Output.{is_some, emit, enter, flush, notify, reset_if_raised, leave_from}
use gxmpp.Xmpp.Login.Ready.{internal_send-some}
use gxmpp.Xmpp.Send.{queue_or_send, send_stanza}
use gxmpp.Xmpp.Iq.{
  is_request, push_entry, send_iq, erase_entry, remove_iq_handler, is_response, answers, take_entry,
  handle_iq_response,
}

-- The entries and the state of the session stay; the call ends with OK.
abbrev KeepsEntries : Engine → Engine → Type 0
KeepsEntries e e' = e'.iq_entries ≡ e.iq_entries

flush-KeepsEntries : (closing : Bool) (e : Engine) → KeepsEntries e (flush closing e)
unfolding flush
flush-KeepsEntries closing e = ground arith

reset-KeepsEntries : (e : Engine) → KeepsEntries e (reset_if_raised e)
unfolding reset_if_raised
reset-KeepsEntries e = if-rule (KeepsEntries e) e.raised_reset (λ y. refl) (λ n. refl)

notify-KeepsEntries : (old : State) (e : Engine) → KeepsEntries e (notify old e)
unfolding notify
notify-KeepsEntries old e =
    let fresh = reset_if_raised e in
    if-rule (KeepsEntries e) (is_some fresh.session_handler && not (eq_state fresh.state old))
      (λ y. reset-KeepsEntries e) (λ n. reset-KeepsEntries e)

leave_from-KeepsEntries : (old : State) (e : Engine) → KeepsEntries e (leave_from old e)
unfolding leave_from
leave_from-KeepsEntries old entered =
    let e : Engine = record entered { engine_entered = entered.engine_entered - 1 } in
    let closing = not (eq_state e.state old) && eq_state e.state state_closed in
    let outermost = e.engine_entered == 0 in
    let flushed : KeepsEntries entered
        (if is_some e.output_handler && (closing || outermost) then flush closing e else e) =
      if-rule (KeepsEntries entered) (is_some e.output_handler && (closing || outermost))
        (λ y. flush-KeepsEntries closing e) (λ n. refl) in
    if-rule (KeepsEntries entered) outermost (λ y. notify-KeepsEntries old _ ∙ flushed)
      (λ n. flushed)

queue_or_send-KeepsEntries :
    (x : Element) (e : Engine) → (e' : Engine) × (queue_or_send x e ≡ some e') × KeepsEntries e e'
unfolding queue_or_send
queue_or_send-KeepsEntries x e =
    elim-rule (λ o. (e' : Engine) × (o ≡ some e') × KeepsEntries e e') e.login_task
      (λ n. let (t, k) = internal_send-some x e in (record e { output = t }, k, refl))
      (λ l n. (_, refl, refl))

send_stanza-KeepsEntries :
    (x : Element) (e : Engine)
    → eq_state e.state state_closed ≡ false
    → (e' : Engine) × (send_stanza x e ≡ some (return_ok, e')) × KeepsEntries e e'
unfolding send_stanza enter
send_stanza-KeepsEntries x e h =
    let (e1, k, s) = queue_or_send-KeepsEntries x (enter e) in
    if-rule (λ o. (e' : Engine) × (o ≡ some (return_ok, e')) × KeepsEntries e e')
      (eq_state e.state state_closed) (λ c. ground (arith, h, c))
      (λ c. (leave_from e.state e1, rw k refl, leave_from-KeepsEntries e.state e1 ∙ s))

take_entry-append :
    (id from : Bytes) (entries : List IqEntry) (entry : IqEntry)
    → All (λ en. answers id from en ≡ false) entries
    → answers id from entry ≡ true
    → take_entry id from (entries ++ entry ∷ []) ≡ some (entry, entries)
unfolding take_entry
take_entry-append id from [] entry h y = rw y refl
take_entry-append id from (en ∷ entries) entry h y =
    rw (h.0, take_entry-append id from entries entry h.1 y) refl

erase_entry-append :
    (c : ℕ) (entries : List IqEntry) (entry : IqEntry)
    → All (λ en. (en.cookie == c) ≡ false) entries
    → (entry.cookie == c) ≡ true
    → erase_entry c (entries ++ entry ∷ []) ≡ some (entry.iq_handler, entries)
unfolding erase_entry
erase_entry-append c [] entry h y = rw y refl
erase_entry-append c (en ∷ entries) entry h y =
    rw (h.0, erase_entry-append c entries entry h.1 y) refl

remove_iq-found :
    (c : ℕ) (e : Engine) (r : ℕ × List IqEntry)
    → erase_entry c e.iq_entries ≡ some r
    → remove_iq_handler c e ≡ (return_ok, some r.0, record e { iq_entries = r.1 })
unfolding remove_iq_handler
remove_iq-found c e r h =
    ap
      (λ o. elim o as (λ o'. ReturnStatus × Option ℕ × Engine) [
        | none ↦ (return_badargument, none, e)
        | some f ↦ (return_ok, some f.0, record e { iq_entries = f.1 })
      ])
      h

-- The entry that `SendIq` pushes.
abbrev pub entry_for : Element → ℕ → Engine → IqEntry
entry_for request handler e = record {
  cookie = e.next_cookie;
  id = attr qn_id request;
  to = attr qn_to request;
  iq_handler = handler;
}

-- In a session that is not closed, SendIq of a request with a handler returns OK, and then a
-- response with the same id and from the address of the request goes to that handler, and
-- RemoveIqHandler gives that handler back for the new cookie; both leave the entries that were
-- there before, if none of these waits for that id and address and none has the new cookie.
pub send_iq-handle_iq_response :
    (request response : Element) (handler : ℕ) (e : Engine)
    → eq_state e.state state_closed ≡ false
    → is_request request ≡ true
    → is_response response ≡ true
    → attr qn_id response ≡ attr qn_id request
    → attr qn_from response ≡ attr qn_to request
    → All (λ en. answers (attr qn_id request) (attr qn_to request) en ≡ false) e.iq_entries
    → All (λ en. (en.cookie == e.next_cookie) ≡ false) e.iq_entries
    → (e' : Engine) × (send_iq (some request) (some handler) e ≡ some (return_ok, e'))
      × (handle_iq_response response e'
          ≡ some (
              emit
                (iq_response (entry_for request handler e) response)
                (record e' { iq_entries = e.iq_entries })))
      × (remove_iq_handler e.next_cookie e'
          ≡ (return_ok, some handler, record e' { iq_entries = e.iq_entries }))
unfolding send_iq push_entry handle_iq_response remove_iq_handler answers
send_iq-handle_iq_response request response handler e open_ is_req is_res same_id same_from other
      fresh =
    let entry = entry_for request handler e in
    let (e', k, s) = send_stanza-KeepsEntries request (push_entry request handler e) open_ in
    (
      e',
      rw (open_, is_req, k) refl,
      rw
          (
            is_res,
            same_id,
            same_from,
            s,
            take_entry-append (attr qn_id request) (attr qn_to request) e.iq_entries entry other
                (ground (arith, equal_self (attr qn_id request), equal_self (attr qn_to request))),
          )
          refl,
      remove_iq-found e.next_cookie e' _ (
          ap (erase_entry e.next_cookie) s
          ∙ erase_entry-append e.next_cookie e.iq_entries entry fresh (ground arith)),
    )
