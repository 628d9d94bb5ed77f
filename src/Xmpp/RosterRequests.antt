-- ===== src/Xmpp/RosterRequests.antt =====
-- What `XmppRosterModuleImpl` of talk/xmpp/rostermoduleimpl.cc asks of the engine, and the stanzas
-- that the engine hands to it. The engine is `none` where the module is not registered. A step
-- that would follow a null pointer is `none`.
use gxmpp.Prelude.{
  ℕ, Bool, true, false, not, ◌&&◌, ◌||◌, Option, none, some, if◌then◌else◌, ◌>>=◌, Bytes, codes,
  equal, is_empty,
}
use gxmpp.Jid.{Jid, parse, str, is_valid}
use gxmpp.Xml.QName.{eq_qname}
use gxmpp.Xml.Element.{
  Element, name, attr, has_attr, first_named, new_element, new_with_ns, set_attr, add_attr,
  add_element, at_depth,
}
use gxmpp.Xml.NsStack.{qn_xmlns}
use gxmpp.Xmpp.Names.{qn_iq, qn_to, qn_from, qn_type, qn_id}
use gxmpp.Xmpp.RosterNames.{
  qn_presence, qn_roster_query, qn_roster_item, qn_jid, qn_subscription, qn_ask,
}
use gxmpp.Xmpp.State.{ReturnStatus, return_badargument, return_badstate, Engine}
use gxmpp.Xmpp.Output.{take_id}
use gxmpp.Xmpp.Send.{send_stanza}
use gxmpp.Xmpp.Iq.{send_iq}
use gxmpp.Xmpp.Presence.{Presence, skeleton}
use gxmpp.Xmpp.Contact
use gxmpp.Xmpp.Contact.{Contact, item_of}
use gxmpp.Xmpp.Roster.{
  Roster, string_to_request_type, subscription_request, subscription_error, roster_error, notify,
  internal_incoming_presence, internal_roster_items,
}

-- The status, and the engine.
abbrev pub Answer : Type 0
Answer = ReturnStatus × Option Engine

-- A request of a registered module.
abbrev pub with_engine : (Engine → Option (ReturnStatus × Engine)) → Option Engine → Option Answer
with_engine f none = some (return_badstate, none)
with_engine f (some e) = do r ← f e; some (r.0, some r.1)

abbrev pub refuse : ReturnStatus → Option Engine → Option Answer
refuse status e = some (status, e)

-- What the `ASSERT` on the outgoing presence says is not checked in a release build.
-- Reading the element makes the skeleton of the outgoing presence.
unfoldable pub broadcast_presence : Roster → Option Engine → Option (Answer × Roster)
broadcast_presence r e = do
  answer ← with_engine (send_stanza (skeleton r.outgoing_presence)) e
  some (answer, record r { outgoing_presence = some (skeleton r.outgoing_presence) })

abbrev pub is_directed : Element → Bool
is_directed x =
    eq_qname (name x) qn_presence
    && not (has_attr qn_to x)
    && not (has_attr qn_from x)
    && not (
        has_attr qn_type x
        && not (is_empty (attr qn_type x))
        && not (equal (attr qn_type x) (codes "unavailable")))

-- A null presence is `none`.
unfoldable pub send_directed_presence : Option Presence → Jid → Option Engine → Option Answer
send_directed_presence none to e = refuse return_badargument e
send_directed_presence (some p) to none = refuse return_badstate none
send_directed_presence (some p) to (some e) =
    if not (is_directed (skeleton p))
    then refuse return_badargument (some e)
    else with_engine (send_stanza (set_attr qn_to (str to) (skeleton p))) (some e)

-- An iq with the next identifier, and the query in it.
unfoldable pub roster_iq : Bytes → Bytes → Element
roster_iq type id =
    add_element (new_with_ns qn_xmlns qn_roster_query true)
      (add_attr qn_id id (add_attr qn_type type (new_element qn_iq)))

-- `handler` is the address of the module as the handler of the answer.
unfoldable pub request_roster_update : ℕ → Option Engine → Option Answer
unfolding roster_iq
request_roster_update handler e =
    with_engine
      (λ e'.
        let (id, e'') = take_id e' in
        send_iq (some (roster_iq (codes "get") id)) (some handler) e'')
      e

abbrev pub is_change : Element → Bool
is_change x =
    eq_qname (name x) qn_roster_item && not (has_attr qn_subscription x) && not (has_attr qn_ask x)

-- The JID of the contact is read before anything else, so a contact with no element is fatal.
unfoldable pub request_roster_change : Option Contact → ℕ → Option Engine → Option Answer
unfolding roster_iq
request_roster_change none handler e = refuse return_badargument e
request_roster_change (some c) handler e = do
  j ← Contact.jid c
  let send = λ (e' : Engine).
      let (id, e'') = take_id e' in
      (do
        x ← at_depth 1 (add_element (item_of c)) (roster_iq (codes "set") id)
        send_iq (some x) (some handler) e'')
  if not (is_valid j) then refuse return_badargument e else elim e [
    | none ↦ refuse return_badstate none
    | some e' ↦
        if not (is_change (item_of c))
        then refuse return_badargument (some e')
        else with_engine send (some e')
  ]

unfoldable pub request_roster_remove : Jid → ℕ → Option Engine → Option Answer
unfolding roster_iq
request_roster_remove j handler e =
    let send = λ (e' : Engine).
      let (id, e'') = take_id e' in
      (do
        x ← at_depth 1 (add_attr qn_jid (str j)) (roster_iq (codes "set") id)
        y ← at_depth 1 (add_attr qn_subscription (codes "remove")) x
        send_iq (some y) (some handler) e'') in
    if not (is_valid j) then refuse return_badargument e else with_engine send e

-- The presence that `SendSubscriptionRequest` builds.
unfoldable pub subscription_stanza : Jid → Bytes → Element
subscription_stanza j type =
    add_attr qn_type type (add_attr qn_to (str j) (new_element qn_presence))

unfoldable pub send_subscription_request : Jid → Bytes → Option Engine → Option Answer
unfolding subscription_stanza
send_subscription_request j type e =
    if not (is_valid j)
    then refuse return_badargument e
    else with_engine (send_stanza (subscription_stanza j type)) e

unfoldable pub request_subscription : Jid → Option Engine → Option Answer
request_subscription j = send_subscription_request j (codes "subscribe")

unfoldable pub cancel_subscription : Jid → Option Engine → Option Answer
cancel_subscription j = send_subscription_request j (codes "unsubscribe")

unfoldable pub approve_subscriber : Jid → Option Engine → Option Answer
approve_subscriber j = send_subscription_request j (codes "subscribed")

unfoldable pub cancel_subscriber : Jid → Option Engine → Option Answer
cancel_subscriber j = send_subscription_request j (codes "unsubscribed")

-- That any other answer is a result is an `ASSERT` only.
unfoldable pub iq_response : Element → Roster → Roster
iq_response x r =
    if equal (attr qn_type x) (codes "error")
    then notify (roster_error x) r
    else internal_roster_items x r

-- What `HandleStanza` does with a presence: `none` where it does not handle it.
unfoldable pub handle_presence : Jid → Element → Roster → Option Roster
unfolding string_to_request_type
handle_presence j x r =
    let type = attr qn_type x in
    if not (is_valid j) then none else elim (string_to_request_type type) [
      | some request ↦ some (notify (subscription_request j request x) r)
      | none ↦
          if equal type (codes "unavailable") || is_empty type
          then some (internal_incoming_presence j x r)
          else if equal type (codes "error")
          then some (notify (subscription_error j x) r)
          else none
    ]

-- The answer to a roster push.
unfoldable pub push_result : Element → Element
push_result x =
    add_attr qn_id (attr qn_id x)
      (add_attr qn_to (attr qn_from x) (add_attr qn_type (codes "result") (new_element qn_iq)))

-- The stanza is a roster push.
abbrev pub is_push : Element → Bool
is_push x = elim (first_named qn_roster_query x) [
  | none ↦ false
  | some query ↦ equal (attr qn_type x) (codes "set")
]

-- With what `HandleStanza` returns, and the engine that has sent the answer.
unfoldable pub handle_stanza : Element → Roster → Engine → Option (Bool × Roster × Engine)
unfolding handle_presence push_result
handle_stanza x r e =
    if eq_qname (name x) qn_presence
    then elim (handle_presence (parse (attr qn_from x)) x r) [
      | none ↦ some (false, r, e)
      | some r' ↦ some (true, r', e)
    ]
    else if eq_qname (name x) qn_iq && is_push x
    then (do sent ← send_stanza (push_result x) e; some (true, internal_roster_items x r, sent.1))
    else some (false, r, e)
