-- ===== src/Xmpp/Presence.antt =====
-- `XmppPresenceImpl` of talk/xmpp/rostermoduleimpl.cc. The state is `raw_xml_`, `none` where it is
-- null. A setter gives its status and the presence.
pub mod Texts
pub mod Setters
use gxmpp.Prelude.{
  Bool, true, false, not, ◌||◌, ◌&&◌, Option, none, some, List, [], ◌∷◌, if◌then◌else◌, ◌>>=◌, ltb,
  Bytes, codes, equal, is_empty,
}
use gxmpp.Prelude.Int.{ℤ, pos, negsuc, to_string, from_string}
use gxmpp.Jid
use gxmpp.Jid.{Jid, parse}
use gxmpp.Xml.QName.{QName, eq_qname}
use gxmpp.Xml.Element.{
  Element, name, children, attr, has_attr, new_element, set_attr, clear_attr, first_named,
  all_named, text_named, body_text, add_text, add_element, at_depth, clear_named_children,
}
use gxmpp.Xmpp.Names.{qn_from, qn_type}
use gxmpp.Xmpp.RosterNames.{
  qn_presence, qn_show, qn_status, qn_priority, qn_xml_lang, str_show_away, str_show_chat,
  str_show_dnd, str_show_xa, qn_google_pstn_conference_status, qn_attr_status,
  str_pstn_conference_status_connecting, str_pstn_conference_status_connected,
  str_pstn_conference_status_hangup, qn_google_user_id, qn_muc_user_x, qn_muc_user_item,
  qn_nickname,
}
use gxmpp.Xmpp.State.{ReturnStatus, return_ok, return_badargument}

pub data Show : Type 0 where
  show_chat : Show
  show_default : Show
  show_away : Show
  show_xa : Show
  show_dnd : Show

pub data Available : Type 0 where
  is_unavailable : Available
  is_available : Available
  is_error : Available

pub data ConnectionStatus : Type 0 where
  status_unknown : ConnectionStatus
  status_connecting : ConnectionStatus
  status_connected : ConnectionStatus
  status_hangup : ConnectionStatus

-- `StringToPresenceShow`; `none` where it returns false.
unfoldable pub string_to_show : Bytes → Option Show
unfolding str_show_away str_show_dnd str_show_xa str_show_chat
string_to_show input =
    if equal str_show_away input
    then some show_away
    else if equal str_show_dnd input
    then some show_dnd
    else if equal str_show_xa input
    then some show_xa
    else if equal str_show_chat input
    then some show_chat
    else if is_empty input
    then some show_default
    else none

-- `PresenceShowToString`, which succeeds on every value of the enumeration.
unfoldable pub show_to_string : Show → Bytes
unfolding str_show_away str_show_dnd str_show_xa str_show_chat
show_to_string show_away = str_show_away
show_to_string show_chat = str_show_chat
show_to_string show_xa = str_show_xa
show_to_string show_dnd = str_show_dnd
show_to_string show_default = []

abbrev pub Presence : Type 0
Presence = Option Element

-- `XmppPresenceImpl()`
abbrev pub new_presence : Presence
new_presence = none

-- `CreateRawXmlSkeleton`, where the pointer is null.
abbrev pub skeleton : Presence → Element
skeleton none = new_element qn_presence
skeleton (some x) = x

unfoldable pub jid : Presence → Jid
jid none = Jid.empty
jid (some x) = parse (attr qn_from x)

unfoldable pub available : Presence → Available
available none = is_unavailable
available (some x) =
    if equal (attr qn_type x) (codes "unavailable")
    then is_unavailable
    else if equal (attr qn_type x) (codes "error")
    then is_error
    else is_available

unfoldable pub set_available : Available → Presence → ReturnStatus × Presence
set_available is_available p = (return_ok, some (clear_attr qn_type (skeleton p)))
set_available is_unavailable p =
    (return_ok, some (set_attr qn_type (codes "unavailable") (skeleton p)))
set_available is_error p = (return_ok, some (set_attr qn_type (codes "error") (skeleton p)))

unfoldable pub show_of : Bytes → Show
unfolding string_to_show
show_of t = elim (string_to_show t) [ none ↦ show_default | some s ↦ s ]

unfoldable pub presence_show : Presence → Show
unfolding show_of
presence_show none = show_default
presence_show (some x) = show_of (text_named qn_show x)

-- `AddElement(new XmlElement(name))`, and `AddText(text, 1)`, which goes into that element; `none`
-- is a null pointer.
unfoldable pub add_named_text : QName → Bytes → Element → Option Element
unfolding at_depth add_text add_element
add_named_text q t x = at_depth 1 (add_text t) (add_element (new_element q) x)

abbrev pub is_default : Show → Bool
is_default show_default = true
is_default _ = false

unfoldable pub set_presence_show : Show → Presence → Option (ReturnStatus × Presence)
unfolding show_to_string add_named_text clear_named_children
set_presence_show show p =
    let cleared = clear_named_children qn_show (skeleton p) in
    if not (is_default show)
    then (do x ← add_named_text qn_show (show_to_string show) cleared; some (return_ok, some x))
    else some (return_ok, some cleared)

-- The range of a priority.
unfoldable pub clip : ℤ → ℤ
clip (pos n) = if ltb 127 n then pos 127 else pos n
clip (negsuc n) = if ltb 127 n then negsuc 127 else negsuc n

unfoldable pub priority_of : Bytes → ℤ
unfolding clip from_string
priority_of t = elim (from_string t) [ none ↦ pos 0 | some n ↦ clip n ]

unfoldable pub priority : Presence → ℤ
unfolding priority_of
priority none = pos 0
priority (some x) = priority_of (text_named qn_priority x)

abbrev pub is_priority : ℤ → Bool
is_priority (pos n) = not (ltb 127 n)
is_priority (negsuc n) = not (ltb 127 n)

abbrev pub is_zero : ℤ → Bool
is_zero (pos n) = not (ltb 0 n)
is_zero (negsuc n) = false

-- The skeleton is there before the check of the argument.
unfoldable pub set_priority : ℤ → Presence → Option (ReturnStatus × Presence)
unfolding add_named_text clear_named_children to_string
set_priority n p =
    let cleared = clear_named_children qn_priority (skeleton p) in
    if not (is_priority n)
    then some (return_badargument, some (skeleton p))
    else if not (is_zero n)
    then (do x ← add_named_text qn_priority (to_string n) cleared; some (return_ok, some x))
    else some (return_ok, some cleared)

-- The loop over the status elements: the first with no `xml:lang`.
unfoldable pub no_language : List Element → Option Element
no_language [] = none
no_language (x ∷ rest) = if has_attr qn_xml_lang x then no_language rest else some x

unfoldable pub status_of : List Element → Bytes
unfolding no_language
status_of [] = []
status_of (x ∷ rest) = elim (no_language (x ∷ rest)) [ none ↦ body_text x | some y ↦ body_text y ]

unfoldable pub status : Presence → Bytes
unfolding status_of
status none = []
status (some x) = status_of (all_named qn_status (children x))

unfoldable pub set_status : Bytes → Presence → Option (ReturnStatus × Presence)
unfolding add_named_text clear_named_children
set_status t p =
    let cleared = clear_named_children qn_status (skeleton p) in
    if not (is_empty t)
    then (do x ← add_named_text qn_status t cleared; some (return_ok, some x))
    else some (return_ok, some cleared)

unfoldable pub connection_of : Bytes → ConnectionStatus
unfolding str_pstn_conference_status_connecting str_pstn_conference_status_connected
    str_pstn_conference_status_hangup
connection_of t =
    if equal t str_pstn_conference_status_connecting
    then status_connecting
    else if equal t str_pstn_conference_status_connected
    then status_connected
    else if equal t str_pstn_conference_status_hangup
    then status_hangup
    else status_connected

unfoldable pub connection_status : Presence → ConnectionStatus
unfolding connection_of
connection_status none = status_unknown
connection_status (some x) = elim (first_named qn_google_pstn_conference_status x) [
  | none ↦ status_connected
  | some con ↦ connection_of (attr qn_attr_status con)
]

unfoldable pub google_user_id : Presence → Bytes
google_user_id none = []
google_user_id (some x) = elim (first_named qn_muc_user_x x) [
  | none ↦ []
  | some user ↦ elim (first_named qn_muc_user_item user) [
    | none ↦ []
    | some item ↦ attr qn_google_user_id item
  ]
]

unfoldable pub nickname : Presence → Bytes
nickname none = []
nickname (some x) = text_named qn_nickname x

-- `raw_xml`, which makes the skeleton where there is none.
unfoldable pub raw_xml : Presence → Element × Presence
raw_xml p = (skeleton p, some (skeleton p))

-- `set_raw_xml`; a null pointer is `none`.
unfoldable pub set_raw_xml : Option Element → Presence → ReturnStatus × Presence
set_raw_xml none p = (return_badargument, p)
set_raw_xml (some x) p =
    if not (eq_qname (name x) qn_presence) then (return_badargument, p) else (return_ok, some x)
