-- ===== src/Xmpp/Contact.antt =====
-- `XmppRosterContactImpl` of talk/xmpp/rostermoduleimpl.cc. A pointer to a group element is the place
-- of that element among the groups, and a step that would follow a null pointer is `none`.
pub mod Groups
use gxmpp.Prelude.{
  ℕ, suc, ◌-◌, Bool, true, false, not, ◌&&◌, ◌||◌, Option, none, some, List, [], ◌∷◌, ◌==◌,
  if◌then◌else◌, ◌>>=◌, ltb, leb, length, get_elem?, Bytes, codes, equal, is_empty,
}
use gxmpp.Prelude.Int.{ℤ, pos, negsuc, suc_int, to_size}
use mathlib.Core.Option
use gxmpp.Jid.{Jid, parse, str, is_valid}
use gxmpp.Xml.QName.{eq_qname}
use gxmpp.Xml.Element.{
  Element, elem, Children, nil, text, child, name, children, attr, has_attr, new_element, set_attr,
  clear_attr, all_named, body_text, named, at_depth, add_text, add_element,
}
use gxmpp.Xmpp.RosterNames.{
  qn_roster_item, qn_roster_group, qn_name, qn_jid, qn_subscription, qn_ask,
}
use gxmpp.Xmpp.State.{ReturnStatus, return_ok, return_badargument}
use gxmpp.Xmpp.Presence.{add_named_text}

pub data SubscriptionState : Type 0 where
  subscription_none : SubscriptionState
  subscription_none_asked : SubscriptionState
  subscription_to : SubscriptionState
  subscription_from : SubscriptionState
  subscription_from_asked : SubscriptionState
  subscription_both : SubscriptionState

-- `StringToSubscriptionState`; `none` where it returns false.
unfoldable pub string_to_subscription_state : Bytes → Bytes → Option SubscriptionState
string_to_subscription_state subscription ask =
    if equal ask (codes "subscribe")
    then (if equal subscription (codes "none")
        then some subscription_none_asked
        else if equal subscription (codes "from")
        then some subscription_from_asked
        else none)
    else if is_empty ask
    then (if equal subscription (codes "none")
        then some subscription_none
        else if equal subscription (codes "from")
        then some subscription_from
        else if equal subscription (codes "to")
        then some subscription_to
        else if equal subscription (codes "both")
        then some subscription_both
        else none)
    else none

pub record Contact : Type 0 where
  pub group_count : ℤ
  pub group_index_returned : ℤ
  pub group_returned : Option ℕ
  pub raw_xml : Option Element

abbrev pub reset_group_cache : Contact → Contact
reset_group_cache c = record c {
  group_count = negsuc 0;
  group_index_returned = negsuc 0;
  group_returned = none;
}

-- `XmppRosterContactImpl()`
abbrev pub new_contact : Contact
new_contact = record {
  group_count = negsuc 0;
  group_index_returned = negsuc 0;
  group_returned = none;
  raw_xml = none;
}

unfoldable pub set_xml_from_wire : Option Element → Contact → Contact
set_xml_from_wire x c = record (reset_group_cache c) { raw_xml = x }

-- `CreateRawXmlSkeleton`, where the pointer is null.
abbrev pub item_of : Contact → Element
item_of c = elim c.raw_xml [ none ↦ new_element qn_roster_item | some x ↦ x ]

abbrev pub with_item : Element → Contact → Contact
with_item x c = record c { raw_xml = some x }

unfoldable pub jid : Contact → Option Jid
jid c = Option.map (λ x. parse (attr qn_jid x)) c.raw_xml

-- The skeleton is made before the check of the argument.
unfoldable pub set_jid : Jid → Contact → ReturnStatus × Contact
set_jid j c =
    if not (is_valid j)
    then (return_badargument, with_item (item_of c) c)
    else (return_ok, with_item (set_attr qn_jid (str j) (item_of c)) c)

unfoldable pub contact_name : Contact → Option Bytes
contact_name c = Option.map (attr qn_name) c.raw_xml

unfoldable pub set_name : Bytes → Contact → ReturnStatus × Contact
set_name t c =
    if is_empty t
    then (return_ok, with_item (clear_attr qn_name (item_of c)) c)
    else (return_ok, with_item (set_attr qn_name t (item_of c)) c)

unfoldable pub subscription_state : Contact → SubscriptionState
unfolding string_to_subscription_state
subscription_state c = elim c.raw_xml [
  | none ↦ subscription_none
  | some x ↦ elim (string_to_subscription_state (attr qn_subscription x) (attr qn_ask x)) [
    | none ↦ subscription_none
    | some s ↦ s
  ]
]

abbrev pub groups : Element → List Element
groups x = all_named qn_roster_group (children x)

abbrev pub is_unknown : ℤ → Bool
is_unknown (pos n) = false
is_unknown (negsuc n) = n == 0

-- `GetGroupCount`, which keeps the count; that there is a group is an `ASSERT` only.
unfoldable pub get_group_count : Contact → ℕ × Contact
get_group_count c = elim c.raw_xml [
  | none ↦ (0, c)
  | some x ↦
      let count = if is_unknown c.group_count then pos (length (groups x)) else c.group_count in
      (to_size count, record c { group_count = count })
]

-- `>= 0`
abbrev pub is_counted : ℤ → Bool
is_counted (pos n) = true
is_counted (negsuc n) = false

abbrev pub is_index : ℤ → ℕ → Bool
is_index (pos n) index = n == index
is_index (negsuc n) index = false

-- The part of `GetGroup` that moves the cache: to the next group after the one that was returned
-- last, to that one, or to the one that is counted from the first.
unfoldable pub seek_group : ℕ → Contact → Contact
seek_group index c =
    if is_counted c.group_index_returned && is_index (suc_int c.group_index_returned) index
    then record c {
      group_returned = Option.map suc c.group_returned;
      group_index_returned = suc_int c.group_index_returned;
    }
    else if is_index c.group_index_returned index
    then c
    else record c { group_returned = some index; group_index_returned = pos index }

-- `group_returned_->BodyText()`
unfoldable pub read_group : Contact → Option (Bytes × Contact)
read_group c = do
  place ← c.group_returned
  x ← c.raw_xml
  group ← get_elem? (groups x) place
  some (body_text group, c)

unfoldable pub get_group : ℕ → Contact → Option (Bytes × Contact)
unfolding get_group_count seek_group read_group
get_group index c =
    let (count, counted) = get_group_count c in
    if leb count index then some ([], counted) else read_group (seek_group index counted)

-- `FindGroup`: the children without the group, where there is one.
unfoldable pub take_group : Bytes → Children → Option Children
take_group g nil = none
take_group g (text t rest) = Option.map (text t) (take_group g rest)
take_group g (child x rest) =
    let later = Option.map (child x) (take_group g rest) in
    if eq_qname (name x) qn_roster_group && equal (body_text x) g then some rest else later

abbrev pub has_group : Bytes → Element → Bool
has_group g x = elim (take_group g (children x)) [ none ↦ false | some rest ↦ true ]

unfoldable pub add_group : Bytes → Contact → Option (ReturnStatus × Contact)
unfolding take_group add_named_text
add_group g c =
    let found = with_item (item_of c) c in
    if is_empty g
    then some (return_badargument, c)
    else if has_group g (item_of c)
    then some (return_ok, found)
    else (do
      x ← add_named_text qn_roster_group g (item_of c)
      some (return_ok, record (with_item x c) { group_count = suc_int c.group_count }))

abbrev set_children : Children → Element → Element
set_children cs (elem n attrs old cdata) = elem n attrs cs cdata

unfoldable pub remove_group : Bytes → Contact → ReturnStatus × Contact
unfolding take_group
remove_group g c = if is_empty g then (return_badargument, c) else elim c.raw_xml [
  | none ↦ (return_ok, c)
  | some x ↦ elim (take_group g (children x)) [
    | none ↦ (return_ok, c)
    | some rest ↦ (return_ok, reset_group_cache (with_item (set_children rest x) c))
  ]
]

-- `set_raw_xml`; a null pointer is `none`.
unfoldable pub set_raw_xml : Option Element → Contact → ReturnStatus × Contact
set_raw_xml none c = (return_badargument, c)
set_raw_xml (some x) c =
    if not (eq_qname (name x) qn_roster_item) || has_attr qn_subscription x || has_attr qn_ask x
    then (return_badargument, c)
    else (return_ok, with_item x (reset_group_cache c))
