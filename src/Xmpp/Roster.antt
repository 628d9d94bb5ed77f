-- ===== src/Xmpp/Roster.antt =====
-- `XmppRosterModuleImpl` of talk/xmpp/rostermoduleimpl.cc: the presences and the contacts that it
-- keeps. The presences are objects that two containers share: `presences` holds them by address. A
-- map of JIDs is a list of its entries. Calls of the handler are entries of a list. Its requests to
-- the engine are in Xmpp.RosterRequests.
pub mod Searches
pub mod Latest
pub mod Presences
pub mod Contacts
pub mod Items
pub mod Push
use gxmpp.Prelude.{
  ℕ, zero, suc, Bool, true, false, not, ◌&&◌, ◌||◌, Option, none, some, List, [], ◌∷◌, ◌++◌,
  if◌then◌else◌, ◌>>=◌, length, get_elem?, set, Bytes, codes, equal, is_empty,
}
use gxmpp.Jid.{Jid, parse, is_valid, bare_jid, eq_jid}
use gxmpp.Xml.QName.{eq_qname}
use gxmpp.Xml.Element.{Element, name, children, attr, first_named, all_named}
use gxmpp.Xmpp.Names.{qn_from, qn_type}
use gxmpp.Xmpp.RosterNames.{qn_roster_query, qn_roster_item, qn_jid, qn_subscription}
use gxmpp.Xmpp.State.{ReturnStatus, return_ok, return_badargument}
use gxmpp.Xmpp.Presence
use gxmpp.Xmpp.Presence.{Presence, new_presence, set_raw_xml}
use gxmpp.Xmpp.Contact
use gxmpp.Xmpp.Contact.{Contact, new_contact, set_xml_from_wire}

pub data RequestType : Type 0 where
  request_subscribe : RequestType
  request_unsubscribe : RequestType
  request_subscribed : RequestType
  request_unsubscribed : RequestType

-- `StringToSubscriptionRequestType`; `none` where it returns false.
unfoldable pub string_to_request_type : Bytes → Option RequestType
string_to_request_type t =
    if equal t (codes "subscribe")
    then some request_subscribe
    else if equal t (codes "unsubscribe")
    then some request_unsubscribe
    else if equal t (codes "subscribed")
    then some request_subscribed
    else if equal t (codes "unsubscribed")
    then some request_unsubscribed
    else none

-- The calls of the roster handler. A presence is its address, `none` where it is null.
pub data Call : Type 0 where
  subscription_request : Jid → RequestType → Element → Call
  subscription_error : Jid → Element → Call
  roster_error : Element → Call
  incoming_presence_changed : Option ℕ → Call
  contact_changed : Contact → ℕ → Call
  contacts_added : ℕ → ℕ → Call
  contact_removed : Contact → ℕ → Call

pub record Bucket : Type 0 where
  pub bare : Jid
  pub addresses : List ℕ

pub record Roster : Type 0 where
  pub has_handler : Bool
  pub outgoing_presence : Presence
  pub presences : List Presence
  pub incoming_presence_vector : List ℕ
  pub incoming_presence_map : List Bucket
  pub contacts : List Contact
  pub calls : List Call

-- `XmppRosterModuleImpl()`
abbrev pub new_roster : Roster
new_roster = record {
  has_handler = false;
  outgoing_presence = new_presence;
  presences = [];
  incoming_presence_vector = [];
  incoming_presence_map = [];
  contacts = [];
  calls = [];
}

unfoldable pub set_roster_handler : Bool → Roster → ReturnStatus × Roster
set_roster_handler handler r = (return_ok, record r { has_handler = handler })

-- A call of the handler, where there is one.
abbrev pub notify : Call → Roster → Roster
notify f r = if r.has_handler then record r { calls = r.calls ++ f ∷ [] } else r

-- `incoming_presence_map_->find`
unfoldable pub find_bucket : Jid → List Bucket → Option (List ℕ)
find_bucket j [] = none
find_bucket j (b ∷ rest) = if eq_jid b.bare j then some b.addresses else find_bucket j rest

-- The entry of the map gets these addresses, or a new one does.
unfoldable pub put_bucket : Jid → List ℕ → List Bucket → List Bucket
put_bucket j ads [] = record { bare = j; addresses = ads } ∷ []
put_bucket j ads (b ∷ rest) =
    if eq_jid b.bare j then record b { addresses = ads } ∷ rest else b ∷ put_bucket j ads rest

abbrev pub or_empty : Option (List ℕ) → List ℕ
or_empty none = []
or_empty (some ads) = ads

-- `PresencePredicate(jid)`, on the presence at an address.
unfoldable pub is_from : Jid → List Presence → ℕ → Bool
is_from j ps a = elim (get_elem? ps a) [ none ↦ false | some p ↦ eq_jid (Presence.jid p) j ]

-- `std::find_if` with it.
unfoldable pub find_presence : Jid → List Presence → List ℕ → Option ℕ
unfolding is_from
find_presence j ps [] = none
find_presence j ps (a ∷ ads) = if is_from j ps a then some a else find_presence j ps ads

-- A new presence for the bucket; the engine's stanza may not be a presence.
unfoldable pub add_presence : Jid → List ℕ → Element → Roster → Roster
unfolding put_bucket
add_presence bare ads x r =
    let (status, p) = set_raw_xml (some x) new_presence in
    let fresh = length r.presences in
    let kept = record r { incoming_presence_map = put_bucket bare ads r.incoming_presence_map } in
    elim status [
      | return_ok ↦ notify (incoming_presence_changed (some fresh)) (record r {
        presences = r.presences ++ p ∷ [];
        incoming_presence_map = put_bucket bare (ads ++ fresh ∷ []) r.incoming_presence_map;
        incoming_presence_vector = r.incoming_presence_vector ++ fresh ∷ [];
      })
      | _ ↦ notify (incoming_presence_changed none) kept
    ]

-- The presence at an address gets the stanza.
unfoldable pub update_presence : ℕ → Element → Roster → Roster
update_presence a x r = elim (get_elem? r.presences a) [
  | none ↦ r
  | some p ↦
      notify (incoming_presence_changed (some a))
        (record r { presences = set r.presences a (set_raw_xml (some x) p).1 })
]

unfoldable pub internal_incoming_presence : Jid → Element → Roster → Roster
unfolding find_bucket find_presence add_presence update_presence
internal_incoming_presence j x r =
    let bare = bare_jid j in
    let ads = or_empty (find_bucket bare r.incoming_presence_map) in
    elim (find_presence j r.presences ads) [
      | none ↦ add_presence bare ads x r
      | some a ↦ update_presence a x r
    ]

unfoldable pub get_incoming_presence : ℕ → Roster → Option Presence
get_incoming_presence i r = do a ← get_elem? r.incoming_presence_vector i; get_elem? r.presences a

unfoldable pub get_incoming_presence_for_jid_count : Jid → Roster → ℕ
get_incoming_presence_for_jid_count j r = length (or_empty (find_bucket j r.incoming_presence_map))

unfoldable pub get_incoming_presence_for_jid : Jid → ℕ → Roster → Option Presence
get_incoming_presence_for_jid j i r = do
  ads ← find_bucket j r.incoming_presence_map
  a ← get_elem? ads i
  get_elem? r.presences a

-- `RosterPredicate(jid)`; the contacts of the module have an element.
unfoldable pub has_jid : Jid → Contact → Bool
has_jid j c = elim (Contact.jid c) [ none ↦ false | some k ↦ eq_jid k j ]

-- `std::find_if` with it: the place.
unfoldable pub find_place : Jid → List Contact → Option ℕ
find_place j [] = none
find_place j (c ∷ cs) =
    let later = find_place j cs in
    if has_jid j c then some 0 else elim later [ none ↦ none | some i ↦ some (suc i) ]

unfoldable pub find_roster_contact : Jid → List Contact → Option Contact
unfolding find_place
find_roster_contact j cs = elim (find_place j cs) [ none ↦ none | some i ↦ get_elem? cs i ]

-- `erase`
unfoldable pub erase_at : ℕ → List Contact → List Contact
erase_at i [] = []
erase_at zero (c ∷ cs) = cs
erase_at (suc i) (c ∷ cs) = c ∷ erase_at i cs

abbrev pub from_wire : Element → Contact
from_wire x = set_xml_from_wire (some x) new_contact

abbrev pub is_remove : Element → Bool
is_remove item = equal (attr qn_subscription item) (codes "remove")

-- The body of the loop for a contact that is there.
unfoldable pub change_contact : ℕ → Contact → Element → Roster → Roster
unfolding erase_at
change_contact i old item r =
    if is_remove item
    then notify (contact_removed old i) (record r { contacts = erase_at i r.contacts })
    else notify (contact_changed old i) (record r { contacts = set r.contacts i (from_wire item) })

-- The body of the loop for any other.
unfoldable pub add_contact : Bool → Element → Roster → Roster
add_contact all_new item r =
    let added = record r { contacts = r.contacts ++ from_wire item ∷ [] } in
    if all_new then added else notify (contacts_added (length r.contacts) 1) added

unfoldable pub apply_item : Bool → Element → Roster → Roster
apply_item all_new item r =
    let j = parse (attr qn_jid item) in
    let place = if all_new then none else find_place j r.contacts in
    if not (is_valid j) then r else elim place [
      | none ↦ add_contact all_new item r
      | some i ↦ elim (get_elem? r.contacts i) [ none ↦ r | some old ↦ change_contact i old item r ]
    ]

-- The loop over the items.
unfoldable pub apply_items : Bool → List Element → Roster → Roster
unfolding apply_item
apply_items all_new [] r = r
apply_items all_new (item ∷ rest) r = apply_items all_new rest (apply_item all_new item r)

abbrev pub no_contacts : List Contact → Bool
no_contacts [] = true
no_contacts (c ∷ cs) = false

unfoldable pub internal_roster_items : Element → Roster → Roster
unfolding apply_items
internal_roster_items stanza r = elim (first_named qn_roster_query stanza) [
  | none ↦ r
  | some query ↦
      let all_new = no_contacts r.contacts in
      let done = apply_items all_new (all_named qn_roster_item (children query)) r in
      if all_new then notify (contacts_added 0 (length done.contacts)) done else done
]
