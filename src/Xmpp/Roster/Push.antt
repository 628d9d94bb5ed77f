-- ===== src/Xmpp/Roster/Push.antt =====
-- The items of a roster push (talk/xmpp/rostermoduleimpl.cc), one after the other.
use gxmpp.Prelude.{
  ◌≡◌, refl, ap, sym, ◌∙◌, Bool, true, false, inl, inr, Option, some, List, [], ◌∷◌, ◌++◌,
  if◌then◌else◌, map, append-nil, append_assoc, Bool-cases,
}
use gxmpp.Jid.{Jid, parse, is_valid}
use gxmpp.Xml.Element.{Element, attr, children, first_named, all_named}
use gxmpp.Xmpp.RosterNames.{qn_jid, qn_roster_query, qn_roster_item}
use gxmpp.Xmpp.Contact.{Contact}
use gxmpp.Xmpp.Roster.{
  Roster, find_roster_contact, from_wire, add_contact, apply_item, apply_items, no_contacts,
  internal_roster_items,
}
use gxmpp.Xmpp.Roster.Contacts.{IsDistinct}
use gxmpp.Xmpp.Roster.Items.{contacts-notify, item_step, apply_item-Steps}

-- The items of a push, one after the other.
abbrev pub items_step : List Element → (Jid → Option Contact) → Jid → Option Contact
items_step [] m = m
items_step (item ∷ rest) m = items_step rest (item_step item m)

abbrev pub known : Roster → Jid → Option Contact
known r k = find_roster_contact k r.contacts

pub apply_items-items_step :
    (items : List Element) (r : Roster)
    → IsDistinct r.contacts
    → IsDistinct (apply_items false items r).contacts
      × (known (apply_items false items r) ≡ items_step items (known r))
unfolding apply_items
apply_items-items_step [] r d = (d, refl)
apply_items-items_step (item ∷ rest) r d =
    let (d', law) = apply_item-Steps item r d in
    let (d'', law') = apply_items-items_step rest (apply_item false item r) d' in
    (d'', law' ∙ ap (items_step rest) (λ i k. law k i))

-- A roster push to a module that has contacts, no two with one JID, keeps the JIDs distinct, and
-- changes what FindRosterContact finds item by item: an item with a valid JID replaces the
-- contact of that JID, or removes it if its subscription is remove and the contact is there, and
-- no other contact changes.
pub internal_roster_items-known :
    (stanza query : Element) (r : Roster)
    → first_named qn_roster_query stanza ≡ some query
    → no_contacts r.contacts ≡ false
    → IsDistinct r.contacts
    → IsDistinct (internal_roster_items stanza r).contacts
      × (known (internal_roster_items stanza r)
          ≡ items_step (all_named qn_roster_item (children query)) (known r))
unfolding internal_roster_items
internal_roster_items-known stanza query r e some_there d =
    rw (e, some_there, internal_roster_items)
      (apply_items-items_step (all_named qn_roster_item (children query)) r d)

abbrev pub valid_items : List Element → List Element
valid_items [] = []
valid_items (item ∷ rest) =
    if is_valid (parse (attr qn_jid item)) then item ∷ valid_items rest else valid_items rest

apply_item-all_new :
    (item : Element) (r : Roster)
    → apply_item true item r ≡ (
        if is_valid (parse (attr qn_jid item))
        then record r { contacts = r.contacts ++ from_wire item ∷ [] }
        else r)
unfolding apply_item add_contact
apply_item-all_new item r = elim (Bool-cases (is_valid (parse (attr qn_jid item)))) [
  | inl e ↦ rw e
  | inr e ↦ rw e
]

apply_items-all_new :
    (items : List Element) (r : Roster)
    → (apply_items true items r).contacts ≡ r.contacts ++ map from_wire (valid_items items)
unfolding apply_items
apply_items-all_new [] r = sym (append-nil r.contacts)
apply_items-all_new (item ∷ rest) r =
    apply_items-all_new rest (apply_item true item r)
    ∙ ap (λ s. s.contacts ++ map from_wire (valid_items rest)) (apply_item-all_new item r)
    ∙ joined (is_valid (parse (attr qn_jid item)))
  where
    joined :
        (b : Bool)
        → (if b then record r { contacts = r.contacts ++ from_wire item ∷ [] } else r).contacts
            ++ map from_wire (valid_items rest)
          ≡ r.contacts ++ map from_wire (if b then item ∷ valid_items rest else valid_items rest)
    joined true = append_assoc r.contacts (from_wire item ∷ []) (map from_wire (valid_items rest))
    joined false = refl

no_contacts_nil : (cs : List Contact) → no_contacts cs ≡ true → cs ≡ []
no_contacts_nil [] h = refl
no_contacts_nil (c ∷ cs) h = cc

-- A roster push to a module without contacts makes a contact of each of its items with a valid
-- JID, in their order, whatever the subscription of an item is and whether or not its JID was in
-- an item before.
pub internal_roster_items-first :
    (stanza query : Element) (r : Roster)
    → first_named qn_roster_query stanza ≡ some query
    → no_contacts r.contacts ≡ true
    → (internal_roster_items stanza r).contacts
      ≡ map from_wire (valid_items (all_named qn_roster_item (children query)))
unfolding internal_roster_items
internal_roster_items-first stanza query r e none_there =
    rw (e, none_there, internal_roster_items)
      (contacts-notify _ _
        ∙ apply_items-all_new (all_named qn_roster_item (children query)) r
        ∙ ap (λ cs. cs ++ map from_wire (valid_items (all_named qn_roster_item (children query))))
            (no_contacts_nil r.contacts none_there))
