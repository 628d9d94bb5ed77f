-- ===== src/Tests/RosterTests.antt =====
-- Presences, contacts and the roster module (talk/xmpp/rostermoduleimpl.cc).
use gxmpp.Prelude.{
  ◌≡◌, ◌+◌, ◌++◌, refl, false, some, List, [], ◌∷◌, inl, map, codes, Bytes, if◌then◌else◌, length,
  equal, compare_bytes,
}
use gxmpp.Prelude.Int.{pos, negsuc}
use gxmpp.Jid
use gxmpp.Jid.{Jid}
use gxmpp.Xml.QName.{eq_qname}
use gxmpp.Xml.Element.{
  Element, elem, Children, nil, child, children, all_named, first_of_children, first_named,
  only_text,
}
use gxmpp.Xml.Element.Replace.{leaf}
use gxmpp.Xmpp.Names.{qn_iq, qn_from, qn_type}
use gxmpp.Xmpp.RosterNames.{
  qn_presence, qn_jid, qn_subscription, qn_roster_query, qn_roster_item, qn_roster_group, ns_roster,
}
use gxmpp.Xmpp.State.{return_ok}
use gxmpp.Xmpp.Presence
use gxmpp.Xmpp.Presence.{
  Presence, new_presence, show_default, show_away, presence_show, priority, status,
  set_presence_show, set_priority, set_status,
}
use gxmpp.Xmpp.Presence.Texts.{Reads}
use gxmpp.Xmpp.Presence.Setters.{Sets, setters-Sets}
use gxmpp.Xmpp.Contact.{
  Contact, get_group, get_group_count, add_group, groups, is_unknown, has_group, take_group,
  set_xml_from_wire,
}
use gxmpp.Xmpp.Contact.Groups.{IsCached, group_text, get_group-IsCached, add_group-count}
use gxmpp.Xmpp.Roster.{Roster, new_roster, from_wire, internal_roster_items, find_roster_contact}
use gxmpp.Xmpp.Roster.Latest.{latest}
use gxmpp.Xmpp.Roster.Presences.{receive, last_from, receive-latest}
use gxmpp.Xmpp.Roster.Contacts.{IsDistinct}
use gxmpp.Xmpp.Roster.Push.{
  known, items_step, valid_items, internal_roster_items-known, internal_roster_items-first,
}

fresh_presence : Reads new_presence show_default (pos 0) [] Jid.empty
unfolding presence_show priority status Presence.jid
fresh_presence = record { show = refl; priority = refl; status = refl; jid = refl }

setters-Sets_example :
    Sets new_presence (set_presence_show show_away new_presence) show_away (pos 0) [] Jid.empty
    × Sets new_presence (set_priority (negsuc 4) new_presence) show_default (negsuc 4) [] Jid.empty
    × Sets new_presence
        (set_status (codes "out") new_presence)
        show_default
        (pos 0)
        (codes "out")
        Jid.empty
setters-Sets_example =
    setters-Sets {p = new_presence} {s = show_default} {n = pos 0} {t = []} {j = Jid.empty}
      fresh_presence show_away (negsuc 4) (codes "out") refl

abbrev presence_from : Bytes → Element
presence_from from = elem qn_presence (record { name = qn_from; value = from } ∷ []) nil false

abbrev two_presences : List Element
two_presences =
    presence_from (codes "ann@example.org/home") ∷ presence_from (codes "bob@example.org/work") ∷ []

abbrev ann : Jid
ann = record { node = codes "ann"; domain = codes "example.org"; resource = codes "home" }

receive-latest_example :
    latest ann (receive two_presences new_roster)
    ≡ last_from ann two_presences (latest ann new_roster)
receive-latest_example = receive-latest ann two_presences new_roster tt (refl, (refl, tt))

abbrev grouped : Element
grouped =
    elem qn_roster_item []
      (child (leaf qn_roster_group (codes "work"))
        (child (leaf qn_roster_group (codes "chess")) nil))
      false

wire-IsCached : IsCached (from_wire grouped) grouped
unfolding set_xml_from_wire
wire-IsCached = record { xml = refl; count = inl refl; place = inl refl }

get_group-IsCached_example :
    (c' : Contact) × (get_group 1 (from_wire grouped) ≡ some (group_text (groups grouped) 1, c'))
    × IsCached c' grouped
get_group-IsCached_example = get_group-IsCached 1 (from_wire grouped) grouped wire-IsCached

new_group : has_group (codes "golf") grouped ≡ false
unfolding equal eq_qname compare_bytes qn_roster_group take_group ns_roster only_text
new_group = refl

add_group-count_example :
    (c' : Contact) × (y : Element) × (add_group (codes "golf") (from_wire grouped)
      ≡ some (return_ok, c'))
    × (c'.raw_xml ≡ some y)
    × (groups y ≡ groups grouped ++ leaf qn_roster_group (codes "golf") ∷ [])
    × ((get_group_count c').0
        ≡ (if is_unknown (from_wire grouped).group_count then 0 else length (groups grouped) + 1))
add_group-count_example =
    add_group-count (codes "golf") (from_wire grouped) grouped wire-IsCached refl new_group

abbrev item : Bytes → Bytes → Element
item jid subscription =
    elem qn_roster_item
      (record { name = qn_jid; value = jid }
        ∷ record { name = qn_subscription; value = subscription }
        ∷ [])
      nil false

abbrev query : Children → Element
query cs = elem qn_roster_query [] cs false

abbrev push : Element → Element
push q = elem qn_iq (record { name = qn_type; value = codes "set" } ∷ []) (child q nil) false

abbrev first_query : Element
first_query = query (
    child (item (codes "ann@example.org") (codes "both"))
      (child (item (codes "bob@example.org") (codes "to")) nil))

abbrev second_query : Element
second_query = query (
    child (item (codes "ann@example.org") (codes "remove"))
      (child (item (codes "cat@example.org") (codes "none")) nil))

found_first : first_named qn_roster_query (push first_query) ≡ some first_query
unfolding first_of_children eq_qname compare_bytes qn_roster_query ns_roster
found_first = refl

found_second : first_named qn_roster_query (push second_query) ≡ some second_query
unfolding first_of_children eq_qname compare_bytes qn_roster_query ns_roster
found_second = refl

internal_roster_items-first_example :
    (internal_roster_items (push first_query) new_roster).contacts
    ≡ map from_wire (valid_items (all_named qn_roster_item (children first_query)))
internal_roster_items-first_example =
    internal_roster_items-first (push first_query) first_query new_roster found_first refl

-- A roster with one contact.
abbrev small_roster : Roster
small_roster = record new_roster {
  contacts = from_wire (item (codes "ann@example.org") (codes "both")) ∷ [];
}

small-IsDistinct : IsDistinct small_roster.contacts
unfolding find_roster_contact
small-IsDistinct = (λ j h. refl, tt)

internal_roster_items-known_example :
    IsDistinct (internal_roster_items (push second_query) small_roster).contacts
    × (known (internal_roster_items (push second_query) small_roster)
        ≡ items_step (all_named qn_roster_item (children second_query)) (known small_roster))
internal_roster_items-known_example =
    internal_roster_items-known (push second_query) second_query small_roster found_second refl
      small-IsDistinct
