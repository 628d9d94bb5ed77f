-- ===== src/Xmpp/Roster/Items.antt =====
-- An item of a roster push (talk/xmpp/rostermoduleimpl.cc), and what it does to the contacts.
use gxmpp.Prelude.{
  ℕ, ◌≡◌, refl, ap, sym, ◌∙◌, subst, Bool, true, false, ◌&&◌, inl, inr, Option, none, some,
  if◌then◌else◌, if-rule, get_elem?, set, Bool-cases, Option-cases,
}
use gxmpp.Jid.{Jid, parse, is_valid, eq_jid}
use gxmpp.Jid.Order.{eq_jid_iff}
use gxmpp.Xml.Element.{Element, attr}
use gxmpp.Xmpp.RosterNames.{qn_jid}
use gxmpp.Xmpp.Output.{is_some}
use gxmpp.Xmpp.Contact.{Contact}
use gxmpp.Xmpp.Roster.{
  Roster, Call, contact_removed, contact_changed, find_place, find_roster_contact, erase_at,
  from_wire, is_remove, change_contact, add_contact, apply_item, notify,
}
use gxmpp.Xmpp.Roster.Contacts.{
  IsDistinct, find_place-none, find_place-at, set-find, append-find, erase-find, append-IsDistinct,
  set-IsDistinct, erase-IsDistinct, has_jid-from_wire,
}

pub contacts-notify : (f : Call) (r : Roster) → (notify f r).contacts ≡ r.contacts
contacts-notify f r = elim (Bool-cases r.has_handler) [ inl e ↦ rw e | inr e ↦ rw e ]

-- What an item of a roster push does to the contacts, as a function of their JIDs.
abbrev pub item_step : Element → (Jid → Option Contact) → Jid → Option Contact
item_step item m k =
    let j = parse (attr qn_jid item) in
    if is_valid j && eq_jid j k
    then (if is_remove item && is_some (m k) then none else some (from_wire item))
    else m k

abbrev pub Steps : Element → Roster → Roster → Type 0
Steps item r r' =
    IsDistinct r'.contacts
    × ((k : Jid)
        → find_roster_contact k r'.contacts
          ≡ item_step item (λ j. find_roster_contact j r.contacts) k)

module _ (item : Element) (r : Roster) where
  apply_item-invalid : is_valid (parse (attr qn_jid item)) ≡ false → apply_item false item r ≡ r
  unfolding apply_item
  apply_item-invalid e = rw e

  module _ (e : is_valid (parse (attr qn_jid item)) ≡ true) where
    apply_item-new :
        find_place (parse (attr qn_jid item)) r.contacts ≡ none
        → apply_item false item r ≡ add_contact false item r
    unfolding apply_item
    apply_item-new h = rw (e, h, apply_item)

    apply_item-old :
        (i : ℕ) (c : Contact)
        → find_place (parse (attr qn_jid item)) r.contacts ≡ some i
        → get_elem? r.contacts i ≡ some c
        → apply_item false item r ≡ change_contact i c item r
    unfolding apply_item
    apply_item-old i c h g = rw (e, h, g, apply_item)

-- The cases of a step, on its tests.
abbrev outcome : Bool → Bool → Option Contact → Contact → Option Contact
outcome here remove o new = if here then (if remove && is_some o then none else some new) else o

outcome_add :
    (here remove : Bool) (o : Option Contact) (new : Contact)
    → ((here ≡ true) → o ≡ none)
    → (if here then some new else o) ≡ outcome here remove o new
outcome_add false remove o new h = refl
outcome_add true true o new h = rw (h refl)
outcome_add true false o new h = refl

outcome_change :
    (here remove : Bool) (o : Option Contact) (new : Contact)
    → remove ≡ false
    → (if here then some new else o) ≡ outcome here remove o new
outcome_change here remove o new e = rw e

outcome_remove :
    (here remove : Bool) (o : Option Contact) (old new : Contact)
    → remove ≡ true
    → ((here ≡ true) → o ≡ some old)
    → (if here then none else o) ≡ outcome here remove o new
outcome_remove false remove o old new e h = refl
outcome_remove true remove o old new e h = rw (e, h refl)

module _ (item : Element) (r : Roster) (valid : is_valid (parse (attr qn_jid item)) ≡ true) where
  abbrev owner : Jid
  owner = parse (attr qn_jid item)

  item_step_valid :
      (k : Jid)
      → item_step item (λ j. find_roster_contact j r.contacts) k
        ≡ outcome
            (eq_jid owner k)
            (is_remove item)
            (find_roster_contact k r.contacts)
            (from_wire item)
  item_step_valid k = rw valid

  -- The contact of the owner is that of any JID that equals it.
  same_contact :
      (k : Jid) {o : Option Contact}
      → find_roster_contact owner r.contacts ≡ o
      → eq_jid owner k ≡ true
      → find_roster_contact k r.contacts ≡ o
  same_contact k {o} h e =
      subst (λ i. find_roster_contact i r.contacts ≡ o) ((eq_jid_iff owner k).0 e) h

  Steps-contacts :
      (f : Call) (r' : Roster)
      → IsDistinct r'.contacts
      → ((k : Jid)
          → find_roster_contact k r'.contacts
            ≡ outcome
                (eq_jid owner k)
                (is_remove item)
                (find_roster_contact k r.contacts)
                (from_wire item))
      → Steps item r (notify f r')
  Steps-contacts f r' d law = (
    subst IsDistinct (sym (contacts-notify f r')) d,
    λ k. ap (find_roster_contact k) (contacts-notify f r') ∙ law k ∙ sym (item_step_valid k),
  )

  add_contact-Steps :
      IsDistinct r.contacts
      → find_place owner r.contacts ≡ none
      → Steps item r (add_contact false item r)
  unfolding add_contact
  add_contact-Steps d h =
      let missing = find_place-none owner r.contacts h in
      Steps-contacts _ _
        (append-IsDistinct owner (from_wire item) (λ k. has_jid-from_wire k item) r.contacts missing
          d)
        (λ k.
          append-find owner (from_wire item) (λ i. has_jid-from_wire i item) k r.contacts missing
          ∙ outcome_add (eq_jid owner k) (is_remove item) _ (from_wire item)
              (same_contact k missing))

  change_contact-Steps :
      (i : ℕ) (c : Contact)
      → IsDistinct r.contacts
      → find_place owner r.contacts ≡ some i
      → find_roster_contact owner r.contacts ≡ some c
      → Steps item r (change_contact i c item r)
  unfolding change_contact
  change_contact-Steps i c d h found =
      if-rule (Steps item r) (is_remove item)
        (λ e.
          Steps-contacts (contact_removed c i) (record r { contacts = erase_at i r.contacts })
            (erase-IsDistinct owner r.contacts i h d)
            (λ k.
              erase-find owner k r.contacts i d h
              ∙ outcome_remove (eq_jid owner k) (is_remove item) _ c (from_wire item) e
                  (same_contact k found)))
        (λ e.
          Steps-contacts (contact_changed c i)
            (record r { contacts = set r.contacts i (from_wire item) })
            (set-IsDistinct owner (from_wire item) (λ k. has_jid-from_wire k item) r.contacts i h d)
            (λ k.
              set-find owner (from_wire item) (λ l. has_jid-from_wire l item) k r.contacts i h
              ∙ outcome_change (eq_jid owner k) (is_remove item) _ (from_wire item) e))

pub apply_item-Steps :
    (item : Element) (r : Roster) → IsDistinct r.contacts → Steps item r (apply_item false item r)
apply_item-Steps item r d = elim (Bool-cases (is_valid (parse (attr qn_jid item)))) [
  | inr e ↦ subst (Steps item r) (sym (apply_item-invalid item r e)) (d, λ k. rw e)
  | inl e ↦ elim (Option-cases (find_place (parse (attr qn_jid item)) r.contacts)) [
    | inl miss ↦
        subst (Steps item r) (sym (apply_item-new item r e miss))
          (add_contact-Steps item r e d miss)
    | inr (i, hit) ↦
        let (c, at, found) = find_place-at (parse (attr qn_jid item)) r.contacts i hit in
        subst (Steps item r) (sym (apply_item-old item r e i c hit at))
          (change_contact-Steps item r e i c d hit found)
  ]
]
