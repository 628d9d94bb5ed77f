-- ===== src/Xmpp/Contact/Groups.antt =====
-- The groups of a contact and their cache (talk/xmpp/rostermoduleimpl.cc).
use gxmpp.Prelude.{
  ℕ, zero, suc, ◌+◌, ◌<◌, ◌≤◌, ◌≡◌, refl, ap, sym, ◌∙◌, ◌++◌, if◌then◌else◌, false, ◌⊎◌, inl, inr,
  none, some, List, [], ◌∷◌, arith, leb, leb→le, ◌==◌, ==_iff, Bool-cases, length, get_elem?, Bytes,
  is_empty,
}
use gxmpp.Prelude.Int.{pos, negsuc, suc_int}
use gxmpp.Xml.Element.{Element, elem, body_text, add_element}
use gxmpp.Xml.QName.{eq_qname_self}
use gxmpp.Xml.Element.Replace.{leaf, add_leaf, all_named-append_child}
use gxmpp.Xmpp.Presence.{add_named_text}
use gxmpp.Xmpp.RosterNames.{qn_roster_group}
use gxmpp.Xmpp.State.{return_ok}
use gxmpp.Xmpp.Contact.{
  Contact, groups, is_unknown, get_group_count, get_group, seek_group, read_group, add_group,
  has_group,
}

-- What is kept of the groups agrees with the element.
pub record IsCached (c : Contact) (x : Element) : Type 0 where
  pub xml : c.raw_xml ≡ some x
  pub count : (c.group_count ≡ negsuc 0) ⊎ (c.group_count ≡ pos (length (groups x)))
  pub place :
      (c.group_index_returned ≡ negsuc 0)
      ⊎ ((k : ℕ) × (c.group_index_returned ≡ pos k) × (c.group_returned ≡ some k))

-- The text of a group, empty past the last one.
abbrev pub group_text : List Element → ℕ → Bytes
group_text xs i = elim (get_elem? xs i) [ none ↦ [] | some g ↦ body_text g ]

get_elem?-lt {ℓ} :
    {A : Type ℓ} (xs : List A) (i : ℕ) → i < length xs → (a : A) × (get_elem? xs i ≡ some a)
get_elem?-lt [] i h = absurd (omega arith)
get_elem?-lt (x ∷ xs) zero h = (x, refl)
get_elem?-lt (x ∷ xs) (suc i) h = get_elem?-lt xs i (omega (arith, h))

get_elem?-le {ℓ} : {A : Type ℓ} (xs : List A) (i : ℕ) → length xs ≤ i → get_elem? xs i ≡ none
get_elem?-le [] i h = refl
get_elem?-le (x ∷ xs) zero h = absurd (omega arith)
get_elem?-le (x ∷ xs) (suc i) h = get_elem?-le xs i (omega (arith, h))

abbrev counted : Contact → Element → Contact
counted c x = record c { group_count = pos (length (groups x)) }

counted-IsCached : (c : Contact) (x : Element) → IsCached c x → IsCached (counted c x) x
counted-IsCached c x h = record { xml = h.xml; count = inr refl; place = h.place }

get_group_count_eq :
    (c : Contact) (x : Element)
    → IsCached c x
    → get_group_count c ≡ (length (groups x), counted c x)
unfolding get_group_count
get_group_count_eq c x h = elim h.count [ inl e ↦ rw (h.xml, e) | inr e ↦ rw (h.xml, e) ]

-- Where the cache stands after a move to a place.
abbrev At : ℕ → Contact → Element → Type 0
At i c x = IsCached c x × (c.group_returned ≡ some i)

seek_group-At : (i : ℕ) (c : Contact) (x : Element) → IsCached c x → At i (seek_group i c) x
unfolding seek_group
seek_group-At i c x h = elim h.place [
  | inl e ↦ rw e (record { xml = h.xml; count = h.count; place = inr (i, refl, refl) }, refl)
  | inr (k, e, e') ↦ elim (Bool-cases (suc k == i)) [
    | inl next ↦
        let same : suc k ≡ i = (==_iff (suc k) i).0 next in
        rw (e, next, e')
          (record { xml = h.xml; count = h.count; place = inr (suc k, refl, refl) }, ap some same)
    | inr other ↦ elim (Bool-cases (k == i)) [
      | inl here ↦
          let same : k ≡ i = (==_iff k i).0 here in
          rw (e, other, here)
            (record { xml = h.xml; count = h.count; place = inr (k, refl, e') }, e' ∙ ap some same)
      | inr far ↦
          rw (e, other, far)
            (record { xml = h.xml; count = h.count; place = inr (i, refl, refl) }, refl)
    ]
  ]
]

group_text_past : (xs : List Element) (i : ℕ) → length xs ≤ i → group_text xs i ≡ []
group_text_past xs i h = ap (λ o. elim o [ none ↦ [] | some g ↦ body_text g ]) (get_elem?-le xs i h)

read_at {ℓ} :
    {P : Type ℓ} (xs : List Element) (i : ℕ)
    → i < length xs
    → ((g : Element) → get_elem? xs i ≡ some g → P)
    → P
read_at xs i h f = let (g, e) = get_elem?-lt xs i h in f g e

read_group-At :
    (i : ℕ) (c : Contact) (x : Element)
    → i < length (groups x)
    → At i c x
    → read_group c ≡ some (group_text (groups x) i, c)
unfolding read_group
read_group-At i c x h (cached, place) =
    read_at (groups x) i h (λ g e. ground (arith, place, cached.xml, e))

-- Where the cache of a contact agrees with its element, GetGroup gives the text of the group at
-- any index, in any order of calls, and the empty text past the last group, and the cache agrees
-- with the element again.
pub get_group-IsCached :
    (i : ℕ) (c : Contact) (x : Element)
    → IsCached c x
    → (c' : Contact) × (get_group i c ≡ some (group_text (groups x) i, c')) × IsCached c' x
unfolding get_group
get_group-IsCached i c x h =
    let full = counted-IsCached c x h in
    let moved = seek_group-At i (counted c x) x full in
    elim (Bool-cases (leb (length (groups x)) i)) [
      | inl past ↦ (
        counted c x,
        rw (get_group_count_eq c x h, past)
            (ap (λ t. some (t, counted c x))
              (sym (group_text_past (groups x) i (leb→le _ _ past)))),
        full,
      )
      | inr inside ↦ (
        seek_group i (counted c x),
        rw (get_group_count_eq c x h, inside) (read_group-At i _ x (ground arith) moved),
        moved.0,
      )
    ]

groups-add_element :
    (g : Bytes) (x : Element)
    → groups (add_element (leaf qn_roster_group g) x) ≡ groups x ++ leaf qn_roster_group g ∷ []
unfolding add_element
groups-add_element g (elem n attrs cs cdata) =
    all_named-append_child qn_roster_group cs (leaf qn_roster_group g)
    ∙ rw (eq_qname_self qn_roster_group)

-- Where the cache of a contact agrees with its element, AddGroup of a group that it does not
-- have puts the group behind the others; GetGroupCount then gives the number of the groups if
-- they had been counted before, and 0 if they had not.
pub add_group-count :
    (g : Bytes) (c : Contact) (x : Element)
    → IsCached c x
    → is_empty g ≡ false
    → has_group g x ≡ false
    → (c' : Contact) × (y : Element) × (add_group g c ≡ some (return_ok, c'))
      × (c'.raw_xml ≡ some y)
      × (groups y ≡ groups x ++ leaf qn_roster_group g ∷ [])
      × ((get_group_count c').0 ≡ (if is_unknown c.group_count then 0 else length (groups x) + 1))
unfolding add_group add_named_text get_group_count
add_group-count g c x h full new =
    let y = add_element (leaf qn_roster_group g) x in
    let c' : Contact = record c { raw_xml = some y; group_count = suc_int c.group_count } in
    (
      c',
      y,
      rw (h.xml, full, new, add_leaf qn_roster_group g x full),
      refl,
      groups-add_element g x,
      elim h.count [ inl e ↦ rw e | inr e ↦ rw e (omega arith) ],
    )
