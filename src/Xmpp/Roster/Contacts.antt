-- ===== src/Xmpp/Roster/Contacts.antt =====
-- The contacts that the roster module keeps (talk/xmpp/rostermoduleimpl.cc), by JID.
use gxmpp.Prelude.{
  ℕ, suc, ◌⊎◌, ◌≡◌, refl, ap, sym, ◌∙◌, subst, Bool, true, false, inl, inr, Option, none, some,
  List, [], ◌∷◌, ◌++◌, if◌then◌else◌, arith, get_elem?, set, Bool-cases, Option-cases,
  some_injective, none-ne-some,
}
use gxmpp.Jid.{Jid, parse, eq_jid}
use gxmpp.Jid.Order.{eq_jid_iff}
use gxmpp.Xml.Element.{Element, attr}
use gxmpp.Xmpp.RosterNames.{qn_jid}
use gxmpp.Xmpp.Contact
use gxmpp.Xmpp.Contact.{Contact, set_xml_from_wire}
use gxmpp.Xmpp.Roster.{has_jid, find_place, find_roster_contact, erase_at, from_wire}

-- No two contacts have one JID.
abbrev pub IsDistinct : List Contact → Type 0
IsDistinct [] = Unit
IsDistinct (c ∷ cs) =
    ((j : Jid) → has_jid j c ≡ true → find_roster_contact j cs ≡ none) × IsDistinct cs

find_roster_contact-cons :
    (j : Jid) (c : Contact) (cs : List Contact)
    → find_roster_contact j (c ∷ cs) ≡ (if has_jid j c then some c else find_roster_contact j cs)
unfolding find_roster_contact find_place
find_roster_contact-cons j c cs = ground arith

find_roster_contact-nil : (j : Jid) → find_roster_contact j [] ≡ none
unfolding find_roster_contact
find_roster_contact-nil j = refl

-- A contact with one JID has no other.
has_jid-other : (j k : Jid) (c : Contact) → has_jid j c ≡ true → has_jid k c ≡ eq_jid j k
unfolding has_jid
has_jid-other j k c h = elim (Option-cases (Contact.jid c)) [
  | inl e ↦ cc (rw (e, has_jid) at h)
  | inr (i, e) ↦
      let same : i ≡ j = (eq_jid_iff i j).0 (rw (e, has_jid) at h) in
      rw (e, has_jid) (ap (λ x. eq_jid x k) same)
]

pub has_jid-from_wire :
    (k : Jid) (item : Element) → has_jid k (from_wire item) ≡ eq_jid (parse (attr qn_jid item)) k
unfolding has_jid set_xml_from_wire Contact.jid
has_jid-from_wire k item = refl

place_cases :
    (b : Bool) (o : Option ℕ) (i : ℕ)
    → (if b then some 0 else elim o [ none ↦ none | some k ↦ some (suc k) ]) ≡ some i
    → ((b ≡ true) × (i ≡ 0)) ⊎ ((k : ℕ) × (b ≡ false) × (o ≡ some k) × (i ≡ suc k))
place_cases true o i h = inl (refl, sym (some_injective h))
place_cases false none i h = none-ne-some h
place_cases false (some k) i h = inr (k, refl, refl, sym (some_injective h))

-- The first contact has the JID, or the search goes on.
find_place-cons :
    (j : Jid) (c : Contact) (cs : List Contact) (i : ℕ)
    → find_place j (c ∷ cs) ≡ some i
    → ((has_jid j c ≡ true) × (i ≡ 0))
      ⊎ ((i' : ℕ) × (has_jid j c ≡ false) × (find_place j cs ≡ some i') × (i ≡ suc i'))
unfolding find_place
find_place-cons j c cs i h = place_cases (has_jid j c) (find_place j cs) i h

find_place_nil : (j : Jid) (i : ℕ) → find_place j [] ≡ some i → none ≡ some i
unfolding find_place
find_place_nil j i h = h

-- The search finds a contact where it finds a place.
pub find_place-at :
    (j : Jid) (cs : List Contact) (i : ℕ)
    → find_place j cs ≡ some i
    → (c : Contact) × (get_elem? cs i ≡ some c) × (find_roster_contact j cs ≡ some c)
find_place-at j [] i h = none-ne-some (find_place_nil j i h)
find_place-at j (c ∷ cs) i h = elim (find_place-cons j c cs i h) [
  | inl (hit, e) ↦ (c, rw e, find_roster_contact-cons j c cs ∙ rw hit)
  | inr (k, miss, h', e) ↦
      let (d, at, found) = find_place-at j cs k h' in
      (d, rw e at, find_roster_contact-cons j c cs ∙ rw miss found)
]

pub find_place-none :
    (j : Jid) (cs : List Contact) → find_place j cs ≡ none → find_roster_contact j cs ≡ none
unfolding find_roster_contact
find_place-none j cs h = ap (λ o. elim o [ none ↦ none | some i ↦ get_elem? cs i ]) h

has_jid-apart :
    (j k : Jid) (c : Contact) → has_jid j c ≡ false → eq_jid j k ≡ true → has_jid k c ≡ false
has_jid-apart j k c h e = subst (λ i. has_jid i c ≡ false) ((eq_jid_iff j k).0 e) h

swap_if {ℓ} :
    {A : Type ℓ} (a b : Bool) (x y z : A)
    → ((b ≡ true) → a ≡ false)
    → (if a then x else if b then y else z) ≡ (if b then y else if a then x else z)
swap_if true true x y z h = cc (h refl)
swap_if true false x y z h = refl
swap_if false true x y z h = refl
swap_if false false x y z h = refl

find-none-cons :
    (j : Jid) (c : Contact) (cs : List Contact)
    → find_roster_contact j (c ∷ cs) ≡ none
    → (has_jid j c ≡ false) × (find_roster_contact j cs ≡ none)
find-none-cons j c cs h = elim (Bool-cases (has_jid j c)) [
  | inl e ↦ none-ne-some {a = c} (sym h ∙ find_roster_contact-cons j c cs ∙ rw e)
  | inr e ↦ (e, sym (find_roster_contact-cons j c cs ∙ rw e) ∙ h)
]

module _ (j : Jid) (new : Contact) (owned : (k : Jid) → has_jid k new ≡ eq_jid j k) where
  pub set-find :
      (k : Jid) (cs : List Contact) (i : ℕ)
      → find_place j cs ≡ some i
      → find_roster_contact k (set cs i new)
        ≡ (if eq_jid j k then some new else find_roster_contact k cs)
  set-find k [] i h = none-ne-some (find_place_nil j i h)
  set-find k (c ∷ cs) i h = elim (find_place-cons j c cs i h) [
    | inl (hit, e) ↦ rw e (
        find_roster_contact-cons k new cs
        ∙ rw (owned k, find_roster_contact-cons k c cs, has_jid-other j k c hit) (ground arith))
    | inr (i', miss, h', e) ↦ rw e (
        find_roster_contact-cons k c (set cs i' new)
        ∙ rw (set-find k cs i' h', find_roster_contact-cons k c cs)
            (swap_if (has_jid k c) (eq_jid j k) _ _ _ (has_jid-apart j k c miss)))
  ]

  pub append-find :
      (k : Jid) (cs : List Contact)
      → find_roster_contact j cs ≡ none
      → find_roster_contact k (cs ++ new ∷ [])
        ≡ (if eq_jid j k then some new else find_roster_contact k cs)
  append-find k [] h = find_roster_contact-cons k new [] ∙ rw (owned k)
  append-find k (c ∷ cs) h =
      let (miss, none_left) = find-none-cons j c cs h in
      find_roster_contact-cons k c (cs ++ new ∷ [])
      ∙ rw (append-find k cs none_left, find_roster_contact-cons k c cs)
          (swap_if (has_jid k c) (eq_jid j k) _ _ _ (has_jid-apart j k c miss))

pub erase-find :
    (j k : Jid) (cs : List Contact) (i : ℕ)
    → IsDistinct cs
    → find_place j cs ≡ some i
    → find_roster_contact k (erase_at i cs)
      ≡ (if eq_jid j k then none else find_roster_contact k cs)
unfolding erase_at
erase-find j k [] i d h = none-ne-some (find_place_nil j i h)
erase-find j k (c ∷ cs) i d h = elim (find_place-cons j c cs i h) [
  | inl (hit, e) ↦
      rw (e, find_roster_contact-cons k c cs, has_jid-other j k c hit) (gone (d.0 j hit))
  | inr (i', miss, h', e) ↦ rw e (
      find_roster_contact-cons k c (erase_at i' cs)
      ∙ rw (erase-find j k cs i' d.1 h', find_roster_contact-cons k c cs)
          (swap_if (has_jid k c) (eq_jid j k) _ _ _ (has_jid-apart j k c miss)))
]
  where
    gone :
        find_roster_contact j cs ≡ none
        → find_roster_contact k cs
          ≡ (if eq_jid j k then none else (if eq_jid j k then some c else find_roster_contact k cs))
    gone h = ground (arith, eq_jid_iff j k)

-- A contact that has another JID than one that is not found, or not this one.
other_jid :
    (j k : Jid) (c : Contact) → has_jid j c ≡ false → has_jid k c ≡ true → eq_jid j k ≡ false
other_jid j k c h g = elim (Bool-cases (eq_jid j k)) [
  | inr e ↦ e
  | inl e ↦ cc (has_jid-apart j k c h e, g)
]

module _ (j : Jid) (new : Contact) (owned : (k : Jid) → has_jid k new ≡ eq_jid j k) where
  pub append-IsDistinct :
      (cs : List Contact)
      → find_roster_contact j cs ≡ none
      → IsDistinct cs
      → IsDistinct (cs ++ new ∷ [])
  append-IsDistinct [] h d = (λ k e. find_roster_contact-nil k, tt)
  append-IsDistinct (c ∷ cs) h d =
      let (miss, none_left) = find-none-cons j c cs h in
      (
        λ k e. append-find j new owned k cs none_left ∙ rw (other_jid j k c miss e) (d.0 k e),
        append-IsDistinct cs none_left d.1,
      )

  pub set-IsDistinct :
      (cs : List Contact) (i : ℕ)
      → find_place j cs ≡ some i
      → IsDistinct cs
      → IsDistinct (set cs i new)
  set-IsDistinct [] i h d = tt
  set-IsDistinct (c ∷ cs) i h d = elim (find_place-cons j c cs i h) [
    | inl (hit, e) ↦ rw e (
      λ k l.
          subst (λ x. find_roster_contact x cs ≡ none) ((eq_jid_iff j k).0 (sym (owned k) ∙ l))
            (d.0 j hit),
      d.1,
    )
    | inr (i', miss, h', e) ↦ rw e (
      λ k l. set-find j new owned k cs i' h' ∙ rw (other_jid j k c miss l) (d.0 k l),
      set-IsDistinct cs i' h' d.1,
    )
  ]

pub erase-IsDistinct :
    (j : Jid) (cs : List Contact) (i : ℕ)
    → find_place j cs ≡ some i
    → IsDistinct cs
    → IsDistinct (erase_at i cs)
unfolding erase_at
erase-IsDistinct j [] i h d = tt
erase-IsDistinct j (c ∷ cs) i h d = elim (find_place-cons j c cs i h) [
  | inl (hit, e) ↦ rw e d.1
  | inr (i', miss, h', e) ↦ rw e (
    λ k l. erase-find j k cs i' d.1 h' ∙ rw (other_jid j k c miss l) (d.0 k l),
    erase-IsDistinct j cs i' h' d.1,
  )
]
