-- ===== src/Xmpp/Roster/Latest.antt =====
-- The presence that is kept for a JID (talk/xmpp/rostermoduleimpl.cc), and what a search finds.
use gxmpp.Prelude.{
  ℕ, ◌+◌, ◌<◌, ◌≡◌, refl, ap, sym, ◌∙◌, subst, Bool, true, false, inl, inr, Option, none, some,
  List, [], ◌∷◌, ◌++◌, if◌then◌else◌, ◌==◌, ◌>>=◌, arith, All, All-mono, length, get_elem?, set,
  Bool-cases, some_injective, none-ne-some, ==_iff,
}
use gxmpp.Jid.{Jid, bare_jid, eq_jid}
use gxmpp.Jid.Order.{eq_jid_iff}
use gxmpp.Xml.QName.{eq_qname_self}
use gxmpp.Xml.Element.{Element, name}
use gxmpp.Xmpp.RosterNames.{qn_presence}
use gxmpp.Xmpp.Presence
use gxmpp.Xmpp.Presence.{Presence, new_presence, set_raw_xml}
use gxmpp.Xmpp.State.{ReturnStatus, return_ok}
use gxmpp.Xmpp.Roster.{
  Roster, Bucket, Call, incoming_presence_changed, notify, find_bucket, put_bucket, or_empty,
  find_presence, add_presence, update_presence,
}
use gxmpp.Xmpp.Roster.Searches.{is_from-inverse, find_presence-is_from}

-- The addresses in the map are those of presences.
abbrev pub InRange : Roster → Type 0
InRange r = All (λ b. All (λ a. a < length r.presences) b.addresses) r.incoming_presence_map

pub find_bucket-All :
    (n : ℕ) (k : Jid) (m : List Bucket)
    → All (λ b. All (λ a. a < n) b.addresses) m
    → All (λ a. a < n) (or_empty (find_bucket k m))
unfolding find_bucket
find_bucket-All n k [] h = tt
find_bucket-All n k (b ∷ m) h = elim (Bool-cases (eq_jid b.bare k)) [
  | inl hit ↦ rw hit h.0
  | inr miss ↦ rw miss (find_bucket-All n k m h.1)
]

pub grow : (n : ℕ) (ads : List ℕ) → All (λ a. a < n) ads → All (λ a. a < n + 1) ads
grow n ads h = All-mono (λ a l. omega (arith, l)) ads h

pub put_bucket-All :
    (n : ℕ) (k : Jid) (ads : List ℕ) (m : List Bucket)
    → All (λ a. a < n) ads
    → All (λ b. All (λ a. a < n) b.addresses) m
    → All (λ b. All (λ a. a < n) b.addresses) (put_bucket k ads m)
unfolding put_bucket
put_bucket-All n k ads [] h g = (h, tt)
put_bucket-All n k ads (b ∷ m) h g = elim (Bool-cases (eq_jid b.bare k)) [
  | inl hit ↦ rw hit (h, g.1)
  | inr miss ↦ rw miss (g.0, put_bucket-All n k ads m h g.1)
]

-- The presence that is kept for a JID, found as the module finds it.
abbrev pub latest : Jid → Roster → Option Presence
latest k r =
    find_presence k r.presences (or_empty (find_bucket (bare_jid k) r.incoming_presence_map))
    >>= λ a. get_elem? r.presences a

abbrev pub Seen : Jid → Element → Roster → Roster → Type 0
Seen j x r r' =
    InRange r' × ((k : Jid) → latest k r' ≡ (if eq_jid j k then some (some x) else latest k r))

pub Seen-notify :
    (j : Jid) (x : Element) (f : Call) (r r' : Roster) → Seen j x r r' → Seen j x r (notify f r')
Seen-notify j x f r r' h = elim (Bool-cases r'.has_handler) [ inl e ↦ rw e h | inr e ↦ rw e h ]

abbrev pub put_presence : ℕ → Element → Roster → Roster
put_presence a x r = record r { presences = set r.presences a (some x) }

pub update_presence_eq :
    (a : ℕ) (x : Element) (r : Roster) {p : Presence}
    → get_elem? r.presences a ≡ some p
    → name x ≡ qn_presence
    → update_presence a x r ≡ notify (incoming_presence_changed (some a)) (put_presence a x r)
unfolding update_presence set_raw_xml
update_presence_eq a x r e named = rw (e, update_presence, named, eq_qname_self qn_presence)

set_raw_xml_eq :
    (x : Element) (p : Presence)
    → name x ≡ qn_presence
    → set_raw_xml (some x) p ≡ (return_ok, some x)
unfolding set_raw_xml
set_raw_xml_eq x p named = rw (named, eq_qname_self qn_presence)

abbrev pub push_presence : Jid → List ℕ → Element → Roster → Roster
push_presence bare ads x r = record r {
  presences = r.presences ++ some x ∷ [];
  incoming_presence_map = put_bucket bare (ads ++ length r.presences ∷ []) r.incoming_presence_map;
  incoming_presence_vector = r.incoming_presence_vector ++ length r.presences ∷ [];
}

pub add_presence_eq :
    (bare : Jid) (ads : List ℕ) (x : Element) (r : Roster)
    → name x ≡ qn_presence
    → add_presence bare ads x r
      ≡ notify (incoming_presence_changed (some (length r.presences))) (push_presence bare ads x r)
unfolding add_presence
add_presence_eq bare ads x r named =
    rw (set_raw_xml_eq x new_presence named, add_presence)
      (ap
        (λ (s : ReturnStatus × Presence).
          notify (incoming_presence_changed (some (length r.presences)))
            (record (push_presence bare ads x r) { presences = r.presences ++ s.1 ∷ [] }))
        (set_raw_xml_eq x new_presence named))

abbrev pub bucket : Jid → Roster → List ℕ
bucket k r = or_empty (find_bucket (bare_jid k) r.incoming_presence_map)

-- Two searches that find one address are for one JID.
pub hit_same :
    (j k : Jid) (r : Roster) (a c : ℕ)
    → find_presence j r.presences (bucket j r) ≡ some a
    → find_presence k r.presences (bucket k r) ≡ some c
    → (a == c) ≡ eq_jid j k
hit_same j k r a c h g = elim (Bool-cases (eq_jid j k)) [
  | inl e ↦
      let same =
        subst (λ i. find_presence i r.presences (bucket i r) ≡ some a) ((eq_jid_iff j k).0 e) h in
      (==_iff a c).1 (some_injective (sym same ∙ g)) ∙ sym e
  | inr e ↦ elim (Bool-cases (a == c)) [
    | inr v ↦ v ∙ sym e
    | inl v ↦
        let (p, at, owner) =
          is_from-inverse j r.presences a (find_presence-is_from j r.presences _ h) in
        let (p', at', owner') =
          is_from-inverse k r.presences c (find_presence-is_from k r.presences _ g) in
        let same : p ≡ p' =
          some_injective (sym at ∙ ap (get_elem? r.presences) ((==_iff a c).0 v) ∙ at') in
        cc ((eq_jid_iff j k).1 (sym owner ∙ ap Presence.jid same ∙ owner'))
  ]
]

pub miss_apart :
    (j k : Jid) (r : Roster) {c : ℕ}
    → find_presence j r.presences (bucket j r) ≡ none
    → find_presence k r.presences (bucket k r) ≡ some c
    → eq_jid j k ≡ false
miss_apart j k r {c} h g = elim (Bool-cases (eq_jid j k)) [
  | inr e ↦ e
  | inl e ↦ none-ne-some (
      sym h
      ∙ subst (λ i. find_presence i r.presences (bucket i r) ≡ some c) (sym ((eq_jid_iff j k).0 e))
          g)
]

pub found_apart :
    (j k : Jid) (r : Roster) {a : ℕ}
    → find_presence j r.presences (bucket j r) ≡ some a
    → find_presence k r.presences (bucket k r) ≡ none
    → eq_jid j k ≡ false
found_apart j k r {a} h g = elim (Bool-cases (eq_jid j k)) [
  | inr e ↦ e
  | inl e ↦ none-ne-some (
      sym g
      ∙ subst (λ i. find_presence i r.presences (bucket i r) ≡ some a) ((eq_jid_iff j k).0 e) h)
]

pub bare_apart : (j k : Jid) → eq_jid (bare_jid j) (bare_jid k) ≡ false → eq_jid j k ≡ false
bare_apart j k h = elim (Bool-cases (eq_jid j k)) [
  | inr e ↦ e
  | inl e ↦ cc ((eq_jid_iff (bare_jid j) (bare_jid k)).1 (ap bare_jid ((eq_jid_iff j k).0 e)), h)
]

pub or_empty-if :
    (b : Bool) (ads : List ℕ) (o : Option (List ℕ))
    → or_empty (if b then some ads else o) ≡ (if b then ads else or_empty o)
or_empty-if true ads o = refl
or_empty-if false ads o = refl
