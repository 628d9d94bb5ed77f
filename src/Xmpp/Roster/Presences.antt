-- ===== src/Xmpp/Roster/Presences.antt =====
-- The presences that the roster module keeps (talk/xmpp/rostermoduleimpl.cc), by JID.
use gxmpp.Prelude.{
  ℕ, ◌+◌, ◌<◌, ◌≡◌, refl, ap, sym, ◌∙◌, subst, inl, inr, Option, none, some, List, [], ◌∷◌, ◌++◌,
  if◌then◌else◌, ◌==◌, arith, All, All-mono, All-append, length, length-append, get_elem?, set,
  Bool-cases, Option-cases, ==_iff,
}
use gxmpp.Jid.{Jid, bare_jid, eq_jid}
use gxmpp.Jid.Order.{eq_jid_iff}
use gxmpp.Xml.Element.{Element, name}
use gxmpp.Xmpp.RosterNames.{qn_presence}
use gxmpp.Xmpp.Presence
use gxmpp.Xmpp.Presence.{Presence, new_presence, set_raw_xml}
use gxmpp.Xmpp.Roster.{
  Roster, find_bucket, put_bucket, or_empty, is_from, find_presence, internal_incoming_presence,
}
use gxmpp.Xmpp.Roster.Searches.{
  find_bucket-put, get_elem?-append_some, get_elem?-append_length, get_elem?-set, length-set,
  extend, extend-false, is_from-same, is_from-at, is_from-inverse, find_presence-append_left,
  find_presence-append, find_presence-is_from, find_presence-same,
}
use gxmpp.Xmpp.Roster.Latest.{
  InRange, find_bucket-All, grow, put_bucket-All, latest, Seen, Seen-notify, put_presence,
  update_presence_eq, push_presence, add_presence_eq, bucket, hit_same, miss_apart, found_apart,
  bare_apart, or_empty-if,
}

module _ (j : Jid) (x : Element) (r : Roster) (good : InRange r)
    (from : Presence.jid (some x) ≡ j) where
  module _ (a : ℕ) (found : find_presence j r.presences (bucket j r) ≡ some a) where
    put_presence-is_from :
        (k : Jid) (c : ℕ) → is_from k (set r.presences a (some x)) c ≡ is_from k r.presences c
    put_presence-is_from k c =
        let (p, e, owner) =
          is_from-inverse j r.presences a (find_presence-is_from j r.presences _ found) in
        let written = get_elem?-set r.presences a c (some x) e in
        elim (Bool-cases (a == c)) [
          | inl v ↦
              is_from-at k (set r.presences a (some x)) c (written ∙ rw v)
              ∙ ap (λ i. eq_jid i k) (from ∙ sym owner)
              ∙ sym (
                  is_from-at k r.presences c
                    (subst (λ i. get_elem? r.presences i ≡ some p) ((==_iff a c).0 v) e))
          | inr v ↦ is_from-same k (set r.presences a (some x)) r.presences c c (written ∙ rw v)
        ]

    put_presence-latest :
        (k : Jid)
        → latest k (put_presence a x r) ≡ (if eq_jid j k then some (some x) else latest k r)
    put_presence-latest k =
        let (p, e, owner) =
          is_from-inverse j r.presences a (find_presence-is_from j r.presences _ found) in
        rw
          (find_presence-same k r.presences (set r.presences a (some x)) (bucket k r)
            (put_presence-is_from k))
          (elim (Option-cases (find_presence k r.presences (bucket k r))) [
            | inl miss ↦ rw (miss, found_apart j k r found miss)
            | inr (c, hit) ↦
                rw (hit, get_elem?-set r.presences a c (some x) e, hit_same j k r a c found hit)
          ])

    put_presence-Seen : Seen j x r (put_presence a x r)
    put_presence-Seen = (
      subst (λ n. All (λ b. All (λ c. c < n) b.addresses) r.incoming_presence_map)
          (sym (length-set r.presences a (some x))) good,
      put_presence-latest,
    )

  abbrev pushed : Roster
  pushed = push_presence (bare_jid j) (bucket j r) x r

  bucket-push :
      (k : Jid)
      → bucket k (pushed) ≡ (
          if eq_jid (bare_jid j) (bare_jid k)
          then bucket j r ++ length r.presences ∷ []
          else bucket k r)
  bucket-push k =
      ap or_empty (
        find_bucket-put (bare_jid k) (bare_jid j) (bucket j r ++ length r.presences ∷ [])
          r.incoming_presence_map)
      ∙ or_empty-if (eq_jid (bare_jid j) (bare_jid k)) _ _

  pushed-is_from :
      (k : Jid) → is_from k (r.presences ++ some x ∷ []) (length r.presences) ≡ eq_jid j k
  pushed-is_from k =
      is_from-at k (r.presences ++ some x ∷ []) (length r.presences)
        (get_elem?-append_length r.presences (some x))
      ∙ ap (λ i. eq_jid i k) from

  pushed-old :
      (k : Jid)
      → find_presence k (r.presences ++ some x ∷ []) (bucket k r)
        ≡ find_presence k r.presences (bucket k r)
  pushed-old k =
      find_presence-append_left k r.presences (some x) (bucket k r)
        (find_bucket-All (length r.presences) (bare_jid k) r.incoming_presence_map good)

  pushed-find :
      (k : Jid)
      → find_presence k (r.presences ++ some x ∷ []) (bucket k pushed)
        ≡ extend (eq_jid j k) (length r.presences) (find_presence k r.presences (bucket k r))
  pushed-find k = elim (Bool-cases (eq_jid (bare_jid j) (bare_jid k))) [
    | inl e ↦
        let same : bucket j r ≡ bucket k r =
          ap (λ i. or_empty (find_bucket i r.incoming_presence_map))
            ((eq_jid_iff (bare_jid j) (bare_jid k)).0 e) in
        ap (find_presence k (r.presences ++ some x ∷ []))
          (bucket-push k ∙ rw e (ap (λ ads. ads ++ length r.presences ∷ []) same))
        ∙ find_presence-append k (r.presences ++ some x ∷ []) (bucket k r) (length r.presences)
        ∙ rw (pushed-old k, pushed-is_from k)
    | inr e ↦
        ap (find_presence k (r.presences ++ some x ∷ [])) (bucket-push k ∙ rw e)
        ∙ pushed-old k
        ∙ rw (bare_apart j k e) (sym (extend-false (length r.presences) _))
  ]

  push_presence-latest :
      find_presence j r.presences (bucket j r) ≡ none
      → (k : Jid) → latest k pushed ≡ (if eq_jid j k then some (some x) else latest k r)
  push_presence-latest new k =
      rw (pushed-find k) (elim (Option-cases (find_presence k r.presences (bucket k r))) [
        | inl miss ↦ elim (Bool-cases (eq_jid j k)) [
          | inl e ↦ rw (miss, e) (get_elem?-append_length r.presences (some x))
          | inr e ↦ rw (miss, e)
        ]
        | inr (b, hit) ↦
            let (p, at, owner) =
              is_from-inverse k r.presences b (find_presence-is_from k r.presences _ hit) in
            rw (hit, miss_apart j k r new hit)
              (get_elem?-append_some r.presences (some x ∷ []) b at ∙ sym at)
      ])

  push_presence-Seen : find_presence j r.presences (bucket j r) ≡ none → Seen j x r pushed
  push_presence-Seen new = (
    subst
        (λ n.
          All (λ b. All (λ a. a < n) b.addresses)
            (put_bucket (bare_jid j) (bucket j r ++ length r.presences ∷ [])
              r.incoming_presence_map))
        (sym (length-append r.presences (some x ∷ [])))
        (put_bucket-All (length r.presences + 1) (bare_jid j) _ r.incoming_presence_map
          (All-append _ (bucket j r) _
            (grow (length r.presences) _
              (find_bucket-All (length r.presences) (bare_jid j) r.incoming_presence_map good))
            (omega arith, tt))
          (All-mono (λ b h. grow (length r.presences) b.addresses h) r.incoming_presence_map good)),
    push_presence-latest new,
  )

  pub internal_incoming_presence-Seen :
      name x ≡ qn_presence → Seen j x r (internal_incoming_presence j x r)
  unfolding internal_incoming_presence
  internal_incoming_presence-Seen named =
      elim (Option-cases (find_presence j r.presences (bucket j r))) [
        | inl new ↦
            rw (new, internal_incoming_presence)
              (subst (Seen j x r) (sym (add_presence_eq (bare_jid j) (bucket j r) x r named))
                (Seen-notify j x _ r _ (push_presence-Seen new)))
        | inr (a, found) ↦
            let (p, e, owner) =
              is_from-inverse j r.presences a (find_presence-is_from j r.presences _ found) in
            rw (found, internal_incoming_presence)
              (subst (Seen j x r) (sym (update_presence_eq a x r e named))
                (Seen-notify j x _ r _ (put_presence-Seen a found)))
      ]

-- Presences that come one after the other, each from the JID of its attribute.
abbrev pub receive : List Element → Roster → Roster
receive [] r = r
receive (x ∷ xs) r = receive xs (internal_incoming_presence (Presence.jid (some x)) x r)

-- The last of them from a JID, or what was there before.
abbrev pub last_from : Jid → List Element → Option Presence → Option Presence
last_from k [] o = o
last_from k (x ∷ xs) o =
    last_from k xs (if eq_jid (Presence.jid (some x)) k then some (some x) else o)

-- When presences from any JIDs come one after the other, the presence that the module finds for
-- a JID, in the list of its bare JID, is the last one that came from it, or the one that was
-- there before.
pub receive-latest :
    (k : Jid) (xs : List Element) (r : Roster)
    → InRange r
    → All (λ x. name x ≡ qn_presence) xs
    → latest k (receive xs r) ≡ last_from k xs (latest k r)
receive-latest k [] r good h = refl
receive-latest k (x ∷ xs) r good h =
    let (good', law) = internal_incoming_presence-Seen (Presence.jid (some x)) x r good refl h.0 in
    receive-latest k xs _ good' h.1 ∙ ap (last_from k xs) (law k)
