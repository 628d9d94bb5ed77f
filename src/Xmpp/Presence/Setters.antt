-- ===== src/Xmpp/Presence/Setters.antt =====
-- The getters of `XmppPresenceImpl` (talk/xmpp/rostermoduleimpl.cc) after its setters.
use gxmpp.Prelude.{
  ℕ, suc, ◌+◌, ◌/◌, ◌%◌, ◌++◌, ◌≡◌, refl, ap, ◌∙◌, true, false, inl, inr, [], ◌∷◌, List, Option,
  some, arith, Bytes, equal, compare_bytes, is_empty, Bool-cases, ltb,
}
use gxmpp.Prelude.Int.{ℤ, pos, negsuc, to_string, from_string, decimal, decimal_from}
use gxmpp.Jid.{Jid}
use gxmpp.Xml.QName.{QName, eq_qname}
use gxmpp.Xml.Element.{Element, mem_attr, only_text}
use gxmpp.Xml.Element.Replace.{
  Replaces, leaf, head_text, text_named-head, clear-Replaces, put_text-Replaces,
}
use gxmpp.Xmpp.RosterNames.{qn_show, qn_status, qn_priority}
use gxmpp.Xmpp.State.{ReturnStatus, return_ok}
use gxmpp.Xmpp.Presence.{
  Presence, skeleton, Show, show_chat, show_default, show_away, show_xa, show_dnd, is_default,
  show_of, show_to_string, presence_show, set_presence_show, priority_of, priority, set_priority,
  is_priority, is_zero, status, set_status, status_of, available, add_named_text,
}
use gxmpp.Xmpp.Presence.Texts.{
  jid-kept, available-kept, presence_show-kept, priority-kept, status-kept, Reads,
  show_of-to_string, show_to_string-is_empty, priority_of-to_string, skeleton-Reads,
}

-- The three names are different.
abbrev Apart : QName → QName → Type 0
Apart p q = eq_qname p q ≡ false

show_priority : Apart qn_show qn_priority × Apart qn_priority qn_show
unfolding eq_qname compare_bytes qn_show qn_priority
show_priority = (refl, refl)

show_status : Apart qn_show qn_status × Apart qn_status qn_show
unfolding eq_qname compare_bytes qn_show qn_status
show_status = (refl, refl)

priority_status : Apart qn_priority qn_status × Apart qn_status qn_priority
unfolding eq_qname compare_bytes qn_priority qn_status
priority_status = (refl, refl)

-- What a setter that is given a good value gives back.
abbrev pub Sets : Presence → Option (ReturnStatus × Presence) → Show → ℤ → Bytes → Jid → Type 0
Sets p result s n t j =
    (p' : Presence) × (result ≡ some (return_ok, p'))
    × Reads p' s n t j
    × (available p' ≡ available (some (skeleton p)))

status_of-leaf : (t : Bytes) → status_of (leaf qn_status t ∷ []) ≡ t
unfolding status_of mem_attr only_text
status_of-leaf t = refl

status_of_nil : (t : Bytes) → is_empty t ≡ true → status_of [] ≡ t
unfolding status_of
status_of_nil [] h = refl
status_of_nil (c ∷ t) h = cc

show_of_default : (s : Show) → is_default s ≡ true → show_of [] ≡ s
unfolding show_of equal
show_of_default show_default h = refl
show_of_default show_chat h = cc
show_of_default show_away h = cc
show_of_default show_xa h = cc
show_of_default show_dnd h = cc

priority_of_zero : (n : ℤ) → is_zero n ≡ true → priority_of [] ≡ n
unfolding priority_of from_string
priority_of_zero (pos n) h = ground arith
priority_of_zero (negsuc n) h = cc

is_empty-append : (s : Bytes) (c : ℕ) → is_empty (s ++ c ∷ []) ≡ false
is_empty-append [] c = refl
is_empty-append (x ∷ s) c = refl

decimal_from-is_empty : (f n : ℕ) → is_empty (decimal_from (suc f) n) ≡ false
unfolding decimal_from
decimal_from-is_empty f n = elim (Bool-cases (ltb n 10)) [
  | inl e ↦ rw e
  | inr e ↦ rw e (is_empty-append (decimal_from f (n / 10)) (b'0' + n % 10))
]

to_string-is_empty : (n : ℤ) → is_empty (to_string n) ≡ false
unfolding to_string decimal
to_string-is_empty (pos n) = decimal_from-is_empty n n
to_string-is_empty (negsuc n) = refl

module _ {p : Presence} {s : Show} {n : ℤ} {t : Bytes} {j : Jid} (r : Reads p s n t j) where
  show-Reads :
      (s' : Show) (kids : List Element) (y : Element)
      → Replaces qn_show kids (skeleton p) y
      → show_of (head_text kids) ≡ s'
      → Reads (some y) s' n t j
  unfolding presence_show
  show-Reads s' kids y rep e =
      let r' = skeleton-Reads r in
      record {
        show = ap show_of (text_named-head qn_show y ∙ ap head_text rep.named_kids) ∙ e;
        priority = priority-kept qn_show kids (skeleton p) y rep show_priority.1 ∙ r'.priority;
        status = status-kept qn_show kids (skeleton p) y rep show_status.1 ∙ r'.status;
        jid = jid-kept qn_show kids (skeleton p) y rep ∙ r'.jid;
      }

  priority-Reads :
      (n' : ℤ) (kids : List Element) (y : Element)
      → Replaces qn_priority kids (skeleton p) y
      → priority_of (head_text kids) ≡ n'
      → Reads (some y) s n' t j
  unfolding priority
  priority-Reads n' kids y rep e =
      let r' = skeleton-Reads r in
      record {
        show = presence_show-kept qn_priority kids (skeleton p) y rep show_priority.0 ∙ r'.show;
        priority = ap priority_of (text_named-head qn_priority y ∙ ap head_text rep.named_kids) ∙ e;
        status = status-kept qn_priority kids (skeleton p) y rep priority_status.1 ∙ r'.status;
        jid = jid-kept qn_priority kids (skeleton p) y rep ∙ r'.jid;
      }

  status-Reads :
      (t' : Bytes) (kids : List Element) (y : Element)
      → Replaces qn_status kids (skeleton p) y
      → status_of kids ≡ t'
      → Reads (some y) s n t' j
  unfolding status
  status-Reads t' kids y rep e =
      let r' = skeleton-Reads r in
      record {
        show = presence_show-kept qn_status kids (skeleton p) y rep show_status.0 ∙ r'.show;
        priority = priority-kept qn_status kids (skeleton p) y rep priority_status.0 ∙ r'.priority;
        status = ap status_of rep.named_kids ∙ e;
        jid = jid-kept qn_status kids (skeleton p) y rep ∙ r'.jid;
      }

  set_presence_show-Sets : (s' : Show) → Sets p (set_presence_show s' p) s' n t j
  unfolding set_presence_show add_named_text only_text
  set_presence_show-Sets s' = elim (Bool-cases (is_default s')) [
    | inl e ↦
        let rep = clear-Replaces qn_show (skeleton p) in
        (_, rw e, show-Reads s' [] _ rep (show_of_default s' e), available-kept qn_show _ _ _ rep)
    | inr e ↦
        let (y, put, rep) =
          put_text-Replaces qn_show (show_to_string s') (skeleton p)
            (show_to_string-is_empty s' e) in
        (
          some y,
          rw (e, put),
          show-Reads s' _ y rep (show_of-to_string s'),
          available-kept qn_show _ (skeleton p) y rep,
        )
  ]

  set_priority-Sets : (n' : ℤ) → is_priority n' ≡ true → Sets p (set_priority n' p) s n' t j
  unfolding set_priority add_named_text only_text
  set_priority-Sets n' good = elim (Bool-cases (is_zero n')) [
    | inl e ↦
        let rep = clear-Replaces qn_priority (skeleton p) in
        (
          _,
          rw (good, e),
          priority-Reads n' [] _ rep (priority_of_zero n' e),
          available-kept qn_priority _ _ _ rep,
        )
    | inr e ↦
        let (y, put, rep) =
          put_text-Replaces qn_priority (to_string n') (skeleton p) (to_string-is_empty n') in
        (
          some y,
          rw (good, e, put),
          priority-Reads n' _ y rep (priority_of-to_string n' good),
          available-kept qn_priority _ (skeleton p) y rep,
        )
  ]

  set_status-Sets : (t' : Bytes) → Sets p (set_status t' p) s n t' j
  unfolding set_status add_named_text
  set_status-Sets t' = elim (Bool-cases (is_empty t')) [
    | inl e ↦
        let rep = clear-Replaces qn_status (skeleton p) in
        (_, rw e, status-Reads t' [] _ rep (status_of_nil t' e), available-kept qn_status _ _ _ rep)
    | inr e ↦
        let (y, put, rep) = put_text-Replaces qn_status t' (skeleton p) e in
        (
          some y,
          rw (e, put),
          status-Reads t' _ y rep (status_of-leaf t'),
          available-kept qn_status _ (skeleton p) y rep,
        )
  ]

  -- The setters of show, of a priority from -128 to 127 and of the status return OK; the getter
  -- then gives the value that was set, the other two getters and the JID give what they gave
  -- before, and the availability is that of the element.
  pub setters-Sets :
      (s' : Show) (n' : ℤ) (t' : Bytes)
      → is_priority n' ≡ true
      → Sets p (set_presence_show s' p) s' n t j
        × Sets p (set_priority n' p) s n' t j
        × Sets p (set_status t' p) s n t' j
  setters-Sets s' n' t' good =
      (set_presence_show-Sets s', set_priority-Sets n' good, set_status-Sets t')
