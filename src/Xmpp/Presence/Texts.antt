-- ===== src/Xmpp/Presence/Texts.antt =====
-- The texts that `XmppPresenceImpl` (talk/xmpp/rostermoduleimpl.cc) writes, read back.
use gxmpp.Prelude.{
  ◌≡◌, refl, ap, ◌∙◌, Bool, true, false, [], List, none, some, arith, Bytes, equal, is_empty,
  every_below, every_below-at, ◌==◌,
}
use gxmpp.Prelude.Int.{ℤ, pos, negsuc, to_string, from_string}
use gxmpp.Jid.{Jid, empty, parse}
use gxmpp.Xml.QName.{QName, eq_qname}
use gxmpp.Xml.Element.{Element, all_named, text_named, find_attr, first_of_children}
use gxmpp.Xml.Element.Replace.{Replaces, text_named-head}
use gxmpp.Xmpp.RosterNames.{qn_show, qn_status, qn_priority}
use gxmpp.Xmpp.Presence.{
  Presence, skeleton, Show, show_chat, show_default, show_away, show_xa, show_dnd, is_default,
  show_of, show_to_string, presence_show, priority_of, priority, is_priority, status, status_of,
  available, jid,
}

module _ (q : QName) (kids : List Element) (x y : Element) (r : Replaces q kids x y) where
  pub jid-kept : jid (some y) ≡ jid (some x)
  unfolding jid
  jid-kept = rw r.same_attrs

  pub available-kept : available (some y) ≡ available (some x)
  unfolding available
  available-kept = rw r.same_attrs

  text_named-kept : (p : QName) → eq_qname p q ≡ false → text_named p y ≡ text_named p x
  text_named-kept p h = rw (text_named-head p y, text_named-head p x, r.other_kids p h)

  pub presence_show-kept :
      eq_qname qn_show q ≡ false → presence_show (some y) ≡ presence_show (some x)
  unfolding presence_show
  presence_show-kept h = ap show_of (text_named-kept qn_show h)

  pub priority-kept : eq_qname qn_priority q ≡ false → priority (some y) ≡ priority (some x)
  unfolding priority
  priority-kept h = ap priority_of (text_named-kept qn_priority h)

  pub status-kept : eq_qname qn_status q ≡ false → status (some y) ≡ status (some x)
  unfolding status
  status-kept h = ap status_of (r.other_kids qn_status h)

-- What the getters give.
pub record Reads (p : Presence) (s : Show) (n : ℤ) (t : Bytes) (j : Jid) : Type 0 where
  pub show : presence_show p ≡ s
  pub priority : priority p ≡ n
  pub status : status p ≡ t
  pub jid : jid p ≡ j

pub show_of-to_string : (s : Show) → show_of (show_to_string s) ≡ s
unfolding show_of show_to_string equal
show_of-to_string show_chat = refl
show_of-to_string show_default = refl
show_of-to_string show_away = refl
show_of-to_string show_xa = refl
show_of-to_string show_dnd = refl

pub show_to_string-is_empty :
    (s : Show) → is_default s ≡ false → is_empty (show_to_string s) ≡ false
unfolding show_to_string
show_to_string-is_empty show_chat h = refl
show_to_string-is_empty show_default h = cc
show_to_string-is_empty show_away h = refl
show_to_string-is_empty show_xa h = refl
show_to_string-is_empty show_dnd h = refl

eq_int : ℤ → ℤ → Bool
eq_int (pos n) (pos k) = n == k
eq_int (negsuc n) (negsuc k) = n == k
eq_int _ _ = false

eq_int_sound : (a b : ℤ) → eq_int a b ≡ true → a ≡ b
unfolding eq_int
eq_int_sound (pos n) (pos k) h = ground arith
eq_int_sound (pos n) (negsuc k) h = cc
eq_int_sound (negsuc n) (pos k) h = cc
eq_int_sound (negsuc n) (negsuc k) h = ground arith

pos_table : every_below (λ k. eq_int (priority_of (to_string (pos k))) (pos k)) 128 ≡ true
unfolding every_below eq_int priority_of to_string
pos_table = refl

negsuc_table : every_below (λ k. eq_int (priority_of (to_string (negsuc k))) (negsuc k)) 128 ≡ true
unfolding every_below eq_int priority_of to_string
negsuc_table = refl

pub priority_of-to_string : (n : ℤ) → is_priority n ≡ true → priority_of (to_string n) ≡ n
priority_of-to_string (pos k) h = eq_int_sound _ _ (
    every_below-at (λ k. eq_int (priority_of (to_string (pos k))) (pos k)) 128 k (ground arith)
      pos_table)
priority_of-to_string (negsuc k) h = eq_int_sound _ _ (
    every_below-at (λ k. eq_int (priority_of (to_string (negsuc k))) (negsuc k)) 128 k
      (ground arith) negsuc_table)

show_empty : presence_show (some (skeleton none)) ≡ show_default
unfolding presence_show show_of text_named equal first_of_children
show_empty = refl

priority_empty : priority (some (skeleton none)) ≡ pos 0
unfolding priority priority_of text_named from_string first_of_children
priority_empty = refl

status_empty : status (some (skeleton none)) ≡ []
unfolding status all_named
status_empty = refl

jid_empty : jid (some (skeleton none)) ≡ empty
unfolding jid parse find_attr
jid_empty = refl

pub skeleton-Reads :
    {p : Presence} {s : Show} {n : ℤ} {t : Bytes} {j : Jid}
    → Reads p s n t j
    → Reads (some (skeleton p)) s n t j
unfolding presence_show priority status jid
skeleton-Reads {p = some x} r = r
skeleton-Reads {p = none} r = record {
  show = show_empty ∙ r.show;
  priority = priority_empty ∙ r.priority;
  status = status_empty ∙ r.status;
  jid = jid_empty ∙ r.jid;
}
