-- ===== src/Jid/Normal.antt =====
-- What the preparation functions of talk/xmpp/jid.cc leave: the normal form of a JID, stated by
-- ranges of character codes.
use gxmpp.Prelude.{
  ℕ, ◌-◌, ◌≤◌, ◌<◌, ◌≡◌, ◌≢◌, ◌⊎◌, inl, inr, true, [], ◌∷◌, ◌++◌, append-nil, append_assoc, ◌∙◌,
  arith, length, get_or, All, All-append, Bytes, Bool-cases,
}
use gxmpp.Jid.Prep.{
  prep_node_char, prep_node_from, prep_node, max_part, check_length, prep_resource_char,
  prep_resource_from, prep_resource, prep_label_char,
}

abbrev pub NotUpper : ℕ → Type 0
NotUpper c = (c < b'A') ⊎ (b'Z' < c)

abbrev pub IsNodeChar : ℕ → Type 0
IsNodeChar c =
    NotUpper c
    × (0x17 < c)
    × (c ≢ b' ')
    × (c ≢ b'&')
    × (c ≢ b'/')
    × (c ≢ b':')
    × (c ≢ b'<')
    × (c ≢ b'>')
    × (c ≢ b'@')
    × (c ≢ b'"')
    × (c ≢ 0x27)
    × (c ≢ 0x7F)

abbrev pub IsNode : Bytes → Type 0
IsNode n = All IsNodeChar n × (length n ≤ max_part)

-- What `PrepResourceAscii` makes of a character: itself, or the NUL that it puts for one that it marks
-- as not valid.
abbrev pub IsPreparedChar : ℕ → Type 0
IsPreparedChar c = ((c ≡ 0) ⊎ (0x17 < c)) × (c ≢ 0x7F)

abbrev pub IsResource : Bytes → Type 0
IsResource r = All IsPreparedChar r × (length r ≤ max_part)

abbrev pub IsLabelChar : ℕ → Type 0
IsLabelChar c = (c ≡ b'-') ⊎ ((b'0' ≤ c) × (c ≤ b'9')) ⊎ ((b'a' ≤ c) × (c ≤ b'z')) ⊎ (0x7F < c)

abbrev pub IsLabel : Bytes → Type 0
IsLabel l =
    All IsLabelChar l
    × (0 < length l)
    × (length l ≤ 63)
    × (get_or l 0 0 ≢ b'-')
    × (get_or l (length l - 1) 0 ≢ b'-')

-- Labels joined by dots.
pub data Labels : Bytes → Type 0 where
  last : (l : Bytes) → IsLabel l → Labels l
  more : (l : Bytes) {d : Bytes} → IsLabel l → Labels d → Labels (l ++ (b'.' ∷ d))

abbrev pub IsDomain : Bytes → Type 0
IsDomain d = Labels d × (length d ≤ max_part)

pub prep_node_char-IsNodeChar :
    (c : ℕ) → (prep_node_char c).1 ≡ true → IsNodeChar (prep_node_char c).0
unfolding prep_node_char
prep_node_char-IsNodeChar c h = ground arith

pub prep_node_char_fixed : (c : ℕ) → IsNodeChar c → prep_node_char c ≡ (c, true)
unfolding prep_node_char
prep_node_char_fixed c h = ground arith

pub prep_resource_char-IsPreparedChar : (c : ℕ) → IsPreparedChar (prep_resource_char c)
unfolding prep_resource_char
prep_resource_char-IsPreparedChar c = ground arith

pub prep_resource_char_fixed : (c : ℕ) → IsPreparedChar c → prep_resource_char c ≡ c
unfolding prep_resource_char
prep_resource_char_fixed c h = ground arith

pub prep_label_char-IsLabelChar :
    (c : ℕ) → (prep_label_char c).1 ≡ true → IsLabelChar (prep_label_char c).0
unfolding prep_label_char
prep_label_char-IsLabelChar c h = ground arith

pub prep_label_char_fixed : (c : ℕ) → IsLabelChar c → prep_label_char c ≡ (c, true)
unfolding prep_label_char
prep_label_char_fixed c h = ground arith

pub check_length_fixed : (s : Bytes) → length s ≤ max_part → check_length s ≡ (s, true)
unfolding check_length
check_length_fixed s h = ground arith

pub check_length_valid :
    (s : Bytes) → (check_length s).1 ≡ true → (check_length s ≡ (s, true)) × (length s ≤ max_part)
unfolding check_length
check_length_valid s h = ground arith

prep_node_from-IsNode :
    (acc s : Bytes)
    → All IsNodeChar acc
    → (prep_node_from acc s).1 ≡ true
    → IsNode (prep_node_from acc s).0
unfolding prep_node_from
prep_node_from-IsNode acc [] a h = ground arith
prep_node_from-IsNode acc (c ∷ s) a h = elim (Bool-cases (prep_node_char c).1) [
  | inl valid ↦ rw valid (
      prep_node_from-IsNode (acc ++ (prep_node_char c).0 ∷ []) s
        (All-append IsNodeChar acc _ a (prep_node_char-IsNodeChar c valid, tt)) (rw valid at h))
  | inr bad ↦ cc (rw bad at h)
]

prep_node_from_fixed :
    (acc s : Bytes)
    → All IsNodeChar s
    → length (acc ++ s) ≤ max_part
    → prep_node_from acc s ≡ (acc ++ s, true)
unfolding prep_node_from
prep_node_from_fixed acc [] a h = rw append-nil (check_length_fixed acc (rw append-nil at h))
prep_node_from_fixed acc (c ∷ s) a h =
    rw (prep_node_char_fixed c a.0)
      (prep_node_from_fixed (acc ++ c ∷ []) s a.1 (rw append_assoc h) ∙ rw append_assoc)

pub prep_node-IsNode : (s : Bytes) → (prep_node s).1 ≡ true → IsNode (prep_node s).0
unfolding prep_node
prep_node-IsNode s h = prep_node_from-IsNode [] s tt h

pub prep_node_fixed : (s : Bytes) → IsNode s → prep_node s ≡ (s, true)
unfolding prep_node
prep_node_fixed s h = prep_node_from_fixed [] s h.0 h.1

prep_resource_from-IsResource :
    (acc s : Bytes)
    → All IsPreparedChar acc
    → (prep_resource_from acc s).1 ≡ true
    → IsResource (prep_resource_from acc s).0
unfolding prep_resource_from
prep_resource_from-IsResource acc [] a h = ground arith
prep_resource_from-IsResource acc (c ∷ s) a h =
    prep_resource_from-IsResource (acc ++ prep_resource_char c ∷ []) s
      (All-append IsPreparedChar acc _ a (prep_resource_char-IsPreparedChar c, tt)) h

prep_resource_from_fixed :
    (acc s : Bytes)
    → All IsPreparedChar s
    → length (acc ++ s) ≤ max_part
    → prep_resource_from acc s ≡ (acc ++ s, true)
unfolding prep_resource_from
prep_resource_from_fixed acc [] a h = rw append-nil (check_length_fixed acc (rw append-nil at h))
prep_resource_from_fixed acc (c ∷ s) a h =
    rw (prep_resource_char_fixed c a.0)
      (prep_resource_from_fixed (acc ++ c ∷ []) s a.1 (rw append_assoc h) ∙ rw append_assoc)

pub prep_resource-IsResource :
    (s : Bytes) → (prep_resource s).1 ≡ true → IsResource (prep_resource s).0
unfolding prep_resource
prep_resource-IsResource s h = prep_resource_from-IsResource [] s tt h

pub prep_resource_fixed : (s : Bytes) → IsResource s → prep_resource s ≡ (s, true)
unfolding prep_resource
prep_resource_fixed s h = prep_resource_from_fixed [] s h.0 h.1
