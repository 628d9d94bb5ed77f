-- ===== src/Jid/CaseFold.antt =====
-- Upper and lower case in the node and the domain of a JID (talk/xmpp/jid.cc).
use gxmpp.Prelude.{ℕ, ◌≡◌, refl, ap, [], ◌∷◌, ◌++◌, map, arith, length, Bytes, ◌==◌}
use gxmpp.Jid.Prep.{
  to_lower, prep_node_char, prep_node_from, prep_node, prep_label_char, prep_label_from,
  prep_domain_label, prep_domain_from, prep_domain,
}
use gxmpp.Jid.{validate_or_reset, from_parts}

prep_node_char-to_lower : (c : ℕ) → prep_node_char (to_lower c) ≡ prep_node_char c
unfolding prep_node_char
prep_node_char-to_lower c = ground arith

prep_node_from-to_lower :
    (acc s : Bytes) → prep_node_from acc (map to_lower s) ≡ prep_node_from acc s
unfolding prep_node_from
prep_node_from-to_lower acc [] = refl
prep_node_from-to_lower acc (c ∷ s) =
    rw (prep_node_char-to_lower c, prep_node_from-to_lower (acc ++ (prep_node_char c).0 ∷ []) s)

prep_label_char-to_lower : (c : ℕ) → prep_label_char (to_lower c) ≡ prep_label_char c
unfolding prep_label_char to_lower
prep_label_char-to_lower c = ground arith

prep_label_from-to_lower :
    (n : ℕ) (buf s : Bytes) → prep_label_from n buf (map to_lower s) ≡ prep_label_from n buf s
unfolding prep_label_from
prep_label_from-to_lower n buf [] = refl
prep_label_from-to_lower n buf (c ∷ s) =
    rw
      (prep_label_char-to_lower c, prep_label_from-to_lower n (buf ++ (prep_label_char c).0 ∷ []) s)

to_lower_dot : (c : ℕ) → (to_lower c == b'.') ≡ (c == b'.')
unfolding to_lower
to_lower_dot c = ground arith

map-append_one :
    (label : Bytes) (c : ℕ) → map to_lower label ++ to_lower c ∷ [] ≡ map to_lower (label ++ c ∷ [])
map-append_one [] c = refl
map-append_one (x ∷ label) c = ap (◌∷◌ (to_lower x)) (map-append_one label c)

prep_domain_from-to_lower :
    (buf label s : Bytes)
    → prep_domain_from buf (map to_lower label) (map to_lower s) ≡ prep_domain_from buf label s
unfolding prep_domain_from prep_domain_label
prep_domain_from-to_lower buf label [] = prep_label_from-to_lower (length buf) buf label
prep_domain_from-to_lower buf label (c ∷ s) = rw (
  to_lower_dot c,
  map-append_one label c,
  prep_domain_from-to_lower buf (label ++ c ∷ []) s,
  prep_label_from-to_lower (length buf) buf label,
  prep_domain_from-to_lower ((prep_label_from (length buf) buf label).0 ++ b'.' ∷ []) [] s,
)

-- The constructor from parts gives the same JID when node and domain are first put in lower
-- case.
pub from_parts-to_lower :
    (n d r : Bytes) → from_parts (map to_lower n) (map to_lower d) r ≡ from_parts n d r
unfolding from_parts validate_or_reset prep_node prep_domain
from_parts-to_lower n d r = rw (prep_node_from-to_lower [] n, prep_domain_from-to_lower [] [] d)
