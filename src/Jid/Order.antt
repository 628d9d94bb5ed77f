-- ===== src/Jid/Order.antt =====
-- `Compare` and `operator==` of `Jid` (talk/xmpp/jid.cc).
use gxmpp.Prelude.{
  ◌≡◌, ◌↔◌, true, arith, Ordering, equal_iff, flip, compare_bytes_self, compare_bytes_eq,
  compare_bytes_swap, compare_bytes_trans,
}
use gxmpp.Jid.{Jid, eq_jid, compare_jid}

pub eq_jid_iff : (j k : Jid) → (eq_jid j k ≡ true) ↔ (j ≡ k)
unfolding eq_jid
eq_jid_iff j k =
    ground
      (arith, equal_iff k.node j.node, equal_iff k.domain j.domain, equal_iff k.resource j.resource)

pub compare_jid_eq : (j k : Jid) → (compare_jid j k ≡ Ordering.eq) ↔ (j ≡ k)
unfolding compare_jid
compare_jid_eq j k = ground (
  arith,
  compare_bytes_eq j.node k.node,
  compare_bytes_eq j.domain k.domain,
  compare_bytes_eq j.resource k.resource,
  compare_bytes_self j.node,
  compare_bytes_self j.domain,
  compare_bytes_self j.resource,
)

compare_jid_swap : (j k : Jid) → compare_jid k j ≡ flip (compare_jid j k)
unfolding compare_jid
compare_jid_swap j k = ground (
  arith,
  compare_bytes_swap j.node k.node,
  compare_bytes_swap j.domain k.domain,
  compare_bytes_swap j.resource k.resource,
)

compare_jid_trans :
    (j k l : Jid)
    → compare_jid j k ≡ Ordering.lt
    → compare_jid k l ≡ Ordering.lt
    → compare_jid j l ≡ Ordering.lt
unfolding compare_jid
compare_jid_trans j k l h h' = ground (
  arith,
  compare_bytes_eq j.node k.node,
  compare_bytes_eq k.node l.node,
  compare_bytes_eq j.domain k.domain,
  compare_bytes_eq k.domain l.domain,
  compare_bytes_self k.node,
  compare_bytes_self k.domain,
  compare_bytes_trans j.node k.node l.node,
  compare_bytes_trans j.domain k.domain l.domain,
  compare_bytes_trans j.resource k.resource l.resource,
)

abbrev pub OrderLaws : Jid → Jid → Jid → Type 0
OrderLaws j k l =
    ((compare_jid j k ≡ Ordering.eq) ↔ (j ≡ k))
    × ((eq_jid j k ≡ true) ↔ (j ≡ k))
    × (compare_jid k j ≡ flip (compare_jid j k))
    × (compare_jid j k ≡ Ordering.lt
        → compare_jid k l ≡ Ordering.lt
        → compare_jid j l ≡ Ordering.lt)

-- Compare is a total order: exchanging the JIDs turns its result around, it is transitive where
-- it puts one before another, and it finds equal just what operator== does, the JIDs with equal
-- parts.
pub compare_jid-OrderLaws : (j k l : Jid) → OrderLaws j k l
compare_jid-OrderLaws j k l =
    (compare_jid_eq j k, eq_jid_iff j k, compare_jid_swap j k, compare_jid_trans j k l)
