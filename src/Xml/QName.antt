-- ===== src/Xml/QName.antt =====
-- `QName` of talk/xmllite/qname.h and talk/xmllite/qname.cc. A `StaticQName` is a value of it.
use gxmpp.Prelude.{
  drop-append_suc, ℕ, suc, ◌≡◌, ◌≢◌, ◌↔◌, ◌⊎◌, inl, inr, refl, ap, ◌∙◌, Bool, true, false, ◌&&◌, [],
  ◌∷◌, ◌++◌, Option, none, some, arith, Ordering, if◌then◌else◌, ◌==◌, length, take, drop, All,
  Bytes, is_empty, get_or, compare_bytes, compare_bytes_self, compare_bytes_eq, append_assoc,
  take-append_left,
}

pub record QName : Type 0 where
  pub ns : Bytes
  pub local : Bytes

-- `rfind` of one character; `none` is `npos`.
unfoldable pub rfind : ℕ → Bytes → Option ℕ
rfind c [] = none
rfind c (x ∷ xs) = elim (rfind c xs) [
  | some i ↦ some (suc i)
  | none ↦ if x == c then some 0 else none
]

-- `QName(merged_or_local)`
unfoldable pub from_merged : Bytes → QName
unfolding rfind
from_merged s = elim (rfind b':' s) [
  | none ↦ record { ns = []; local = s }
  | some i ↦ record { ns = take i s; local = drop (suc i) s }
]

-- `namespace_[0]` of an empty text is the NUL at its end.
unfoldable pub merged : QName → Bytes
merged q = if get_or q.ns 0 0 == 0 then q.local else (q.ns ++ b':' ∷ []) ++ q.local

unfoldable pub is_empty_qname : QName → Bool
is_empty_qname q = is_empty q.ns && is_empty q.local

-- `Compare`: the local parts first.
unfoldable pub compare_qname : QName → QName → Ordering
compare_qname q other = elim (compare_bytes q.local other.local) [
  | Ordering.eq ↦ compare_bytes q.ns other.ns
  | Ordering.lt ↦ Ordering.lt
  | Ordering.gt ↦ Ordering.gt
]

-- `operator==`
unfoldable pub eq_qname : QName → QName → Bool
unfolding compare_qname
eq_qname q other = elim (compare_qname q other) [ Ordering.eq ↦ true | _ ↦ false ]

pub eq_qname_iff : (q other : QName) → (eq_qname q other ≡ true) ↔ (q ≡ other)
unfolding eq_qname
eq_qname_iff q other = ground (
  arith,
  compare_bytes_eq q.local other.local,
  compare_bytes_eq q.ns other.ns,
  compare_bytes_self q.local,
  compare_bytes_self q.ns,
)

pub eq_qname_self : (q : QName) → eq_qname q q ≡ true
eq_qname_self q = (eq_qname_iff q q).1 refl

rfind-none : (c : ℕ) (s : Bytes) → All (λ x. x ≢ c) s → rfind c s ≡ none
unfolding rfind
rfind-none c [] h = refl
rfind-none c (x ∷ s) h = ground (arith, rfind-none c s h.1)

rfind-append : (c : ℕ) (s t : Bytes) → All (λ x. x ≢ c) t → rfind c (s ++ (c ∷ t)) ≡ some (length s)
unfolding rfind
rfind-append c [] t h = ground (arith, rfind-none c t h)
rfind-append c (x ∷ s) t h = rw (rfind-append c s t h)

from_merged-append :
    (s t : Bytes)
    → All (λ x. x ≢ b':') t
    → from_merged (s ++ (b':' ∷ t)) ≡ record { ns = s; local = t }
unfolding from_merged
from_merged-append s t h =
    rw (rfind-append b':' s t h, from_merged)
      (λ i. record { ns = take-append_left s (b':' ∷ t) i; local = drop-append_suc s b':' t i })

from_merged_plain :
    (s : Bytes) → All (λ x. x ≢ b':') s → from_merged s ≡ record { ns = []; local = s }
unfolding from_merged
from_merged_plain s h = rw (rfind-none b':' s h, from_merged)

-- A qualified name is read back from its merged form, if its local part has no colon and its
-- namespace is empty or does not begin with a NUL.
pub from_merged-merged :
    (q : QName)
    → (q.ns ≡ []) ⊎ (get_or q.ns 0 0 ≢ 0)
    → All (λ x. x ≢ b':') q.local
    → from_merged (merged q) ≡ q
unfolding merged
from_merged-merged q (inl e) h = rw (e, merged) (from_merged_plain q.local h)
from_merged-merged q (inr ne) h =
    let e : (get_or q.ns 0 0 == 0) ≡ false = ground arith in
    rw (e, merged)
      (ap from_merged (append_assoc q.ns (b':' ∷ []) q.local) ∙ from_merged-append q.ns q.local h)
