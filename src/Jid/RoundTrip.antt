-- ===== src/Jid/RoundTrip.antt =====
-- What the constructors of `Jid` (talk/xmpp/jid.cc) build, and `Str` against `Jid(jid_string)`.
use gxmpp.Prelude.{
  ℕ, ◌≡◌, ◌≢◌, ◌⊎◌, inl, inr, refl, sym, ap, ◌∙◌, subst, true, false, not, [], ◌∷◌, ◌++◌,
  append_assoc, arith, All-append, All-mono, Bytes, is_empty, equal, Bool-cases, if◌then◌else◌,
  equal_self,
}
use gxmpp.Jid.Normal.{
  IsNode, IsResource, IsLabelChar, IsDomain, Labels, last, more, prep_node-IsNode, prep_node_fixed,
  prep_resource-IsResource, prep_resource_fixed,
}
use gxmpp.Jid.Domain.{prep_domain-IsDomain, prep_domain_fixed}
use gxmpp.Jid.Split.{Without, split_full, split_node, split_resource, split_domain}
use gxmpp.Jid.{
  Jid, empty, validate_or_reset, from_parts, split, parse, str, is_bare, bare_jid, bare_equals,
}

-- The empty JID, or three parts in normal form.
abbrev pub IsNormal : Jid → Type 0
IsNormal j = (j ≡ empty) ⊎ (IsNode j.node × IsDomain j.domain × IsResource j.resource)

validate_or_reset-IsNormal : (j : Jid) → IsNormal (validate_or_reset j)
unfolding validate_or_reset
validate_or_reset-IsNormal j = ground (
  arith,
  prep_node-IsNode j.node,
  prep_domain-IsDomain j.domain,
  prep_resource-IsResource j.resource,
)

-- Whatever the two constructors are given, they build the empty JID or one whose node has only
-- permitted characters, whose domain has labels of permitted characters, of 1 to 63 bytes and
-- with no hyphen at either end, whose resource has no character that PrepResourceAscii marks as
-- not valid but the NUL that it puts in its place, and whose parts have at most 1023 bytes each.
pub constructors-IsNormal : (s n d r : Bytes) → IsNormal (parse s) × IsNormal (from_parts n d r)
unfolding parse from_parts
constructors-IsNormal s n d r =
    (parsed s, validate_or_reset-IsNormal (record { node = n; domain = d; resource = r }))
  where
    parsed : (s : Bytes) → IsNormal (parse s)
    parsed [] = inl refl
    parsed (c ∷ s) = validate_or_reset-IsNormal (split (c ∷ s))

-- Validation leaves a JID in normal form alone.
pub validate_or_reset_fixed :
    (j : Jid) → IsNode j.node → IsDomain j.domain → IsResource j.resource → validate_or_reset j ≡ j
unfolding validate_or_reset
validate_or_reset_fixed j n d r =
    rw (prep_node_fixed j.node n, prep_domain_fixed j.domain d, prep_resource_fixed j.resource r)

Labels-Without : (c : ℕ) {d : Bytes} → (¬ IsLabelChar c) → (c ≢ b'.') → Labels d → Without c d
Labels-Without c n dot (last l h) = All-mono (λ a la e. n (subst IsLabelChar e la)) l h.0
Labels-Without c n dot (more l {d} h rest) =
    All-append _ l (b'.' ∷ d) (All-mono (λ a la e. n (subst IsLabelChar e la)) l h.0)
      ((λ e. dot (sym e)), Labels-Without c n dot rest)

Labels-ne : {d : Bytes} → Labels d → is_empty d ≡ false
Labels-ne (last [] h) = absurd (omega arith)
Labels-ne (last (c ∷ l) h) = refl
Labels-ne (more [] h rest) = refl
Labels-ne (more (c ∷ l) h rest) = refl

node_at : (n : Bytes) → IsNode n → Without b'@' n
node_at n hn = All-mono (λ c h. h.8) n hn.0

node_slash : (n : Bytes) → IsNode n → Without b'/' n
node_slash n hn = All-mono (λ c h. h.4) n hn.0

domain_at : {d : Bytes} → IsDomain d → Without b'@' d
domain_at hd = Labels-Without b'@' (λ h. ground arith) (λ e. cc) hd.0

domain_slash : {d : Bytes} → IsDomain d → Without b'/' d
domain_slash hd = Labels-Without b'/' (λ h. ground arith) (λ e. cc) hd.0

-- `Str` of a JID in normal form is cut where it was joined.
split-str :
    (n d r : Bytes)
    → IsNode n
    → IsDomain d
    → split (str (record { node = n; domain = d; resource = r }))
      ≡ record { node = n; domain = d; resource = r }
unfolding str
split-str [] d [] hn hd = rw (Labels-ne hd.0) (split_domain d (domain_at hd) (domain_slash hd))
split-str [] d (c ∷ r) hn hd =
    rw (Labels-ne hd.0) (split_resource d d (c ∷ r) (domain_at hd) (domain_slash hd))
split-str (a ∷ n) d [] hn hd = rw (Labels-ne hd.0) (
    ap split (append_assoc (a ∷ n) (b'@' ∷ []) d)
    ∙ split_node (a ∷ n) d [] (node_at (a ∷ n) hn) (node_slash (a ∷ n) hn) (domain_slash hd))
split-str (a ∷ n) d (c ∷ r) hn hd = rw (Labels-ne hd.0) (
    ap split (
      append_assoc ((a ∷ n) ++ b'@' ∷ []) d (b'/' ∷ c ∷ r)
      ∙ append_assoc (a ∷ n) (b'@' ∷ []) (d ++ (b'/' ∷ c ∷ r)))
    ∙ split_full (a ∷ n) d (c ∷ r) (node_at (a ∷ n) hn) (node_slash (a ∷ n) hn) (domain_slash hd))

is_empty-append : (xs ys : Bytes) → is_empty ys ≡ false → is_empty (xs ++ ys) ≡ false
is_empty-append [] ys h = h
is_empty-append (x ∷ xs) ys h = refl

str-ne :
    (n d r : Bytes)
    → Labels d
    → is_empty (str (record { node = n; domain = d; resource = r })) ≡ false
unfolding str
str-ne n d [] h =
    rw (Labels-ne h)
      (is_empty-append (if not (is_empty n) then n ++ b'@' ∷ [] else []) d (Labels-ne h))
str-ne n d (c ∷ r) h =
    rw (Labels-ne h)
      (is_empty-append ((if not (is_empty n) then n ++ b'@' ∷ [] else []) ++ d) _ refl)

-- Str followed by the string constructor gives back every JID in normal form, the empty one
-- included.
pub parse-str : (j : Jid) → IsNormal j → parse (str j) ≡ j
unfolding parse
parse-str j (inl e) = rw e (unfold str in refl)
parse-str j (inr (n, d, r)) =
    rw (str-ne j.node j.domain j.resource d.0, split-str j.node j.domain j.resource n d)
      (validate_or_reset_fixed j n d r)

-- Reading a text, writing the JID and reading it again gives the JID of the first reading.
pub parse-str-parse : (s : Bytes) → parse (str (parse s)) ≡ parse s
parse-str-parse s = parse-str (parse s) (constructors-IsNormal s [] [] []).0

-- The bare JID drops the resource and nothing else.
bare_jid_lem :
    (j : Jid) → IsNode j.node → IsDomain j.domain → bare_jid j ≡ record j { resource = [] }
unfolding bare_jid from_parts
bare_jid_lem j n d = elim (Bool-cases (is_empty j.resource)) [
  | inl none_left ↦ ground (arith, Labels-ne d.0)
  | inr some_left ↦
      rw (Labels-ne d.0, some_left)
        (validate_or_reset_fixed (record j { resource = [] }) n d (tt, omega arith))
]

bare_jid-empty : bare_jid empty ≡ empty
unfolding bare_jid
bare_jid-empty = refl

abbrev pub BareLaws : Jid → Jid → Type 0
BareLaws j b =
    (is_bare b ≡ true)
    × (bare_equals j b ≡ true)
    × (b.resource ≡ [])
    × IsNormal b
    × (bare_jid b ≡ b)

-- The bare JID of a JID in normal form is bare, equal to it up to the resource, in normal form,
-- and its own bare JID.
pub bare_jid-BareLaws : (j : Jid) → IsNormal j → BareLaws j (bare_jid j)
unfolding is_bare bare_equals equal
bare_jid-BareLaws j (inl e) = rw (e, bare_jid-empty) (refl, refl, refl, inl refl, bare_jid-empty)
bare_jid-BareLaws j (inr (n, d, r)) = rw (bare_jid_lem j n d) (
  ground (arith, Labels-ne d.0),
  rw (equal_self j.node, equal_self j.domain),
  refl,
  inr (n, d, (tt, omega arith)),
  bare_jid_lem (record j { resource = [] }) n d,
)
