-- ===== src/Xml/NsStack/Resolve.antt =====
-- Prefixes and namespaces of `XmlnsStack` (talk/xmllite/xmlnsstack.cc): what `PrefixForNs` finds
-- resolves back, and after `AddNewPrefix` it finds something.
use gxmpp.Prelude.{
  ◌+◌, ◌≡◌, ◌⊎◌, inl, inr, refl, Bool, true, false, [], ◌∷◌, ◌++◌, List, some, arith, length, Bytes,
  equal, equal_iff, equal_self, is_empty, Bool-cases,
}
use gxmpp.Xml.NsStack.{
  Binding, NsStack, ns_xml, ns_xmlns, str_xml, str_xmlns, ns_for_prefix, lookup_prefix, starts_xml,
  prefix_matches_ns, scan_bindings, prefix_for_ns, add_xmlns, add_new_prefix, suggest_prefix,
}
use gxmpp.Xml.NsStack.Fresh.{find_new_total}
use gxmpp.Xml.NsStack.Suggest.{suggest_prefix-starts_xml, find_new-fresh}

prefix_matches_ns_iff :
    (s : NsStack) (p ns : Bytes) → prefix_matches_ns s p ns ≡ true → ns_for_prefix s p ≡ (ns, true)
unfolding prefix_matches_ns
prefix_matches_ns_iff s p ns h = ground (arith, equal_iff (ns_for_prefix s p).0 ns)

scan_bindings-resolves :
    (s : NsStack) (ns : Bytes) (is_attr : Bool) (bs : List Binding)
    → (scan_bindings s ns is_attr bs).1 ≡ true
    → (ns_for_prefix s (scan_bindings s ns is_attr bs).0 ≡ (ns, true))
      × ((is_attr ≡ false) ⊎ (is_empty (scan_bindings s ns is_attr bs).0 ≡ false))
unfolding scan_bindings
scan_bindings-resolves s ns is_attr [] h = cc
scan_bindings-resolves s ns is_attr (b ∷ bs) h =
    ground (arith, prefix_matches_ns_iff s b.prefix ns, scan_bindings-resolves s ns is_attr bs)

resolves_xml : (s : NsStack) → ns_for_prefix s str_xml ≡ (ns_xml, true)
unfolding ns_for_prefix str_xml starts_xml equal
resolves_xml s = refl

resolves_xmlns : (s : NsStack) → ns_for_prefix s str_xmlns ≡ (ns_xmlns, true)
unfolding ns_for_prefix str_xmlns str_xml starts_xml equal
resolves_xmlns s = refl

str_xml-ne : is_empty str_xml ≡ false
unfolding str_xml
str_xml-ne = refl

str_xmlns-ne : is_empty str_xmlns ≡ false
unfolding str_xmlns
str_xmlns-ne = refl

-- For an element the prefix resolves to the namespace; for an attribute it does so too, unless it
-- is empty, which stands for no namespace.
abbrev pub Resolves : NsStack → Bytes → Bool → Bytes → Type 0
Resolves s ns is_attr p =
    ((is_attr ≡ true) × (p ≡ []) × (ns ≡ []))
    ⊎ ((ns_for_prefix s p ≡ (ns, true)) × ((is_attr ≡ false) ⊎ (is_empty p ≡ false)))

pub prefix_for_ns-Resolves :
    (s : NsStack) (ns : Bytes) (is_attr : Bool)
    → (prefix_for_ns s ns is_attr).1 ≡ true
    → Resolves s ns is_attr (prefix_for_ns s ns is_attr).0
unfolding prefix_for_ns
prefix_for_ns-Resolves s ns is_attr h = ground (
  arith,
  equal_iff ns ns_xml,
  equal_iff ns ns_xmlns,
  resolves_xml s,
  resolves_xmlns s,
  str_xml-ne,
  str_xmlns-ne,
  prefix_matches_ns_iff s [] ns,
  scan_bindings-resolves s ns is_attr s.bindings,
)

-- What a longer list of bindings must keep for the searches to find what they found.
abbrev Keeps : NsStack → NsStack → Type 0
Keeps s t = (p : Bytes) → (ns_for_prefix s p).1 ≡ true → ns_for_prefix t p ≡ ns_for_prefix s p

-- A new prefix hides no other.
add_xmlns-Keeps :
    (s : NsStack) (new ns : Bytes) → (ns_for_prefix s new).1 ≡ false → Keeps s (add_xmlns new ns s)
unfolding ns_for_prefix add_xmlns lookup_prefix
add_xmlns-Keeps s new ns fresh p h = ground (arith, equal_iff new p)

module _ (s t : NsStack) (keeps : Keeps s t) where
  matches-keeps : (p ns : Bytes) → prefix_matches_ns s p ns ≡ true → prefix_matches_ns t p ns ≡ true
  unfolding prefix_matches_ns
  matches-keeps p ns h = ground (arith, keeps p)

  scan-keeps :
      (ns : Bytes) (is_attr : Bool) (bs : List Binding)
      → (scan_bindings s ns is_attr bs).1 ≡ true
      → (scan_bindings t ns is_attr bs).1 ≡ true
  unfolding scan_bindings
  scan-keeps ns is_attr [] h = h
  scan-keeps ns is_attr (b ∷ bs) h =
      ground (arith, matches-keeps b.prefix ns, scan-keeps ns is_attr bs)

scan_bindings-cons :
    (t : NsStack) (ns : Bytes) (is_attr : Bool) (b : Binding) (bs : List Binding)
    → (scan_bindings t ns is_attr bs).1 ≡ true
    → (scan_bindings t ns is_attr (b ∷ bs)).1 ≡ true
unfolding scan_bindings
scan_bindings-cons t ns is_attr b bs h = ground arith

lookup_prefix-nil : (bs : List Binding) → (lookup_prefix [] bs).1 ≡ true
unfolding lookup_prefix
lookup_prefix-nil [] = refl
lookup_prefix-nil (b ∷ bs) = ground (arith, lookup_prefix-nil bs)

-- A stack that took one more binding finds a prefix wherever it did before.
prefix_for_ns-keeps :
    (s : NsStack) (new uri ns : Bytes) (is_attr : Bool)
    → (ns_for_prefix s new).1 ≡ false
    → (prefix_for_ns s ns is_attr).1 ≡ true
    → (prefix_for_ns (add_xmlns new uri s) ns is_attr).1 ≡ true
unfolding prefix_for_ns add_xmlns
prefix_for_ns-keeps s new uri ns is_attr fresh h =
    let keeps = add_xmlns-Keeps s new uri fresh in
    ground (
      arith,
      matches-keeps s (add_xmlns new uri s) keeps [] ns,
      scan-keeps s (add_xmlns new uri s) keeps ns is_attr s.bindings,
      scan_bindings-cons (add_xmlns new uri s) ns is_attr (record { prefix = new; uri = uri })
          s.bindings,
    )

fresh-ne : (s : NsStack) (new : Bytes) → (ns_for_prefix s new).1 ≡ false → is_empty new ≡ false
unfolding ns_for_prefix starts_xml
fresh-ne s [] fresh = cc (lookup_prefix-nil s.bindings)
fresh-ne s (c ∷ new) fresh = refl

add_xmlns-matches :
    (s : NsStack) (new ns : Bytes)
    → starts_xml new ≡ false
    → prefix_matches_ns (add_xmlns new ns s) new ns ≡ true
unfolding prefix_matches_ns ns_for_prefix add_xmlns lookup_prefix
add_xmlns-matches s new ns plain = rw (plain, equal_self new) (equal_self ns)

-- The new binding itself is found.
prefix_for_ns-add :
    (s : NsStack) (new ns : Bytes) (is_attr : Bool)
    → (ns_for_prefix s new).1 ≡ false
    → starts_xml new ≡ false
    → (prefix_for_ns (add_xmlns new ns s) ns is_attr).1 ≡ true
unfolding prefix_for_ns scan_bindings
prefix_for_ns-add s new ns is_attr fresh plain =
    let matches = add_xmlns-matches s new ns plain in
    let filled = fresh-ne s new fresh in
    unfold add_xmlns in ground (arith, matches, filled, equal_self ns)

-- Nothing that could be named before is lost, and the frames are as they were.
abbrev pub Extends : NsStack → NsStack → Type 0
Extends s t =
    ((ns : Bytes) (is_attr : Bool)
      → (prefix_for_ns s ns is_attr).1 ≡ true
      → (prefix_for_ns t ns is_attr).1 ≡ true)
    × Keeps s t
    × (t.frames ≡ s.frames)
    × ((new : List Binding) × (t.bindings ≡ new ++ s.bindings))

abbrev pub Named : Bytes → Bool → NsStack → NsStack → Type 0
Named ns is_attr s t = ((prefix_for_ns t ns is_attr).1 ≡ true) × Extends s t

Extends-refl : (s : NsStack) → Extends s s
Extends-refl s = ((λ ns a h. h), (λ p h. refl), refl, ([], refl))

add_xmlns-Extends :
    (s : NsStack) (p ns : Bytes) → (ns_for_prefix s p).1 ≡ false → Extends s (add_xmlns p ns s)
unfolding add_xmlns
add_xmlns-Extends s p ns fresh = (
  (λ ns' a h. prefix_for_ns-keeps s p ns ns' a fresh h),
  add_xmlns-Keeps s p ns fresh,
  refl,
  (record { prefix = p; uri = ns } ∷ [], refl),
)

pub add_new_prefix-Named :
    (ns : Bytes) (is_attr : Bool) (s : NsStack)
    → (r : (Bytes × Bool) × NsStack) × (add_new_prefix ns is_attr s ≡ some r)
      × Named ns is_attr s r.1
unfolding add_new_prefix
add_new_prefix-Named ns is_attr s = elim (Bool-cases (prefix_for_ns s ns is_attr).1) [
  | inl found ↦ ((([], false), s), rw found, (found, Extends-refl s))
  | inr missing ↦
      let base = suggest_prefix ns in
      let (p, e, _) = find_new_total s base in
      let plain = suggest_prefix-starts_xml ns in
      let (fresh, ok) = find_new-fresh (length s.bindings + 4) s base base 2 plain plain e in
      (
        ((p, true), add_xmlns p ns s),
        rw (missing, e),
        (prefix_for_ns-add s p ns is_attr fresh ok, add_xmlns-Extends s p ns fresh),
      )
]
