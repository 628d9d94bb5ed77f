-- ===== src/Xml/Builder.antt =====
-- `XmlBuilder` of talk/xmllite/xmlbuilder.cc and the context of `XmlParser`, talk/xmllite/xmlparser.cc,
-- which resolves the names of tags. The elements that are open are the root and then always the last
-- child, so the pointers `pelCurrent_` and `pvParents_` are their number.
pub mod Holes
use gxmpp.Prelude.{
  ℕ, zero, suc, ◌+◌, ◌-◌, ◌*◌, ◌/◌, ◌%◌, ◌^◌, ◌≤◌, ◌<◌, ◌≡◌, refl, sym, ap, ◌∙◌, subst, ◌≢◌, ◌↔◌,
  ◌⊎◌, inl, inr, Bool, true, false, not, ◌&&◌, ◌||◌, Option, none, some, List, [], ◌∷◌, ◌++◌, map,
  append-nil, append_assoc, arith, ltb, leb, ◌==◌, if◌then◌else◌, Bool-cases, Option-cases, ◌>>=◌,
  length, get_elem?, get_or, take, drop, All, Bytes, codes, equal, equal_iff, equal_self, is_empty,
  find, substr, ==_iff,
}
use gxmpp.Xml.QName.{QName, eq_qname, is_empty_qname}
use gxmpp.Xml.Element.{Element, new_element, add_attr, add_element, add_text, at_depth}
use gxmpp.Xml.NsStack.{NsStack, add_xmlns, ns_for_prefix}

-- Names and values as expat reports them.
abbrev pub RawAttrs : Type 0
RawAttrs = List (Bytes × Bytes)

abbrev no_name : QName
no_name = record { ns = []; local = [] }

-- `ResolveQName`; the empty name where a prefix is not bound.
unfoldable pub resolve_qname : NsStack → Bytes → Bool → QName
resolve_qname s q is_attr = elim (find b':' q) [
  | some i ↦
      let found = ns_for_prefix s (take i q) in
      if found.1 then record { ns = found.0; local = drop (suc i) q } else no_name
  | none ↦
      if is_attr
      then record { ns = []; local = q }
      else (let found = ns_for_prefix s [] in
          if found.1 then record { ns = found.0; local = q } else no_name)
]

unfoldable pub has_seen : QName → List QName → Bool
has_seen q [] = false
has_seen q (j ∷ rest) = eq_qname j q || has_seen q rest

-- The loop over the attributes, with the names in a namespace that have been seen; `none` is a null
-- pointer for the element.
unfoldable pub build_attrs : NsStack → RawAttrs → List QName → Element → Option Element
build_attrs s [] seen x = some x
build_attrs s ((n, v) ∷ rest) seen x =
    let q = resolve_qname s n true in
    let global = not (is_empty q.ns) in
    let built = build_attrs s rest (if global then q ∷ seen else seen) (add_attr q v x) in
    if is_empty_qname q || (global && has_seen q seen) then none else built

unfoldable pub build_element : NsStack → Bytes → RawAttrs → Option Element
build_element s n atts =
    let q = resolve_qname s n false in
    if is_empty_qname q then none else build_attrs s atts [] (new_element q)

pub record Builder : Type 0 where
  pub root : Option Element
  pub nesting : ℕ

-- `XmlBuilder()` and `Reset`
abbrev pub new_builder : Builder
new_builder = record { root = none; nesting = 0 }

-- An update of `pelCurrent_`; `none` where the root is gone or the path does not exist.
unfoldable pub on_current : ℕ → (Element → Element) → Builder → Option Builder
on_current depth f b = do r ← b.root; r' ← at_depth depth f r; some (record b { root = some r' })

-- The new element is the root or the last child of the current one.
unfoldable pub open_element : Element → Builder → Option Builder
open_element x b = elim b.nesting [
  | zero ↦ some (record { root = some x; nesting = 1 })
  | suc depth ↦ do
    b' ← on_current depth (add_element x) b
    some (record b' { nesting = suc (suc depth) })
]

-- With it, whether an error is raised.
unfoldable pub start_element : NsStack → Bytes → RawAttrs → Builder → Option (Bool × Builder)
start_element s n atts b = elim (build_element s n atts) [
  | none ↦ some (true, b)
  | some x ↦ do b' ← open_element x b; some (false, b')
]

-- `none` is `back` of an empty vector.
unfoldable pub end_element : Builder → Option Builder
end_element b = elim b.nesting [ zero ↦ none | suc outer ↦ some (record b { nesting = outer }) ]

unfoldable pub character_data : Bytes → Builder → Option Builder
character_data t b = elim b.nesting [ zero ↦ some b | suc depth ↦ on_current depth (add_text t) b ]

-- `CreateElement`: the root, which the builder gives away.
unfoldable pub create_element : Builder → Option Element × Builder
create_element b = (b.root, record b { root = none })

unfoldable pub starts_xmlns : Bytes → Bool
starts_xmlns n = equal (take 5 n) (codes "xmlns")

-- `StartNamespace` for one attribute of a tag; `none` where it raises an error.
unfoldable pub declare_raw_one : Bytes → Bytes → NsStack → Option NsStack
declare_raw_one n v s =
    if starts_xmlns n
    then (if length n == 5
        then some (add_xmlns [] v s)
        else if get_or n 5 0 == b':'
        then (if is_empty v then none else some (add_xmlns (drop 6 n) v s))
        else some s)
    else some s

unfoldable pub declare_raw : RawAttrs → NsStack → Option NsStack
declare_raw [] s = some s
declare_raw ((n, v) ∷ rest) s = declare_raw_one n v s >>= declare_raw rest
