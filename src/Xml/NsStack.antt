-- ===== src/Xml/NsStack.antt =====
-- `XmlnsStack` of talk/xmllite/xmlnsstack.cc: the bindings of prefixes to namespaces that are in
-- force, in frames. The vector of strings holds a prefix and its namespace in turn and every
-- operation adds or takes away whole pairs, so it is a list of pairs here, the newest first.
pub mod Fresh
pub mod Suggest
pub mod Resolve
use gxmpp.Prelude.{
  ℕ, zero, suc, ◌+◌, ◌-◌, ◌*◌, ◌/◌, ◌%◌, Bool, true, false, not, ◌&&◌, ◌||◌, [], ◌∷◌, ◌++◌, List,
  map, Option, none, some, if◌then◌else◌, ltb, leb, ◌==◌, length, take, drop, get_or, Bytes, codes,
  equal, is_empty, substr,
}
use mathlib.Core.Option
use gxmpp.Xml.QName.{QName, rfind}

-- The constants of talk/xmllite/xmlconstants.cc.
unfoldable pub ns_xml : Bytes
ns_xml = codes "http://www.w3.org/XML/1998/namespace"

unfoldable pub ns_xmlns : Bytes
ns_xmlns = codes "http://www.w3.org/2000/xmlns/"

unfoldable pub str_xml : Bytes
str_xml = codes "xml"

unfoldable pub str_xmlns : Bytes
str_xmlns = codes "xmlns"

unfoldable pub qn_xmlns : QName
unfolding str_xmlns
qn_xmlns = record { ns = []; local = str_xmlns }

pub record Binding : Type 0 where
  pub prefix : Bytes
  pub uri : Bytes

-- `frames` holds sizes of the vector of strings, the newest first.
pub record NsStack : Type 0 where
  pub bindings : List Binding
  pub frames : List ℕ

abbrev pub vector_size : List Binding → ℕ
vector_size bs = 2 * length bs

-- `XmlnsStack()` and `Reset`
abbrev pub no_bindings : NsStack
no_bindings = record { bindings = []; frames = [] }

unfoldable pub push_frame : NsStack → NsStack
push_frame s = record s { frames = vector_size s.bindings ∷ s.frames }

-- `none` is `back` of an empty vector.
unfoldable pub pop_frame : NsStack → Option NsStack
pop_frame s = elim s.frames [
  | [] ↦ none
  | prev_size ∷ rest ↦
      let size = vector_size s.bindings in
      some (record {
        bindings =
            if ltb prev_size size then drop ((size - prev_size) / 2) s.bindings else s.bindings;
        frames = rest;
      })
]

unfoldable pub starts_xml : Bytes → Bool
starts_xml (a ∷ b ∷ c ∷ rest) =
    (a == b'x' || a == b'X') && (b == b'm' || b == b'M') && (c == b'l' || c == b'L')
starts_xml _ = false

unfoldable pub lookup_prefix : Bytes → List Binding → Bytes × Bool
lookup_prefix p [] = if is_empty p then ([], true) else ([], false)
lookup_prefix p (b ∷ bs) = if equal b.prefix p then (b.uri, true) else lookup_prefix p bs

unfoldable pub ns_for_prefix : NsStack → Bytes → Bytes × Bool
ns_for_prefix s p =
    if starts_xml p
    then (if equal p str_xml
        then (ns_xml, true)
        else if equal p str_xmlns
        then (ns_xmlns, true)
        else ([], false))
    else lookup_prefix p s.bindings

unfoldable pub prefix_matches_ns : NsStack → Bytes → Bytes → Bool
prefix_matches_ns s p ns = let (uri, found) = ns_for_prefix s p in found && equal uri ns

-- The loop of `PrefixForNs`.
unfoldable pub scan_bindings : NsStack → Bytes → Bool → List Binding → Bytes × Bool
scan_bindings s ns is_attr [] = ([], false)
scan_bindings s ns is_attr (b ∷ bs) =
    if equal b.uri ns && (not is_attr || not (is_empty b.prefix)) && prefix_matches_ns s b.prefix ns
    then (b.prefix, true)
    else scan_bindings s ns is_attr bs

unfoldable pub prefix_for_ns : NsStack → Bytes → Bool → Bytes × Bool
prefix_for_ns s ns is_attr =
    if equal ns ns_xml
    then (str_xml, true)
    else if equal ns ns_xmlns
    then (str_xmlns, true)
    else if (if is_attr then is_empty ns else prefix_matches_ns s [] ns)
    then ([], true)
    else scan_bindings s ns is_attr s.bindings

unfoldable pub format_qname : NsStack → QName → Bool → Bytes
format_qname s q is_attr =
    let prefix = (prefix_for_ns s q.ns is_attr).0 in
    if is_empty prefix then q.local else (prefix ++ b':' ∷ []) ++ q.local

unfoldable pub add_xmlns : Bytes → Bytes → NsStack → NsStack
add_xmlns p ns s = record s { bindings = record { prefix = p; uri = ns } ∷ s.bindings }

-- `none` is `pop_back` of an empty vector.
unfoldable pub remove_xmlns : NsStack → Option NsStack
remove_xmlns s = elim s.bindings [ [] ↦ none | b ∷ rest ↦ some (record s { bindings = rest }) ]

unfoldable pub is_ascii_letter : ℕ → Bool
is_ascii_letter ch = (leb b'a' ch && leb ch b'z') || (leb b'A' ch && leb ch b'Z')

unfoldable pub ascii_lower : Bytes → Bytes
ascii_lower = map λ c. if leb b'A' c && leb c b'Z' then c + 32 else c

-- The outer loop of `SuggestPrefix`: the index of the last letter before `last`.
unfoldable pub last_letter : Bytes → ℕ → Option ℕ
unfolding is_ascii_letter
last_letter ns zero = none
last_letter ns (suc last) =
    if is_ascii_letter (get_or ns last 0) then some last else last_letter ns last

-- Its inner loop: where the letters before `first` begin.
unfoldable pub word_start : Bytes → ℕ → ℕ
unfolding is_ascii_letter
word_start ns zero = 0
word_start ns (suc first) =
    if not (is_ascii_letter (get_or ns first 0)) then suc first else word_start ns first

-- `candidate.find("xml") != 0`
unfoldable pub unless_xml : Bytes → Bytes
unless_xml candidate = if not (equal (take 3 candidate) str_xml) then candidate else codes "ns"

unfoldable pub suggest_from : Bytes → Option ℕ → Bytes
unfolding word_start
suggest_from ns none = codes "ns"
suggest_from ns (some found) =
    let first = word_start ns found in
    let last = if ltb 4 (found + 1 - first) then first + 3 else found + 1 in
    unless_xml (ascii_lower (substr ns first (last - first)))

unfoldable pub suggest_prefix : Bytes → Bytes
unfolding rfind last_letter
suggest_prefix ns =
    let len : ℕ = elim (rfind b'.' ns) [
      | none ↦ length ns
      | some i ↦ if leb (length ns - i) 5 then i else length ns
    ] in
    suggest_from ns (last_letter ns len)

-- An `int` written to a `stringstream`, on fuel.
unfoldable pub decimal_from : ℕ → ℕ → Bytes
decimal_from zero n = []
decimal_from (suc fuel) n =
    let front = decimal_from fuel (n / 10) in
    if ltb n 10 then (b'0' + n) ∷ [] else front ++ (b'0' + n % 10) ∷ []

unfoldable pub decimal : ℕ → Bytes
unfolding decimal_from
decimal n = decimal_from (suc n) n

-- The `while` loop of `AddNewPrefix`, on fuel: `none` means that the fuel ran out.
unfoldable pub find_new : ℕ → NsStack → Bytes → Bytes → ℕ → Option Bytes
find_new zero s base result i = none
find_new (suc fuel) s base result i =
    let next = find_new fuel s base (base ++ decimal i) (i + 1) in
    if (ns_for_prefix s result).1 then next else some result

-- The prefix and whether it is new, and the stack. The fuel is one more than the prefixes that may
-- be taken: those that are bound, `xml`, `xmlns` and the empty one.
unfoldable pub add_new_prefix : Bytes → Bool → NsStack → Option ((Bytes × Bool) × NsStack)
add_new_prefix ns is_attr s =
    let base = suggest_prefix ns in
    let fresh : Option ((Bytes × Bool) × NsStack) =
      Option.map (λ result. ((result, true), add_xmlns result ns s))
        (find_new (length s.bindings + 4) s base base 2) in
    if (prefix_for_ns s ns is_attr).1 then some (([], false), s) else fresh
