-- ===== src/Xml/NsStack/Suggest.antt =====
-- `SuggestPrefix` and the candidates of `AddNewPrefix` (talk/xmllite/xmlnsstack.cc) never begin with
-- `xml`, in any case, so a new prefix is one that resolves.
use gxmpp.Prelude.{
  ℕ, zero, suc, ◌+◌, ◌/◌, ◌≤◌, ◌≡◌, inl, inr, refl, false, [], ◌∷◌, ◌++◌, Option, none, some, arith,
  ltb, take, Bytes, All, All-append, equal, Bool-cases,
}
use gxmpp.Xml.NsStack.{
  NsStack, str_xml, starts_xml, ascii_lower, unless_xml, suggest_from, suggest_prefix, decimal_from,
  decimal, find_new, ns_for_prefix,
}

abbrev IsDigit : ℕ → Type 0
IsDigit c = (b'0' ≤ c) × (c ≤ b'9')

decimal_from-IsDigit : (fuel n : ℕ) → All IsDigit (decimal_from fuel n)
unfolding decimal_from
decimal_from-IsDigit zero n = tt
decimal_from-IsDigit (suc fuel) n = elim (Bool-cases (ltb n 10)) [
  | inl small ↦ rw small (ground arith)
  | inr large ↦ rw large (
      All-append IsDigit (decimal_from fuel (n / 10)) _ (decimal_from-IsDigit fuel (n / 10))
        (omega arith))
]

starts_xml-digits : (ds : Bytes) → All IsDigit ds → starts_xml ds ≡ false
unfolding starts_xml
starts_xml-digits [] h = refl
starts_xml-digits (a ∷ []) h = refl
starts_xml-digits (a ∷ b ∷ []) h = refl
starts_xml-digits (a ∷ b ∷ c ∷ rest) h = ground arith

starts_xml-append :
    (base ds : Bytes) → starts_xml base ≡ false → All IsDigit ds → starts_xml (base ++ ds) ≡ false
unfolding starts_xml
starts_xml-append [] ds s h = starts_xml-digits ds h
starts_xml-append (a ∷ []) [] s h = refl
starts_xml-append (a ∷ []) (d ∷ []) s h = refl
starts_xml-append (a ∷ []) (d ∷ d' ∷ ds) s h = ground arith
starts_xml-append (a ∷ b ∷ []) [] s h = refl
starts_xml-append (a ∷ b ∷ []) (d ∷ ds) s h = ground arith
starts_xml-append (a ∷ b ∷ c ∷ rest) ds s h = s

starts_xml-lower :
    (t : Bytes)
    → equal (take 3 (ascii_lower t)) str_xml ≡ false
    → starts_xml (ascii_lower t) ≡ false
unfolding ascii_lower starts_xml str_xml equal
starts_xml-lower [] h = refl
starts_xml-lower (a ∷ []) h = refl
starts_xml-lower (a ∷ b ∷ []) h = refl
starts_xml-lower (a ∷ b ∷ c ∷ rest) h = ground arith

unless_xml-starts_xml : (t : Bytes) → starts_xml (unless_xml (ascii_lower t)) ≡ false
unfolding unless_xml
unless_xml-starts_xml t = elim (Bool-cases (equal (take 3 (ascii_lower t)) str_xml)) [
  | inl hit ↦ rw hit (unfold starts_xml in refl)
  | inr miss ↦ rw miss (starts_xml-lower t miss)
]

suggest_from-starts_xml :
    (ns : Bytes) (found : Option ℕ) → starts_xml (suggest_from ns found) ≡ false
unfolding suggest_from
suggest_from-starts_xml ns none = unfold starts_xml in refl
suggest_from-starts_xml ns (some found) = unless_xml-starts_xml _

pub suggest_prefix-starts_xml : (ns : Bytes) → starts_xml (suggest_prefix ns) ≡ false
unfolding suggest_prefix
suggest_prefix-starts_xml ns = suggest_from-starts_xml ns _

-- What the loop returns resolves to nothing yet, and does not begin with `xml`.
pub find_new-fresh :
    (fuel : ℕ) (s : NsStack) (base result : Bytes) (i : ℕ) {p : Bytes}
    → starts_xml base ≡ false
    → starts_xml result ≡ false
    → find_new fuel s base result i ≡ some p
    → ((ns_for_prefix s p).1 ≡ false) × (starts_xml p ≡ false)
unfolding find_new
find_new-fresh zero s base result i b r h = cc
find_new-fresh (suc fuel) s base result i b r h = elim (Bool-cases (ns_for_prefix s result).1) [
  | inl more ↦
      find_new-fresh fuel s base (base ++ decimal i) (i + 1) b
        (starts_xml-append base (decimal i) b (unfold decimal in decimal_from-IsDigit (suc i) i))
        (rw more at h)
  | inr free ↦ ground arith
]
