-- ===== src/Xml/Element/Attributes.antt =====
-- The attributes of an element (talk/xmllite/xmlelement.cc) as a map from names to values.
use gxmpp.Prelude.{
  ◌≡◌, refl, false, not, ◌&&◌, ◌||◌, List, [], ◌∷◌, ◌++◌, arith, Bytes, if◌then◌else◌,
}
use gxmpp.Xml.QName.{QName, eq_qname, eq_qname_iff}
use gxmpp.Xml.Element.{
  Attr, Element, elem, attr_list, attr, has_attr, find_attr, mem_attr, put_attr, set_attr,
  drop_attr, clear_attr, add_attr,
}

-- No name occurs twice.
abbrev pub IsDistinct : List Attr → Type 0
IsDistinct [] = Unit
IsDistinct (a ∷ rest) = (mem_attr a.name rest ≡ false) × IsDistinct rest

find_attr-put :
    (j k : QName) (v : Bytes) (xs : List Attr)
    → find_attr j (put_attr k v xs) ≡ (if eq_qname k j then v else find_attr j xs)
unfolding find_attr put_attr
find_attr-put j k v [] = refl
find_attr-put j k v (a ∷ xs) =
    ground (
      arith,
      eq_qname_iff a.name k,
      eq_qname_iff a.name j,
      eq_qname_iff k j,
      find_attr-put j k v xs,
    )

mem_attr-put :
    (j k : QName) (v : Bytes) (xs : List Attr)
    → mem_attr j (put_attr k v xs) ≡ (eq_qname k j || mem_attr j xs)
unfolding mem_attr put_attr
mem_attr-put j k v [] = ground arith
mem_attr-put j k v (a ∷ xs) =
    ground
      (arith, eq_qname_iff a.name k, eq_qname_iff a.name j, eq_qname_iff k j, mem_attr-put j k v xs)

put_attr-IsDistinct :
    (k : QName) (v : Bytes) (xs : List Attr) → IsDistinct xs → IsDistinct (put_attr k v xs)
unfolding put_attr mem_attr
put_attr-IsDistinct k v [] d = ground arith
put_attr-IsDistinct k v (a ∷ xs) d = ground (
  arith,
  eq_qname_iff a.name k,
  eq_qname_iff k a.name,
  mem_attr-put a.name k v xs,
  put_attr-IsDistinct k v xs d.1,
)

mem_attr-drop :
    (j k : QName) (xs : List Attr)
    → IsDistinct xs
    → mem_attr j (drop_attr k xs) ≡ (mem_attr j xs && not (eq_qname k j))
unfolding mem_attr drop_attr
mem_attr-drop j k [] d = refl
mem_attr-drop j k (a ∷ xs) d = ground (
  arith,
  eq_qname_iff a.name k,
  eq_qname_iff a.name j,
  eq_qname_iff k j,
  mem_attr-drop j k xs d.1,
)

find_attr-missing : (j : QName) (xs : List Attr) → mem_attr j xs ≡ false → find_attr j xs ≡ []
unfolding find_attr mem_attr
find_attr-missing j [] h = refl
find_attr-missing j (a ∷ xs) h = ground (arith, find_attr-missing j xs)

find_attr-drop :
    (j k : QName) (xs : List Attr)
    → IsDistinct xs
    → find_attr j (drop_attr k xs) ≡ (if eq_qname k j then [] else find_attr j xs)
unfolding find_attr drop_attr
find_attr-drop j k [] d = ground arith
find_attr-drop j k (a ∷ xs) d = ground (
  arith,
  eq_qname_iff a.name k,
  eq_qname_iff a.name j,
  eq_qname_iff k j,
  find_attr-missing j xs,
  find_attr-drop j k xs d.1,
)

drop_attr-IsDistinct : (k : QName) (xs : List Attr) → IsDistinct xs → IsDistinct (drop_attr k xs)
unfolding drop_attr
drop_attr-IsDistinct k [] d = tt
drop_attr-IsDistinct k (a ∷ xs) d =
    ground (arith, mem_attr-drop a.name k xs d.1, drop_attr-IsDistinct k xs d.1)

pub mem_attr-append :
    (j : QName) (xs : List Attr) (a : Attr)
    → mem_attr j (xs ++ a ∷ []) ≡ (mem_attr j xs || eq_qname a.name j)
unfolding mem_attr
mem_attr-append j [] a = ground arith
mem_attr-append j (x ∷ xs) a = ground (arith, mem_attr-append j xs a)

append-IsDistinct :
    (xs : List Attr) (a : Attr)
    → mem_attr a.name xs ≡ false
    → IsDistinct xs
    → IsDistinct (xs ++ a ∷ [])
unfolding mem_attr
append-IsDistinct [] a h d = ground arith
append-IsDistinct (x ∷ xs) a h d = ground (
  arith,
  mem_attr-append x.name xs a,
  eq_qname_iff a.name x.name,
  eq_qname_iff x.name a.name,
  append-IsDistinct xs a,
)

abbrev pub SetLaws : QName → QName → Bytes → Element → Type 0
SetLaws j k v e =
    (attr j (set_attr k v e) ≡ (if eq_qname k j then v else attr j e))
    × (has_attr j (set_attr k v e) ≡ (eq_qname k j || has_attr j e))

-- After SetAttr the name has the value and every other attribute is as it was, for Attr and for
-- HasAttr.
pub set_attr-SetLaws : (j k : QName) (v : Bytes) (e : Element) → SetLaws j k v e
unfolding set_attr
set_attr-SetLaws j k v (elem n xs cs cdata) = (find_attr-put j k v xs, mem_attr-put j k v xs)

abbrev pub ClearLaws : QName → QName → Element → Type 0
ClearLaws j k e =
    (has_attr j (clear_attr k e) ≡ (has_attr j e && not (eq_qname k j)))
    × (attr j (clear_attr k e) ≡ (if eq_qname k j then [] else attr j e))

-- Where no name occurs twice, ClearAttr removes the attribute of that name and leaves every
-- other as it was.
pub clear_attr-ClearLaws : (j k : QName) (e : Element) → IsDistinct (attr_list e) → ClearLaws j k e
unfolding clear_attr
clear_attr-ClearLaws j k (elem n xs cs cdata) d = (mem_attr-drop j k xs d, find_attr-drop j k xs d)

-- Where no attribute name occurs twice, that stays so under SetAttr and ClearAttr, and under
-- AddAttr of a name that the element does not have.
pub attributes-IsDistinct :
    (j k : QName) (v : Bytes) (e : Element)
    → IsDistinct (attr_list e)
    → has_attr j e ≡ false
    → IsDistinct (attr_list (set_attr k v e))
      × IsDistinct (attr_list (clear_attr k e))
      × IsDistinct (attr_list (add_attr j v e))
unfolding set_attr clear_attr add_attr
attributes-IsDistinct j k v (elem n xs cs cdata) d h = (
  put_attr-IsDistinct k v xs d,
  drop_attr-IsDistinct k xs d,
  append-IsDistinct xs (record { name = j; value = v }) h d,
)
