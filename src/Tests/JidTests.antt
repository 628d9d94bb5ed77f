-- ===== src/Tests/JidTests.antt =====
-- JIDs (talk/xmpp/jid.cc).
use gxmpp.Prelude.{◌≡◌, refl, subst, [], ◌∷◌, ◌++◌, map, codes, find}
use gxmpp.Jid.{
  Jid, empty, parse, from_parts, str, split, cut, node_end, validate_or_reset, bare_jid,
}
use gxmpp.Jid.Prep.{prep_node, prep_domain, prep_resource, to_lower}
use gxmpp.Jid.RoundTrip.{IsNormal, BareLaws, constructors-IsNormal, parse-str, bare_jid-BareLaws}
use gxmpp.Jid.CaseFold.{from_parts-to_lower}
use gxmpp.Jid.Order.{OrderLaws, compare_jid-OrderLaws}

abbrev alice : Jid
alice = record { node = codes "alice"; domain = codes "example.com"; resource = codes "Home/1" }

parse-alice : parse (codes "Alice@Example.COM/Home/1") ≡ alice
unfolding parse split cut find node_end validate_or_reset prep_node prep_domain prep_resource
parse-alice = refl

-- A space in the node, an empty label and a leading hyphen are refused.
parse_refused :
    (parse (codes "a b@example.com") ≡ empty)
    × (parse (codes "a@example..com") ≡ empty)
    × (parse (codes "a@-example.com") ≡ empty)
unfolding parse split cut find node_end validate_or_reset prep_node prep_domain prep_resource
parse_refused = (refl, refl, refl)

-- A control character in the resource becomes a NUL and is not refused.
parse_control :
    parse (codes "b.c/" ++ 1 ∷ []) ≡ record { node = []; domain = codes "b.c"; resource = 0 ∷ [] }
unfolding parse split cut find node_end validate_or_reset prep_node prep_domain prep_resource
parse_control = refl

alice-IsNormal : IsNormal alice
alice-IsNormal =
    subst IsNormal parse-alice (constructors-IsNormal (codes "Alice@Example.COM/Home/1") [] [] []).0

constructors-IsNormal_example :
    IsNormal (parse (codes "Alice@Example.COM/Home/1")) × IsNormal (from_parts [] (codes "a..b") [])
constructors-IsNormal_example =
    constructors-IsNormal (codes "Alice@Example.COM/Home/1") [] (codes "a..b") []

parse-str_example : parse (str alice) ≡ alice
parse-str_example = parse-str alice alice-IsNormal

bare_jid-BareLaws_example : BareLaws alice (bare_jid alice)
bare_jid-BareLaws_example = bare_jid-BareLaws alice alice-IsNormal

from_parts-to_lower_example :
    from_parts (map to_lower (codes "ALICE")) (map to_lower (codes "Example.COM")) (codes "Home")
    ≡ from_parts (codes "ALICE") (codes "Example.COM") (codes "Home")
from_parts-to_lower_example =
    from_parts-to_lower (codes "ALICE") (codes "Example.COM") (codes "Home")

abbrev bob : Jid
bob = record { node = codes "bob"; domain = codes "a.b"; resource = [] }

compare_jid-OrderLaws_example : OrderLaws (bare_jid alice) alice bob
compare_jid-OrderLaws_example = compare_jid-OrderLaws (bare_jid alice) alice bob
