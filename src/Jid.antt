-- ===== src/Jid.antt =====
-- The class `Jid` of talk/xmpp/jid.h and talk/xmpp/jid.cc.
pub mod Prep
pub mod Normal
pub mod Domain
pub mod Split
pub mod RoundTrip
pub mod CaseFold
pub mod Order
use gxmpp.Prelude.{
  ℕ, suc, ◌+◌, ◌-◌, ◌≤◌, Bool, true, false, not, ◌||◌, ◌&&◌, List, [], ◌∷◌, ◌++◌, Option, none,
  some, Ordering, if◌then◌else◌, ltb, length, take, drop, Bytes, equal, is_empty, find, substr,
  compare_bytes,
}
use Prep.{prep_node, prep_domain, prep_resource}

pub record Jid : Type 0 where
  pub node : Bytes
  pub domain : Bytes
  pub resource : Bytes

-- `Jid()`
abbrev pub empty : Jid
empty = record { node = []; domain = []; resource = [] }

-- `ValidateOrReset`, on the parts that the constructors store first.
unfoldable pub validate_or_reset : Jid → Jid
validate_or_reset j =
    let (node, valid_node) = prep_node j.node in
    let (domain, valid_domain) = prep_domain j.domain in
    let (resource, valid_resource) = prep_resource j.resource in
    if not valid_node || not valid_domain || not valid_resource
    then empty
    else (record { node = node; domain = domain; resource = resource })

-- `Jid(node_name, domain_name, resource_name)`
unfoldable pub from_parts : Bytes → Bytes → Bytes → Jid
from_parts node domain resource =
    validate_or_reset (record { node = node; domain = domain; resource = resource })

-- `at < slash && at != npos`
unfoldable pub node_end : Option ℕ → Option ℕ → Option ℕ
node_end none slash = none
node_end (some at) none = some at
node_end (some at) (some slash) = if ltb at slash then some at else none

-- The three parts, from the place of the slash and that of the `@` that ends a node.
unfoldable pub cut : Bytes → Option ℕ → Option ℕ → Jid
cut s slash at =
    let domain_begin : ℕ = elim at [ none ↦ 0 | some i ↦ suc i ] in
    let domain_length : ℕ = elim slash [
      | none ↦ length s - domain_begin
      | some i ↦ i - domain_begin
    ] in
    record {
      node = elim at [ none ↦ [] | some i ↦ substr s 0 i ];
      domain = substr s domain_begin domain_length;
      resource = elim slash [ none ↦ [] | some i ↦ drop (suc i) s ];
    }

unfoldable pub split : Bytes → Jid
unfolding find node_end
split s = cut s (find b'/' s) (node_end (find b'@' s) (find b'/' s))

-- `Jid(jid_string)`
unfoldable pub parse : Bytes → Jid
parse s = if is_empty s then empty else validate_or_reset (split s)

unfoldable pub is_valid : Jid → Bool
is_valid j = not (is_empty j.domain)

unfoldable pub is_empty_jid : Jid → Bool
is_empty_jid j = is_empty j.node && is_empty j.domain && is_empty j.resource

unfoldable pub is_bare : Jid → Bool
unfolding is_empty_jid is_valid
is_bare j = if is_empty_jid j then true else is_valid j && is_empty j.resource

unfoldable pub is_full : Jid → Bool
unfolding is_valid
is_full j = is_valid j && not (is_empty j.resource)

-- `Str`
unfoldable pub str : Jid → Bytes
unfolding is_valid
str j =
    if not (is_valid j)
    then []
    else (let with_node = if not (is_empty j.node) then j.node ++ b'@' ∷ [] else [] in
        let with_domain = with_node ++ j.domain in
        if not (is_empty j.resource) then with_domain ++ (b'/' ∷ j.resource) else with_domain)

unfoldable pub bare_jid : Jid → Jid
unfolding is_valid is_full
bare_jid j =
    if not (is_valid j) then empty else if not (is_full j) then j else from_parts j.node j.domain []

unfoldable pub bare_equals : Jid → Jid → Bool
bare_equals j other = equal other.node j.node && equal other.domain j.domain

-- `operator==`
unfoldable pub eq_jid : Jid → Jid → Bool
eq_jid j other =
    equal other.node j.node && equal other.domain j.domain && equal other.resource j.resource

-- `Compare`: the sign of the result.
unfoldable pub compare_jid : Jid → Jid → Ordering
compare_jid j other = elim (compare_bytes j.node other.node) [
  | Ordering.eq ↦ elim (compare_bytes j.domain other.domain) [
    | Ordering.eq ↦ compare_bytes j.resource other.resource
    | Ordering.lt ↦ Ordering.lt
    | Ordering.gt ↦ Ordering.gt
  ]
  | Ordering.lt ↦ Ordering.lt
  | Ordering.gt ↦ Ordering.gt
]
