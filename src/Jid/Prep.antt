-- ===== src/Jid/Prep.antt =====
-- The JID parsing code of talk/xmpp/jid.cc: `PrepNode`, `PrepResource`, `PrepDomain` and what they
-- call. A C++ function that returns a text and sets `*valid` returns a pair here. `unsigned char`
-- values are numbers; `tolower` is that of the C locale.
use gxmpp.Prelude.{
  ℕ, ◌+◌, ◌-◌, Bool, true, false, ◌||◌, ◌&&◌, [], ◌∷◌, ◌++◌, if◌then◌else◌, ltb, leb, ◌==◌, length,
  get_or, Bytes,
}

unfoldable pub is_upper : ℕ → Bool
is_upper ch = leb b'A' ch && leb ch b'Z'

-- The `case` labels of `PrepNodeAscii` that clear `*valid`.
unfoldable pub node_illegal : ℕ → Bool
node_illegal ch =
    leb ch 0x17
    || ch == b' '
    || ch == b'&'
    || ch == b'/'
    || ch == b':'
    || ch == b'<'
    || ch == b'>'
    || ch == b'@'
    || ch == b'"'
    || ch == 0x27
    || ch == 0x7F

unfoldable pub prep_node_ascii : ℕ → ℕ × Bool
unfolding is_upper node_illegal
prep_node_ascii ch =
    if is_upper ch then (ch + 32, true) else if node_illegal ch then (0, false) else (ch, true)

unfoldable pub to_lower : ℕ → ℕ
unfolding is_upper
to_lower ch = if is_upper ch then ch + 32 else ch

-- The body of the loop of `PrepNode`.
unfoldable pub prep_node_char : ℕ → ℕ × Bool
unfolding prep_node_ascii to_lower
prep_node_char ch = if leb ch 0x7F then prep_node_ascii ch else (to_lower ch, true)

abbrev pub max_part : ℕ
max_part = 1023

-- What follows the loop, in all three functions.
unfoldable pub check_length : Bytes → Bytes × Bool
check_length result = if ltb max_part (length result) then ([], false) else (result, true)

unfoldable pub prep_node_from : Bytes → Bytes → Bytes × Bool
unfolding prep_node_char check_length
prep_node_from result [] = check_length result
prep_node_from result (ch ∷ rest) =
    let next = prep_node_from (result ++ (prep_node_char ch).0 ∷ []) rest in
    if (prep_node_char ch).1 then next else ([], false)

unfoldable pub prep_node : Bytes → Bytes × Bool
unfolding prep_node_from
prep_node node = prep_node_from [] node

unfoldable pub prep_resource_ascii : ℕ → ℕ × Bool
prep_resource_ascii ch = if leb ch 0x17 || ch == 0x7F then (0, false) else (ch, true)

-- The loop of `PrepResource` sets `char_valid` and does not read it.
unfoldable pub prep_resource_char : ℕ → ℕ
unfolding prep_resource_ascii
prep_resource_char ch = if leb ch 0x7F then (prep_resource_ascii ch).0 else ch

unfoldable pub prep_resource_from : Bytes → Bytes → Bytes × Bool
unfolding prep_resource_char check_length
prep_resource_from result [] = check_length result
prep_resource_from result (ch ∷ rest) =
    prep_resource_from (result ++ prep_resource_char ch ∷ []) rest

unfoldable pub prep_resource : Bytes → Bytes × Bool
unfolding prep_resource_from
prep_resource resource = prep_resource_from [] resource

-- The `case` labels of `PrepDomainLabelAscii` that clear `*valid`: 0x2D, `-`, is not among them.
unfoldable pub label_illegal : ℕ → Bool
label_illegal ch =
    leb ch 0x2C
    || ch == 0x2E
    || ch == 0x2F
    || (leb 0x3A ch && leb ch 0x40)
    || (leb 0x5B ch && leb ch 0x60)
    || (leb 0x7B ch && leb ch 0x7F)

unfoldable pub prep_domain_label_ascii : ℕ → ℕ × Bool
unfolding is_upper label_illegal
prep_domain_label_ascii ch =
    if is_upper ch then (ch + 32, true) else if label_illegal ch then (0, false) else (ch, true)

unfoldable pub prep_label_char : ℕ → ℕ × Bool
unfolding prep_domain_label_ascii
prep_label_char ch = if leb ch 0x7F then prep_domain_label_ascii ch else (ch, true)

-- `PrepDomainLabel` after its loop, on the buffer and the length that it had before.
unfoldable pub check_label : ℕ → Bytes → Bytes × Bool
check_label start_len buf =
    let count = length buf - start_len in
    if count == 0
    then (buf, false)
    else if ltb 63 count
    then (buf, false)
    else if get_or buf start_len 0 == b'-'
    then (buf, false)
    else if get_or buf (length buf - 1) 0 == b'-'
    then (buf, false)
    else (buf, true)

unfoldable pub prep_label_from : ℕ → Bytes → Bytes → Bytes × Bool
unfolding prep_label_char check_label
prep_label_from start_len buf [] = check_label start_len buf
prep_label_from start_len buf (ch ∷ rest) =
    let buf' = buf ++ (prep_label_char ch).0 ∷ [] in
    let next = prep_label_from start_len buf' rest in
    if (prep_label_char ch).1 then next else (buf', false)

unfoldable pub prep_domain_label : Bytes → Bytes → Bytes × Bool
unfolding prep_label_from
prep_domain_label label buf = prep_label_from (length buf) buf label

-- The loop of the second `PrepDomain`: `label` holds the characters from `last` to `i`.
unfoldable pub prep_domain_from : Bytes → Bytes → Bytes → Bytes × Bool
unfolding prep_domain_label
prep_domain_from buf label [] = prep_domain_label label buf
prep_domain_from buf label (ch ∷ rest) =
    let (buf', valid) = prep_domain_label label buf in
    let dotted = buf' ++ b'.' ∷ [] in
    let after_dot = prep_domain_from dotted [] rest in
    let same_label = prep_domain_from buf (label ++ ch ∷ []) rest in
    if ch == b'.' then (if valid then after_dot else (dotted, false)) else same_label

-- The first `PrepDomain`.
unfoldable pub prep_domain : Bytes → Bytes × Bool
unfolding prep_domain_from check_length
prep_domain domain =
    let (result, valid) = prep_domain_from [] [] domain in
    if valid then check_length result else ([], false)
