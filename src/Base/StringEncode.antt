-- ===== src/Base/StringEncode.antt =====
-- The hexadecimal and UTF-8 codecs of talk/base/stringencode.cc. A buffer is the bytes that are written
-- to it, as many as the function returns, and the size that it has.
pub mod Hex
pub mod Utf8
use Prim.Native.Nat.{bit_or}
use gxmpp.Prelude.{
  ℕ, zero, suc, ◌+◌, ◌-◌, ◌*◌, ◌/◌, ◌%◌, Bool, true, false, not, ◌&&◌, ◌||◌, Option, none, some,
  List, [], ◌∷◌, ◌++◌, ◌>>=◌, Bytes, codes, ◌==◌, ltb, leb, if◌then◌else◌, length, get_or,
}

-- `hex_encode` of half a byte.
unfoldable pub hex_digit : ℕ → ℕ
hex_digit v = if ltb v 16 then get_or (codes "0123456789abcdef") v 0 else b'!'

-- `hex_decode` of a character. It takes every letter.
unfoldable pub hex_value : ℕ → Option ℕ
hex_value ch =
    if leb b'0' ch && leb ch b'9'
    then some (ch - b'0')
    else if leb b'A' ch && leb ch b'Z'
    then some (ch - b'A' + 10)
    else if leb b'a' ch && leb ch b'z'
    then some (ch - b'a' + 10)
    else none

abbrev pub delimited : ℕ → Bytes → Bytes
delimited delimiter rest = if delimiter == 0 then rest else delimiter ∷ rest

-- The loop of `hex_encode_with_delimiter`.
unfoldable pub hex_pairs : ℕ → Bytes → Bytes
unfolding hex_digit
hex_pairs delimiter [] = []
hex_pairs delimiter (ch ∷ []) = hex_digit (ch / 16 % 16) ∷ hex_digit (ch % 16) ∷ []
hex_pairs delimiter (ch ∷ next ∷ s) =
    let rest = hex_pairs delimiter (next ∷ s) in
    hex_digit (ch / 16 % 16) ∷ hex_digit (ch % 16) ∷ delimited delimiter rest

unfoldable pub hex_encode_with_delimiter : ℕ → ℕ → Bytes → Bytes
unfolding hex_pairs
hex_encode_with_delimiter buflen delimiter s =
    let needed = if delimiter == 0 then length s * 2 + 1 else length s * 3 in
    if buflen == 0 || ltb buflen needed then [] else hex_pairs delimiter s

-- `(h1 << 4) | h2`, as an `unsigned char`.
unfoldable pub hex_byte : ℕ → ℕ → Option ℕ
unfolding hex_value
hex_byte a b = do h1 ← hex_value a; h2 ← hex_value b; some (bit_or (h1 * 16) h2 % 256)

abbrev pub prepend : Option ℕ → Option Bytes → Option Bytes
prepend none rest = none
prepend (some b) none = none
prepend (some b) (some bs) = some (b ∷ bs)

-- The loop of `hex_decode_with_delimiter`; `none` is a return of 0 from within.
unfoldable pub hex_unpair : ℕ → Bytes → Option Bytes
unfolding hex_byte
hex_unpair delimiter [] = some []
hex_unpair delimiter (a ∷ []) = none
hex_unpair delimiter (a ∷ b ∷ []) = prepend (hex_byte a b) (some [])
hex_unpair delimiter (a ∷ b ∷ c ∷ []) = none
hex_unpair delimiter (a ∷ b ∷ c ∷ d ∷ s) =
    let unmarked = hex_unpair delimiter (c ∷ d ∷ s) in
    let marked = hex_unpair delimiter (d ∷ s) in
    prepend (hex_byte a b)
      (if delimiter == 0 then unmarked else if c == delimiter then marked else none)

abbrev pub or_nothing : Option Bytes → Bytes
or_nothing none = []
or_nothing (some s) = s

unfoldable pub hex_decode_with_delimiter : ℕ → ℕ → Bytes → Bytes
unfolding hex_unpair
hex_decode_with_delimiter buflen delimiter source =
    let needed = if delimiter == 0 then length source / 2 else (length source + 1) / 3 in
    if buflen == 0 || ltb buflen needed then [] else or_nothing (hex_unpair delimiter source)

-- The bits that `|` joins do not overlap.
unfoldable pub utf8_encode : ℕ → ℕ → Bytes
utf8_encode buflen value =
    if leb value 0x7F && leb 1 buflen
    then value ∷ []
    else if leb value 0x7FF && leb 2 buflen
    then (0xC0 + value / 64) ∷ (0x80 + value % 64) ∷ []
    else if leb value 0xFFFF && leb 3 buflen
    then (0xE0 + value / 4096) ∷ (0x80 + value / 64 % 64) ∷ (0x80 + value % 64) ∷ []
    else if leb value 0x1F_FFFF && leb 4 buflen
    then (0xF0 + value / 262144)
      ∷ (0x80 + value / 4096 % 64)
      ∷ (0x80 + value / 64 % 64)
      ∷ (0x80 + value % 64)
      ∷ []
    else []

-- `utf8_decode` of a first byte and what follows: the length and the value, `none` for 0. A byte
-- past the end reads as 0 here, which is no trailer, as `srclen` makes it none there.
unfoldable pub utf8_decode : ℕ → Bytes → Option (ℕ × ℕ)
utf8_decode s0 rest =
    let v1 = get_or rest 0 0 % 64 in
    let v2 = v1 * 64 + get_or rest 1 0 % 64 in
    let v3 = v2 * 64 + get_or rest 2 0 % 64 in
    if s0 / 128 % 2 == 0
    then some (1, s0)
    else if not (get_or rest 0 0 / 64 % 4 == 2)
    then none
    else if s0 / 32 % 8 == 6
    then some (2, s0 % 32 * 64 + v1)
    else if not (get_or rest 1 0 / 64 % 4 == 2)
    then none
    else if s0 / 16 % 16 == 14
    then some (3, s0 % 16 * 4096 + v2)
    else if not (get_or rest 2 0 / 64 % 4 == 2)
    then none
    else if s0 / 8 % 32 == 30
    then some (4, s0 % 8 * 262144 + v3)
    else none
