-- ===== src/Base/Base64Chars.antt =====
-- The characters of talk/base/base64.cc and its two tables.
use gxmpp.Prelude.{
  ℕ, Bool, true, ◌&&◌, ◌||◌, List, [], ◌∷◌, Bytes, codes, ◌==◌, leb, get_or, if◌then◌else◌, suc,
  length, find, Option, some, none, false,
}

abbrev pub pad_char : ℕ
pad_char = b'='

-- The marks of the decode table for the pad, white space and illegal characters.
abbrev pub pd : ℕ
pd = 0xFD

abbrev pub sp : ℕ
sp = 0xFE

abbrev pub il : ℕ
il = 0xFF

abbrev pub base64_table : Bytes
base64_table = codes "ABCDEFGHIJKLMNOPQRSTUVWXYZabcdefghijklmnopqrstuvwxyz0123456789+/"

abbrev pub decode_table : List ℕ
decode_table =
    il ∷ il ∷ il ∷ il ∷ il ∷ il ∷ il ∷ il ∷ il ∷ sp ∷ sp ∷ sp ∷ sp ∷ sp ∷ il ∷ il ∷ il ∷ il ∷ il
    ∷ il ∷ il ∷ il ∷ il ∷ il ∷ il ∷ il ∷ il ∷ il ∷ il ∷ il ∷ il ∷ il ∷ sp ∷ il ∷ il ∷ il ∷ il ∷ il
    ∷ il ∷ il ∷ il ∷ il ∷ il ∷ 62 ∷ il ∷ il ∷ il ∷ 63 ∷ 52 ∷ 53 ∷ 54 ∷ 55 ∷ 56 ∷ 57 ∷ 58 ∷ 59 ∷ 60
    ∷ 61 ∷ il ∷ il ∷ il ∷ pd ∷ il ∷ il ∷ il ∷ 0 ∷ 1 ∷ 2 ∷ 3 ∷ 4 ∷ 5 ∷ 6 ∷ 7 ∷ 8 ∷ 9 ∷ 10 ∷ 11 ∷ 12
    ∷ 13 ∷ 14 ∷ 15 ∷ 16 ∷ 17 ∷ 18 ∷ 19 ∷ 20 ∷ 21 ∷ 22 ∷ 23 ∷ 24 ∷ 25 ∷ il ∷ il ∷ il ∷ il ∷ il ∷ il
    ∷ 26 ∷ 27 ∷ 28 ∷ 29 ∷ 30 ∷ 31 ∷ 32 ∷ 33 ∷ 34 ∷ 35 ∷ 36 ∷ 37 ∷ 38 ∷ 39 ∷ 40 ∷ 41 ∷ 42 ∷ 43 ∷ 44
    ∷ 45 ∷ 46 ∷ 47 ∷ 48 ∷ 49 ∷ 50 ∷ 51 ∷ il ∷ il ∷ il ∷ il ∷ il ∷ il ∷ il ∷ il ∷ il ∷ il ∷ il ∷ il
    ∷ il ∷ il ∷ il ∷ il ∷ il ∷ il ∷ il ∷ il ∷ il ∷ il ∷ il ∷ il ∷ il ∷ il ∷ il ∷ il ∷ il ∷ il ∷ il
    ∷ il ∷ il ∷ il ∷ il ∷ il ∷ il ∷ il ∷ il ∷ il ∷ il ∷ il ∷ il ∷ il ∷ il ∷ il ∷ il ∷ il ∷ il ∷ il
    ∷ il ∷ il ∷ il ∷ il ∷ il ∷ il ∷ il ∷ il ∷ il ∷ il ∷ il ∷ il ∷ il ∷ il ∷ il ∷ il ∷ il ∷ il ∷ il
    ∷ il ∷ il ∷ il ∷ il ∷ il ∷ il ∷ il ∷ il ∷ il ∷ il ∷ il ∷ il ∷ il ∷ il ∷ il ∷ il ∷ il ∷ il ∷ il
    ∷ il ∷ il ∷ il ∷ il ∷ il ∷ il ∷ il ∷ il ∷ il ∷ il ∷ il ∷ il ∷ il ∷ il ∷ il ∷ il ∷ il ∷ il ∷ il
    ∷ il ∷ il ∷ il ∷ il ∷ il ∷ il ∷ il ∷ il ∷ il ∷ il ∷ il ∷ il ∷ il ∷ il ∷ il ∷ il ∷ il ∷ il ∷ il
    ∷ il ∷ il ∷ il ∷ il ∷ il ∷ il ∷ il ∷ []

unfoldable pub to_char : ℕ → ℕ
to_char c = get_or base64_table c 0

unfoldable pub from_char : ℕ → ℕ
from_char c = get_or decode_table c il

unfoldable pub is_base64_char : ℕ → Bool
is_base64_char ch =
    leb b'A' ch && leb ch b'Z'
    || leb b'a' ch && leb ch b'z'
    || leb b'0' ch && leb ch b'9'
    || ch == b'+'
    || ch == b'/'

unfoldable pub is_base64_encoded : Bytes → Bool
unfolding is_base64_char
is_base64_encoded [] = true
is_base64_encoded (c ∷ s) = is_base64_char c && is_base64_encoded s

-- `GetNextBase64Char`, with a place for the next character: what it returns and writes there. `none` is
-- a read past the table, which follows where `strchr` finds the NUL at its end.
unfoldable pub get_next_base64_char : ℕ → Option (Bool × Option ℕ)
unfolding find to_char
get_next_base64_char ch = elim (find ch base64_table) [
  | none ↦ if ch == 0 then none else some (false, none)
  | some i ↦
      if suc i == length base64_table
      then some (true, some (to_char 0))
      else some (true, some (get_or base64_table (suc i) 0))
]
