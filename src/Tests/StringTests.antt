-- ===== src/Tests/StringTests.antt =====
-- Runs of talk/base/stringencode.cc.
use gxmpp.Prelude.{◌≡◌, ◌≤◌, ◌<◌, refl, some, [], ◌∷◌, All, codes, Bytes, arith, length}
use gxmpp.Base.StringEncode.{
  hex_encode_with_delimiter, hex_decode_with_delimiter, utf8_encode, utf8_decode,
}
use gxmpp.Base.StringEncode.Hex.{hex_decode-hex_encode}
use gxmpp.Base.StringEncode.Utf8.{Decodes, utf8_decode-utf8_encode}

abbrev two_bytes : Bytes
two_bytes = 0xab ∷ 0x05 ∷ []

hex_encode-two : hex_encode_with_delimiter 6 b':' two_bytes ≡ codes "ab:05"
unfolding hex_encode_with_delimiter
hex_encode-two = refl

-- Letters that are no hexadecimal digits are taken.
hex_decode-letters : hex_decode_with_delimiter 1 0 (codes "0z") ≡ 35 ∷ []
unfolding hex_decode_with_delimiter
hex_decode-letters = refl

utf8_encode-euro : utf8_encode 4 0x20ac ≡ 0xe2 ∷ 0x82 ∷ 0xac ∷ []
unfolding utf8_encode
utf8_encode-euro = refl

-- A form that is longer than it needs to be is taken.
utf8_decode-overlong : utf8_decode 0xc0 (0x80 ∷ []) ≡ some (2, 0)
unfolding utf8_decode
utf8_decode-overlong = refl

hex_decode-hex_encode_example :
    hex_decode_with_delimiter 3 b':' (hex_encode_with_delimiter 7 b':' two_bytes) ≡ two_bytes
hex_decode-hex_encode_example =
    hex_decode-hex_encode 7 3 b':' two_bytes (omega arith, (omega arith, tt)) (omega arith)
      (omega arith)

utf8_decode-utf8_encode_example :
    Decodes 0x20ac (codes "x") (utf8_encode 4 0x20ac)
    × (length (utf8_encode 4 0x20ac) ≤ 4)
    × All (λ c. c < 256) (utf8_encode 4 0x20ac)
utf8_decode-utf8_encode_example = utf8_decode-utf8_encode 4 0x20ac (codes "x") (omega arith)
