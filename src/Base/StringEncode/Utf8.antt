-- ===== src/Base/StringEncode/Utf8.antt =====
-- The UTF-8 codec of talk/base/stringencode.cc.
use gxmpp.Prelude.{ℕ, ◌^◌, ◌≤◌, ◌<◌, ◌≡◌, Bytes, some, [], ◌∷◌, ◌++◌, arith, length, All}
use gxmpp.Base.StringEncode.{utf8_encode, utf8_decode}

-- Whether the decoder, on this text and what follows it, gives the value and the length of the text.
abbrev pub Decodes : ℕ → Bytes → Bytes → Type 0
Decodes value after [] = 2 ^ 21 ≤ value
Decodes value after (s0 ∷ rest) = utf8_decode s0 (rest ++ after) ≡ some (length (s0 ∷ rest), value)

-- With a buffer of at least four bytes, the UTF-8 decoder reads back from what the encoder
-- writes, whatever comes after it, the value and the number of bytes that were written; the
-- encoder writes nothing just for values of 2^21 and above, never more than the buffer holds,
-- and only bytes.
pub utf8_decode-utf8_encode :
    (buflen value : ℕ) (after : Bytes)
    → 4 ≤ buflen
    → Decodes value after (utf8_encode buflen value)
      × (length (utf8_encode buflen value) ≤ buflen)
      × All (λ c. c < 256) (utf8_encode buflen value)
unfolding utf8_encode utf8_decode
utf8_decode-utf8_encode buflen value after room = ground arith
