-- ===== src/Tests/Base64Tests.antt =====
-- Runs of talk/base/base64.cc.
use gxmpp.Prelude.{
  ◌≡◌, ◌≤◌, ◌*◌, ◌+◌, ℕ, refl, codes, Bytes, true, false, some, none, length, arith,
}
use gxmpp.Base.Base64.{encode, decode, do_strict, Decoded, get_next_quantum, quantum_bytes, last_ok}
use gxmpp.Base.Base64Chars.{get_next_base64_char, to_char, from_char, is_base64_encoded}
use gxmpp.Base.Base64.Encoding.{decode-encode}
use gxmpp.Base.Base64.Decoding.{encode-decode}
use gxmpp.Base.Base64.Bounds.{decode_bounds}

abbrev hello : Bytes
hello = codes "hello"

abbrev coded : Bytes
coded = codes "aGVsbG8="

abbrev decoded : Decoded
decoded = record { success = true; result = hello; used = 8 }

-- `DO_LAX`.
abbrev lax : ℕ
lax = 3 + 8 + 32

encode-hello : encode hello ≡ coded
unfolding encode to_char
encode-hello = refl

decode-hello : decode do_strict coded ≡ some decoded
unfolding decode get_next_quantum quantum_bytes last_ok from_char
decode-hello = refl

-- A missing pad is refused, and so are bits that are left over, and white space.
decode_unpadded :
    decode do_strict (codes "aGVsbG8") ≡ some (record { success = false; result = hello; used = 7 })
unfolding decode get_next_quantum quantum_bytes last_ok from_char
decode_unpadded = refl

decode_unused :
    decode do_strict (codes "aGVsbG9=")
    ≡ some (record { success = false; result = hello; used = 8 })
unfolding decode get_next_quantum quantum_bytes last_ok from_char
decode_unused = refl

-- The lax flags skip what is no symbol, and a pad that data follows.
decode-lax :
    decode lax (codes "a=G?V sbG8") ≡ some (record { success = true; result = hello; used = 10 })
unfolding decode get_next_quantum quantum_bytes last_ok from_char
decode-lax = refl

coded_plain : is_base64_encoded coded ≡ false
unfolding is_base64_encoded
coded_plain = refl

decode-encode_example :
    decode lax (encode hello)
    ≡ some (record { success = true; result = hello; used = length (encode hello) })
decode-encode_example = decode-encode lax hello (omega arith) (omega arith)

encode-decode_example : encode hello ≡ coded
encode-decode_example = encode-decode coded {r = decoded} (omega arith) decode-hello refl

decode_bounds_example :
    (r : Decoded) × (decode lax coded ≡ some r)
    × (4 * length r.result ≤ 3 * r.used)
    × (r.used ≤ length coded)
decode_bounds_example = decode_bounds lax coded

get_next_base64_char-last : get_next_base64_char b'/' ≡ some (true, some b'A')
unfolding get_next_base64_char
get_next_base64_char-last = refl

get_next_base64_char-nul : get_next_base64_char 0 ≡ none
unfolding get_next_base64_char
get_next_base64_char-nul = refl
