-- ===== src/Base/StringEncode/Hex.antt =====
-- The hexadecimal codec of talk/base/stringencode.cc.
use gxmpp.Prelude.{
  ℕ, ◌+◌, ◌-◌, ◌*◌, ◌/◌, ◌%◌, ◌<◌, ◌≡◌, refl, ap, sym, subst, Bytes, Bool, true, false, ◌||◌,
  Option, none, some, [], ◌∷◌, ◌==◌, ltb, if◌then◌else◌, if-rule, arith, length, All, every_below,
  every_below-at, ==_iff,
}
use gxmpp.Base.StringEncode.{
  hex_digit, hex_pairs, hex_byte, hex_unpair, delimited, hex_encode_with_delimiter,
  hex_decode_with_delimiter, or_nothing,
}

abbrev gives : Option ℕ → ℕ → Bool
gives none n = false
gives (some m) n = m == n

gives_sound : (o : Option ℕ) (n : ℕ) → gives o n ≡ true → o ≡ some n
gives_sound none n h = absurd (cc)
gives_sound (some m) n h = ap some ((==_iff m n).0 h)

hex_byte_table :
    every_below (λ n. gives (hex_byte (hex_digit (n / 16 % 16)) (hex_digit (n % 16))) n) 256 ≡ true
unfolding every_below hex_byte hex_digit
hex_byte_table = refl

hex_byte-hex_digit :
    (n : ℕ) → n < 256 → hex_byte (hex_digit (n / 16 % 16)) (hex_digit (n % 16)) ≡ some n
hex_byte-hex_digit n small = gives_sound _ n (every_below-at _ 256 n small hex_byte_table)

hex_unpair-delimited :
    (delimiter h l a b c : ℕ) (t whole : Bytes)
    → hex_byte h l ≡ some c
    → hex_unpair delimiter (a ∷ b ∷ t) ≡ some whole
    → hex_unpair delimiter (h ∷ l ∷ delimited delimiter (a ∷ b ∷ t)) ≡ some (c ∷ whole)
unfolding hex_unpair
hex_unpair-delimited delimiter h l a b c t whole e f = ground (arith, e, f)

hex_unpair-hex_pairs :
    (delimiter : ℕ) (s : Bytes)
    → All (λ c. c < 256) s
    → hex_unpair delimiter (hex_pairs delimiter s) ≡ some s
unfolding hex_pairs hex_unpair
hex_unpair-hex_pairs delimiter [] small = refl
hex_unpair-hex_pairs delimiter (c ∷ []) small = rw (hex_byte-hex_digit c small.0) refl
hex_unpair-hex_pairs delimiter (c ∷ d ∷ []) small =
    hex_unpair-delimited delimiter (hex_digit (c / 16 % 16)) (hex_digit (c % 16)) _ _ c [] (d ∷ [])
      (hex_byte-hex_digit c small.0) (hex_unpair-hex_pairs delimiter (d ∷ []) small.1)
hex_unpair-hex_pairs delimiter (c ∷ d ∷ e ∷ s) small =
    hex_unpair-delimited delimiter (hex_digit (c / 16 % 16)) (hex_digit (c % 16)) _ _ c
      (delimited delimiter (hex_pairs delimiter (e ∷ s))) (d ∷ e ∷ s) (hex_byte-hex_digit c small.0)
      (hex_unpair-hex_pairs delimiter (d ∷ e ∷ s) small.1)

length-hex_pairs :
    (delimiter : ℕ) (s : Bytes)
    → length (hex_pairs delimiter s) ≡ (if delimiter == 0 then length s * 2 else length s * 3 - 1)
unfolding hex_pairs
length-hex_pairs delimiter [] = ground arith
length-hex_pairs delimiter (c ∷ []) = ground arith
length-hex_pairs delimiter (c ∷ d ∷ s) = ground (arith, length-hex_pairs delimiter (d ∷ s))

-- With any delimiter, none included, and buffers with room, the hexadecimal decoder reads back
-- every text of bytes from what the encoder writes.
pub hex_decode-hex_encode :
    (size room delimiter : ℕ) (s : Bytes)
    → All (λ c. c < 256) s
    → length s * 3 < size
    → length s < room
    → hex_decode_with_delimiter room delimiter (hex_encode_with_delimiter size delimiter s) ≡ s
unfolding hex_decode_with_delimiter hex_encode_with_delimiter
hex_decode-hex_encode size room delimiter s small fits enough =
    let pairs = hex_pairs delimiter s in
    let written : hex_encode_with_delimiter size delimiter s ≡ pairs = ground (arith, fits) in
    let width = length-hex_pairs delimiter s in
    subst (λ text. hex_decode_with_delimiter room delimiter text ≡ s) (sym written)
      (if-rule (λ r. r ≡ s)
        (room == 0
          || ltb room (if delimiter == 0 then length pairs / 2 else (length pairs + 1) / 3))
        (λ e. absurd (ground (arith, e, enough, width)))
        (λ _. ap or_nothing (hex_unpair-hex_pairs delimiter s small)))
