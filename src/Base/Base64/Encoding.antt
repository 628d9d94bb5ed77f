-- ===== src/Base/Base64/Encoding.antt =====
-- The encoder and the decoder of talk/base/base64.cc, one after the other.
use gxmpp.Prelude.{
  ℕ, zero, suc, ◌+◌, ◌*◌, ◌/◌, ◌%◌, ◌<◌, ◌≤◌, ◌≡◌, ◌≢◌, refl, ap, ◌∙◌, true, false, some, List, [],
  ◌∷◌, ◌++◌, append-nil, append_assoc, ◌==◌, lt→ltb, arith, Bytes, All, length, drop, drop-drop,
}
use gxmpp.Base.Base64.{
  encode, decode, decode_from, get_next_quantum, quantum_bytes, last_ok, Quantum, finish_decode,
  unused_bits, pad_of, parse_of, do_pad_no,
}
use gxmpp.Base.Base64.Quanta.{quantum_full, quantum_three, quantum_two}

pub length-encode : (s : Bytes) → length (encode s) ≡ (length s + 2) / 3 * 4
unfolding encode
length-encode [] = omega arith
length-encode (a ∷ []) = omega arith
length-encode (a ∷ b ∷ []) = omega arith
length-encode (a ∷ b ∷ c ∷ s) = omega (arith, length-encode s)

bytes_full :
    (a b c : ℕ)
    → a < 256
    → b < 256
    → c < 256
    → quantum_bytes 4
        ((a / 4 % 64) ∷ (a * 16 % 64 + b / 16 % 16) ∷ (b * 4 % 64 + c / 64 % 4) ∷ (c % 64) ∷ [])
      ≡ a ∷ b ∷ c ∷ []
unfolding quantum_bytes
bytes_full a b c ha hb hc = ground arith

bytes_three :
    (a b : ℕ)
    → a < 256
    → b < 256
    → quantum_bytes 3 ((a / 4 % 64) ∷ (a * 16 % 64 + b / 16 % 16) ∷ (b * 4 % 64) ∷ 0 ∷ [])
      ≡ a ∷ b ∷ []
unfolding quantum_bytes
bytes_three a b ha hb = ground arith

bytes_two : (a : ℕ) → a < 256 → quantum_bytes 2 ((a / 4 % 64) ∷ (a * 16 % 64) ∷ 0 ∷ 0 ∷ []) ≡ a ∷ []
unfolding quantum_bytes
bytes_two a ha = ground arith

spare_two : (a : ℕ) → unused_bits 2 ((a / 4 % 64) ∷ (a * 16 % 64) ∷ 0 ∷ 0 ∷ []) ≡ 0
unfolding unused_bits
spare_two a = ground arith

spare_three :
    (a b : ℕ)
    → unused_bits 3 ((a / 4 % 64) ∷ (a * 16 % 64 + b / 16 % 16) ∷ (b * 4 % 64) ∷ 0 ∷ []) ≡ 0
unfolding unused_bits
spare_three a b = ground arith

pub drop_four :
    (d : ℕ) (text : Bytes) {w x y z : ℕ} {rest : Bytes}
    → drop d text ≡ w ∷ x ∷ y ∷ z ∷ rest
    → drop (d + 1 + 1 + 1 + 1) text ≡ rest
drop_four d text e =
    let four : d + 1 + 1 + 1 + 1 ≡ d + 4 = omega arith in
    rw four (drop-drop d 4 text ∙ ap (drop 4) e)

module _ (flags : ℕ) (text : Bytes) where
  pub decode_from-done :
      (f d : ℕ) (got : Bytes)
      → length text ≤ d
      → decode_from (suc f) flags text d got ≡ some (finish_decode flags text true got d)
  unfolding decode_from
  decode_from-done f d got h = ground arith

  pub decode_from-last :
      (f d : ℕ) (got : Bytes) (q : Quantum)
      → d < length text
      → get_next_quantum (parse_of flags) (do_pad_no == pad_of flags) text d ≡ q
      → q.qlen < 4
      → decode_from (suc f) flags text d got
        ≡ some
            (finish_decode flags text (last_ok flags q) (got ++ quantum_bytes q.qlen q.qbuf) q.dpos)
  unfolding decode_from
  decode_from-last f d got q h e l = rw (lt→ltb d (length text) h, e, lt→ltb q.qlen 4 l)

  pub decode_from-more :
      (f d : ℕ) (got : Bytes) (q : Quantum)
      → d < length text
      → get_next_quantum (parse_of flags) (do_pad_no == pad_of flags) text d ≡ q
      → q.qlen ≡ 4
      → decode_from (suc f) flags text d got
        ≡ decode_from f flags text q.dpos (got ++ quantum_bytes q.qlen q.qbuf)
  unfolding decode_from
  decode_from-more f d got q h e l = rw (lt→ltb d (length text) h, e, l)

  module _ (pads : pad_of flags ≢ do_pad_no) where
    last_ok-padded :
        (n d : ℕ) (qs : List ℕ)
        → unused_bits n qs ≡ 0
        → last_ok flags (record { qlen = n; qbuf = qs; padded = true; dpos = d }) ≡ true
    unfolding last_ok
    last_ok-padded n d qs h = ground arith

    no_pad_no : (do_pad_no == pad_of flags) ≡ false
    no_pad_no = ground arith

    finish_end :
        (got : Bytes) (d : ℕ)
        → d ≡ length text
        → finish_decode flags text true got d
          ≡ record { success = true; result = got; used = length text }
    unfolding finish_decode
    finish_end got d h = ground arith

    -- The last quantum, with its pads.
    decode_from-padded :
        (f d n : ℕ) (got bs : Bytes) (qs : List ℕ)
        → d + 4 ≡ length text
        → get_next_quantum (parse_of flags) false text d
          ≡ record { qlen = n; qbuf = qs; padded = true; dpos = d + 1 + 1 + 1 + 1 }
        → n < 4
        → unused_bits n qs ≡ 0
        → quantum_bytes n qs ≡ bs
        → decode_from (suc f) flags text d got
          ≡ some (record { success = true; result = got ++ bs; used = length text })
    decode_from-padded f d n got bs qs k e l u b =
        decode_from-last f d got
          (record { qlen = n; qbuf = qs; padded = true; dpos = d + 1 + 1 + 1 + 1 }) (omega arith)
          (rw no_pad_no e) l
        ∙ rw (last_ok-padded n (d + 1 + 1 + 1 + 1) qs u, b)
            (ap some (finish_end (got ++ bs) _ (omega arith)))

    pub decode_from-encode :
        (s : Bytes) (fuel d : ℕ) (got : Bytes)
        → All (λ x. x < 256) s
        → length (encode s) < fuel
        → drop d text ≡ encode s
        → d + length (encode s) ≡ length text
        → decode_from fuel flags text d got
          ≡ some (record { success = true; result = got ++ s; used = length text })
    unfolding encode
    decode_from-encode s zero d got small h e k = absurd (omega arith)
    decode_from-encode [] (suc f) d got small h e k =
        decode_from-done f d got (omega arith)
        ∙ rw append-nil (ap some (finish_end got d (omega arith)))
    decode_from-encode (a ∷ []) (suc f) d got small h e k =
        decode_from-padded f d 2 got (a ∷ []) _ k
          (quantum_two _ d text _ _ (omega arith) (omega arith) e) (omega arith) (spare_two a)
          (bytes_two a (omega arith))
    decode_from-encode (a ∷ b ∷ []) (suc f) d got small h e k =
        decode_from-padded f d 3 got (a ∷ b ∷ []) _ k
          (quantum_three _ d text _ _ _ (omega arith) (omega arith) (omega arith) e) (omega arith)
          (spare_three a b) (bytes_three a b (omega arith) (omega arith))
    decode_from-encode (a ∷ b ∷ c ∷ s) (suc f) d got small h e k =
        decode_from-more f d got _ (omega arith)
          (quantum_full (parse_of flags) d text (do_pad_no == pad_of flags) (a / 4 % 64)
            (a * 16 % 64 + b / 16 % 16) (b * 4 % 64 + c / 64 % 4) (c % 64) (encode s) (omega arith)
            (omega arith) (omega arith) (omega arith) e)
          refl
        ∙ rw (bytes_full a b c (omega arith) (omega arith) (omega arith)) (
            decode_from-encode s f (d + 1 + 1 + 1 + 1) (got ++ (a ∷ b ∷ c ∷ [])) (small.1.1.1)
              (omega arith) (drop_four d text e) (omega arith)
            ∙ rw append_assoc)

-- The decoder, with any flags but those that refuse pads, gives back the bytes that were
-- encoded, succeeds, and reads the whole text.
pub decode-encode :
    (flags : ℕ) (s : Bytes)
    → All (λ x. x < 256) s
    → pad_of flags ≢ do_pad_no
    → decode flags (encode s)
      ≡ some (record { success = true; result = s; used = length (encode s) })
unfolding decode
decode-encode flags s small pads =
    decode_from-encode flags (encode s) pads s (suc (length (encode s))) 0 [] small (omega arith)
      refl (omega arith)
