-- ===== src/Base/Base64/Decoding.antt =====
-- The strict decoder of talk/base/base64.cc takes the texts of the encoder, and no others.
use gxmpp.Prelude.{
  ℕ, zero, suc, ◌+◌, ◌<◌, ◌≤◌, ◌≡◌, refl, sym, ap, ◌∙◌, Bool, true, inl, inr, some, [], ◌∷◌, ◌++◌,
  append-nil, append_assoc, arith, Bytes, All, All-drop, subst, some_injective, Option, length,
  length-drop, drop, Bool-cases, ltb, ltb→lt, ltb→le, none-ne-some,
}
use gxmpp.Base.Base64.{
  encode, decode, decode_from, quantum_bytes, unused_bits, last_ok, finish_decode, Decoded, Quantum,
  do_strict, get_next_quantum,
}
use gxmpp.Base.Base64Chars.{to_char}
use gxmpp.Base.Base64.Shapes.{Shape, shape}
use gxmpp.Base.Base64.Encoding.{decode_from-done, decode_from-last, decode_from-more, drop_four}

encode_full :
    (q0 q1 q2 q3 : ℕ) (s : Bytes)
    → q0 < 64
    → q1 < 64
    → q2 < 64
    → q3 < 64
    → encode (quantum_bytes 4 (q0 ∷ q1 ∷ q2 ∷ q3 ∷ []) ++ s)
      ≡ to_char q0 ∷ to_char q1 ∷ to_char q2 ∷ to_char q3 ∷ encode s
unfolding encode quantum_bytes
encode_full q0 q1 q2 q3 s h0 h1 h2 h3 = ground arith

encode_three :
    (q0 q1 q2 : ℕ)
    → q0 < 64
    → q1 < 64
    → q2 < 64
    → unused_bits 3 (q0 ∷ q1 ∷ q2 ∷ 0 ∷ []) ≡ 0
    → encode (quantum_bytes 3 (q0 ∷ q1 ∷ q2 ∷ 0 ∷ []))
      ≡ to_char q0 ∷ to_char q1 ∷ to_char q2 ∷ b'=' ∷ []
unfolding encode quantum_bytes unused_bits
encode_three q0 q1 q2 h0 h1 h2 u = ground arith

encode_two :
    (q0 q1 : ℕ)
    → q0 < 64
    → q1 < 64
    → unused_bits 2 (q0 ∷ q1 ∷ 0 ∷ 0 ∷ []) ≡ 0
    → encode (quantum_bytes 2 (q0 ∷ q1 ∷ 0 ∷ 0 ∷ [])) ≡ to_char q0 ∷ to_char q1 ∷ b'=' ∷ b'=' ∷ []
unfolding encode quantum_bytes unused_bits
encode_two q0 q1 h0 h1 u = ground arith

module _ (text : Bytes) where
  -- What a success says of the last quantum.
  finish_decode-success :
      (ok : Bool) (got : Bytes) (d : ℕ)
      → (finish_decode do_strict text ok got d).success ≡ true
      → (ok ≡ true) × (d ≡ length text)
  unfolding finish_decode
  finish_decode-success ok got d h = ground arith

  last_ok-strict :
      (q : Quantum)
      → last_ok do_strict q ≡ true
      → (unused_bits q.qlen q.qbuf ≡ 0) × (q.padded ≡ true)
  unfolding last_ok
  last_ok-strict q h = ground arith

  abbrev Undoes : Bytes → ℕ → Option Decoded → Type 0
  Undoes got d o =
      (r : Decoded)
      → o ≡ some r
      → r.success ≡ true
      → (s : Bytes) × (r.result ≡ got ++ s) × (encode s ≡ drop d text)

  Undoes-finish :
      (ok : Bool) (got s : Bytes) (d d' : ℕ)
      → ((ok ≡ true) → (d' ≡ length text) → encode s ≡ drop d text)
      → Undoes got d (some (finish_decode do_strict text ok (got ++ s) d'))
  unfolding finish_decode
  Undoes-finish ok got s d d' h r e success =
      let at_end =
        finish_decode-success ok (got ++ s) d'
          (subst (λ x. x.success ≡ true) (sym (some_injective e)) success) in
      (s, ap (λ (x : Decoded). x.result) (sym (some_injective e)), h at_end.0 at_end.1)

  drop_end : (d : ℕ) (t : Bytes) → length t ≤ d → drop d t ≡ []
  drop_end zero [] h = refl
  drop_end zero (x ∷ t) h = elim h [ ]
  drop_end (suc d) [] h = refl
  drop_end (suc d) (x ∷ t) h = drop_end d t (omega arith)

  -- Behind a last quantum that ends the text there is nothing.
  rest_nil :
      (d w x y z : ℕ) (rest : Bytes)
      → drop d text ≡ w ∷ x ∷ y ∷ z ∷ rest
      → d + 1 + 1 + 1 + 1 ≡ length text
      → rest ≡ []
  rest_nil d w x y z rest e h =
      sym (drop_four d text e) ∙ drop_end (d + 1 + 1 + 1 + 1) text (omega arith)

  room :
      (d w x y z : ℕ) (rest : Bytes)
      → drop d text ≡ w ∷ x ∷ y ∷ z ∷ rest
      → d + 1 + 1 + 1 + 1 ≤ length text
  room d w x y z rest e = omega (arith, length-drop d text, ap length e)

  Undoes-more :
      (got b : Bytes) (d d' : ℕ) (o : Option Decoded)
      → ((s : Bytes) → encode s ≡ drop d' text → encode (b ++ s) ≡ drop d text)
      → Undoes (got ++ b) d' o
      → Undoes got d o
  Undoes-more got b d d' o h u r e success =
      let (s, p, q) = u r e success in (b ++ s, p ∙ append_assoc got b s, h s q)

  Undoes-done :
      (got : Bytes) (d : ℕ)
      → length text ≤ d
      → Undoes got d (some (finish_decode do_strict text true got d))
  unfolding encode
  Undoes-done got d h =
      subst (λ x. Undoes got d (some (finish_decode do_strict text true x d))) (append-nil got)
        (Undoes-finish true got [] d d (λ _ _. sym (drop_end d text h)))

  decode_from-Undoes :
      All (λ c. c < 256) text
      → (fuel d : ℕ) (got : Bytes) → Undoes got d (decode_from fuel do_strict text d got)
  unfolding get_next_quantum decode_from
  decode_from-Undoes small zero d got = λ r e success. none-ne-some e
  decode_from-Undoes small (suc f) d got = elim (Bool-cases (ltb d (length text))) [
    | inr done ↦
        subst (Undoes got d)
          (sym (decode_from-done do_strict text f d got (ltb→le d (length text) done)))
          (Undoes-done got d (ltb→le d (length text) done))
    | inl more ↦ elim (shape (drop d text) d (All-drop _ d text small)) [
      | Shape.full q0 q1 q2 q3 rest h0 h1 h2 h3 e q ↦
          subst (Undoes got d)
            (sym (decode_from-more do_strict text f d got _ (ltb→lt d (length text) more) q refl))
            (Undoes-more got (quantum_bytes 4 (q0 ∷ q1 ∷ q2 ∷ q3 ∷ [])) d (d + 1 + 1 + 1 + 1) _
              (λ s k.
                encode_full q0 q1 q2 q3 s h0 h1 h2 h3
                ∙ ap (λ x. to_char q0 ∷ to_char q1 ∷ to_char q2 ∷ to_char q3 ∷ x)
                    (k ∙ drop_four d text e)
                ∙ sym e)
              (decode_from-Undoes small f (d + 1 + 1 + 1 + 1) _))
      | Shape.three q0 q1 q2 rest h0 h1 h2 e q ↦
          subst (Undoes got d)
            (sym (
              decode_from-last do_strict text f d got _ (ltb→lt d (length text) more) q
                (omega arith)))
            (Undoes-finish _ got _ d _ (λ ok at_end.
              encode_three q0 q1 q2 h0 h1 h2 (last_ok-strict _ ok).0
              ∙ ap (λ x. to_char q0 ∷ to_char q1 ∷ to_char q2 ∷ b'=' ∷ x)
                  (sym (rest_nil d _ _ _ _ rest e at_end))
              ∙ sym e))
      | Shape.two q0 q1 rest h0 h1 e q ↦
          subst (Undoes got d)
            (sym (
              decode_from-last do_strict text f d got _ (ltb→lt d (length text) more) q
                (omega arith)))
            (Undoes-finish _ got _ d _ (λ ok at_end.
              encode_two q0 q1 h0 h1 (last_ok-strict _ ok).0
              ∙ ap (λ x. to_char q0 ∷ to_char q1 ∷ b'=' ∷ b'=' ∷ x)
                  (sym (rest_nil d _ _ _ _ rest e at_end))
              ∙ sym e))
      | Shape.unpadded q e bad short ↦
          subst (Undoes got d)
            (sym (decode_from-last do_strict text f d got _ (ltb→lt d (length text) more) e short))
            (Undoes-finish _ got _ d _ (λ ok _. cc ((last_ok-strict q ok).1, bad)))
    ]
  ]

-- What the decoder takes with DO_STRICT, of a text of bytes, is what the encoder writes: if it
-- succeeds, the encoder writes that same text for its result.
pub encode-decode :
    (text : Bytes) {r : Decoded}
    → All (λ c. c < 256) text
    → decode do_strict text ≡ some r
    → r.success ≡ true
    → encode r.result ≡ text
unfolding decode
encode-decode text {r} small e success =
    let (s, p, q) = decode_from-Undoes text small (suc (length text)) 0 [] r e success in
    ap encode p ∙ q
