-- ===== src/Base/Base64/Shapes.antt =====
-- The quanta that the decoder of talk/base/base64.cc finds with the flags `DO_STRICT`.
use gxmpp.Prelude.{
  ℕ, ◌+◌, ◌<◌, ◌≡◌, refl, ap, ◌∙◌, false, true, inl, inr, [], ◌∷◌, arith, Bytes, All, set, List,
  subst,
}
use gxmpp.Base.Base64.{scan, start_scan, Quantum, finish_quantum, clear_from}
use gxmpp.Base.Base64Chars.{to_char, pd}
use gxmpp.Base.Base64.Quanta.{at_symbols, scan_symbol, scan_full, scan_pad}
use gxmpp.Base.Base64.Strict.{stage, stage_closed}

abbrev Read : Bytes → ℕ → ℕ → List ℕ → Type 0
Read text d n qs =
    finish_quantum (scan 1 false text (start_scan d))
    ≡ record { qlen = n; qbuf = qs; padded = true; dpos = d + 1 + 1 + 1 + 1 }

module _ (text : Bytes) (d : ℕ) where
  pub data Shape : Type 0 where
    full :
        (q0 q1 q2 q3 : ℕ) (rest : Bytes)
        → q0 < 64
        → q1 < 64
        → q2 < 64
        → q3 < 64
        → text ≡ to_char q0 ∷ to_char q1 ∷ to_char q2 ∷ to_char q3 ∷ rest
        → Read text d 4 (q0 ∷ q1 ∷ q2 ∷ q3 ∷ [])
        → Shape
    three :
        (q0 q1 q2 : ℕ) (rest : Bytes)
        → q0 < 64
        → q1 < 64
        → q2 < 64
        → text ≡ to_char q0 ∷ to_char q1 ∷ to_char q2 ∷ b'=' ∷ rest
        → Read text d 3 (q0 ∷ q1 ∷ q2 ∷ 0 ∷ [])
        → Shape
    two :
        (q0 q1 : ℕ) (rest : Bytes)
        → q0 < 64
        → q1 < 64
        → text ≡ to_char q0 ∷ to_char q1 ∷ b'=' ∷ b'=' ∷ rest
        → Read text d 2 (q0 ∷ q1 ∷ 0 ∷ 0 ∷ [])
        → Shape
    unpadded :
        (q : Quantum)
        → finish_quantum (scan 1 false text (start_scan d)) ≡ q
        → q.padded ≡ false
        → q.qlen < 4
        → Shape

module _ (text : Bytes) (d : ℕ) where
  stopped :
      (b p ps d' : ℕ) (qs : List ℕ)
      → b < 4
      → b + p < 4
      → scan 1 false text (start_scan d)
        ≡ record { byte_len = b; pad_len = p; pad_start = ps; dpos = d'; qbuf = qs }
      → Shape text d
  unfolding finish_quantum
  stopped b p ps d' qs h k e = unpadded _ (ap finish_quantum e) (ground arith) h

  small_rest :
      (c : ℕ) (t rest : Bytes) → All (λ x. x < 256) t → t ≡ c ∷ rest → All (λ x. x < 256) rest
  small_rest c t rest h e = (subst (All (λ x. x < 256)) e h).1

  from_three :
      (q0 q1 q2 : ℕ) (t : Bytes)
      → q0 < 64
      → q1 < 64
      → q2 < 64
      → All (λ c. c < 256) t
      → text ≡ to_char q0 ∷ to_char q1 ∷ to_char q2 ∷ t
      → scan 1 false text (start_scan d)
        ≡ scan 1 false t (at_symbols 3 0 (d + 1 + 1 + 1) (q0 ∷ q1 ∷ q2 ∷ 0 ∷ []))
      → Shape text d
  unfolding finish_quantum clear_from
  from_three q0 q1 q2 t h0 h1 h2 small eT e =
      elim (stage (at_symbols 3 0 (d + 1 + 1 + 1) (q0 ∷ q1 ∷ q2 ∷ 0 ∷ [])) t small (omega arith)) [
        | inl (_, q3, rest, h3, et) ↦
            full q0 q1 q2 q3 rest h0 h1 h2 h3
              (eT ∙ ap (λ x. to_char q0 ∷ to_char q1 ∷ to_char q2 ∷ x) et)
              (ap finish_quantum (
                (e
                  ∙ ap
                      (λ x. scan 1 false x (at_symbols 3 0 (d + 1 + 1 + 1) (q0 ∷ q1 ∷ q2 ∷ 0 ∷ [])))
                      et
                  ∙ scan_symbol 1 false q3 3 0 (d + 1 + 1 + 1) (q0 ∷ q1 ∷ q2 ∷ 0 ∷ []) rest h3
                      (omega arith))
                ∙ scan_full 1 false 0 (d + 1 + 1 + 1 + 1) (q0 ∷ q1 ∷ q2 ∷ q3 ∷ []) rest))
        | inr (inl (_, _, rest, et)) ↦
            three q0 q1 q2 rest h0 h1 h2
              (eT ∙ ap (λ x. to_char q0 ∷ to_char q1 ∷ to_char q2 ∷ x) et)
              (ap finish_quantum (
                e
                ∙ ap (λ x. scan 1 false x (at_symbols 3 0 (d + 1 + 1 + 1) (q0 ∷ q1 ∷ q2 ∷ 0 ∷ [])))
                    et
                ∙ scan_pad 1 (d + 1 + 1 + 1) rest 3 0 0 (q0 ∷ q1 ∷ q2 ∷ 0 ∷ []) (omega arith)
                    (omega arith)
                ∙ stage_closed
                    (record {
                      byte_len = 3;
                      pad_len = 1;
                      pad_start = (d + 1 + 1 + 1);
                      dpos = (d + 1 + 1 + 1 + 1);
                      qbuf = set (q0 ∷ q1 ∷ q2 ∷ 0 ∷ []) 3 pd;
                    })
                    rest (small_rest _ t rest small et) (omega arith) (omega arith) (omega arith)))
        | inr (inr stop) ↦
            stopped 3 0 0 (d + 1 + 1 + 1) (q0 ∷ q1 ∷ q2 ∷ 0 ∷ []) (omega arith) (omega arith)
              (e ∙ stop)
      ]

  from_pad :
      (q0 q1 : ℕ) (t : Bytes)
      → q0 < 64
      → q1 < 64
      → All (λ c. c < 256) t
      → text ≡ to_char q0 ∷ to_char q1 ∷ b'=' ∷ t
      → scan 1 false text (start_scan d)
        ≡ scan 1 false t (record {
          byte_len = 2;
          pad_len = 1;
          pad_start = (d + 1 + 1);
          dpos = (d + 1 + 1 + 1);
          qbuf = set (q0 ∷ q1 ∷ 0 ∷ 0 ∷ []) 2 pd;
        })
      → Shape text d
  unfolding finish_quantum clear_from
  from_pad q0 q1 t h0 h1 small eT e =
      elim (stage
        (record {
          byte_len = 2;
          pad_len = 1;
          pad_start = (d + 1 + 1);
          dpos = (d + 1 + 1 + 1);
          qbuf = set (q0 ∷ q1 ∷ 0 ∷ 0 ∷ []) 2 pd;
        })
        t small (omega arith)) [
          | inl (free, _, _, _, _) ↦ absurd (omega arith)
          | inr (inl (_, _, rest, et)) ↦
              two q0 q1 rest h0 h1 (eT ∙ ap (λ x. to_char q0 ∷ to_char q1 ∷ b'=' ∷ x) et) (
                ap finish_quantum (
                  e
                  ∙ ap
                      (λ x. scan 1 false x (record {
                        byte_len = 2;
                        pad_len = 1;
                        pad_start = (d + 1 + 1);
                        dpos = (d + 1 + 1 + 1);
                        qbuf = set (q0 ∷ q1 ∷ 0 ∷ 0 ∷ []) 2 pd;
                      }))
                      et
                  ∙ scan_pad 1 (d + 1 + 1 + 1) rest 2 1 (d + 1 + 1)
                      (set (q0 ∷ q1 ∷ 0 ∷ 0 ∷ []) 2 pd) (omega arith) (omega arith)
                  ∙ stage_closed
                      (record {
                        byte_len = 2;
                        pad_len = 2;
                        pad_start = (d + 1 + 1);
                        dpos = (d + 1 + 1 + 1 + 1);
                        qbuf = set (set (q0 ∷ q1 ∷ 0 ∷ 0 ∷ []) 2 pd) 2 pd;
                      })
                      rest (small_rest _ t rest small et) (omega arith) (omega arith)
                      (omega arith)))
          | inr (inr stop) ↦
              stopped 2 1 (d + 1 + 1) (d + 1 + 1 + 1) (set (q0 ∷ q1 ∷ 0 ∷ 0 ∷ []) 2 pd)
                (omega arith) (omega arith) (e ∙ stop)
        ]

  from_two :
      (q0 q1 : ℕ) (t : Bytes)
      → q0 < 64
      → q1 < 64
      → All (λ c. c < 256) t
      → text ≡ to_char q0 ∷ to_char q1 ∷ t
      → scan 1 false text (start_scan d)
        ≡ scan 1 false t (at_symbols 2 0 (d + 1 + 1) (q0 ∷ q1 ∷ 0 ∷ 0 ∷ []))
      → Shape text d
  unfolding finish_quantum clear_from
  from_two q0 q1 t h0 h1 small eT e =
      elim (stage (at_symbols 2 0 (d + 1 + 1) (q0 ∷ q1 ∷ 0 ∷ 0 ∷ [])) t small (omega arith)) [
        | inl (_, q2, rest, h2, et) ↦
            from_three q0 q1 q2 rest h0 h1 h2 (small_rest _ t rest small et)
              (eT ∙ ap (λ x. to_char q0 ∷ to_char q1 ∷ x) et)
              (e
                ∙ ap (λ x. scan 1 false x (at_symbols 2 0 (d + 1 + 1) (q0 ∷ q1 ∷ 0 ∷ 0 ∷ []))) et
                ∙ scan_symbol 1 false q2 2 0 (d + 1 + 1) (q0 ∷ q1 ∷ 0 ∷ 0 ∷ []) rest h2
                    (omega arith))
        | inr (inl (_, _, rest, et)) ↦
            from_pad q0 q1 rest h0 h1 (small_rest _ t rest small et)
              (eT ∙ ap (λ x. to_char q0 ∷ to_char q1 ∷ x) et)
              (e
                ∙ ap (λ x. scan 1 false x (at_symbols 2 0 (d + 1 + 1) (q0 ∷ q1 ∷ 0 ∷ 0 ∷ []))) et
                ∙ scan_pad 1 (d + 1 + 1) rest 2 0 0 (q0 ∷ q1 ∷ 0 ∷ 0 ∷ []) (omega arith)
                    (omega arith))
        | inr (inr stop) ↦
            stopped 2 0 0 (d + 1 + 1) (q0 ∷ q1 ∷ 0 ∷ 0 ∷ []) (omega arith) (omega arith) (e ∙ stop)
      ]

  from_one :
      (q0 : ℕ) (t : Bytes)
      → q0 < 64
      → All (λ c. c < 256) t
      → text ≡ to_char q0 ∷ t
      → scan 1 false text (start_scan d)
        ≡ scan 1 false t (at_symbols 1 0 (d + 1) (q0 ∷ 0 ∷ 0 ∷ 0 ∷ []))
      → Shape text d
  from_one q0 t h0 small eT e =
      elim (stage (at_symbols 1 0 (d + 1) (q0 ∷ 0 ∷ 0 ∷ 0 ∷ [])) t small (omega arith)) [
        | inl (_, q1, rest, h1, et) ↦
            from_two q0 q1 rest h0 h1 (small_rest _ t rest small et)
              (eT ∙ ap (λ x. to_char q0 ∷ x) et)
              (e
                ∙ ap (λ x. scan 1 false x (at_symbols 1 0 (d + 1) (q0 ∷ 0 ∷ 0 ∷ 0 ∷ []))) et
                ∙ scan_symbol 1 false q1 1 0 (d + 1) (q0 ∷ 0 ∷ 0 ∷ 0 ∷ []) rest h1 (omega arith))
        | inr (inl (early, _, _, _)) ↦ absurd (omega arith)
        | inr (inr stop) ↦
            stopped 1 0 0 (d + 1) (q0 ∷ 0 ∷ 0 ∷ 0 ∷ []) (omega arith) (omega arith) (e ∙ stop)
      ]

  from_none :
      (t : Bytes)
      → All (λ c. c < 256) t
      → text ≡ t
      → scan 1 false text (start_scan d) ≡ scan 1 false t (at_symbols 0 0 d (0 ∷ 0 ∷ 0 ∷ 0 ∷ []))
      → Shape text d
  from_none t small eT e =
      elim (stage (at_symbols 0 0 d (0 ∷ 0 ∷ 0 ∷ 0 ∷ [])) t small (omega arith)) [
        | inl (_, q0, rest, h0, et) ↦ from_one q0 rest h0 (small_rest _ t rest small et) (eT ∙ et) (
            e
            ∙ ap (λ x. scan 1 false x (at_symbols 0 0 d (0 ∷ 0 ∷ 0 ∷ 0 ∷ []))) et
            ∙ scan_symbol 1 false q0 0 0 d (0 ∷ 0 ∷ 0 ∷ 0 ∷ []) rest h0 (omega arith))
        | inr (inl (early, _, _, _)) ↦ absurd (omega arith)
        | inr (inr stop) ↦
            stopped 0 0 0 d (0 ∷ 0 ∷ 0 ∷ 0 ∷ []) (omega arith) (omega arith) (e ∙ stop)
      ]

  pub shape : All (λ c. c < 256) text → Shape text d
  unfolding start_scan
  shape small = from_none text small refl refl
