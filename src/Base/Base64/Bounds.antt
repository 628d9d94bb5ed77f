-- ===== src/Base/Base64/Bounds.antt =====
-- How far the decoder of talk/base/base64.cc reads and how much it writes, with any flags.
use gxmpp.Prelude.{
  ℕ, zero, suc, ◌+◌, ◌*◌, ◌-◌, ◌<◌, ◌≤◌, ◌≡◌, refl, sym, Bool, true, inl, inr, some, Option, [],
  ◌∷◌, ◌++◌, arith, Bytes, length, length-append, length-drop, drop, Bool-cases, ltb, ltb→lt,
  ltb→le, List, ◌==◌, elim-rule, if-rule, subst,
}
use gxmpp.Base.Base64.{
  Scan, scan, scan_char, start_scan, finish_quantum, decode, decode_from, quantum_bytes,
  finish_decode, Decoded, Quantum, get_next_quantum, parse_of, pad_of, do_pad_no, advance,
}
use gxmpp.Base.Base64Chars.{from_char}
use gxmpp.Base.Base64.Encoding.{decode_from-done, decode_from-last, decode_from-more}

-- The loop of `GetNextQuantum` began at `start`, and the text ends at `end`.
record IsBounded (start end : ℕ) (s : Scan) : Type 0 where
  enough : start + s.byte_len + s.pad_len ≤ s.dpos
  few : s.byte_len + s.pad_len ≤ 4
  after : 0 < s.pad_len → start + s.byte_len ≤ s.pad_start
  before : 0 < s.pad_len → s.pad_start ≤ end
  inside : s.dpos ≤ end

module _ (start end : ℕ) where
  scan_char-IsBounded :
      (pf : ℕ) (ip : Bool) (q : ℕ) (s s' : Scan)
      → IsBounded start end s
      → s.dpos < end
      → s.byte_len < 4
      → scan_char pf ip q s ≡ some s'
      → IsBounded start end (advance s')
  unfolding scan_char
  scan_char-IsBounded pf ip q s s' b h k e = ground (arith, b.after, b.before)

  scan_char-dpos :
      (pf : ℕ) (ip : Bool) (q : ℕ) (s s' : Scan) → scan_char pf ip q s ≡ some s' → s'.dpos ≡ s.dpos
  unfolding scan_char
  scan_char-dpos pf ip q s s' e = ground arith

  scan-IsBounded :
      (pf : ℕ) (ip : Bool) (t : Bytes) (s : Scan)
      → IsBounded start end s
      → s.dpos + length t ≡ end
      → IsBounded start end (scan pf ip t s)
  unfolding scan
  scan-IsBounded pf ip [] s b h = b
  scan-IsBounded pf ip (c ∷ t) s b h =
      if-rule (IsBounded start end) (ltb s.byte_len 4)
        (λ k.
          elim-rule (IsBounded start end) (scan_char pf ip (from_char c) s) (λ _. b)
            (λ s' e.
              scan-IsBounded pf ip t (advance s')
                (scan_char-IsBounded pf ip _ s s' b (omega arith) (ltb→lt s.byte_len 4 k) e)
                (omega (arith, h, scan_char-dpos pf ip (from_char c) s s' e))))
        (λ _. b)

  -- What one quantum reads.
  record Reads (q : Quantum) : Type 0 where
    forward : start + q.qlen ≤ q.dpos
    within : q.dpos ≤ end
    short : q.qlen ≤ 4

  finish_quantum-Reads : (s : Scan) → IsBounded start end s → Reads (finish_quantum s)
  unfolding finish_quantum
  finish_quantum-Reads s b = ground (arith, b.after, b.before)

get_next_quantum-Reads :
    (pf : ℕ) (ip : Bool) (text : Bytes) (d : ℕ)
    → d ≤ length text
    → Reads d (length text) (get_next_quantum pf ip text d)
unfolding get_next_quantum start_scan
get_next_quantum-Reads pf ip text d h = finish_quantum-Reads d (length text) _ (
    scan-IsBounded d (length text) pf ip (drop d text) _ (omega arith)
      (omega (arith, length-drop d text)))

length-quantum_bytes : (n : ℕ) (qs : List ℕ) → n ≤ 4 → 4 * length (quantum_bytes n qs) ≤ 3 * n
unfolding quantum_bytes
length-quantum_bytes n qs h = ground arith

abbrev Bounded : ℕ → Decoded → Type 0
Bounded n r = (4 * length r.result ≤ 3 * r.used) × (r.used ≤ n)

module _ (flags : ℕ) (text : Bytes) where
  abbrev next : ℕ → Quantum
  next d = get_next_quantum (parse_of flags) (do_pad_no == pad_of flags) text d

  abbrev Ends : Option Decoded → Type 0
  Ends o = (r : Decoded) × (o ≡ some r) × Bounded (length text) r

  finish_decode-Ends :
      (ok : Bool) (got : Bytes) (d : ℕ)
      → 4 * length got ≤ 3 * d
      → d ≤ length text
      → Ends (some (finish_decode flags text ok got d))
  unfolding finish_decode
  finish_decode-Ends ok got d h k = (_, refl, (h, k))

  -- The bytes of a quantum are fewer than the characters that it read.
  grown :
      (d : ℕ) (got : Bytes)
      → d ≤ length text
      → 4 * length got ≤ 3 * d
      → 4 * length (got ++ quantum_bytes (next d).qlen (next d).qbuf) ≤ 3 * (next d).dpos
  grown d got h k =
      let read = get_next_quantum-Reads (parse_of flags) (do_pad_no == pad_of flags) text d h in
      omega (
        arith,
        length-append got (quantum_bytes (next d).qlen (next d).qbuf),
        length-quantum_bytes (next d).qlen (next d).qbuf read.short,
        read.forward,
      )

  decode_from-Ends :
      (fuel d : ℕ) (got : Bytes)
      → length text - d < fuel
      → d ≤ length text
      → 4 * length got ≤ 3 * d
      → Ends (decode_from fuel flags text d got)
  decode_from-Ends zero d got m h k = absurd (omega arith)
  decode_from-Ends (suc f) d got m h k =
      let read = get_next_quantum-Reads (parse_of flags) (do_pad_no == pad_of flags) text d h in
      elim (Bool-cases (ltb d (length text))) [
        | inr done ↦
            subst Ends (sym (decode_from-done flags text f d got (ltb→le d (length text) done)))
              (finish_decode-Ends true got d k h)
        | inl more ↦ elim (Bool-cases (ltb (next d).qlen 4)) [
          | inl last ↦
              subst Ends
                (sym (
                  decode_from-last flags text f d got (next d) (ltb→lt _ _ more) refl
                    (ltb→lt _ _ last)))
                (finish_decode-Ends _ _ _ (grown d got h k) read.within)
          | inr full ↦
              let four : (next d).qlen ≡ 4 = omega (arith, ltb→le _ _ full, read.short) in
              subst Ends
                (sym (decode_from-more flags text f d got (next d) (ltb→lt _ _ more) refl four))
                (decode_from-Ends f (next d).dpos _
                  (omega (arith, four, read.forward, ltb→lt d (length text) more)) read.within
                  (grown d got h k))
        ]
      ]

-- With any flags and any text the decoder ends with a result; it has read no more than the text,
-- and its result has at most three bytes for each four characters read.
pub decode_bounds :
    (flags : ℕ) (text : Bytes)
    → (r : Decoded) × (decode flags text ≡ some r)
      × (4 * length r.result ≤ 3 * r.used)
      × (r.used ≤ length text)
unfolding decode
decode_bounds flags text =
    let (r, e, b) =
      decode_from-Ends flags text (suc (length text)) 0 [] (omega arith) (omega arith)
        (omega arith) in
    (r, e, b.0, b.1)
