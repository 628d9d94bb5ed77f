-- ===== src/Base/Base64/Quanta.antt =====
-- The quanta of talk/base/base64.cc: the tables, and the quanta that the encoder writes.
use gxmpp.Prelude.{
  ℕ, ◌+◌, ◌<◌, ◌≡◌, refl, Bool, true, false, some, List, [], ◌∷◌, ◌==◌, arith, every_below,
  every_below-at, Bytes, drop, set, ◌≤◌, lt→ltb, ap, ◌∙◌, if◌then◌else◌,
}
use gxmpp.Base.Base64.{
  scan_char, scan, Scan, start_scan, finish_quantum, clear_from, get_next_quantum,
}
use gxmpp.Base.Base64Chars.{to_char, from_char, pd}

table_check : every_below (λ c. from_char (to_char c) == c) 64 ≡ true
unfolding every_below to_char from_char
table_check = refl

pub from_char-to_char : (c : ℕ) → c < 64 → from_char (to_char c) ≡ c
from_char-to_char c h =
    ground (arith, every_below-at (λ x. from_char (to_char x) == x) 64 c h table_check)

pub from_char_pad : from_char b'=' ≡ pd
unfolding from_char
from_char_pad = refl

symbol :
    (pf : ℕ) (ip : Bool) (q b ps d : ℕ) (qs : List ℕ)
    → q < 64
    → scan_char pf ip q (record { byte_len = b; pad_len = 0; pad_start = ps; dpos = d; qbuf = qs })
      ≡ some (record { byte_len = b + 1; pad_len = 0; pad_start = ps; dpos = d; qbuf = set qs b q })
unfolding scan_char
symbol pf ip q b ps d qs h = ground arith

abbrev pub at_symbols : ℕ → ℕ → ℕ → List ℕ → Scan
at_symbols b ps d qs = record { byte_len = b; pad_len = 0; pad_start = ps; dpos = d; qbuf = qs }

pub scan_symbol :
    (pf : ℕ) (ip : Bool) (q b ps d : ℕ) (qs : List ℕ) (rest : Bytes)
    → q < 64
    → b < 4
    → scan pf ip (to_char q ∷ rest) (at_symbols b ps d qs)
      ≡ scan pf ip rest (at_symbols (b + 1) ps (d + 1) (set qs b q))
unfolding scan
scan_symbol pf ip q b ps d qs rest h k =
    rw (lt→ltb b 4 k, from_char-to_char q h, symbol pf ip q b ps d qs h)

pub scan_full :
    (pf : ℕ) (ip : Bool) (ps d : ℕ) (qs : List ℕ) (rest : Bytes)
    → scan pf ip rest (at_symbols 4 ps d qs) ≡ at_symbols 4 ps d qs
unfolding scan
scan_full pf ip ps d qs [] = refl
scan_full pf ip ps d qs (c ∷ rest) = refl

pub scan_pad :
    (pf d : ℕ) (rest : Bytes) (b p ps : ℕ) (qs : List ℕ)
    → 2 ≤ b
    → b + p < 4
    → scan pf false
        (b'=' ∷ rest)
        (record { byte_len = b; pad_len = p; pad_start = ps; dpos = d; qbuf = qs })
      ≡ scan pf false rest (record {
        byte_len = b;
        pad_len = p + 1;
        pad_start = if 1 == p + 1 then d else ps;
        dpos = d + 1;
        qbuf = set qs b pd;
      })
unfolding scan scan_char
scan_pad pf d rest b p ps qs h k =
    rw (from_char_pad, lt→ltb b 4 (omega (arith, h, k))) (ground arith)

module _ (pf d : ℕ) (text : Bytes) where
  -- Four symbols are a quantum that is not the last one.
  pub quantum_full :
      (ip : Bool) (q0 q1 q2 q3 : ℕ) (rest : Bytes)
      → q0 < 64
      → q1 < 64
      → q2 < 64
      → q3 < 64
      → drop d text ≡ to_char q0 ∷ to_char q1 ∷ to_char q2 ∷ to_char q3 ∷ rest
      → get_next_quantum pf ip text d ≡ record {
        qlen = 4;
        qbuf = q0 ∷ q1 ∷ q2 ∷ q3 ∷ [];
        padded = true;
        dpos = d + 1 + 1 + 1 + 1;
      }
  unfolding get_next_quantum start_scan finish_quantum clear_from
  quantum_full ip q0 q1 q2 q3 rest h0 h1 h2 h3 e = rw e (
      ap finish_quantum (
        scan_symbol pf ip q0 0 0 d (0 ∷ 0 ∷ 0 ∷ 0 ∷ [])
          (to_char q1 ∷ to_char q2 ∷ to_char q3 ∷ rest) h0 (omega arith)
        ∙ scan_symbol pf ip q1 1 0 (d + 1) (q0 ∷ 0 ∷ 0 ∷ 0 ∷ []) (to_char q2 ∷ to_char q3 ∷ rest) h1
            (omega arith)
        ∙ scan_symbol pf ip q2 2 0 (d + 1 + 1) (q0 ∷ q1 ∷ 0 ∷ 0 ∷ []) (to_char q3 ∷ rest) h2
            (omega arith)
        ∙ scan_symbol pf ip q3 3 0 (d + 1 + 1 + 1) (q0 ∷ q1 ∷ q2 ∷ 0 ∷ []) rest h3 (omega arith)
        ∙ scan_full pf ip 0 (d + 1 + 1 + 1 + 1) (q0 ∷ q1 ∷ q2 ∷ q3 ∷ []) rest))

  pub quantum_three :
      (q0 q1 q2 : ℕ)
      → q0 < 64
      → q1 < 64
      → q2 < 64
      → drop d text ≡ to_char q0 ∷ to_char q1 ∷ to_char q2 ∷ b'=' ∷ []
      → get_next_quantum pf false text d
        ≡ record { qlen = 3; qbuf = q0 ∷ q1 ∷ q2 ∷ 0 ∷ []; padded = true; dpos = d + 1 + 1 + 1 + 1 }
  unfolding get_next_quantum start_scan finish_quantum clear_from scan
  quantum_three q0 q1 q2 h0 h1 h2 e = rw e (
      ap finish_quantum (
        scan_symbol pf false q0 0 0 d (0 ∷ 0 ∷ 0 ∷ 0 ∷ []) (to_char q1 ∷ to_char q2 ∷ b'=' ∷ []) h0
          (omega arith)
        ∙ scan_symbol pf false q1 1 0 (d + 1) (q0 ∷ 0 ∷ 0 ∷ 0 ∷ []) (to_char q2 ∷ b'=' ∷ []) h1
            (omega arith)
        ∙ scan_symbol pf false q2 2 0 (d + 1 + 1) (q0 ∷ q1 ∷ 0 ∷ 0 ∷ []) (b'=' ∷ []) h2
            (omega arith)
        ∙ scan_pad pf (d + 1 + 1 + 1) [] 3 0 0 (q0 ∷ q1 ∷ q2 ∷ 0 ∷ []) (omega arith) (omega arith)))

  pub quantum_two :
      (q0 q1 : ℕ)
      → q0 < 64
      → q1 < 64
      → drop d text ≡ to_char q0 ∷ to_char q1 ∷ b'=' ∷ b'=' ∷ []
      → get_next_quantum pf false text d
        ≡ record { qlen = 2; qbuf = q0 ∷ q1 ∷ 0 ∷ 0 ∷ []; padded = true; dpos = d + 1 + 1 + 1 + 1 }
  unfolding get_next_quantum start_scan finish_quantum clear_from scan
  quantum_two q0 q1 h0 h1 e = rw e (
      ap finish_quantum (
        scan_symbol pf false q0 0 0 d (0 ∷ 0 ∷ 0 ∷ 0 ∷ []) (to_char q1 ∷ b'=' ∷ b'=' ∷ []) h0
          (omega arith)
        ∙ scan_symbol pf false q1 1 0 (d + 1) (q0 ∷ 0 ∷ 0 ∷ 0 ∷ []) (b'=' ∷ b'=' ∷ []) h1
            (omega arith)
        ∙ scan_pad pf (d + 1 + 1) (b'=' ∷ []) 2 0 0 (q0 ∷ q1 ∷ 0 ∷ 0 ∷ []) (omega arith)
            (omega arith)
        ∙ scan_pad pf (d + 1 + 1 + 1) [] 2 1 (d + 1 + 1) (set (q0 ∷ q1 ∷ 0 ∷ 0 ∷ []) 2 pd)
            (omega arith) (omega arith)))
