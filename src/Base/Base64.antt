-- ===== src/Base/Base64.antt =====
-- Base64, talk/base/base64.cc and talk/base/base64.h. The flags are the numbers of the source, cut
-- by its masks. A position in the text is a number, as `dpos` is, and the loop of the decoder runs on
-- fuel: `none` means that it ran out.
pub mod Quanta
pub mod Encoding
pub mod Decoding
pub mod Strict
pub mod Shapes
pub mod Bounds
use gxmpp.Base.Base64Chars.{pad_char, pd, sp, il, to_char, from_char}
use gxmpp.Prelude.{
  ℕ, zero, suc, ◌+◌, ◌*◌, ◌/◌, ◌%◌, Bool, true, false, not, ◌&&◌, ◌||◌, Option, none, some, List,
  [], ◌∷◌, ◌++◌, Bytes, codes, ◌==◌, ltb, leb, if◌then◌else◌, length, get_or, set, drop,
}

-- The bits that the encoder and the decoder join by `|` do not overlap, so that it is a sum.
unfoldable pub encode : Bytes → Bytes
encode [] = []
encode (a ∷ []) = to_char (a / 4 % 64) ∷ to_char (a * 16 % 64) ∷ pad_char ∷ pad_char ∷ []
encode (a ∷ b ∷ []) =
    to_char (a / 4 % 64)
    ∷ to_char (a * 16 % 64 + b / 16 % 16)
    ∷ to_char (b * 4 % 64)
    ∷ pad_char
    ∷ []
encode (a ∷ b ∷ c ∷ s) =
    to_char (a / 4 % 64)
    ∷ to_char (a * 16 % 64 + b / 16 % 16)
    ∷ to_char (b * 4 % 64 + c / 64 % 4)
    ∷ to_char (c % 64)
    ∷ encode s

abbrev pub do_parse_strict : ℕ
do_parse_strict = 1

abbrev pub do_parse_any : ℕ
do_parse_any = 3

abbrev pub do_pad_yes : ℕ
do_pad_yes = 4

abbrev pub do_pad_no : ℕ
do_pad_no = 12

abbrev pub do_term_buffer : ℕ
do_term_buffer = 16

abbrev pub do_term_any : ℕ
do_term_any = 48

-- `DO_PARSE_STRICT | DO_PAD_YES | DO_TERM_BUFFER`.
abbrev pub do_strict : ℕ
do_strict = do_parse_strict + do_pad_yes + do_term_buffer

-- `flags & DO_PARSE_MASK`, and the same for the other masks.
abbrev pub parse_of : ℕ → ℕ
parse_of flags = flags % 4

abbrev pub pad_of : ℕ → ℕ
pad_of flags = flags / 4 % 4 * 4

abbrev pub term_of : ℕ → ℕ
term_of flags = flags / 16 % 4 * 16

-- The variables of the loop of `GetNextQuantum`.
pub record Scan : Type 0 where
  pub byte_len : ℕ
  pub pad_len : ℕ
  pub pad_start : ℕ
  pub dpos : ℕ
  pub qbuf : List ℕ

-- The body of that loop, for a character whose entry in the table is `q`; `none` is `break`.
unfoldable pub scan_char : ℕ → Bool → ℕ → Scan → Option Scan
scan_char parse_flags illegal_pads q written =
    let s = record written { qbuf = set written.qbuf written.byte_len q } in
    let skip = if parse_flags == do_parse_any then some s else none in
    if il == q || illegal_pads && pd == q
    then skip
    else if sp == q
    then (if parse_flags == do_parse_strict then none else some s)
    else if pd == q
    then (if ltb s.byte_len 2
        then skip
        else if leb 4 (s.byte_len + s.pad_len)
        then skip
        else some (record s {
          pad_len = s.pad_len + 1;
          pad_start = if 1 == s.pad_len + 1 then s.dpos else s.pad_start;
        }))
    else if ltb 0 s.pad_len && not (parse_flags == do_parse_any)
    then none
    else some (record s { pad_len = 0; byte_len = s.byte_len + 1 })

abbrev advance : Scan → Scan
advance s = record s { dpos = s.dpos + 1 }

-- That loop, on the characters from `dpos` on.
unfoldable pub scan : ℕ → Bool → Bytes → Scan → Scan
unfolding scan_char from_char
scan parse_flags illegal_pads [] s = s
scan parse_flags illegal_pads (c ∷ rest) s =
    let next = λ (s' : Scan). scan parse_flags illegal_pads rest (advance s') in
    if ltb s.byte_len 4
    then elim (scan_char parse_flags illegal_pads (from_char c) s) [ none ↦ s | some s' ↦ next s' ]
    else s

-- What `GetNextQuantum` returns and writes.
pub record Quantum : Type 0 where
  pub qlen : ℕ
  pub qbuf : List ℕ
  pub padded : Bool
  pub dpos : ℕ

-- `qbuf` has its entries from `n` on set to 0.
unfoldable pub clear_from : ℕ → List ℕ → List ℕ
clear_from n [] = []
clear_from zero (q ∷ qs) = 0 ∷ clear_from zero qs
clear_from (suc n) (q ∷ qs) = q ∷ clear_from n qs

unfoldable pub finish_quantum : Scan → Quantum
unfolding clear_from
finish_quantum s = record {
  qlen = s.byte_len;
  qbuf = clear_from s.byte_len s.qbuf;
  padded = 4 == s.byte_len + s.pad_len;
  dpos =
      if 4 == s.byte_len + s.pad_len
      then s.dpos
      else if ltb 0 s.pad_len
      then s.pad_start
      else s.dpos;
}

-- An entry of `qbuf` is written before it is read, so its first contents do not matter.
unfoldable pub start_scan : ℕ → Scan
start_scan dpos = record {
  byte_len = 0;
  pad_len = 0;
  pad_start = 0;
  dpos = dpos;
  qbuf = 0 ∷ 0 ∷ 0 ∷ 0 ∷ [];
}

unfoldable pub get_next_quantum : ℕ → Bool → Bytes → ℕ → Quantum
unfolding scan finish_quantum start_scan
get_next_quantum parse_flags illegal_pads text dpos =
    finish_quantum (scan parse_flags illegal_pads (drop dpos text) (start_scan dpos))

-- The bytes that a quantum adds to the result.
unfoldable pub quantum_bytes : ℕ → List ℕ → Bytes
quantum_bytes qlen qbuf =
    let q0 = get_or qbuf 0 0 in
    let q1 = get_or qbuf 1 0 in
    let q2 = get_or qbuf 2 0 in
    let q3 = get_or qbuf 3 0 in
    if ltb qlen 2
    then []
    else if ltb qlen 3
    then (q0 * 4 % 256 + q1 / 16 % 4) ∷ []
    else if ltb qlen 4
    then (q0 * 4 % 256 + q1 / 16 % 4) ∷ (q1 * 16 % 256 + q2 / 4 % 16) ∷ []
    else (q0 * 4 % 256 + q1 / 16 % 4) ∷ (q1 * 16 % 256 + q2 / 4 % 16) ∷ (q2 * 64 % 256 + q3) ∷ []

-- The bits that it leaves over, the last value of `c`.
unfoldable pub unused_bits : ℕ → List ℕ → ℕ
unused_bits qlen qbuf =
    let q0 = get_or qbuf 0 0 in
    let q1 = get_or qbuf 1 0 in
    let q2 = get_or qbuf 2 0 in
    let q3 = get_or qbuf 3 0 in
    if ltb qlen 2
    then q0 * 4 % 256 + q1 / 16 % 4
    else if ltb qlen 3
    then q1 * 16 % 256 + q2 / 4 % 16
    else if ltb qlen 4
    then q2 * 64 % 256 + q3
    else 0

pub record Decoded : Type 0 where
  pub success : Bool
  pub result : Bytes
  pub used : ℕ

-- What follows the loop of `DecodeFromArrayTemplate`.
unfoldable pub finish_decode : ℕ → Bytes → Bool → Bytes → ℕ → Decoded
finish_decode flags text success result dpos = record {
  success = success && not (term_of flags == do_term_buffer && not (dpos == length text));
  result = result;
  used = dpos;
}

-- The checks before `break`.
unfoldable pub last_ok : ℕ → Quantum → Bool
unfolding unused_bits
last_ok flags q =
    not (not (term_of flags == do_term_any) && not (unused_bits q.qlen q.qbuf == 0))
    && not (pad_of flags == do_pad_yes && not q.padded)

-- The loop of `DecodeFromArrayTemplate`.
unfoldable pub decode_from : ℕ → ℕ → Bytes → ℕ → Bytes → Option Decoded
unfolding finish_decode
decode_from zero flags text dpos result = none
decode_from (suc fuel) flags text dpos result =
    let q = get_next_quantum (parse_of flags) (do_pad_no == pad_of flags) text dpos in
    let got = result ++ quantum_bytes q.qlen q.qbuf in
    let rest = decode_from fuel flags text q.dpos got in
    if ltb dpos (length text)
    then (if ltb q.qlen 4
        then some (finish_decode flags text (last_ok flags q) got q.dpos)
        else rest)
    else some (finish_decode flags text true result dpos)

unfoldable pub decode : ℕ → Bytes → Option Decoded
unfolding decode_from
decode flags text = decode_from (suc (length text)) flags text 0 []
