-- ===== src/Base/Base64/Strict.antt =====
-- What the decoder of talk/base/base64.cc takes with the flags `DO_STRICT`.
use gxmpp.Prelude.{
  ℕ, ◌+◌, ◌<◌, ◌≤◌, ◌≡◌, refl, sym, ap, Bool, true, false, ◌&&◌, ◌||◌, ◌⊎◌, inl, inr, [], ◌∷◌, ◌==◌,
  leb, ltb, leb→le, ltb→lt, lt→ltb, none, Bool-cases, arith, every_below, every_below-at, Bytes,
  All,
}
use gxmpp.Base.Base64.{scan, scan_char, Scan, do_parse_strict}
use gxmpp.Base.Base64Chars.{to_char, from_char, pd, sp, il}

-- A symbol, the pad, or white space and illegal characters.
is_known : ℕ → Bool
is_known c =
    ltb (from_char c) 64 && to_char (from_char c) == c
    || from_char c == pd && c == b'='
    || leb sp (from_char c) && leb (from_char c) il

known_check : every_below is_known 256 ≡ true
unfolding every_below is_known to_char from_char
known_check = refl

abbrev Class : ℕ → Type 0
Class c =
    ((from_char c < 64) × (to_char (from_char c) ≡ c))
    ⊎ ((from_char c ≡ pd) × (c ≡ b'='))
    ⊎ ((sp ≤ from_char c) × (from_char c ≤ il))

class_of :
    (f t c : ℕ)
    → (ltb f 64 && t == c || f == pd && c == b'=' || leb sp f && leb f il) ≡ true
    → ((f < 64) × (t ≡ c)) ⊎ ((f ≡ pd) × (c ≡ b'=')) ⊎ ((sp ≤ f) × (f ≤ il))
class_of f t c h = ground arith

classify : (c : ℕ) → c < 256 → Class c
unfolding is_known
classify c h = class_of (from_char c) _ c (every_below-at is_known 256 c h known_check)

-- Where the loop of `GetNextQuantum` stands and what it does next.
abbrev pub Stage : Scan → Bytes → Type 0
Stage s t =
    ((s.pad_len ≡ 0) × (q : ℕ) × (rest : Bytes) × (q < 64) × (t ≡ to_char q ∷ rest))
    ⊎ ((2 ≤ s.byte_len) × (s.byte_len + s.pad_len < 4) × (rest : Bytes) × (t ≡ b'=' ∷ rest))
    ⊎ (scan do_parse_strict false t s ≡ s)

module _ (s : Scan) (q : ℕ) where
  symbol_after_pad : q < 64 → 0 < s.pad_len → scan_char do_parse_strict false q s ≡ none
  unfolding scan_char
  symbol_after_pad h k = ground arith

  illegal_char : sp ≤ q → q ≤ il → scan_char do_parse_strict false q s ≡ none
  unfolding scan_char
  illegal_char h k = ground arith

  pad_too_early : q ≡ pd → s.byte_len < 2 → scan_char do_parse_strict false q s ≡ none
  unfolding scan_char
  pad_too_early h k = rw h (ground arith)

  pad_too_late : q ≡ pd → 4 ≤ s.byte_len + s.pad_len → scan_char do_parse_strict false q s ≡ none
  unfolding scan_char
  pad_too_late h k = rw h (ground arith)

stops :
    (s : Scan) (c : ℕ) (rest : Bytes)
    → s.byte_len < 4
    → scan_char do_parse_strict false (from_char c) s ≡ none
    → scan do_parse_strict false (c ∷ rest) s ≡ s
unfolding scan
stops s c rest h e = rw (lt→ltb s.byte_len 4 h, e)

pub stage : (s : Scan) (t : Bytes) → All (λ c. c < 256) t → s.byte_len < 4 → Stage s t
unfolding scan
stage s [] small h = inr (inr refl)
stage s (c ∷ rest) small h =
    let stop = λ (e : scan_char do_parse_strict false (from_char c) s ≡ none). stops s c rest h e in
    elim (classify c small.0) [
      | inl (k, e) ↦ elim (Bool-cases (ltb 0 s.pad_len)) [
        | inl pads ↦ inr (inr (stop (symbol_after_pad s _ k (ltb→lt 0 s.pad_len pads))))
        | inr free ↦ inl (ground arith, from_char c, rest, k, ap (λ x. x ∷ rest) (sym e))
      ]
      | inr (inl (e, k)) ↦ elim (Bool-cases (ltb s.byte_len 2)) [
        | inl early ↦ inr (inr (stop (pad_too_early s _ e (ltb→lt s.byte_len 2 early))))
        | inr late ↦ elim (Bool-cases (leb 4 (s.byte_len + s.pad_len))) [
          | inl over ↦
              inr (inr (stop (pad_too_late s _ e (leb→le 4 (s.byte_len + s.pad_len) over))))
          | inr room ↦ inr (inl (ground arith, ground arith, rest, ap (λ x. x ∷ rest) k))
        ]
      ]
      | inr (inr k) ↦ inr (inr (stop (illegal_char s _ k.0 k.1)))
    ]

-- After the pads the loop goes no further.
pub stage_closed :
    (s : Scan) (t : Bytes)
    → All (λ c. c < 256) t
    → s.byte_len < 4
    → 0 < s.pad_len
    → s.byte_len + s.pad_len ≡ 4
    → scan do_parse_strict false t s ≡ s
stage_closed s t small h k l = elim (stage s t small h) [
  | inl (free, _, _, _, _) ↦ absurd (omega arith)
  | inr (inl (_, room, _, _)) ↦ absurd (omega arith)
  | inr (inr stop) ↦ stop
]
