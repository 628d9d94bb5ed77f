-- ===== src/Xml/Printer/Escape.antt =====
-- `PrintQuotedValue` and `PrintBodyText` (talk/xmllite/xmlprinter.cc) against a decoder of the five
-- predefined entities.
use gxmpp.Prelude.{
  ℕ, zero, suc, ◌≤◌, ◌<◌, ◌≡◌, ◌≢◌, ◌⊎◌, inl, inr, refl, sym, subst, ap, ◌∙◌, Bool, true, false,
  ◌||◌, ◌&&◌, [], ◌∷◌, ◌++◌, Option, none, some, arith, append_assoc, if◌then◌else◌, ◌==◌, Bytes,
  codes, Bool-cases, Option-cases, append-nil, length, take, drop, equal, length-append,
}
use mathlib.Core.Option
use gxmpp.Xml.Printer.{quoted_entity, body_entity, escape_from, print_quoted_value, print_body_text}

-- One entity reference at the start of a text, with what follows it.
pub entity_at : Bytes → Option (ℕ × Bytes)
entity_at t =
    if equal (take 4 t) (codes "&lt;")
    then some (b'<', drop 4 t)
    else if equal (take 4 t) (codes "&gt;")
    then some (b'>', drop 4 t)
    else if equal (take 5 t) (codes "&amp;")
    then some (b'&', drop 5 t)
    else if equal (take 6 t) (codes "&quot;")
    then some (b'"', drop 6 t)
    else none

-- The character data that an XML text stands for; `none` where `<`, or an `&` that begins no
-- predefined entity, makes it no such text. In a quoted value a `"` does so too.
pub decode : Bool → ℕ → Bytes → Option Bytes
decode quoted zero [] = some []
decode quoted zero (c ∷ t) = none
decode quoted (suc fuel) [] = some []
decode quoted (suc fuel) (c ∷ t) =
    let plain = Option.map (◌∷◌ c) (decode quoted fuel t) in
    elim (entity_at (c ∷ t)) [
      | some (d, rest) ↦ Option.map (◌∷◌ d) (decode quoted fuel rest)
      | none ↦ if c == b'<' || c == b'&' || (quoted && c == b'"') then none else plain
    ]

entity_at_plain : (c : ℕ) (t : Bytes) → c ≢ b'&' → entity_at (c ∷ t) ≡ none
unfolding entity_at equal
entity_at_plain c t h = ground arith

-- How one character is written: as itself, where the decoder takes it as itself, or as a text that
-- the decoder reads back as it.
abbrev IsPlain : Bool → ℕ → Type 0
IsPlain quoted c = (c ≢ b'<') × (c ≢ b'&') × ((quoted ≡ false) ⊎ (c ≢ b'"'))

abbrev Reads : Bool → ℕ → Bytes → Type 0
Reads quoted c e =
    (0 < length e)
    × ((fuel : ℕ) (t : Bytes)
        → decode quoted (suc fuel) (e ++ t) ≡ Option.map (◌∷◌ c) (decode quoted fuel t))

abbrev Written : Bool → (ℕ → Option Bytes) → ℕ → Type 0
Written quoted entity c =
    ((entity c ≡ none) × IsPlain quoted c) ⊎ ((e : Bytes) × (entity c ≡ some e) × Reads quoted c e)

Reads-lt : (q : Bool) → Reads q b'<' (codes "&lt;")
unfolding decode entity_at equal
Reads-lt q = (omega arith, λ fuel t. refl)

Reads-gt : (q : Bool) → Reads q b'>' (codes "&gt;")
unfolding decode entity_at equal
Reads-gt q = (omega arith, λ fuel t. refl)

Reads-amp : (q : Bool) → Reads q b'&' (codes "&amp;")
unfolding decode entity_at equal
Reads-amp q = (omega arith, λ fuel t. refl)

Reads-quot : (q : Bool) → Reads q b'"' (codes "&quot;")
unfolding decode entity_at equal
Reads-quot q = (omega arith, λ fuel t. refl)

-- An entity read at a character that a test found.
at_char : (q : Bool) (c d : ℕ) (e : Bytes) → (c == d) ≡ true → Reads q d e → Reads q c e
at_char q c d e h r = subst (λ x. Reads q x e) (ground arith) r

quoted_entity-Written : (c : ℕ) → Written true quoted_entity c
unfolding quoted_entity
quoted_entity-Written c = elim (Bool-cases (c == b'<')) [
  | inl e ↦ inr (codes "&lt;", rw e, at_char true c b'<' (codes "&lt;") e (Reads-lt true))
  | inr n ↦ elim (Bool-cases (c == b'>')) [
    | inl e ↦ inr (codes "&gt;", rw (n, e), at_char true c b'>' (codes "&gt;") e (Reads-gt true))
    | inr n' ↦ elim (Bool-cases (c == b'&')) [
      | inl e ↦
          inr (codes "&amp;", rw (n, n', e), at_char true c b'&' (codes "&amp;") e (Reads-amp true))
      | inr n'' ↦ elim (Bool-cases (c == b'"')) [
        | inl e ↦ inr (
          codes "&quot;",
          rw (n, n', n'', e),
          at_char true c b'"' (codes "&quot;") e (Reads-quot true),
        )
        | inr n3 ↦ inl (rw (n, n', n'', n3), ground arith)
      ]
    ]
  ]
]

body_entity-Written : (c : ℕ) → Written false body_entity c
unfolding body_entity
body_entity-Written c = elim (Bool-cases (c == b'<')) [
  | inl e ↦ inr (codes "&lt;", rw e, at_char false c b'<' (codes "&lt;") e (Reads-lt false))
  | inr n ↦ elim (Bool-cases (c == b'>')) [
    | inl e ↦ inr (codes "&gt;", rw (n, e), at_char false c b'>' (codes "&gt;") e (Reads-gt false))
    | inr n' ↦ elim (Bool-cases (c == b'&')) [
      | inl e ↦
          inr
            (codes "&amp;", rw (n, n', e), at_char false c b'&' (codes "&amp;") e (Reads-amp false))
      | inr n'' ↦ inl (rw (n, n', n''), ground arith)
    ]
  ]
]

-- The loop without its accumulator.
escaped : (ℕ → Option Bytes) → Bytes → Bytes
escaped entity [] = []
escaped entity (c ∷ s) = elim (entity c) [
  | none ↦ c ∷ escaped entity s
  | some e ↦ e ++ escaped entity s
]

escape_from-escaped :
    (entity : ℕ → Option Bytes) (run s : Bytes) → escape_from entity run s ≡ run ++ escaped entity s
unfolding escape_from escaped
escape_from-escaped entity run [] = sym (append-nil run)
escape_from-escaped entity run (c ∷ s) = elim (Option-cases (entity c)) [
  | inl e ↦
      rw (e, escape_from, escaped)
        (escape_from-escaped entity (run ++ c ∷ []) s ∙ append_assoc run (c ∷ []) _)
  | inr (x, e) ↦ rw (e, escape_from, escaped, escape_from-escaped entity [] s)
]

decode_plain :
    (q : Bool) (fuel c : ℕ) (t : Bytes)
    → IsPlain q c
    → decode q (suc fuel) (c ∷ t) ≡ Option.map (◌∷◌ c) (decode q fuel t)
unfolding decode
decode_plain q fuel c t h = rw (entity_at_plain c t h.1, decode) (ground arith)

decode_end : (q : Bool) (fuel : ℕ) → decode q fuel [] ≡ some []
unfolding decode
decode_end q zero = refl
decode_end q (suc fuel) = refl

-- One character more is read, by any fuel that covers its text.
decode_step :
    (q : Bool) (c : ℕ) (e rest s : Bytes)
    → Reads q c e
    → ((fuel : ℕ) → length rest ≤ fuel → decode q fuel rest ≡ some s)
    → (fuel : ℕ) → length (e ++ rest) ≤ fuel
    → decode q fuel (e ++ rest) ≡ some (c ∷ s)
decode_step q c e rest s r ih zero h = absurd (omega (arith, length-append e rest, r.0))
decode_step q c e rest s r ih (suc fuel) h =
    r.1 fuel rest ∙ ap (Option.map (◌∷◌ c)) (ih fuel (omega (arith, length-append e rest, r.0)))

module _ (q : Bool) (entity : ℕ → Option Bytes) (written : (c : ℕ) → Written q entity c) where
  decode-escaped :
      (s : Bytes) (fuel : ℕ)
      → length (escaped entity s) ≤ fuel
      → decode q fuel (escaped entity s) ≡ some s
  unfolding escaped
  decode-escaped [] fuel h = decode_end q fuel
  decode-escaped (c ∷ s) fuel h = elim (written c) [
    | inl (e, plain) ↦
        rw (e, escaped)
          (decode_step q c (c ∷ []) (escaped entity s) s
            (omega arith, λ fuel t. decode_plain q fuel c t plain) (decode-escaped s) fuel
            (rw (e, escaped) at h))
    | inr (x, e, reads) ↦
        rw (e, escaped)
          (decode_step q c x (escaped entity s) s reads (decode-escaped s) fuel
            (rw (e, escaped) at h))
  ]

-- A decoder of the predefined entities reads back every text from what PrintQuotedValue writes,
-- as a quoted value, and from what PrintBodyText writes, as character data.
pub decode-print :
    (s : Bytes)
    → (decode true (length (print_quoted_value s)) (print_quoted_value s) ≡ some s)
      × (decode false (length (print_body_text s)) (print_body_text s) ≡ some s)
unfolding print_quoted_value print_body_text
decode-print s =
    rw (escape_from-escaped quoted_entity [] s, escape_from-escaped body_entity [] s)
      (
        decode-escaped true quoted_entity quoted_entity-Written s _ (omega arith),
        decode-escaped false body_entity body_entity-Written s _ (omega arith),
      )
