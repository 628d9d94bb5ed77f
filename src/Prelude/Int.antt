-- ===== src/Prelude/Int.antt =====
-- Signed integers, and their text in a stream: `<<` and `>>` of an `int`.
use Prim.Native.Nat.{ℕ, zero, suc, ◌+◌, ◌*◌, ◌-◌, ◌/◌, ◌%◌, ◌^◌}
use mathlib.Core.Bool.{Bool, ◌&&◌, ◌||◌}
use mathlib.Core.Option.{Option, none, some}
use mathlib.Core.List.{[], ◌∷◌, ◌++◌}
use gxmpp.Prelude.Tests.{ltb, leb, ◌==◌, if◌then◌else◌}
use gxmpp.Prelude.Strings.{Bytes}

-- `negsuc n` is -(n + 1).
pub data ℤ : Type 0 where
  pos : ℕ → ℤ
  negsuc : ℕ → ℤ

-- `<<`, on fuel.
unfoldable pub decimal_from : ℕ → ℕ → Bytes
decimal_from zero n = []
decimal_from (suc fuel) n =
    let front = decimal_from fuel (n / 10) in
    if ltb n 10 then (b'0' + n) ∷ [] else front ++ (b'0' + n % 10) ∷ []

unfoldable pub decimal : ℕ → Bytes
unfolding decimal_from
decimal n = decimal_from (suc n) n

unfoldable pub to_string : ℤ → Bytes
unfolding decimal
to_string (pos n) = decimal n
to_string (negsuc n) = b'-' ∷ decimal (suc n)

unfoldable pub is_space : ℕ → Bool
is_space c = c == 32 || leb 9 c && leb c 13

unfoldable pub is_digit : ℕ → Bool
is_digit c = leb b'0' c && leb c b'9'

unfoldable pub skip_space : Bytes → Bytes
unfolding is_space
skip_space [] = []
skip_space (c ∷ s) = if is_space c then skip_space s else c ∷ s

-- The number that the leading digits spell.
unfoldable pub read_digits : ℕ → Bytes → ℕ
unfolding is_digit
read_digits n [] = n
read_digits n (c ∷ s) =
    let more = read_digits (n * 10 + (c - b'0')) s in if is_digit c then more else n

-- There is a digit, and the number is within the bound.
unfoldable pub read_bounded : ℕ → Bytes → Option ℕ
unfolding is_digit read_digits
read_bounded bound [] = none
read_bounded bound (c ∷ s) =
    if is_digit c && leb (read_digits 0 (c ∷ s)) bound then some (read_digits 0 (c ∷ s)) else none

unfoldable pub negate : ℕ → ℤ
negate zero = pos 0
negate (suc n) = negsuc n

unfoldable pub read_signed : Bytes → Option ℤ
unfolding read_bounded negate
read_signed [] = none
read_signed (c ∷ s) =
    if c == b'-'
    then elim (read_bounded 2147483648 s) [ none ↦ none | some n ↦ some (negate n) ]
    else elim (read_bounded 2147483647 (if c == b'+' then s else c ∷ s)) [
      | none ↦ none
      | some n ↦ some (pos n)
    ]

-- `>>` to an `int` of 32 bits; `none` is a stream that fails.
unfoldable pub from_string : Bytes → Option ℤ
unfolding skip_space read_signed
from_string s = read_signed (skip_space s)

-- `++` on an `int`.
abbrev pub suc_int : ℤ → ℤ
suc_int (pos n) = pos (suc n)
suc_int (negsuc zero) = pos 0
suc_int (negsuc (suc n)) = negsuc n

-- `static_cast<size_t>` of an `int`.
abbrev pub to_size : ℤ → ℕ
to_size (pos n) = n
to_size (negsuc n) = 2 ^ 64 - 1 - n
