-- ===== src/Base/Times.antt =====
-- The 32-bit times in milliseconds of talk/base/timeutils.cc, which wrap around.
-- EFFICIENT_IMPLEMENTATION is 1 there.
use gxmpp.Prelude.{ℕ, ◌+◌, ◌-◌, ◌%◌, ◌^◌, Bool, ◌&&◌, ltb, if◌then◌else◌}
use gxmpp.Prelude.Int.{ℤ, pos, negsuc}

abbrev pub half : ℕ
half = 2 ^ 31

abbrev pub word : ℕ
word = 2 ^ 32

-- `later - earlier` in `uint32`.
abbrev pub distance : ℕ → ℕ → ℕ
distance earlier later = (later + word - earlier) % word

-- The `int32` with these bits.
abbrev pub to_int32 : ℕ → ℤ
to_int32 w = if ltb w half then pos w else negsuc (word - w - 1)

unfoldable pub time_is_later : ℕ → ℕ → Bool
time_is_later earlier later = ltb 0 (distance earlier later) && ltb (distance earlier later) half

unfoldable pub time_diff : ℕ → ℕ → ℤ
time_diff later earlier = to_int32 (distance earlier later)

-- `TimeAfter`, at the time `now`.
unfoldable pub time_after : ℕ → ℕ → ℕ
time_after now elapsed = (now + elapsed) % word
