-- ===== src/Base/Text.antt =====
-- Python text as native strings: tests over the code points.
use Prim.Native.Nat.{ℕ, zero, suc}
use Prim.Native.Char.{code}
use Prim.Native.String.{String, [], ◌∷◌}
use mathlib.Core.Bool.{Bool, true, false, ◌&&◌, ◌||◌}
use hermes_agentic_variation.Base.Tests.{leb, ◌==◌}

-- The code points that Python's `str.isspace` accepts, which `str.strip` removes.
unfoldable pub is_space : ℕ → Bool
is_space c =
    leb 9 c && leb c 13
    || leb 28 c && leb c 32
    || c == 0x85
    || c == 0xa0
    || c == 0x1680
    || leb 0x2000 c && leb c 0x200a
    || c == 0x2028
    || c == 0x2029
    || c == 0x202f
    || c == 0x205f
    || c == 0x3000

-- `not value.strip()`
unfoldable pub is_blank : String → Bool
unfolding is_space
is_blank [] = true
is_blank (c ∷ s) = is_space (code c) && is_blank s

-- `len(value)`: the number of code points.
abbrev pub len : String → ℕ
len [] = 0
len (c ∷ s) = suc (len s)

-- Membership of a code point in a text.
unfoldable pub contains : ℕ → String → Bool
contains k [] = false
contains k (c ∷ s) = code c == k || contains k s

unfoldable pub is_hex : ℕ → Bool
is_hex c = leb b'0' c && leb c b'9' || leb b'a' c && leb c b'f'

-- `[0-9a-f]{n}` against the whole text.
unfoldable pub hex_digits : ℕ → String → Bool
unfolding is_hex
hex_digits zero [] = true
hex_digits zero (c ∷ s) = false
hex_digits (suc n) [] = false
hex_digits (suc n) (c ∷ s) = is_hex (code c) && hex_digits n s

-- `[0-9a-f]{lo,}` with at most `room` more digits, against the whole text.
unfoldable pub hex_between : ℕ → ℕ → String → Bool
unfolding is_hex
hex_between lo room [] = lo == 0
hex_between lo zero (c ∷ s) = false
hex_between zero (suc room) (c ∷ s) = is_hex (code c) && hex_between zero room s
hex_between (suc lo) (suc room) (c ∷ s) = is_hex (code c) && hex_between lo room s
