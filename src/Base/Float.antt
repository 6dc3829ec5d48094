-- ===== src/Base/Float.antt =====
-- Python's `float` (IEEE 754 binary64) and the numbers `int | float` of the contracts.
-- A finite float is an exact integer count of the unit 2 ^ -1074, the smallest positive float;
-- the sign of zero is not represented. Sums round to nearest, ties to even, as the hardware does.
pub mod Nonneg
use hermes_agentic_variation.Base.{
  ℕ, zero, suc, ◌+◌, ◌-◌, ◌*◌, ◌/◌, ◌%◌, ◌^◌, ◌≡◌, refl, Bool, true, false, ◌&&◌, ◌||◌, Option,
  none, some, leb, ltb, ◌==◌, if◌then◌else◌,
}
use hermes_agentic_variation.Base.Int.{ℤ, pos, negsuc, ◌+ℤ◌, leb_ℤ, ltb_ℤ}

pub data Float : Type 0 where
  finite : ℤ → Float
  inf neg_inf nan : Float

-- How often `n` must be halved to have at most 53 binary digits. The magnitudes that are rounded
-- have less than 2100 digits, so 2100 rounds are enough.
halvings : ℕ → ℕ → ℕ
halvings zero n = 0
halvings (suc fuel) n = let more = suc (halvings fuel (n / 2)) in if ltb n (2 ^ 53) then 0 else more

-- `q * 2 ^ e` is the float below; `r` is what is cut off.
nearest : ℕ → ℕ → ℕ → ℕ
nearest q r cut =
    if ltb cut (2 * r) || (2 * r) == cut && (q % 2) == 1 then (q + 1) * cut else q * cut

unfoldable pub round_units : ℕ → ℕ
unfolding halvings nearest
round_units n = let cut = 2 ^ halvings 2100 n in nearest (n / cut) (n % cut) cut

-- The largest finite float, in units.
max_units : ℕ
max_units = (2 ^ 53 - 1) * 2 ^ 2045

of_magnitude : ℕ → Float → Float → Float
unfolding max_units
of_magnitude m within beyond = if leb m max_units then within else beyond

-- The float nearest to an exact sum.
unfoldable pub rounded : ℤ → Float
unfolding of_magnitude
rounded (pos n) = let m = round_units n in of_magnitude m (finite (pos m)) inf
rounded (negsuc n) = let m = round_units (suc n) in of_magnitude m (finite (negsuc (m - 1))) neg_inf

unfoldable pub add : Float → Float → Float
add nan b = nan
add a nan = nan
add (finite a) (finite b) = rounded (a +ℤ b)
add inf neg_inf = nan
add neg_inf inf = nan
add inf b = inf
add neg_inf b = neg_inf
add (finite a) inf = inf
add (finite a) neg_inf = neg_inf

-- `math.isfinite`
abbrev pub isfinite : Float → Bool
isfinite (finite a) = true
isfinite _ = false

-- `a <= b` and `a < b`: false when either is nan.
unfoldable pub le_float : Float → Float → Bool
le_float nan b = false
le_float a nan = false
le_float (finite a) (finite b) = leb_ℤ a b
le_float neg_inf b = true
le_float a inf = true
le_float inf b = false
le_float (finite a) neg_inf = false

unfoldable pub lt_float : Float → Float → Bool
lt_float nan b = false
lt_float a nan = false
lt_float (finite a) (finite b) = ltb_ℤ a b
lt_float inf b = false
lt_float a neg_inf = false
lt_float neg_inf b = true
lt_float (finite a) inf = true

abbrev pub zero_float : Float
zero_float = finite (pos 0)

-- A Python number that is not a bool.
pub data Number : Type 0 where
  int : ℤ → Number
  float : Float → Number

-- The number as an exact count of units: Python compares ints and floats exactly.
unfoldable pub exact : Number → Float
exact (float f) = f
exact (int (pos n)) = finite (pos (n * 2 ^ 1074))
exact (int (negsuc n)) = finite (negsuc (suc n * 2 ^ 1074 - 1))

-- `float(n)` of an int: none is the `OverflowError`.
unfoldable pub to_float : Number → Option Float
unfolding exact rounded
to_float (float f) = some f
to_float (int n) = elim (exact (int n)) [
  | finite u ↦ elim (rounded u) [ finite v ↦ some (finite v) | _ ↦ none ]
  | _ ↦ none
]

half_plus_half : add (finite (pos (2 ^ 1073))) (finite (pos (2 ^ 1073))) ≡ finite (pos (2 ^ 1074))
unfolding add rounded round_units
half_plus_half = refl

-- 2 ^ 53 + 1 rounds to 2 ^ 53, and the largest float plus itself is infinite.
ties_to_even : rounded (pos (2 ^ 53 + 1)) ≡ finite (pos (2 ^ 53))
unfolding rounded round_units
ties_to_even = refl

overflows : add (finite (pos max_units)) (finite (pos max_units)) ≡ inf
unfolding add rounded round_units max_units
overflows = refl

int_one : to_float (int (pos 1)) ≡ some (finite (pos (2 ^ 1074)))
unfolding to_float round_units
int_one = refl
