-- ===== src/Go/Float64.antt =====
-- Go's `float64`, as its IEEE 754 bit pattern. The program stores and compares such numbers and
-- computes with none of them.
use orders_go.Common.{ℕ, ◌%◌, ◌^◌, Bool, ◌&&◌, not, ltb, if◌then◌else◌}
use orders_go.Common.Int.{ℤ, pos, ◌-ℤ◌, ltb_ℤ, leb_ℤ}

-- The pattern: a sign bit, eleven bits of exponent, fifty-two of fraction.
pub record Float64 : Type 0 where
  pub bits : ℕ

abbrev magnitude : Float64 → ℕ
magnitude x = x.bits % 2 ^ 63

unfoldable pub is_nan : Float64 → Bool
is_nan x = ltb 0x7ff0000000000000 (magnitude x)

-- Of numbers that are no NaN the patterns are ordered as sign and magnitude; -0 equals 0.
unfoldable pub rank : Float64 → ℤ
rank x = if ltb (x.bits % 2 ^ 64) (2 ^ 63) then pos (magnitude x) else pos 0 -ℤ pos (magnitude x)

unfoldable pub float_lt : Float64 → Float64 → Bool
float_lt x y = not (is_nan x) && not (is_nan y) && ltb_ℤ (rank x) (rank y)

unfoldable pub float_eq : Float64 → Float64 → Bool
float_eq x y =
    not (is_nan x) && not (is_nan y) && leb_ℤ (rank x) (rank y) && leb_ℤ (rank y) (rank x)

abbrev pub nan : Float64
nan = record { bits = 0x7ff8000000000001 }

abbrev pub float_90 : Float64
float_90 = record { bits = 0x4056800000000000 }

abbrev pub float_minus_90 : Float64
float_minus_90 = record { bits = 0xc056800000000000 }

abbrev pub float_180 : Float64
float_180 = record { bits = 0x4066800000000000 }

abbrev pub float_minus_180 : Float64
float_minus_180 = record { bits = 0xc066800000000000 }

abbrev pub float_zero : Float64
float_zero = record { bits = 0 }
