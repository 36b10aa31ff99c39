-- ===== src/Common/Float.antt =====
-- A C++ `float` as its 32 bits, compared the way IEEE 754 compares binary32 values.
use Prim.Native.Nat.{ℕ, ◌/◌, ◌%◌, ◌^◌}
use mathlib.Core.Bool.{Bool, not, ◌&&◌, ◌||◌}
use cmpe275_enterprise_apps.Common.Tests.{ltb, ◌==◌, if◌then◌else◌}

abbrev pub Float32 : Type 0
Float32 = ℕ

abbrev pub sign_bit : Float32 → ℕ
sign_bit x = x / 2 ^ 31 % 2

abbrev pub magnitude : Float32 → ℕ
magnitude x = x % 2 ^ 31

-- An exponent of all ones with a fraction that is not zero.
abbrev pub is_nan : Float32 → Bool
is_nan x = ltb 0x7f80_0000 (magnitude x)

-- Sign and magnitude; the two zeros are equal.
abbrev ltb_finite : Float32 → Float32 → Bool
ltb_finite a b =
    if sign_bit a == 0
    then sign_bit b == 0 && ltb (magnitude a) (magnitude b)
    else if sign_bit b == 0
    then ltb 0 (magnitude a) || ltb 0 (magnitude b)
    else ltb (magnitude b) (magnitude a)

-- a < b; false if either is no number.
abbrev pub ltb_float : Float32 → Float32 → Bool
ltb_float a b = not (is_nan a) && not (is_nan b) && ltb_finite a b
