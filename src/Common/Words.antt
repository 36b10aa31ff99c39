-- ===== src/Common/Words.antt =====
-- Unsigned counters of 64 bits.
use Prim.Native.Nat.{ℕ, ◌+◌, ◌%◌, ◌^◌}
use mathlib.Core.Path.{◌≡◌}
use native.Mathlib.Omega.{arith}

-- `a + b` on `uint64_t`.
abbrev pub add64 : ℕ → ℕ → ℕ
add64 a b = (a + b) % 2 ^ 64

pub add64_assoc : (a b c : ℕ) → add64 (add64 a b) c ≡ add64 a (b + c)
add64_assoc a b c = omega arith

pub add64-mod : (a b : ℕ) → add64 a (b % 2 ^ 64) ≡ add64 a b
add64-mod a b = omega arith
