-- ===== src/Common/Decimal.antt =====
-- Decimal output of a number to a `std::ostringstream`, and that it can be read back.
use Prim.Native.Char.{Char}
use Prim.Native.String.{String}
use Prim.Native.Nat.{ℕ, zero, suc, ◌+◌, ◌*◌, ◌/◌, ◌%◌, ◌<◌, ◌-◌}
use mathlib.Core.Path.{◌≡◌, refl, sym, ap, ◌∙◌}
use mathlib.Core.Logic.{inl, inr}
use native.Mathlib.Omega.{arith}
use cmpe275_enterprise_apps.Common.Tests.{◌==◌, if◌then◌else◌, Bool-cases}

digit_char : ℕ → Char
digit_char zero = "0"
digit_char (suc zero) = "1"
digit_char (suc (suc zero)) = "2"
digit_char (suc (suc (suc zero))) = "3"
digit_char (suc (suc (suc (suc zero)))) = "4"
digit_char (suc (suc (suc (suc (suc zero))))) = "5"
digit_char (suc (suc (suc (suc (suc (suc zero)))))) = "6"
digit_char (suc (suc (suc (suc (suc (suc (suc zero))))))) = "7"
digit_char (suc (suc (suc (suc (suc (suc (suc (suc zero)))))))) = "8"
digit_char _ = "9"

-- The digits of `n` in front of `s`. Fuel `suc n` is enough.
write_digits : ℕ → ℕ → String → String
write_digits zero n s = s
write_digits (suc fuel) n s =
    let rest = write_digits fuel (n / 10) (String.◌∷◌ (digit_char (n % 10)) s) in
    if n / 10 == 0 then String.◌∷◌ (digit_char (n % 10)) s else rest

unfoldable pub decimal : ℕ → String
unfolding write_digits digit_char
decimal n = write_digits (suc n) n ""

digit_value : Char → ℕ
digit_value (Prim.Native.Char.char c p) = c - 48

read_digits : ℕ → String → ℕ
read_digits acc String.[] = acc
read_digits acc (String.◌∷◌ c s) = read_digits (acc * 10 + digit_value c) s

digit_value-digit_char : (d : ℕ) → d < 10 → digit_value (digit_char d) ≡ d
unfolding digit_value digit_char
digit_value-digit_char zero h = refl
digit_value-digit_char (suc zero) h = refl
digit_value-digit_char (suc (suc zero)) h = refl
digit_value-digit_char (suc (suc (suc zero))) h = refl
digit_value-digit_char (suc (suc (suc (suc zero)))) h = refl
digit_value-digit_char (suc (suc (suc (suc (suc zero))))) h = refl
digit_value-digit_char (suc (suc (suc (suc (suc (suc zero)))))) h = refl
digit_value-digit_char (suc (suc (suc (suc (suc (suc (suc zero))))))) h = refl
digit_value-digit_char (suc (suc (suc (suc (suc (suc (suc (suc zero)))))))) h = refl
digit_value-digit_char (suc (suc (suc (suc (suc (suc (suc (suc (suc zero))))))))) h = refl
digit_value-digit_char (suc (suc (suc (suc (suc (suc (suc (suc (suc (suc n)))))))))) h =
    absurd (omega arith)

read_digits-write_digits :
    (fuel n : ℕ) (s : String) → n < fuel → read_digits 0 (write_digits fuel n s) ≡ read_digits n s
unfolding read_digits write_digits
read_digits-write_digits zero n s h = elim h [ ]
read_digits-write_digits (suc fuel) n s h = elim (Bool-cases (n / 10 == 0)) [
  | inl one ↦
      let small : n / 10 ≡ 0 = ground arith in
      rw one (
        ap (λ (d : ℕ). read_digits d s)
          (rw (digit_value-digit_char (n % 10) (omega arith)) (omega arith)))
  | inr more ↦
      rw
        (
          more,
          read_digits-write_digits fuel (n / 10) (String.◌∷◌ (digit_char (n % 10)) s)
              (ground arith),
        )
        (ap (λ (d : ℕ). read_digits d s)
          (rw (digit_value-digit_char (n % 10) (omega arith)) (omega arith)))
]

-- Different numbers are written differently.
pub decimal-injective : (m n : ℕ) → decimal m ≡ decimal n → m ≡ n
unfolding decimal read_digits
decimal-injective m n e =
    sym (read_digits-write_digits (suc m) m "" (omega arith))
    ∙ ap (read_digits 0) e
    ∙ read_digits-write_digits (suc n) n "" (omega arith)
