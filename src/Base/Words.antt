-- ===== src/Base/Words.antt =====
-- The binary digits of the native bit operations: one equation for the lowest digit of `&` and `|`.
use Prim.Native.Nat.{
  ℕ, zero, suc, ◌+◌, ◌*◌, ◌/◌, ◌%◌, ◌≤◌, min, max, bit_and, bit_or, digits, bitwise,
  bit_and-bitwise, bit_or-bitwise,
}
use mathlib.Core.Path.{◌≡◌, refl, sym, ◌∙◌}
use native.Mathlib.Omega.{arith}

module _ (end_with : ℕ → ℕ) (combine : ℕ → ℕ → ℕ) where
  digits_of_zero : (fuel y : ℕ) → digits end_with combine fuel 0 y ≡ end_with y
  digits_of_zero zero y = refl
  digits_of_zero (suc fuel) y = refl

  -- Fuel for the first number is enough fuel.
  any_fuel :
      (x y fuel more : ℕ)
      → x ≤ fuel
      → x ≤ more
      → digits end_with combine fuel x y ≡ digits end_with combine more x y
  any_fuel zero y fuel more le le' = digits_of_zero fuel y ∙ sym (digits_of_zero more y)
  any_fuel (suc x) y zero more le le' = absurd (omega arith)
  any_fuel (suc x) y (suc fuel) zero le le' = absurd (omega arith)
  any_fuel (suc x) y (suc fuel) (suc more) le le' =
      rw (any_fuel (suc x / 2) (y / 2) fuel more (omega arith) (omega arith))

  halved :
      (x y : ℕ)
      → combine (suc x % 2) (y % 2) + 2 * bitwise end_with combine (suc x / 2) (y / 2)
        ≡ bitwise end_with combine (suc x) y
  halved x y = omega (arith, any_fuel (suc x / 2) (y / 2) x (suc x / 2) (omega arith) (omega arith))

pub bit_or_step : (x y : ℕ) → max (x % 2) (y % 2) + 2 * bit_or (x / 2) (y / 2) ≡ bit_or x y
bit_or_step zero y = simp bit_or-bitwise (omega arith)
bit_or_step (suc x) y = simp bit_or-bitwise (halved (λ t. t) max x y)

pub bit_and_step : (x y : ℕ) → min (x % 2) (y % 2) + 2 * bit_and (x / 2) (y / 2) ≡ bit_and x y
bit_and_step zero y = simp bit_and-bitwise (omega arith)
bit_and_step (suc x) y = simp bit_and-bitwise (halved (λ t. 0) min x y)
