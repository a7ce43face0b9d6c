-- ===== src/Bits/Digits.antt =====
-- The native operations on bits, one binary digit at a time.
use Prim.Native.Nat.{digits, bit_and-bitwise, bit_or-bitwise}
use knut_os.Base.{
  ℕ, zero, suc, ◌+◌, ◌*◌, ◌/◌, ◌%◌, ◌≤◌, min, max, bit_and, bit_or, ◌≡◌, refl, arith,
}

-- The recursion on digits has fuel; any fuel from the first operand on gives the same result.
module _ (end : ℕ → ℕ) (digit : ℕ → ℕ → ℕ) where
  digits-fuel_irrelevant :
      (f g a b : ℕ) → a ≤ f → a ≤ g → digits end digit f a b ≡ digits end digit g a b
  digits-fuel_irrelevant zero zero a b p q = refl
  digits-fuel_irrelevant zero (suc g) zero b p q = refl
  digits-fuel_irrelevant zero (suc g) (suc a) b p q = elim p [ ]
  digits-fuel_irrelevant (suc f) zero zero b p q = refl
  digits-fuel_irrelevant (suc f) zero (suc a) b p q = elim q [ ]
  digits-fuel_irrelevant (suc f) (suc g) zero b p q = refl
  digits-fuel_irrelevant (suc f) (suc g) (suc a) b p q =
      omega (arith, digits-fuel_irrelevant f g (suc a / 2) (b / 2) (omega arith) (omega arith))

  shorter_fuel :
      (a b : ℕ)
      → digits end digit a (suc a / 2) (b / 2) ≡ digits end digit (suc a / 2) (suc a / 2) (b / 2)
  shorter_fuel a b =
      digits-fuel_irrelevant a (suc a / 2) (suc a / 2) (b / 2) (omega arith) (omega arith)

pub bit_and_step : (x y : ℕ) → bit_and x y ≡ bit_and (x / 2) (y / 2) * 2 + min (x % 2) (y % 2)
bit_and_step zero y = omega (arith, bit_and-bitwise 0 y, bit_and-bitwise 0 (y / 2))
bit_and_step (suc x) y = omega (
  arith,
  bit_and-bitwise (suc x) y,
  bit_and-bitwise (suc x / 2) (y / 2),
  shorter_fuel (λ _. 0) min x y,
)

pub bit_or_step : (x y : ℕ) → bit_or x y ≡ bit_or (x / 2) (y / 2) * 2 + max (x % 2) (y % 2)
bit_or_step zero y = omega (arith, bit_or-bitwise 0 y, bit_or-bitwise 0 (y / 2))
bit_or_step (suc x) y = omega (
  arith,
  bit_or-bitwise (suc x) y,
  bit_or-bitwise (suc x / 2) (y / 2),
  shorter_fuel (λ z. z) max x y,
)
