-- ===== src/Base/Bits/Step.antt =====
-- `&` and `|` by their lowest digit, from the digit recursion that the native operations mean.
use mathlib.Core.Path.{◌≡◌, refl, ap}
use native.Mathlib.Omega.{arith}
use Prim.Native.Nat.{ℕ, zero, suc, ◌+◌, ◌*◌, ◌/◌, ◌%◌, ◌≤◌, min, max, digits}
use Prim.Native.Nat.{bit_and, bit_or, bit_or-bitwise, bit_and-bitwise}

module _ (at_end : ℕ → ℕ) (of_digits : ℕ → ℕ → ℕ) where
  -- Fuel from the first number on gives the digits; how much more there is does not matter.
  same_digits :
      (fuel fuel' x y : ℕ)
      → x ≤ fuel
      → x ≤ fuel'
      → digits at_end of_digits fuel x y ≡ digits at_end of_digits fuel' x y
  same_digits (suc fuel) (suc fuel') (suc x) y lo hi =
      let halves : digits at_end of_digits fuel (suc x / 2) (y / 2)
          ≡ digits at_end of_digits fuel' (suc x / 2) (y / 2) =
        same_digits fuel fuel' (suc x / 2) (y / 2) (omega arith) (omega arith) in
      ap (λ (high : ℕ). high * 2 + of_digits (suc x % 2) (y % 2)) halves
  same_digits (suc fuel) (suc fuel') zero y lo hi = refl
  same_digits (suc fuel) zero zero y lo hi = refl
  same_digits (suc fuel) zero (suc x) y lo hi = absurd (omega arith)
  same_digits zero fuel' (suc x) y lo hi = absurd (omega arith)
  same_digits zero zero zero y lo hi = refl
  same_digits zero (suc fuel') zero y lo hi = refl

pub bit_or_step : (x y : ℕ) → bit_or x y ≡ bit_or (x / 2) (y / 2) * 2 + max (x % 2) (y % 2)
bit_or_step (suc x) y =
    let fuel =
      same_digits (λ rest. rest) max x (suc x / 2) (suc x / 2) (y / 2) (omega arith)
        (omega arith) in
    omega (arith, fuel, bit_or-bitwise (suc x / 2) (y / 2), bit_or-bitwise (suc x) y)
bit_or_step zero y = rw (bit_or-bitwise 0 (y / 2), bit_or-bitwise 0 y) (omega arith)

pub bit_and_step : (x y : ℕ) → bit_and x y ≡ bit_and (x / 2) (y / 2) * 2 + min (x % 2) (y % 2)
bit_and_step (suc x) y =
    let fuel =
      same_digits (λ _. 0) min x (suc x / 2) (suc x / 2) (y / 2) (omega arith) (omega arith) in
    omega (arith, fuel, bit_and-bitwise (suc x / 2) (y / 2), bit_and-bitwise (suc x) y)
bit_and_step zero y = rw (bit_and-bitwise 0 (y / 2), bit_and-bitwise 0 y) (omega arith)
