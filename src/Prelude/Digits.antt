-- ===== src/Prelude/Digits.antt =====
-- How many digits a printed number has.
use Prim.Native.Nat.{ℕ, zero, suc, ◌+◌, ◌*◌, ◌/◌, ◌%◌, ◌^◌, ◌≤◌, ◌<◌}
use mathlib.Core.Path.{◌≡◌, refl}
use mathlib.Core.Logic.{inl, inr}
use mathlib.Core.Bool.{true}
use mathlib.Core.List.{[], ◌∷◌}
use native.Mathlib.Omega.{arith}
use native.Mathlib.Numerals.{unary_clauses}
use rmsgw.Prelude.Tests.{ltb, Bool-cases}
use rmsgw.Prelude.Lists.{length, length-append}
use rmsgw.Prelude.Decimal.{decimal_digits, decimal}

pow_suc : (k : ℕ) → 10 ^ suc k ≡ 10 ^ k * 10
pow_suc k = simp unary_clauses refl

length-decimal_digits : (fuel k n : ℕ) → n < 10 ^ suc k → length (decimal_digits fuel n) ≤ suc k
unfolding decimal_digits
length-decimal_digits zero k n h = omega arith
length-decimal_digits (suc fuel) zero n h =
    let one : ltb n 10 ≡ true = ground (arith, h) in rw one (omega arith)
length-decimal_digits (suc fuel) (suc k) n h = elim (Bool-cases (ltb n 10)) [
  | inl small ↦ rw small (omega arith)
  | inr large ↦
      let tenth : n / 10 < 10 ^ suc k = omega (arith, h, pow_suc (suc k)) in
      rw large (
        omega (
          arith,
          length-append (decimal_digits fuel (n / 10)) ((48 + n % 10) ∷ []),
          length-decimal_digits fuel k (n / 10) tenth,
        ))
]

pub length-decimal : (k n : ℕ) → n < 10 ^ suc k → length (decimal n) ≤ suc k
unfolding decimal
length-decimal k n h = length-decimal_digits (suc n) k n h
