-- ===== src/Prelude/Floats.antt =====
-- Go's float64 as a type with the operations that the programs use and the laws of IEEE 754 that the
-- theorems rest on. The bits of a float64 are not modelled.
use Prim.Native.Nat.{ℕ}
use mathlib.Core.Path.{◌≡◌}
use mathlib.Core.Bool.{Bool, true, false}

pub record Float64 : Type 1 where
  pub F : Type 0
  -- `float64(n)` of an integer that is not negative
  pub of_nat : ℕ → F
  -- `math.NaN()`, `math.IsNaN(x)`
  pub nan : F
  pub is_nan : F → Bool
  -- `x == y`, `x < y`, `x * y`
  pub eq : F → F → Bool
  pub lt : F → F → Bool
  pub mul : F → F → F
  pub is_nan-nan : is_nan nan ≡ true
  pub is_nan-of_nat : (n : ℕ) → is_nan (of_nat n) ≡ false
  -- A comparison with a NaN is false; any other value equals itself.
  pub eq_symm : (x y : F) → eq x y ≡ eq y x
  pub eq_trans : (x y z : F) → eq x y ≡ true → eq y z ≡ true → eq x z ≡ true
  pub eq-nan : (x y : F) → is_nan x ≡ true → eq x y ≡ false
  pub eq_self : (x : F) → is_nan x ≡ false → eq x x ≡ true
  pub lt-nan : (x y : F) → is_nan x ≡ true → (lt x y ≡ false) × (lt y x ≡ false)
  pub lt_asymm : (x y : F) → lt x y ≡ true → lt y x ≡ false
