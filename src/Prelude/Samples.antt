-- ===== src/Prelude/Samples.antt =====
-- A small float64 for tests: a number, or `none` for a NaN. It meets the laws that `Float64` asks for.
use kube_comp_mig.Prelude.Floats.{Float64}
use kube_comp_mig.Prelude.Tests.{ltb, ◌==◌}
use Prim.Native.Nat.{ℕ, ◌*◌}
use mathlib.Core.Path.{◌≡◌, refl}
use mathlib.Core.Bool.{Bool, true, false}
use mathlib.Core.Option.{Option, none, some}
use native.Mathlib.Omega.{arith}

abbrev is_nan : Option ℕ → Bool
is_nan none = true
is_nan (some n) = false

abbrev eq : Option ℕ → Option ℕ → Bool
eq (some a) (some b) = a == b
eq _ _ = false

abbrev lt : Option ℕ → Option ℕ → Bool
lt (some a) (some b) = ltb a b
lt _ _ = false

abbrev mul : Option ℕ → Option ℕ → Option ℕ
mul (some a) (some b) = some (a * b)
mul _ _ = none

pub eq_symm : (x y : Option ℕ) → eq x y ≡ eq y x
eq_symm x y = ground arith

pub eq_trans : (x y z : Option ℕ) → eq x y ≡ true → eq y z ≡ true → eq x z ≡ true
eq_trans x y z h k = ground arith

pub eq-nan : (x y : Option ℕ) → is_nan x ≡ true → eq x y ≡ false
eq-nan x y h = ground arith

pub eq_self : (x : Option ℕ) → is_nan x ≡ false → eq x x ≡ true
eq_self x h = ground arith

pub lt-nan : (x y : Option ℕ) → is_nan x ≡ true → (lt x y ≡ false) × (lt y x ≡ false)
lt-nan x y h = ground arith

pub lt_asymm : (x y : Option ℕ) → lt x y ≡ true → lt y x ≡ false
lt_asymm x y h = ground arith

instance abbrev pub small_floats : Float64
small_floats = record {
  F = Option ℕ;
  of_nat = some;
  nan = none;
  is_nan = is_nan;
  eq = eq;
  lt = lt;
  mul = mul;
  is_nan-nan = refl;
  is_nan-of_nat = λ n. refl;
  eq_symm = eq_symm;
  eq_trans = eq_trans;
  eq-nan = eq-nan;
  eq_self = eq_self;
  lt-nan = lt-nan;
  lt_asymm = lt_asymm;
}
