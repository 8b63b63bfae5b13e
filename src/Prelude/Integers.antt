-- ===== src/Prelude/Integers.antt =====
-- Go's int where it may be negative.
use Prim.Native.Nat.{ℕ, zero, suc, ◌+◌, ◌-◌, ◌%◌, ◌≤◌, ◌<◌}
use mathlib.Core.Path.{◌≡◌, refl, ap, ◌∙◌}
use mathlib.Core.Bool.{Bool, true, false, not}
use native.Mathlib.Omega.{arith}
use kube_comp_mig.Prelude.Tests.{ltb, leb, if◌then◌else◌}

pub data ℤ : Type 0 where
  pos negsuc : ℕ → ℤ

infixl 60 ◌+ℤ◌
-- `z - n`
unfoldable pub minus : ℤ → ℕ → ℤ
minus (pos m) n = if leb n m then pos (m - n) else negsuc (n - m - 1)
minus (negsuc m) n = negsuc (m + n)

-- `a > b`
unfoldable pub gtb : ℤ → ℤ → Bool
gtb (pos a) (pos b) = ltb b a
gtb (pos a) (negsuc b) = true
gtb (negsuc a) (pos b) = false
gtb (negsuc a) (negsuc b) = ltb a b

pub gtb_self : (a : ℤ) → gtb a a ≡ false
unfolding gtb
gtb_self (pos a) = ground arith
gtb_self (negsuc a) = ground arith

pub gtb_asym : (a b : ℤ) → gtb a b ≡ true → gtb b a ≡ false
unfolding gtb
gtb_asym (pos a) (pos b) h = ground arith
gtb_asym (pos a) (negsuc b) h = refl
gtb_asym (negsuc a) (pos b) h = cc
gtb_asym (negsuc a) (negsuc b) h = ground arith

pub gtb_trans : (a b c : ℤ) → gtb a b ≡ false → gtb b c ≡ false → gtb a c ≡ false
unfolding gtb
gtb_trans (pos a) (pos b) (pos c) h k = ground arith
gtb_trans (pos a) (pos b) (negsuc c) h k = cc
gtb_trans (pos a) (negsuc b) c h k = cc
gtb_trans (negsuc a) (pos b) (pos c) h k = refl
gtb_trans (negsuc a) (pos b) (negsuc c) h k = cc
gtb_trans (negsuc a) (negsuc b) (pos c) h k = refl
gtb_trans (negsuc a) (negsuc b) (negsuc c) h k = ground arith

minus_below : (m : ℕ) → 0 < m → minus (pos 0) m ≡ negsuc (m - 1)
unfolding minus
minus_below m h = ground arith

minus-zero : (n : ℕ) → minus (minus (pos 0) 0) n ≡ minus (pos 0) (0 + n)
unfolding minus
minus-zero n = ap (minus (pos 0)) (omega arith)

minus-negsuc : (m n : ℕ) → minus (negsuc (suc m - 1)) n ≡ negsuc (suc m + n - 1)
unfolding minus
minus-negsuc m n = ap negsuc (omega arith)

pub minus-minus : (m n : ℕ) → minus (minus (pos 0) m) n ≡ minus (pos 0) (m + n)
minus-minus zero n = minus-zero n
minus-minus (suc m) n =
    rw (minus_below (suc m) (omega arith), minus_below (suc m + n) (omega arith)) (minus-negsuc m n)

pub gtb-minus : (m n : ℕ) → gtb (minus (pos 0) m) (minus (pos 0) n) ≡ false → n ≤ m
unfolding gtb minus
gtb-minus m n h = ground arith

-- `a + b` and `a - b` before they are cut to 64 bits
unfoldable pub ◌+ℤ◌ : ℤ → ℤ → ℤ
unfolding minus
pos a +ℤ pos b = pos (a + b)
pos a +ℤ negsuc b = minus (pos a) (b + 1)
negsuc a +ℤ pos b = minus (pos b) (a + 1)
negsuc a +ℤ negsuc b = negsuc (a + b + 1)

unfoldable pub neg : ℤ → ℤ
neg (pos zero) = pos 0
neg (pos (suc n)) = negsuc n
neg (negsuc n) = pos (n + 1)

-- The int64 with the same lowest 64 bits.
unfoldable pub wrap_int64 : ℤ → ℤ
wrap_int64 (pos n) =
    let m = n % 18446744073709551616 in
    if ltb m 9223372036854775808 then pos m else negsuc (18446744073709551615 - m)
wrap_int64 (negsuc n) =
    let m = n % 18446744073709551616 in
    if ltb m 9223372036854775808 then negsuc m else pos (18446744073709551615 - m)

-- Go's `a + b`, `a - b` and `a >= b` of two values of type int64
unfoldable pub add_int64 : ℤ → ℤ → ℤ
unfolding ◌+ℤ◌ wrap_int64
add_int64 a b = wrap_int64 (a +ℤ b)

unfoldable pub sub_int64 : ℤ → ℤ → ℤ
unfolding ◌+ℤ◌ wrap_int64 neg
sub_int64 a b = wrap_int64 (a +ℤ neg b)

abbrev pub geb : ℤ → ℤ → Bool
geb a b = not (gtb b a)

pub wrap_int64-pos : (n : ℕ) → n < 9223372036854775808 → wrap_int64 (pos n) ≡ pos n
unfolding wrap_int64
wrap_int64-pos n h =
    let same : n % 18446744073709551616 ≡ n = omega arith in
    let small : ltb n 9223372036854775808 ≡ true = ground arith in rw (same, small) refl

minus-le : (a b : ℕ) → b ≤ a → minus (pos a) b ≡ pos (a - b)
unfolding minus
minus-le a b h = ground arith

plus-neg : (a b : ℕ) → b ≤ a → (pos a +ℤ neg (pos b)) ≡ pos (a - b)
unfolding ◌+ℤ◌ neg
plus-neg a zero h = ap pos (omega arith)
plus-neg a (suc b) h = minus-le a (b + 1) (omega arith) ∙ ap pos (omega arith)

pub sub_int64-pos :
    (a b : ℕ) → b ≤ a → a < 9223372036854775808 → sub_int64 (pos a) (pos b) ≡ pos (a - b)
unfolding sub_int64
sub_int64-pos a b h k = ap wrap_int64 (plus-neg a b h) ∙ wrap_int64-pos (a - b) (omega arith)

pub add_int64-pos :
    (m n : ℕ) → m + n < 9223372036854775808 → add_int64 (pos m) (pos n) ≡ pos (m + n)
unfolding add_int64 ◌+ℤ◌
add_int64-pos m n h = wrap_int64-pos (m + n) h

pub add_int64-zero : (n : ℕ) → n < 9223372036854775808 → add_int64 (pos 0) (pos n) ≡ pos n
unfolding add_int64 ◌+ℤ◌
add_int64-zero n h =
    let same : 0 + n ≡ n = omega arith in ap (λ k. wrap_int64 (pos k)) same ∙ wrap_int64-pos n h
