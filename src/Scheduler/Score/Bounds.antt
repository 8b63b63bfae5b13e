-- ===== src/Scheduler/Score/Bounds.antt =====
-- The range of the normalized scores.
use kube_comp_mig.Prelude.{
  ℕ, ◌-◌, ◌*◌, ◌/◌, ◌≤◌, ◌<◌, ◌≡◌, refl, sym, ap, ◌∙◌, inl, inr, Bool, true, false, ◌&&◌, String,
  List, [], ◌∷◌, arith, All, All-weaken, Bool-cases, if◌then◌else◌,
}
use native.Mathlib.Nat.{div-le_of_le-mul}
use kube_comp_mig.Prelude.Integers.{
  ℤ, pos, negsuc, gtb, gtb_self, gtb_asym, gtb_trans, add_int64, sub_int64, sub_int64-pos,
  add_int64-zero,
}
use kube_comp_mig.Prelude.Text.{max_int64}
use kube_comp_mig.Scheduler.Score.{
  FloatScale, min_max_loop, get_min_max_scores, min_int64, int_eq, normalized, normalize_loop,
  normalize_score, max_node_score,
}

-- Not below zero, and below 2^32.
abbrev pub SmallScore : ℤ → Type 0
SmallScore z = (n : ℕ) × (z ≡ pos n) × (n < 4294967296)

abbrev Within : ℤ → ℤ → ℤ → Type 0
Within min max z = (gtb min z ≡ false) × (gtb z max ≡ false)

-- The running minimum only falls, the running maximum only rises, and both pass every score.
smaller :
    (m z : ℤ)
    → (gtb (if gtb m z then z else m) m ≡ false) × (gtb (if gtb m z then z else m) z ≡ false)
smaller m z = elim (Bool-cases (gtb m z)) [
  | inl h ↦ rw (h) (gtb_asym m z h, gtb_self z)
  | inr h ↦ rw (h) (gtb_self m, h)
]

larger :
    (m z : ℤ)
    → (gtb m (if gtb z m then z else m) ≡ false) × (gtb z (if gtb z m then z else m) ≡ false)
larger m z = elim (Bool-cases (gtb z m)) [
  | inl h ↦ rw (h) (gtb_asym z m h, gtb_self z)
  | inr h ↦ rw (h) (gtb_self m, h)
]

min_max_loop-Within :
    (scores : List (String × ℤ)) (min max : ℤ)
    → (gtb (min_max_loop scores min max).0 min ≡ false)
      × (gtb max (min_max_loop scores min max).1 ≡ false)
      × All (λ p. Within (min_max_loop scores min max).0 (min_max_loop scores min max).1 p.1) scores
unfolding min_max_loop
min_max_loop-Within [] min max = (gtb_self min, gtb_self max, tt)
min_max_loop-Within ((name, score) ∷ rest) min max =
    let min' = if gtb min score then score else min in
    let max' = if gtb score max then score else max in
    let m = min_max_loop rest min' max' in
    let (falls, rises, all) = min_max_loop-Within rest min' max' in
    (
      gtb_trans m.0 min' min falls (smaller min score).0,
      gtb_trans max max' m.1 (larger max score).0 rises,
      (
        (
          gtb_trans m.0 min' score falls (smaller min score).1,
          gtb_trans score max' m.1 (larger max score).1 rises,
        ),
        all,
      ),
    )

-- What holds of the starting values and of every score holds of the results.
min_max_loop-All :
    (P Q : ℤ → Type 0) (scores : List (String × ℤ)) (min max : ℤ)
    → P min
    → Q max
    → All (λ p. P p.1 × Q p.1) scores
    → P (min_max_loop scores min max).0 × Q (min_max_loop scores min max).1
unfolding min_max_loop
min_max_loop-All P Q [] min max p q h = (p, q)
min_max_loop-All P Q ((name, score) ∷ rest) min max p q (x, h) =
    min_max_loop-All P Q rest _ _ (pick P (gtb min score) x.0 p) (pick Q (gtb score max) x.1 q) h
  where
    pick : (R : ℤ → Type 0) (b : Bool) {u v : ℤ} → R u → R v → R (if b then u else v)
    pick R true r t = r
    pick R false r t = t

abbrev NotNegative : ℤ → Type 0
NotNegative z = (n : ℕ) × (z ≡ pos n)

abbrev BelowLimit : ℤ → Type 0
BelowLimit z = gtb z (pos 4294967295) ≡ false

small_parts : (z : ℤ) → SmallScore z → NotNegative z × BelowLimit z
unfolding gtb
small_parts z (n, e, h) = ((n, e), rw (e) (ground arith))

-- The result lies between 0 and 100.
abbrev pub InRange : ℤ → Type 0
InRange z = (n : ℕ) × (z ≡ pos n) × (n ≤ max_node_score)

quotient_le : (x y : ℕ) → x ≤ y → 0 < y → max_node_score * x / y ≤ max_node_score
quotient_le x y h k = div-le_of_le-mul y (omega arith)

scaled :
    (float : FloatScale) (min max n : ℕ)
    → min ≤ n
    → n ≤ max
    → min < max
    → max < 4294967296
    → InRange (
        add_int64
          (pos 0)
          (float.scale (sub_int64 (pos n) (pos min)) (sub_int64 (pos max) (pos min))))
scaled float min max n a b c d =
    let x = n - min in
    let y = max - min in
    let q = max_node_score * x / y in
    let le = quotient_le x y (omega arith) (omega arith) in
    (
      q,
      ap (λ z. add_int64 (pos 0) z)
            (ap (λ u. float.scale u (sub_int64 (pos max) (pos min)))
                (sub_int64-pos n min a (omega arith))
              ∙ ap (float.scale (pos x)) (sub_int64-pos max min (omega arith) (omega arith))
              ∙ float.scale-exact x y (omega arith) (omega arith) (omega arith))
          ∙ add_int64-zero q (omega (arith, le)),
      le,
    )

gtb-le : (z w : ℤ) (x y : ℕ) → z ≡ pos x → w ≡ pos y → gtb z w ≡ false → x ≤ y
unfolding gtb
gtb-le z w x y e f h = le_of (sym (ap (λ z. gtb z (pos y)) e) ∙ sym (ap (gtb z) f) ∙ h)
  where
    le_of : gtb (pos x) (pos y) ≡ false → x ≤ y
    le_of h = ground arith

different : (min max : ℕ) → min ≤ max → int_eq (pos max) (pos min) ≡ false → min < max
unfolding gtb
different min max a h = ground arith

zero_max : (max : ℤ) (n : ℕ) → int_eq max (pos 0) ≡ true → gtb (pos n) max ≡ false → n ≡ 0
unfolding gtb
zero_max (pos b) n e h = ground arith
zero_max (negsuc b) n e h = ground arith

naturals-InRange :
    (float : FloatScale) (min max n : ℕ)
    → min ≤ n
    → n ≤ max
    → max < 4294967296
    → InRange (normalized float (pos min) (pos max) (pos n))
naturals-InRange float min max n a b c = elim (Bool-cases (int_eq (pos max) (pos min))) [
  | inl h ↦ rw (h) (0, refl, omega arith)
  | inr h ↦ rw (h) (scaled float min max n a b (different min max (omega arith) h) c)
]

normalized-InRange :
    (float : FloatScale) (min max score : ℤ)
    → NotNegative min
    → BelowLimit max
    → SmallScore score
    → Within min max score
    → InRange (normalized float min max score)
unfolding gtb
normalized-InRange float min (pos b) score (a, e) below (n, f, small) (l, u) =
    rw (e, f)
      (naturals-InRange float a b n (gtb-le min score a n e f l) (gtb-le score (pos b) n b f refl u)
        (limit b below))
  where
    limit : (b : ℕ) → gtb (pos b) (pos 4294967295) ≡ false → b < 4294967296
    limit b h = ground arith
normalized-InRange float min (negsuc b) score (a, e) below (n, f, small) (l, u) =
    absurd (ne (sym (ap (λ z. gtb z (negsuc b)) f) ∙ u))
  where
    ne : gtb (pos n) (negsuc b) ≡ false → ⊥
    ne h = cc

loop-InRange :
    (float : FloatScale) (min max : ℤ) (scores : List (String × ℤ))
    → NotNegative min
    → BelowLimit max
    → All (λ p. SmallScore p.1) scores
    → All (λ p. Within min max p.1) scores
    → All (λ p. InRange p.1) (normalize_loop float min max scores)
unfolding normalize_loop
loop-InRange float min max [] p q h w = tt
loop-InRange float min max ((name, score) ∷ rest) p q (h, hs) (w, ws) =
    (normalized-InRange float min max score p q h w, loop-InRange float min max rest p q hs ws)

-- Scores that are all zero.
zeros-InRange :
    (min max : ℤ) (scores : List (String × ℤ))
    → int_eq max (pos 0) ≡ true
    → All (λ p. SmallScore p.1) scores
    → All (λ p. Within min max p.1) scores
    → All (λ p. InRange p.1) scores
zeros-InRange min max [] e h w = tt
zeros-InRange min max ((name, score) ∷ rest) e ((n, f, small), hs) ((l, u), ws) = (
  (n, f, omega (arith, zero_max max n e (sym (ap (λ z. gtb z max) f) ∙ u))),
  zeros-InRange min max rest e hs ws,
)

-- After NormalizeScore, scores that were not negative and below 2^32 lie between 0 and 100.
pub normalize_score-InRange :
    (float : FloatScale) (scores : List (String × ℤ))
    → All (λ p. SmallScore p.1) scores
    → All (λ p. InRange p.1) (normalize_score float scores)
unfolding normalize_score get_min_max_scores gtb
normalize_score-InRange float scores h = by_zero (int_eq m.0 (pos 0)) (int_eq m.1 (pos 0)) refl
  where
    m : ℤ × ℤ
    m = min_max_loop scores (pos max_int64) min_int64

    parts : All (λ p. NotNegative p.1 × BelowLimit p.1) scores
    parts = All-weaken scores (λ p k. small_parts p.1 k) h

    ends : NotNegative m.0 × BelowLimit m.1
    ends =
        min_max_loop-All NotNegative BelowLimit scores (pos max_int64) min_int64 (max_int64, refl)
          refl parts

    within : All (λ p. Within m.0 m.1 p.1) scores
    within = (min_max_loop-Within scores (pos max_int64) min_int64).2

    by_zero :
        (a b : Bool)
        → int_eq m.1 (pos 0) ≡ b
        → All (λ p. InRange p.1) (if a && b then scores else normalize_loop float m.0 m.1 scores)
    by_zero true true e = zeros-InRange m.0 m.1 scores e h within
    by_zero true false e = loop-InRange float m.0 m.1 scores ends.0 ends.1 h within
    by_zero false b e = loop-InRange float m.0 m.1 scores ends.0 ends.1 h within
