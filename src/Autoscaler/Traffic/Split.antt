-- ===== src/Autoscaler/Traffic/Split.antt =====
-- The percentages that `updateServiceTraffic` hands out.
use kube_comp_mig.Prelude.{
  ℕ, ◌+◌, ◌*◌, ◌/◌, ◌%◌, ◌≤◌, ◌<◌, String, ◌≡◌, refl, List, [], ◌∷◌, ◌++◌, arith, length, min, ltb,
  if◌then◌else◌, map, All, ap, Bool-cases, inl, inr, tests,
}
use kube_comp_mig.Autoscaler.Traffic.{TrafficTarget, percent_at}
use kube_comp_mig.Autoscaler.Traffic.Fill.{percents, targets, percents-targets, percents-append}

-- The revisions that receive traffic, in order.
abbrev pub names : List TrafficTarget → List String
names = map (λ t. t.revision_name)

pub names-targets :
    (base remainder i : ℕ) (xs : List String) → names (targets base remainder i xs) ≡ xs
unfolding targets
names-targets base remainder i [] = refl
names-targets base remainder i (x ∷ xs) =
    ap (λ ys. x ∷ ys) (names-targets base remainder (i + 1) xs)

-- No two shares are further apart than one percent.
abbrev pub IsEven : ℕ → List TrafficTarget → Type 0
IsEven base = All (λ t. (base ≤ t.percent) × (t.percent ≤ base + 1))

pub targets-IsEven :
    (base remainder i : ℕ) (xs : List String) → IsEven base (targets base remainder i xs)
unfolding targets percent_at
targets-IsEven base remainder i [] = tt
targets-IsEven base remainder i (x ∷ xs) = (ground arith, targets-IsEven base remainder (i + 1) xs)

-- All of the traffic is handed out where every position receives its share.
pub percents_all :
    (xs : List String)
    → 0 < length xs
    → percents (targets (100 / length xs) (100 % length xs) 0 xs) ≡ 100
percents_all xs h = omega (arith, percents-targets (100 / length xs) (100 % length xs) 0 xs)

skip_arith :
    (b r x y p q : ℕ)
    → b * (x + y) + r ≡ 100
    → r < x + y
    → p + min r 0 ≡ b * x + min r (0 + x)
    → q + min r (x + 1) ≡ b * y + min r (x + 1 + y)
    → p + q + (if ltb x r then 1 else 0) ≡ 100
skip_arith b r x y p q total low hp hq = elim (Bool-cases (ltb x r)) [
  | inl lt ↦ rw lt (omega (tests, lt))
  | inr ge ↦ rw ge (let le : r ≤ x = ground arith in omega arith)
]

-- Where one position is left out, the extra percent of that position, if it had one, is lost.
pub percents_skip :
    (xs ys : List String) (m : ℕ)
    → length xs + length ys ≡ m
    → 0 < m
    → percents (targets (100 / m) (100 % m) 0 xs ++ targets (100 / m) (100 % m) (length xs + 1) ys)
        + (if ltb (length xs) (100 % m) then 1 else 0)
      ≡ 100
percents_skip xs ys m e h = rw (percents-append (targets (100 / m) (100 % m) 0 xs) _) (
    skip_arith (100 / m) (100 % m) (length xs) (length ys) _ _ (rw e (omega arith))
      (rw e (omega arith)) (percents-targets (100 / m) (100 % m) 0 xs)
      (percents-targets (100 / m) (100 % m) (length xs + 1) ys))
