-- ===== src/Autoscaler/Traffic/Fill.antt =====
-- What the loops of `updateServiceTraffic` write, as lists.
use kube_comp_mig.Prelude.{
  ℕ, suc, ◌+◌, ◌*◌, String, ◌≡◌, refl, sym, ap, ◌∙◌, List, [], ◌∷◌, ◌++◌, arith, length, take, drop,
  min, lt→ltb, length-append,
}
use kube_comp_mig.Prelude.Outcomes.{Outcome, ok, for_range, for_range-nil, for_range-cons}
use kube_comp_mig.Autoscaler.Traffic.{TrafficTarget, Loop, set_at, remove_at, percent_at, write}
use mathlib.Core.List.{append_assoc}
use native.Mathlib.Numerals.{add-one}

pub percents : List TrafficTarget → ℕ
percents [] = 0
percents (t ∷ ts) = t.percent + percents ts

-- The entries for revisions that stand at the positions from `i` on.
unfoldable pub targets : ℕ → ℕ → ℕ → List String → List TrafficTarget
targets base remainder i [] = []
targets base remainder i (x ∷ xs) =
    record { percent = percent_at base remainder i; revision_name = x }
    ∷ targets base remainder (i + 1) xs

pub set_at-append :
    (xs : List TrafficTarget) (y : TrafficTarget) (ys : List TrafficTarget) (t : TrafficTarget)
    → set_at (xs ++ y ∷ ys) (length xs) t ≡ ok (xs ++ t ∷ ys)
unfolding set_at
set_at-append [] y ys t = refl
set_at-append (x ∷ xs) y ys t = rw (set_at-append xs y ys t)

take-append : (xs ys : List TrafficTarget) → take (length xs) (xs ++ ys) ≡ xs
take-append [] ys = refl
take-append (x ∷ xs) ys = rw (take-append xs ys)

drop-append :
    (xs : List TrafficTarget) (y : TrafficTarget) (ys : List TrafficTarget)
    → drop (suc (length xs)) (xs ++ y ∷ ys) ≡ ys
drop-append [] y ys = refl
drop-append (x ∷ xs) y ys = drop-append xs y ys

pub remove_at-append :
    (xs : List TrafficTarget) (y : TrafficTarget) (ys : List TrafficTarget)
    → remove_at (xs ++ y ∷ ys) (length xs) ≡ ok (xs ++ ys)
unfolding remove_at
remove_at-append xs y ys =
    rw (lt→ltb (length xs) (length (xs ++ y ∷ ys)) (omega (arith, length-append xs (y ∷ ys))))
      (rw (take-append, add-one, drop-append))

pub percents-append : (xs ys : List TrafficTarget) → percents (xs ++ ys) ≡ percents xs + percents ys
unfolding percents
percents-append [] ys = omega arith
percents-append (x ∷ xs) ys = omega (arith, percents-append xs ys)

-- The remainder goes to the positions below it.
pub percents-targets :
    (base remainder i : ℕ) (xs : List String)
    → percents (targets base remainder i xs) + min remainder i
      ≡ base * length xs + min remainder (i + length xs)
unfolding percents targets percent_at
percents-targets base remainder i [] = omega arith
percents-targets base remainder i (x ∷ xs) =
    ground (arith, percents-targets base remainder (i + 1) xs)

-- The body writes the entry of each of these revisions at its position.
abbrev pub Writes : (ℕ → String → Loop → Outcome Loop) → ℕ → ℕ → ℕ → List String → Type 0
Writes body base remainder i [] = Unit
Writes body base remainder i (x ∷ xs) =
    ((s : Loop)
      → body i x s
        ≡ write i (record { percent = percent_at base remainder i; revision_name = x }) s)
    × Writes body base remainder (i + 1) xs

pub fill :
    (body : ℕ → String → Loop → Outcome Loop) (base remainder i idx : ℕ) (xs : List String)
    (written given rest : List TrafficTarget)
    → length given ≡ length xs
    → length written ≡ i
    → Writes body base remainder i xs
    → for_range body i xs (record { traffic = written ++ (given ++ rest); revision_idx = idx })
      ≡ ok (record {
        traffic = written ++ (targets base remainder i xs ++ rest);
        revision_idx = idx;
      })
unfolding targets write
fill body base remainder i idx [] written [] rest e l w = for_range-nil body i _
fill body base remainder i idx [] written (g ∷ given) rest e l w = absurd (omega arith)
fill body base remainder i idx (x ∷ xs) written [] rest e l w = absurd (omega arith)
fill body base remainder i idx (x ∷ xs) written (g ∷ given) rest e l w =
    rw (for_range-cons, w.0, ← l, set_at-append)
      (ap (λ u. for_range body (length written + 1) xs (record { traffic = u; revision_idx = idx }))
          (regroup (given ++ rest))
        ∙ fill body base remainder (length written + 1) idx xs (written ++ t ∷ []) given rest
            (omega arith) (omega (arith, length-append written (t ∷ []))) (rw l w.1)
        ∙ ap (λ u. ok (record { traffic = u; revision_idx = idx })) (sym (regroup _)))
  where
    t : TrafficTarget
    t = record { percent = percent_at base remainder (length written); revision_name = x }

    regroup : (ts : List TrafficTarget) → written ++ t ∷ ts ≡ (written ++ t ∷ []) ++ ts
    regroup ts = sym (append_assoc written (t ∷ []) ts)
