-- ===== src/Autoscaler/Traffic/Scaling.antt =====
-- What `new_traffic` returns for each decision, when the traffic has the length that the loops expect.
use kube_comp_mig.Prelude.{
  ℕ, zero, suc, ◌+◌, ◌/◌, ◌%◌, ◌<◌, String, ◌≡◌, ◌≢◌, refl, sym, ap, ◌∙◌, List, [], ◌∷◌, ◌++◌,
  arith, length, All, length-append, true, false, ◌==◌, str_eq, eq_iff, Bool-cases, inl, inr,
}
use kube_comp_mig.Prelude.Outcomes.{
  Outcome, ok, for_range, for_range-nil, for_range-cons, for_range-append,
}
use kube_comp_mig.Autoscaler.Traffic.{
  ScaleDecision, scaling_out, not_scaling, TrafficTarget, Loop, percent_at, split, new_traffic,
  scale_in_body, replace_body, scale_out_body, push,
}
use kube_comp_mig.Autoscaler.Traffic.Fill.{targets, fill, Writes}
use mathlib.Core.List.{append-nil}

-- None of these revisions is the one that is scaled.
abbrev pub Others : String → List String → Type 0
Others old = All (λ r. r ≢ old)

pub str_eq-ne : (a b : String) → a ≢ b → str_eq a b ≡ false
str_eq-ne a b h = elim (Bool-cases (str_eq a b)) [
  | inl same ↦ absurd (h ((eq_iff a b).0 same))
  | inr differ ↦ differ
]

pub str_eq_self : (a : String) → str_eq a a ≡ true
str_eq_self a = (eq_iff a a).1 refl

scale_out-Writes :
    (n b r i : ℕ) (xs : List String) → i + length xs < n → Writes (scale_out_body n b r) b r i xs
unfolding scale_out_body
scale_out-Writes n b r i [] h = tt
scale_out-Writes n b r i (x ∷ xs) h =
    (λ s. ground arith, scale_out-Writes n b r (i + 1) xs (omega arith))

pub scale_in-Writes :
    (old : String) (b r i : ℕ) (xs : List String)
    → Others old xs
    → Writes (scale_in_body old b r) b r i xs
unfolding scale_in_body
scale_in-Writes old b r i [] h = tt
scale_in-Writes old b r i (x ∷ xs) h =
    (λ s. rw (str_eq-ne x old h.0), scale_in-Writes old b r (i + 1) xs h.1)

pub replace-Writes :
    (old latest : String) (n b r i : ℕ) (xs : List String)
    → Others old xs
    → i + length xs < n
    → Writes (replace_body old latest n b r) b r i xs
unfolding replace_body
replace-Writes old latest n b r i [] h l = tt
replace-Writes old latest n b r i (x ∷ xs) h l = (
  λ s. rw (str_eq-ne x old h.0) (ground arith),
  replace-Writes old latest n b r (i + 1) xs h.1 (omega arith),
)

split-suc :
    (d : ScaleDecision) (k : ℕ)
    → d ≢ scaling_out
    → split d (suc (suc k)) ≡ ok (100 / suc k, 100 % suc k)
unfolding split
split-suc not_scaling k h = refl
split-suc scaling_out k h = absurd (h refl)
split-suc _ k h = refl

-- The shares when a revision is added behind `before`.
abbrev pub added : List String → String → List TrafficTarget
added before new =
    targets (100 / length (before ++ new ∷ [])) (100 % length (before ++ new ∷ [])) 0
      (before ++ new ∷ [])

pub targets-append :
    (b r i j : ℕ) (xs ys : List String)
    → i + length xs ≡ j
    → targets b r i (xs ++ ys) ≡ targets b r i xs ++ targets b r j ys
unfolding targets
targets-append b r i j [] ys e = ap (λ k. targets b r k ys) (omega arith)
targets-append b r i j (x ∷ xs) ys e =
    ap (λ ts. record { percent = percent_at b r i; revision_name = x } ∷ ts)
      (targets-append b r (i + 1) j xs ys (omega arith))

pub fill_all :
    (body : ℕ → String → Loop → Outcome Loop) (b r : ℕ) (xs : List String)
    (given : List TrafficTarget)
    → length given ≡ length xs
    → Writes body b r 0 xs
    → for_range body 0 xs (record { traffic = given; revision_idx = 0 })
      ≡ ok (record { traffic = targets b r 0 xs; revision_idx = 0 })
fill_all body b r xs given e w =
    ap (λ ts. for_range body 0 xs (record { traffic = ts; revision_idx = 0 }))
      (sym (append-nil given))
    ∙ fill body b r 0 0 xs [] given [] e refl w
    ∙ ap (λ ts. ok (record { traffic = ts; revision_idx = 0 })) (append-nil _)

pub last_index : (xs : List String) (x : String) → (length xs + 1 == length (xs ++ x ∷ [])) ≡ true
last_index xs x = ground (arith, length-append xs (x ∷ []))

scale_out_last :
    (b r : ℕ) (before : List String) (new : String) (ts : List TrafficTarget)
    → for_range
        (scale_out_body (length (before ++ new ∷ [])) b r)
        (length before)
        (new ∷ [])
        (record { traffic = ts; revision_idx = 0 })
      ≡ ok (record { traffic = ts ++ targets b r (length before) (new ∷ []); revision_idx = 0 })
unfolding scale_out_body push targets
scale_out_last b r before new ts = rw (for_range-cons, last_index before new, for_range-nil)

scale_out_loop :
    (b r : ℕ) (before : List String) (new : String) (traffic : List TrafficTarget)
    → length traffic ≡ length before
    → for_range
        (scale_out_body (length (before ++ new ∷ [])) b r)
        0
        (before ++ new ∷ [])
        (record { traffic = traffic; revision_idx = 0 })
      ≡ ok (record { traffic = targets b r 0 (before ++ new ∷ []); revision_idx = 0 })
scale_out_loop b r before new traffic e =
    rw (for_range-append _ 0 (length before) before (new ∷ []) _ (omega arith)) (
      rw
        (fill_all (scale_out_body (length (before ++ new ∷ [])) b r) b r before traffic e
          (scale_out-Writes _ b r 0 before (omega (arith, length-append before (new ∷ [])))))
        (rw (targets-append b r 0 (length before) before (new ∷ []) (omega arith))
          (scale_out_last b r before new _)))

split-scaling_out : (n : ℕ) → 0 < n → split scaling_out n ≡ ok (100 / n, 100 % n)
unfolding split
split-scaling_out zero h = absurd (omega arith)
split-scaling_out (suc n) h = refl

pub scale_out_lem :
    (old latest : String) (before : List String) (new : String) (traffic : List TrafficTarget)
    → length traffic ≡ length before
    → new_traffic scaling_out old latest (before ++ new ∷ []) traffic ≡ ok (added before new)
unfolding new_traffic
scale_out_lem old latest before new traffic e =
    rw
      (split-scaling_out (length (before ++ new ∷ []))
        (omega (arith, length-append before (new ∷ []))))
      (rw (scale_out_loop _ _ before new traffic e))
