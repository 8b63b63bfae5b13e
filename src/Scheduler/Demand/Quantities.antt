-- ===== src/Scheduler/Demand/Quantities.antt =====
-- The compute slices and the memory that a pod requests of a GPU.
use kube_comp_mig.Prelude.{
  ℕ, ◌+◌, ◌<◌, ◌≡◌, refl, sym, ap, ◌∙◌, Bool, true, false, String, List, [], ◌∷◌, arith, ◌==◌,
  get_elem?, str_eq, if◌then◌else◌,
}
use kube_comp_mig.Prelude.Integers.{ℤ}
use kube_comp_mig.Prelude.Maps.{Map}
use kube_comp_mig.Prelude.Outcomes.{
  Outcome, ok, err, panic, running, ok_injective, ◌>>=◌, for_range,
}
use kube_comp_mig.Prelude.Text.{split_on, slice_to, slice_from}
use kube_comp_mig.Scheduler.Slices.{extract_cpu_and_memory}
use kube_comp_mig.Scheduler.Demand.{
  NodeInfo, Ignored, Demand, skips, add_slice_capacity, add_slice, compare_scalar, second,
  ask_scalar, scalar_step, scalar_loop, mig_resource_prefix,
}

-- The two sums, `gpuRequest`.
abbrev pub gpu_request : Demand → ℤ × ℤ
gpu_request d = (d.cpu, d.memory)

abbrev pub gpu_requested : Outcome Demand → Outcome (ℤ × ℤ)
gpu_requested (ok d) = ok (gpu_request d)
gpu_requested (err e) = err e
gpu_requested panic = panic
gpu_requested running = running

abbrev Alike : Outcome Demand → Outcome Demand → Type 0
Alike m n = gpu_requested m ≡ gpu_requested n

same_bind :
    {A : Type 0} (m : Outcome A) (f g : A → Outcome Demand)
    → ((a : A) → Alike (f a) (g a))
    → Alike (m >>= f) (m >>= g)
same_bind (ok a) f g h = h a
same_bind (err e) f g h = refl
same_bind panic f g h = refl
same_bind running f g h = refl

Alike-bind :
    (m n : Outcome Demand) (f g : Demand → Outcome Demand)
    → Alike m n
    → ((d e : Demand) → gpu_request d ≡ gpu_request e → Alike (f d) (g e))
    → Alike (m >>= f) (n >>= g)
Alike-bind (ok d) (ok e) f g h k = k d e (ok_injective (gpu_request d) (gpu_request e) h)
Alike-bind (err d) (err e) f g h k = h
Alike-bind panic panic f g h k = refl
Alike-bind running running f g h k = refl
Alike-bind m n f g h k = cc

add_slice_capacity-Alike :
    (o : Outcome (ℤ × ℤ)) (d e : Demand)
    → gpu_request d ≡ gpu_request e
    → Alike (add_slice_capacity o d) (add_slice_capacity o e)
unfolding add_slice_capacity
add_slice_capacity-Alike (ok c) d e h = cc
add_slice_capacity-Alike (err x) d e h = cc
add_slice_capacity-Alike panic d e h = refl
add_slice_capacity-Alike running d e h = refl

compare_scalar-kept :
    (node : NodeInfo) (name : String) (quantity : ℕ) (d : Demand)
    → gpu_request (compare_scalar node name quantity d) ≡ gpu_request d
unfolding compare_scalar
compare_scalar-kept node name quantity d = ground arith

add_slice-Alike :
    (q r : ℕ) (slice : String) (d e : Demand)
    → gpu_request d ≡ gpu_request e
    → Alike (add_slice q slice d) (add_slice r slice e)
unfolding add_slice
add_slice-Alike q r slice d e h = add_slice_capacity-Alike (extract_cpu_and_memory slice) _ _ h

ask_scalar-Alike :
    (node : NodeInfo) (name : String) (q r : ℕ) (parts : List String) (d e : Demand)
    → gpu_request d ≡ gpu_request e
    → Alike (ask_scalar node name q parts d) (ask_scalar node name r parts e)
unfolding ask_scalar
ask_scalar-Alike node name q r parts d e h =
    same_bind (second (get_elem? parts 1)) (of_part q d) (of_part r e) (λ part.
      same_bind (slice_to 3 part) (of_head q d part) (of_head r e part)
        (λ head. branch part (str_eq head mig_resource_prefix)))
  where
    of_head : ℕ → Demand → String → String → Outcome Demand
    of_head q d part head =
        if str_eq head mig_resource_prefix
        then (slice_from 4 part >>= λ slice. add_slice q slice d)
        else ok (compare_scalar node name q d)

    of_part : ℕ → Demand → String → Outcome Demand
    of_part q d part = slice_to 3 part >>= of_head q d part

    branch :
        (part : String) (b : Bool)
        → Alike
            (if b
              then (slice_from 4 part >>= λ slice. add_slice q slice d)
              else ok (compare_scalar node name q d))
            (if b
              then (slice_from 4 part >>= λ slice. add_slice r slice e)
              else ok (compare_scalar node name r e))
    branch part true =
        same_bind (slice_from 4 part) (λ slice. add_slice q slice d) (λ slice. add_slice r slice e)
          (λ slice. add_slice-Alike q r slice d e h)
    branch part false =
        ap ok (compare_scalar-kept node name q d ∙ h ∙ sym (compare_scalar-kept node name r e))

scalar_step-Alike :
    (ignored : Ignored) (node : NodeInfo) (name : String) (q r : ℕ) (d e : Demand)
    → 0 < q
    → 0 < r
    → gpu_request d ≡ gpu_request e
    → Alike (scalar_step ignored node (name, q) d) (scalar_step ignored node (name, r) e)
unfolding scalar_step
scalar_step-Alike ignored node name q r d e k l h =
    let nonzero_q : (q == 0) ≡ false = ground arith in
    let nonzero_r : (r == 0) ≡ false = ground arith in
    rw (nonzero_q, nonzero_r) (by_skip (skips ignored name (split_on 47 name)))
  where
    by_skip :
        (b : Bool)
        → Alike
            (if b then ok d else ask_scalar node name q (split_on 47 name) d)
            (if b then ok e else ask_scalar node name r (split_on 47 name) e)
    by_skip true = ap ok h
    by_skip false = ask_scalar-Alike node name q r (split_on 47 name) d e h

-- The same names, each with a quantity that is not zero, in two lists.
abbrev pub SameNames : Map String ℕ → Map String ℕ → Type 0
SameNames [] [] = Unit
SameNames ((a, q) ∷ xs) ((b, r) ∷ ys) = (a ≡ b) × (0 < q) × (0 < r) × SameNames xs ys
SameNames _ _ = ⊥

for_range-Alike :
    (ignored : Ignored) (node : NodeInfo) (i : ℕ) (xs ys : Map String ℕ) (d e : Demand)
    → SameNames xs ys
    → gpu_request d ≡ gpu_request e
    → Alike
        (for_range (λ _. scalar_step ignored node) i xs d)
        (for_range (λ _. scalar_step ignored node) i ys e)
unfolding for_range
for_range-Alike ignored node i [] [] d e s h = ap ok h
for_range-Alike ignored node i [] (y ∷ ys) d e s h = absurd s
for_range-Alike ignored node i (x ∷ xs) [] d e s h = absurd s
for_range-Alike ignored node i ((a, q) ∷ xs) ((b, r) ∷ ys) d e (same, k, l, s) h =
    Alike-bind (scalar_step ignored node (a, q) d) (scalar_step ignored node (b, r) e) _ _
      (scalar_step-Alike ignored node a q r d e k l h
        ∙ ap (λ n. gpu_requested (scalar_step ignored node (n, r) e)) same)
      (λ f g j. for_range-Alike ignored node (i + 1) xs ys f g s j)

-- The compute slices and the memory that `fitsRequest` asks a GPU for do not depend on how many of each
-- slice a pod requests: two requests for the same resources, with any quantities that are not zero, come
-- to the same sums, or to the same error or panic.
pub quantities_ignored :
    (ignored : Ignored) (node : NodeInfo) (xs ys : Map String ℕ) (d : Demand)
    → SameNames xs ys
    → gpu_requested (scalar_loop ignored node xs d) ≡ gpu_requested (scalar_loop ignored node ys d)
unfolding scalar_loop
quantities_ignored ignored node xs ys d s = for_range-Alike ignored node 0 xs ys d d s refl
