-- ===== src/Scheduler/Demand/Summed.antt =====
-- What the loop over the scalar resources keeps of the requested slices.
use kube_comp_mig.Prelude.{
  ℕ, ◌+◌, ◌≡◌, refl, sym, ap, ◌∙◌, subst, Bool, true, false, not, ◌||◌, String, Option, none, some,
  List, [], ◌∷◌, arith, get_elem?, str_eq, ◌==◌, if◌then◌else◌,
}
use kube_comp_mig.Prelude.Integers.{ℤ, pos, add_int64}
use kube_comp_mig.Prelude.Maps.{Map, string_eq, or_default, lookup, insert}
use kube_comp_mig.Prelude.Outcomes.{
  Outcome, ok, err, panic, running, >>=-ok, ok_injective, ◌>>=◌, for_range, for_range-cons,
  for_range-nil,
}
use kube_comp_mig.Prelude.Text.{split_on, slice_to, slice_from}
use kube_comp_mig.Scheduler.Slices.{extract_cpu_and_memory}
use kube_comp_mig.Scheduler.Demand.{
  NodeInfo, Ignored, Demand, is_nil, skips, add_slice_capacity, add_slice, compare_scalar, second,
  ask_scalar, scalar_step, scalar_loop, mig_resource_prefix,
}
use kube_comp_mig.Scheduler.Demand.Quantities.{gpu_request}
use kube_comp_mig.Scheduler.Demand.Asked.{
  got, after_mig, slice_in, slice_of, onto, asked, plus_sizes, sizes_from, with_slice, is_slice,
  noted, noted_all,
}

-- What a part of the loop adds, where it reads this slice, with a quantity, or none.
abbrev Adds : Option String → ℕ → Demand → Demand → Type 0
Adds slice quantity d e =
    (gpu_request e ≡ with_slice (gpu_request d) slice)
    × (e.use_mig ≡ (is_slice slice || d.use_mig))
    × (e.slices ≡ noted slice quantity d.slices)

add_slice-Adds :
    (quantity : ℕ) (slice : String) (d e : Demand)
    → add_slice quantity slice d ≡ ok e
    → Adds (some slice) quantity d e
unfolding add_slice add_slice_capacity
add_slice-Adds quantity slice d e h = by_sizes (extract_cpu_and_memory slice) _ refl refl refl h
  where
    by_sizes :
        (o : Outcome (ℤ × ℤ)) (start : Demand)
        → gpu_request start ≡ gpu_request d
        → start.use_mig ≡ true
        → start.slices
          ≡ insert slice
              (add_int64 (or_default (pos 0) (lookup slice d.slices)) (pos quantity))
              d.slices
        → add_slice_capacity o start ≡ ok e
        → (gpu_request e ≡ plus_sizes (gpu_request d) o)
          × (e.use_mig ≡ true)
          × (e.slices
              ≡ insert slice
                  (add_int64 (or_default (pos 0) (lookup slice d.slices)) (pos quantity))
                  d.slices)
    by_sizes (ok c) start same mig map h =
        let eq = ok_injective _ e h in
        (
          ap gpu_request (sym eq) ∙ ap (λ x. plus_sizes x (ok c)) same,
          ap (λ x. x.use_mig) (sym eq) ∙ mig,
          ap (λ x. x.slices) (sym eq) ∙ map,
        )
    by_sizes (err m) start same mig map h =
        let eq = ok_injective start e h in
        (
          ap gpu_request (sym eq) ∙ same,
          ap (λ x. x.use_mig) (sym eq) ∙ mig,
          ap (λ x. x.slices) (sym eq) ∙ map,
        )
    by_sizes panic start same mig map h = absurd (ne h)
      where
        ne : panic ≡ ok e → ⊥
        ne h = cc
    by_sizes running start same mig map h = absurd (ne h)
      where
        ne : running ≡ ok e → ⊥
        ne h = cc

compare_scalar-Adds :
    (node : NodeInfo) (name : String) (quantity : ℕ) (d e : Demand)
    → compare_scalar node name quantity d ≡ e
    → Adds none quantity d e
unfolding compare_scalar
compare_scalar-Adds node name quantity d e h = (
  ap gpu_request (sym h) ∙ kept,
  ap (λ x. x.use_mig) (sym h) ∙ kept_mig,
  ap (λ x. x.slices) (sym h) ∙ kept_slices,
)
  where
    kept : gpu_request (compare_scalar node name quantity d) ≡ gpu_request d
    kept = ground arith

    kept_slices : (compare_scalar node name quantity d).slices ≡ d.slices
    kept_slices = ground arith

    kept_mig : (compare_scalar node name quantity d).use_mig ≡ d.use_mig
    kept_mig = ground arith

ask_scalar-Adds :
    (node : NodeInfo) (name : String) (quantity : ℕ) (parts : List String) (d e : Demand)
    → ask_scalar node name quantity parts d ≡ ok e
    → Adds (slice_in (get_elem? parts 1)) quantity d e
unfolding ask_scalar
ask_scalar-Adds node name quantity parts d e h = of_second (get_elem? parts 1) h
  where
    of_head : String → String → Outcome Demand
    of_head part head =
        if str_eq head mig_resource_prefix
        then (slice_from 4 part >>= λ slice. add_slice quantity slice d)
        else ok (compare_scalar node name quantity d)

    branch :
        (part : String) (b : Bool)
        → (if b
            then (slice_from 4 part >>= λ slice. add_slice quantity slice d)
            else ok (compare_scalar node name quantity d))
          ≡ ok e
        → Adds (if b then got (slice_from 4 part) else none) quantity d e
    branch part true h =
        let (slice, s, g) = >>=-ok (slice_from 4 part) (λ slice. add_slice quantity slice d) e h in
        subst (λ o. Adds (got o) quantity d e) (sym s) (add_slice-Adds quantity slice d e g)
    branch part false h =
        compare_scalar-Adds node name quantity d e
          (ok_injective (compare_scalar node name quantity d) e h)

    of_second :
        (o : Option String)
        → (second o >>= λ part. slice_to 3 part >>= of_head part) ≡ ok e
        → Adds (slice_in o) quantity d e
    of_second none h = absurd (ne h)
      where
        ne : panic ≡ ok e → ⊥
        ne h = cc
    of_second (some part) h =
        let (head, q, g) = >>=-ok (slice_to 3 part) (of_head part) e h in
        subst (λ o. Adds (after_mig (got o) (got (slice_from 4 part))) quantity d e) (sym q)
          (branch part (str_eq head mig_resource_prefix) g)

scalar_step-Adds :
    (ignored : Ignored) (node : NodeInfo) (p : String × ℕ) (d e : Demand)
    → scalar_step ignored node p d ≡ ok e
    → Adds (slice_of ignored p) p.1 d e
unfolding scalar_step
scalar_step-Adds ignored node (name, quantity) d e h =
    by_test (quantity == 0) (skips ignored name (split_on 47 name)) h
  where
    by_test :
        (b c : Bool)
        → (if b
            then ok d
            else if c
            then ok d
            else ask_scalar node name quantity (split_on 47 name) d)
          ≡ ok e
        → Adds (if b || c then none else slice_in (get_elem? (split_on 47 name) 1)) quantity d e
    by_test true c h =
        let eq = ok_injective d e h in
        (ap gpu_request (sym eq), ap (λ x. x.use_mig) (sym eq), ap (λ x. x.slices) (sym eq))
    by_test false true h =
        let eq = ok_injective d e h in
        (ap gpu_request (sym eq), ap (λ x. x.use_mig) (sym eq), ap (λ x. x.slices) (sym eq))
    by_test false false h = ask_scalar-Adds node name quantity (split_on 47 name) d e h

sizes_from-onto :
    (sizes : ℤ × ℤ) (o : Option String) (slices : List String)
    → sizes_from sizes (onto o slices) ≡ sizes_from (with_slice sizes o) slices
sizes_from-onto sizes none slices = refl
sizes_from-onto sizes (some slice) slices = refl

any_slice :
    (o : Option String) (slices : List String) (b : Bool)
    → (not (is_nil slices) || (is_slice o || b)) ≡ (not (is_nil (onto o slices)) || b)
any_slice none slices b = refl
any_slice (some slice) [] b = refl
any_slice (some slice) (s ∷ slices) b = refl

for_range-Adds :
    (ignored : Ignored) (node : NodeInfo) (i : ℕ) (scalars : Map String ℕ) (d e : Demand)
    → for_range (λ _. scalar_step ignored node) i scalars d ≡ ok e
    → (gpu_request e ≡ sizes_from (gpu_request d) (asked ignored scalars))
      × (e.use_mig ≡ (not (is_nil (asked ignored scalars)) || d.use_mig))
      × (e.slices ≡ noted_all ignored scalars d.slices)
for_range-Adds ignored node i [] d e h =
    let eq = ok_injective d e (sym (for_range-nil _ i d) ∙ h) in
    (ap gpu_request (sym eq), ap (λ x. x.use_mig) (sym eq), ap (λ x. x.slices) (sym eq))
for_range-Adds ignored node i (p ∷ rest) d e h =
    let (f, a, b) =
      >>=-ok (scalar_step ignored node p d)
        (λ f. for_range (λ _. scalar_step ignored node) (i + 1) rest f) e
        (sym (for_range-cons (λ _. scalar_step ignored node) i p rest d) ∙ h) in
    let one = scalar_step-Adds ignored node p d f a in
    let more = for_range-Adds ignored node (i + 1) rest f e b in
    let o = slice_of ignored p in
    (
      more.0
          ∙ ap (λ x. sizes_from x (asked ignored rest)) one.0
          ∙ sym (sizes_from-onto (gpu_request d) o (asked ignored rest)),
      more.1
          ∙ ap (λ x. not (is_nil (asked ignored rest)) || x) one.1
          ∙ any_slice o (asked ignored rest) d.use_mig,
      more.2 ∙ ap (noted_all ignored rest) one.2,
    )

-- When the loop returns, `gpuRequest` has grown by the sizes of the slices that are asked for, and
-- `useMig` is true where it was so or there is such a slice, and `gpuRequestMap` has noted them all.
pub scalar_loop-asked :
    (ignored : Ignored) (node : NodeInfo) (scalars : Map String ℕ) (d e : Demand)
    → scalar_loop ignored node scalars d ≡ ok e
    → (gpu_request e ≡ sizes_from (gpu_request d) (asked ignored scalars))
      × (e.use_mig ≡ (not (is_nil (asked ignored scalars)) || d.use_mig))
      × (e.slices ≡ noted_all ignored scalars d.slices)
unfolding scalar_loop
scalar_loop-asked ignored node scalars d e h = for_range-Adds ignored node 0 scalars d e h
