-- ===== src/Scheduler/Fit/Faults.antt =====
-- Where `fitsRequest` panics.
use kube_comp_mig.Prelude.{
  ℕ, zero, suc, ◌+◌, ◌<◌, ◌≡◌, refl, sym, ap, ◌∙◌, subst, ◌≢◌, inl, inr, Bool, true, false, String,
  none, [], ◌∷◌, arith, All, Any, ◌==◌, if◌then◌else◌,
}
use Prim.Native.String.{◌++◌ as ◌<>◌}
use kube_comp_mig.Prelude.Maps.{Map, string_eq, lookup}
use kube_comp_mig.Prelude.Outcomes.{
  ok, panic, >>=-ok, ok_injective, ◌>>=◌, for_range, for_range-cons, for_range-nil,
}
use kube_comp_mig.Prelude.Text.{codes, split_on, split_on-whole}
use kube_comp_mig.Scheduler.Slices.{extract_cpu_and_memory, extract_codes}
use kube_comp_mig.Scheduler.Demand.{
  Resource, NodeInfo, Ignored, Demand, skips, ask_scalar, scalar_step, scalar_loop, too_many_pods,
}
use kube_comp_mig.Scheduler.Gpus.{gpu_id, max_label_suffix, gpu_step, gpu_loop, rounds}
use kube_comp_mig.Scheduler.Fit.{
  Verdict, no_gpus, total_gpu, check_gpus, requests_nothing, first_demand, conclude, fits_request,
}
use kube_comp_mig.Scheduler.Fit.Room.{requests_nothing-Nothing}

apart : {b : Bool} → b ≡ true → b ≡ false → ⊥
apart h k = cc

unlabelled_step :
    (labels : Map String String) (d : Demand) (i : ℕ)
    → lookup (gpu_id i <> max_label_suffix) labels ≡ none
    → gpu_step labels d i ≡ panic
unfolding gpu_step extract_cpu_and_memory extract_codes
unlabelled_step labels d i h = rw (h) refl

panicking_loop :
    (labels : Map String String) (d : Demand) (n : ℕ)
    → gpu_step labels d 0 ≡ panic
    → 0 < n
    → gpu_loop (gpu_step labels d) n 0 false ≡ panic
unfolding gpu_loop
panicking_loop labels d zero h k = absurd (omega arith)
panicking_loop labels d (suc n) h k = rw (h) refl

check_gpus-panic :
    (node : NodeInfo) (d : Demand)
    → no_gpus node ≡ false
    → 0 < rounds (total_gpu node.labels)
    → lookup (gpu_id 0 <> max_label_suffix) node.labels ≡ none
    → check_gpus node d ≡ panic
unfolding check_gpus
check_gpus-panic node d g n l =
    let stopped : gpu_loop (gpu_step node.labels d) (rounds (total_gpu node.labels)) 0 false
        ≡ panic =
      panicking_loop node.labels d (rounds (total_gpu node.labels))
        (unlabelled_step node.labels d 0 l) n in
    rw (g, stopped) refl

-- What requests slices requests something.
pub asks_something :
    (ignored : Ignored) (request : Resource) (node : NodeInfo) (d : Demand)
    → scalar_loop ignored node request.scalar_resources (first_demand request node) ≡ ok d
    → d.use_mig ≡ true
    → requests_nothing request ≡ false
unfolding scalar_loop
asks_something ignored request node d h u = by_request (requests_nothing request) refl
  where
    by_request : (b : Bool) → requests_nothing request ≡ b → b ≡ false
    by_request false e = refl
    by_request true e =
        let nothing = requests_nothing-Nothing request e in
        let same : first_demand request node ≡ d = ok_injective (first_demand request node) d (
          sym (for_range-nil (λ _. scalar_step ignored node) 0 (first_demand request node))
          ∙ sym (ap (λ xs. scalar_loop ignored node xs (first_demand request node)) nothing.3)
          ∙ h) in
        absurd (apart (ap (λ x. x.use_mig) same ∙ u) refl)

-- When a pod requests slices and a node has GPUs, but has no label for the largest free slice of its
-- first GPU, `fitsRequest` panics.
pub unlabelled_gpu_panics :
    (ignored : Ignored) (request : Resource) (node : NodeInfo) (d : Demand)
    → scalar_loop ignored node request.scalar_resources (first_demand request node) ≡ ok d
    → d.use_mig ≡ true
    → no_gpus node ≡ false
    → 0 < rounds (total_gpu node.labels)
    → lookup (gpu_id 0 <> max_label_suffix) node.labels ≡ none
    → fits_request ignored request node ≡ panic
unfolding fits_request
unlabelled_gpu_panics ignored request node d h u g n l =
    rw (asks_something ignored request node d h u, h, u) (check_gpus-panic node d g n l)

-- The resource is requested, it is not left out, and its name has no slash.
abbrev pub Slashless : Ignored → String × ℕ → Type 0
Slashless ignored (name, quantity) =
    (0 < quantity)
    × (skips ignored name (split_on 47 name) ≡ false)
    × All (λ c. (c == 47) ≡ false) (codes name)

missing_slash_step :
    (ignored : Ignored) (node : NodeInfo) (scalar : String × ℕ) (d : Demand)
    → Slashless ignored scalar
    → scalar_step ignored node scalar d ≡ panic
unfolding scalar_step ask_scalar
missing_slash_step ignored node (name, quantity) d (q, s, c) =
    let nonzero : (quantity == 0) ≡ false = ground arith in
    rw (nonzero, s, split_on-whole 47 name c) refl

missing_slash_loop :
    (ignored : Ignored) (node : NodeInfo) (i : ℕ) (scalars : Map String ℕ) (d e : Demand)
    → Any (Slashless ignored) scalars
    → for_range (λ _. scalar_step ignored node) i scalars d ≢ ok e
missing_slash_loop ignored node i [] d e a h = absurd a
missing_slash_loop ignored node i (x ∷ xs) d e a h =
    let (f, p, q) =
      >>=-ok (scalar_step ignored node x d)
        (λ f. for_range (λ _. scalar_step ignored node) (i + 1) xs f) e
        (sym (for_range-cons (λ _. scalar_step ignored node) i x xs d) ∙ h) in
    elim a [
      | inl s ↦ ne f (sym (missing_slash_step ignored node x d s) ∙ p)
      | inr later ↦ missing_slash_loop ignored node (i + 1) xs f e later q
    ]
  where
    ne : (f : Demand) → panic ≡ ok f → ⊥
    ne f h = cc

-- When a pod requests a scalar resource whose name has no slash, such as huge pages, and that is not left
-- out, `fitsRequest` never returns a list, whatever the order in which it meets the resources.
pub missing_slash_never_fits :
    (ignored : Ignored) (request : Resource) (node : NodeInfo) (v : Verdict)
    → Any (Slashless ignored) request.scalar_resources
    → fits_request ignored request node ≢ ok v
unfolding fits_request scalar_loop
missing_slash_never_fits ignored request node v a h = by_request (requests_nothing request) refl h
  where
    nil : Any (Slashless ignored) [] → ⊥
    nil a = a

    by_request :
        (b : Bool)
        → requests_nothing request ≡ b
        → (if b
            then ok (record { insufficient = too_many_pods node; written = none })
            else (scalar_loop ignored node request.scalar_resources (first_demand request node)
                >>= conclude node))
          ≡ ok v
        → ⊥
    by_request true e h =
        nil (subst (Any (Slashless ignored)) ((requests_nothing-Nothing request e).3) a)
    by_request false e h =
        let (d, p, q) =
          >>=-ok (scalar_loop ignored node request.scalar_resources (first_demand request node))
            (conclude node) v h in
        missing_slash_loop ignored node 0 request.scalar_resources (first_demand request node) d a p
