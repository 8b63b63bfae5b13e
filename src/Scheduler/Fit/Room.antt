-- ===== src/Scheduler/Fit/Room.antt =====
-- When `fitsRequest` returns the empty list.
use kube_comp_mig.Prelude.{
  ℕ, ◌+◌, ◌≤◌, ◌≡◌, ◌≢◌, refl, sym, ap, ◌∙◌, subst, ◌↔◌, inl, Bool, true, false, not, ◌||◌, String,
  none, List, [], ◌∷◌, arith, All, if◌then◌else◌,
}
use kube_comp_mig.Prelude.Maps.{Map, string_eq}
use kube_comp_mig.Prelude.Outcomes.{ok, >>=-ok, ok_injective, ◌>>=◌}
use kube_comp_mig.Scheduler.Demand.{
  Resource, NodeInfo, Ignored, Demand, is_nil, too_many_pods, basics, scalar_loop,
}
use kube_comp_mig.Scheduler.Demand.Covered.{
  BasicsCovered, ScalarCovered, append-nil_both, basics-nil, too_many_pods-nil,
}
use kube_comp_mig.Scheduler.Demand.Missing.{scalar_loop-empty}
use kube_comp_mig.Scheduler.Demand.Asked.{asked, sizes_from}
use kube_comp_mig.Scheduler.Demand.Summed.{scalar_loop-asked}
use kube_comp_mig.Prelude.Integers.{pos}
use kube_comp_mig.Scheduler.Fit.{
  Verdict, check_gpus, requests_nothing, first_demand, conclude, fits_request,
}
use kube_comp_mig.Scheduler.Fit.GpuRoom.{GpuRoom, apart, check_gpus-empty}

-- The node has room for one more pod, for the CPU, the memory and the storage, and for every scalar
-- resource that is not a slice. If there are slices among the resources, one GPU has a label for its
-- largest slice with at least the sums of their sizes.
abbrev pub Room : Ignored → Resource → NodeInfo → Type 0
Room ignored request node =
    let slices = asked ignored request.scalar_resources in
    (node.pods + 1 ≤ node.allocatable.allowed_pod_number)
    × BasicsCovered request node
    × All (ScalarCovered ignored node) request.scalar_resources
    × (slices ≢ [] → GpuRoom node (sizes_from (pos 0, pos 0) slices))

-- Where the pod requests slices, the label of one GPU must be large enough.
conclude-empty :
    (node : NodeInfo) (d : Demand) (v : Verdict)
    → conclude node d ≡ ok v
    → (v.insufficient ≡ [])
      ↔ ((d.insufficient ≡ []) × (d.use_mig ≡ true → GpuRoom node (d.cpu, d.memory)))
conclude-empty node d v h = by_mig d.use_mig refl h
  where
    by_mig :
        (b : Bool)
        → d.use_mig ≡ b
        → (if b
            then check_gpus node d
            else ok (record { insufficient = d.insufficient; written = none }))
          ≡ ok v
        → (v.insufficient ≡ [])
          ↔ ((d.insufficient ≡ []) × (d.use_mig ≡ true → GpuRoom node (d.cpu, d.memory)))
    by_mig true e h =
        let f = check_gpus-empty node d v h in
        (λ k. ((f.0 k).0, λ _. (f.0 k).1), λ k. f.1 (k.0, k.1 e))
    by_mig false e h =
        let same =
          ap (λ x. x.insufficient)
            (ok_injective (record { insufficient = d.insufficient; written = none }) v h) in
        (λ k. (same ∙ k, λ t. absurd (apart t e)), λ k. sym same ∙ k.0)

first_demand-empty :
    (request : Resource) (node : NodeInfo)
    → ((first_demand request node).insufficient ≡ [])
      ↔ ((node.pods + 1 ≤ node.allocatable.allowed_pod_number) × BasicsCovered request node)
first_demand-empty request node =
    append-nil_both (too_many_pods node) (basics request node) (too_many_pods-nil node)
      (basics-nil request node)

abbrev pub Nothing : Resource → Type 0
Nothing request =
    (request.milli_cpu ≡ 0)
    × (request.memory ≡ 0)
    × (request.ephemeral_storage ≡ 0)
    × (request.scalar_resources ≡ [])

pub requests_nothing-Nothing :
    (request : Resource) → requests_nothing request ≡ true → Nothing request
unfolding requests_nothing
requests_nothing-Nothing request h =
    (ground arith, ground arith, ground arith, nil request.scalar_resources (ground arith))
  where
    nil : (xs : Map String ℕ) → is_nil xs ≡ true → xs ≡ []
    nil [] h = refl
    nil (x ∷ xs) h = absurd (apart h refl)

Nothing-Room :
    (ignored : Ignored) (request : Resource) (node : NodeInfo)
    → Nothing request
    → node.pods + 1 ≤ node.allocatable.allowed_pod_number
    → Room ignored request node
Nothing-Room ignored request node (c, m, e, s) p = (
  p,
  (inl c, (inl m, inl e)),
  subst (All (ScalarCovered ignored node)) (sym s) tt,
  λ ne. absurd (ne (ap (asked ignored) s)),
)

-- What the loop over the scalar resources hands to the loop over the GPUs.
handed_over :
    (ignored : Ignored) (request : Resource) (node : NodeInfo) (d : Demand)
    → scalar_loop ignored node request.scalar_resources (first_demand request node) ≡ ok d
    → (d.use_mig ≡ true → GpuRoom node (d.cpu, d.memory)) ↔ (
        asked ignored request.scalar_resources ≢ []
        → GpuRoom node (sizes_from (pos 0, pos 0) (asked ignored request.scalar_resources)))
handed_over ignored request node d h =
    let (sizes, mig, _) =
      scalar_loop-asked ignored node request.scalar_resources (first_demand request node) d h in
    let f = some_slice (asked ignored request.scalar_resources) d.use_mig mig in
    (
      λ r ne. subst (GpuRoom node) sizes (r (f.1 ne)),
      λ r t. subst (GpuRoom node) (sym sizes) (r (f.0 t)),
    )
  where
    some_slice :
        (slices : List String) (b : Bool)
        → b ≡ (not (is_nil slices) || false)
        → (b ≡ true) ↔ (slices ≢ [])
    some_slice [] b e = (λ t. absurd (apart t e), λ ne. absurd (ne refl))
    some_slice (x ∷ xs) b e = (λ t c. cons_ne c, λ ne. e)
      where
        cons_ne : x ∷ xs ≡ [] → ⊥
        cons_ne c = cc

-- When `fitsRequest` returns, its list is empty exactly where the node has room for the pod: for one more
-- pod; for its CPU, memory and storage; for each scalar resource that is not zero, not ignored and not the
-- name of a slice; and, where it requests slices, a GPU whose label for its largest slice is there and
-- names at least the int64 sums of the compute slices and of the memory of the slices that it requests,
-- each resource counted once, however many of it are requested, and an unreadable name not at all.
pub fits_request-Room :
    (ignored : Ignored) (request : Resource) (node : NodeInfo) (v : Verdict)
    → fits_request ignored request node ≡ ok v
    → (v.insufficient ≡ []) ↔ Room ignored request node
unfolding fits_request
fits_request-Room ignored request node v h = by_request (requests_nothing request) refl h
  where
    by_request :
        (b : Bool)
        → requests_nothing request ≡ b
        → (if b
            then ok (record { insufficient = too_many_pods node; written = none })
            else (scalar_loop ignored node request.scalar_resources (first_demand request node)
                >>= conclude node))
          ≡ ok v
        → (v.insufficient ≡ []) ↔ Room ignored request node
    by_request true e h =
        let same =
          ap (λ x. x.insufficient)
            (ok_injective (record { insufficient = too_many_pods node; written = none }) v h) in
        (
          λ k.
              Nothing-Room ignored request node (requests_nothing-Nothing request e)
                ((too_many_pods-nil node).0 (same ∙ k)),
          λ r. sym same ∙ (too_many_pods-nil node).1 r.0,
        )
    by_request false e h =
        let (d, p, q) =
          >>=-ok (scalar_loop ignored node request.scalar_resources (first_demand request node))
            (conclude node) v h in
        let last = conclude-empty node d v q in
        let loop =
          scalar_loop-empty ignored node request.scalar_resources (first_demand request node) d p in
        let first = first_demand-empty request node in
        let over = handed_over ignored request node d p in
        (
          λ k.
              let a = last.0 k in
              let b = loop.0 a.0 in let c = first.0 b.0 in (c.0, c.1, b.1, over.0 a.1),
          λ r. last.1 (loop.1 (first.1 (r.0, r.1), r.2), over.1 r.3),
        )
