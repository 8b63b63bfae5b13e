-- ===== src/Scheduler/Phases/Hints.antt =====
-- The hint for a changed node, for a pod that requests slices.
use kube_comp_mig.Prelude.{◌≡◌, refl, sym, ap, ◌∙◌, ◌≢◌, Bool, true, false, String, some, List, []}
use kube_comp_mig.Prelude.Outcomes.{ok, panic, >>=-ok, ok_injective, ◌>>=◌}
use kube_comp_mig.Scheduler.Demand.{
  Resource, NodeInfo, Ignored, Demand, InsufficientResource, is_nil, scalar_loop,
}
use kube_comp_mig.Scheduler.Gpus.{gpu_step, gpu_loop, rounds}
use kube_comp_mig.Scheduler.Fit.{
  Verdict, no_gpus, total_gpu, with_gpus, check_gpus, first_demand, fits_request,
}
use kube_comp_mig.Scheduler.Fit.Faults.{asks_something}
use kube_comp_mig.Scheduler.Cycle.{CycleState, record_state}
use kube_comp_mig.Scheduler.Phases.{
  Pod, QueueingHint, fits, is_fit, hint, is_schedulable_after_node_change,
}

-- A pod that requests slices, and a node with GPUs.
abbrev pub NeedsGpu : Ignored → Resource → NodeInfo → Demand → Type 0
NeedsGpu ignored request node d =
    (scalar_loop ignored node request.scalar_resources (first_demand request node) ≡ ok d)
    × (d.use_mig ≡ true)
    × (no_gpus node ≡ false)

-- What `fitsRequest` returns and writes comes from the loop over the GPUs.
pub fits_request-gpus :
    (ignored : Ignored) (request : Resource) (node : NodeInfo) (d : Demand) (v : Verdict)
    → NeedsGpu ignored request node d
    → fits_request ignored request node ≡ ok v
    → (r : Bool × Bool) × (gpu_loop
          (gpu_step node.labels d)
          (rounds (total_gpu node.labels))
          0
          false
        ≡ ok r)
      × (v ≡ with_gpus node d r)
unfolding fits_request check_gpus
fits_request-gpus ignored request node d v (h, u, g) k =
    let (r, p, q) =
      >>=-ok (gpu_loop (gpu_step node.labels d) (rounds (total_gpu node.labels)) 0 false)
        (λ r. ok (with_gpus node d r)) v
        (sym (rw (asks_something ignored request node d h u, h, u, g) refl) ∙ k) in
    (r, p, sym (ok_injective (with_gpus node d r) v q))

module _ (cycle : CycleState) (compute_pod_resource_request : Pod → Resource)
    (is_extended_resource_name : String → Bool) where
  -- `Fits` leaves nothing out.
  abbrev pub nothing_ignored : Ignored
  nothing_ignored = record {
    is_extended_resource_name = is_extended_resource_name;
    resources = [];
    groups = [];
  }

  fits-ne-ok :
      (pod : Pod) (node : NodeInfo) (d : Demand) (b : List InsufficientResource)
      → NeedsGpu nothing_ignored (compute_pod_resource_request pod) node d
      → fits cycle compute_pod_resource_request is_extended_resource_name pod node ≢ ok b
  unfolding fits record_state
  fits-ne-ok pod node d b n h =
      let (v, p, q) =
        >>=-ok (fits_request nothing_ignored (compute_pod_resource_request pod) node)
          (λ v. record_state cycle v.written cycle.nil_state >>= λ t. ok v.insufficient) b h in
      let (r, l, e) =
        fits_request-gpus nothing_ignored (compute_pod_resource_request pod) node d v n p in
      written v r e q
    where
      ne : panic ≡ ok b → ⊥
      ne h = cc

      written :
          (v : Verdict) (r : Bool × Bool)
          → v ≡ with_gpus node d r
          → (record_state cycle v.written cycle.nil_state >>= λ t. ok v.insufficient) ≡ ok b
          → ⊥
      written v r e q =
          let stopped : record_state cycle v.written cycle.nil_state ≡ panic =
            ap (λ w. record_state cycle w.written cycle.nil_state) e ∙ cycle.write-nil _ _ in
          ne (sym (ap (λ o. o >>= λ t. ok v.insufficient) stopped) ∙ q)

  -- For a pod that requests slices, and a node with GPUs, the hint for the changed node is never computed:
  -- `Fits` gives `fitsRequest` no state to write to.
  pub hint-ne-ok :
      (pod : Pod) (node : NodeInfo) (d : Demand) (q : QueueingHint)
      → NeedsGpu nothing_ignored (compute_pod_resource_request pod) node d
      → is_schedulable_after_node_change cycle compute_pod_resource_request
          is_extended_resource_name pod
          (some (some node))
        ≢ ok q
  unfolding is_schedulable_after_node_change is_fit
  hint-ne-ok pod node d q n h =
      let (b, p, _) =
        >>=-ok (is_fit cycle compute_pod_resource_request is_extended_resource_name pod (some node))
          (λ b. ok (hint b)) q h in
      let (missing, k, _) =
        >>=-ok (fits cycle compute_pod_resource_request is_extended_resource_name pod node)
          (λ missing. ok (is_nil missing)) b p in
      fits-ne-ok pod node d missing n k
