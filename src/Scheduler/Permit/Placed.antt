-- ===== src/Scheduler/Permit/Placed.antt =====
-- What Permit decides after Filter.
use kube_comp_mig.Prelude.{
  ℕ, ◌<◌, Any, ◌≡◌, refl, sym, ap, ◌∙◌, subst, ◌↔◌, ◌⊎◌, inl, inr, Bool, true, false, String,
  Option, none, some, List, [], ◌∷◌, str_eq, eq_iff, arith, if◌then◌else◌,
}
use Prim.Native.String.{◌++◌ as ◌<>◌}
use kube_comp_mig.Prelude.Maps.{Map, string_eq, lookup}
use kube_comp_mig.Prelude.Outcomes.{Outcome, ok, >>=-ok, ok_injective, ◌>>=◌}
use kube_comp_mig.Scheduler.Demand.{Resource, NodeInfo, Ignored, Demand, scalar_loop}
use kube_comp_mig.Scheduler.Gpus.{direct, gpu_step, gpu_loop, rounds}
use kube_comp_mig.Scheduler.Gpus.Found.{Round, gpu_loop-Found}
use kube_comp_mig.Scheduler.Gpus.Takes.{Takes, Free, gpu_step-direct}
use kube_comp_mig.Scheduler.Demand.Numbers.{number_asked}
use kube_comp_mig.Scheduler.Demand.Kinds.{slices-asked}
use kube_comp_mig.Scheduler.Demand.Asked.{asked, sizes_from}
use kube_comp_mig.Scheduler.Demand.Summed.{scalar_loop-asked}
use kube_comp_mig.Prelude.Integers.{pos}
use kube_comp_mig.Scheduler.Fit.GpuRoom.{Round-iff}
use kube_comp_mig.Scheduler.Fit.{FilterState, total_gpu, first_demand, fits_request}
use kube_comp_mig.Scheduler.Cycle.{
  CycleState, filter_state, filter_state_key, get_pre_filter_state, get_filter_state, as_filter,
  record_state,
}
use kube_comp_mig.Scheduler.Phases.{Pod, Status, success, filter, filter_with, status_of}
use kube_comp_mig.Scheduler.Phases.Hints.{NeedsGpu, fits_request-gpus}
use kube_comp_mig.Scheduler.Permit.{
  Api, NodeLabels, nil_labels, labels, Permitted, update_node, label_node, bind_directly,
  permit_with, permit,
}

-- What was written for a node is read for it.
record_state-read :
    (cycle : CycleState) (f : FilterState) (s t : cycle.State)
    → record_state cycle (some f) s ≡ ok t
    → get_filter_state cycle t f.node_name ≡ some f
unfolding record_state get_filter_state
record_state-read cycle f s t h =
    let key = filter_state_key <> f.node_name in
    let same : str_eq key key ≡ true = (eq_iff key key).1 refl in
    ap as_filter (
      cycle.read-write key key (filter_state f) s t h
      ∙ ap (λ b. if b then some (filter_state f) else cycle.read key s) same)

-- A state that Filter leaves tells Permit what the loop over the GPUs found.
filter-read :
    (cycle : CycleState) (ignored : Ignored) (request : Resource) (node : NodeInfo) (d : Demand)
    (s : cycle.State) (status : Status) (t : cycle.State)
    → get_pre_filter_state cycle s ≡ some request
    → NeedsGpu ignored request node d
    → filter cycle ignored node s ≡ ok (status, t)
    → (r : Bool × Bool) × (gpu_loop
          (gpu_step node.labels d)
          (rounds (total_gpu node.labels))
          0
          false
        ≡ ok r)
      × (get_filter_state cycle t node.name
          ≡ some (record { node_name = node.name; to_reconfig = r.1 }))
unfolding filter filter_with
filter-read cycle ignored request node d s status t p n h =
    let (v, k, g) =
      >>=-ok (fits_request ignored request node)
        (λ v. record_state cycle v.written s >>= λ t. ok (status_of v.insufficient, t)) (status, t)
        (sym (ap (filter_with cycle ignored node s) p) ∙ h) in
    let (r, l, e) = fits_request-gpus ignored request node d v n k in
    let (t', w, f) =
      >>=-ok (record_state cycle v.written s) (λ t. ok (status_of v.insufficient, t)) (status, t)
        g in
    let same : t' ≡ t = ap (λ x. x.1) (ok_injective (status_of v.insufficient, t') (status, t) f) in
    (
      r,
      l,
      ap (λ x. get_filter_state cycle x node.name) (sym same)
          ∙ record_state-read cycle (record { node_name = node.name; to_reconfig = r.1 }) s t'
              (sym (ap (λ x. record_state cycle x.written s) e) ∙ w),
    )

-- The pod is let through, with nothing written.
abbrev pub LetThrough : Outcome Permitted → Type 0
LetThrough o = (reasons : List String) × (o ≡ ok (record { status = success reasons; writes = [] }))

-- The pod has no label for a node, or the label of this one.
abbrev pub MayBind : Pod → String → Type 0
MayBind pod node_name =
    (lookup "expectedNode" pod.labels ≡ none) ⊎ (lookup "expectedNode" pod.labels ≡ some node_name)

bind-LetThrough :
    (api : Api) (pod : Pod) (node_name : String) (state : FilterState)
    → MayBind pod node_name
    → state.to_reconfig ≡ false
    → LetThrough (permit_with api pod node_name (some state))
unfolding permit_with bind_directly
bind-LetThrough api pod node_name state (inl e) f = rw (f, e) ("success" ∷ [], refl)
bind-LetThrough api pod node_name state (inr e) f =
    let same : str_eq node_name node_name ≡ true = (eq_iff node_name node_name).1 refl in
    rw (f, e, same) ("expected node" ∷ [], refl)

label_node-ne-success :
    (api : Api) (pod : Pod) (node_name : String) (o : Option NodeLabels) (reasons : List String)
    → label_node api pod node_name o ≡ ok (record { status = success reasons; writes = [] })
    → ⊥
unfolding label_node update_node
label_node-ne-success api pod node_name none reasons h = ground arith
label_node-ne-success api pod node_name (some nil_labels) reasons h = cc
label_node-ne-success api pod node_name (some (labels old)) reasons h = ground arith

LetThrough-direct :
    (api : Api) (pod : Pod) (node_name : String) (state : FilterState)
    → LetThrough (permit_with api pod node_name (some state))
    → state.to_reconfig ≡ false
unfolding permit_with
LetThrough-direct api pod node_name state (reasons, h) = by_state state.to_reconfig refl
  where
    by_state : (b : Bool) → state.to_reconfig ≡ b → b ≡ false
    by_state false e = refl
    by_state true e =
        absurd
          (label_node-ne-success api pod node_name api.get_node reasons (sym (rw (e) refl) ∙ h))

-- One kind of the slices that the resources ask for is free on the GPU, as often as they ask for it.
abbrev pub KindFree : Map String String → Ignored → Map String ℕ → ℕ → Type 0
KindFree node_labels ignored scalars k =
    Any (λ slice. Free node_labels k slice (pos (number_asked ignored slice scalars)))
      (asked ignored scalars)

-- When a round ends the loop over the GPUs, by what the resources ask for.
direct_lem :
    (ignored : Ignored) (request : Resource) (node : NodeInfo) (d : Demand)
    → scalar_loop ignored node request.scalar_resources (first_demand request node) ≡ ok d
    → ((slice : String) → number_asked ignored slice request.scalar_resources < 9223372036854775808)
    → (k : ℕ)
    → (gpu_step node.labels d k ≡ ok direct) ↔ (
        Takes node.labels (sizes_from (pos 0, pos 0) (asked ignored request.scalar_resources)) k
        × KindFree node.labels ignored request.scalar_resources k)
direct_lem ignored request node d h small k =
    let scalars = request.scalar_resources in
    let sizes = (scalar_loop-asked ignored node scalars (first_demand request node) d h).0 in
    let step = gpu_step-direct node.labels d k in
    let free =
      slices-asked ignored node scalars (first_demand request node) d (Free node.labels k) h refl
        small in
    (
      λ e. let (a, b) = step.0 e in (subst (λ x. Takes node.labels x k) sizes a, free.0 b),
      λ (a, b). step.1 (subst (λ x. Takes node.labels x k) (sym sizes) a, free.1 b),
    )

-- When a pod requests slices, each less than 2^63 times, a node has GPUs, Filter has returned for them, and
-- the pod is expected on no other node, Permit lets the pod through, and writes nothing, exactly where some
-- GPU of the node has a label for its largest slice with at least the sums of the sizes of the requested
-- slices, each resource counted once, and at least one of the requested kinds of slices, not all of them,
-- free in the requested number, a missing label for it standing for 0.
pub filter-permit :
    (cycle : CycleState) (api : Api) (pod : Pod) (ignored : Ignored) (request : Resource)
    (node : NodeInfo) (d : Demand) (s : cycle.State) (status : Status) (t : cycle.State)
    → get_pre_filter_state cycle s ≡ some request
    → NeedsGpu ignored request node d
    → ((slice : String) → number_asked ignored slice request.scalar_resources < 9223372036854775808)
    → filter cycle ignored node s ≡ ok (status, t)
    → MayBind pod node.name
    → LetThrough (permit cycle api pod node.name t)
      ↔ Round 0 (rounds (total_gpu node.labels)) (λ k.
        Takes node.labels (sizes_from (pos 0, pos 0) (asked ignored request.scalar_resources)) k
        × KindFree node.labels ignored request.scalar_resources k)
unfolding permit
filter-permit cycle api pod ignored request node d s status t p n small h m =
    let (r, l, e) = filter-read cycle ignored request node d s status t p n h in
    let count = rounds (total_gpu node.labels) in
    let f = (gpu_loop-Found (gpu_step node.labels d) count 0 false r l).1 in
    let g = Round-iff 0 count (direct_lem ignored request node d n.0 small) in
    let state : FilterState = record { node_name = node.name; to_reconfig = r.1 } in
    let read = ap (permit_with api pod node.name) e in
    (
      λ x. g.0 (f.0 (LetThrough-direct api pod node.name state (subst LetThrough read x))),
      λ x. subst LetThrough (sym read) (bind-LetThrough api pod node.name state m (f.1 (g.1 x))),
    )
