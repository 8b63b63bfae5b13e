-- ===== src/Scheduler/Phases.antt =====
-- PreFilter, Filter and the hints of the plugin
-- (noderesourcesfit/pkg/plugins/noderesources/fit.go). What the packages of Kubernetes compute from a
-- pod, its resources, is an argument.
pub mod Hints
use kube_comp_mig.Prelude.{
  ℕ, zero, suc, String, Bool, true, false, not, ◌&&◌, ◌||◌, Option, none, some, List, [], ◌∷◌, map,
  str_eq, ltb, ◌==◌, if◌then◌else◌,
}
use kube_comp_mig.Prelude.Maps.{Map, string_eq, or_default, lookup}
use kube_comp_mig.Prelude.Outcomes.{Outcome, ok, err, panic, running, ◌>>=◌}
use kube_comp_mig.Scheduler.Demand.{Resource, NodeInfo, InsufficientResource, Ignored, is_nil}
use kube_comp_mig.Scheduler.Fit.{FilterState, Verdict, fits_request}
use kube_comp_mig.Scheduler.Cycle.{
  CycleState, pre_filter_state, pre_filter_state_key, get_pre_filter_state, record_state,
}

-- A pod as the plugin reads it; of an init container only the restart policy is read.
pub record Pod : Type 0 where
  pub uid : String
  pub name : String
  pub namespace : String
  pub node_name : String
  pub labels : Map String String
  pub init_containers : List (Option String)

-- `framework.Status`; nil is a success.
pub data Status : Type 0 where
  success : List String → Status
  unschedulable : List String → Status
  unresolvable : String → Status
  error : String → Status

abbrev is_always : Option String → Bool
is_always none = false
is_always (some policy) = str_eq policy "Always"

unfoldable pub has_restartable_init_container : List (Option String) → Bool
has_restartable_init_container [] = false
has_restartable_init_container (c ∷ cs) = is_always c || has_restartable_init_container cs

-- `QueueingHint`
pub data QueueingHint : Type 0 where
  queue queue_skip : QueueingHint

abbrev pub status_of : List InsufficientResource → Status
status_of insufficient =
    if is_nil insufficient then success [] else unschedulable (map (λ r. r.reason) insufficient)

abbrev pub hint : Bool → QueueingHint
hint true = queue
hint false = queue_skip

module _ (cycle : CycleState) where
  unfoldable pub filter_with :
      Ignored → NodeInfo → cycle.State → Option Resource → Outcome (Status × cycle.State)
  unfolding record_state
  filter_with ignored node s none = ok (error "error reading the state of PreFilter", s)
  filter_with ignored node s (some request) = fits_request ignored request node >>= λ v.
      record_state cycle v.written s >>= λ t. ok (status_of v.insufficient, t)

  -- `Filter`
  unfoldable pub filter : Ignored → NodeInfo → cycle.State → Outcome (Status × cycle.State)
  unfolding filter_with
  filter ignored node s = filter_with ignored node s (get_pre_filter_state cycle s)

module _ (cycle : CycleState) (compute_pod_resource_request : Pod → Resource) where
  unfoldable pub pre_filter : Bool → Pod → cycle.State → Outcome (Status × cycle.State)
  unfolding has_restartable_init_container
  pre_filter enable_sidecar_containers pod s =
      if not (str_eq (or_default "" (lookup "preprocess" pod.labels)) "done")
      then ok (unschedulable ("preprocess not done yet" ∷ []), s)
      else if not enable_sidecar_containers && has_restartable_init_container pod.init_containers
      then ok (
        unresolvable
            "Pod has a restartable init container and the SidecarContainers feature is disabled",
        s,
      )
      else (cycle.write pre_filter_state_key (pre_filter_state (compute_pod_resource_request pod)) s
          >>= λ t. ok (success [], t))

  module _ (is_extended_resource_name : String → Bool) where
    -- `Fits`, which gives `fitsRequest` a nil state and nothing to leave out.
    unfoldable pub fits : Pod → NodeInfo → Outcome (List InsufficientResource)
    unfolding record_state
    fits pod node =
        fits_request
          (record {
            is_extended_resource_name = is_extended_resource_name;
            resources = [];
            groups = [];
          })
          (compute_pod_resource_request pod) node
        >>= λ v. record_state cycle v.written cycle.nil_state >>= λ t. ok v.insufficient

    -- `isFit`; the node is given as `SetNode` reads it.
    unfoldable pub is_fit : Pod → Option NodeInfo → Outcome Bool
    unfolding fits
    is_fit pod none = ok false
    is_fit pod (some node) = fits pod node >>= λ missing. ok (is_nil missing)

    -- `isSchedulableAfterNodeChange`; the outer `none` is an object that is no node.
    unfoldable pub is_schedulable_after_node_change :
        Pod → Option (Option NodeInfo) → Outcome QueueingHint
    unfolding is_fit
    is_schedulable_after_node_change pod none = ok queue
    is_schedulable_after_node_change pod (some node) = is_fit pod node >>= λ b. ok (hint b)

-- The three quantities and the others of a resource that shrinks: one round of the loop of
-- `isResourceScaleDown`.
unfoldable pub frees : (String → Bool) → Resource → Resource → String × ℕ → Bool
frees is_scalar_resource_name original modified (name, value) =
    not (value == 0)
    && (if str_eq name "cpu"
        then ltb modified.milli_cpu original.milli_cpu
        else if str_eq name "memory"
        then ltb modified.memory original.memory
        else if str_eq name "ephemeral-storage"
        then ltb modified.ephemeral_storage original.ephemeral_storage
        else (is_scalar_resource_name name
            && ltb (or_default 0 (lookup name modified.scalar_resources))
                (or_default 0 (lookup name original.scalar_resources))))

unfoldable pub any_frees : (String → Bool) → Resource → Resource → Map String ℕ → Bool
unfolding frees
any_frees is_scalar_resource_name original modified [] = false
any_frees is_scalar_resource_name original modified (r ∷ rest) =
    frees is_scalar_resource_name original modified r
    || any_frees is_scalar_resource_name original modified rest

module _ (is_scalar_resource_name : String → Bool) (pod_requests : Pod → Map String ℕ)
    (max_resource : Map String ℕ → Resource) where
  unfoldable pub is_resource_scale_down : Pod → Pod → Pod → Bool
  unfolding any_frees
  is_resource_scale_down target original modified =
      if not (str_eq modified.uid target.uid) && str_eq modified.node_name ""
      then false
      else any_frees is_scalar_resource_name (max_resource (pod_requests original))
          (max_resource (pod_requests modified)) (pod_requests target)

  -- `isSchedulableAfterPodChange`, with both pods as `schedutil.As` gives them: `none` for the whole is
  -- its error, `none` for the second a deletion.
  unfoldable pub is_schedulable_after_pod_change :
      Bool → Pod → Option (Pod × Option Pod) → QueueingHint
  unfolding is_resource_scale_down
  is_schedulable_after_pod_change vertical_scaling pod none = queue
  is_schedulable_after_pod_change vertical_scaling pod (some (original, none)) =
      if str_eq original.node_name "" then queue_skip else queue
  is_schedulable_after_pod_change vertical_scaling pod (some (original, some modified)) =
      if not vertical_scaling
      then queue_skip
      else if not (is_resource_scale_down pod original modified)
      then queue_skip
      else queue
