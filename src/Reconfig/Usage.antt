-- ===== src/Reconfig/Usage.antt =====
-- The slices that the pods of a node request: `extractUsedGPU` of
-- reconfig/kubecomp-mig/internal/controllers/node_controller.go, and the loop of `Reconcile` that adds
-- those of the target pod. A request is given by its `AsInt64`; the sums fit an int64.
pub mod Demand
mod Samples
use kube_comp_mig.Prelude.{
  ℕ, ◌+◌, String, Bool, true, false, ◌||◌, Option, none, some, List, [], ◌∷◌, ◌++◌, if◌then◌else◌,
}
use kube_comp_mig.Prelude.Maps.{Map, string_eq, or_default, lookup, insert}
use kube_comp_mig.Prelude.Text.{codes, strip_prefix}

-- `corev1.PodPhase`
pub data Phase : Type 0 where
  pending running_phase succeeded failed unknown : Phase

-- `corev1.Pod`, with the parts that are read here: a container is its map of requests.
pub record PodSpec : Type 0 where
  pub name : String
  pub namespace : String
  pub phase : Phase
  pub containers : List (Map String ℕ)

pub is_some {ℓ} : {A : Type ℓ} → Option A → Bool
is_some none = false
is_some (some a) = true

-- `strings.HasPrefix(sliceName, "nvidia.com/mig")`
pub is_mig : String → Bool
unfolding is_some
is_mig name = is_some (strip_prefix (codes "nvidia.com/mig") (codes name))

-- `migSliceCnts[sliceName] += num`
pub add_request : String → ℕ → Map String ℕ → Map String ℕ
add_request name num counts =
    if is_mig name then insert name (or_default 0 (lookup name counts) + num) counts else counts

pub add_container : Map String ℕ → Map String ℕ → Map String ℕ
unfolding add_request
add_container [] counts = counts
add_container ((name, num) ∷ rest) counts = add_container rest (add_request name num counts)

pub add_containers : List (Map String ℕ) → Map String ℕ → Map String ℕ
unfolding add_container
add_containers [] counts = counts
add_containers (c ∷ cs) counts = add_containers cs (add_container c counts)

-- Whether a container of the pod requests a slice, which sets `addToGpuPods`.
pub container_asks : Map String ℕ → Bool
container_asks [] = false
container_asks ((name, num) ∷ rest) = is_mig name || container_asks rest

pub asks_slice : List (Map String ℕ) → Bool
unfolding container_asks
asks_slice [] = false
asks_slice (c ∷ cs) = container_asks c || asks_slice cs

pub terminated : Phase → Bool
terminated succeeded = true
terminated failed = true
terminated pending = false
terminated running_phase = false
terminated unknown = false

-- The loop over the pods, with `migSliceCnts` and `gpuPods`.
pub add_pods : List PodSpec → Map String ℕ × List PodSpec → Map String ℕ × List PodSpec
unfolding add_containers asks_slice terminated
add_pods [] s = s
add_pods (p ∷ ps) s =
    if terminated p.phase
    then add_pods ps s
    else add_pods ps
        (add_containers p.containers s.0, if asks_slice p.containers then s.1 ++ p ∷ [] else s.1)

pub extract_used_gpu : List PodSpec → Map String ℕ × List PodSpec
unfolding add_pods
extract_used_gpu pods = add_pods pods ([], [])

-- `usedSliceCnts` of `Reconcile`, with the requests of the target pod.
pub requested : List PodSpec → PodSpec → Map String ℕ
unfolding extract_used_gpu add_containers
requested pods target = add_containers target.containers (extract_used_gpu pods).0
