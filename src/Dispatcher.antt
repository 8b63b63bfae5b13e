-- ===== src/Dispatcher.antt =====
-- The Dispatcher's processor (Dispatcher/processor.go), which decides the resources of a new service.
pub mod Smallest
pub mod Requests
pub mod Worker
pub mod Assigner
mod Samples
use kube_comp_mig.Prelude.{
  ℕ, ◌+◌, String, Bool, Option, none, some, List, [], ◌∷◌, ltb, if◌then◌else◌,
}
use kube_comp_mig.Prelude.Maps.{Map, string_eq, or_default, lookup, insert}
use kube_comp_mig.Prelude.Outcomes.{Outcome, ok, panic}

-- `Request` of Dispatcher/request.go, with the fields that the processor reads.
pub record Request : Type 0 where
  pub model : String
  pub env : Map String String
  pub label : Map String String

-- `ResourceEstimate`
pub record ResourceEstimate : Type 0 where
  pub cpu : ℕ
  pub gpu_slices : Map String ℕ
  pub memory : ℕ

-- `ServiceSpec`
pub record ServiceSpec : Type 0 where
  pub cpu : ℕ
  pub gpu_slices : Map String ℕ
  pub memory : ℕ
  pub env : Map String String
  pub name : String
  pub model : String
  pub label : Map String String

-- `migConfigList`
abbrev pub mig_config_list : List String
mig_config_list =
    "nvidia.com/mig-1g.5gb" ∷ "nvidia.com/mig-2g.10gb" ∷ "nvidia.com/mig-3g.20gb"
    ∷ "nvidia.com/mig-4g.20gb" ∷ "nvidia.com/mig-7g.40gb" ∷ []

-- The first entries of `migConfigMap`.
pub zeros : List String → Map String ℕ
zeros [] = []
zeros (name ∷ names) = (name, 0) ∷ zeros names

-- `migConfigMap[migConfig] += int(Quantity.Value())`, where the node has a capacity of that name. The
-- sums fit an int.
pub add_capacity : String → Option ℕ → Map String ℕ → Map String ℕ
add_capacity name none counts = counts
add_capacity name (some quantity) counts =
    insert name (or_default 0 (lookup name counts) + quantity) counts

pub add_node_slices : List String → Map String ℕ → Map String ℕ → Map String ℕ
unfolding add_capacity
add_node_slices [] capacity counts = counts
add_node_slices (name ∷ names) capacity counts =
    add_node_slices names capacity (add_capacity name (lookup name capacity) counts)

-- The loop over the nodes, each given by its capacity.
pub add_all_nodes : List (Map String ℕ) → Map String ℕ → Map String ℕ
unfolding add_node_slices
add_all_nodes [] counts = counts
add_all_nodes (capacity ∷ nodes) counts =
    add_all_nodes nodes (add_node_slices mig_config_list capacity counts)

-- The last loop, with `smallestSlice` the empty text where no slice is found.
pub find_smallest : Map String ℕ → List String → String
find_smallest counts [] = ""
find_smallest counts (name ∷ names) =
    let later = find_smallest counts names in
    if ltb 0 (or_default 0 (lookup name counts)) then name else later

pub smallest_slice : List (Map String ℕ) → String
unfolding add_all_nodes find_smallest zeros
smallest_slice nodes = find_smallest (add_all_nodes nodes (zeros mig_config_list)) mig_config_list

-- `ResourceEstimate` of the processor, from the capacities of the listed nodes.
pub resource_estimate : List (Map String ℕ) → ResourceEstimate
unfolding smallest_slice
resource_estimate nodes = record {
  cpu = 10000;
  gpu_slices = (smallest_slice nodes, 1) ∷ [];
  memory = 102400;
}

-- `DecideService`: a group without a request panics.
unfoldable pub decide_service : List (Map String ℕ) → List Request → Outcome ServiceSpec
unfolding resource_estimate
decide_service nodes [] = panic
decide_service nodes (r ∷ rest) =
    let e = resource_estimate nodes in
    ok (record {
      cpu = e.cpu;
      gpu_slices = e.gpu_slices;
      memory = e.memory;
      env = r.env;
      name = r.model;
      model = r.model;
      label = r.label;
    })
