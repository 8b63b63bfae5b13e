-- ===== src/Scheduler/Demand.antt =====
-- What a pod requests of a node, but for the GPUs: the first part of `fitsRequest` of
-- noderesourcesfit/pkg/plugins/noderesources/fit.go. Quantities are natural numbers; what is left on a
-- node may be negative.
pub mod Covered
pub mod Missing
pub mod Quantities
pub mod Asked
pub mod Summed
pub mod Numbers
pub mod Kinds
use kube_comp_mig.Prelude.{
  ℕ, zero, suc, ◌+◌, String, Bool, true, false, not, ◌&&◌, ◌||◌, Option, none, some, List, [], ◌∷◌,
  ◌++◌, length, get_elem?, str_eq, ltb, ◌==◌, if◌then◌else◌,
}
use Prim.Native.String.{◌++◌ as ◌<>◌}
use kube_comp_mig.Prelude.Integers.{ℤ, pos, negsuc, minus, gtb, geb, add_int64}
use kube_comp_mig.Prelude.Maps.{Map, string_eq, or_default, lookup, insert}
use kube_comp_mig.Prelude.Outcomes.{Outcome, ok, err, panic, running, ◌>>=◌, for_range}
use kube_comp_mig.Prelude.Parsing.{parse_int, number_of, itoa}
use kube_comp_mig.Prelude.Text.{codes, split_on, slice_from, slice_to}
use kube_comp_mig.Scheduler.Slices.{extract_cpu_and_memory}

abbrev pub mig_resource_prefix : String
mig_resource_prefix = "mig"

-- `framework.Resource`, as far as it is read
pub record Resource : Type 0 where
  pub milli_cpu : ℕ
  pub memory : ℕ
  pub ephemeral_storage : ℕ
  pub allowed_pod_number : ℕ
  pub scalar_resources : Map String ℕ

-- `framework.NodeInfo`, as far as it is read; the pods are given by their number.
pub record NodeInfo : Type 0 where
  pub name : String
  pub labels : Map String String
  pub pods : ℕ
  pub allocatable : Resource
  pub requested : Resource

pub record InsufficientResource : Type 0 where
  pub resource_name : String
  pub reason : String
  pub requested : ℕ
  pub used : ℕ
  pub capacity : ℕ

-- The resources that a profile of the scheduler leaves out, and `v1helper.IsExtendedResourceName`.
pub record Ignored : Type 0 where
  pub is_extended_resource_name : String → Bool
  pub resources : List String
  pub groups : List String

-- `set.Has`
unfoldable pub has : List String → String → Bool
has [] s = false
has (t ∷ ts) s = str_eq t s || has ts s

abbrev pub is_nil {ℓ} : {A : Type ℓ} → List A → Bool
is_nil [] = true
is_nil (x ∷ xs) = false

-- `request > allocatable - requested`
unfoldable pub exceeds : ℕ → ℕ → ℕ → Bool
exceeds request allocatable requested = gtb (pos request) (minus (pos allocatable) requested)

unfoldable pub too_many_pods : NodeInfo → List InsufficientResource
too_many_pods node =
    if ltb node.allocatable.allowed_pod_number (node.pods + 1)
    then record {
      resource_name = "pods";
      reason = "Too many pods";
      requested = 1;
      used = node.pods;
      capacity = node.allocatable.allowed_pod_number;
    }
      ∷ []
    else []

-- One of the three tests on CPU, memory and storage.
unfoldable pub basic : String → String → ℕ → ℕ → ℕ → List InsufficientResource
unfolding exceeds
basic name reason request allocatable requested =
    if ltb 0 request && exceeds request allocatable requested
    then record {
      resource_name = name;
      reason = reason;
      requested = request;
      used = requested;
      capacity = allocatable;
    }
      ∷ []
    else []

unfoldable pub basics : Resource → NodeInfo → List InsufficientResource
unfolding basic
basics request node =
    basic "cpu" "Insufficient cpu" request.milli_cpu node.allocatable.milli_cpu
      node.requested.milli_cpu
    ++ (basic "memory" "Insufficient memory" request.memory node.allocatable.memory
          node.requested.memory
        ++ basic "ephemeral-storage" "Insufficient ephemeral-storage" request.ephemeral_storage
            node.allocatable.ephemeral_storage node.requested.ephemeral_storage)

-- What the loop over the scalar resources keeps: `insufficientResources`, `useMig`, `gpuRequest` and
-- `gpuRequestMap`.
pub record Demand : Type 0 where
  pub insufficient : List InsufficientResource
  pub use_mig : Bool
  pub cpu : ℤ
  pub memory : ℤ
  pub slices : Map String ℤ

unfoldable pub skips : Ignored → String → List String → Bool
unfolding has
skips ignored name parts =
    ignored.is_extended_resource_name name
    && (has ignored.resources name
        || has ignored.groups
            (if is_nil ignored.groups then "" else or_default "" (get_elem? parts 0)))

-- `gpuRequest.CPU += cpu`, `gpuRequest.Memory += memory`, left out where the name has an error
unfoldable pub add_slice_capacity : Outcome (ℤ × ℤ) → Demand → Outcome Demand
add_slice_capacity (ok c) d = ok (record {
  insufficient = d.insufficient;
  use_mig = d.use_mig;
  cpu = add_int64 d.cpu c.0;
  memory = add_int64 d.memory c.1;
  slices = d.slices;
})
add_slice_capacity (err e) d = ok d
add_slice_capacity panic d = panic
add_slice_capacity running d = running

unfoldable pub add_slice : ℕ → String → Demand → Outcome Demand
unfolding add_slice_capacity
add_slice quantity slice d =
    let noted : Demand = record {
      insufficient = d.insufficient;
      use_mig = true;
      cpu = d.cpu;
      memory = d.memory;
      slices =
          insert slice (add_int64 (or_default (pos 0) (lookup slice d.slices)) (pos quantity))
            d.slices;
    } in
    add_slice_capacity (extract_cpu_and_memory slice) noted

unfoldable pub compare_scalar : NodeInfo → String → ℕ → Demand → Demand
unfolding exceeds
compare_scalar node name quantity d =
    let capacity = or_default 0 (lookup name node.allocatable.scalar_resources) in
    let used = or_default 0 (lookup name node.requested.scalar_resources) in
    if exceeds quantity capacity used
    then record {
      insufficient =
          d.insufficient
          ++ record {
            resource_name = name;
            reason = "Insufficient " <> name;
            requested = quantity;
            used = used;
            capacity = capacity;
          }
            ∷ [];
      use_mig = d.use_mig;
      cpu = d.cpu;
      memory = d.memory;
      slices = d.slices;
    }
    else d

-- `rNameSplit[1]`, which panics where the name has no slash.
abbrev pub second : Option String → Outcome String
second none = panic
second (some part) = ok part

unfoldable pub ask_scalar : NodeInfo → String → ℕ → List String → Demand → Outcome Demand
unfolding add_slice compare_scalar
ask_scalar node name quantity parts d = second (get_elem? parts 1) >>= λ part.
    slice_to 3 part >>= λ head.
    if str_eq head mig_resource_prefix
    then (slice_from 4 part >>= λ slice. add_slice quantity slice d)
    else ok (compare_scalar node name quantity d)

-- One round of the loop.
unfoldable pub scalar_step : Ignored → NodeInfo → String × ℕ → Demand → Outcome Demand
unfolding skips ask_scalar
scalar_step ignored node (name, quantity) d =
    let parts = split_on 47 name in
    let asked = ask_scalar node name quantity parts d in
    if quantity == 0 then ok d else if skips ignored name parts then ok d else asked

unfoldable pub scalar_loop : Ignored → NodeInfo → Map String ℕ → Demand → Outcome Demand
unfolding scalar_step
scalar_loop ignored node scalars d = for_range (λ _. scalar_step ignored node) 0 scalars d
