-- ===== src/Autoscaler/Registry.antt =====
-- The registry of GPU tiers (Autoscaler/gpuRegistry.go). The nodes that a query of the cluster returns
-- are an argument; the program drops the query's error, and then there are none.
pub mod Search
pub mod Availability
pub mod Tiers
use kube_comp_mig.Prelude.{
  ℕ, zero, suc, ◌+◌, ◌-◌, String, Bool, true, false, ◌&&◌, Option, none, some, List, [], ◌∷◌, ◌++◌,
  ltb, str_eq, if◌then◌else◌, length, get_elem?,
}
use kube_comp_mig.Prelude.Floats.{Float64}
use kube_comp_mig.Prelude.Maps.{Map}
use kube_comp_mig.Prelude.Outcomes.{Outcome, ok, err, panic, running}
use kube_comp_mig.Autoscaler.Resource.{
  GpuType, mps, mig, normal, type_eq, GpuResource, resource_eq, normal_resource, parse_gpu_resource,
}

-- `v1.Node`, with the part of its status that the registry reads: `Status.Allocatable`, each quantity
-- by its `Value()`.
pub record Node : Type 0 where
  pub allocatable : Map String ℕ

module _ ⦃fl : Float64⦄ where
  -- `map[GpuResource]int`. A key with a NaN equals no key, not even itself.
  abbrev pub Counts : Type 0
  Counts = List (GpuResource × ℕ)

  -- `availTiers`; a type that was never entered has no counts.
  abbrev pub AvailTiers : Type 0
  AvailTiers = GpuType → Counts

  unfoldable pub count : Counts → GpuResource → ℕ
  count [] r = 0
  count ((k, n) ∷ m) r = if resource_eq k r then n else count m r

  unfoldable pub set_count : GpuResource → ℕ → Counts → Counts
  set_count r n [] = (r, n) ∷ []
  set_count r n ((k, v) ∷ m) = if resource_eq k r then (k, n) ∷ m else (k, v) ∷ set_count r n m

  -- One entry of `Status.Allocatable`; a name that is no GPU resource is skipped.
  add_quantity : AvailTiers → Outcome GpuResource → ℕ → AvailTiers
  unfolding set_count
  add_quantity avail (ok r) n =
      λ t. if type_eq r.gpu_type t then set_count r n (avail t) else avail t
  add_quantity avail (err e) n = avail
  add_quantity avail panic n = avail
  add_quantity avail running n = avail

  add_node : AvailTiers → Map String ℕ → AvailTiers
  unfolding add_quantity
  add_node avail [] = avail
  add_node avail ((name, n) ∷ rest) = add_node (add_quantity avail (parse_gpu_resource name) n) rest

  add_nodes : AvailTiers → List Node → AvailTiers
  unfolding add_node
  add_nodes avail [] = avail
  add_nodes avail (node ∷ rest) = add_nodes (add_node avail node.allocatable) rest

  -- `UpdateAvailTiers`
  pub update_avail_tiers : List Node → AvailTiers
  unfolding add_nodes
  update_avail_tiers = add_nodes (λ t. [])

  -- `gtr.availTiers[current.gpuType][r]`
  pub avail_of : AvailTiers → GpuType → GpuResource → ℕ
  unfolding count
  avail_of avail t r = count (avail t) r

  -- A tier of the tables that `NewGpuTierRegistry` writes out.
  abbrev tier : GpuType → String → ℕ → ℕ → GpuResource
  tier t name cpu mem = record {
    gpu_type = t;
    gpu_name = name;
    cpu_size = fl.of_nat cpu;
    mem_size = fl.of_nat mem;
  }

  -- `gtr.tiers`
  unfoldable pub tiers : GpuType → List GpuResource
  tiers mig =
      tier mig "nvidia.com/mig-1g.5gb" 1 5
      ∷ tier mig "nvidia.com/mig-2g.10gb" 2 10
      ∷ tier mig "nvidia.com/mig-3g.20gb" 3 20
      ∷ tier mig "nvidia.com/mig-4g.20gb" 4 20
      ∷ tier mig "nvidia.com/mig-7g.40gb" 7 40
      ∷ []
  tiers mps =
      tier mps "nvidia.com/gpu-1gb" 1 1
      ∷ tier mps "nvidia.com/gpu-2gb" 2 2
      ∷ tier mps "nvidia.com/gpu-3gb" 3 3
      ∷ tier mps "nvidia.com/gpu-4gb" 4 4
      ∷ tier mps "nvidia.com/gpu-5gb" 5 5
      ∷ tier mps "nvidia.com/gpu-6gb" 6 6
      ∷ tier mps "nvidia.com/gpu-7gb" 7 7
      ∷ tier mps "nvidia.com/gpu-8gb" 8 8
      ∷ tier mps "nvidia.com/gpu-9gb" 9 9
      ∷ tier mps "nvidia.com/gpu-10gb" 10 10
      ∷ tier mps "nvidia.com/gpu-11gb" 11 11
      ∷ tier mps "nvidia.com/gpu-12gb" 12 12
      ∷ tier mps "nvidia.com/gpu-13gb" 13 13
      ∷ []
  tiers normal = normal_resource "nvidia.com/gpu" ∷ []

  -- `GetAllTiers`
  pub get_all_tiers : GpuType → List GpuResource
  unfolding tiers
  get_all_tiers t = tiers t

  -- `if gtr.availTiers[current.gpuType][list[i]] > 0 { return list[i], nil }`, or the rounds after it.
  pub probe : (GpuResource → ℕ) → Option GpuResource → Option GpuResource → Option GpuResource
  probe avail none rest = rest
  probe avail (some r) rest = if ltb 0 (avail r) then some r else rest

  -- `for i := idx - 1; i >= 0; i--`: `i` is one more than the index that is looked at next.
  pub scan_down : (GpuResource → ℕ) → List GpuResource → ℕ → Option GpuResource
  unfolding probe
  scan_down avail list zero = none
  scan_down avail list (suc i) = probe avail (get_elem? list i) (scan_down avail list i)

  -- `for i := idx + 1; i < len(list); i++`, with `left` rounds to go.
  pub scan_up : (GpuResource → ℕ) → List GpuResource → ℕ → ℕ → Option GpuResource
  unfolding probe
  scan_up avail list zero i = none
  scan_up avail list (suc left) i = probe avail (get_elem? list i) (scan_up avail list left (i + 1))

  -- A scan that returns ends the search; one that does not lets it go on.
  pub first_of_two : Option GpuResource → Option GpuResource → Option GpuResource
  first_of_two (some r) later = some r
  first_of_two none later = later

  -- `for idx, tier := range list { if tier.gpuName == current.gpuName { … } }`
  pub at_name : String → (ℕ → Option GpuResource) → ℕ → List GpuResource → Option GpuResource
  unfolding first_of_two
  at_name name scan idx [] = none
  at_name name scan idx (r ∷ rest) =
      let later = at_name name scan (idx + 1) rest in
      if str_eq r.gpu_name name then first_of_two (scan idx) later else later

  found_or : String → Option GpuResource → Outcome GpuResource
  found_or message (some r) = ok r
  found_or message none = err message

  pub prev_in : (GpuResource → ℕ) → List GpuResource → GpuResource → Option GpuResource
  unfolding at_name scan_down
  prev_in avail list current = at_name current.gpu_name (scan_down avail list) 0 list

  pub next_in : (GpuResource → ℕ) → List GpuResource → GpuResource → Option GpuResource
  unfolding at_name scan_up
  next_in avail list current =
      at_name current.gpu_name (λ idx. scan_up avail list (length list - (idx + 1)) (idx + 1)) 0
        list

  -- `GetSameAvailTier`
  pub get_same_avail_tier : List Node → GpuResource → Outcome GpuResource
  get_same_avail_tier nodes current =
      if ltb 0 (avail_of (update_avail_tiers nodes) current.gpu_type current)
      then ok current
      else err "no same available tier found"

  -- `GetPrevAvailTier`
  unfoldable pub get_prev_avail_tier : List Node → GpuResource → Outcome GpuResource
  unfolding found_or prev_in next_in avail_of update_avail_tiers tiers
  get_prev_avail_tier nodes current = found_or "no prev available tier found" (
      prev_in (avail_of (update_avail_tiers nodes) current.gpu_type) (tiers current.gpu_type)
        current)

  -- `GetNextAvailTier`
  unfoldable pub get_next_avail_tier : List Node → GpuResource → Outcome GpuResource
  unfolding found_or prev_in next_in avail_of update_avail_tiers tiers
  get_next_avail_tier nodes current = found_or "no next available tier found" (
      next_in (avail_of (update_avail_tiers nodes) current.gpu_type) (tiers current.gpu_type)
        current)
