-- ===== src/Autoscaler/Samples.antt =====
-- A small cluster, and what the registry and the scaler make of it.
use kube_comp_mig.Prelude.{ℕ, String, ◌≡◌, refl, Option, none, some, List, [], ◌∷◌, ◌++◌, inl}
use kube_comp_mig.Prelude.Samples.{small_floats}
use kube_comp_mig.Prelude.Outcomes.{ok}
use kube_comp_mig.Autoscaler.Resource.{
  GpuResource, mig, parse_gpu_resource, normal_resource, resource_eq,
}
use kube_comp_mig.Autoscaler.Registry.{
  Node, tiers, avail_of, update_avail_tiers, get_next_avail_tier, get_prev_avail_tier,
}
use kube_comp_mig.Autoscaler.Registry.Tiers.{FirstFree, next_tier, prev_tier}
use kube_comp_mig.Autoscaler.Registry.Availability.{
  last_reported, avail-last_reported, Unavailable, whole_gpu-Unavailable,
}
use kube_comp_mig.Autoscaler.Traffic.{scaling_up, scaling_down, not_scaling}
use kube_comp_mig.Autoscaler.Scaler.{
  Quantities, SimpleScaler, Metric, RevisionData, votes, decide_scale,
}
use kube_comp_mig.Autoscaler.Scaler.Votes.{agreed_votes, contradicting_votes}
use kube_comp_mig.Autoscaler.Scaler.Decision.{Justified, decide_scale_sound}

abbrev slice : String → ℕ → ℕ → GpuResource
slice name cpu mem = record {
  gpu_type = mig;
  gpu_name = name;
  cpu_size = some cpu;
  mem_size = some mem;
}

abbrev g1 : GpuResource
g1 = slice "nvidia.com/mig-1g.5gb" 1 5

abbrev g2 : GpuResource
g2 = slice "nvidia.com/mig-2g.10gb" 2 10

abbrev above_g2 : List GpuResource
above_g2 =
    slice "nvidia.com/mig-3g.20gb" 3 20
    ∷ slice "nvidia.com/mig-4g.20gb" 4 20
    ∷ slice "nvidia.com/mig-7g.40gb" 7 40
    ∷ []

-- The second node hides the two slices of the first.
abbrev pub nodes : List Node
nodes =
    record { allocatable = ("nvidia.com/mig-3g.20gb", 2) ∷ ("cpu", 8) ∷ [] }
    ∷ record { allocatable = ("nvidia.com/mig-3g.20gb", 0) ∷ ("nvidia.com/mig-7g.40gb", 1) ∷ [] }
    ∷ []

tiers-g2 : tiers mig ≡ (g1 ∷ []) ++ g2 ∷ above_g2
unfolding tiers
tiers-g2 = refl

next_of_g2 : get_next_avail_tier nodes g2 ≡ ok (slice "nvidia.com/mig-7g.40gb" 7 40)
unfolding get_next_avail_tier parse_gpu_resource resource_eq
next_of_g2 = refl

next_tier_example :
    FirstFree (avail_of (update_avail_tiers nodes) mig) above_g2 (get_next_avail_tier nodes g2)
next_tier_example = next_tier nodes (g1 ∷ []) g2 above_g2 tiers-g2

prev_tier_example :
    FirstFree (avail_of (update_avail_tiers nodes) mig) (g1 ∷ []) (get_prev_avail_tier nodes g2)
prev_tier_example = prev_tier nodes (g1 ∷ []) g2 above_g2 tiers-g2

parse-g2 : parse_gpu_resource "nvidia.com/mig-2g.10gb" ≡ ok g2
unfolding parse_gpu_resource
parse-g2 = refl

avail-last_reported_example :
    avail_of (update_avail_tiers nodes) mig g2 ≡ last_reported "nvidia.com/mig-2g.10gb" nodes
avail-last_reported_example = avail-last_reported nodes g2 parse-g2 (λ h. cc)

parse-whole : parse_gpu_resource "nvidia.com/gpu" ≡ ok (normal_resource "nvidia.com/gpu")
unfolding parse_gpu_resource
parse-whole = refl

whole_gpu-Unavailable_example :
    Unavailable
      (record { allocatable = ("nvidia.com/gpu", 4) ∷ [] } ∷ [])
      (normal_resource "nvidia.com/gpu")
whole_gpu-Unavailable_example =
    whole_gpu-Unavailable (record { allocatable = ("nvidia.com/gpu", 4) ∷ [] } ∷ [])
      (normal_resource "nvidia.com/gpu") parse-whole

-- A quantity is its text; the empty text is none.
instance abbrev pub texts : Quantities
texts = record { Quantity = String; parse_quantity = some }

abbrev latency : Metric
latency = record {
  name = "latency";
  query = "q";
  slo = some 10;
  scale_down_factor = some 1;
  scale_up_factor = some 2;
}

abbrev pub slow : Metric × Option ℕ
slow = (latency, some 25)

abbrev absent : Metric × Option ℕ
absent = (latency, none)

abbrev revision : RevisionData
revision = record {
  name = "m-00001";
  pod_name = "m-00001-pod";
  namespace = "default";
  svc_name = "m";
  metrics = slow ∷ [];
  gpu_resource = g2;
}

abbrev pub scaler : SimpleScaler
scaler = record { default_cpu = "1"; default_memory = "10Gi" }

abbrev asked : List (String × String)
asked = ("cpu", "1") ∷ ("memory", "10Gi") ∷ ("nvidia.com/mig-7g.40gb", "1") ∷ []

decides_up :
    decide_scale scaler nodes revision
    ≡ ok (scaling_up, record { limits = asked; requests = asked })
unfolding decide_scale get_next_avail_tier parse_gpu_resource resource_eq
decides_up = refl

agreed_votes_example : votes (slow ∷ []) not_scaling ≡ scaling_up
agreed_votes_example = agreed_votes scaling_up (slow ∷ []) ((refl, tt), inl refl)

contradicting_votes_example :
    (votes (absent ∷ slow ∷ []) not_scaling ≡ scaling_up)
    × (votes (slow ∷ absent ∷ []) not_scaling ≡ scaling_down)
contradicting_votes_example = contradicting_votes absent slow not_scaling refl refl

decide_scale_sound_example :
    Justified scaler
      (avail_of (update_avail_tiers nodes) mig)
      (g1 ∷ [])
      above_g2
      scaling_up
      (record { limits = asked; requests = asked })
decide_scale_sound_example =
    decide_scale_sound scaler nodes revision (g1 ∷ []) above_g2 scaling_up
      (record { limits = asked; requests = asked }) tiers-g2 decides_up
