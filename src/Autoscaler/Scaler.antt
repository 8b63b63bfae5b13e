-- ===== src/Autoscaler/Scaler.antt =====
-- The scaling policy (Autoscaler/scaler.go, `RevisionData` of autoscaler.go, `Metric` of
-- metricsFetcher.go). Metrics are listed in the order of one `range` over the map.
pub mod Votes
pub mod Decision
use kube_comp_mig.Prelude.{
  ℕ, String, Bool, ◌||◌, Option, none, some, List, [], ◌∷◌, str_eq, if◌then◌else◌,
}
use kube_comp_mig.Prelude.Floats.{Float64}
use kube_comp_mig.Prelude.Maps.{Map}
use kube_comp_mig.Prelude.Outcomes.{Outcome, ok, err, panic, running, ◌>>=◌}
use kube_comp_mig.Autoscaler.Resource.{GpuResource}
use kube_comp_mig.Autoscaler.Registry.{
  Node, get_same_avail_tier, get_prev_avail_tier, get_next_avail_tier,
}
use kube_comp_mig.Autoscaler.Traffic.{
  ScaleDecision, not_scaling, scaling_up, scaling_down, scaling_out, scaling_in,
}

-- `resource.Quantity` of k8s.io/apimachinery, and its parser; `none` is a parse error.
pub record Quantities : Type 1 where
  pub Quantity : Type 0
  pub parse_quantity : String → Option Quantity

-- `resource.MustParse`
unfoldable pub must_parse : ⦃qt : Quantities⦄ → String → Outcome qt.Quantity
must_parse ⦃qt⦄ s = elim (qt.parse_quantity s) [ none ↦ panic | some q ↦ ok q ]

-- `v1.ResourceRequirements`
pub record ResourceRequirements ⦃qt : Quantities⦄ : Type 0 where
  pub limits : Map String qt.Quantity
  pub requests : Map String qt.Quantity

module _ ⦃fl : Float64⦄ where
  -- `Metric`
  pub record Metric : Type 0 where
    pub name : String
    pub query : String
    pub slo : fl.F
    pub scale_down_factor : fl.F
    pub scale_up_factor : fl.F

  -- `RevisionData`
  pub record RevisionData : Type 0 where
    pub name : String
    pub pod_name : String
    pub namespace : String
    pub svc_name : String
    pub metrics : List (Metric × fl.F)
    pub gpu_resource : GpuResource

  -- The body of the loop over the metrics: what the decision becomes.
  pub vote : Metric → fl.F → ScaleDecision → ScaleDecision
  vote m value decision =
      if fl.is_nan value || fl.lt value (fl.mul m.slo m.scale_down_factor)
      then scaling_down
      else if fl.lt (fl.mul m.slo m.scale_up_factor) value
      then scaling_up
      else decision

  pub votes : List (Metric × fl.F) → ScaleDecision → ScaleDecision
  unfolding vote
  votes [] decision = decision
  votes ((m, value) ∷ rest) decision = votes rest (vote m value decision)

-- `SimpleScaler`, without the registry, which is an argument here
pub record SimpleScaler : Type 0 where
  pub default_cpu : String
  pub default_memory : String

-- `os.Getenv`: the empty text where a variable is not set.
env_or : (String → String) → String → String → String
env_or getenv name default = if str_eq (getenv name) "" then default else getenv name

-- `NewSimpleScaler`
pub new_simple_scaler : (String → String) → SimpleScaler
unfolding env_or
new_simple_scaler getenv = record {
  default_cpu = env_or getenv "DEFAULT_CPU" "1";
  default_memory = env_or getenv "DEFAULT_MEMORY" "10Gi";
}

module _ ⦃fl : Float64⦄ ⦃qt : Quantities⦄ where
  abbrev pub no_requirements : ResourceRequirements
  no_requirements = record { limits = []; requests = [] }

  -- `resourceRequirements` of the three checks: limits and requests are the same. The texts are parsed
  -- in the order of the literal; those of the requests are the same texts again.
  pub one_gpu : SimpleScaler → String → Outcome ResourceRequirements
  unfolding must_parse
  one_gpu s gpu_name = must_parse s.default_cpu >>= λ cpu. must_parse s.default_memory >>= λ memory.
      must_parse "1" >>= λ one.
      let list = ("cpu", cpu) ∷ ("memory", memory) ∷ (gpu_name, one) ∷ [] in
      ok (record { limits = list; requests = list })

  -- The two ways in which each check goes on from the registry's answer.
  pub with_tier :
      SimpleScaler
      → ScaleDecision
      → Outcome GpuResource
      → Outcome (ScaleDecision × ResourceRequirements)
  unfolding one_gpu
  with_tier s decision (ok tier) =
      one_gpu s tier.gpu_name >>= λ requirements. ok (decision, requirements)
  with_tier s decision (err e) = ok (not_scaling, no_requirements)
  with_tier s decision panic = panic
  with_tier s decision running = running

  module _ (s : SimpleScaler) (nodes : List Node) where
    -- `checkScaleDown`
    pub check_scale_down : RevisionData → Outcome (ScaleDecision × ResourceRequirements)
    unfolding with_tier
    check_scale_down r = with_tier s scaling_down (get_prev_avail_tier nodes r.gpu_resource)

    -- `checkScaleUp`
    pub check_scale_up : RevisionData → Outcome (ScaleDecision × ResourceRequirements)
    unfolding with_tier
    check_scale_up r = with_tier s scaling_up (get_next_avail_tier nodes r.gpu_resource)

    -- `checkScaleIn`
    pub check_scale_in : RevisionData → Outcome (ScaleDecision × ResourceRequirements)
    check_scale_in r = ok (scaling_in, no_requirements)

    -- `checkScaleOut`
    pub check_scale_out : RevisionData → Outcome (ScaleDecision × ResourceRequirements)
    unfolding with_tier
    check_scale_out r = with_tier s scaling_out (get_same_avail_tier nodes r.gpu_resource)

    -- The switch at the end of `DecideScale`.
    pub check : ScaleDecision → RevisionData → Outcome (ScaleDecision × ResourceRequirements)
    unfolding check_scale_down check_scale_up
    check scaling_down r = check_scale_down r
    check scaling_up r = check_scale_up r
    check _ r = ok (not_scaling, no_requirements)

    -- `DecideScale`
    unfoldable pub decide_scale : RevisionData → Outcome (ScaleDecision × ResourceRequirements)
    unfolding check votes
    decide_scale r = check (votes r.metrics not_scaling) r
