-- ===== src/Autoscaler/Process.antt =====
-- How the Autoscaler treats a pod and a service: `getRevisionData`, `processPod`, `ProcessService` and
-- `shouldProcessService` of Autoscaler/autoscaler.go.
pub mod Guards
pub mod Services
mod Samples
use kube_comp_mig.Prelude.{
  ℕ, zero, String, Bool, true, false, not, ◌&&◌, ◌||◌, Option, none, some, List, [], ◌∷◌, ◌++◌,
  str_eq, if◌then◌else◌,
}
use kube_comp_mig.Prelude.Maps.{Map, string_eq, or_default, lookup}
use kube_comp_mig.Prelude.Floats.{Float64}
use kube_comp_mig.Prelude.Text.{codes, contains}
use kube_comp_mig.Prelude.Outcomes.{Outcome, ok, err, panic, running, wrap, ◌>>=◌}
use kube_comp_mig.Autoscaler.Resource.{GpuResource, mps, parse_gpu_resource}
use kube_comp_mig.Autoscaler.Registry.{Node}
use kube_comp_mig.Autoscaler.Traffic.{
  ScaleDecision, not_scaling, scaling_up, scaling_down, scaling_out, scaling_in,
}
use kube_comp_mig.Autoscaler.Scaler.{
  Quantities, ResourceRequirements, Metric, RevisionData, SimpleScaler, decide_scale,
}
use kube_comp_mig.Autoscaler.Knative.{Call, Cluster}
use kube_comp_mig.Autoscaler.Apply.{apply_scale}

-- `v1.Pod`, with the parts that are read here: of each container the names of the requested resources,
-- in the order of one `range`.
pub record PodView : Type 0 where
  pub name : String
  pub namespace : String
  pub labels : Map String String
  pub requests : List (List String)
  pub containers_ready : List Bool
  pub phase : String
  pub deleted : Bool

-- The loop over the container statuses.
unfoldable pub all_ready : List Bool → Bool
all_ready [] = true
all_ready (ready ∷ rest) = if not ready then false else all_ready rest

-- `strings.Contains(name, ignore)` for one of the ignored names
pub ignored : List String → String → Bool
unfolding contains
ignored [] name = false
ignored (i ∷ is) name = if contains (codes name) (codes i) then true else ignored is name

-- `shouldProcessService`, of a service with these labels.
pub should_process_service : List String → String → Map String String → Bool
unfolding ignored
should_process_service ignore_list name labels =
    if ignored ignore_list name
    then false
    else not (str_eq (or_default "" (lookup "auto-scaler" labels)) "scaling")

module _ ⦃fl : Float64⦄ where
  -- `var gpuResource GpuResource`
  abbrev pub zero_resource : GpuResource
  zero_resource = record {
    gpu_type = mps;
    gpu_name = "";
    cpu_size = fl.of_nat 0;
    mem_size = fl.of_nat 0;
  }

  -- The loop over the requests of the first container, which ends at the first name of a GPU.
  pub first_gpu : List String → Outcome GpuResource
  first_gpu [] = ok zero_resource
  first_gpu (name ∷ rest) =
      if contains (codes name) (codes "nvidia.com")
      then wrap "error parsing GPU resource" (parse_gpu_resource name)
      else first_gpu rest

  -- `Containers[0].Resources.Requests`
  pub pod_resource : List (List String) → Outcome GpuResource
  unfolding first_gpu
  pod_resource [] = panic
  pod_resource (names ∷ rest) = first_gpu names

  abbrev pub revision_name : PodView → String
  revision_name pod = or_default "" (lookup "serving.knative.dev/revision" pod.labels)

  pub get_revision_data : PodView → Outcome RevisionData
  unfolding pod_resource
  get_revision_data pod = pod_resource pod.requests >>= λ gpu. ok (record {
    name = revision_name pod;
    pod_name = pod.name;
    namespace = pod.namespace;
    svc_name = or_default "" (lookup "serving.knative.dev/service" pod.labels);
    metrics = [];
    gpu_resource = gpu;
  })

  module _ ⦃qt : Quantities⦄ where
    -- What `processPod` leaves: its result, the calls made so far, the latest first, and the events
    -- that it has sent to the exporter, in order.
    pub record Processed : Type 0 where
      pub result : Outcome (Unit {0})
      pub calls : List Call
      pub events : List (RevisionData × ScaleDecision)

    -- The parts that `processPod` uses, with fuel for the rounds of `WaitService`. `fetch` is
    -- `FetchPodMetrics`, and `none` its error; `nodes` are the nodes that the registry lists.
    pub record Parts : Type 0 where
      pub scaler : SimpleScaler
      pub nodes : List Node
      pub fetch : PodView → Option (List (Metric × fl.F))
      pub cluster : Cluster
      pub fuel : ℕ

    -- The event after the scaling, where `processPod` has not returned.
    pub last_event :
        RevisionData → ScaleDecision → Outcome (Unit {0}) → List (RevisionData × ScaleDecision)
    last_event rd d (ok u) = (rd, d) ∷ []
    last_event rd d (err e) = []
    last_event rd d panic = []
    last_event rd d running = []

    module _ (parts : Parts) where
      pub after_scale : RevisionData → ScaleDecision → Outcome (Unit {0}) × List Call → Processed
      unfolding last_event
      after_scale rd d (o, calls) = record {
        result = wrap "failed to apply scaling decision" o;
        calls = calls;
        events = last_event rd d o;
      }

      -- `if scaleDecision != NotScaling { … }`, and the last event.
      pub carry_out : RevisionData → List Call → ScaleDecision → ResourceRequirements → Processed
      unfolding after_scale
      carry_out rd h not_scaling res = after_scale rd not_scaling (ok tt, h)
      carry_out rd h scaling_up res =
          after_scale rd scaling_up (apply_scale parts.cluster parts.fuel scaling_up rd res h)
      carry_out rd h scaling_down res =
          after_scale rd scaling_down (apply_scale parts.cluster parts.fuel scaling_down rd res h)
      carry_out rd h scaling_out res =
          after_scale rd scaling_out (apply_scale parts.cluster parts.fuel scaling_out rd res h)
      carry_out rd h scaling_in res =
          after_scale rd scaling_in (apply_scale parts.cluster parts.fuel scaling_in rd res h)

      abbrev pub ends : Outcome (Unit {0}) → List Call → Processed
      ends o h = record { result = o; calls = h; events = [] }

      pub decided :
          RevisionData → List Call → Outcome (ScaleDecision × ResourceRequirements) → Processed
      unfolding carry_out
      decided rd h (ok (d, res)) = carry_out rd h d res
      decided rd h (err e) = ends (err e) h
      decided rd h panic = ends panic h
      decided rd h running = ends running h

      -- Steps 3 and 4.
      pub with_metrics : RevisionData → List Call → Option (List (Metric × fl.F)) → Processed
      unfolding decided
      with_metrics rd h none = ends (err "failed to fetch metrics") h
      with_metrics rd h (some metrics) =
          let full = record rd { metrics = metrics } in
          decided full h (decide_scale parts.scaler parts.nodes full)

      -- From step 2 on.
      pub with_data : PodView → RevisionData → List Call → Processed
      unfolding with_metrics all_ready
      with_data pod rd h =
          if not (all_ready pod.containers_ready)
          then ends (err "pod is not ready") h
          else if not (str_eq pod.phase "Running") || pod.deleted
          then ends (err "pod is not running") h
          else with_metrics rd h (parts.fetch pod)

      pub start : PodView → Outcome RevisionData → List Call → Processed
      unfolding with_data
      start pod (ok rd) h =
          let p = with_data pod rd h in record p { events = (rd, not_scaling) ∷ p.events }
      start pod (err e) h = ends (err "failed to get revision data") h
      start pod panic h = ends panic h
      start pod running h = ends running h

      pub process_pod : PodView → List Call → Processed
      unfolding start get_revision_data
      process_pod pod h = start pod (get_revision_data pod) h

      -- The loop of `ProcessService`: an error of one pod is logged, and the next pod follows.
      pub goes_on : Outcome (Unit {0}) → Processed → Processed → Processed
      goes_on (ok u) p q = record q { events = p.events ++ q.events }
      goes_on (err e) p q = record q { events = p.events ++ q.events }
      goes_on panic p q = p
      goes_on running p q = p

      pub process_pods : List PodView → List Call → Processed
      unfolding goes_on process_pod
      process_pods [] h = ends (ok tt) h
      process_pods (pod ∷ pods) h =
          let p = process_pod pod h in goes_on p.result p (process_pods pods p.calls)

      -- `ProcessService`, from the answer of the API to the listing of its pods.
      pub process_service : Option (List PodView) → List Call → Processed
      unfolding process_pods
      process_service none h = ends (err "failed to list pods for service") h
      process_service (some pods) h = process_pods pods h
