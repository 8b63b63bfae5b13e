-- ===== src/Autoscaler/Process/Samples.antt =====
-- A pod of a service with two revisions.
use kube_comp_mig.Prelude.{true, false, ◌≡◌, ◌⊎◌, some, [], ◌∷◌}
use kube_comp_mig.Prelude.Samples.{small_floats}
use kube_comp_mig.Prelude.Outcomes.{ok}
use kube_comp_mig.Autoscaler.Scaler.{RevisionData}
use kube_comp_mig.Autoscaler.Samples.{texts, scaler, nodes, slow}
use kube_comp_mig.Autoscaler.Apply.Samples.{small_cluster}
use kube_comp_mig.Autoscaler.Process.{
  PodView, Parts, get_revision_data, process_pod, process_service,
}
use kube_comp_mig.Autoscaler.Process.Guards.{Guarded, process_pod-Guarded}
use kube_comp_mig.Autoscaler.Process.Services.{OnlyOwn, process_service-OnlyOwn}

abbrev small_parts : Parts
small_parts = record {
  scaler = scaler;
  nodes = nodes;
  fetch = λ pod. some (slow ∷ []);
  cluster = small_cluster;
  fuel = 603;
}

abbrev ready_pod : PodView
ready_pod = record {
  name = "m-1-pod";
  namespace = "default";
  labels = ("serving.knative.dev/revision", "m-1") ∷ ("serving.knative.dev/service", "m") ∷ [];
  requests = ("cpu" ∷ "nvidia.com/mig-2g.10gb" ∷ []) ∷ [];
  containers_ready = true ∷ [];
  phase = "Running";
  deleted = false;
}

process_pod-Guarded_example :
    ((process_pod small_parts ready_pod []).calls ≡ [])
    ⊎ ((rd : RevisionData) × (get_revision_data ready_pod ≡ ok rd)
        × Guarded small_parts ready_pod rd [] (process_pod small_parts ready_pod []).calls)
process_pod-Guarded_example = process_pod-Guarded small_parts ready_pod []

process_service-OnlyOwn_example :
    OnlyOwn small_parts
      (ready_pod ∷ [])
      []
      (process_service small_parts (some (ready_pod ∷ [])) []).calls
process_service-OnlyOwn_example = process_service-OnlyOwn small_parts (ready_pod ∷ []) []
