-- ===== src/Reconfig/Usage/Samples.antt =====
-- A node with a running pod, one that has ended, and a target pod.
use kube_comp_mig.Prelude.{ℕ, ◌+◌, String, ◌≡◌, List, [], ◌∷◌}
use kube_comp_mig.Reconfig.Usage.{Phase, running_phase, succeeded, pending, PodSpec, requested}
use kube_comp_mig.Reconfig.Usage.Demand.{asked_pod, asked_node, count, requested-asked}

abbrev pod_asking : String → Phase → ℕ → PodSpec
pod_asking name phase n = record {
  name = name;
  namespace = "default";
  phase = phase;
  containers = (("cpu", 4) ∷ ("nvidia.com/mig-2g.10gb", n) ∷ []) ∷ [];
}

abbrev node_pods : List PodSpec
node_pods = pod_asking "a" running_phase 1 ∷ pod_asking "b" succeeded 3 ∷ []

requested-asked_example :
    count "nvidia.com/mig-2g.10gb" (requested node_pods (pod_asking "t" pending 2))
    ≡ asked_node "nvidia.com/mig-2g.10gb" node_pods
      + asked_pod "nvidia.com/mig-2g.10gb" (pod_asking "t" pending 2).containers
requested-asked_example =
    requested-asked "nvidia.com/mig-2g.10gb" node_pods (pod_asking "t" pending 2)
