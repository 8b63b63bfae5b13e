-- ===== src/Reconfig/Reconcile/Samples.antt =====
-- A node whose reconfiguration is asked for, on a cluster where every pod is gone after ten calls.
use kube_comp_mig.Prelude.{
  ◌≡◌, refl, ◌⊎◌, true, false, none, some, List, [], ◌∷◌, map, arith, length, ltb, if◌then◌else◌,
}
use kube_comp_mig.Prelude.Parsing.{itoa}
use kube_comp_mig.Prelude.Outcomes.{ok}
use kube_comp_mig.Reporter.Devices.{join}
use kube_comp_mig.Reconfig.Location.{label_ids}
use kube_comp_mig.Reconfig.Location.Written.{label_ids-join}
use kube_comp_mig.Reconfig.Selector.{Pod}
use kube_comp_mig.Reconfig.Usage.{pending}
use kube_comp_mig.Reconfig.Stopping.{Call, Cluster, Node, stop_pods}
use kube_comp_mig.Reconfig.Stopping.Waiting.{Gone, stop_pods-ends}
use kube_comp_mig.Reconfig.Reconcile.{reconcile}
use kube_comp_mig.Reconfig.Reconcile.Untainted.{Untouched, Cut, EndsClean, reconcile-EndsClean}

label_ids-join_example : label_ids (join (map itoa (0 ∷ 12 ∷ []))) ≡ 0 ∷ 12 ∷ []
label_ids-join_example = label_ids-join (0 ∷ 12 ∷ []) (omega arith, (omega arith, tt))

abbrev a_node : Node
a_node = record {
  name = "node1";
  labels = ("targetPod", "model") ∷ ("nvidia.com/mig.config", "all-1g.5gb") ∷ [];
  taints = record { key = "gpu"; value = "yes" } ∷ [];
}

abbrev slow_cluster : Cluster
slow_cluster = record {
  node = λ h. (a_node, true);
  target = λ h. some (record {
    node_name = "";
    spec = record { name = "model"; namespace = "default"; phase = pending; containers = [] };
  });
  accepts_node = λ h. true;
  pods = λ h. some ([], []);
  pod = λ p h. if ltb (length h) 10 then some (("pod-template-hash", "abc") ∷ []) else none;
  accepts_delete = λ p h. true;
  daemon_set = λ h. true;
  reporters = λ h. none;
  mig_state = λ h. "success";
}

slow_cluster-Gone : Gone slow_cluster 10
slow_cluster-Gone p h l = let late : ltb (length h) 10 ≡ false = ground arith in rw (late) refl

abbrev two_pods : List Pod
two_pods =
    record { name = "a"; namespace = "default" } ∷ record { name = "b"; namespace = "default" } ∷ []

stop_pods-ends_example :
    (g : List Call) × (stop_pods slow_cluster 11 two_pods "node1" [] ≡ (ok tt, g))
stop_pods-ends_example =
    stop_pods-ends slow_cluster 10 11 two_pods "node1" [] slow_cluster-Gone (omega arith)

reconcile-EndsClean_example :
    Untouched [] (reconcile slow_cluster 3 [] []).1
    ⊎ (Cut (reconcile slow_cluster 3 [] []).0 ⊎ EndsClean (reconcile slow_cluster 3 [] []).1)
reconcile-EndsClean_example = reconcile-EndsClean slow_cluster 3 [] []
